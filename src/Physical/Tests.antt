-- ===== src/Physical/Tests.antt =====
-- Runs and instances of the page allocator on a memory of 1 MB.
use system_related_projects.Base.{
  ℕ, suc, ◌+◌, ◌*◌, ◌<◌, ◌≡◌, refl, [], ◌∷◌, arith, zero, get_or, replicate, test_bit, set_bit,
  length,
}
use system_related_projects.Base.Result.{done, Returns, ◌>>=◌}
use system_related_projects.Physical.{
  Physical, page_alloc, page_free, page_alloc_high, page_alloc_low, page_alloc_limit,
  page_alloc_address, is_page_free, lock_bitmap, unlock_bitmap,
}
use system_related_projects.Physical.Serving.{
  free_pages, count_free, page_allocs, page_allocs-served,
}
use system_related_projects.Physical.Clients.{Machine, here, next, allocate, IsSafe, Reach-IsSafe}
use system_related_projects.Physical.Bitmap.{taken, IsValid}
use system_related_projects.Physical.Alloc.{Granted, held, page_alloc-Granted}
use system_related_projects.Physical.Init.{MemoryMap, MultibootInfo, physical_init}
use system_related_projects.Physical.Booting.{Initialised, physical_init-Initialised}
use system_related_projects.Physical.Free.{page_alloc-page_free}

-- Page 0 is taken, the rest is free.
abbrev one_mb : Physical
one_mb = record {
  bitmap = 128 ∷ replicate 31 0;
  bitmap_size = 32;
  max_address = 0x100000;
  calls = [];
}

abbrev zero_byte : ℕ
zero_byte = 0

zeros : (n i : ℕ) → get_or (replicate n zero_byte) i zero_byte ≡ zero_byte
zeros zero i = refl
zeros (suc n) zero = refl
zeros (suc n) (suc i) = zeros n i

one_mb-bytes : (i : ℕ) → get_or one_mb.bitmap i 0 < 256
one_mb-bytes zero = omega arith
one_mb-bytes (suc i) = let z = zeros 31 i in omega arith

one_mb-IsValid : IsValid one_mb
one_mb-IsValid = record {
  sized = refl;
  bytes = one_mb-bytes;
  covers = refl;
  some_memory = omega arith;
  below_top = omega arith;
}

page_alloc-Granted_example :
    Returns
      (λ a s'.
        Granted one_mb a s'
        × IsValid s'
        × (held s'.calls ≡ held one_mb.calls)
        × (s'.max_address ≡ one_mb.max_address))
      (page_alloc one_mb)
page_alloc-Granted_example = page_alloc-Granted one_mb-IsValid

page_alloc-page_free_example :
    Returns
      (λ _ t. (q : ℕ) → taken t.bitmap q ≡ taken one_mb.bitmap q)
      ((page_alloc >>= page_free) one_mb)
page_alloc-page_free_example = page_alloc-page_free one_mb-IsValid

-- 64 MB, a kernel of 16 pages at 1 MB, and no memory map.
abbrev boot : MultibootInfo
boot = record { flags = 1; mem_upper = 64512; mmap_length = 0; mmap = 0 }

abbrev no_entry : ℕ → MemoryMap
no_entry a = record { size = 20; base_low = 0; length_low = 0; type = 0 }

physical_init-Initialised_example :
    Returns
      (Initialised one_mb 64 256 17)
      (physical_init no_entry 18 (4096 * 256) 0x110000 boot one_mb)
physical_init-Initialised_example =
    physical_init-Initialised no_entry 18 256 17 0x110000 boot one_mb refl refl (omega arith)
      (omega arith) (omega arith) (omega arith) (omega arith)

-- The first page is handed out.
abbrev one_taken : Physical
one_taken = record one_mb {
  bitmap = 192 ∷ replicate 31 0;
  calls = unlock_bitmap ∷ lock_bitmap ∷ unlock_bitmap ∷ lock_bitmap ∷ [];
}

first_page : page_alloc one_mb ≡ done 4096 one_taken
unfolding page_alloc page_alloc_high page_alloc_low page_alloc_limit page_alloc_address is_page_free
    test_bit set_bit
first_page = refl

abbrev start : Machine
start = record { memory = one_mb; owned = [] }

abbrev one_page : Machine
one_page = record { memory = one_taken; owned = 4096 ∷ [] }

Reach-IsSafe_example : IsSafe one_page
Reach-IsSafe_example =
    Reach-IsSafe one_mb-IsValid refl
      (next here (allocate start 4096 one_taken first_page (omega arith)))

nothing_held : IsSafe (record { memory = one_mb; owned = [] })
nothing_held = record { valid = one_mb-IsValid; marked = tt; distinct = tt }

free_in_one_mb : free_pages one_mb ≡ 255
unfolding free_pages count_free taken test_bit
free_in_one_mb = refl

page_allocs-served_example :
    Returns
      (λ held s'.
        (length held ≡ 200)
        × IsSafe (record { memory = s'; owned = held })
        × (free_pages s' + 200 ≡ free_pages one_mb))
      (page_allocs 200 [] one_mb)
page_allocs-served_example = page_allocs-served 200 nothing_held (omega (arith, free_in_one_mb))
