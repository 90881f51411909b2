-- ===== src/Physical/Booting.antt =====
-- `physical_init` without a memory map.
use system_related_projects.Base.{
  ℕ, zero, suc, ◌+◌, ◌-◌, ◌*◌, ◌/◌, ◌%◌, ◌^◌, ◌≤◌, ◌<◌, ◌≡◌, refl, true, false, ◌&&◌, ◌||◌, ◌==◌,
  ltb, leb, ◌∷◌, replicate, arith, get_or, length-replicate, ◌∙◌, test_bit,
}
use system_related_projects.Base.Int.{ℤ, success}
use system_related_projects.Base.Result.{
  done, Returns, returns, Returns-bind, Returns-mono, Returns-of,
}
use system_related_projects.Physical.{Physical, Call, size_4kb, add32}
use system_related_projects.Physical.Bitmap.{
  taken, IsValid, mark, mark-IsValid, taken-mark, page_alloc_address_lem,
}
use system_related_projects.Physical.Init.{
  MemoryMap, MultibootInfo, flag_mem, flag_mmap, vga_paddress, reserve, megabytes, has_flag,
  physical_init,
}

-- `t` is `s` with the `n` pages from `p` on taken.
pub record Reserved (s : Physical) (p n : ℕ) (t : Physical) : Type 0 where
  pub is_valid : IsValid t
  pub max : t.max_address ≡ s.max_address
  pub calls : t.calls ≡ s.calls
  pub bits : (q : ℕ) → taken t.bitmap q ≡ (taken s.bitmap q || (leb p q && ltb q (p + n)))

reserve-end : (f a stop : ℕ) (s : Physical) → stop ≤ a → reserve (suc f) a stop s ≡ done tt s
unfolding reserve
reserve-end f a stop s h = let past : ltb a stop ≡ false = ground arith in rw past

mark-max : (s : Physical) (p : ℕ) → (mark s p).max_address ≡ s.max_address
unfolding mark
mark-max s p = refl

mark-size : (s : Physical) (p : ℕ) → (mark s p).bitmap_size ≡ s.bitmap_size
unfolding mark
mark-size s p = refl

mark-calls : (s : Physical) (p : ℕ) → (mark s p).calls ≡ s.calls
unfolding mark
mark-calls s p = refl

reserve-step :
    (f p stop : ℕ) (s : Physical)
    → IsValid s
    → 4096 * p < stop
    → 4096 * (p + 1) ≤ s.max_address
    → reserve (suc f) (4096 * p) stop s ≡ reserve f (4096 * (p + 1)) stop (mark s p)
unfolding reserve
reserve-step f p stop s v h top =
    let inside : ltb (4096 * p) stop ≡ true = ground arith in
    let page : 4096 * p / 4096 ≡ p = omega arith in
    let next : add32 (4096 * p) size_4kb ≡ 4096 * (p + 1) = omega (arith, v.below_top) in
    let marks = page_alloc_address_lem v (4096 * p) (omega arith) in rw (inside, marks, page, next)

reserve-Reserved :
    (f n p stop : ℕ) (s : Physical)
    → IsValid s
    → 4096 * (p + n) ≤ s.max_address
    → stop ≤ 4096 * (p + n)
    → 4096 * (p + n) < stop + 4096
    → n < f
    → Returns (λ _ t. Reserved s p n t) (reserve f (4096 * p) stop s)
reserve-Reserved zero n p stop s v top high low fuel = absurd (omega arith)
reserve-Reserved (suc f) zero p stop s v top high low fuel =
    Returns-of (reserve-end f (4096 * p) stop s (omega arith))
      (record { is_valid = v; max = refl; calls = refl; bits = λ q. ground arith })
reserve-Reserved (suc f) (suc n) p stop s v top high low fuel =
    let here : p < 8 * s.bitmap_size = omega (arith, v.covers) in
    let v' = mark-IsValid v p here in
    rw (reserve-step f p stop s v (omega arith) (omega arith)) (
      Returns-mono
        (reserve-Reserved f n (p + 1) stop (mark s p) v' (rw (mark-max s p) (omega arith))
          (omega arith) (omega arith) (omega arith))
        λ _ t r. record {
          is_valid = r.is_valid;
          max = r.max ∙ mark-max s p;
          calls = r.calls ∙ mark-calls s p;
          bits = λ q. r.bits q ∙ ground (arith, taken-mark v p here q);
        })

abbrev free_byte : ℕ
free_byte = 0

zero_byte : (n i : ℕ) → get_or (replicate n free_byte) i free_byte ≡ free_byte
zero_byte zero i = refl
zero_byte (suc n) zero = refl
zero_byte (suc n) (suc i) = zero_byte n i

-- The state after `set_up` on a machine of `mb` megabytes.
abbrev blank : Physical → ℕ → Physical
blank s mb = record s {
  bitmap_size = mb * 256 % 2 ^ 32 / 8;
  max_address = 2 ^ 20 * mb % 2 ^ 32;
  bitmap = replicate (mb * 256 % 2 ^ 32 / 8) 0;
  calls = Call.init_bitmap_lock ∷ s.calls;
}

blank-IsValid : (s : Physical) (mb : ℕ) → 1 ≤ mb → mb ≤ 4095 → IsValid (blank s mb)
blank-IsValid s mb low high = record {
  sized = length-replicate _ _;
  bytes = λ i. let z = zero_byte (mb * 256 % 2 ^ 32 / 8) i in omega arith;
  covers = omega arith;
  some_memory = omega arith;
  below_top = omega arith;
}

zero_bit : (k : ℕ) → k < 8 → test_bit 0 k ≡ false
unfolding test_bit
zero_bit zero h = refl
zero_bit (suc zero) h = refl
zero_bit (suc (suc zero)) h = refl
zero_bit (suc (suc (suc zero))) h = refl
zero_bit (suc (suc (suc (suc zero)))) h = refl
zero_bit (suc (suc (suc (suc (suc zero))))) h = refl
zero_bit (suc (suc (suc (suc (suc (suc zero)))))) h = refl
zero_bit (suc (suc (suc (suc (suc (suc (suc zero))))))) h = refl
zero_bit (suc (suc (suc (suc (suc (suc (suc (suc k)))))))) h = absurd (omega arith)

blank-taken : (s : Physical) (mb q : ℕ) → taken (blank s mb).bitmap q ≡ false
unfolding taken
blank-taken s mb q =
    rw (zero_byte (mb * 256 % 2 ^ 32 / 8) (q / 8)) (zero_bit (8 - q % 8 - 1) (omega arith))

-- What `physical_init` leaves on a machine of `mb` megabytes without a memory map.
pub record Initialised (s : Physical) (mb p n : ℕ) (r : ℤ) (t : Physical) : Type 0 where
  pub result : r ≡ success
  pub is_valid : IsValid t
  pub max : t.max_address ≡ 2 ^ 20 * mb
  pub calls : t.calls ≡ Call.init_bitmap_lock ∷ s.calls
  pub bits : (q : ℕ) → taken t.bitmap q ≡ ((vga_paddress / 4096 == q) || (leb p q && ltb q (p + n)))

-- `physical_init` where the boot loader gives the size of memory, of at most 4095 megabytes, and no
-- memory map, the kernel starts at page `p`, it and the bitmap end in page `p + n - 1`, which is inside the
-- memory, and the fuel is more than `n`: it succeeds. The state is valid with all the memory, and the
-- pages taken are the one of the screen and the `n` pages from `p` on.
pub physical_init-Initialised :
    (entry : ℕ → MemoryMap) (fuel p n end : ℕ) (m : MultibootInfo) (s : Physical)
    → has_flag m.flags flag_mem ≡ true
    → has_flag m.flags flag_mmap ≡ false
    → megabytes m.mem_upper ≤ 4095
    → end + 32 * megabytes m.mem_upper ≤ 4096 * (p + n)
    → 4096 * (p + n) < end + 32 * megabytes m.mem_upper + 4096
    → 4096 * (p + n) ≤ 2 ^ 20 * megabytes m.mem_upper
    → n < fuel
    → Returns
        (Initialised s (megabytes m.mem_upper) p n)
        (physical_init entry fuel (4096 * p) end m s)
unfolding physical_init
physical_init-Initialised entry fuel p n end m s mem no_map size high low top enough =
    let mb = megabytes m.mem_upper in
    let v = blank-IsValid s mb (omega arith) size in
    let start = page_alloc_address_lem v vga_paddress (omega arith) in
    let v' = mark-IsValid v 184 (omega arith) in
    let size' = mark-size (blank s mb) 184 in
    let max' = mark-max (blank s mb) 184 in
    rw (mem, no_map)
      (rw start (
        Returns-bind
          (reserve-Reserved fuel n p _ (mark (blank s mb) 184) v' (omega arith) (omega arith)
            (omega arith) enough)
          λ _ t r. returns (record {
            result = refl;
            is_valid = r.is_valid;
            max = r.max ∙ max' ∙ omega arith;
            calls = r.calls ∙ mark-calls (blank s mb) 184;
            bits = λ q.
                r.bits q ∙ ground (arith, taken-mark v 184 (omega arith) q, blank-taken s mb q);
          })))
