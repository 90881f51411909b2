-- ===== src/Physical/Init.antt =====
-- `physical_init` of MimicOS/src/kernel/mm/physical.c with the structures of
-- MimicOS/include/kernel/multiboot.h. The memory map that the boot loader left is a function from
-- addresses to entries, and the physical addresses of the kernel's first byte and end are arguments.
-- The loops run on fuel: one that wraps around the address space does not end.
use system_related_projects.Base.{
  ℕ, zero, suc, ◌+◌, ◌*◌, ◌/◌, ◌%◌, ◌^◌, Bool, ◌==◌, ltb, if◌then◌else◌, bit_and, replicate,
}
use system_related_projects.Base.Int.{ℤ, success, fail}
use system_related_projects.Base.Result.{done, spin, M, pure, ◌>>=◌, ◌>>◌}
use system_related_projects.Physical.{
  Physical, Call, call, size_4kb, size_1kb, add32, page_free, page_alloc_address,
}

-- struct MULTIBOOT_MEMORY_MAP, the fields that are read
pub record MemoryMap : Type 0 where
  pub size : ℕ
  pub base_low : ℕ
  pub length_low : ℕ
  pub type : ℕ

-- struct MULTIBOOT_INFO, the fields that are read
pub record MultibootInfo : Type 0 where
  pub flags : ℕ
  pub mem_upper : ℕ
  pub mmap_length : ℕ
  pub mmap : ℕ

abbrev pub flag_mem : ℕ
flag_mem = 1

abbrev pub flag_mmap : ℕ
flag_mmap = 32

abbrev pub mmap_available : ℕ
mmap_available = 1

abbrev pub vga_paddress : ℕ
vga_paddress = 0xb8000

unfoldable pub free_range : ℕ → ℕ → ℕ → M Physical (Unit {0})
free_range zero a stop = λ _. spin
free_range (suc f) a stop =
    if ltb a stop then (do page_free a; free_range f (add32 a size_4kb) stop) else pure tt

unfoldable pub reserve : ℕ → ℕ → ℕ → M Physical (Unit {0})
reserve zero a stop = λ _. spin
reserve (suc f) a stop =
    if ltb a stop then (do page_alloc_address a; reserve f (add32 a size_4kb) stop) else pure tt

-- The loop over the entries of the memory map, up to the address `stop`.
unfoldable pub read_mmap : (ℕ → MemoryMap) → ℕ → ℕ → ℕ → ℕ → M Physical (Unit {0})
read_mmap entry fuel zero mmap stop = λ _. spin
read_mmap entry fuel (suc f) mmap stop =
    if ltb mmap stop
    then (do
      let e = entry mmap
      if e.type == mmap_available
          then free_range fuel e.base_low (add32 e.base_low e.length_low)
          else pure tt
      read_mmap entry fuel f (add32 (add32 mmap e.size) 4) stop)
    else pure tt

abbrev pub megabytes : ℕ → ℕ
megabytes mem_upper = mem_upper / size_1kb + 1

-- The size of the bitmap, the end of memory, and the bitmap with `byte` everywhere.
abbrev pub set_up : ℕ → M Physical (Unit {0})
set_up mem_upper s =
    let size = megabytes mem_upper * 256 % 2 ^ 32 / 8 in
    done tt (record s {
      bitmap_size = size;
      max_address = 2 ^ 20 * megabytes mem_upper % 2 ^ 32;
      bitmap = replicate size 0;
    })

abbrev pub fill : ℕ → M Physical (Unit {0})
fill byte s = done tt (record s { bitmap = replicate s.bitmap_size byte })

abbrev pub has_flag : ℕ → ℕ → Bool
has_flag flags flag = bit_and flags flag == flag

unfoldable pub physical_init : (ℕ → MemoryMap) → ℕ → ℕ → ℕ → MultibootInfo → M Physical ℤ
physical_init entry fuel start end m = do
  call Call.init_bitmap_lock
  if has_flag m.flags flag_mem
      then (do
        set_up m.mem_upper
        if has_flag m.flags flag_mmap
            then (do fill 0xff; read_mmap entry fuel fuel m.mmap (add32 m.mmap m.mmap_length))
            else page_alloc_address vga_paddress
        s ← (λ s. done s s)
        reserve fuel start (add32 end s.bitmap_size)
        pure success)
      else pure fail
