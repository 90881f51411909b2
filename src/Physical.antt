-- ===== src/Physical.antt =====
-- The physical page allocator of MimicOS, MimicOS/src/kernel/mm/physical.c with the macros of
-- MimicOS/include/kernel/mm/physical.h: a bitmap of pages, one bit each, the first page of a byte in
-- its highest bit.
--
-- Addresses are 32-bit numbers and pages are numbers below 2 ^ 20. The bitmap is the list of the
-- `bitmap_size` bytes behind `physical_bitmap`; an access outside it is a fault. The mutex, which
-- lies outside the repository, is seen through the calls made to it: `calls` is their log, the
-- newest first.
pub mod Bitmap
pub mod Search
pub mod Alloc
pub mod Free
pub mod Clients
pub mod Serving
pub mod Init
pub mod Booting
mod Tests
use system_related_projects.Base.{
  ℕ, zero, suc, ◌+◌, ◌-◌, ◌*◌, ◌/◌, ◌%◌, ◌^◌, Bool, not, ◌&&◌, Option, none, some, List, ◌∷◌, ltb,
  ◌==◌, if◌then◌else◌, get_elem?, set, replicate, test_bit, set_bit, clear_bit,
}
use system_related_projects.Base.Result.{done, fault, spin, M, pure, ◌>>=◌, ◌>>◌}

pub data Call : Type 0 where
  lock_bitmap unlock_bitmap init_bitmap_lock panic : Call

pub record Physical : Type 0 where
  pub bitmap : List ℕ
  pub bitmap_size : ℕ
  pub max_address : ℕ
  pub calls : List Call

abbrev pub null : ℕ
null = 0

abbrev pub size_4kb : ℕ
size_4kb = 4096

abbrev pub size_1kb : ℕ
size_1kb = 1024

abbrev pub high_paddress : ℕ
high_paddress = 0x01000000

abbrev pub low_paddress : ℕ
low_paddress = size_4kb

abbrev pub byte_index : ℕ → ℕ
byte_index a = a / size_4kb / 8

abbrev pub bit_index : ℕ → ℕ
bit_index a = 8 - a / size_4kb % 8 - 1

-- One more call to code outside the repository.
abbrev pub log : Call → Physical → Physical
log c s = record s { calls = c ∷ s.calls }

abbrev pub call : Call → M Physical (Unit {0})
call c s = done tt (log c s)

abbrev pub load_byte : ℕ → M Physical ℕ
load_byte i s = elim (get_elem? s.bitmap i) [ none ↦ fault | some b ↦ done b s ]

abbrev pub store_byte : ℕ → ℕ → M Physical (Unit {0})
store_byte i b s = done tt (record s { bitmap = set s.bitmap i b })

unfoldable pub is_page_free : ℕ → M Physical Bool
is_page_free a = do
  b ← load_byte (byte_index a)
  pure (if test_bit b (bit_index a) then Bool.false else Bool.true)

unfoldable pub get_bitmap_size : M Physical ℕ
get_bitmap_size s = done s.bitmap_size s

unfoldable pub page_alloc_address : ℕ → M Physical (Unit {0})
page_alloc_address a = do
  b ← load_byte (byte_index a)
  store_byte (byte_index a) (set_bit b (bit_index a))

-- Pointer arithmetic on a 32-bit machine.
abbrev pub add32 : ℕ → ℕ → ℕ
add32 a b = (a + b) % 2 ^ 32

-- The search of `physical_pageAllocLimit`, on fuel.
unfoldable pub page_alloc_limit : ℕ → ℕ → ℕ → M Physical ℕ
page_alloc_limit zero low high = λ _. spin
page_alloc_limit (suc f) low high =
    if ltb low high
    then (do
      free ← is_page_free low
      if free
          then (do page_alloc_address low; pure low)
          else page_alloc_limit f (add32 low size_4kb) high)
    else pure null

-- Rounds enough for a search from `low` to `high`: one for each page, and one to see the end.
abbrev pub rounds : ℕ → ℕ → ℕ
rounds low high = suc ((high - low) / size_4kb)

unfoldable pub page_alloc_high : M Physical ℕ
page_alloc_high = do
  call lock_bitmap
  max ← (λ s. done s.max_address s)
  a ←
      (if ltb high_paddress max
        then page_alloc_limit (rounds high_paddress max) high_paddress max
        else pure null)
  call unlock_bitmap
  pure a

unfoldable pub page_alloc_low : M Physical ℕ
page_alloc_low = do
  call lock_bitmap
  max ← (λ s. done s.max_address s)
  a ←
      (if ltb max high_paddress
        then page_alloc_limit (rounds low_paddress max) low_paddress max
        else page_alloc_limit (rounds low_paddress high_paddress) low_paddress high_paddress)
  call unlock_bitmap
  pure a

unfoldable pub page_alloc : M Physical ℕ
page_alloc = do
  a ← page_alloc_high
  b ← (if a == null then page_alloc_low else pure a)
  if b == null then call panic >> pure b else pure b

unfoldable pub clear_page : ℕ → M Physical (Unit {0})
clear_page a = do
  b ← load_byte (byte_index a)
  store_byte (byte_index a) (clear_bit b (bit_index a))

unfoldable pub page_free : ℕ → M Physical (Unit {0})
unfolding clear_page
page_free a = do
  call lock_bitmap
  max ← (λ s. done s.max_address s)
  if not (a == null) && ltb a max then clear_page a else pure tt
  call unlock_bitmap
