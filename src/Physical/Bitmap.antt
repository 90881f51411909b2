-- ===== src/Physical/Bitmap.antt =====
-- The bitmap as a set of taken pages: which page a bit stands for, and what marking and unmarking a
-- page does to the others.
use system_related_projects.Base.{
  ℕ, ◌-◌, ◌*◌, ◌/◌, ◌%◌, ◌^◌, ◌≤◌, ◌<◌, ◌≡◌, Bool, true, false, List, arith, ap, ◌∙◌, ◌==◌,
  if◌then◌else◌, length, get_or, set, length-set, get_elem?-eq_get_or, get_or-set, set-set,
  set-get_or, test_bit, set_bit, clear_bit, test_bit-set_bit, test_bit-clear_bit, set_bit-lt,
  clear_bit-lt, clear_bit-set_bit,
}
use system_related_projects.Base.Result.{done}
use system_related_projects.Physical.{
  Physical, byte_index, is_page_free, page_alloc_address, clear_page,
}

abbrev pub byte_of : Physical → ℕ → ℕ
byte_of s p = get_or s.bitmap (p / 8) 0

-- Is the page marked as taken in the bitmap?
unfoldable pub taken : List ℕ → ℕ → Bool
taken bitmap p = test_bit (get_or bitmap (p / 8) 0) (8 - p % 8 - 1)

-- How many pages there are below `max_address`.
abbrev pub pages : Physical → ℕ
pages s = s.max_address / 4096

-- Every byte is a byte, and the bitmap has a bit for each page below `max_address`.
pub record IsValid (s : Physical) : Type 0 where
  pub sized : length s.bitmap ≡ s.bitmap_size
  pub bytes : (i : ℕ) → get_or s.bitmap i 0 < 256
  pub covers : s.max_address ≡ 4096 * 8 * s.bitmap_size
  pub some_memory : 2 ^ 20 ≤ s.max_address
  pub below_top : s.max_address ≤ 2 ^ 32 - 2 ^ 20

-- The page's bit set, or cleared.
unfoldable pub mark : Physical → ℕ → Physical
mark s p = record s { bitmap = set s.bitmap (p / 8) (set_bit (byte_of s p) (8 - p % 8 - 1)) }

unfoldable pub unmark : Physical → ℕ → Physical
unmark s p = record s { bitmap = set s.bitmap (p / 8) (clear_bit (byte_of s p) (8 - p % 8 - 1)) }

module _ {s : Physical} (v : IsValid s) (a : ℕ) (below : a < s.max_address) where
  pub is_page_free_lem :
      is_page_free a s ≡ done (if taken s.bitmap (a / 4096) then false else true) s
  unfolding is_page_free taken
  is_page_free_lem = ground (arith, get_elem?-eq_get_or s.bitmap (byte_index a) 0)

  pub page_alloc_address_lem : page_alloc_address a s ≡ done tt (mark s (a / 4096))
  unfolding page_alloc_address mark
  page_alloc_address_lem = ground (arith, get_elem?-eq_get_or s.bitmap (byte_index a) 0)

  pub clear_page_lem : clear_page a s ≡ done tt (unmark s (a / 4096))
  unfolding clear_page unmark
  clear_page_lem = ground (arith, get_elem?-eq_get_or s.bitmap (byte_index a) 0)

module _ {s : Physical} (v : IsValid s) (p : ℕ) (inside : p < 8 * s.bitmap_size) where
  pub taken-mark : (q : ℕ) → taken (mark s p).bitmap q ≡ (if p == q then true else taken s.bitmap q)
  unfolding taken mark
  taken-mark q = ground (
    arith,
    get_or-set s.bitmap (p / 8) (q / 8) (set_bit (byte_of s p) (8 - p % 8 - 1)) 0,
    test_bit-set_bit (byte_of s p) (8 - p % 8 - 1) (8 - q % 8 - 1),
    v.bytes (p / 8),
  )

  pub taken-unmark :
      (q : ℕ) → taken (unmark s p).bitmap q ≡ (if p == q then false else taken s.bitmap q)
  unfolding taken unmark
  taken-unmark q = ground (
    arith,
    get_or-set s.bitmap (p / 8) (q / 8) (clear_bit (byte_of s p) (8 - p % 8 - 1)) 0,
    test_bit-clear_bit (byte_of s p) (8 - p % 8 - 1) (8 - q % 8 - 1),
    v.bytes (p / 8),
  )

  pub mark-IsValid : IsValid (mark s p)
  unfolding mark
  mark-IsValid = record {
    sized = ground (arith, length-set s.bitmap (p / 8) (set_bit (byte_of s p) (8 - p % 8 - 1)));
    bytes = λ i. ground (
      arith,
      get_or-set s.bitmap (p / 8) i (set_bit (byte_of s p) (8 - p % 8 - 1)) 0,
      set_bit-lt (byte_of s p) (8 - p % 8 - 1),
      v.bytes (p / 8),
      v.bytes i,
    );
    covers = v.covers;
    some_memory = v.some_memory;
    below_top = v.below_top;
  }

  pub unmark-IsValid : IsValid (unmark s p)
  unfolding unmark
  unmark-IsValid = record {
    sized = ground (arith, length-set s.bitmap (p / 8) (clear_bit (byte_of s p) (8 - p % 8 - 1)));
    bytes = λ i. ground (
      arith,
      get_or-set s.bitmap (p / 8) i (clear_bit (byte_of s p) (8 - p % 8 - 1)) 0,
      clear_bit-lt (byte_of s p) (8 - p % 8 - 1),
      v.bytes (p / 8),
      v.bytes i,
    );
    covers = v.covers;
    some_memory = v.some_memory;
    below_top = v.below_top;
  }

  -- Unmarking a page that was just marked gives the same state back.
  pub unmark-mark : taken s.bitmap p ≡ false → unmark (mark s p) p ≡ s
  unfolding mark unmark taken
  unmark-mark free = ap (λ b. record s { bitmap = b }) (restored ∙ set-get_or s.bitmap i 0)
    where
      i : ℕ
      i = p / 8

      k : ℕ
      k = 8 - p % 8 - 1

      at : get_or (set s.bitmap i (set_bit (byte_of s p) k)) i 0 ≡ set_bit (byte_of s p) k
      at = ground (arith, get_or-set s.bitmap i i (set_bit (byte_of s p) k) 0)

      restored :
          set
            (set s.bitmap i (set_bit (byte_of s p) k))
            i
            (clear_bit (get_or (set s.bitmap i (set_bit (byte_of s p) k)) i 0) k)
          ≡ set s.bitmap i (byte_of s p)
      restored = rw (at, set-set, clear_bit-set_bit (byte_of s p) k (v.bytes i) (omega arith) free)
