-- ===== src/Mmu/Program.antt =====
-- The program of kernal/mem_management/mm/mmu.c: its `main`, with the pages that memalign returns, the
-- bytes read from /dev/urandom, and what the compiler and the system calls answer as arguments. The
-- messages are left out, and so are the two `free` at the end, which change no page entry.
use system_related_projects.Base.{
  ℕ, refl, Bool, not, ◌||◌, Bool-cases, inl, inr, ◌<◌, ◌≡◌, ◌≢◌, sym, ap, ◌∙◌, true, false, Option,
  none, some, ◌==◌, arith, if◌then◌else◌, ==-refl, ==-false,
}
use system_related_projects.Base.Int.{ℤ, pos, negsuc, fail, is_fail}
use system_related_projects.Mmu.{
  page_size, Memory, in_page, entry_at, zero_entry, allocate_page, insert_page_into_address_space,
  get_page_from_address_space,
}
use system_related_projects.Mmu.Space.{IsPage, IsSpace, IsFresh}
use system_related_projects.Mmu.Growing.{insert_page-maps}

abbrev pub virtual_address : ℕ
virtual_address = 0xf000

-- The bytes of `random` put into a page.
abbrev pub filled : ℕ → Memory → Memory → Memory
filled frame random m x = if in_page frame x then random x else m x

abbrev pub bind : {A B : Type 0} → Option A → (A → Option B) → Option B
bind none k = none
bind (some a) k = k a

-- The sizes of a page_entry and of a pointer, and what open, read and close return.
pub record Platform : Type 0 where
  pub entry_size : ℕ
  pub pointer_size : ℕ
  pub fd : ℤ
  pub count : ℤ
  pub closed : ℤ

-- read(fd, page_frame, page_size()) == page_size()
abbrev pub is_page_size : ℤ → Bool
is_page_size (pos n) = n == page_size
is_page_size (negsuc n) = false

-- What comes behind the call of close: the page is mapped, and the last assertion is about the page
-- that is found.
unfoldable pub map_page : ℕ → ℕ → ℕ → Memory → Option (ℤ × Memory)
map_page cr3 page_frame table m =
    bind (insert_page_into_address_space table cr3 virtual_address page_frame m) λ m3.
      bind (get_page_from_address_space cr3 virtual_address m3)
        λ p. if p == page_frame then some (pos 0, m3) else none

-- The exit code and the memory; none where an assertion fails.
unfoldable pub main : Platform → ℕ → ℕ → ℕ → Memory → Memory → Option (ℤ × Memory)
main os cr3 page_frame table random m =
    if not (os.entry_size == 4)
    then none
    else (if not (os.pointer_size == 4)
        then some (fail, m)
        else (bind (allocate_page cr3 m) λ m1. bind (allocate_page page_frame m1) λ m2.
            if is_fail os.fd
            then some (fail, m2)
            else (if not (is_page_size os.count)
                then none
                else (if is_fail os.closed
                    then some (fail, filled page_frame random m2)
                    else map_page cr3 page_frame table (filled page_frame random m2)))))

-- 0 where the pointers have 32 bits and the file opens and closes.
abbrev pub exit_code : Platform → ℤ
exit_code os =
    if not (os.pointer_size == 4) || is_fail os.fd || is_fail os.closed then fail else pos 0

module _ (cr3 page_frame table : ℕ) (random m : Memory) (a : IsPage cr3) (b : IsPage page_frame)
    (c : IsPage table) (na : cr3 ≢ 0) (nb : page_frame ≢ 0) (nc : table ≢ 0) (ab : cr3 ≢ page_frame)
    (ac : cr3 ≢ table) where
  abbrev one : Memory
  one x = if in_page cr3 x then zero_entry else m x

  abbrev two : Memory
  two x = if in_page page_frame x then zero_entry else one x

  allocated :
      (p : ℕ) (m : Memory)
      → IsPage p
      → p ≢ 0
      → allocate_page p m ≡ some (λ x. if in_page p x then zero_entry else m x)
  unfolding allocate_page
  allocated p m page ne = rw (==-false ne, page.0)

  -- The directory is still empty when the page is inserted.
  empty : (i : ℕ) → i < 1024 → (filled page_frame random two (entry_at cr3 i)).present ≡ false
  empty i h =
      let inside : in_page cr3 (entry_at cr3 i) ≡ true = ground arith in
      let outside : in_page page_frame (entry_at cr3 i) ≡ false = ground (arith, a, b, ab) in
      rw (outside, inside)

  empty-IsSpace : IsSpace cr3 (filled page_frame random two)
  empty-IsSpace = record {
    aligned = a;
    tables = λ i h t. absurd (ground (arith, empty i h));
    off_directory = λ i h t. absurd (ground (arith, empty i h));
    apart = λ i j h k ne t u. absurd (ground (arith, empty i h));
  }

  mapped :
      (m' : Memory) × (map_page cr3 page_frame table (filled page_frame random two)
        ≡ some (pos 0, m'))
  unfolding map_page
  mapped =
      let fresh : IsFresh cr3 (filled page_frame random two) table = record {
        page = c;
        ne_null = nc;
        ne_dir = λ e. ac (sym e);
        unused = λ i h t. absurd (ground (arith, empty i h));
      } in
      let (m', inserted, _, maps) =
        insert_page-maps empty-IsSpace table virtual_address page_frame (omega arith)
          (omega (arith, b.1)) fresh in
      let found : get_page_from_address_space cr3 virtual_address m' ≡ some page_frame =
        maps virtual_address (omega arith) ∙ ap some ((omega (arith, b.0))) in
      (m', rw inserted (rw found (rw (==-refl page_frame))))

  -- Where memalign returns three aligned pages other than NULL, of which the directory differs from
  -- the other two, a page_entry has four bytes and the read from the file, if the program comes to it,
  -- gives a whole page: the program comes to its end and its assertions hold. It returns 0 where
  -- pointers have four bytes and the file opens and closes, and -1 otherwise.
  pub main_ends :
      (os : Platform)
      → os.entry_size ≡ 4
      → (is_fail os.fd ≡ false → os.count ≡ pos 4096)
      → (m' : Memory) × (main os cr3 page_frame table random m ≡ some (exit_code os, m'))
  unfolding main
  main_ends os four whole =
      let entry : (os.entry_size == 4) ≡ true = rw four refl in
      elim (Bool-cases (os.pointer_size == 4)) [
        | inr wide ↦ (m, rw (entry, wide) refl)
        | inl narrow ↦ elim (Bool-cases (is_fail os.fd)) [
          | inl failed ↦ (
            two,
            rw (entry, narrow, allocated cr3 m a na, allocated page_frame one b nb, failed) refl,
          )
          | inr opened ↦
              let page : is_page_size os.count ≡ true = rw (whole opened) refl in
              elim (Bool-cases (is_fail os.closed)) [
                | inl failed ↦ (
                  filled page_frame random two,
                  rw
                      (
                        entry,
                        narrow,
                        allocated cr3 m a na,
                        allocated page_frame one b nb,
                        opened,
                        page,
                        failed,
                      )
                      refl,
                )
                | inr closed ↦ (
                  mapped.0,
                  rw
                      (
                        entry,
                        narrow,
                        allocated cr3 m a na,
                        allocated page_frame one b nb,
                        opened,
                        page,
                        closed,
                      )
                      mapped.1,
                )
              ]
        ]
      ]
