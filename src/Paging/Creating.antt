-- ===== src/Paging/Creating.antt =====
-- A new page directory: paging_createDirectory of paging.c.
use system_related_projects.Base.{
  ℕ, zero, suc, ◌+◌, ◌%◌, ◌^◌, ◌≤◌, ◌<◌, ◌≡◌, ◌≢◌, inl, inr, refl, ap, ◌∙◌, none, some, ◌∷◌, ◌==◌,
  ==-false, Bool-cases, ==_iff, if◌then◌else◌, arith,
}
use system_related_projects.Base.Int.{success}
use system_related_projects.Base.Result.{done, M, Returns, returns, Returns-bind, Returns-mono}
use system_related_projects.Physical.{Physical, page_alloc}
use system_related_projects.Paging.{
  Paging, lock_paging, unlock_paging, get_directory_index, get_table_index, table_shift_l,
  table_shift_r, update, cleared, clear_page, default_entry, for_each, create_directory,
}
use system_related_projects.Paging.Mapping.{translate, update_self, update_ne}

-- What the loop leaves that has filled the entries from `i` up to `end` of a page.
record FilledIn (privilege pd i end : ℕ) (s t : Paging) : Type 0 where
  inside : (j : ℕ) → i ≤ j → j < end → t.memory pd j ≡ default_entry privilege pd (s.memory pd j) j
  before : (j : ℕ) → j < i → t.memory pd j ≡ s.memory pd j
  same_physical : t.physical ≡ s.physical
  same_calls : t.calls ≡ s.calls

module _ (privilege pd : ℕ) where
  body : ℕ → M Paging (Unit {0})
  body i s =
      done tt
        (record s { memory = update s.memory pd i (default_entry privilege pd (s.memory pd i) i) })

  for_each_lem :
      (n i : ℕ) (s : Paging)
      → Returns (λ _ t. FilledIn privilege pd i (i + n) s t) (for_each body n i s)
  unfolding for_each body
  for_each_lem zero i s = returns (record {
    inside = λ j low high. absurd (omega arith);
    before = λ j h. refl;
    same_physical = refl;
    same_calls = refl;
  })
  for_each_lem (suc n) i s =
      let e = default_entry privilege pd (s.memory pd i) i in
      let t : Paging = record s { memory = update s.memory pd i e } in
      Returns-mono (for_each_lem n (i + 1) t) (λ _ u f. record {
        inside = λ j low high. elim (Bool-cases (j == i)) [
          | inl here ↦
              let eq : j ≡ i = (==_iff j i).0 here in
              rw eq (f.before i (omega arith) ∙ update_self s.memory pd i e)
          | inr there ↦
              f.inside j (ground arith) (omega arith)
              ∙ ap (λ x. default_entry privilege pd x j)
                  (update_ne s.memory pd i e (inr (λ eq. absurd (ground arith))))
        ];
        before = λ j h. f.before j (omega arith) ∙ update_ne s.memory pd i e (inr (omega arith));
        same_physical = f.same_physical;
        same_calls = f.same_calls;
      })

  -- The walk of the processor through a directory that the loop has filled.
  module _ (s t : Paging) (f : FilledIn privilege pd 0 1024 s t) where
    last_lem :
        pd % 4096 ≡ 0
        → pd < 2 ^ 32
        → (offset : ℕ) → offset < 4096
        → translate t.memory pd (0xffff_f000 + offset) ≡ some (pd + offset)
    unfolding translate default_entry
    last_lem aligned small offset within =
        let directory : get_directory_index (0xffff_f000 + offset) ≡ 1023 = omega arith in
        let table : get_table_index (0xffff_f000 + offset) ≡ 1023 = omega arith in
        let last = f.inside 1023 (omega arith) (omega arith) in
        let frame : table_shift_l (table_shift_r pd % 2 ^ 20) ≡ pd = omega arith in
        let rest : (0xffff_f000 + offset) % 2 ^ 12 ≡ offset = omega arith in
        rw directory (rw table (rw last (rw frame (rw last (rw frame (rw rest refl))))))

    absent_lem :
        (address : ℕ) → get_directory_index address ≢ 1023 → translate t.memory pd address ≡ none
    unfolding translate default_entry
    absent_lem address other =
        let entry = f.inside (get_directory_index address) (omega arith) (omega arith) in
        rw entry (rw (==-false other) refl)

  -- After paging_createDirectory has got a page for a directory, the processor finds the directory
  -- itself at the last page of the address space, finds nothing at an address outside the last four
  -- megabytes, and the allocator is left as it was after its call; the lock is taken and released.
  -- The conditions are that the page is not NULL and is a 32-bit address at the start of a page.
  pub create_directory-translate :
      (s : Paging) (physical : Physical) (offset address : ℕ)
      → page_alloc s.physical ≡ done pd physical
      → pd ≢ 0
      → pd % 4096 ≡ 0
      → pd < 2 ^ 32
      → offset < 4096
      → get_directory_index address ≢ 1023
      → Returns
          (λ r u.
            (r ≡ (success, pd))
            × (translate u.memory pd (0xffff_f000 + offset) ≡ some (pd + offset))
            × (translate u.memory pd address ≡ none)
            × (u.physical ≡ physical)
            × (u.calls ≡ unlock_paging ∷ lock_paging ∷ s.calls))
          (create_directory privilege s)
  unfolding create_directory clear_page body
  create_directory-translate s physical offset address granted nonzero aligned small within other =
      let start : Paging = record s {
        physical = physical;
        calls = lock_paging ∷ s.calls;
        memory = λ page i. if page == pd then cleared else s.memory page i;
      } in
      rw granted (
        rw (==-false nonzero) (
          Returns-bind (for_each_lem 1024 0 start) (λ _ t f. returns (
            refl,
            last_lem start t f aligned small offset within,
            absent_lem start t f address other,
            f.same_physical,
            ap (λ l. unlock_paging ∷ l) f.same_calls,
          ))))
