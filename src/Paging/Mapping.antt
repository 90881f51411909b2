-- ===== src/Paging/Mapping.antt =====
-- Mapping a page: paging_setPageTableEntry of paging.c, seen by the walk of the processor.
use system_related_projects.Base.{
  ℕ, suc, ◌+◌, ◌%◌, ◌^◌, ◌<◌, ◌≡◌, ◌≢◌, ◌⊎◌, inl, inr, refl, ap, ◌∙◌, Bool, true, false, ◌&&◌, ◌||◌,
  Option, none, some, ◌==◌, ==-false, ==-refl, if◌then◌else◌, arith,
}
use system_related_projects.Base.Result.{done, Returns, Returns-of}
use system_related_projects.Paging.{
  PageEntry, Process, Paging, get_directory_index, get_table_index, page_align, table_shift_l,
  table_shift_r, update, filled, get_page_directory_entry, get_page_table_entry,
  set_page_table_entry,
}

-- The walk of the processor: the physical address of a linear one, or a page fault.
unfoldable pub translate : (ℕ → ℕ → PageEntry) → ℕ → ℕ → Option ℕ
translate memory pd address =
    let d = memory pd (get_directory_index address) in
    let t = memory (table_shift_l d.address) (get_table_index address) in
    if d.present == 0 || t.present == 0
    then none
    else some (table_shift_l t.address + address % 2 ^ 12)

-- The page of the table that an address leads to.
unfoldable pub table_of : (ℕ → ℕ → PageEntry) → ℕ → ℕ → ℕ
table_of memory pd address = table_shift_l (memory pd (get_directory_index address)).address

page_align_lem : (a : ℕ) → a % 4096 ≡ 0 → a < 2 ^ 32 → page_align a ≡ a
page_align_lem a aligned small = omega arith

frame_lem : (a : ℕ) → a % 4096 ≡ 0 → a < 2 ^ 32 → table_shift_l (table_shift_r a % 2 ^ 20) ≡ a
frame_lem a aligned small = omega arith

module _ (memory : ℕ → ℕ → PageEntry) (page i : ℕ) (e : PageEntry) where
  pub update_self : update memory page i e page i ≡ e
  update_self = rw (==-refl page) (rw (==-refl i) refl)

  pub update_ne :
      {page' i' : ℕ} → (page' ≢ page) ⊎ (i' ≢ i) → update memory page i e page' i' ≡ memory page' i'
  update_ne (inl other) = rw (==-false other) refl
  update_ne {page' = page'} {i' = i'} (inr other) =
      let off : (page' == page && i' == i) ≡ false = go (page' == page) (==-false other) in
      rw off refl
    where
      go : (b : Bool) {c : Bool} → c ≡ false → (b && c) ≡ false
      go true h = h
      go false h = refl

  -- The walk reads the directory as before where that is not the page of the new entry.
  translate-update_ne :
      (pd other : ℕ)
      → pd ≢ page
      → (table_of memory pd other ≢ page) ⊎ (get_table_index other ≢ i)
      → translate (update memory page i e) pd other ≡ translate memory pd other
  unfolding translate table_of
  translate-update_ne pd other apart elsewhere =
      rw (update_ne {page' = pd} {i' = get_directory_index other} (inl apart))
        (rw (update_ne elsewhere) refl)

  translate-update_self :
      (pd address : ℕ)
      → pd ≢ page
      → table_of memory pd address ≡ page
      → get_table_index address ≡ i
      → (memory pd (get_directory_index address)).present ≢ 0
      → e.present ≡ 1
      → translate (update memory page i e) pd address
        ≡ some (table_shift_l e.address + address % 2 ^ 12)
  unfolding translate table_of
  translate-update_self pd address apart leads index present shown =
      rw (update_ne {page' = pd} {i' = get_directory_index address} (inl apart))
        (rw leads (rw index (rw update_self (rw (==-false present) (rw shown refl)))))

module _ (p : Process) (address physical fuel : ℕ) (s : Paging) (aligned : address % 4096 ≡ 0)
    (small : address < 2 ^ 32) where
  set_page_table_entry_lem :
      (present : ℕ)
      → physical % 4096 ≡ 0
      → physical < 2 ^ 32
      → table_of s.memory p.page_dir address ≢ 0
      → set_page_table_entry (suc fuel) p address physical present s
        ≡ done tt (record s {
          memory =
              update s.memory
                (table_of s.memory p.page_dir address)
                (get_table_index address)
                (filled present p physical);
        })
  unfolding set_page_table_entry get_page_table_entry get_page_directory_entry table_of
  set_page_table_entry_lem present aligned' small' table =
      rw (page_align_lem address aligned small)
        (rw (page_align_lem physical aligned' small') (rw (==-false table) refl))

  -- After paging_setPageTableEntry has mapped a page as present, the walk of the processor takes its
  -- address to the physical page, and any other address to where it led before. The conditions are
  -- that both addresses are 32-bit numbers at the start of a page, that the directory has a present
  -- entry with a table for the address, which is not the directory itself, and that the other
  -- address has another table or another index in it.
  pub set_page_table_entry-translate :
      (other : ℕ)
      → physical % 4096 ≡ 0
      → physical < 2 ^ 32
      → table_of s.memory p.page_dir address ≢ 0
      → p.page_dir ≢ table_of s.memory p.page_dir address
      → (s.memory p.page_dir (get_directory_index address)).present ≢ 0
      → (table_of s.memory p.page_dir other ≢ table_of s.memory p.page_dir address)
        ⊎ (get_table_index other ≢ get_table_index address)
      → Returns
          (λ _ t.
            (translate t.memory p.page_dir address ≡ some physical)
            × (translate t.memory p.page_dir other ≡ translate s.memory p.page_dir other)
            × (t.physical ≡ s.physical))
          (set_page_table_entry (suc fuel) p address physical 1 s)
  unfolding filled
  set_page_table_entry-translate other aligned' small' table apart present elsewhere =
      let end : table_shift_l (table_shift_r physical % 2 ^ 20) + address % 2 ^ 12 ≡ physical =
        omega arith in
      Returns-of (set_page_table_entry_lem 1 aligned' small' table) (
        translate-update_self s.memory _ _ (filled 1 p physical) p.page_dir address apart refl refl
              present refl
            ∙ ap some end,
        translate-update_ne s.memory _ _ (filled 1 p physical) p.page_dir other apart elsewhere,
        refl,
      )
