-- ===== src/Mmu/Mapping.antt =====
-- `insert_page_into_address_space` updates the map from virtual pages to frames.
use system_related_projects.Base.{
  ℕ, ◌*◌, ◌/◌, ◌^◌, ◌<◌, ◌≡◌, ◌≢◌, sym, ap, ◌∙◌, false, Option, none, some, ◌==◌, arith,
  if◌then◌else◌, Bool-cases, ==_iff, inl, inr, ==-false, ==-refl,
}
use system_related_projects.Mmu.{
  PageEntry, Memory, entry_at, page_directory_index, page_table_index, get_addr_from_entry,
  set_page_entry, set_table_entry, get_page_from_address_space,
}
use system_related_projects.Mmu.Space.{IsPage, IsSpace, HasTable, table_of}

-- Entries of different pages have different addresses.
pub page_apart :
    (p q j k : ℕ) → IsPage p → IsPage q → p ≢ q → j < 1024 → k < 1024 → entry_at p j ≢ entry_at q k
page_apart p q j k hp hq ne hj hk = omega arith

pub get_addr-set_page_entry :
    (e : PageEntry) (pa : ℕ)
    → pa < 2 ^ 32
    → get_addr_from_entry (set_page_entry e pa) ≡ pa / 4096 * 4096
unfolding get_addr_from_entry set_page_entry
get_addr-set_page_entry e pa h = omega arith

-- The frame that an entry of a table stands for.
unfoldable pub leaf : Memory → ℕ → ℕ → Option ℕ
leaf m t k =
    if (m (entry_at t k)).present then some (get_addr_from_entry (m (entry_at t k))) else none

pub get_page-present :
    (dir va : ℕ) (m : Memory)
    → HasTable dir m (page_directory_index va)
    → get_page_from_address_space dir va m
      ≡ leaf m (table_of dir m (page_directory_index va)) (page_table_index va)
unfolding get_page_from_address_space leaf
get_page-present dir va m t =
    ap
      (λ b.
        if b
        then (let y = entry_at (table_of dir m (page_directory_index va)) (page_table_index va) in
            if (m y).present then some (get_addr_from_entry (m y)) else none)
        else none)
      t

pub get_page-absent :
    (dir va : ℕ) (m : Memory)
    → (m (entry_at dir (page_directory_index va))).present ≡ false
    → get_page_from_address_space dir va m ≡ none
unfolding get_page_from_address_space
get_page-absent dir va m t = rw t

module _ {dir : ℕ} {m : Memory} (v : IsSpace dir m) (va pa : ℕ) (hva : va < 2 ^ 32)
    (hpa : pa < 2 ^ 32) (here : HasTable dir m (page_directory_index va)) where
  abbrev pub table : ℕ
  table = table_of dir m (page_directory_index va)

  abbrev pub after : Memory
  after = set_table_entry m table va pa

  directory_same : (j : ℕ) → j < 1024 → after (entry_at dir j) ≡ m (entry_at dir j)
  unfolding set_table_entry
  directory_same j hj =
      let ne =
        page_apart dir table j (page_table_index va) v.aligned (v.tables _ (omega arith) here)
          (λ e. v.off_directory _ (omega arith) here (omega arith)) hj (omega arith) in
      rw (==-false ne)

  pub set_table_entry-IsSpace : IsSpace dir after
  set_table_entry-IsSpace = record {
    aligned = v.aligned;
    tables = λ i hi t. rw (directory_same i hi) (v.tables i hi (rw (directory_same i hi) at t));
    off_directory =
        λ i hi t. rw (directory_same i hi) (v.off_directory i hi (rw (directory_same i hi) at t));
    apart = λ i j hi hj ne t u.
        rw (directory_same i hi, directory_same j hj)
          (v.apart i j hi hj ne (rw (directory_same i hi) at t) (rw (directory_same j hj) at u));
  }

  leaf_written : leaf after table (page_table_index va) ≡ some (pa / 4096 * 4096)
  unfolding set_table_entry set_page_entry leaf
  leaf_written =
      rw ==-refl
        (ap some (get_addr-set_page_entry (m (entry_at table (page_table_index va))) pa hpa))

  leaf_same :
      (t k : ℕ) → entry_at t k ≢ entry_at table (page_table_index va) → leaf after t k ≡ leaf m t k
  unfolding set_table_entry leaf
  leaf_same t k ne = rw (==-false ne)

  -- What the walk finds for another address, once its directory entry is known.
  other_directory :
      (va' : ℕ)
      → va' < 2 ^ 32
      → page_directory_index va' ≢ page_directory_index va
      → get_page_from_address_space dir va' after ≡ get_page_from_address_space dir va' m
  other_directory va' h ne =
      let j = page_directory_index va' in
      let hj : j < 1024 = omega arith in
      let same = directory_same j hj in
      elim (Bool-cases (m (entry_at dir j)).present) [
        | inl t ↦
            get_page-present dir va' after (rw same t)
            ∙ ap (λ e. leaf after (get_addr_from_entry e) (page_table_index va')) same
            ∙ leaf_same (table_of dir m j) (page_table_index va') (
                page_apart _ _ (page_table_index va') (page_table_index va) (v.tables j hj t)
                  (v.tables _ (omega arith) here)
                  (v.apart j (page_directory_index va) hj (omega arith) ne t here) (omega arith)
                  (omega arith))
            ∙ sym (get_page-present dir va' m t)
        | inr t ↦ get_page-absent dir va' after (rw same t) ∙ sym (get_page-absent dir va' m t)
      ]

  same_directory :
      (va' : ℕ)
      → va' < 2 ^ 32
      → page_directory_index va' ≡ page_directory_index va
      → get_page_from_address_space dir va' after ≡ (
          if page_table_index va' == page_table_index va
          then some (pa / 4096 * 4096)
          else get_page_from_address_space dir va' m)
  same_directory va' h e =
      let i = page_directory_index va in
      let same = directory_same i (omega arith) in
      let found : get_page_from_address_space dir va' after
          ≡ leaf after table (page_table_index va') =
        get_page-present dir va' after (rw (e, same) here)
        ∙ ap (λ j. leaf after (table_of dir after j) (page_table_index va')) e
        ∙ ap (λ en. leaf after (get_addr_from_entry en) (page_table_index va')) same in
      let before : get_page_from_address_space dir va' m ≡ leaf m table (page_table_index va') =
        get_page-present dir va' m (rw e here)
        ∙ ap (λ j. leaf m (table_of dir m j) (page_table_index va')) e in
      elim (Bool-cases (page_table_index va' == page_table_index va)) [
        | inl t ↦ found ∙ ap (leaf after table) ((==_iff _ _).0 t) ∙ rw t leaf_written
        | inr t ↦ found ∙ leaf_same table (page_table_index va') (ground arith) ∙ rw t (sym before)
      ]

  pub set_table_entry-maps :
      (va' : ℕ)
      → va' < 2 ^ 32
      → get_page_from_address_space dir va' after ≡ (
          if va' / 4096 == va / 4096
          then some (pa / 4096 * 4096)
          else get_page_from_address_space dir va' m)
  set_table_entry-maps va' h =
      elim (Bool-cases (page_directory_index va' == page_directory_index va)) [
        | inl t ↦ ground (arith, same_directory va' h ((==_iff _ _).0 t))
        | inr t ↦ ground (arith, other_directory va' h)
      ]
