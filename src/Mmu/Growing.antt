-- ===== src/Mmu/Growing.antt =====
-- A new table: `insert_page_into_address_space` where the directory has no entry yet, and the
-- theorem for both cases.
use system_related_projects.Base.{
  ℕ, ◌*◌, ◌/◌, ◌^◌, ◌<◌, ◌≡◌, ◌≢◌, refl, sym, ap, ◌∙◌, true, false, none, some, ◌==◌, arith,
  if◌then◌else◌, Bool-cases, inl, inr, ◌⊎◌, ==-false, ==-refl, ==_iff,
}
use mathlib.Core.Bool.{true≢false}
use system_related_projects.Mmu.{
  Memory, entry_at, page_directory_index, page_table_index, get_addr_from_entry, set_page_entry,
  set_table_entry, allocate_page, zero_entry, update, in_page, insert_page_into_address_space,
  get_page_from_address_space,
}
use system_related_projects.Mmu.Space.{IsPage, IsSpace, IsFresh, HasTable, table_of}
use system_related_projects.Mmu.Mapping.{
  page_apart, leaf, get_page-present, get_page-absent, set_table_entry-IsSpace,
  set_table_entry-maps,
}

module _ {dir : ℕ} {m : Memory} (v : IsSpace dir m) (i : ℕ) (hi : i < 1024) (p : ℕ)
    (fresh : IsFresh dir m p) (none_yet : (m (entry_at dir i)).present ≡ false) where
  abbrev cleared : Memory
  cleared x = if in_page p x then zero_entry else m x

  abbrev grown : Memory
  grown = update cleared (entry_at dir i) (set_page_entry (cleared (entry_at dir i)) p)

  outside_page : (t k : ℕ) → IsPage t → t ≢ p → k < 1024 → in_page p (entry_at t k) ≡ false
  outside_page t k ht ne hk = ground (arith, fresh.page)

  grown_other : (j : ℕ) → j < 1024 → j ≢ i → grown (entry_at dir j) ≡ m (entry_at dir j)
  grown_other j hj ne =
      let apart : entry_at dir j ≢ entry_at dir i = omega arith in
      rw (==-false apart, outside_page dir j v.aligned (λ e. fresh.ne_dir (sym e)) hj)

  grown_here : (HasTable dir grown i) × (table_of dir grown i ≡ p)
  unfolding set_page_entry get_addr_from_entry
  grown_here = rw ==-refl (refl, omega (arith, fresh.page))

  grown_table :
      (j : ℕ)
      → j < 1024
      → HasTable dir grown j
      → (j ≡ i) ⊎ (HasTable dir m j × (table_of dir grown j ≡ table_of dir m j) × (j ≢ i))
  grown_table j hj t = elim (Bool-cases (j == i)) [
    | inl e ↦ inl ((==_iff j i).0 e)
    | inr e ↦
        let ne : j ≢ i = ground arith in
        let same = grown_other j hj ne in inr ((rw same at t), ap get_addr_from_entry same, ne)
  ]

  grown-IsSpace : IsSpace dir grown
  grown-IsSpace = record {
    aligned = v.aligned;
    tables = λ j hj t. elim (grown_table j hj t) [
      | inl e ↦ rw (e, grown_here.1) fresh.page
      | inr (t', same, _) ↦ rw same (v.tables j hj t')
    ];
    off_directory = λ j hj t. elim (grown_table j hj t) [
      | inl e ↦ rw (e, grown_here.1) fresh.ne_dir
      | inr (t', same, _) ↦ rw same (v.off_directory j hj t')
    ];
    apart = λ j k hj hk ne t u. elim (grown_table j hj t) [
      | inl e ↦ elim (grown_table k hk u) [
        | inl e' ↦ absurd (ne (e ∙ sym e'))
        | inr (u', same, _) ↦ rw (e, grown_here.1, same) (λ q. fresh.unused k hk u' (sym q))
      ]
      | inr (t', same, _) ↦ elim (grown_table k hk u) [
        | inl e' ↦ rw (e', grown_here.1, same) (fresh.unused j hj t')
        | inr (u', same', _) ↦ rw (same, same') (v.apart j k hj hk ne t' u')
      ]
    ];
  }

  leaf_same : (t k : ℕ) → IsPage t → t ≢ p → t ≢ dir → k < 1024 → leaf grown t k ≡ leaf m t k
  unfolding leaf
  leaf_same t k ht np nd hk =
      rw (==-false (page_apart t dir k i ht v.aligned nd hk hi), outside_page t k ht np hk)

  leaf_empty : (k : ℕ) → k < 1024 → leaf grown p k ≡ none
  unfolding leaf
  leaf_empty k hk =
      let inside : in_page p (entry_at p k) ≡ true = ground arith in
      rw (==-false (page_apart p dir k i fresh.page v.aligned fresh.ne_dir hk hi), inside)

  -- The new table is empty, so the walk finds what it found before.
  grown-maps :
      (va : ℕ)
      → va < 2 ^ 32
      → get_page_from_address_space dir va grown ≡ get_page_from_address_space dir va m
  grown-maps va h =
      let j = page_directory_index va in
      let hj : j < 1024 = omega arith in
      elim (Bool-cases (grown (entry_at dir j)).present) [
        | inl t ↦ elim (grown_table j hj t) [
          | inl e ↦
              get_page-present dir va grown t
              ∙ ap (λ x. leaf grown (table_of dir grown x) (page_table_index va)) e
              ∙ ap (λ x. leaf grown x (page_table_index va)) grown_here.1
              ∙ leaf_empty (page_table_index va) (omega arith)
              ∙ sym (get_page-absent dir va m (rw e none_yet))
          | inr (t', same, _) ↦
              get_page-present dir va grown t
              ∙ ap (λ x. leaf grown x (page_table_index va)) same
              ∙ leaf_same (table_of dir m j) (page_table_index va) (v.tables j hj t')
                  (fresh.unused j hj t') (v.off_directory j hj t') (omega arith)
              ∙ sym (get_page-present dir va m t')
        ]
        | inr t ↦ elim (Bool-cases (j == i)) [
          | inl e ↦ absurd (
              true≢false (
                sym grown_here.0
                ∙ ap (λ x. (grown (entry_at dir x)).present) (sym ((==_iff j i).0 e))
                ∙ t))
          | inr e ↦
              get_page-absent dir va grown t
              ∙ sym (get_page-absent dir va m (rw (grown_other j hj (ground arith)) at t))
        ]
      ]

module _ {dir : ℕ} {m : Memory} (v : IsSpace dir m) (page va pa : ℕ) (hva : va < 2 ^ 32)
    (hpa : pa < 2 ^ 32) (fresh : IsFresh dir m page) where
  present :
      HasTable dir m (page_directory_index va)
      → insert_page_into_address_space page dir va pa m
        ≡ some (set_table_entry m (table_of dir m (page_directory_index va)) va pa)
  unfolding insert_page_into_address_space
  present t = ground arith

  absent :
      (hi : page_directory_index va < 1024)
      (t : (m (entry_at dir (page_directory_index va))).present ≡ false)
      → insert_page_into_address_space page dir va pa m
        ≡ some (set_table_entry (grown v (page_directory_index va) hi page fresh t) page va pa)
  unfolding insert_page_into_address_space allocate_page
  absent hi t = simp (t, ==-false fresh.ne_null, fresh.page.0)

  -- In a well-formed address space, with a fresh page from memalign, the insertion succeeds. The
  -- space stays well formed, the page of the virtual address then maps to the frame of the physical
  -- one, and every other page maps to what it mapped to before.
  pub insert_page-maps :
      (m' : Memory) × (insert_page_into_address_space page dir va pa m ≡ some m')
      × IsSpace dir m'
      × ((va' : ℕ)
          → va' < 2 ^ 32
          → get_page_from_address_space dir va' m' ≡ (
              if va' / 4096 == va / 4096
              then some (pa / 4096 * 4096)
              else get_page_from_address_space dir va' m))
  unfolding insert_page_into_address_space allocate_page
  insert_page-maps = elim (Bool-cases (m (entry_at dir (page_directory_index va))).present) [
    | inl t ↦ (
      set_table_entry m (table_of dir m (page_directory_index va)) va pa,
      present t,
      set_table_entry-IsSpace v va pa hva hpa t,
      set_table_entry-maps v va pa hva hpa t,
    )
    | inr t ↦
        let i = page_directory_index va in
        let hi : i < 1024 = omega arith in
        let more = grown v i hi page fresh t in
        let (here, is_page) = grown_here v i hi page fresh t in
        let v' = grown-IsSpace v i hi page fresh t in
        (
          set_table_entry more (table_of dir more i) va pa,
          absent hi t ∙ ap (λ p. some (set_table_entry more p va pa)) (sym is_page),
          set_table_entry-IsSpace v' va pa hva hpa here,
          λ va' h.
              set_table_entry-maps v' va pa hva hpa here va' h
              ∙ ap (λ o. if va' / 4096 == va / 4096 then some (pa / 4096 * 4096) else o)
                  (grown-maps v i hi page fresh t va' h),
        )
  ]
