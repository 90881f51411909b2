-- ===== src/Simdisk/Lookup.antt =====
-- Which entry of a directory block `find` takes.
use system_related_projects.Base.{
  ℕ, zero, suc, ◌+◌, ◌≤◌, ◌<◌, ◌≡◌, ◌≢◌, refl, subst, sym, ap, ◌∙◌, Bool, true, false, Option, none,
  some, List, ◌==◌, leb, arith, Bool-cases, inl, inr, ◌⊎◌, ==_iff,
}
use system_related_projects.Base.Int.{ℤ, pos, negsuc}
use system_related_projects.Base.Result.{done, Returns, returns, Returns-mono}
use system_related_projects.Vfs.{Str}
use system_related_projects.Vfs.Mounting.{eq_int, str_eq}
use system_related_projects.Vfs.Text.{str_eq_refl, eq_of_str_eq}
use system_related_projects.Simdisk.{is_zero}
use system_related_projects.Simdisk.Layout.{
  entries_per_dir, file_type, dir_type, entry_inode, entry_type, entry_length, entry_name,
}
use system_related_projects.Simdisk.Finding.{skips, examine, search_entries}
use system_related_projects.Simdisk.Texts.{
  IsText, same_text_lem, eq_int_refl, eq_of_eq_int, eq_int-false,
}

-- The type that a search passes over: files where a directory is looked for, and the other way.
abbrev pub passed_over : Bool → ℤ
passed_over true = file_type
passed_over false = dir_type

-- An entry that is in use, is not of the type passed over, and has the name.
pub record Named (d : Bool) (direc : List ℕ) (texts : ℕ → Str) (name : Str) (k : ℕ) : Type 0 where
  pub in_use : entry_inode direc k ≢ pos 0
  pub other_type : entry_type direc k ≢ passed_over d
  pub same_name : texts k ≡ name

zero_of_is_zero : (i : ℤ) → is_zero i ≡ true → i ≡ pos 0
zero_of_is_zero (pos n) h = ground arith
zero_of_is_zero (negsuc n) h = cc

is_zero-false : (i : ℤ) → is_zero i ≡ false → i ≢ pos 0
is_zero-false i h e = absurd (true-ne (sym (ap is_zero e) ∙ h))
  where
    true-ne : true ≡ false → ⊥
    true-ne q = cc

eq_int-ne : (a b : ℤ) → eq_int a b ≡ false → a ≢ b
eq_int-ne a b h e = absurd (true-ne (sym (eq_int_refl b) ∙ ap (λ x. eq_int x b) (sym e) ∙ h))
  where
    true-ne : true ≡ false → ⊥
    true-ne q = cc

-- What the test for passing over an entry says.
skips-cases :
    (d : Bool) (direc : List ℕ) (k : ℕ)
    → ((skips d direc k ≡ true)
        × ((entry_inode direc k ≡ pos 0) ⊎ (entry_type direc k ≡ passed_over d)))
      ⊎ ((skips d direc k ≡ false)
          × (entry_inode direc k ≢ pos 0)
          × (entry_type direc k ≢ passed_over d))
unfolding skips
skips-cases true direc k = elim (Bool-cases (is_zero (entry_inode direc k))) [
  | inl e ↦ inl (rw e refl, inl (zero_of_is_zero _ e))
  | inr e ↦ elim (Bool-cases (eq_int (entry_type direc k) file_type)) [
    | inl f ↦ inl (rw (e, f) refl, inr (eq_of_eq_int _ _ f))
    | inr f ↦ inr (rw (e, f) refl, is_zero-false _ e, eq_int-ne _ _ f)
  ]
]
skips-cases false direc k = elim (Bool-cases (is_zero (entry_inode direc k))) [
  | inl e ↦ inl (rw e refl, inl (zero_of_is_zero _ e))
  | inr e ↦ elim (Bool-cases (eq_int (entry_type direc k) dir_type)) [
    | inl f ↦ inl (rw (e, f) refl, inr (eq_of_eq_int _ _ f))
    | inr f ↦ inr (rw (e, f) refl, is_zero-false _ e, eq_int-ne _ _ f)
  ]
]

-- The first entry with the name from entry `k` on, or none if there is no such entry.
abbrev pub FirstNamed : Bool → List ℕ → (ℕ → Str) → Str → ℕ → Option ℕ → Type 0
FirstNamed d direc texts name k none =
    (j : ℕ) → k ≤ j → j < entries_per_dir → ¬ Named d direc texts name j
FirstNamed d direc texts name k (some i) =
    (k ≤ i)
    × (i < entries_per_dir)
    × Named d direc texts name i
    × ((j : ℕ) → k ≤ j → j < i → ¬ Named d direc texts name j)

module _ (d : Bool) (direc : List ℕ) (texts : ℕ → Str) (name : Str) (k : ℕ)
    (missed : ¬ Named d direc texts name k) where
  missed_at : (j : ℕ) → (k ≡ j) ⊎ (¬ Named d direc texts name j) → ¬ Named d direc texts name j
  missed_at j (inl e) = subst (λ i. ¬ Named d direc texts name i) e missed
  missed_at j (inr h) = h

  at_or_behind : (j : ℕ) → k ≤ j → (k ≡ j) ⊎ (k + 1 ≤ j)
  at_or_behind j low = elim (Bool-cases (k == j)) [
    | inl e ↦ inl ((==_iff k j).0 e)
    | inr e ↦ inr (ground arith)
  ]

  FirstNamed-step :
      (r : Option ℕ) → FirstNamed d direc texts name (k + 1) r → FirstNamed d direc texts name k r
  FirstNamed-step none none_behind = λ j low high.
      missed_at j
        (elim (at_or_behind j low) [ inl e ↦ inl e | inr behind ↦ inr (none_behind j behind high) ])
  FirstNamed-step (some i) (low', below, named, before) = (
    omega arith,
    below,
    named,
    λ j low high.
        missed_at j
          (elim (at_or_behind j low) [ inl e ↦ inl e | inr behind ↦ inr (before j behind high) ]),
  )

module _ {S : Type 0} (d : Bool) (direc : List ℕ) {row : List ℕ} {name : Str} (texts : ℕ → Str)
    (asked : IsText row name)
    (stored : (j : ℕ)
      → j < entries_per_dir
      → entry_inode direc j ≢ pos 0
      → IsText (entry_name direc j) (texts j))
    (short : (j : ℕ) → j < entries_per_dir → entry_length direc j ≢ pos 64) where
  examine_lem :
      (k : ℕ) (s : S)
      → k < entries_per_dir
      → (Named d direc texts name k × (examine d direc row k s ≡ done none s))
        ⊎ ((¬ Named d direc texts name k) × (examine d direc row k s ≡ done (some (k + 1)) s))
  unfolding examine
  examine_lem k s below = elim (skips-cases d direc k) [
    | inl (e, inl free) ↦ inr (λ n. n.in_use free, rw e)
    | inl (e, inr other) ↦ inr (λ n. n.other_type other, rw e)
    | inr (e, used, other) ↦
        let compared = same_text_lem s (stored k below used) asked in
        elim (Bool-cases (str_eq (texts k) name)) [
          | inl q ↦ inl (
            record { in_use = used; other_type = other; same_name = eq_of_str_eq _ _ q },
            rw (e, compared, q),
          )
          | inr q ↦
              inr (λ n. str_ne q n.same_name, rw (e, compared, q, eq_int-false (short k below)))
        ]
  ]
    where
      str_ne : {x y : Str} → str_eq x y ≡ false → x ≡ y → ⊥
      str_ne {x} {y} q same = differs (sym (str_eq_refl y) ∙ ap (λ z. str_eq z y) (sym same) ∙ q)
        where
          differs : true ≡ false → ⊥
          differs p = cc

  search-First_from :
      (n k : ℕ) (s : S)
      → k + n ≡ entries_per_dir
      → Returns
          (λ r t. FirstNamed d direc texts name k r × (t ≡ s))
          (search_entries n k d direc row s)
  unfolding search_entries
  search-First_from zero k s whole = returns (λ j low high. absurd (omega arith), refl)
  search-First_from (suc n) k s whole =
      let more : leb entries_per_dir k ≡ false = ground arith in
      elim (examine_lem k s (omega arith)) [
        | inl (found, e) ↦
            rw (more, e)
              (returns
                ((omega arith, omega arith, found, λ j low high. absurd (omega arith)), refl))
        | inr (missed, e) ↦
            rw (more, e)
              (Returns-mono (search-First_from n (k + 1) s (omega arith))
                λ r t p. (FirstNamed-step d direc texts name k missed r p.0, p.1))
      ]

  -- The search of a directory block for a name gives the first entry that is in use, has that name
  -- and is not of the type passed over: files for a path that ends in a slash, and directories for any
  -- other path. It gives none where there is no such entry, and changes nothing. The conditions are
  -- that the names of the entries in use and the name that is looked for are texts with a closing 0,
  -- and that no entry has the length 64.
  pub search_entries-FirstNamed :
      (s : S)
      → Returns
          (λ r t. FirstNamed d direc texts name 0 r × (t ≡ s))
          (search_entries entries_per_dir 0 d direc row s)
  search_entries-FirstNamed s = search-First_from entries_per_dir 0 s refl
