-- ===== src/Dfs/Devices.antt =====
-- The device list against a table of devices by name, and the listing.
use system_related_projects.Base.{
  ◌+◌, ◌*◌, ◌/◌, ◌%◌, ◌<◌, ◌≡◌, ◌≢◌, refl, sym, ◌∙◌, true, false, none, some, List, [], ◌∷◌, ◌⊎◌,
  if◌then◌else◌, length, arith, Bool-cases, Option-cases, inl, inr, lt→ltb,
}
use system_related_projects.Base.Int.{ℤ, success, fail, is_fail}
use system_related_projects.Base.Result.{done, Returns, returns, Returns-of}
use system_related_projects.Vfs.{Str, MountData}
use system_related_projects.Vfs.Mounting.{str_eq}
use system_related_projects.Vfs.Text.{str_eq_refl, eq_of_str_eq, str_eq-false}
use system_related_projects.Dfs.{Device, Dfs, freed_calltable, freed_name, freed_entry}
use system_related_projects.Dfs.Ops.{
  find_device, drop_device, add, remove, duplicate_name, copy, rename, delete,
}

module _ {C : Type 0} where
  pub find_device-drop_device :
      (name other : Str) (ds : List (Device C))
      → name ≢ other
      → find_device other (drop_device name ds) ≡ find_device other ds
  unfolding find_device drop_device
  find_device-drop_device name other [] ne = refl
  find_device-drop_device name other (d ∷ ds) ne = elim (Bool-cases (str_eq d.name name)) [
    | inl e ↦
        rw (e, str_eq-false (λ (q : d.name ≡ other). ne (sym (eq_of_str_eq d.name name e) ∙ q)))
    | inr e ↦ rw e (rw (find_device-drop_device name other ds ne))
  ]

  pub find_device-name :
      (name : Str) (ds : List (Device C)) {d : Device C}
      → find_device name ds ≡ some d
      → d.name ≡ name
  unfolding find_device
  find_device-name name [] e = cc
  find_device-name name (x ∷ ds) {d} e = elim (Bool-cases (str_eq x.name name)) [
    | inl t ↦ ground (arith, eq_of_str_eq x.name name t)
    | inr t ↦ find_device-name name ds (rw t at e)
  ]

  pub length-drop_device :
      (name : Str) (ds : List (Device C)) {d : Device C}
      → find_device name ds ≡ some d
      → length (drop_device name ds) + 1 ≡ length ds
  unfolding find_device drop_device
  length-drop_device name [] e = cc
  length-drop_device name (x ∷ ds) {d} e = elim (Bool-cases (str_eq x.name name)) [
    | inl t ↦ rw t (omega arith)
    | inr t ↦ rw t (omega (arith, length-drop_device name ds {d = d} (rw t at e)))
  ]

module _ {C I : Type 0} (s : Dfs C I) where
  remove-none : (name : Str) → find_device name s.devices ≡ none → remove name s ≡ done fail s
  unfolding remove
  remove-none name e = rw (e, remove)

  remove-some :
      (name : Str) {d : Device C}
      → find_device name s.devices ≡ some d
      → remove name s
        ≡ done success (record s {
          devices = drop_device name s.devices;
          freed = freed_entry d ∷ freed_name d.name ∷ freed_calltable d.calltable ∷ s.freed;
        })
  unfolding remove
  remove-some name e = rw (e, remove)

module _ {C I : Type 0} (s : Dfs C I) where
  -- After `dfs_add` the new device is found under its name, in front of any other of that name, and
  -- every other name finds what it found before.
  pub add-find_device :
      (name other : Str) (calltable : C) (type : ℤ)
      → Returns
          (λ d s'.
            (d ≡ record { name = name; calltable = calltable; type = type })
            × (find_device other s'.devices
                ≡ (if str_eq name other then some d else find_device other s.devices)))
          (add name calltable type s)
  unfolding add find_device
  add-find_device name other calltable type = returns (refl, refl)

  -- `dfs_remove` fails and changes nothing where no device has the name. Else it succeeds, the list
  -- is one device shorter, and any other name finds what it found before.
  pub remove_lem :
      (name other : Str)
      → name ≢ other
      → Returns
          (λ r s'.
            ((find_device name s.devices ≡ none) × (r ≡ fail) × (s' ≡ s))
            ⊎ ((find_device name s.devices ≢ none)
                × (r ≡ success)
                × (length s'.devices + 1 ≡ length s.devices)
                × (find_device other s'.devices ≡ find_device other s.devices)))
          (remove name s)
  remove_lem name other ne = elim (Option-cases (find_device name s.devices)) [
    | inl e ↦ Returns-of (remove-none s name e) (inl (e, refl, refl))
    | inr (d, e) ↦ Returns-of (remove-some s name e) (
        inr (
          (λ x. cc),
          refl,
          length-drop_device name s.devices e,
          find_device-drop_device name other s.devices ne,
        ))
  ]

  module _ (m : MountData) (src dst : Str) {d : Device C}
      (known : find_device src s.devices ≡ some d) (room : length dst % 8 ≢ 0) where
    abbrev pub copied : Device C
    copied = record { name = dst; calltable = d.calltable; type = d.type }

    copy_lem :
        (answer : ℤ)
        → copy answer m src dst s ≡ done answer (record s { devices = copied ∷ s.devices })
    unfolding copy duplicate_name add
    copy_lem answer =
        let fits : length dst < (length dst + 7) / 8 * 8 = omega arith in
        rw (known, copy, lt→ltb _ _ fits)

    -- `dfs_rename` of a known device to another name, where the copy of the name fits its memory and
    -- the value that `dfs_copy` happens to leave is not FAIL: it succeeds, the new name finds the
    -- device's call table and type, and any third name finds what it found before.
    pub rename-moves :
        (answer : ℤ) (other : Str)
        → is_fail answer ≡ false
        → src ≢ dst
        → src ≢ other
        → dst ≢ other
        → Returns
            (λ r s'.
              (r ≡ success)
              × (find_device dst s'.devices ≡ some copied)
              × (find_device other s'.devices ≡ find_device other s.devices))
            (rename answer m src dst s)
    unfolding rename delete find_device drop_device
    rename-moves answer other fine ne n n' =
        let other_name : str_eq dst src ≡ false = str_eq-false (λ e. ne (sym e)) in
        rw (copy_lem answer, fine)
          (Returns-of
            (remove-some (record s { devices = copied ∷ s.devices }) src {d = d}
              (rw other_name known))
            (
              refl,
              rw (other_name, str_eq_refl dst),
              rw (other_name, str_eq-false n') (find_device-drop_device src other s.devices n),
            ))

    -- Where the value that `dfs_copy` happens to leave is FAIL, `dfs_rename` fails and both names
    -- are in the list.
    pub rename-keeps_both :
        (answer : ℤ)
        → is_fail answer ≡ true
        → src ≢ dst
        → Returns
            (λ r s'.
              (r ≡ fail)
              × (find_device src s'.devices ≡ some d)
              × (find_device dst s'.devices ≡ some copied))
            (rename answer m src dst s)
    unfolding rename find_device
    rename-keeps_both answer bad ne =
        rw (copy_lem answer, bad)
          (returns
            (refl, rw (str_eq-false (λ (e : dst ≡ src). ne (sym e))) known, rw (str_eq_refl dst)))
