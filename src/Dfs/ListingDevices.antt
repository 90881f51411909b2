-- ===== src/Dfs/ListingDevices.antt =====
-- The buffer that `dfs_list` of MimicOS/src/kernel/fs/dfs.c fills, entry by entry.
use system_related_projects.Base.{
  ℕ, zero, suc, ◌+◌, ◌-◌, ◌≤◌, ◌<◌, ◌≡◌, ◌⊎◌, inl, inr, refl, ap, true, false, none, some, List, [],
  ◌∷◌, ◌++◌, ◌==◌, ltb, lt→ltb, if◌then◌else◌, length, length-append, length-replicate, length-map,
  replicate, set, map, take, arith, Bool-cases,
}
use system_related_projects.Base.Result.{done, fault}
use system_related_projects.Vfs.{Str, MountData, DirlistEntry}
use system_related_projects.Dfs.{Device, Dfs}
use system_related_projects.Dfs.Ops.{
  list_dir, list_entry, directory_entry, vfs_namesize, vfs_device, vfs_directory, cleared_entry,
  put_entry, fill_list,
}

set-past :
    (pre rest : List DirlistEntry) (a b : DirlistEntry)
    → set (pre ++ a ∷ rest) (length pre) b ≡ pre ++ b ∷ rest
set-past [] rest a b = refl
set-past (x ∷ pre) rest a b = ap (λ l. x ∷ l) (set-past pre rest a b)

append_assoc : (xs ys zs : List DirlistEntry) → (xs ++ ys) ++ zs ≡ xs ++ (ys ++ zs)
append_assoc [] ys zs = refl
append_assoc (x ∷ xs) ys zs = ap (λ l. x ∷ l) (append_assoc xs ys zs)

put_entry-past :
    {S : Type 0} (pre rest : List DirlistEntry) (a e : DirlistEntry) (s : S)
    → put_entry (pre ++ a ∷ rest) (length pre) e s ≡ done (pre ++ e ∷ rest) s
unfolding put_entry
put_entry-past pre rest a e s =
    let whole = length-append pre (a ∷ rest) in
    let fits : ltb (length pre) (length (pre ++ a ∷ rest)) ≡ true = lt→ltb _ _ (omega arith) in
    rw fits (ap (λ l. done l s) (set-past pre rest a e))

module _ {S C : Type 0} where
  -- The loop puts the devices behind the entries that are filled, and is a fault where they do not fit.
  fill_list_lem :
      (ds : List (Device C)) (room : ℕ) (pre : List DirlistEntry) (s : S)
      → fill_list ds (length pre) (length ds) (pre ++ replicate room cleared_entry) s ≡ (
          if ltb room (length ds)
          then fault
          else done (pre ++ (map list_entry ds ++ replicate (room - length ds) cleared_entry)) s)
  unfolding fill_list put_entry
  fill_list_lem [] room pre s =
      let all : room - 0 ≡ room = omega arith in
      let fits : ltb room 0 ≡ false = ground arith in rw (all, fits) refl
  fill_list_lem (d ∷ ds) zero pre s =
      let same : length (pre ++ []) ≡ length pre + 0 = length-append pre [] in
      let full : ltb (length pre) (length (pre ++ [])) ≡ false = ground (arith, same) in
      let past : ltb 0 (suc (length ds)) ≡ true = ground arith in rw (full, past) refl
  fill_list_lem (d ∷ ds) (suc room) pre s =
      let e = list_entry d in
      let rest = replicate room cleared_entry in
      let later = fill_list_lem ds room (pre ++ e ∷ []) s in
      let next : length (pre ++ e ∷ []) ≡ length pre + 1 = length-append pre (e ∷ []) in
      let count : suc (length ds) - 1 ≡ length ds = omega arith in
      let left : suc room - suc (length ds) ≡ room - length ds = omega arith in
      let test : ltb (suc room) (suc (length ds)) ≡ ltb room (length ds) = ground arith in
      rw (put_entry-past pre rest cleared_entry e s) (
        rw (count, left, test)
          (rw
            (
              next,
              append_assoc pre (e ∷ []) rest,
              append_assoc pre (e ∷ [])
                  (map list_entry ds ++ replicate (room - length ds) cleared_entry),
            )
            at later))

module _ {C I : Type 0} (s : Dfs C I) where
  abbrev pub listed : List DirlistEntry
  listed =
      record { name = 46 ∷ []; attributes = vfs_directory; size = 0 }
      ∷ record { name = 46 ∷ 46 ∷ []; attributes = vfs_directory; size = 0 }
      ∷ (map
            (λ (d : Device C). record {
              name = take vfs_namesize d.name;
              attributes = vfs_device;
              size = 0;
            })
            s.devices
          ++ replicate (30 - length s.devices) cleared_entry)

  -- `dfs_list` gives nothing for no device and runs past its buffer for more than 30. Else it gives the
  -- 32 entries of its buffer: the directories `.` and `..`, then the devices in order, the name of each
  -- cut to 32 bytes, and the others cleared. The list of devices is unchanged.
  pub list_dir_lem :
      (m : MountData) (dir : Str)
      → ((length s.devices ≡ 0) × (list_dir m dir s ≡ done none s))
        ⊎ ((30 < length s.devices) × (list_dir m dir s ≡ fault))
        ⊎ ((length s.devices ≤ 30)
            × (list_dir m dir s ≡ done (some listed) s)
            × (length listed ≡ 32))
  unfolding list_dir put_entry list_entry directory_entry
  list_dir_lem m dir =
      let n = length s.devices in
      let rest = replicate (30 - n) cleared_entry in
      let sum = length-append (map list_entry s.devices) rest in
      let as_many = length-map s.devices list_entry in
      let left : length rest ≡ 30 - n = length-replicate (30 - n) cleared_entry in
      let pre = directory_entry (46 ∷ []) ∷ directory_entry (46 ∷ 46 ∷ []) ∷ [] in
      let filled = fill_list_lem s.devices 30 pre s in
      elim (Bool-cases (length s.devices == 0)) [
        | inl e ↦ inl (ground arith, rw e refl)
        | inr e ↦ elim (Bool-cases (ltb 30 (length s.devices))) [
          | inl many ↦ inr (inl (ground arith, rw e (rw filled (rw many refl))))
          | inr fits ↦ inr (
              inr (
                ground arith,
                rw e (rw filled (rw fits refl)),
                (let few : n ≤ 30 = ground arith in omega (arith, sum, as_many, left, few)),
              ))
        ]
      ]
