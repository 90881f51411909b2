-- ===== src/Fat/Listing.antt =====
-- fat_list of fat.c.
use system_related_projects.Base.{
  ℕ, zero, suc, ◌+◌, ◌/◌, Bool, not, ◌||◌, Option, none, some, List, [], ◌∷◌, ◌++◌, ltb, ◌==◌,
  if◌then◌else◌, get_or, length, map, test_bit,
}
use system_related_projects.Base.Int.{pos}
use system_related_projects.Base.Result.{spin, M, pure, ◌>>=◌, ◌>>◌}
use system_related_projects.Fat.{
  Entry, Volume, Env, Fat, fat_read, entry_deleted, pad_byte, sizeof_entry, encode_entry, dir_at,
  overlay, get_mount, put_mount, is_null,
}
use system_related_projects.Fat.Table.{rw_cluster}
use system_related_projects.Fat.Names.{dot, or_fault, string_length}
use system_related_projects.Fat.Paths.{file2entry}

-- struct VFS_DIRLIST_ENTRY as this function fills it
pub record Listed : Type 0 where
  pub name : List ℕ
  pub is_directory : Bool
  pub size : ℕ

-- A field up to its padding.
unfoldable pub unpadded : List ℕ → List ℕ
unpadded [] = []
unpadded (b ∷ field) = if b == pad_byte then [] else b ∷ unpadded field

unfoldable pub listed : (ℕ → ℕ) → Entry → Listed
listed to_lower e = record {
  name =
      map to_lower (unpadded e.name)
      ++ (if get_or e.extension 0 0 == pad_byte then [] else dot ∷ unpadded e.extension);
  is_directory = test_bit e.attribute 4;
  size = e.file_size;
}

-- The loop from entry `i` of the directory and place `found` of the answer on. It ends at a read
-- behind the directory at the latest, so one round more than the directory has entries is enough.
unfoldable pub list_from : {S : Type 0} → (ℕ → ℕ) → List ℕ → ℕ → ℕ → ℕ → M S (List Listed)
list_from to_lower dir zero i found = λ _. spin
list_from to_lower dir (suc fuel) i found = if not (ltb found 32 || ltb i 16) then pure [] else (do
  e ← dir_at dir i
  if get_or e.name 0 0 == 0
      then pure []
      else (if get_or e.name 0 0 == entry_deleted || e.file_size == 0xffff_ffff
          then list_from to_lower dir fuel (i + 1) found
          else (do
            rest ← list_from to_lower dir fuel (i + 1) (found + 1)
            pure (listed to_lower e ∷ rest))))

unfoldable pub list_dir : {S : Type 0} → (ℕ → ℕ) → List ℕ → M S (List Listed)
list_dir to_lower dir = list_from to_lower dir (length dir / sizeof_entry + 1) 0 0

module _ {D H : Type 0} (vol : Volume D H) (env : Env) where
  -- The directory at a path, or none for FAIL. The result of the last read is not looked at.
  unfoldable pub open_dir : List ℕ → M (Fat D H) (Option (List ℕ))
  open_dir dirname = do
    m ← get_mount
    (found, _) ← file2entry vol env dirname
    elim found [
      | none ↦ pure none
      | some l ↦ do
        dir ← overlay (env.fresh m.cluster_size) 0 (encode_entry l.entry)
        (_, dir') ← rw_cluster vol (pos l.entry.start_cluster) dir fat_read
        pure (some dir')
    ]

  -- The entries, or none for FAIL. The root directory is freed with the listing of it.
  unfoldable pub list : List ℕ → M (Fat D H) (Option (List Listed))
  list dirname = do
    missing ← is_null
    if missing then pure none else (do
      n ← or_fault (string_length dirname)
      if n == 0
          then (do
            m ← get_mount
            dir ← or_fault m.rootdir
            entries ← list_dir env.to_lower dir
            put_mount (record m { rootdir = none })
            pure (some entries))
          else (do
            dir ← open_dir dirname
            elim dir [
              | none ↦ pure none
              | some d ↦ do entries ← list_dir env.to_lower d; pure (some entries)
            ]))
