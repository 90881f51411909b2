-- ===== src/Fat/Outcomes.antt =====
-- What the operations on files and entries come to: fat_seek, fat_open, fat_delete and fat_list.
use system_related_projects.Base.{
  ℕ, ◌%◌, ◌^◌, ◌≤◌, ◌<◌, ◌≡◌, ◌≢◌, ◌⊎◌, inl, inr, refl, ◌||◌, Option, none, some, List, [], ◌∷◌,
  ltb, leb, ==-false, Bool-cases, or-left, or-right, if◌then◌else◌, arith,
}
use system_related_projects.Base.Int.{ℤ, pos, success, fail}
use system_related_projects.Base.Result.{done, fault, ◌>>◌}
use system_related_projects.Fat.{FatMount, FatFile, Volume, Env, Fat, on_mount}
use system_related_projects.Fat.Paths.{Located, file2entry, set_file_size}
use system_related_projects.Fat.Files.{null, opened, open_file, seek_file, target}
use system_related_projects.Fat.Names.{or_fault, string_length}
use system_related_projects.Fat.Entries.{delete}
use system_related_projects.Fat.Listing.{Listed, list_dir, list}

-- The answer of a seek: FAIL with the file as it was, or the file at a place within its size, which
-- is the one asked for or the old one.
pub data Sought (file : FatFile) (asked : Option ℕ) : ℤ × Option FatFile → Type 0 where
  no_origin : asked ≡ none → Sought file asked (fail, some file)
  sought :
      (p : ℕ)
      → (asked ≡ some p) ⊎ (p ≡ file.current_pos)
      → p ≤ file.entry.file_size
      → p < 2 ^ 31
      → Sought file asked (pos p, some (record file { current_pos = p }))

-- fat_seek keeps the position within the file's size and below 2 ^ 31, where it was so before: it
-- goes to the place that is asked for or stays, and answers with the position; with an origin that
-- is none of the three it answers FAIL and changes nothing.
pub seek_file-Sought :
    (file : FatFile) (offset origin : ℕ)
    → file.current_pos ≤ file.entry.file_size
    → file.current_pos < 2 ^ 31
    → Sought file (target file offset origin) (seek_file (some file) offset origin)
unfolding seek_file
seek_file-Sought file offset origin within small = go (target file offset origin)
  where
    go :
        (asked : Option ℕ)
        → Sought file asked (elim asked [
          | none ↦ (fail, some file)
          | some p ↦
              let reset = ltb file.entry.file_size p || leb (2 ^ 31) p in
              let p' = if reset then file.current_pos else p in
              (pos p', some (record file { current_pos = p' }))
        ])
    go none = no_origin refl
    go (some p) = elim (Bool-cases (ltb file.entry.file_size p || leb (2 ^ 31) p)) [
      | inl reset ↦ rw reset (sought file.current_pos (inr refl) within small)
      | inr kept ↦ rw kept (
          sought p (inl refl)
            (let h = or-left (ltb file.entry.file_size p) (leb (2 ^ 31) p) kept in ground arith)
            (let h = or-right (ltb file.entry.file_size p) (leb (2 ^ 31) p) kept in ground arith))
    ]

module _ {D H : Type 0} (vol : Volume D H) (env : Env) (m : FatMount H) (d : D) where
  -- fat_open without the truncating bit 1 gives NULL for a file that is found, and for a file that
  -- is not found a handle whose entry is uninitialised memory.
  pub open_file-file2entry :
      (filename left : List ℕ) (mode : ℕ) (found : Option Located) (t : Fat D H)
      → file2entry vol env filename (on_mount m d) ≡ done (found, left) t
      → mode % 2 ≢ 1
      → open_file vol env filename mode (on_mount m d)
        ≡ done
            (elim found [
              | some l ↦ null
              | none ↦ opened (record env.uninit_file { current_pos = 0 })
            ])
            t
  unfolding open_file
  open_file-file2entry filename left mode none t e odd = rw e (rw (==-false odd) refl)
  open_file-file2entry filename left mode (some l) t e odd = rw e refl

  -- Deleting a file of size 0 answers SUCCESS, and after the search for it nothing is written: the
  -- entry stays in its directory.
  pub delete-empty :
      (filename left : List ℕ) (l : Located) (t : Fat D H)
      → file2entry vol env filename (on_mount m d) ≡ done (some l, left) t
      → l.entry.file_size ≡ 0
      → delete vol env filename (on_mount m d) ≡ done success t
  unfolding delete set_file_size
  delete-empty filename left l t e empty = rw e (rw empty refl)

  -- Listing the root directory gives its entries and frees it, so that the next listing of the root
  -- is a fault. The condition is that the entries can be read.
  pub list-list_root :
      (dir : List ℕ) (entries : List Listed)
      → list_dir env.to_lower dir (on_mount (record m { rootdir = some dir }) d)
        ≡ done entries (on_mount (record m { rootdir = some dir }) d)
      → (list vol env (0 ∷ []) (on_mount (record m { rootdir = some dir }) d)
          ≡ done (some entries) (on_mount (record m { rootdir = none }) d))
        × ((list vol env (0 ∷ []) >> list vol env (0 ∷ []))
              (on_mount (record m { rootdir = some dir }) d)
            ≡ fault)
  unfolding list string_length or_fault
  list-list_root dir entries read = (rw read refl, rw read refl)
