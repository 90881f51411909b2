-- ===== src/Fat/Entries.antt =====
-- The operations on directory entries: fat_create, fat_delete, fat_rename and fat_list of fat.c. The
-- function fat_create returns `res` where `ret` is meant, and calls strcpy with the character '/' for
-- a string: a fault.
use system_related_projects.Base.{
  ℕ, zero, suc, ◌+◌, ◌-◌, ◌%◌, Bool, true, Option, none, some, List, ◌++◌, ◌==◌, if◌then◌else◌,
  take, drop, set, get_or, replicate,
}
use system_related_projects.Base.Int.{ℤ, pos, fail}
use system_related_projects.Base.Result.{fault, M, pure, ◌>>=◌, ◌>>◌}
use system_related_projects.Fat.{
  Entry, FatFile, Volume, Env, Fat, fat_write, end_of_cluster, free_cluster, entry_deleted,
  sizeof_entry, to_word, decode_entry, overlay, get_mount, is_null,
}
use system_related_projects.Fat.Table.{rw_cluster, get_free_cluster, set_fat_cluster}
use system_related_projects.Fat.Names.{slash, or_fault, string_length, set_file_name}
use system_related_projects.Fat.Paths.{
  Located, locate, file2entry, update_file_entry, set_file_size,
}

-- strrchr for a slash in the first `n` bytes: the place of the last one.
unfoldable pub last_slash : List ℕ → ℕ → Option ℕ
last_slash bytes zero = none
last_slash bytes (suc n) = if get_or bytes n 0 == slash then some n else last_slash bytes n

unfoldable pub find_slash : {S : Type 0} → List ℕ → M S (Option ℕ)
find_slash bytes = do n ← or_fault (string_length bytes); pure (last_slash bytes n)

-- The names that fat_create works with: whether a directory is made, the memory of the name behind
-- its last slash, or none for the pointer behind NULL, and the directory's.
pub record Parts : Type 0 where
  pub create_dir : Bool
  pub filename : Option (List ℕ)
  pub dirname : List ℕ

unfoldable pub parts_of : Bool → Option (List ℕ) → List ℕ → Parts
parts_of create_dir filename dirname = record {
  create_dir = create_dir;
  filename = filename;
  dirname = dirname;
}

-- `filename` is as the search left it, and `dirname` is the copy that was taken before.
unfoldable pub split_path : {S : Type 0} → List ℕ → List ℕ → M S Parts
split_path filename dirname = do
  n ← or_fault (string_length filename)
  if n == 0 then (λ _. fault) else (do
    let create_dir = get_or filename (n - 1) 0 == slash
    let filename' = if create_dir then set filename (n - 1) 0 else filename
    let dirname' = if create_dir then take n filename' ++ drop n dirname else dirname
    cut ← find_slash dirname'
    elim cut [
      | none ↦ λ _. fault
      | some i ↦ do
        j ← find_slash filename'
        pure (
            parts_of create_dir (elim j [ none ↦ none | some k ↦ some (drop (k + 1) filename') ])
              (set dirname' (i + 1) 0))
    ])

-- The attributes of a new entry: the bit of a directory, or that of an archive file.
abbrev pub directory_attribute : ℕ
directory_attribute = 16

abbrev pub archive_attribute : ℕ
archive_attribute = 32

-- The entry of 0 bytes, with its name, extension and attribute.
unfoldable pub new_entry : Entry → ℕ → ℕ → Entry
new_entry named attribute cluster = record named {
  attribute = attribute;
  time = 0;
  date = 0;
  file_size = 0;
  start_cluster = cluster % 65536;
}

module _ {D H : Type 0} (vol : Volume D H) (env : Env) where
  -- The first cluster of a new directory, filled with 0; none for FAIL, as is 0xFFFF.
  unfoldable pub directory_cluster : M (Fat D H) (Option ℕ)
  directory_cluster = do
    m ← get_mount
    free ← get_free_cluster
    let cluster = to_word free % 65536
    if cluster == 0xffff then pure none else (do
      zeros ← overlay (env.fresh m.cluster_size) 0 (replicate m.cluster_size 0)
      rw_cluster vol (pos cluster) zeros fat_write
      set_fat_cluster vol (pos cluster) end_of_cluster true
      pure (some cluster))

  -- The new entry, in the directory that was found.
  unfoldable pub create_in : Bool → Option (List ℕ) → Located → M (Fat D H) ℤ
  create_in create_dir filename l = do
    name ← or_fault filename
    let blank : FatFile = record {
      entry = decode_entry (replicate sizeof_entry 0);
      dir_cluster = pos l.entry.start_cluster;
      dir_index = fail;
      current_pos = 0;
    }
    (_, file, _) ← set_file_name env.to_upper blank name
    if create_dir
        then (do
          cluster ← directory_cluster
          elim cluster [
            | none ↦ pure fail
            | some c ↦ do
              (r, _) ←
                  update_file_entry vol env
                    (record file { entry = new_entry file.entry directory_attribute c })
              pure r
          ])
        else (do
          (r, _) ←
              update_file_entry vol env
                (record file { entry = new_entry file.entry archive_attribute free_cluster })
          pure r)

  unfoldable pub create : List ℕ → M (Fat D H) ℤ
  create filename = do
    missing ← is_null
    if missing then pure fail else (do
      n ← or_fault (string_length filename)
      (found, left) ← file2entry vol env filename
      elim found [
        | some l ↦ pure fail
        | none ↦ do
          p ← split_path left (take (n + 1) filename)
          (parent, _) ← file2entry vol env p.dirname
          elim parent [ none ↦ pure fail | some l ↦ create_in p.create_dir p.filename l ]
      ])

  unfoldable pub delete : List ℕ → M (Fat D H) ℤ
  delete filename = do
    missing ← is_null
    if missing then pure fail else (do
      (found, _) ← file2entry vol env filename
      elim found [
        | none ↦ pure fail
        | some l ↦ do
          let file = locate env.uninit_file l
          (r, _) ←
              set_file_size vol env
                (record file { entry = record l.entry { name = set l.entry.name 0 entry_deleted } })
                (pos 0)
          pure r
      ])

  unfoldable pub rename : List ℕ → List ℕ → M (Fat D H) ℤ
  rename src dst = do
    missing ← is_null
    if missing then pure fail else (do
      (found, _) ← file2entry vol env src
      elim found [
        | none ↦ pure fail
        | some l ↦ do
          cut ← find_slash dst
          elim cut [
            | none ↦ pure fail
            | some i ↦ do
              (_, file, _) ←
                  set_file_name env.to_upper (locate env.uninit_file l) (drop (i + 1) dst)
              (r, _) ← update_file_entry vol env file
              pure r
          ]
      ])

-- Copying is not supported.
abbrev pub copy : List ℕ → List ℕ → ℤ
copy src dst = fail
