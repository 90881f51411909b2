-- ===== src/Fat/Paths.antt =====
-- Files found by their path and written back to their directory: fat_file2entry,
-- fat_updateFileEntry and fat_setFileSize of fat.c.
use system_related_projects.Base.{
  ℕ, zero, suc, ◌+◌, ◌*◌, ◌/◌, ◌||◌, Option, none, some, List, [], ◌∷◌, ◌++◌, ltb, ◌==◌,
  if◌then◌else◌, set, take, drop, get_or,
}
use system_related_projects.Base.Int.{ℤ, pos, negsuc, success, fail, is_fail}
use system_related_projects.Base.Result.{M, pure, ◌>>=◌}
use system_related_projects.Fat.{
  Entry, FatMount, FatFile, Volume, Env, Fat, fat_read, fat_write, sizeof_entry, to_word, dir_at,
  set_dir_at, overlay, get_mount,
}
use system_related_projects.Fat.Table.{rw_cluster, index_of}
use system_related_projects.Fat.Names.{
  slash, or_fault, byte_of, string_length, upper_string, get_index,
}

-- The locals of fat_file2entry. `dir` is the directory that is searched: the root, or the bytes that
-- were read into the cluster buffer last.
pub record Walk : Type 0 where
  pub filename : List ℕ
  pub curr_name : ℕ
  pub dir : Option (List ℕ)
  pub buffer : List ℕ
  pub prev : Entry
  pub dir_index : ℤ
  pub dir_cluster : ℤ

-- What fat_file2entry copies out when it succeeds.
pub record Located : Type 0 where
  pub entry : Entry
  pub dir_cluster : ℤ
  pub dir_index : ℤ

-- The file that the location is copied into.
abbrev pub locate : FatFile → Located → FatFile
locate file l = record file {
  entry = l.entry;
  dir_cluster = l.dir_cluster;
  dir_index = l.dir_index;
}

unfoldable pub located : Walk → Located
located w = record { entry = w.prev; dir_cluster = w.dir_cluster; dir_index = w.dir_index }

unfoldable pub at_start : {H : Type 0} → Env → List ℕ → FatMount H → Walk
at_start env filename m = record {
  filename = filename;
  curr_name = 0;
  dir = m.rootdir;
  buffer = env.fresh m.cluster_size;
  prev = env.uninit_entry;
  dir_index = fail;
  dir_cluster = fail;
}

module _ {D H : Type 0} (vol : Volume D H) (env : Env) where
  -- One round for the component that ends at `i`: FAIL when the cluster cannot be read.
  unfoldable pub enter : ℕ → Walk → M (Fat D H) (ℤ × Walk)
  enter i w = do
    let cut = set w.filename i 0
    dir ← or_fault w.dir
    (index, name) ← get_index env.to_upper dir (drop w.curr_name cut)
    let filename = take w.curr_name cut ++ name
    elim index [
      | negsuc k ↦ pure (success, record w { filename = filename; dir_index = negsuc k })
      | pos k ↦ do
        e ← dir_at dir k
        (r, buffer) ← rw_cluster vol (pos e.start_cluster) w.buffer fat_read
        pure (
          r,
          record {
            filename = filename;
            curr_name = i + 1;
            dir = some buffer;
            buffer = buffer;
            prev = e;
            dir_index = pos k;
            dir_cluster = pos w.prev.start_cluster;
          },
        )
    ]

  -- The loop over the `n` bytes from `i` on.
  unfoldable pub walk : ℕ → ℕ → Walk → M (Fat D H) (ℤ × Walk)
  walk zero i w = pure (success, w)
  walk (suc n) i w = do
    b ← byte_of w.filename i
    if b == slash || b == 0
        then (do
          (r, w') ← enter i w
          if is_fail r || is_fail w'.dir_index then pure (r, w') else walk n (i + 1) w')
        else walk n (i + 1) w

  -- The path behind its first slash: the location, or none for FAIL, and the path that is left.
  unfoldable pub find_path : List ℕ → M (Fat D H) (Option Located × List ℕ)
  find_path filename = do
    length ← or_fault (string_length filename)
    upper ← or_fault (upper_string env.to_upper filename)
    m ← get_mount
    (r, w) ← walk (length + 1) 0 (at_start env upper m)
    if is_fail r then pure (none, w.filename) else (do
      rest ←
          if is_fail w.dir_index
          then or_fault (string_length (drop w.curr_name w.filename))
          else pure 0
      pure (if rest == 0 then some (located w) else none, w.filename))

  unfoldable pub file2entry : List ℕ → M (Fat D H) (Option Located × List ℕ)
  file2entry filename = do
    b ← byte_of filename 0
    if b == slash
        then (do (found, rest) ← find_path (drop 1 filename); pure (found, b ∷ rest))
        else find_path filename

-- The search for a slot over the `n` entries from `i` on, and where it ended.
pub data Slot : Type 0 where
  last_slot : ℕ → Slot
  slot : ℕ → Slot

unfoldable pub find_slot : {S : Type 0} → List ℕ → ℕ → ℕ → M S Slot
find_slot dir zero i = pure (slot i)
find_slot dir (suc n) i = do
  e ← dir_at dir i
  if e.file_size == 0xffff_ffff
      then find_slot dir n (i + 1)
      else (if get_or e.name 0 0 == 0
          then pure (if n == 0 then last_slot i else slot i)
          else find_slot dir n (i + 1))

-- The slot that was found, with the first byte of the entry behind it cleared when the search found
-- one before the end.
unfoldable pub clear_next : {S : Type 0} → List ℕ → ℕ → ℕ → M S (List ℕ)
clear_next dir slots i =
    if ltb i slots then overlay dir ((i + 1) * sizeof_entry) (0 ∷ []) else pure dir

module _ {D H : Type 0} (vol : Volume D H) (env : Env) where
  -- The entry of the file is put into its directory at an index, and the directory is written.
  unfoldable pub store_entry : FatFile → List ℕ → ℕ → M (Fat D H) (ℤ × FatFile)
  store_entry file dir i = do
    dir' ← set_dir_at dir i file.entry
    (r, _) ← rw_cluster vol file.dir_cluster dir' fat_write
    pure (r, record file { dir_index = pos i })

  unfoldable pub update_file_entry : FatFile → M (Fat D H) (ℤ × FatFile)
  update_file_entry file = do
    m ← get_mount
    (r, dir) ← rw_cluster vol file.dir_cluster (env.fresh m.cluster_size) fat_read
    if is_fail r
        then pure (fail, file)
        else (if is_fail file.dir_index
            then (do
              let slots = m.cluster_size / sizeof_entry
              found ← find_slot dir slots 0
              elim found [
                | last_slot i ↦ pure (fail, record file { dir_index = pos i })
                | slot i ↦ do dir' ← clear_next dir slots i; store_entry file dir' i
              ])
            else (do i ← index_of file.dir_index; store_entry file dir i))

  unfoldable pub set_file_size : FatFile → ℤ → M (Fat D H) (ℤ × FatFile)
  set_file_size file size =
      if file.entry.file_size == to_word size
      then pure (success, file)
      else update_file_entry
          (record file { entry = record file.entry { file_size = to_word size } })
