-- ===== src/Fat/Files.antt =====
-- The operations on open files: fat_open to fat_seek of fat.c.
use system_related_projects.Base.{
  ℕ, zero, suc, ◌+◌, ◌-◌, ◌*◌, ◌/◌, ◌%◌, ◌^◌, Bool, true, false, not, ◌||◌, Option, none, some,
  List, ltb, leb, ◌==◌, if◌then◌else◌, replicate,
}
use system_related_projects.Base.Int.{ℤ, pos, negsuc, success, fail, is_fail}
use system_related_projects.Base.Result.{fault, spin, M, pure, ◌>>=◌, ◌>>◌}
use system_related_projects.Fat.{
  FatFile, Volume, Env, Fat, w32, fat_read, fat_write, end_of_cluster, free_cluster, to_word,
  overlay, slice, get_mount, is_null,
}
use system_related_projects.Fat.Table.{
  get_fat_cluster, get_free_cluster, set_fat_cluster, rw_cluster, sub32,
}
use system_related_projects.Fat.Paths.{file2entry, set_file_size}

-- What fat_open gives back, as a pointer: FAIL, NULL or the handle, which leads to the file.
pub data Opened : Type 0 where
  minus_one : Opened
  null : Opened
  opened : FatFile → Opened

-- The end of a chain: a free cluster or FAIL.
abbrev pub ends_chain : ℤ → Bool
ends_chain (pos n) = n == free_cluster
ends_chain (negsuc n) = n == 0

module _ {D H : Type 0} where
  -- The cluster `n` links behind a cluster, or FAIL.
  unfoldable pub follow : ℕ → ℤ → M (Fat D H) ℤ
  follow zero cluster = pure cluster
  follow (suc n) cluster = do
    next ← get_fat_cluster cluster
    if ends_chain next then pure fail else follow n next

  module _ (vol : Volume D H) where
    -- `n` clusters are linked in behind `prev`: the last of them, or FAIL.
    unfoldable pub extend : ℕ → ℤ → M (Fat D H) ℤ
    extend zero prev = pure prev
    extend (suc n) prev = do
      next ← get_free_cluster
      if is_fail next
          then pure fail
          else (do set_fat_cluster vol prev (to_word next) false; extend n next)

    -- The table made ready for `size` bytes, and the bytes that are to be moved; none for FAIL.
    unfoldable pub make_room : ℕ → FatFile → ℕ → ℤ → ℕ → M (Fat D H) (Option ℕ)
    make_room mode file cluster_size cluster size =
        if not (ltb file.entry.file_size ((file.current_pos + size) % w32))
        then pure (some size)
        else (if mode == fat_write
            then (do
              last ← extend (size / cluster_size + 1) cluster
              if is_fail last
                  then pure none
                  else (do set_fat_cluster vol last end_of_cluster true; pure (some size)))
            else pure (some (sub32 file.entry.file_size file.current_pos)))

-- A sum or product of ints that are not negative, which must be an int again: an overflow is a fault.
unfoldable pub as_int : {S : Type 0} → ℕ → M S ℕ
as_int n = if ltb n (2 ^ 31) then pure n else (λ _. fault)

-- `bytes_to_rw` of a round that ends at `bound` at the latest.
unfoldable pub bytes_below : ℕ → ℕ → ℕ → ℕ → ℕ
bytes_below cluster_size bound offset size =
    let bytes = if ltb cluster_size size then cluster_size else size in
    if ltb bound (offset + bytes) then size - (offset + bytes - bound) else bytes

-- `bytes_to_rw` of a round, for the position that the file has before the call.
unfoldable pub round_bytes : {S : Type 0} → ℕ → ℕ → ℕ → ℕ → M S ℕ
round_bytes cluster_size position offset size = do
  bound ← as_int ((position / cluster_size + 1) * cluster_size)
  pure (bytes_below cluster_size bound offset size)

-- What a round leaves: whether the loop is left at once, and the two buffers.
pub record Round : Type 0 where
  pub failed : Bool
  pub cluster_buffer : List ℕ
  pub buffer : List ℕ

unfoldable pub round_of : Bool → List ℕ → List ℕ → Round
round_of failed cluster_buffer buffer = record {
  failed = failed;
  cluster_buffer = cluster_buffer;
  buffer = buffer;
}

module _ {D H : Type 0} (vol : Volume D H) where
  -- The cluster buffer before a write: FAIL when the cluster cannot be read.
  unfoldable pub prepare : ℕ → ℤ → ℕ → ℕ → List ℕ → M (Fat D H) (ℤ × List ℕ)
  prepare cluster_size cluster offset bytes cluster_buffer =
      if ltb 0 offset || ltb bytes cluster_size
      then rw_cluster vol cluster cluster_buffer fat_read
      else (do
        cleared ← overlay cluster_buffer 0 (replicate cluster_size 0)
        pure (success, cleared))

  -- One round moves `bytes` bytes between a cluster, from `offset` on, and the buffer of the caller,
  -- from `at` on.
  unfoldable pub read_round : ℤ → ℕ → ℕ → List ℕ → List ℕ → ℕ → M (Fat D H) Round
  read_round cluster offset bytes cluster_buffer buffer at = do
    (r, read) ← rw_cluster vol cluster cluster_buffer fat_read
    if is_fail r then pure (round_of true read buffer) else (do
      moved ← slice read offset bytes
      buffer' ← overlay buffer at moved
      pure (round_of false read buffer'))

  unfoldable pub write_round : ℕ → ℤ → ℕ → ℕ → List ℕ → List ℕ → ℕ → M (Fat D H) Round
  write_round cluster_size cluster offset bytes cluster_buffer buffer at = do
    (r, old) ← prepare cluster_size cluster offset bytes cluster_buffer
    if is_fail r then pure (round_of true old buffer) else (do
      moved ← slice buffer at bytes
      new ← overlay old offset moved
      (r', written) ← rw_cluster vol cluster new fat_write
      pure (round_of (is_fail r') written buffer))

  unfoldable pub one_round : ℕ → ℕ → ℤ → ℕ → ℕ → List ℕ → List ℕ → ℕ → M (Fat D H) Round
  one_round mode cluster_size cluster offset bytes cluster_buffer buffer at =
      if mode == fat_write
      then write_round cluster_size cluster offset bytes cluster_buffer buffer at
      else read_round cluster offset bytes cluster_buffer buffer at

  -- The loop: the bytes that were moved, and the buffer of the caller. A round that does not leave
  -- the loop moves at least one byte, so `size + 1` rounds of fuel are enough.
  unfoldable pub transfer :
      ℕ → ℕ → ℕ → ℕ → ℤ → ℕ → ℕ → ℕ → List ℕ → List ℕ → M (Fat D H) (ℕ × List ℕ)
  transfer zero mode cluster_size position cluster offset size at cluster_buffer buffer = λ _. spin
  transfer (suc fuel) mode cluster_size position cluster offset size at cluster_buffer buffer = (do
    bytes ← round_bytes cluster_size position offset size
    w ← one_round mode cluster_size cluster offset bytes cluster_buffer buffer at
    if w.failed then pure (at, w.buffer) else (do
      total ← as_int (at + bytes)
      if size - bytes == 0 then pure (total, w.buffer) else (do
        next ← get_fat_cluster cluster
        if ends_chain next
            then pure (total, w.buffer)
            else transfer fuel mode cluster_size position next 0 (size - bytes) total
                w.cluster_buffer w.buffer)))

  module _ (env : Env) where
    -- From the point where room is made: none is a FAIL there. The bytes are moved, and the position
    -- behind them.
    unfoldable pub move_bytes :
        ℕ → ℕ → FatFile → ℤ → List ℕ → Option ℕ → M (Fat D H) (ℤ × List ℕ × Option FatFile)
    move_bytes mode cs file cluster buffer none = pure (fail, buffer, some file)
    move_bytes mode cs file cluster buffer (some n) = do
      (moved, buffer') ←
          transfer (n + 1) mode cs file.current_pos cluster (file.current_pos % cs) n 0
            (env.fresh cs) buffer
      position ← as_int (file.current_pos + moved)
      pure (pos moved, buffer', some (record file { current_pos = position }))

    -- The count or FAIL, the buffer of the caller and the file. A division by 0 is a fault. The
    -- argument none is a handle without a file.
    unfoldable pub fat_rw :
        Option FatFile → List ℕ → ℕ → ℕ → M (Fat D H) (ℤ × List ℕ × Option FatFile)
    fat_rw none buffer size mode = pure (fail, buffer, none)
    fat_rw (some file) buffer size mode = do
      m ← get_mount
      let cs = m.cluster_size
      if cs == 0 then (λ _. fault) else (do
        cluster ← follow (file.current_pos / cs) (pos file.entry.start_cluster)
        if is_fail cluster then pure (fail, buffer, some file) else (do
          room ← make_room vol mode file cs cluster size
          move_bytes mode cs file cluster buffer room))

    unfoldable pub read_file :
        Option FatFile → List ℕ → ℕ → M (Fat D H) (ℤ × List ℕ × Option FatFile)
    read_file file buffer size = fat_rw file buffer size fat_read

    unfoldable pub write_file : Option FatFile → List ℕ → ℕ → M (Fat D H) (ℤ × Option FatFile)
    write_file none buffer size = pure (fail, none)
    write_file (some file) buffer size = do
      (count, _, file') ← fat_rw (some file) buffer size fat_write
      elim count [
        | negsuc k ↦ pure (fail, file')
        | pos n ↦ elim file' [
          | none ↦ pure (fail, none)
          | some f ↦
              if ltb f.entry.file_size ((file.current_pos + n) % w32)
              then (do
                (r, f') ← set_file_size vol env f (pos (file.current_pos + n))
                pure (r, some f'))
              else pure (success, some f)
        ]
      ]

    -- `mode & VFS_MODE_TRUNCATE == VFS_MODE_TRUNCATE` is `mode & 1`, and the test of what
    -- fat_file2entry gives back takes SUCCESS for NULL.
    unfoldable pub open_file : List ℕ → ℕ → M (Fat D H) Opened
    open_file filename mode = do
      missing ← is_null
      if missing then pure minus_one else (do
        (found, _) ← file2entry vol env filename
        elim found [
          | some l ↦ pure null
          | none ↦
              if mode % 2 == 1
              then (do
                (r, file) ←
                    set_file_size vol env (record env.uninit_file { current_pos = 0 }) (pos 0)
                pure (if is_fail r then null else opened file))
              else pure (opened (record env.uninit_file { current_pos = 0 }))
        ])

abbrev pub seek_start : ℕ
seek_start = 0

abbrev pub seek_current : ℕ
seek_current = 1

abbrev pub seek_end : ℕ
seek_end = 2

-- The new position as a word, or none for another origin.
unfoldable pub target : FatFile → ℕ → ℕ → Option ℕ
target file offset origin =
    if origin == seek_start
    then some (offset % w32)
    else (if origin == seek_current
        then some ((file.current_pos + offset) % w32)
        else (if origin == seek_end then some (sub32 file.entry.file_size offset) else none))

-- The position or FAIL, and the file.
unfoldable pub seek_file : Option FatFile → ℕ → ℕ → ℤ × Option FatFile
seek_file none offset origin = (fail, none)
seek_file (some file) offset origin = elim (target file offset origin) [
  | none ↦ (fail, some file)
  | some p ↦
      let reset = ltb file.entry.file_size p || leb (2 ^ 31) p in
      let p' = if reset then file.current_pos else p in
      (pos p', some (record file { current_pos = p' }))
]

unfoldable pub close_file : Option FatFile → ℤ × Option FatFile
close_file none = (fail, none)
close_file (some file) = (success, none)

-- What is not supported: cloning a handle, and control calls.
abbrev pub clone_file : Option FatFile → Option FatFile → ℤ
clone_file handle clone = fail

abbrev pub control_file : Option FatFile → ℕ → ℕ → ℤ
control_file handle request arg = fail
