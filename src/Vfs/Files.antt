-- ===== src/Vfs/Files.antt =====
-- The operations on files of MimicOS/src/kernel/fs/vfs.c, from `vfs_open` to `vfs_list`. A pointer to
-- a handle is an optional handle; `fuel` is that of the search of the mount list. A driver gets the
-- rest of a path as a value: what it writes into the buffer of the path is not seen here.
use system_related_projects.Base.{
  ℕ, Bool, false, Option, none, some, List, [], ◌∷◌, ◌==◌, ltb, if◌then◌else◌, length, drop,
  bit_and,
}
use system_related_projects.Base.Int.{ℤ, fail, is_fail}
use system_related_projects.Base.Result.{done, fault, M, pure, ◌>>=◌, ◌>>◌}
use system_related_projects.Vfs.{
  Str, Handle, MountData, DirlistEntry, MountPoint, Allocator, Vfs, null, vfs_maxfilename, outside,
  allocate, outside_free, load, strcpy,
}
use system_related_projects.Vfs.Mounting.{file2mountpoint}

abbrev pub mode_read : ℕ
mode_read = 1

abbrev pub mode_write : ℕ
mode_write = 2

abbrev pub mode_create : ℕ
mode_create = 4

abbrev pub mode_truncate : ℕ
mode_truncate = 8

abbrev pub mode_append : ℕ
mode_append = 9

abbrev pub seek_end : ℕ
seek_end = 2

-- sizeof(struct VFS_HANDLE): three words of 32 bits
abbrev pub sizeof_handle : ℕ
sizeof_handle = 12

-- (mode & flag) == flag
unfoldable pub has_mode : ℕ → ℕ → Bool
has_mode mode flag = bit_and mode flag == flag

abbrev pub sizeof_pointer : ℕ
sizeof_pointer = 4

unfoldable pub ends_in_slash : Str → Bool
ends_in_slash [] = false
ends_in_slash (c ∷ []) = c == 47
ends_in_slash (c ∷ d ∷ cs) = ends_in_slash (d ∷ cs)

module _ {W : Type 0} where
  unfoldable pub seek : Option Handle → ℕ → ℕ → M (Vfs W) ℤ
  seek none offset origin = pure fail
  seek (some h) offset origin = do
    m ← load h.mount
    elim m.fs.calltable.seek_fn [ none ↦ pure fail | some f ↦ outside (f h offset origin) ]

  -- The handle is given back once a file is open, with its position at the end in append mode.
  unfoldable pub opened : Handle → M (Vfs W) (Option Handle)
  opened h =
      if has_mode h.mode mode_append
      then (do seek (some h) 0 seek_end; pure (some h))
      else pure (some h)

  -- A call of the driver on the rest of a path, where the call table has one.
  unfoldable pub on_path : Option (MountData → Str → M W ℤ) → MountPoint W → Str → M (Vfs W) ℤ
  on_path none m rest = pure fail
  on_path (some f) m rest = outside (f m.info rest)

  unfoldable pub rest_of : MountPoint W → Str → Str
  rest_of m filename = drop (length m.info.mountpoint) filename

  module _ (heap : Allocator W) where
    -- The second chance of `vfs_open`: create the file and try to open it again.
    unfoldable pub create_and_open :
        (MountData → Handle → Str → M W (Bool × Handle))
        → MountPoint W
        → Handle
        → Str
        → M (Vfs W) (Option Handle)
    create_and_open open_fn m h rest =
        if has_mode h.mode mode_create
        then elim m.fs.calltable.create_fn [
          | none ↦ do outside_free heap h.address; pure none
          | some create_fn ↦ do
            r ← outside (create_fn m.info rest)
            if is_fail r then (do outside_free heap h.address; pure none) else (do
              (ok, h') ← outside (open_fn m.info h rest)
              if ok then opened h' else (do outside_free heap h'.address; pure none))
        ]
        else (do outside_free heap h.address; pure none)

    unfoldable pub open_file : ℕ → Str → ℕ → M (Vfs W) (Option Handle)
    open_file fuel filename mode = do
      name ← strcpy vfs_maxfilename filename
      p ← file2mountpoint fuel name
      if p == null then pure none else (do
        m ← load p
        elim m.fs.calltable.open_fn [
          | none ↦ pure none
          | some open_fn ↦ do
            a ← allocate heap sizeof_handle
            w ← (λ s. done (heap.fresh_word s.world) s)
            if a == null then (λ _. fault) else (do
              let h : Handle = record { address = a; mount = p; data_ptr = w; mode = mode }
              (ok, h') ← outside (open_fn m.info h (rest_of m name))
              if ok then opened h' else create_and_open open_fn m h' (rest_of m name))
        ])

    unfoldable pub close : Option Handle → M (Vfs W) ℤ
    close none = pure fail
    close (some h) = do
      m ← load h.mount
      elim m.fs.calltable.close_fn [
        | none ↦ pure fail
        | some f ↦ do r ← outside (f h); outside_free heap h.address; pure r
      ]

    unfoldable pub clone : Option Handle → M (Vfs W) (Option Handle)
    clone none = pure none
    clone (some h) = do
      m ← load h.mount
      elim m.fs.calltable.clone_fn [
        | none ↦ pure none
        | some f ↦ do
          a ← allocate heap sizeof_handle
          w ← (λ s. done (heap.fresh_word s.world) s)
          if a == null then (λ _. fault) else (do
            let c : Handle = record { address = a; mount = h.mount; data_ptr = w; mode = h.mode }
            (r, c') ← outside (f h c)
            if is_fail r then (do outside_free heap c'.address; pure none) else pure (some c'))
      ]

  -- The result, and the bytes that are read.
  unfoldable pub read : Option Handle → ℕ → M (Vfs W) (ℤ × List ℕ)
  read none size = pure (fail, [])
  read (some h) size =
      if has_mode h.mode mode_read
      then (do
        m ← load h.mount
        elim m.fs.calltable.read_fn [ none ↦ pure (fail, []) | some f ↦ outside (f h size) ])
      else pure (fail, [])

  unfoldable pub write_with : Option (Handle → List ℕ → M W ℤ) → Handle → List ℕ → M (Vfs W) ℤ
  write_with none h buffer = pure fail
  write_with (some f) h buffer = do
    r ← outside (f h buffer)
    if is_fail r
        then pure fail
        else (if has_mode h.mode mode_append then (do seek (some h) 0 seek_end; pure r) else pure r)

  unfoldable pub write : Option Handle → List ℕ → M (Vfs W) ℤ
  write none buffer = pure fail
  write (some h) buffer =
      if has_mode h.mode mode_write
      then (do m ← load h.mount; write_with m.fs.calltable.write_fn h buffer)
      else pure fail

  -- The driver's answer is dropped.
  unfoldable pub control : Option Handle → ℕ → ℕ → M (Vfs W) ℤ
  control none request arg = pure fail
  control (some h) request arg = do
    m ← load h.mount
    elim m.fs.calltable.control_fn [
      | none ↦ pure fail
      | some f ↦ do r ← outside (f h request arg); pure fail
    ]

  unfoldable pub create : ℕ → Str → M (Vfs W) ℤ
  create fuel filename = do
    name ← strcpy vfs_maxfilename filename
    p ← file2mountpoint fuel name
    if p == null
        then pure fail
        else (do m ← load p; on_path m.fs.calltable.create_fn m (rest_of m name))

  unfoldable pub delete : ℕ → Str → M (Vfs W) ℤ
  delete fuel filename = do
    name ← strcpy vfs_maxfilename filename
    p ← file2mountpoint fuel name
    if p == null
        then pure fail
        else (do m ← load p; on_path m.fs.calltable.delete_fn m (rest_of m name))

  -- `dst_ptr + strlen(mountpoint)` may lie behind the end of the text in its buffer. What stands
  -- there is not known, so such a name is a fault.
  unfoldable pub skip : ℕ → Str → M (Vfs W) Str
  skip n text = if ltb (length text) n then (λ _. fault) else pure (drop n text)

  unfoldable pub rename : ℕ → Str → Str → M (Vfs W) ℤ
  rename fuel src dst = do
    src_name ← strcpy vfs_maxfilename src
    dst_name ← strcpy vfs_maxfilename dst
    p ← file2mountpoint fuel src_name
    if p == null then pure fail else (do
      m ← load p
      to ← skip (length m.info.mountpoint) dst_name
      elim m.fs.calltable.rename_fn [
        | none ↦ pure fail
        | some f ↦ outside (f m.info (rest_of m src_name) to)
      ])

  -- `vfs_copy` copies each name over its own four-byte argument, not into the buffer.
  unfoldable pub copy : ℕ → Str → Str → M (Vfs W) ℤ
  copy fuel src dst = do
    src_name ← strcpy sizeof_pointer src
    dst_name ← strcpy sizeof_pointer dst
    p ← file2mountpoint fuel src_name
    if p == null then pure fail else (do
      m ← load p
      to ← skip (length m.info.mountpoint) dst_name
      elim m.fs.calltable.copy_fn [
        | none ↦ pure fail
        | some f ↦ outside (f m.info (rest_of m src_name) to)
      ])

  -- The test reads `dir[strlen(dir) - 1]`: before the text where that is empty.
  unfoldable pub list_dir : ℕ → Str → M (Vfs W) (Option (List DirlistEntry))
  list_dir fuel [] = λ _. fault
  list_dir fuel (c ∷ cs) = do
    name ← strcpy vfs_maxfilename (c ∷ cs)
    if ends_in_slash name
        then (do
          p ← file2mountpoint fuel name
          if p == null then pure none else (do
            m ← load p
            elim m.fs.calltable.list_fn [
              | none ↦ pure none
              | some f ↦ outside (f m.info (rest_of m name))
            ]))
        else pure none
