-- ===== src/Simdisk/Files.antt =====
-- `my_open`, `my_creat` and `my_close` of kernal/file_system/file.c. A variable that is read before
-- it is set is a fault.
use system_related_projects.Base.{
  ℕ, zero, suc, ◌+◌, ◌-◌, ◌*◌, Bool, true, false, not, ◌&&◌, ◌||◌, Option, none, some, List, [],
  ◌∷◌, ◌++◌, ◌==◌, ltb, leb, if◌then◌else◌, set, take, drop, length,
}
use system_related_projects.Base.Int.{ℤ, pos, negsuc}
use system_related_projects.Base.Result.{done, fault, M, pure, ◌>>=◌, ◌>>◌, within}
use system_related_projects.Vfs.{Str}
use system_related_projects.Vfs.Mounting.{eq_int}
use system_related_projects.Simdisk.{
  Sys, Disk, minus_one, is_zero, read_block, write_block, read_inode, write_inode, get_block,
  get_inode,
}
use system_related_projects.Simdisk.Layout.{
  max_file_name_length, max_level, max_open_files, file_type, entries_per_dir, inode_type,
  inode_num, inode_file_size, inode_mode, inode_name, inode_blocks, inode_ind_blocks, overwrite,
  put_int, int_at, block_of, entry_inode, entry_type, entry_name,
}
use system_related_projects.Simdisk.Finding.{Session, on_disk, Junk, slash, same_text, find}
use system_related_projects.Simdisk.Making.{fill_ints, put_entry}

-- The first place of `fd` from `i` on that holds -1 or 0.
unfoldable pub free_slot : List ℤ → ℕ → Option ℕ
free_slot [] i = none
free_slot (x ∷ xs) i = if eq_int x minus_one || is_zero x then some i else free_slot xs (i + 1)

-- The last slash of a path.
unfoldable pub last_slash : Str → ℕ → Option ℕ → Option ℕ
last_slash [] i div = div
last_slash (c ∷ cs) i div = last_slash cs (i + 1) (if c == slash then some i else div)

-- The two names that a path is cut into; `div` is not set where there is no slash.
unfoldable pub cut_path : {S : Type 0} → Str → M S (Str × Str)
cut_path path s = elim (last_slash path 0 none) [
  | none ↦ fault
  | some div ↦
      if leb (div + 1) (max_file_name_length * max_level)
        && ltb (length path - div - 1) max_file_name_length
      then done (take div path, drop (div + 1) path) s
      else fault
]

-- What a new file's inode is filled with. The name is copied without its closing 0.
abbrev pub file_mode : List ℕ
file_mode = 114 ∷ 119 ∷ 45 ∷ 114 ∷ 119 ∷ 45 ∷ 114 ∷ 45 ∷ 45 ∷ 0 ∷ []

unfoldable pub new_file : ℤ → Str → ℤ → List ℕ → List ℕ
new_file inum name block r =
    let r1 = put_int r inode_type file_type in
    let r2 = put_int r1 inode_num inum in
    let r3 = overwrite r2 inode_mode file_mode in
    let r4 = put_int r3 inode_file_size (pos 0) in
    let r5 = overwrite r4 inode_name name in
    let r6 = put_int r5 inode_blocks block in
    let r7 = fill_ints 9 (inode_blocks + 4) minus_one r6 in
    fill_ints 30 inode_ind_blocks minus_one r7

-- Is there a file of that name among the `n` entries from entry `j` on?
unfoldable pub has_file : {S : Type 0} → ℕ → ℕ → List ℕ → Str → M S Bool
has_file zero j direc name = pure false
has_file (suc n) j direc name = do
  same ←
      if not (is_zero (entry_inode direc j)) && eq_int (entry_type direc j) file_type
      then same_text (entry_name direc j) (name ++ 0 ∷ [])
      else pure false
  if same then pure true else has_file n (j + 1) direc name

-- The first of the `n` entries from entry `j` on that is not in use.
unfoldable pub free_entry : ℕ → ℕ → List ℕ → Option ℕ
free_entry zero j direc = none
free_entry (suc n) j direc =
    if is_zero (entry_inode direc j) then some j else free_entry n (j + 1) direc

-- A place for an entry: the block of the directory, its buffer and the place in it.
pub record Place : Type 0 where
  pub block : ℤ
  pub direc : List ℕ
  pub index : ℕ

module _ {F : Type 0} where
  -- The loop over `fd`.
  unfoldable pub take_fd : ℤ → M (Session F) ℤ
  take_fd inum s = elim (free_slot s.fd 0) [
    | none ↦ done minus_one s
    | some i ↦ done (pos i) (record s { fd = set s.fd i inum })
  ]

  -- fd[fdd] = -1; the function gives no value back.
  unfoldable pub my_close : ℤ → M (Session F) (Unit {0})
  my_close (negsuc n) s = fault
  my_close (pos i) s =
      if ltb i max_open_files then done tt (record s { fd = set s.fd i minus_one }) else fault

module _ {F : Type 0} (sys : Sys F) where
  -- The first loop over the blocks of the directory `cur`, `n` blocks from block `i` on.
  unfoldable pub exists_in : ℕ → ℕ → List ℕ → Str → List ℕ → M (Disk F) (Bool × List ℕ)
  exists_in zero i cur name direc = pure (false, direc)
  exists_in (suc n) i cur name direc =
      let skipped = exists_in n (i + 1) cur name direc in
      if eq_int (block_of cur i) minus_one then skipped else (do
        (_, direc') ← read_block sys (block_of cur i) direc
        found ← has_file entries_per_dir 0 direc' name
        if found then pure (true, direc') else exists_in n (i + 1) cur name direc')

  -- The second loop. `empty_dentry` is not set where all ten blocks are full.
  unfoldable pub find_place : ℕ → ℕ → List ℕ → List ℕ → List ℕ → M (Disk F) Place
  find_place zero i cur direc bits = λ _. fault
  find_place (suc n) i cur direc bits =
      if eq_int (block_of cur i) minus_one
      then (do
        b ← get_block sys bits
        (_, direc') ← read_block sys b direc
        pure (record { block = b; direc = direc'; index = 0 }))
      else (do
        (_, direc') ← read_block sys (block_of cur i) direc
        elim (free_entry entries_per_dir 0 direc') [
          | some j ↦ pure (record { block = block_of cur i; direc = direc'; index = j })
          | none ↦ find_place n (i + 1) cur direc' bits
        ])

  -- The entry and the inode of a new file: its number, or -1.
  unfoldable pub add_file : Junk → List ℕ → Str → List ℕ → M (Disk F) ℤ
  add_file junk cur name direc = do
    p ← find_place 10 0 cur direc junk.bits
    inum ← get_inode sys junk.bits
    if eq_int inum minus_one then pure minus_one else (do
      write_block sys p.block (put_entry p.index inum file_type (pos 32) name p.direc)
      (_, r) ← read_inode sys inum junk.inode
      b ← get_block sys junk.bits
      write_inode sys inum (new_file inum name b r)
      pure inum)

  unfoldable pub my_open : Junk → Str → M (Session F) ℤ
  my_open junk path = do
    this ← find sys junk path
    elim this [ none ↦ pure minus_one | some inode ↦ take_fd (int_at inode inode_num) ]

  unfoldable pub my_creat : Junk → Str → M (Session F) ℤ
  my_creat junk path = do
    (dir_name, file_name) ← cut_path path
    found ← find sys junk dir_name
    elim found [
      | none ↦ pure minus_one
      | some cur ↦ if eq_int (int_at cur inode_type) file_type then pure minus_one else (do
        (exists, direc) ← within on_disk (exists_in 10 0 cur file_name junk.dir)
        if exists then pure minus_one else (do
          inum ← within on_disk (add_file junk cur file_name direc)
          if eq_int inum minus_one then pure minus_one else take_fd inum))
    ]
