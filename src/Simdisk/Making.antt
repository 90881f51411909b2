-- ===== src/Simdisk/Making.antt =====
-- `my_mkfs` of kernal/file_system/simdisk.c. calloc and malloc are taken to find memory.
use system_related_projects.Base.{
  ℕ, zero, suc, ◌+◌, ◌*◌, List, [], ◌∷◌, set, replicate, if◌then◌else◌,
}
use system_related_projects.Base.Int.{ℤ, pos}
use system_related_projects.Base.Result.{done, M, pure, ◌>>=◌, ◌>>◌, within}
use system_related_projects.Vfs.{Str}
use system_related_projects.Simdisk.{
  Sys, minus_one, is_count, blocksize, max_file_num, block_map_start, inode_map_start,
  block_table_start, dev_open, read_block, write_block, write_inode,
}
use system_related_projects.Simdisk.Layout.{
  dir_type, max_open_files, sizeof_dentry, inode_type, inode_num, inode_file_size, inode_uid,
  inode_gid, inode_mode, inode_name, inode_blocks, inode_ind_blocks, dentry_inode, dentry_type,
  dentry_length, dentry_name, overwrite, put_int, int_at,
}
use system_related_projects.Simdisk.Finding.{Session, on_disk, Junk}

abbrev pub magic : ℕ
magic = 2018

-- The super block, in a block of zeros.
unfoldable pub super_block : ℤ → List ℕ
super_block block_num =
    let b0 = put_int (replicate blocksize 0) 0 (pos magic) in
    let b1 = put_int b0 4 block_num in
    let b2 = put_int b1 8 (pos max_file_num) in
    let b3 = put_int b2 12 (pos 99883) in put_int b3 16 (pos 2499)

-- The same int at `n` places from `at` on.
unfoldable pub fill_ints : ℕ → ℕ → ℤ → List ℕ → List ℕ
fill_ints zero at i b = b
fill_ints (suc n) at i b = fill_ints n (at + 4) i (put_int b at i)

-- "rwxr-xr-x" with its closing 0
abbrev pub root_mode : List ℕ
root_mode = 114 ∷ 119 ∷ 120 ∷ 114 ∷ 45 ∷ 120 ∷ 114 ∷ 45 ∷ 120 ∷ 0 ∷ []

unfoldable pub root_inode : List ℕ → List ℕ
root_inode r =
    let r0 = put_int r inode_type dir_type in
    let r1 = put_int r0 inode_num (pos 1) in
    let r2 = put_int r1 inode_file_size (pos 1) in
    let r3 = put_int r2 inode_uid (pos 0) in
    let r4 = put_int r3 inode_gid (pos 0) in
    let r5 = overwrite r4 inode_mode root_mode in
    let r6 = overwrite r5 inode_name (47 ∷ 0 ∷ []) in
    let r7 = put_int r6 inode_blocks (pos block_table_start) in
    let r8 = fill_ints 9 (inode_blocks + 4) minus_one r7 in
    fill_ints 30 inode_ind_blocks minus_one r8

-- dentry[k], with the bytes of its name
unfoldable pub put_entry : ℕ → ℤ → ℤ → ℤ → List ℕ → List ℕ → List ℕ
put_entry k inode type length name b =
    let at = k * sizeof_dentry in
    let b1 = put_int b (at + dentry_inode) inode in
    let b2 = put_int b1 (at + dentry_type) type in
    let b3 = put_int b2 (at + dentry_length) length in overwrite b3 (at + dentry_name) name

unfoldable pub root_block : List ℕ → List ℕ
root_block b =
    put_entry 1 (pos 1) dir_type (pos 32) (46 ∷ 46 ∷ 0 ∷ [])
      (put_entry 0 (pos 1) dir_type (pos 32) (46 ∷ 0 ∷ []) b)

module _ {F : Type 0} (sys : Sys F) where
  -- The variable `fd`.
  abbrev pub clear_fds : M (Session F) (Unit {0})
  clear_fds s = done tt (record s { fd = replicate max_open_files minus_one })

  -- `tmp`, which becomes the first block of both maps, is still what block 0 held.
  unfoldable pub initialise : Junk → List ℕ → Str → M (Session F) (Unit {0})
  initialise junk tmp path = do
    n ← within on_disk (dev_open sys path)
    within on_disk (write_block sys (pos 0) (super_block n))
    clear_fds
    within on_disk (write_block sys (pos block_map_start) (set tmp 0 0x80))
    within on_disk (write_block sys (pos inode_map_start) (set tmp 0 0xc0))
    within on_disk (write_inode sys (pos 1) (root_inode junk.inode))
    within on_disk (write_block sys (pos block_table_start) (root_block junk.dir))
    pure tt

  unfoldable pub my_mkfs : Junk → Str → M (Session F) (Unit {0})
  my_mkfs junk path = do
    (_, tmp) ← within on_disk (read_block sys (pos 0) (replicate blocksize 0))
    if is_count (int_at tmp 0) magic then pure tt else initialise junk tmp path
