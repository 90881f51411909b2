-- ===== src/Simdisk/Rereading.antt =====
-- What find and my_mkfs read on a disk that my_mkfs has written.
use system_related_projects.Base.{
  ℕ, ◌^◌, ◌+◌, ◌-◌, ◌/◌, ◌≤◌, ◌<◌, ◌≡◌, refl, ap, ◌∙◌, List, [], ◌∷◌, length, arith, true, false,
  replicate, Option, some, inl,
}
use system_related_projects.Base.Int.{pos}
use system_related_projects.Base.Result.{Returns, returns, Returns-bind, Returns-mono, ◌>>◌}
use system_related_projects.Vfs.{Str}
use system_related_projects.Vfs.Mounting.{str_eq}
use system_related_projects.Simdisk.{
  Sys, at_least, is_negative, minus_one, is_count, blocksize, inode_size, block_table_start,
  read_block,
}
use system_related_projects.Simdisk.Layout.{
  dir_type, max_open_files, inode_type, inode_num, int_at, block_of,
}
use system_related_projects.Simdisk.Finding.{Session, Junk, slash, find}
use system_related_projects.Simdisk.Making.{magic, super_block, root_inode, my_mkfs}
use system_related_projects.Simdisk.Content.{
  int_in, int_at-read, int_in-written_in, int_in-written_out,
}
use system_related_projects.Simdisk.Device.{Keeps}
use system_related_projects.Simdisk.Blocks.{Ready, read_block-Ready, read_inode-Ready}
use system_related_projects.Simdisk.RootInode.{root_inode_fields, super_block_magic}
use system_related_projects.Simdisk.Formatting.{formatted, IsJunk, initialise_lem}

abbrev pub zeros : List ℕ
zeros = replicate blocksize 0

-- `tmp` before anything is read into it is no super block.
no_magic : is_count (int_at zeros 0) magic ≡ false
unfolding int_at
no_magic = refl

-- The int of the super block, and those of the root's inode, on the formatted disk.
int_in-formatted_magic :
    (junk : Junk) (tmp : List ℕ) (k : ℕ) (c : ℕ → ℕ) → int_in (formatted junk tmp k c) 0 ≡ pos magic
unfolding formatted
int_in-formatted_magic junk tmp k c =
    int_in-written_out _ 2576384 1024 _ 0 (inl (omega arith))
    ∙ int_in-written_out _ 16640 256 _ 0 (inl (omega arith))
    ∙ int_in-written_out _ 14336 1024 _ 0 (inl (omega arith))
    ∙ int_in-written_out _ 1024 1024 _ 0 (inl (omega arith))
    ∙ int_in-written_in c 0 1024 (super_block (pos k)) 0 (omega arith) (omega arith)
    ∙ super_block_magic (pos k)

int_in-formatted_root :
    (junk : Junk) (tmp : List ℕ) (k : ℕ) (c : ℕ → ℕ) (q : ℕ)
    → q + 4 ≤ inode_size
    → int_in (formatted junk tmp k c) (16640 + q) ≡ int_at (root_inode junk.inode) q
unfolding formatted
int_in-formatted_root junk tmp k c q inside =
    let e : 16640 + q - 16640 ≡ q = omega arith in
    int_in-written_out _ 2576384 1024 _ (16640 + q) (inl (omega arith))
    ∙ int_in-written_in _ 16640 256 (root_inode junk.inode) (16640 + q) (omega arith) (omega arith)
    ∙ ap (int_at (root_inode junk.inode)) e

-- The inode of the root directory: its type, its number and its first block.
pub record IsRoot (b : List ℕ) : Type 0 where
  pub type : int_at b inode_type ≡ dir_type
  pub num : int_at b inode_num ≡ pos 1
  pub first_block : block_of b 0 ≡ pos block_table_start

module _ {F : Type 0} (sys : Sys F) (content : F → ℕ → ℕ) (place size : F → ℕ)
    (file : Keeps sys content place size) (junk : Junk) (sized : IsJunk junk) (path : Str)
    (s : Session F) (closed : is_negative s.disk.f ≡ true) (unread : s.disk.devsize ≡ pos 0)
    (enough : block_table_start < size s.disk.files / blocksize)
    (int : size s.disk.files / blocksize < 2 ^ 31) where
  abbrev Made : ℕ → Session F → Type 0
  Made k s' =
      Ready sys content place size file k (formatted junk zeros k (content s.disk.files))
        (replicate max_open_files minus_one) s.cwd_inode s'

  my_mkfs_lem : Returns (λ _ s'. Made (size s.disk.files / blocksize) s') (my_mkfs sys junk path s)
  unfolding my_mkfs read_block
  my_mkfs_lem =
      let past : at_least (pos 0) s.disk.devsize ≡ true = rw unread refl in
      rw (past, no_magic)
        (initialise_lem sys content place size file junk sized path s closed enough int zeros refl)

  module _ (junk' : Junk) (sized' : IsJunk junk') where
    find_root_lem :
        {k : ℕ} (s' : Session F)
        → block_table_start < k
        → Made k s'
        → Returns
            (λ (root : Option (List ℕ)) t. ((b : List ℕ) × (root ≡ some b) × IsRoot b) × Made k t)
            (find sys junk' (slash ∷ []) s')
    unfolding find str_eq
    find_root_lem {k} s' more r =
        let c = formatted junk zeros k (content s.disk.files) in
        let fields = root_inode_fields junk.inode sized.inode_sized in
        let room : 256 ≤ length junk'.inode = omega (arith, sized'.inode_sized) in
        let stored = λ (q : ℕ) (inside : q + 4 ≤ 256).
          int_at-read junk'.inode c 16640 256 q inside room
          ∙ int_in-formatted_root junk zeros k (content s.disk.files) q inside in
        Returns-bind
          (read_inode-Ready sys content place size file more 1 junk'.inode s' r (omega arith)
            (omega arith) room)
          λ x t p. returns (
            (
              x.1,
              refl,
              rw p.0 (record {
                type = stored 0 (omega arith) ∙ fields.0;
                num = stored 4 (omega arith) ∙ fields.1;
                first_block = stored 84 (omega arith) ∙ fields.2;
              }),
            ),
            p.1,
          )

    again_lem :
        {k : ℕ} (s' : Session F) (path' : Str)
        → block_table_start < k
        → Made k s'
        → Returns (λ _ t. Made k t) (my_mkfs sys junk' path' s')
    unfolding my_mkfs
    again_lem {k} s' path' more r =
        let found =
          int_at-read zeros (formatted junk zeros k (content s.disk.files)) 0 1024 0 (omega arith)
            (omega arith)
          ∙ int_in-formatted_magic junk zeros k (content s.disk.files) in
        Returns-bind
          (read_block-Ready sys content place size file more 0 zeros s' r (omega arith)
            (omega arith))
          λ x t p. rw (p.0, found) (returns p.1)

    -- my_mkfs and then find of "/" give the inode of the root directory, a directory with number 1
    -- and first block 2516, and no file is open. The conditions are that the disk is not open yet and
    -- its file has more than 2516 and fewer than 2 ^ 31 blocks, that the system calls read and write that file, and that
    -- the memory has the sizes that are asked for.
    pub my_mkfs-find :
        Returns
          (λ (root : Option (List ℕ)) t.
            ((b : List ℕ) × (root ≡ some b) × IsRoot b)
            × (t.fd ≡ replicate max_open_files minus_one))
          ((do my_mkfs sys junk path; find sys junk' (slash ∷ [])) s)
    my_mkfs-find =
        Returns-bind my_mkfs_lem
          λ _ t made. Returns-mono (find_root_lem t enough made) λ root u p. (p.0, p.1.fds_are)

    -- Two calls of my_mkfs leave the disk as one lays it out, whatever its bytes were before: the
    -- first makes a new file system also where there was one, since it looks for one before the disk
    -- is open, and the second changes nothing. The conditions are that the disk is not open yet and
    -- its file has more than 2516 and fewer than 2 ^ 31 blocks, that the system calls read and write that file, and that
    -- the memory has the sizes that are asked for.
    pub my_mkfs-my_mkfs :
        (path' : Str)
        → Returns
            (λ _ t.
              content t.disk.files
              ≡ formatted junk zeros (size s.disk.files / blocksize) (content s.disk.files))
            ((do my_mkfs sys junk path; my_mkfs sys junk' path') s)
    my_mkfs-my_mkfs path' =
        Returns-bind my_mkfs_lem
          λ _ t made. Returns-mono (again_lem t path' enough made) λ _ u p. p.bytes
