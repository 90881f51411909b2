-- ===== src/Simdisk/Formatting.antt =====
-- What my_mkfs writes.
use system_related_projects.Base.{
  ℕ, ◌^◌, ◌*◌, ◌/◌, ◌≤◌, ◌<◌, ◌≡◌, refl, List, length, arith, true, set, replicate, length-set,
}
use system_related_projects.Base.Int.{ℤ, pos}
use system_related_projects.Base.Result.{Returns, returns, Returns-bind, within}
use system_related_projects.Vfs.{Str}
use system_related_projects.Simdisk.{
  Sys, is_negative, minus_one, blocksize, block_table_start, write_block,
}
use system_related_projects.Simdisk.Layout.{max_open_files, sizeof_inode, sizeof_dir}
use system_related_projects.Simdisk.Finding.{Session, on_disk, Junk}
use system_related_projects.Simdisk.Making.{super_block, root_inode, root_block, initialise}
use system_related_projects.Simdisk.Content.{written}
use system_related_projects.Simdisk.Device.{Keeps, dev_open_lem}
use system_related_projects.Simdisk.Blocks.{
  Ready, Returns-within, write_block-Ready, write_inode-Ready,
}
use system_related_projects.Simdisk.RootInode.{
  length-super_block, length-root_inode, length-root_block,
}

-- The bytes of a disk of `k` blocks behind my_mkfs, which has read `tmp` in block 0.
unfoldable pub formatted : Junk → List ℕ → ℕ → (ℕ → ℕ) → ℕ → ℕ
formatted junk tmp k c =
    let c1 = written c 0 1024 (super_block (pos k)) in
    let c2 = written c1 1024 1024 (set tmp 0 0x80) in
    let c3 = written c2 14336 1024 (set tmp 0 0xc0) in
    let c4 = written c3 16640 256 (root_inode junk.inode) in
    written c4 2576384 1024 (root_block junk.dir)

-- Memory of the right sizes.
pub record IsJunk (junk : Junk) : Type 0 where
  pub inode_sized : length junk.inode ≡ sizeof_inode
  pub dir_sized : length junk.dir ≡ sizeof_dir

module _ {F : Type 0} (sys : Sys F) (content : F → ℕ → ℕ) (place size : F → ℕ)
    (file : Keeps sys content place size) (junk : Junk) (sized : IsJunk junk) (path : Str) where
  abbrev IsReady : ℕ → (ℕ → ℕ) → List ℤ → ℤ → Session F → Type 0
  IsReady k c fds cwd s = Ready sys content place size file k c fds cwd s

  abbrev closed_fds : List ℤ
  closed_fds = replicate max_open_files minus_one

  module _ (s : Session F) (closed : is_negative s.disk.f ≡ true)
      (enough : block_table_start < size s.disk.files / blocksize)
      (int : size s.disk.files / blocksize < 2 ^ 31) where
    abbrev k : ℕ
    k = size s.disk.files / blocksize

    wrote :
        {c : ℕ → ℕ} {fds : List ℤ} (i : ℕ) (b : List ℕ) (t : Session F)
        → IsReady k c fds s.cwd_inode t
        → i ≤ block_table_start
        → blocksize ≤ length b
        → Returns
            (λ r t'. IsReady k (written c (i * blocksize) blocksize b) fds s.cwd_inode t')
            (within on_disk (write_block sys (pos i) b) t)
    wrote = write_block-Ready sys content place size file enough

    abbrev cleared : Session F → Session F
    cleared t = record t { fd = closed_fds }

    clear_fds-IsReady :
        {c : ℕ → ℕ} {fds : List ℤ} {t : Session F}
        → IsReady k c fds s.cwd_inode t
        → IsReady k c closed_fds s.cwd_inode (cleared t)
    clear_fds-IsReady r = record {
      open_file = r.open_file;
      blocks = r.blocks;
      sized = r.sized;
      bytes = r.bytes;
      fds_are = refl;
      cwd_is = r.cwd_is;
    }

    pub initialise_lem :
        (tmp : List ℕ)
        → length tmp ≡ blocksize
        → Returns
            (λ _ s'.
              IsReady k (formatted junk tmp k (content s.disk.files)) closed_fds s.cwd_inode s')
            (initialise sys junk tmp path s)
    unfolding initialise formatted
    initialise_lem tmp whole =
        Returns-bind
          {P = λ n s1. (n ≡ pos k) × IsReady k (content s.disk.files) s.fd s.cwd_inode s1}
          (Returns-within s (dev_open_lem sys content place size file path s.disk closed int)
            (λ a d h. (
              h.0,
              record {
                open_file = h.1;
                blocks = h.2;
                sized = rw h.3;
                bytes = h.4;
                fds_are = refl;
                cwd_is = refl;
              },
            )))
          λ n s1 r1. rw r1.0 (
            Returns-bind
              (wrote 0 (super_block (pos k)) s1 r1.1 (omega arith)
                (omega (arith, length-super_block (pos k))))
              λ _ s2 r2.
                Returns-bind
                  (wrote 1 (set tmp 0 0x80) (cleared s2) (clear_fds-IsReady r2) (omega arith)
                    (omega (arith, whole, length-set tmp 0 0x80)))
                  λ _ s3 r3.
                    Returns-bind
                      (wrote 14 (set tmp 0 0xc0) s3 r3 (omega arith)
                        (omega (arith, whole, length-set tmp 0 0xc0)))
                      λ _ s4 r4.
                        Returns-bind
                          (write_inode-Ready sys content place size file enough 1
                            (root_inode junk.inode) s4 r4 (omega arith) (omega arith)
                            (omega (arith, sized.inode_sized, length-root_inode junk.inode)))
                          λ _ s5 r5.
                            Returns-bind
                              (wrote block_table_start (root_block junk.dir) s5 r5 (omega arith)
                                (omega (arith, sized.dir_sized, length-root_block junk.dir)))
                              λ _ s6 r6. returns r6)
