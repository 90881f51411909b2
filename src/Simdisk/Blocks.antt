-- ===== src/Simdisk/Blocks.antt =====
-- Blocks and inodes of a session whose disk is open.
use system_related_projects.Base.{
  ℕ, ◌+◌, ◌*◌, ◌/◌, ◌≤◌, ◌<◌, ◌≡◌, ◌≢◌, ◌∙◌, List, length, arith, false,
}
use system_related_projects.Base.Int.{ℤ, pos}
use system_related_projects.Base.Result.{Result, put_back, Returns, returns, within}
use system_related_projects.Simdisk.{
  Sys, Disk, is_negative, blocksize, inode_size, block_table_start, read_block, write_block,
  read_inode, write_inode,
}
use system_related_projects.Simdisk.Layout.{overwrite}
use system_related_projects.Simdisk.Finding.{Session, on_disk}
use system_related_projects.Simdisk.Content.{written, bytes_of}
use system_related_projects.Simdisk.Device.{
  Keeps, Holds, read_block_lem, write_block_lem, read_inode_lem, write_inode_lem,
}

pub Returns-within :
    {F A : Type 0} {P : A → Disk F → Type 0} {Q : A → Session F → Type 0} {r : Result (Disk F) A}
    (s : Session F)
    → Returns P r
    → ((a : A) (d : Disk F) → P a d → Q a (record s { disk = d }))
    → Returns Q (put_back on_disk s r)
Returns-within s (returns p) weaken = returns (weaken _ _ p)

module _ {F : Type 0} (sys : Sys F) (content : F → ℕ → ℕ) (place size : F → ℕ)
    (file : Keeps sys content place size) where
  -- The disk is open, has `k` blocks and holds the bytes `c`.
  pub record Ready (k : ℕ) (c : ℕ → ℕ) (fds : List ℤ) (cwd : ℤ) (s : Session F) : Type 0 where
    pub open_file : is_negative s.disk.f ≡ false
    pub blocks : s.disk.devsize ≡ pos k
    pub sized : size s.disk.files / blocksize ≡ k
    pub bytes : content s.disk.files ≡ c
    pub fds_are : s.fd ≡ fds
    pub cwd_is : s.cwd_inode ≡ cwd

  module _ {k : ℕ} (enough : block_table_start < k) {c : ℕ → ℕ} {fds : List ℤ} {cwd : ℤ} where
    Ready-of_Holds :
        {s : Session F} {c' : ℕ → ℕ}
        → Ready k c fds cwd s
        → (d : Disk F) → Holds sys content place size file s.disk c' d
        → Ready k c' fds cwd (record s { disk = d })
    Ready-of_Holds r d h = record {
      open_file = rw h.handle r.open_file;
      blocks = h.blocks ∙ r.blocks;
      sized = rw h.sized r.sized;
      bytes = h.bytes;
      fds_are = r.fds_are;
      cwd_is = r.cwd_is;
    }

    pub write_block-Ready :
        (i : ℕ) (b : List ℕ) (s : Session F)
        → Ready k c fds cwd s
        → i ≤ block_table_start
        → blocksize ≤ length b
        → Returns
            (λ r s'. Ready k (written c (i * blocksize) blocksize b) fds cwd s')
            (within on_disk (write_block sys (pos i) b) s)
    write_block-Ready i b s r small room =
        let fits = r.sized in
        let last = r.blocks in
        Returns-within s
          (write_block_lem sys content place size file i b s.disk last (omega arith) (omega arith)
            (omega arith) room)
          (λ a d h. Ready-of_Holds r d (rw r.bytes at (h.1)))

    pub read_block-Ready :
        (i : ℕ) (b : List ℕ) (s : Session F)
        → Ready k c fds cwd s
        → i ≤ block_table_start
        → blocksize ≤ length b
        → Returns
            (λ (x : ℤ × List ℕ) s'.
              (x ≡ (pos 0, overwrite b 0 (bytes_of c (i * blocksize) blocksize)))
              × Ready k c fds cwd s')
            (within on_disk (read_block sys (pos i) b) s)
    read_block-Ready i b s r small room =
        let fits = r.sized in
        let last = r.blocks in
        Returns-within s
          (read_block_lem sys content place size file i b s.disk last (omega arith) (omega arith)
            (omega arith) room)
          (λ a d h. (rw r.bytes at (h.0), Ready-of_Holds r d (rw r.bytes at (h.1))))

    pub write_inode-Ready :
        (n : ℕ) (b : List ℕ) (s : Session F)
        → Ready k c fds cwd s
        → n ≢ 0
        → n < 2000
        → inode_size ≤ length b
        → Returns
            (λ r s'. Ready k (written c (16384 + n * inode_size) inode_size b) fds cwd s')
            (within on_disk (write_inode sys (pos n) b) s)
    write_inode-Ready n b s r ne small room =
        let fits = r.sized in
        let last = r.blocks in
        Returns-within s
          (write_inode_lem sys content place size file n b s.disk ne last (omega arith)
            (omega arith) (omega arith) room)
          (λ a d h. Ready-of_Holds r d (rw r.bytes at (h.1)))

    pub read_inode-Ready :
        (n : ℕ) (b : List ℕ) (s : Session F)
        → Ready k c fds cwd s
        → n ≢ 0
        → n < 2000
        → inode_size ≤ length b
        → Returns
            (λ (x : ℤ × List ℕ) s'.
              (x ≡ (pos 0, overwrite b 0 (bytes_of c (16384 + n * inode_size) inode_size)))
              × Ready k c fds cwd s')
            (within on_disk (read_inode sys (pos n) b) s)
    read_inode-Ready n b s r ne small room =
        let fits = r.sized in
        Returns-within s
          (read_inode_lem sys content place size file n b s.disk ne (omega arith) (omega arith)
            room)
          (λ a d h. (rw r.bytes at (h.0), Ready-of_Holds r d (rw r.bytes at (h.1))))
