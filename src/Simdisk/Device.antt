-- ===== src/Simdisk/Device.antt =====
-- Blocks and inodes on a file that keeps its bytes: block.c over system calls that succeed.
use system_related_projects.Base.{
  ℕ, ◌+◌, ◌*◌, ◌/◌, ◌^◌, ◌≢◌, ◌≤◌, ◌<◌, ◌≡◌, refl, ap, ◌∙◌, List, ltb, leb, length, arith, true,
  false, ==-refl, ==-false,
}
use system_related_projects.Base.Int.{ℤ, pos}
use system_related_projects.Base.Result.{Returns, returns}
use system_related_projects.Vfs.{Str}
use system_related_projects.Simdisk.{
  Sys, Disk, is_negative, max_file_num, stored_int, at_least, open_file, dev_open, blocksize,
  inode_size, read_at, write_at, read_block, write_block, read_inode, write_inode,
}
use system_related_projects.Simdisk.Layout.{overwrite}
use system_related_projects.Simdisk.Content.{written, bytes_of}

-- The system calls on a regular file of `size` bytes, `content`, with the position `place`.
pub record Keeps {F : Type 0} (sys : Sys F) (content : F → ℕ → ℕ) (place size : F → ℕ)
    : Type 0 where
  pub opens :
      (path : Str) (w : F)
      → (k : ℕ) × ((sys.open_fd path w).0 ≡ pos k)
        × (content (sys.open_fd path w).1 ≡ content w)
        × (size (sys.open_fd path w).1 ≡ size w)
  pub fstats :
      (f : ℤ) (w : F)
      → ((sys.fstat f w).0 ≡ pos 0)
        × ((sys.fstat f w).1 ≡ size w)
        × (content (sys.fstat f w).2 ≡ content w)
        × (size (sys.fstat f w).2 ≡ size w)
  pub seeks :
      (f : ℤ) (n : ℕ) (w : F)
      → ((sys.lseek f (pos n) w).0 ≡ pos n)
        × (content (sys.lseek f (pos n) w).1 ≡ content w)
        × (size (sys.lseek f (pos n) w).1 ≡ size w)
        × (place (sys.lseek f (pos n) w).1 ≡ n)
  pub reads :
      (f : ℤ) (b : List ℕ) (n : ℕ) (w : F)
      → place w + n ≤ size w
      → n ≤ length b
      → ((sys.read f b n w).0 ≡ pos n)
        × ((sys.read f b n w).1 ≡ overwrite b 0 (bytes_of (content w) (place w) n))
        × (content (sys.read f b n w).2 ≡ content w)
        × (size (sys.read f b n w).2 ≡ size w)
  pub writes :
      (f : ℤ) (b : List ℕ) (n : ℕ) (w : F)
      → place w + n ≤ size w
      → n ≤ length b
      → ((sys.write f b n w).0 ≡ pos n)
        × (content (sys.write f b n w).1 ≡ written (content w) (place w) n b)
        × (size (sys.write f b n w).1 ≡ size w)
  pub fsyncs :
      (f : ℤ) (w : F) → (content (sys.fsync f w).1 ≡ content w) × (size (sys.fsync f w).1 ≡ size w)

module _ {F : Type 0} (sys : Sys F) (content : F → ℕ → ℕ) (place size : F → ℕ)
    (file : Keeps sys content place size) where
  -- The disk with the bytes `c`, the rest as in `d`.
  pub record Holds (d : Disk F) (c : ℕ → ℕ) (d' : Disk F) : Type 0 where
    pub handle : d'.f ≡ d.f
    pub blocks : d'.devsize ≡ d.devsize
    pub sized : size d'.files ≡ size d.files
    pub bytes : content d'.files ≡ c

  pub read_at_lem :
      (n count : ℕ) (b : List ℕ) (d : Disk F)
      → n + count ≤ size d.files
      → count ≤ length b
      → Returns
          (λ (r : ℤ × List ℕ) d'.
            (r ≡ (pos 0, overwrite b 0 (bytes_of (content d.files) n count)))
            × Holds d (content d.files) d')
          (read_at sys (pos n) count b d)
  unfolding read_at
  read_at_lem n count b d within room =
      let sought = file.seeks d.f n d.files in
      let w = (sys.lseek d.f (pos n) d.files).1 in
      let got = file.reads d.f b count w (rw (sought.2, sought.3) within) room in
      rw (sought.0, got.0, ==-refl)
        (returns (
          ap (λ x. (pos 0, x)) (got.1 ∙ rw (sought.1, sought.3)),
          record {
            handle = refl;
            blocks = refl;
            sized = got.3 ∙ sought.2;
            bytes = got.2 ∙ sought.1;
          },
        ))

  pub write_at_lem :
      (n count : ℕ) (b : List ℕ) (d : Disk F)
      → n + count ≤ size d.files
      → count ≤ length b
      → Returns
          (λ r d'. (r ≡ pos 0) × Holds d (written (content d.files) n count b) d')
          (write_at sys (pos n) count b d)
  unfolding write_at
  write_at_lem n count b d within room =
      let sought = file.seeks d.f n d.files in
      let w = (sys.lseek d.f (pos n) d.files).1 in
      let put = file.writes d.f b count w (rw (sought.2, sought.3) within) room in
      let synced = file.fsyncs d.f (sys.write d.f b count w).1 in
      rw (sought.0, put.0, ==-refl)
        (returns (
          refl,
          record {
            handle = refl;
            blocks = refl;
            sized = synced.1 ∙ put.2 ∙ sought.2;
            bytes = synced.0 ∙ put.1 ∙ rw (sought.1, sought.3);
          },
        ))

  pub read_block_lem :
      (i : ℕ) {k : ℕ} (b : List ℕ) (d : Disk F)
      → d.devsize ≡ pos k
      → i < k
      → i < 2097152
      → i * blocksize + blocksize ≤ size d.files
      → blocksize ≤ length b
      → Returns
          (λ (r : ℤ × List ℕ) d'.
            (r ≡ (pos 0, overwrite b 0 (bytes_of (content d.files) (i * blocksize) blocksize)))
            × Holds d (content d.files) d')
          (read_block sys (pos i) b d)
  unfolding read_block
  read_block_lem i {k} b d sized below fits within room =
      let below_k : leb k i ≡ false = ground arith in
      let inside : at_least (pos i) d.devsize ≡ false = rw sized below_k in
      let int : ltb (0 + i * 1024) (2 ^ 31) ≡ true = ground arith in
      let e : 0 + i * 1024 ≡ i * blocksize = omega arith in
      rw inside (rw int (rw e (read_at_lem (i * blocksize) blocksize b d within room)))

  pub write_block_lem :
      (i : ℕ) {k : ℕ} (b : List ℕ) (d : Disk F)
      → d.devsize ≡ pos k
      → i < k
      → i < 2097152
      → i * blocksize + blocksize ≤ size d.files
      → blocksize ≤ length b
      → Returns
          (λ r d'. (r ≡ pos 0) × Holds d (written (content d.files) (i * blocksize) blocksize b) d')
          (write_block sys (pos i) b d)
  unfolding write_block
  write_block_lem i {k} b d sized below fits within room =
      let below_k : leb k i ≡ false = ground arith in
      let inside : at_least (pos i) d.devsize ≡ false = rw sized below_k in
      let int : ltb (0 + i * 1024) (2 ^ 31) ≡ true = ground arith in
      let e : 0 + i * 1024 ≡ i * blocksize = omega arith in
      rw inside (rw int (rw e (write_at_lem (i * blocksize) blocksize b d within room)))

  pub read_inode_lem :
      (n : ℕ) (b : List ℕ) (d : Disk F)
      → n ≢ 0
      → n < max_file_num
      → 16384 + n * inode_size + inode_size ≤ size d.files
      → inode_size ≤ length b
      → Returns
          (λ (r : ℤ × List ℕ) d'.
            (r ≡ (
              pos 0,
              overwrite b 0 (bytes_of (content d.files) (16384 + n * inode_size) inode_size),
            ))
            × Holds d (content d.files) d')
          (read_inode sys (pos n) b d)
  unfolding read_inode
  read_inode_lem n b d ne below within room =
      let inside : leb max_file_num n ≡ false = ground arith in
      let int : ltb (16384 + n * 256) (2 ^ 31) ≡ true = ground arith in
      rw (inside, ==-false ne)
        (rw int (read_at_lem (16384 + n * inode_size) inode_size b d within room))

  pub write_inode_lem :
      (n : ℕ) {k : ℕ} (b : List ℕ) (d : Disk F)
      → n ≢ 0
      → d.devsize ≡ pos k
      → n < k
      → n < max_file_num
      → 16384 + n * inode_size + inode_size ≤ size d.files
      → inode_size ≤ length b
      → Returns
          (λ r d'.
            (r ≡ pos 0)
            × Holds d (written (content d.files) (16384 + n * inode_size) inode_size b) d')
          (write_inode sys (pos n) b d)
  unfolding write_inode
  write_inode_lem n {k} b d ne sized below fits within room =
      let below_k : leb k n ≡ false = ground arith in
      let inside : at_least (pos n) d.devsize ≡ false = rw sized below_k in
      let int : ltb (16384 + n * 256) (2 ^ 31) ≡ true = ground arith in
      rw (inside, ==-false ne)
        (rw int (write_at_lem (16384 + n * inode_size) inode_size b d within room))

  -- The device is opened, once.
  pub dev_open_lem :
      (path : Str) (d : Disk F)
      → is_negative d.f ≡ true
      → size d.files / blocksize < 2 ^ 31
      → Returns
          (λ r d'.
            (r ≡ pos (size d.files / blocksize))
            × (is_negative d'.f ≡ false)
            × (d'.devsize ≡ pos (size d.files / blocksize))
            × (size d'.files ≡ size d.files)
            × (content d'.files ≡ content d.files))
          (dev_open sys path d)
  unfolding dev_open open_file
  dev_open_lem path d closed int =
      let k = size d.files / blocksize in
      let stays : stored_int k ≡ pos k = ground arith in
      let opened = file.opens path d.files in
      let stat = file.fstats (pos opened.0) (sys.open_fd path d.files).1 in
      rw (closed, opened.1)
        (rw (stat.0, stat.1, opened.3, stays)
          (returns (refl, refl, refl, stat.3 ∙ opened.3, stat.2 ∙ opened.2)))
