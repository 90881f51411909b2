-- ===== src/Startup/Seeking.antt =====
-- Files of the FAT file system, moved about in and read through the virtual file system: `vfs_seek` and
-- `vfs_read` of MimicOS/src/kernel/fs/vfs.c down to fat.c.
use system_related_projects.Base.{
  ℕ, ◌+◌, ◌*◌, ◌^◌, ◌≤◌, ◌<◌, ◌≡◌, refl, ap, some, List, ◌∷◌, ◌++◌, length, take, drop, arith,
}
use system_related_projects.Base.Int.{ℤ, pos}
use system_related_projects.Base.Result.{
  pure, Returns, returns, Returns-mono, Returns-bind, ◌>>=◌, Part,
}
use system_related_projects.Vfs.{Handle, Allocator, Vfs, FileSystem}
use system_related_projects.Vfs.Files.{read, seek}
use system_related_projects.Vfs.Chain.{load_lem}
use system_related_projects.Fat.{FatMount, FatFile, Volume, Env}
use system_related_projects.Fat.Reading.{Keeps, left}
use system_related_projects.Fat.Layout.{Layout, chain_bytes, Chain}
use system_related_projects.Fat.Files.{seek_file, seek_start, target}
use system_related_projects.Startup.Reading.{
  Returns-within, Returns-outside, with_file_lem, OpenFile, read-read,
}
use system_related_projects.Fat.Registering.{FatWorld}

seek_file_lem :
    (file : FatFile) (to : ℕ)
    → to ≤ file.entry.file_size
    → to < 2 ^ 31
    → seek_file (some file) to seek_start ≡ (pos to, some (record file { current_pos = to }))
unfolding seek_file target
seek_file_lem file to fits small = ground arith

module _ {W D H : Type 0} (part : Part W (FatWorld D H))
    (same : (x : FatWorld D H) (v : W) → part.get (part.put x v) ≡ x) (heap : Allocator W)
    (vol : Volume D H) (env : Env) (content : D → List ℕ) (place : D → ℕ)
    (dev : Keeps vol content place) (m : FatMount H) (image : List ℕ) (layout : Layout m image)
    (fresh : length (env.fresh m.cluster_size) ≡ m.cluster_size) (start : ℕ) (clusters : List ℕ)
    (chain : Chain m image (start ∷ clusters)) where
  abbrev Open : Handle → ℕ → ℕ → Vfs W → Type 0
  Open = OpenFile part same heap vol env content place dev m image layout fresh start clusters chain

  abbrev bytes : List ℕ
  bytes = chain_bytes m image (start ∷ clusters)

  -- A move to a place within the file, of fewer than 2 ^ 31 bytes.
  seek_lem :
      (h : Handle) (to : ℕ) {at size : ℕ} (s : Vfs W)
      → Open h at size s
      → to ≤ size
      → to < 2 ^ 31
      → Returns (λ r s'. (r ≡ pos to) × Open h to size s') (seek (some h) to seek_start s)
  unfolding seek
  seek_lem h to s o fits small =
      let has_fn = ap (λ (fs : FileSystem W). fs.calltable.seek_fn) o.driver in
      let file' = record o.file { current_pos = to } in
      let moved : seek_file (some o.file) to seek_start ≡ (pos to, some file') =
        seek_file_lem o.file to (omega arith) small in
      rw (load_lem s o.point_ne o.holds, has_fn)
        (Returns-mono
          (Returns-outside s (
            Returns-within part s.world (
              with_file_lem vol content place dev m image {A = ℤ} {file' = file'} (part.get s.world)
                {r = pos to} _ o.file_ne o.stored
                (returns (moved, left (part.get s.world).dev refl tt)))))
          (λ x s' p. (
            p.2.2.0,
            rw p.1 record {
              point = o.point;
              point_ne = o.point_ne;
              holds = o.holds;
              driver = o.driver;
              reads = o.reads;
              file_ne = o.file_ne;
              fat = o.fat;
              file = file';
              stored = rw p.2.1 (rw (same p.2.0 s.world) p.2.2.1);
              position = refl;
              starts = o.starts;
              sized = o.sized;
              size_word = o.size_word;
            },
          )))

  -- From any position of an open file, `vfs_seek` to the start of a cluster within it and two calls of
  -- `vfs_read`, the first of whole clusters: the seek answers the new position, the reads together give
  -- the file's bytes from there on, without a gap, and the position is left behind them. The handle is
  -- open to read on a file of the FAT file system, and the state of the drivers keeps what is stored in
  -- it for this. The conditions are those of `fat_read`: the device keeps its bytes and a place, the
  -- clusters have one or two sectors and lie on it, the table links them without a cycle to cluster 0,
  -- the buffer of a cluster has its size, and the bytes asked for lie within the file's size, of fewer
  -- than 2 ^ 32, and within the chain; the position behind them and the end of the cluster that the
  -- second read starts in are below 2 ^ 31.
  pub seek-read-read :
      (h : Handle) (k j n : ℕ) {at size : ℕ} (s : Vfs W)
      → Open h at size s
      → k + j ≤ length clusters
      → (k + j) * m.cluster_size + n ≤ size
      → (k + j) * m.cluster_size + n ≤ length bytes
      → (k + j + 1) * m.cluster_size < 2 ^ 31
      → (k + j) * m.cluster_size + n < 2 ^ 31
      → Returns
          (λ (a : ℤ × ((ℤ × List ℕ) × (ℤ × List ℕ))) s'.
            (a.0 ≡ pos (k * m.cluster_size))
            × (a.1.0.0 ≡ pos (j * m.cluster_size))
            × (a.1.1.0 ≡ pos n)
            × (a.1.0.1 ++ a.1.1.1 ≡ take (j * m.cluster_size + n) (drop (k * m.cluster_size) bytes))
            × Open h ((k + j) * m.cluster_size + n) size s')
          ((do
            r ← seek (some h) (k * m.cluster_size) seek_start
            both ← (do x ← read (some h) (j * m.cluster_size); y ← read (some h) n; pure (x, y))
            pure (r, both))
            s)
  seek-read-read h k j n {size = size} s o short fits enough bounded int_fits =
      let both : (k + j) * m.cluster_size ≡ k * m.cluster_size + j * m.cluster_size = omega arith in
      Returns-bind (seek_lem h (k * m.cluster_size) s o (omega arith) (omega arith)) (λ r s' p.
        Returns-bind
          (read-read part same heap vol env content place dev m image layout fresh start clusters
            chain h k j n s' p.1 short fits enough bounded int_fits)
          (λ a t q. returns (p.0, q.0, q.1, q.2, q.3)))
