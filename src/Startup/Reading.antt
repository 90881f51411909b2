-- ===== src/Startup/Reading.antt =====
-- Files of the FAT file system, read through the virtual file system: `vfs_read` of
-- MimicOS/src/kernel/fs/vfs.c down to `fat_read` of MimicOS/src/kernel/fs/fat.c.
use system_related_projects.Base.{
  ℕ, ◌+◌, ◌*◌, ◌^◌, ◌≤◌, ◌<◌, ◌≡◌, ◌≢◌, refl, ap, sym, ◌∙◌, true, some, List, ◌∷◌, ◌++◌, length,
  take, drop, replicate, ◌==◌, if◌then◌else◌, ==-false, ==-refl, length-replicate, Option, arith,
}
use system_related_projects.Base.Int.{ℤ, pos}
use system_related_projects.Base.Result.{
  Result, and_then, M, pure, Returns, returns, Returns-mono, Returns-bind, ◌>>=◌, Part, put_back,
}
use system_related_projects.Vfs.{Handle, MountPoint, Allocator, Vfs, null, FileSystem, lift}
use system_related_projects.Vfs.Files.{read, has_mode, mode_read}
use system_related_projects.Vfs.Chain.{load_lem}
use system_related_projects.Fat.{
  FatMount, mounted, FatFile, Volume, Env, w32, Fat, on_mount, splice,
}
use system_related_projects.Fat.Splice.{splice_whole, take_all, take-drop_add, drop-drop}
use system_related_projects.Fat.Reading.{Keeps, Left, left, length-part}
use system_related_projects.Fat.Layout.{Layout, chain_bytes, Chain}
use system_related_projects.Fat.Chains.{read_file-chain_bytes}
use system_related_projects.Fat.Registering.{
  FatWorld, with_file, at_mount, keep_mount, store_file, read_handle, file_system,
}

module _ {W S A : Type 0} (part : Part W S) where
  pub Returns-within :
      (w : W) {P : A → S → Type 0} {r : Result S A}
      → Returns P r
      → Returns (λ a w'. (x : S) × (w' ≡ part.put x w) × P a x) (put_back part w r)
  Returns-within w (returns p) = returns (_, refl, p)

module _ {W A : Type 0} where
  pub Returns-outside :
      (s : Vfs W) {P : A → W → Type 0} {r : Result W A}
      → Returns P r
      → Returns (λ a s'. (w : W) × (s' ≡ record s { world = w }) × P a w) (lift s r)
  Returns-outside s (returns p) = returns (_, refl, p)

module _ {D H : Type 0} (vol : Volume D H) (content : D → List ℕ) (place : D → ℕ)
    (dev : Keeps vol content place) (m : FatMount H) (image : List ℕ) where
  -- The file `file` is open at the address `a`, and its mount, at the address `q`, is the volume.
  pub record FileAt (a q : ℕ) (file : FatFile) (w : FatWorld D H) : Type 0 where
    pub q_ne : q ≢ null
    pub mount : w.mounts q ≡ mounted m
    pub stored : w.files a ≡ some (q, file)
    pub bytes : content w.dev ≡ image

  bind-kept :
      {A B : Type 0} {R : A → Type 0} {Q : B → FatWorld D H → Type 0} {d : D}
      {r : Result (Fat D H) A} (w : FatWorld D H) (q : ℕ) (k : A → M (FatWorld D H) B)
      → Returns (λ a t. R a × Left vol content place dev m (λ _. Unit {0}) d t) r
      → ((a : A)
          → R a
          → (d' : D) → content d' ≡ content d
          → Returns Q
              (k a (record w { mounts = λ p. if p == q then mounted m else w.mounts p; dev = d' })))
      → Returns Q (and_then (keep_mount w q r) k)
  bind-kept w q k (returns (ra, left d' same p)) next = next _ ra d' same

  pub with_file_lem :
      {A : Type 0} {a q : ℕ} {file file' : FatFile} (w : FatWorld D H) {r : A}
      (f : Option FatFile → M (Fat D H) (A × Option FatFile))
      → a ≢ null
      → FileAt a q file w
      → Returns
          (λ x t. (x ≡ (r, some file')) × Left vol content place dev m (λ _. Unit {0}) w.dev t)
          (f (some file) (on_mount m w.dev))
      → Returns (λ x w'. (x ≡ r) × FileAt a q file' w') (with_file a f w)
  unfolding with_file at_mount store_file
  with_file_lem {a = a} {q = q} w f ne at ends =
      rw (==-false ne, at.stored)
        (rw (==-false at.q_ne, at.mount)
          (bind-kept w q _ ends (λ x e d' same. rw e (
            returns (
              refl,
              record {
                q_ne = at.q_ne;
                mount = rw (==-refl q) refl;
                stored = rw (==-refl a) refl;
                bytes = same ∙ at.bytes;
              },
            )))))

module _ {W D H : Type 0} (part : Part W (FatWorld D H))
    (same : (x : FatWorld D H) (v : W) → part.get (part.put x v) ≡ x) (heap : Allocator W)
    (vol : Volume D H) (env : Env) (content : D → List ℕ) (place : D → ℕ)
    (dev : Keeps vol content place) (m : FatMount H) (image : List ℕ) (layout : Layout m image)
    (fresh : length (env.fresh m.cluster_size) ≡ m.cluster_size) (start : ℕ) (clusters : List ℕ)
    (chain : Chain m image (start ∷ clusters)) where
  -- The bytes of the file.
  abbrev pub file_bytes : List ℕ
  file_bytes = chain_bytes m image (start ∷ clusters)

  -- A handle of the virtual file system, open to read, on the file of `size` bytes that starts at the
  -- cluster `start` of the volume, with the position `at`.
  pub record OpenFile (h : Handle) (at size : ℕ) (s : Vfs W) : Type 0 where
    pub point : MountPoint W
    pub point_ne : h.mount ≢ null
    pub holds : s.mounts h.mount ≡ some point
    pub driver : point.fs ≡ file_system part heap vol env
    pub reads : has_mode h.mode mode_read ≡ true
    pub file_ne : h.data_ptr ≢ null
    pub fat : ℕ
    pub file : FatFile
    pub stored : FileAt vol content place dev m image h.data_ptr fat file (part.get s.world)
    pub position : file.current_pos ≡ at
    pub starts : file.entry.start_cluster ≡ start
    pub sized : file.entry.file_size ≡ size
    pub size_word : size < w32

  read_handle_lem :
      (h : Handle) (k n : ℕ) {size : ℕ} (s : Vfs W)
      → (o : OpenFile h (k * m.cluster_size) size s) → k ≤ length clusters
      → k * m.cluster_size + n ≤ size
      → k * m.cluster_size + n ≤ length file_bytes
      → (k + 1) * m.cluster_size < 2 ^ 31
      → k * m.cluster_size + n < 2 ^ 31
      → Returns
          (λ x w'.
            (x ≡ (pos n, take n (drop (k * m.cluster_size) file_bytes)))
            × FileAt vol content place dev m image h.data_ptr o.fat
                (record o.file { current_pos = o.file.current_pos + n })
                (part.get w'))
          (read_handle part heap vol env h n s.world)
  unfolding read_handle
  read_handle_lem h k n s o short fits enough bounded int_fits =
      let w = part.get s.world in
      let at = k * m.cluster_size in
      let zeros : length (replicate {A = ℕ} n 0) ≡ n = length-replicate n 0 in
      let from : chain_bytes m image (o.file.entry.start_cluster ∷ clusters) ≡ file_bytes =
        rw o.starts refl in
      let held = ap length from in
      let inner =
        read_file-chain_bytes vol content place dev m image layout env o.file k n
          {clusters = clusters} (replicate n 0) w.dev (rw o.starts chain) o.stored.bytes fresh short
          o.position (omega arith) (omega arith) (omega arith) (omega arith) bounded
          (omega arith) in
      let got = take n (drop at file_bytes) in
      let file' = record o.file { current_pos = o.file.current_pos + n } in
      let sized : length got ≡ n = length-part at n file_bytes enough in
      let whole : splice (replicate n 0) 0 (
            take n (
              drop o.file.current_pos
                (chain_bytes m image (o.file.entry.start_cluster ∷ clusters))))
          ≡ got =
        rw o.position (rw from (splice_whole (replicate n 0) got (sized ∙ sym zeros))) in
      Returns-bind
        (Returns-within part s.world (
          with_file_lem vol content place dev m image {A = ℤ × List ℕ} {file' = file'} w
            {r = (pos n, got)} _ o.file_ne o.stored
            (Returns-bind inner (λ a t p. rw p.0 (returns (rw whole refl, p.1))))))
        (λ a w' p. rw p.2.0 (
          returns (
            ap (λ b. (pos n, b)) (take_all n got (omega arith)),
            rw p.1 (rw (same p.0 s.world) p.2.1),
          )))

  -- `vfs_read` of a file of the FAT file system, from a position at the start of a cluster, gives the
  -- bytes of the file's chain of clusters from there on, as many as were asked for, and moves the
  -- position behind them. The conditions are those of `fat_read`: the clusters have one or two sectors
  -- and lie on the device, the table links them without a cycle to cluster 0, and the bytes asked for
  -- lie within the file's size and within the chain.
  pub read-file_bytes :
      (h : Handle) (k n : ℕ) {size : ℕ} (s : Vfs W)
      → OpenFile h (k * m.cluster_size) size s
      → k ≤ length clusters
      → k * m.cluster_size + n ≤ size
      → k * m.cluster_size + n ≤ length file_bytes
      → (k + 1) * m.cluster_size < 2 ^ 31
      → k * m.cluster_size + n < 2 ^ 31
      → Returns
          (λ x s'.
            (x ≡ (pos n, take n (drop (k * m.cluster_size) file_bytes)))
            × OpenFile h (k * m.cluster_size + n) size s')
          (read (some h) n s)
  unfolding read
  read-file_bytes h k n s o short fits enough bounded int_fits =
      let has_fn = ap (λ (fs : FileSystem W). fs.calltable.read_fn) o.driver in
      rw (o.reads, load_lem s o.point_ne o.holds, has_fn)
        (Returns-mono
          (Returns-outside s (read_handle_lem h k n s o short fits enough bounded int_fits))
          (λ x s' p. (
            p.2.0,
            rw p.1 record {
              point = o.point;
              point_ne = o.point_ne;
              holds = o.holds;
              driver = o.driver;
              reads = o.reads;
              file_ne = o.file_ne;
              fat = o.fat;
              file = record o.file { current_pos = o.file.current_pos + n };
              stored = p.2.1;
              position = ap (λ a. a + n) o.position;
              starts = o.starts;
              sized = o.sized;
              size_word = o.size_word;
            },
          )))

  -- Two reads of a file one after the other, the first of whole clusters, together give its bytes from
  -- the position on, without a gap, and leave the position behind them, on the conditions of a read.
  pub read-read :
      (h : Handle) (k j n : ℕ) {size : ℕ} (s : Vfs W)
      → OpenFile h (k * m.cluster_size) size s
      → k + j ≤ length clusters
      → (k + j) * m.cluster_size + n ≤ size
      → (k + j) * m.cluster_size + n ≤ length file_bytes
      → (k + j + 1) * m.cluster_size < 2 ^ 31
      → (k + j) * m.cluster_size + n < 2 ^ 31
      → Returns
          (λ (x : (ℤ × List ℕ) × (ℤ × List ℕ)) s'.
            (x.0.0 ≡ pos (j * m.cluster_size))
            × (x.1.0 ≡ pos n)
            × (x.0.1 ++ x.1.1
                ≡ take (j * m.cluster_size + n) (drop (k * m.cluster_size) file_bytes))
            × OpenFile h ((k + j) * m.cluster_size + n) size s')
          ((do x ← read (some h) (j * m.cluster_size); y ← read (some h) n; pure (x, y)) s)
  read-read h k j n {size = size} s o short fits enough bounded int_fits =
      let both : (k + j) * m.cluster_size ≡ k * m.cluster_size + j * m.cluster_size = omega arith in
      Returns-bind
        (read-file_bytes h k (j * m.cluster_size) s o (omega arith) (omega arith) (omega arith)
          (omega arith) (omega arith))
        (λ x s' p.
          let moved : OpenFile h ((k + j) * m.cluster_size) size s' = rw both p.1 in
          Returns-bind (read-file_bytes h (k + j) n s' moved short fits enough bounded int_fits)
            (λ y s2 p'. returns (
              ap (λ r. r.0) p.0,
              ap (λ r. r.0) p'.0,
              let front : x.1 ≡ take (j * m.cluster_size) (drop (k * m.cluster_size) file_bytes) =
                    ap (λ r. r.1) p.0 in
                  let back : y.1 ≡ take n (drop ((k + j) * m.cluster_size) file_bytes) =
                    ap (λ r. r.1) p'.0 in
                  rw front (
                    rw back (
                      rw both (
                        ap
                          (λ l.
                            take (j * m.cluster_size) (drop (k * m.cluster_size) file_bytes)
                            ++ take n l)
                          (sym (drop-drop (k * m.cluster_size) (j * m.cluster_size) file_bytes))
                        ∙ take-drop_add (j * m.cluster_size) n
                            (drop (k * m.cluster_size) file_bytes)))),
              p'.1,
            )))
