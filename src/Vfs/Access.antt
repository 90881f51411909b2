-- ===== src/Vfs/Access.antt =====
-- Which calls of the file operations reach a driver.
use system_related_projects.Base.{
  ℕ, ◌<◌, ◌≤◌, ◌≡◌, ◌≢◌, refl, ap, sym, true, false, Option, none, some, List, ◌∷◌, length, arith,
  Bool-cases, inl, inr, ltb, lt→ltb, if◌then◌else◌,
}
use system_related_projects.Base.Int.{ℤ, fail, is_fail}
use system_related_projects.Base.Result.{
  Result, M, pure, done, fault, spin, and_then, ◌>>◌, and_then-pure,
}
use system_related_projects.Vfs.{
  Str, Handle, MountPoint, Allocator, Vfs, null, vfs_maxfilename, lift,
}
use system_related_projects.Vfs.Mounting.{is_prefix, file2mountpoint}
use system_related_projects.Vfs.Files.{
  mode_write, mode_append, seek_end, has_mode, open_file, create, delete, rename, copy, list_dir,
  write, write_with, seek, ends_in_slash, sizeof_pointer,
}
use system_related_projects.Vfs.Chain.{
  Chain, Entries, first_match, search_mounts-first_match, load_lem,
}

module _ {W : Type 0} (fuel : ℕ) {s : Vfs W} {ms : Entries W} (c : Chain s.mounts null s.mp_tail ms)
    (enough : length ms < fuel) where
  -- On a mount list of fewer entries than the fuel, `vfs_file2mountpoint` ends and gives the first
  -- mount point whose path is a prefix of the name, or NULL if there is none. It changes nothing.
  pub file2mountpoint-first_match :
      (name : Str)
      → file2mountpoint fuel name s
        ≡ done (first_match (λ mountpoint. is_prefix mountpoint name) ms) s
  unfolding file2mountpoint
  file2mountpoint-first_match name = search_mounts-first_match _ fuel c enough

  -- On a mount list of fewer entries than the fuel, with a path that is not empty, has fewer than 256
  -- bytes and lies under no mount point: `vfs_open`, `vfs_create`, `vfs_delete`, `vfs_list` and, for a
  -- new path of fewer than 256 bytes too, `vfs_rename` fail, and none calls a driver or changes anything.
  pub unmounted_path :
      (heap : Allocator W) (ch : ℕ) (cs dst : Str) (mode : ℕ)
      → length (ch ∷ cs) < vfs_maxfilename
      → length dst < vfs_maxfilename
      → first_match (λ mountpoint. is_prefix mountpoint (ch ∷ cs)) ms ≡ null
      → (open_file heap fuel (ch ∷ cs) mode s ≡ done none s)
        × (create fuel (ch ∷ cs) s ≡ done fail s)
        × (delete fuel (ch ∷ cs) s ≡ done fail s)
        × (rename fuel (ch ∷ cs) dst s ≡ done fail s)
        × (list_dir fuel (ch ∷ cs) s ≡ done none s)
  unfolding open_file create delete rename list_dir
  unmounted_path heap ch cs dst mode short short' miss =
      let found = file2mountpoint-first_match (ch ∷ cs) in
      let fits = lt→ltb _ _ short in
      (
        rw (fits, found, miss),
        rw (fits, found, miss),
        rw (fits, found, miss),
        rw (fits, lt→ltb _ _ short', found, miss),
        elim (Bool-cases (ends_in_slash (ch ∷ cs))) [
          | inl e ↦ rw (fits, e, found, miss)
          | inr e ↦ rw (fits, e)
        ],
      )

module _ {W : Type 0} (fuel : ℕ) (s : Vfs W) where
  -- A path of 256 bytes or more overruns the buffer that it is copied to, in every operation.
  pub long_path :
      (heap : Allocator W) (ch : ℕ) (cs dst : Str) (mode : ℕ)
      → vfs_maxfilename ≤ length (ch ∷ cs)
      → (open_file heap fuel (ch ∷ cs) mode s ≡ fault)
        × (create fuel (ch ∷ cs) s ≡ fault)
        × (delete fuel (ch ∷ cs) s ≡ fault)
        × (rename fuel (ch ∷ cs) dst s ≡ fault)
        × (copy fuel (ch ∷ cs) dst s ≡ fault)
        × (list_dir fuel (ch ∷ cs) s ≡ fault)
  unfolding open_file create delete rename list_dir copy
  long_path heap ch cs dst mode long =
      let no : ltb (length (ch ∷ cs)) vfs_maxfilename ≡ false = ground arith in
      let no' : ltb (length (ch ∷ cs)) sizeof_pointer ≡ false = ground arith in
      (rw no, rw no, rw no, rw no, rw no', rw no)

answer-eq : {S A : Type 0} {a b : A} {s t : S} → ◌≡◌ {A = Result S A} (done a s) (done b t) → b ≡ a
answer-eq e = cc

module _ {W : Type 0} (s : Vfs W) (h : Handle) where
  -- What follows the driver's `write`.
  abbrev after_write : ℤ → M (Vfs W) ℤ
  after_write r =
      if is_fail r
      then pure fail
      else (if has_mode h.mode mode_append then (do seek (some h) 0 seek_end; pure r) else pure r)

  after_write-answer :
      (res : Result W ℤ) {r : ℤ} {s' : Vfs W}
      → and_then (lift s res) after_write ≡ done r s'
      → r ≢ fail
      → (w : W) × (res ≡ done r w)
  after_write-answer (done a w) {r} e ne = (
    w,
    ap (λ x. done x w)
        (elim (Bool-cases (is_fail a)) [
          | inl failed ↦ absurd (ne (answer-eq (rw failed at e)))
          | inr fine ↦ elim (Bool-cases (has_mode h.mode mode_append)) [
            | inl end ↦
                sym
                  (and_then-pure (seek (some h) 0 2 (record s { world = w })) (rw (fine, end) at e))
            | inr stay ↦ sym (answer-eq (rw (fine, stay) at e))
          ]
        ]),
  )
  after_write-answer fault e ne = cc
  after_write-answer spin e ne = cc

  write_with-permitted :
      (o : Option (Handle → List ℕ → M W ℤ)) (buffer : List ℕ) {r : ℤ} {s' : Vfs W}
      → write_with o h buffer s ≡ done r s'
      → r ≢ fail
      → (f : Handle → List ℕ → M W ℤ) × (o ≡ some f) × ((w : W) × (f h buffer s.world ≡ done r w))
  unfolding write_with
  write_with-permitted none buffer e ne = absurd (ne cc)
  write_with-permitted (some f) buffer e ne =
      (f, refl, after_write-answer (f h buffer s.world) e ne)

  -- `vfs_write` gives an answer other than FAIL only on a handle with the write mode, from the
  -- driver's own `write`.
  pub write-permitted :
      {m : MountPoint W} (buffer : List ℕ) {r : ℤ} {s' : Vfs W}
      → h.mount ≢ null
      → s.mounts h.mount ≡ some m
      → write (some h) buffer s ≡ done r s'
      → r ≢ fail
      → (has_mode h.mode mode_write ≡ true)
        × ((f : Handle → List ℕ → M W ℤ) × (m.fs.calltable.write_fn ≡ some f)
            × ((w : W) × (f h buffer s.world ≡ done r w)))
  unfolding write
  write-permitted buffer ok holds e ne = elim (Bool-cases (has_mode h.mode mode_write)) [
    | inl t ↦ (t, write_with-permitted _ buffer (rw (t, load_lem s ok holds) at e) ne)
    | inr t ↦ absurd (ne (answer-eq (rw t at e)))
  ]
