-- ===== src/Vfs/Chain.antt =====
-- The mount list as a list: the mount points that are reached from an address by `next`.
use system_related_projects.Base.{
  ℕ, zero, suc, ◌<◌, ◌≡◌, ◌≢◌, refl, Bool, true, false, ◌||◌, Option, some, List, [], ◌∷◌, ◌++◌,
  ◌==◌, if◌then◌else◌, length, arith, Bool-cases, ==-false, inl, inr,
}
use system_related_projects.Base.Result.{done}
use system_related_projects.Vfs.{Str, MountPoint, Vfs, null, load, set_next, put}
use system_related_projects.Vfs.Mounting.{search_mounts}

abbrev pub Store : Type 0 → Type 0
Store W = ℕ → Option (MountPoint W)

-- Each mount point with its address.
abbrev pub Entries : Type 0 → Type 0
Entries W = List (ℕ × MountPoint W)

module _ {W : Type 0} where
  abbrev pub has : ℕ → Entries W → Bool
  has a [] = false
  has a ((p, _) ∷ ms) = (a == p) || has a ms

  -- From `p` the links lead through the distinct mount points `ms` to `stop`.
  pub data Chain (t : Store W) (stop : ℕ) : ℕ → Entries W → Type 0 where
    nil : Chain t stop stop []
    cons :
        {p : ℕ} {m : MountPoint W} {ms : Entries W}
        → p ≢ null
        → t p ≡ some m
        → has p ms ≡ false
        → Chain t stop m.next ms
        → Chain t stop p ((p, m) ∷ ms)

  -- The first entry whose path passes the test, or NULL.
  unfoldable pub first_match : (Str → Bool) → Entries W → ℕ
  first_match test [] = null
  first_match test ((p, m) ∷ ms) = if test m.info.mountpoint then p else first_match test ms

  pub load_lem :
      (s : Vfs W) {p : ℕ} {m : MountPoint W} → p ≢ null → s.mounts p ≡ some m → load p s ≡ done m s
  unfolding load
  load_lem s ne holds = rw (==-false ne, holds)

  pub set_next_lem :
      (s : Vfs W) {p : ℕ} {m : MountPoint W} (q : ℕ)
      → p ≢ null
      → s.mounts p ≡ some m
      → set_next p q s
        ≡ done tt (record s { mounts = put s.mounts p (some (record m { next = q })) })
  unfolding set_next
  set_next_lem s q ne holds = rw (load_lem s ne holds)

  pub search_mounts-first_match :
      (test : Str → Bool) (f : ℕ) {s : Vfs W} {p : ℕ} {ms : Entries W}
      → Chain s.mounts null p ms
      → length ms < f
      → search_mounts test f p s ≡ done (first_match test ms) s
  unfolding search_mounts first_match
  search_mounts-first_match test zero c fuel = absurd (omega arith)
  search_mounts-first_match test (suc f) nil fuel = refl
  search_mounts-first_match test (suc f) {s} (cons {p} {m} ne holds fresh c) fuel =
      rw (==-false ne, load_lem s ne holds)
        (elim (Bool-cases (test m.info.mountpoint)) [
          | inl e ↦ rw e
          | inr e ↦ rw e (search_mounts-first_match test f c (omega arith))
        ])

  pub has-append : (a : ℕ) (xs ys : Entries W) → has a (xs ++ ys) ≡ (has a xs || has a ys)
  has-append a [] ys = refl
  has-append a ((p, m) ∷ xs) ys = ground (arith, has-append a xs ys)

  pub Chain-snoc :
      {t : Store W} {stop p : ℕ} {m : MountPoint W} {ms : Entries W}
      → Chain t stop p ms
      → stop ≢ null
      → t stop ≡ some m
      → has stop ms ≡ false
      → Chain t m.next p (ms ++ (stop, m) ∷ [])
  Chain-snoc nil ne holds out = cons ne holds refl nil
  Chain-snoc {stop} {m = l} (cons {p} {ms} ne' holds' fresh c) ne holds out =
      cons ne' holds' (ground (arith, has-append p ms ((stop, l) ∷ [])))
        (Chain-snoc c ne holds (ground arith))

  -- A change of the store that spares the mount points of a chain leaves the chain.
  pub Chain-frame :
      {t u : Store W} {stop p : ℕ} {ms : Entries W}
      → Chain t stop p ms
      → ((a : ℕ) → has a ms ≡ true → u a ≡ t a)
      → Chain u stop p ms
  Chain-frame nil same = nil
  Chain-frame (cons {p} ne holds fresh c) same =
      cons ne (ground (arith, same p)) fresh (Chain-frame c λ a i. same a (ground arith))
