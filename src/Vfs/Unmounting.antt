-- ===== src/Vfs/Unmounting.antt =====
-- What `vfs_unmount` does to the mount list.
use system_related_projects.Base.{
  ℕ, suc, ◌<◌, ◌≡◌, ◌≢◌, refl, ap, ◌∙◌, false, none, some, [], ◌∷◌, ◌++◌, length, arith, ==-false,
  ==-refl, lt→ltb,
}
use system_related_projects.Base.Int.{ℤ, success}
use system_related_projects.Base.Result.{M, done, Returns, Returns-of}
use system_related_projects.Vfs.{
  Str, MountData, MountPoint, Allocator, Vfs, null, vfs_maxfilename, put,
}
use system_related_projects.Vfs.Mounting.{
  search_mounts, str_eq, release, unlink, unlink_loop, unmount,
}
use system_related_projects.Vfs.Chain.{
  Store, Entries, has, Chain, cons, load_lem, set_next_lem, first_match, search_mounts-first_match,
  Chain-frame, has-append,
}

module _ {W : Type 0} where
  -- The driver's state behind the three `mm_kfree`.
  unfoldable pub freed_world : Allocator W → ℕ → MountData → W → W
  freed_world heap p info w =
      heap.kfree p (heap.kfree info.device_ptr (heap.kfree info.mountpoint_ptr w))

  -- An entry that stands in a chain.
  record At (t : Store W) (stop p : ℕ) (m : MountPoint W) (rest : Entries W) : Type 0 where
    ne_null : p ≢ null
    holds : t p ≡ some m
    fresh : has p rest ≡ false
    chain : Chain t stop m.next rest

  -- Behind the first entry, the entries before the one taken out go too.
  unfoldable pub cut : Entries W → MountPoint W → Entries W → Entries W
  cut [] m rest = rest
  cut ((q, x) ∷ between) m rest = (q, record x { next = m.next }) ∷ rest

module _ {W : Type 0} {t : Store W} {stop p : ℕ} {m : MountPoint W} {rest : Entries W} where
  Chain-At :
      (before : Entries W) {a : ℕ} → Chain t stop a (before ++ (p, m) ∷ rest) → At t stop p m rest
  Chain-At [] (cons ne holds fresh c) = record {
    ne_null = ne;
    holds = holds;
    fresh = fresh;
    chain = c;
  }
  Chain-At ((q, x) ∷ before) (cons ne holds fresh c) = Chain-At before c

  Chain-start : {a : ℕ} → Chain t stop a ((p, m) ∷ rest) → a ≡ p
  Chain-start (cons ne holds fresh c) = refl

module _ {W : Type 0} where
  not_first :
      {q p : ℕ} (m : MountPoint W) (between rest : Entries W)
      → has q (between ++ (p, m) ∷ rest) ≡ false
      → (q ≢ p) × (has q rest ≡ false)
  not_first {q} {p} m between rest out = ground (arith, has-append q between ((p, m) ∷ rest))

  unlink-first :
      (fuel : ℕ) (s : Vfs W) {p : ℕ} (next : ℕ)
      → s.mp_tail ≡ p
      → unlink fuel p next s ≡ done tt (record s { mp_tail = next })
  unfolding unlink
  unlink-first fuel s next e = rw (e, ==-refl)

  unlink-later :
      (fuel : ℕ) (s : Vfs W) {p q : ℕ} (next : ℕ) (x : MountPoint W)
      → s.mp_tail ≡ q
      → q ≢ null
      → p ≢ null
      → q ≢ p
      → s.mounts q ≡ some x
      → unlink (suc fuel) p next s
        ≡ done tt (record s {
          mounts =
              put
                (put s.mounts q (some (record x { next = p })))
                q
                (some (record x { next = next }));
        })
  unfolding unlink unlink_loop
  unlink-later fuel s {p} {q} next x e nq np ne holds = ground (
    arith,
    set_next_lem s p nq holds,
    set_next_lem (record s { mounts = put s.mounts q (some (record x { next = p })) })
        {m = record x { next = p }} next nq (ground arith),
  )

module _ {W : Type 0} (heap : Allocator W) (fuel : ℕ) (s : Vfs W) (name : Str) {p : ℕ}
    {m : MountPoint W} (rest : Entries W) {f : MountData → Str → M W ℤ} {a : ℤ} {w : W} where
  -- Everything in front of the unlinking.
  unmount-unlink :
      At s.mounts null p m rest
      → search_mounts (λ text. str_eq text name) (suc fuel) s.mp_tail s ≡ done p s
      → length name < vfs_maxfilename
      → m.fs.calltable.unmount_fn ≡ some f
      → f m.info name s.world ≡ done a w
      → {s' : Vfs W} → unlink (suc fuel) p m.next (record s { world = w }) ≡ done tt s'
      → unmount heap (suc fuel) name s
        ≡ done success (record s' {
          mounts = put s'.mounts p none;
          world =
              heap.kfree p
                (heap.kfree m.info.device_ptr (heap.kfree m.info.mountpoint_ptr s'.world));
        })
  unfolding unmount release
  unmount-unlink at found short has_fn answered unlinked = rw (
    lt→ltb _ _ short,
    found,
    ==-false at.ne_null,
    load_lem s at.ne_null at.holds,
    has_fn,
    answered,
    unlinked,
  )

-- What `vfs_unmount` leaves of the list `before ++ (p, m) ∷ rest`.
pub record Unmounted {W : Type 0} (heap : Allocator W) (w : W) (s : Vfs W) (p : ℕ)
    (m : MountPoint W) (before rest : Entries W) (r : ℤ) (s' : Vfs W) : Type 0 where
  pub result : r ≡ success
  pub chain : Chain s'.mounts null s'.mp_tail (cut before m rest)
  pub gone : s'.mounts p ≡ none
  pub head : s'.mp_head ≡ s.mp_head
  pub world : s'.world ≡ freed_world heap p m.info w

module _ {W : Type 0} (heap : Allocator W) (fuel : ℕ) (s : Vfs W) (name : Str) {p : ℕ}
    {m : MountPoint W} {f : MountData → Str → M W ℤ} {a : ℤ} {w : W}
    (short : length name < vfs_maxfilename) (has_fn : m.fs.calltable.unmount_fn ≡ some f)
    (answered : f m.info name s.world ≡ done a w) where
  -- `vfs_unmount` of a path of fewer than 256 bytes whose mount point stands in the list
  -- `before ++ (p, m) ∷ rest`, which has fewer entries than the fuel, is the first with that path, and
  -- has a driver whose `unmount` returns, whatever its answer: it calls the driver, frees the two texts
  -- and the mount point, and succeeds. The list that is left is `rest` where the mount point was the
  -- first, and else the first entry followed by `rest`: the entries between the first and the one taken
  -- out are lost. `vfs_mpHead` is not changed.
  pub unmount-cut :
      (before rest : Entries W)
      → Chain s.mounts null s.mp_tail (before ++ (p, m) ∷ rest)
      → length (before ++ (p, m) ∷ rest) < suc fuel
      → first_match (λ text. str_eq text name) (before ++ (p, m) ∷ rest) ≡ p
      → Returns (Unmounted heap w s p m before rest) (unmount heap (suc fuel) name s)
  unfolding cut freed_world
  unmount-cut [] rest c enough match =
      let at = Chain-At [] c in
      Returns-of
        (unmount-unlink heap fuel s name rest at
          (search_mounts-first_match _ (suc fuel) c enough ∙ ap (λ a. done a s) match) short has_fn
          answered (unlink-first (suc fuel) _ m.next (Chain-start c)))
        (record {
          result = refl;
          chain = Chain-frame at.chain (ground (arith, at.fresh));
          gone = rw ==-refl;
          head = refl;
          world = refl;
        })
  unmount-cut ((q, x) ∷ between) rest c enough match =
      let at = Chain-At ((q, x) ∷ between) c in
      let first = Chain-At [] c in
      let (ne, out) = not_first m between rest first.fresh in
      Returns-of
        (unmount-unlink heap fuel s name rest at
          (search_mounts-first_match _ (suc fuel) c enough ∙ ap (λ a. done a s) match) short has_fn
          answered
          (unlink-later fuel (record s { world = w }) m.next x (Chain-start c) first.ne_null
            at.ne_null ne first.holds))
        (record {
          result = refl;
          chain = rw (Chain-start c) (
              cons first.ne_null (ground arith) out
                (Chain-frame at.chain λ a i. ground (arith, at.fresh)));
          gone = rw ==-refl;
          head = refl;
          world = refl;
        })
