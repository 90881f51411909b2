-- ===== src/Physical/Free.antt =====
-- `physical_pageFree`, alone and against `physical_pageAlloc`.
use system_related_projects.Base.{
  ℕ, ◌*◌, ◌/◌, ◌≤◌, ◌<◌, ◌≡◌, ◌≢◌, Bool, true, false, not, ◌&&◌, ◌⊎◌, inl, inr, arith, Bool-cases,
  ltb, if◌then◌else◌, ◌==◌,
}
use system_related_projects.Base.Result.{
  done, Returns, returns, Returns-of, Returns-bind, Returns-mono, ◌>>=◌, ◌>>◌,
}
use system_related_projects.Physical.{
  Physical, null, lock_bitmap, unlock_bitmap, log, page_alloc, page_free,
}
use system_related_projects.Physical.Bitmap.{
  taken, pages, IsValid, unmark, taken-unmark, unmark-IsValid, clear_page_lem,
}
use system_related_projects.Physical.Alloc.{
  Granted, page, exhausted, held, log-IsValid, page_alloc-Granted,
}

-- Does `physical_pageFree` act on the address? NULL and what lies past the end are ignored.
abbrev pub frees : Physical → ℕ → Bool
frees s a = not (a == null) && ltb a s.max_address

module _ {s : Physical} (v : IsValid s) (a : ℕ) where
  page_free-acts :
      frees s a ≡ true
      → page_free a s ≡ done tt (log unlock_bitmap (unmark (log lock_bitmap s) (a / 4096)))
  unfolding page_free
  page_free-acts e = rw e (rw (clear_page_lem (log-IsValid lock_bitmap v) a (ground arith)))

  page_free-ignores :
      frees s a ≡ false → page_free a s ≡ done tt (log unlock_bitmap (log lock_bitmap s))
  unfolding page_free
  page_free-ignores e = rw e

  -- On a valid state `physical_pageFree` returns, keeps the state valid and releases its lock. It
  -- makes the page of an address other than NULL below the end of memory free, and no other page.
  pub page_free_lem :
      Returns
        (λ _ s'.
          IsValid s'
          × (held s'.calls ≡ held s.calls)
          × ((q : ℕ)
              → taken s'.bitmap q
                ≡ (if frees s a && (a / 4096 == q) then false else taken s.bitmap q)))
        (page_free a s)
  unfolding held unmark
  page_free_lem = elim (Bool-cases (frees s a)) [
    | inl e ↦
        let inside : a / 4096 < 8 * s.bitmap_size = ground (arith, v.covers) in
        Returns-of (page_free-acts e) (
          log-IsValid _ (unmark-IsValid (log-IsValid _ v) (a / 4096) inside),
          omega arith,
          λ q. ground (arith, taken-unmark v (a / 4096) inside q),
        )
    | inr e ↦
        Returns-of (page_free-ignores e)
          (log-IsValid _ (log-IsValid _ v), omega arith, λ q. ground arith)
  ]

module _ {s : Physical} (v : IsValid s) where
  freed :
      {a : ℕ} {s' : Physical}
      → Granted s a s'
      → IsValid s'
      → s'.max_address ≡ s.max_address
      → Returns (λ _ t. (q : ℕ) → taken t.bitmap q ≡ taken s.bitmap q) (page_free a s')
  freed {s'} (page p e lo hi free high marks) v' same =
      Returns-mono (page_free_lem v' _) λ _ t (_, _, bits) q. ground (arith, bits q, marks q)
  freed (exhausted e all same_bits calls) v' same =
      Returns-mono (page_free_lem v' _) λ _ t (_, _, bits) q. ground (arith, bits q)

  -- Freeing what `physical_pageAlloc` returned, a page or NULL, gives the set of taken pages back.
  pub page_alloc-page_free :
      Returns (λ _ t. (q : ℕ) → taken t.bitmap q ≡ taken s.bitmap q) ((page_alloc >>= page_free) s)
  page_alloc-page_free =
      Returns-bind (page_alloc-Granted v) λ a s' (g, v', _, same). freed g v' same

  -- Whatever the state of the other pages, once a page other than page 0 that lies in the memory is
  -- freed, `physical_pageAlloc` returns and finds a page: its answer is not NULL.
  pub page_free-page_alloc :
      (a : ℕ)
      → 1 ≤ a / 4096
      → a / 4096 < pages s
      → Returns (λ b _. b ≢ null) ((page_free a >> page_alloc) s)
  unfolding unmark
  page_free-page_alloc a lo hi =
      let acts : frees s a ≡ true = ground arith in
      let inside : a / 4096 < 8 * s.bitmap_size = ground (arith, v.covers) in
      rw (page_free-acts v a acts) (
        Returns-mono
          (page_alloc-Granted (
            log-IsValid unlock_bitmap
              (unmark-IsValid (log-IsValid lock_bitmap v) (a / 4096) inside)))
          (λ b t (g, _, _, _). found g (λ full.
            let marked = full (a / 4096) lo hi in
            ground (arith, taken-unmark v (a / 4096) inside (a / 4096)))))
    where
      found :
          {s' t : Physical} {b : ℕ}
          → Granted s' b t
          → ¬ ((q : ℕ) → 1 ≤ q → q < pages s' → taken s'.bitmap q ≡ true)
          → b ≢ null
      found (page p e lo hi free high marks) full same = omega arith
      found (exhausted e all bits calls) full same = full all

  -- Two calls of `physical_pageAlloc` in a row return, and their pages differ unless one of them
  -- found no page.
  pub page_alloc-page_alloc :
      Returns
        (λ (a, b) _. (a ≡ null) ⊎ (b ≡ null) ⊎ (a ≢ b))
        ((page_alloc >>= λ a. page_alloc >>= λ b t. done (a, b) t) s)
  page_alloc-page_alloc = Returns-bind (page_alloc-Granted v) λ a s' (g, v', _, _).
      Returns-bind (page_alloc-Granted v') λ b t (g', _, _, _). returns (differ g g')
    where
      differ :
          {a b : ℕ} {s' t : Physical}
          → Granted s a s'
          → Granted s' b t
          → (a ≡ null) ⊎ (b ≡ null) ⊎ (a ≢ b)
      differ (page p e _ _ _ _ marks) (page q e' _ _ free _ _) =
          inr (inr λ same. ground (arith, marks q))
      differ (exhausted e _ _ _) g = inl e
      differ (page p e _ _ _ _ marks) (exhausted e' _ _ _) = inr (inl e')
