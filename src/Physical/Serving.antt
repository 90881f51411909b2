-- ===== src/Physical/Serving.antt =====
-- How many calls of `physical_pageAlloc` are served: as many as there are free pages.
use system_related_projects.Base.{
  ℕ, zero, suc, ◌+◌, ◌≤◌, ◌<◌, ◌≡◌, ◌≢◌, refl, true, false, List, ◌∷◌, length, arith, if◌then◌else◌,
  ◌==◌, ==-false, inl, inr, Bool-cases, ◌-◌,
}
use system_related_projects.Base.Result.{
  M, pure, ◌>>=◌, Returns, returns, Returns-bind, Returns-mono,
}
use system_related_projects.Physical.{Physical, null, page_alloc}
use system_related_projects.Physical.Bitmap.{taken, pages, IsValid}
use system_related_projects.Physical.Alloc.{Granted, page, exhausted, page_alloc-Granted}
use system_related_projects.Physical.Clients.{IsSafe, Granted-IsSafe}

-- How many of the `n` pages from `lo` on are free.
unfoldable pub count_free : List ℕ → ℕ → ℕ → ℕ
count_free b lo zero = 0
count_free b lo (suc n) = (if taken b lo then 0 else 1) + count_free b (lo + 1) n

-- All but page 0, which is never handed out.
unfoldable pub free_pages : Physical → ℕ
free_pages s = count_free s.bitmap 1 (pages s - 1)

module _ (b : List ℕ) where
  count_free-none :
      (lo n : ℕ) → ((q : ℕ) → lo ≤ q → q < lo + n → taken b q ≡ true) → count_free b lo n ≡ 0
  unfolding count_free
  count_free-none lo zero full = refl
  count_free-none lo (suc n) full =
      let rest = count_free-none (lo + 1) n (λ q a z. full q (omega arith) (omega arith)) in
      rw (full lo (omega arith) (omega arith)) (omega arith)

  module _ (b' : List ℕ) (p : ℕ)
      (bits : (q : ℕ) → taken b' q ≡ (if p == q then true else taken b q)) where
    -- Marking a page changes nothing behind it.
    count_free-behind : (lo n : ℕ) → p < lo → count_free b' lo n ≡ count_free b lo n
    unfolding count_free
    count_free-behind lo zero h = refl
    count_free-behind lo (suc n) h =
        let other : (p == lo) ≡ false = ==-false (omega arith) in
        rw (bits lo, other, count_free-behind (lo + 1) n (omega arith)) refl

    count_free-mark :
        taken b p ≡ false
        → (lo n : ℕ) → lo ≤ p
        → p < lo + n
        → count_free b' lo n + 1 ≡ count_free b lo n
    unfolding count_free
    count_free-mark free lo zero h top = absurd (omega arith)
    count_free-mark free lo (suc n) h top = elim (Bool-cases (p == lo)) [
      | inl e ↦
          let same : p ≡ lo = ground arith in
          let free' : taken b lo ≡ false = rw same at free in
          let rest = count_free-behind (lo + 1) n (omega arith) in
          rw (bits lo, e, free', rest) (omega arith)
      | inr e ↦
          let differs : p ≢ lo = ground arith in
          let rest = count_free-mark free (lo + 1) n (omega arith) (omega arith) in
          rw (bits lo, e) (omega arith)
    ]

module _ {s : Physical} (v : IsValid s) where
  -- A call that finds a page leaves one page less; where a page is free, it finds one.
  Granted-free_pages :
      {a : ℕ} {s' : Physical}
      → Granted s a s'
      → s'.max_address ≡ s.max_address
      → 1 ≤ free_pages s
      → (a ≢ null) × (free_pages s' + 1 ≡ free_pages s)
  unfolding free_pages
  Granted-free_pages {s' = s'} (page p e lo hi free high marks) same some_free = (
    omega arith,
    rw same (count_free-mark s.bitmap s'.bitmap p marks free 1 (pages s - 1) lo (omega arith)),
  )
  Granted-free_pages (exhausted e full same_bits calls) same some_free =
      let none_free =
        count_free-none s.bitmap 1 (pages s - 1) (λ q lo hi. full q lo (omega arith)) in
      absurd (omega arith)

-- A client that calls `physical_pageAlloc` `n` times, with the addresses that it holds already.
unfoldable pub page_allocs : ℕ → List ℕ → M Physical (List ℕ)
page_allocs zero owned = pure owned
page_allocs (suc n) owned = do a ← page_alloc; page_allocs n (a ∷ owned)

-- From a safe state with at least `n` free pages besides page 0, `n` calls of `physical_pageAlloc` in a
-- row end and all find a page: the pages held are then `n` more and all different, each one is marked
-- in the bitmap, and exactly `n` pages less are free. A safe state is a valid one where the pages held
-- are pages other than page 0, marked, and all different.
pub page_allocs-served :
    (n : ℕ) {s : Physical} {owned : List ℕ}
    → IsSafe (record { memory = s; owned = owned })
    → n ≤ free_pages s
    → Returns
        (λ held s'.
          (length held ≡ n + length owned)
          × IsSafe (record { memory = s'; owned = held })
          × (free_pages s' + n ≡ free_pages s))
        (page_allocs n owned s)
unfolding page_allocs
page_allocs-served zero safe enough = returns (omega arith, safe, omega arith)
page_allocs-served (suc n) {s = s} {owned = owned} safe enough =
    Returns-bind (page_alloc-Granted safe.valid) (λ a s' (g, v', _, same).
      let (ne, fewer) = Granted-free_pages safe.valid g same (omega arith) in
      Returns-mono (page_allocs-served n (Granted-IsSafe s s' a owned safe g v' ne) (omega arith))
        (λ held t (size, safe', left). (omega arith, safe', omega arith)))
