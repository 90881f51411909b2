-- ===== src/Physical/Alloc.antt =====
-- What a caller of `physical_pageAlloc` gets: a free page, high memory first, or NULL and a panic.
use system_related_projects.Base.{
  ℕ, suc, ◌-◌, ◌*◌, ◌/◌, ◌≤◌, ◌<◌, ◌≡◌, refl, true, false, Option, none, some, List, [], ◌∷◌, inl,
  inr, arith, Bool-cases, Option-cases, ltb, ltb→lt, if◌then◌else◌, ◌==◌,
}
use system_related_projects.Base.Result.{Result, done, Returns, Returns-of}
use system_related_projects.Physical.{
  Physical, null, Call, lock_bitmap, unlock_bitmap, init_bitmap_lock, panic, log, page_alloc_high,
  page_alloc_low, page_alloc, high_paddress,
}
use system_related_projects.Physical.Bitmap.{taken, pages, IsValid, mark, taken-mark, mark-IsValid}
use system_related_projects.Physical.Search.{
  first_free, grant, page_alloc_limit-grant, first_free-least, first_free-none,
}

-- The pages that `physical_pageAllocHigh` looks at, and those that `physical_pageAllocLow` does.
unfoldable pub high_choice : Physical → Option ℕ
high_choice s =
    if ltb high_paddress s.max_address then first_free s.bitmap 4096 (pages s - 4096) else none

unfoldable pub low_choice : Physical → Option ℕ
low_choice s =
    if ltb s.max_address high_paddress
    then first_free s.bitmap 1 (pages s - 1)
    else first_free s.bitmap 1 4095

pub log-IsValid : {s : Physical} (c : Call) → IsValid s → IsValid (log c s)
log-IsValid c v = record {
  sized = v.sized;
  bytes = v.bytes;
  covers = v.covers;
  some_memory = v.some_memory;
  below_top = v.below_top;
}

-- The state after a grant, its lock released.
unfoldable pub unlocked : Physical → Option ℕ → Result Physical ℕ
unlocked s none = done null (log unlock_bitmap (log lock_bitmap s))
unlocked s (some p) = done (4096 * p) (log unlock_bitmap (log lock_bitmap (mark s p)))

module _ {s : Physical} (v : IsValid s) where
  pub page_alloc_high_lem : page_alloc_high s ≡ unlocked s (high_choice s)
  unfolding page_alloc_high high_choice unlocked grant mark
  page_alloc_high_lem = ground (
    arith,
    page_alloc_limit-grant (log-IsValid lock_bitmap v)
        (suc ((s.max_address - high_paddress) / 4096)) (pages s - 4096) 4096,
  )

  pub page_alloc_low_lem : page_alloc_low s ≡ unlocked s (low_choice s)
  unfolding page_alloc_low low_choice unlocked grant mark
  page_alloc_low_lem = ground (
    arith,
    page_alloc_limit-grant (log-IsValid lock_bitmap v) (suc ((s.max_address - 4096) / 4096))
        (pages s - 1) 1,
    page_alloc_limit-grant (log-IsValid lock_bitmap v) (suc ((high_paddress - 4096) / 4096)) 4095 1,
  )

-- How often the lock is held, by the log of the calls.
unfoldable pub held : List Call → ℕ
held [] = 0
held (lock_bitmap ∷ c) = suc (held c)
held (unlock_bitmap ∷ c) = held c - 1
held (init_bitmap_lock ∷ c) = 0
held (panic ∷ c) = held c

-- What a call of `physical_pageAlloc` may return, and the state that it leaves.
pub data Granted (s : Physical) (a : ℕ) (s' : Physical) : Type 0 where
  -- a free page, which lies in low memory only if no page of high memory is free
  page :
      (p : ℕ)
      → a ≡ 4096 * p
      → 1 ≤ p
      → p < pages s
      → taken s.bitmap p ≡ false
      → (p < 4096 → (q : ℕ) → 4096 ≤ q → q < pages s → taken s.bitmap q ≡ true)
      → ((q : ℕ) → taken s'.bitmap q ≡ (if p == q then true else taken s.bitmap q))
      → Granted s a s'
  -- NULL after a panic: only page 0 may still be free
  exhausted :
      a ≡ null
      → ((q : ℕ) → 1 ≤ q → q < pages s → taken s.bitmap q ≡ true)
      → s'.bitmap ≡ s.bitmap
      → s'.calls ≡ panic ∷ unlock_bitmap ∷ lock_bitmap ∷ unlock_bitmap ∷ lock_bitmap ∷ s.calls
      → Granted s a s'

module _ {s : Physical} (v : IsValid s) where
  high_all_taken : high_choice s ≡ none → (q : ℕ) → 4096 ≤ q → q < pages s → taken s.bitmap q ≡ true
  unfolding high_choice
  high_all_taken e q lo hi =
      ground (arith, first_free-none s.bitmap (pages s - 4096) 4096 (ground arith) q)

  low_all_taken :
      low_choice s ≡ none → (q : ℕ) → 1 ≤ q → q < 4096 → q < pages s → taken s.bitmap q ≡ true
  unfolding low_choice
  low_all_taken e q lo hi top = elim (Bool-cases (ltb s.max_address high_paddress)) [
    | inl t ↦ first_free-none s.bitmap (pages s - 1) 1 (rw t at e) q lo (omega arith)
    | inr t ↦ first_free-none s.bitmap 4095 1 (rw t at e) q lo (omega arith)
  ]

  high_page :
      {p : ℕ} → high_choice s ≡ some p → (taken s.bitmap p ≡ false) × (4096 ≤ p) × (p < pages s)
  unfolding high_choice
  high_page {p} e = elim (Bool-cases (ltb high_paddress s.max_address)) [
    | inl t ↦
        let found = first_free-least s.bitmap (pages s - 4096) 4096 {r = p} (rw t at e) in
        (found.0, found.1, omega arith)
    | inr t ↦ ground arith
  ]

  low_page :
      {p : ℕ}
      → low_choice s ≡ some p
      → (taken s.bitmap p ≡ false) × (1 ≤ p) × (p < pages s) × (p < 4096)
  unfolding low_choice
  low_page {p} e = elim (Bool-cases (ltb s.max_address high_paddress)) [
    | inl t ↦
        let found = first_free-least s.bitmap (pages s - 1) 1 {r = p} (rw t at e) in
        (found.0, found.1, ground arith, ground arith)
    | inr t ↦
        let found = first_free-least s.bitmap 4095 1 {r = p} (rw t at e) in
        (found.0, found.1, ground arith, ground arith)
  ]

  page_of :
      {p : ℕ} (c : List Call)
      → taken s.bitmap p ≡ false
      → 1 ≤ p
      → p < pages s
      → (p < 4096 → (q : ℕ) → 4096 ≤ q → q < pages s → taken s.bitmap q ≡ true)
      → Granted s (4096 * p) (record (mark s p) { calls = c })
  page_of {p} c free lo hi high =
      page p refl lo hi free high (taken-mark v p (omega (arith, v.covers)))

  page_alloc-high : {p : ℕ} → 1 ≤ p → high_choice s ≡ some p → page_alloc s ≡ unlocked s (some p)
  unfolding page_alloc unlocked
  page_alloc-high {p} pos e = rw (page_alloc_high_lem v, e) (ground arith)

  page_alloc-low :
      {p : ℕ}
      → 1 ≤ p
      → high_choice s ≡ none
      → low_choice s ≡ some p
      → page_alloc s ≡ unlocked (log unlock_bitmap (log lock_bitmap s)) (some p)
  unfolding page_alloc unlocked low_choice
  page_alloc-low {p} pos e e' =
      rw (page_alloc_high_lem v, e)
        (ground (arith, page_alloc_low_lem (log-IsValid unlock_bitmap (log-IsValid lock_bitmap v))))

  page_alloc-none :
      high_choice s ≡ none
      → low_choice s ≡ none
      → page_alloc s
        ≡ done null (
            log panic (log unlock_bitmap (log lock_bitmap (log unlock_bitmap (log lock_bitmap s)))))
  unfolding page_alloc unlocked low_choice
  page_alloc-none e e' =
      rw (page_alloc_high_lem v, e)
        (ground (arith, page_alloc_low_lem (log-IsValid unlock_bitmap (log-IsValid lock_bitmap v))))

  -- On a valid state `physical_pageAlloc` comes to its end within its fuel and without leaving the
  -- bitmap. It returns a page as `Granted` says, or NULL after a panic if there is none, the state
  -- stays valid with the same end of memory, and every lock taken has been released.
  pub page_alloc-Granted :
      Returns
        (λ a s'.
          Granted s a s'
          × IsValid s'
          × (held s'.calls ≡ held s.calls)
          × (s'.max_address ≡ s.max_address))
        (page_alloc s)
  unfolding unlocked held mark
  page_alloc-Granted = elim (Option-cases (high_choice s)) [
    | inl no_high ↦ elim (Option-cases (low_choice s)) [
      | inl no_low ↦ Returns-of (page_alloc-none no_high no_low) (
        exhausted refl
            (λ q lo hi. elim (Bool-cases (ltb q 4096)) [
              | inl t ↦ low_all_taken no_low q lo (ltb→lt _ _ t) hi
              | inr t ↦ high_all_taken no_high q (ground arith) hi
            ])
            refl refl,
        log-IsValid _ (log-IsValid _ (log-IsValid _ (log-IsValid _ (log-IsValid _ v)))),
        omega arith,
        refl,
      )
      | inr (p, e) ↦
          let (free, lo, hi, _) = low_page e in
          Returns-of (page_alloc-low lo no_high e) (
            page_of _ free lo hi (λ _. high_all_taken no_high),
            log-IsValid _ (
                log-IsValid _
                  (mark-IsValid (log-IsValid _ (log-IsValid _ v)) p (omega (arith, v.covers)))),
            omega arith,
            refl,
          )
    ]
    | inr (p, e) ↦
        let (free, lo, hi) = high_page e in
        Returns-of (page_alloc-high (omega arith) e) (
          page_of _ free (omega arith) hi (λ small. absurd (omega arith)),
          log-IsValid _ (log-IsValid _ (mark-IsValid v p (omega (arith, v.covers)))),
          omega arith,
          refl,
        )
  ]
