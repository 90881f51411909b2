-- ===== src/Physical/Search.antt =====
-- The linear search of `physical_pageAllocLimit` against a search through page numbers.
use system_related_projects.Base.{
  ℕ, zero, suc, ◌+◌, ◌*◌, ◌≤◌, ◌<◌, ◌≡◌, true, false, Option, none, some, List, inl, inr, arith,
  Bool-cases, if◌then◌else◌,
}
use system_related_projects.Base.Result.{Result, done}
use system_related_projects.Physical.{Physical, null, page_alloc_limit}
use system_related_projects.Physical.Bitmap.{
  taken, IsValid, mark, is_page_free_lem, page_alloc_address_lem,
}

-- The first free page among the `n` pages from `p` on.
unfoldable pub first_free : List ℕ → ℕ → ℕ → Option ℕ
first_free b p zero = none
first_free b p (suc n) = if taken b p then first_free b (p + 1) n else some p

-- Handing out that page, or NULL.
unfoldable pub grant : Physical → Option ℕ → Result Physical ℕ
grant s none = done null s
grant s (some p) = done (4096 * p) (mark s p)

module _ {s : Physical} (v : IsValid s) where
  -- With rounds enough, the search through addresses is the search through page numbers.
  pub page_alloc_limit-grant :
      (f n p : ℕ)
      → 4096 * (p + n) ≤ s.max_address
      → n < f
      → page_alloc_limit f (4096 * p) (4096 * (p + n)) s ≡ grant s (first_free s.bitmap p n)
  unfolding page_alloc_limit first_free grant
  page_alloc_limit-grant zero n p top fuel = absurd (omega arith)
  page_alloc_limit-grant (suc f) zero p top fuel = ground arith
  page_alloc_limit-grant (suc f) (suc n) p top fuel = ground (
    arith,
    is_page_free_lem v (4096 * p) (omega arith),
    page_alloc_address_lem v (4096 * p) (omega arith),
    page_alloc_limit-grant f n (p + 1) (omega arith) (omega arith),
  )

-- What the search finds is the lowest free page of the range.
pub first_free-least :
    (b : List ℕ) (n p : ℕ) {r : ℕ}
    → first_free b p n ≡ some r
    → (taken b r ≡ false) × (p ≤ r) × (r < p + n) × ((q : ℕ) → p ≤ q → q < r → taken b q ≡ true)
unfolding first_free
first_free-least b zero p e = cc
first_free-least b (suc n) p {r} e = elim (Bool-cases (taken b p)) [
  | inl t ↦
      let (free, lo, hi, least) = first_free-least b n (p + 1) {r = r} (ground arith) in
      (free, omega arith, omega arith, λ q a b. ground (arith, least q))
  | inr t ↦ ground arith
]

pub first_free-none :
    (b : List ℕ) (n p : ℕ)
    → first_free b p n ≡ none
    → (q : ℕ) → p ≤ q
    → q < p + n
    → taken b q ≡ true
unfolding first_free
first_free-none b zero p e q lo hi = absurd (omega arith)
first_free-none b (suc n) p e q lo hi = ground (arith, first_free-none b n (p + 1) (ground arith) q)
