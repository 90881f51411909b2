-- ===== src/Heap/Keeping.antt =====
-- What `mm_kmalloc` keeps true of the heap when it takes a block of the list.
use system_related_projects.Base.{
  ◌⊎◌, subst, ℕ, ◌+◌, ◌≤◌, ◌<◌, ◌≡◌, ◌≢◌, sym, ap, ◌∙◌, true, false, [], ◌∷◌, ◌==◌, if◌then◌else◌,
  arith, Bool-cases, Option, some, ==_iff, ==-swap, or-left, or-right, inl, inr,
}
use system_related_projects.Heap.{HeapItem, Heap, mapped, sizeof_item}
use system_related_projects.Heap.Blocks.{Blocks, has, Chain, nil, cons}
use system_related_projects.Heap.Glue.{find_block}
use system_related_projects.Heap.Splitting.{
  IsHeap, taken, remainder, split_at, split_items, Chain-split_at, found_here, found_later, ==-same,
}

module _ (total size new : ℕ) (k : HeapItem) where
  -- What is found in the list that is cut.
  find_split : ℕ → Option HeapItem → Option HeapItem
  find_split a o =
      if a == new
      then some (taken total size new)
      else (if a == (new + total) then some (remainder total k) else o)

  find_split-cons :
      (a p : ℕ) (i : HeapItem) (o : Option HeapItem)
      → (p == new) ≡ false
      → (new + total == p) ≡ false
      → (if a == p then some i else find_split a o) ≡ find_split a (if a == p then some i else o)
  unfolding find_split
  find_split-cons a p i o e f = elim (Bool-cases (a == p)) [
    | inl t ↦
        let same = (==_iff a p).0 t in
        let no_new : (a == new) ≡ false = ground arith in
        let no_rest : (a == (new + total)) ≡ false = ground arith in rw (t, no_new, no_rest)
    | inr t ↦ rw t
  ]

  find_block-split_at :
      (a : ℕ) (bs : Blocks)
      → find_block new bs ≡ some k
      → has (new + total) bs ≡ false
      → find_block a (split_at total size new bs) ≡ find_split a (find_block a bs)
  unfolding split_at find_block find_split
  find_block-split_at a [] h out = absurd (ground arith)
  find_block-split_at a ((p, i) ∷ bs) h out = elim (Bool-cases (p == new)) [
    | inl t ↦
        let is_k = found_here (new == p) i k _ h (==-same p new t) in
        let same = (==_iff p new).0 t in
        elim (Bool-cases (a == new)) [
          | inl e ↦ rw (t, is_k, same, e)
          | inr e ↦ rw (t, is_k, same, e)
        ]
    | inr t ↦
        let later =
          find_block-split_at a bs (found_later (new == p) i _ _ h (==-swap p new t))
            (or-right (new + total == p) _ out) in
        let apart = or-left (new + total == p) _ out in
        rw (t, later) (find_split-cons a p i (find_block a bs) t apart)
  ]

has_of_split_at :
    (total size new a : ℕ) (bs : Blocks)
    → has a (split_at total size new bs) ≡ true
    → a ≢ new + total
    → has a bs ≡ true
unfolding split_at
has_of_split_at total size new a [] inside ne = inside
has_of_split_at total size new a ((p, i) ∷ bs) inside ne = elim (Bool-cases (p == new)) [
  | inl t ↦ ground arith
  | inr t ↦ let later = has_of_split_at total size new a bs in ground arith
]

-- What is found in the cut list is the taken part, the remainder or another block.
data Piece (total size new : ℕ) (k : HeapItem) (bs : Blocks) : ℕ → HeapItem → Type 0 where
  front : Piece total size new k bs new (taken total size new)
  back : Piece total size new k bs (new + total) (remainder total k)
  other :
      {a : ℕ} {i : HeapItem} → a ≢ new → find_block a bs ≡ some i → Piece total size new k bs a i

find_split-Piece :
    (total size new : ℕ) (k : HeapItem) (bs : Blocks) (a : ℕ) (i : HeapItem)
    → find_split total size new k a (find_block a bs) ≡ some i
    → Piece total size new k bs a i
unfolding find_split
find_split-Piece total size new k bs a i e = elim (Bool-cases (a == new)) [
  | inl t ↦
      let is_k = found_here (a == new) (taken total size new) i _ e t in
      subst (λ x. Piece total size new k bs x i) (sym ((==_iff a new).0 t))
        (subst (λ x. Piece total size new k bs new x) is_k front)
  | inr t ↦
      let e' = found_later (a == new) (taken total size new) _ _ e t in
      elim (Bool-cases (a == (new + total))) [
        | inl u ↦
            let is_k = found_here (a == (new + total)) (remainder total k) i _ e' u in
            subst (λ x. Piece total size new k bs x i) (sym ((==_iff a (new + total)).0 u))
              (subst (λ x. Piece total size new k bs (new + total) x) is_k back)
        | inr u ↦
            other (ground arith) (found_later (a == (new + total)) (remainder total k) _ _ e' u)
      ]
]

pub has_of_find_block :
    (a : ℕ) (i : HeapItem) (bs : Blocks) → find_block a bs ≡ some i → has a bs ≡ true
unfolding find_block
has_of_find_block a i [] e = absurd (ground arith)
has_of_find_block a i ((p, j) ∷ bs) e = elim (Bool-cases (a == p)) [
  | inl t ↦ rw t
  | inr t ↦ rw t (has_of_find_block a i bs (found_later (a == p) j _ _ e t))
]

below_or_not : (a b : ℕ) → (a < b) ⊎ (b ≤ a)
below_or_not a b = ground arith

pub listed-mapped :
    {s : Heap} {p : ℕ} {bs : Blocks} (a : ℕ) → Chain s p bs → has a bs ≡ true → mapped s a ≡ true
listed-mapped a nil inside = absurd (ground arith)
listed-mapped {s} a (cons {p} ne m e fresh c) inside = elim (Bool-cases (a == p)) [
  | inl t ↦ rw ((==_iff a p).0 t) m
  | inr t ↦ listed-mapped a c (ground arith)
]

pub listed-items :
    {s : Heap} {p : ℕ} {bs : Blocks} (a : ℕ) (i : HeapItem)
    → Chain s p bs
    → find_block a bs ≡ some i
    → s.items a ≡ i
unfolding find_block
listed-items a i nil finds = absurd (ground arith)
listed-items {s} a i (cons {p} {i = j} ne m e fresh c) finds = elim (Bool-cases (a == p)) [
  | inl t ↦ ap s.items ((==_iff a p).0 t) ∙ e ∙ found_here (a == p) j i _ finds t
  | inr t ↦ listed-items a i c (found_later (a == p) j _ _ finds t)
]

split_listed :
    (total size new q : ℕ) (bs : Blocks)
    → has q (split_at total size new bs) ≡ true
    → (q ≡ new + total) ⊎ (has q bs ≡ true)
split_listed total size new q bs inside = elim (Bool-cases (q == (new + total))) [
  | inl t ↦ inl ((==_iff q (new + total)).0 t)
  | inr t ↦ inr (has_of_split_at total size new q bs inside (ground arith))
]

-- The blocks stay apart and below the top when one of them is cut.
module _ (total size new : ℕ) (k : HeapItem) {s : Heap} (bs : Blocks)
    (room : size + sizeof_item ≤ total) (h : IsHeap s bs) (finds : find_block new bs ≡ some k)
    (enough : total ≤ k.size) where
  pub unlisted : has (new + total) bs ≡ false
  unlisted = elim (Bool-cases (has (new + total) bs)) [
    | inl e ↦ let far = h.apart new (new + total) k finds e (omega arith) in absurd (omega arith)
    | inr e ↦ e
  ]

  within-Piece :
      (a : ℕ) (i : HeapItem) → Piece total size new k bs a i → a + sizeof_item + i.size ≤ s.heap_top
  within-Piece a i front = let low = h.within new k finds in omega arith
  within-Piece a i back = let low = h.within new k finds in omega arith
  within-Piece a i (other ne e) = h.within a i e

  apart-Piece :
      (a q : ℕ) (i : HeapItem)
      → Piece total size new k bs a i
      → (q ≡ new + total) ⊎ (has q bs ≡ true)
      → a < q
      → a + sizeof_item + i.size ≤ q
  apart-Piece a q i front (inl e) lt = omega arith
  apart-Piece a q i front (inr b) lt = let far = h.apart new q k finds b lt in omega arith
  apart-Piece a q i back (inl e) lt = absurd (omega arith)
  apart-Piece a q i back (inr b) lt = let far = h.apart new q k finds b (omega arith) in omega arith
  apart-Piece a q i (other ne e) (inr b) lt = h.apart a q i e b lt
  apart-Piece a q i (other ne e) (inl is_rest) lt =
      let listed = has_of_find_block a i bs e in
      let new_listed = has_of_find_block new k bs finds in
      elim (below_or_not a new) [
        | inl before ↦ let far = h.apart a new i e new_listed (omega arith) in omega arith
        | inr after ↦ let far = h.apart new a k finds listed (omega arith) in absurd (omega arith)
      ]

  pub IsHeap-split_at :
      {t : Heap}
      → t.heap_top ≡ s.heap_top
      → ((a : ℕ) → t.items a ≡ split_items total size new k s a)
      → IsHeap t (split_at total size new bs)
  IsHeap-split_at {t} top items =
      let low = h.within new k finds in
      let base = listed-mapped new h.chain (has_of_find_block new k bs finds) in
      let m : mapped s (new + total) ≡ true = ground arith in
      let pieces : (a : ℕ) (i : HeapItem)
          → find_block a (split_at total size new bs) ≡ some i
          → Piece total size new k bs a i =
        λ a i e.
          find_split-Piece total size new k bs a i
            (sym (find_block-split_at total size new k a bs finds unlisted) ∙ e) in
      record {
        chain = Chain-split_at total size new k (omega arith) m top items bs h.chain finds unlisted;
        in_range = rw top h.in_range;
        within = λ a i e. rw top (within-Piece a i (pieces a i e));
        apart = λ a q i e inside.
            apart-Piece a q i (pieces a i e) (split_listed total size new q bs inside);
      }
