-- ===== src/Heap/Splitting.antt =====
-- `mm_kmalloc` when it takes a block of the list.
use system_related_projects.Base.{
  ℕ, ◌+◌, ◌-◌, ◌≤◌, ◌<◌, ◌≡◌, ◌≢◌, refl, sym, ap, ◌∙◌, Bool, true, false, not, ◌&&◌, [], ◌∷◌, ◌==◌,
  leb, if◌then◌else◌, arith, Bool-cases, ==-refl, Option, some, ==_iff, ==-swap, or-left, or-right,
  inl, inr,
}
use system_related_projects.Heap.{heap_base, HeapItem, Heap, null, put, mapped, sizeof_item, w32}
use system_related_projects.Heap.Blocks.{Blocks, has, Chain, cons, Chain-frame, First, Chain-First}
use system_related_projects.Heap.Allocating.{fit}
use system_related_projects.Heap.Glue.{find_block}

-- Blocks end below the top, and no header lies inside a block.
pub record IsHeap (s : Heap) (bs : Blocks) : Type 0 where
  pub chain : Chain s heap_base bs
  pub in_range : s.heap_top < w32
  pub within :
      (a : ℕ) (i : HeapItem) → find_block a bs ≡ some i → a + sizeof_item + i.size ≤ s.heap_top
  pub apart :
      (a q : ℕ) (i : HeapItem)
      → find_block a bs ≡ some i
      → has q bs ≡ true
      → a < q
      → a + sizeof_item + i.size ≤ q

abbrev pub taken : ℕ → ℕ → ℕ → HeapItem
taken total size p = record { size = size; used = true; next = p + total }

abbrev pub remainder : ℕ → HeapItem → HeapItem
remainder total i = record i { size = i.size - total; used = false }

-- The list with the block at `new` cut in two: the taken part and a free remainder.
unfoldable pub split_at : ℕ → ℕ → ℕ → Blocks → Blocks
split_at total size new [] = []
split_at total size new ((p, i) ∷ bs) =
    if p == new
    then (p, taken total size p) ∷ (p + total, remainder total i) ∷ bs
    else (p, i) ∷ split_at total size new bs

pub other_block : (p q : ℕ) (bs : Blocks) → has q bs ≡ true → has p bs ≡ false → (q == p) ≡ false
other_block p q bs inside out = elim (Bool-cases (q == p)) [
  | inl t ↦ let same = ap (λ x. has x bs) ((==_iff q p).0 t) in absurd (ground arith)
  | inr t ↦ t
]

fit-has : (total : ℕ) (bs : Blocks) → fit total bs ≢ null → has (fit total bs) bs ≡ true
unfolding fit
fit-has total [] ne = absurd (ne refl)
fit-has total ((p, i) ∷ bs) ne = elim (Bool-cases (not i.used && leb total i.size)) [
  | inl t ↦ rw (t, ==-refl p)
  | inr t ↦ let later = fit-has total bs (λ e. ne (rw t e)) in ground arith
]

-- What `fit` picks is free and large enough.
pub record Picked (total new : ℕ) (bs : Blocks) : Type 0 where
  pub item : HeapItem
  pub finds : find_block new bs ≡ some item
  pub is_free : item.used ≡ false
  pub enough : total ≤ item.size

pub fit-Picked :
    (total : ℕ) {s : Heap} {p : ℕ} (bs : Blocks)
    → Chain s p bs
    → fit total bs ≢ null
    → Picked total (fit total bs) bs
unfolding find_block fit
fit-Picked total [] c ne = absurd (ne refl)
fit-Picked total ((p, i) ∷ bs) c ne =
    let n = Chain-First c in
    elim (Bool-cases (not i.used && leb total i.size)) [
      | inl t ↦ rw t (record {
        item = i;
        finds = rw (==-refl p);
        is_free = ground arith;
        enough = ground arith;
      })
      | inr t ↦
          let ne' : fit total bs ≢ null = λ e. ne (rw t e) in
          let x = fit-Picked total bs n.rest ne' in
          let inside = fit-has total bs ne' in
          let other : (fit total bs == p) ≡ false = other_block p _ bs inside n.fresh in
          rw t (record {
            item = x.item;
            finds = rw other x.finds;
            is_free = x.is_free;
            enough = x.enough;
          })
    ]

has-split_at :
    (total size new a : ℕ) (bs : Blocks)
    → has a bs ≡ false
    → a ≢ new + total
    → has a (split_at total size new bs) ≡ false
unfolding split_at
has-split_at total size new a [] out ne = refl
has-split_at total size new a ((p, i) ∷ bs) out ne =
    let later = has-split_at total size new a bs (or-right (a == p) _ out) ne in
    elim (Bool-cases (p == new)) [
      | inl t ↦ let same = (==_iff p new).0 t in ground arith
      | inr t ↦ rw t (ground arith)
    ]

abbrev pub split_items : ℕ → ℕ → ℕ → HeapItem → Heap → ℕ → HeapItem
split_items total size new i s =
    put (put s.items (new + total) (remainder total i)) new (taken total size new)

pub split_items-other :
    (total size new : ℕ) (k : HeapItem) (s : Heap) (a : ℕ)
    → (a == new) ≡ false
    → (a == (new + total)) ≡ false
    → split_items total size new k s a ≡ s.items a
split_items-other total size new k s a e f = rw (e, f)

pub found_here :
    (c : Bool) (i k : HeapItem) (o : Option HeapItem)
    → (if c then some i else o) ≡ some k
    → c ≡ true
    → i ≡ k
found_here true i k o h t = cc
found_here false i k o h t = absurd (ground arith)

pub found_later :
    (c : Bool) (i : HeapItem) (o r : Option HeapItem)
    → (if c then some i else o) ≡ r
    → c ≡ false
    → o ≡ r
found_later c i o r h f = ground arith

pub ==-same : (p q : ℕ) → (p == q) ≡ true → (q == p) ≡ true
==-same p q h = ground arith

module _ (total size new : ℕ) (k : HeapItem) {s t : Heap} (pos : 0 < total)
    (m : mapped s (new + total) ≡ true) (top : t.heap_top ≡ s.heap_top)
    (items : (a : ℕ) → t.items a ≡ split_items total size new k s a) where
  Chain-split_head :
      {p : ℕ} {i : HeapItem} {bs : Blocks}
      → First s p p i bs
      → p ≡ new
      → i ≡ k
      → has (new + total) bs ≡ false
      → Chain t p ((p, taken total size p) ∷ (p + total, remainder total i) ∷ bs)
  Chain-split_head {p} {i} {bs} n same is_k out =
      let at_new : t.items p ≡ taken total size p = items p ∙ rw (same, ==-refl new) in
      let over : (new + total == new) ≡ false = ground arith in
      let at_rest : t.items (p + total) ≡ remainder total i =
        items (p + total) ∙ rw (same, over, ==-refl (new + total), is_k) in
      cons n.ne_null (rw top n.is_mapped) at_new (ground (arith, n.fresh)) (
        cons (omega arith) (rw (top, same) m) at_rest (rw same out) (
          Chain-frame n.rest top λ a inside.
            items a
            ∙ split_items-other total size new k s a
                (rw (sym same) (other_block p a bs inside n.fresh))
                (other_block (new + total) a bs inside out)))

  pub Chain-split_at :
      {p : ℕ} (bs : Blocks)
      → Chain s p bs
      → find_block new bs ≡ some k
      → has (new + total) bs ≡ false
      → Chain t p (split_at total size new bs)
  unfolding split_at find_block
  Chain-split_at [] c h out = absurd (ground arith)
  Chain-split_at ((p, i) ∷ bs) c h out =
      let n = Chain-First c in
      rw n.start (elim (Bool-cases (p == new)) [
        | inl t ↦
            let is_k = found_here (new == p) i k _ h (==-same p new t) in
            rw t (
              Chain-split_head
                (record {
                  start = refl;
                  ne_null = n.ne_null;
                  is_mapped = n.is_mapped;
                  holds = n.holds;
                  fresh = n.fresh;
                  rest = n.rest;
                })
                ((==_iff p new).0 t) is_k (or-right (new + total == p) _ out))
        | inr t ↦
            let apart : (p == (new + total)) ≡ false =
              ==-swap (new + total) p (or-left (new + total == p) _ out) in
            rw t (
              cons n.ne_null (rw top n.is_mapped)
                (items p ∙ split_items-other total size new k s p t apart ∙ n.holds)
                (has-split_at total size new p bs n.fresh (ground arith))
                (Chain-split_at bs n.rest (found_later (new == p) i _ _ h (==-swap p new t))
                  (or-right (new + total == p) _ out)))
      ])
