-- ===== src/Heap/Coalesce.antt =====
-- The merging of free neighbours against a function on the list of blocks.
use system_related_projects.Base.{
  ℕ, zero, suc, ◌+◌, ◌%◌, ◌<◌, ◌≡◌, ◌≢◌, refl, ap, ◌∙◌, true, false, not, ◌&&◌, [], ◌∷◌, ◌==◌,
  if◌then◌else◌, length, arith, Bool-cases, ==-false, ==-refl, ==_iff, or-left, or-right, inl, inr,
}
use system_related_projects.Base.Result.{done, Returns, Returns-of, Returns-mono}
use system_related_projects.Heap.{HeapItem, Heap, null, put, mapped, sizeof_item, w32, coalesce}
use system_related_projects.Heap.Blocks.{
  Blocks, has, Chain, nil, cons, load_lem, store_lem, Chain-frame, Chain-nil, First, Chain-First,
}

-- A free block with the free block behind it.
abbrev pub merge : HeapItem → HeapItem → HeapItem
merge i j = record i { size = (i.size + (sizeof_item + j.size)) % w32; next = j.next }

-- The blocks `(p, i) ∷ bs` with all free neighbours merged.
unfoldable pub glue : ℕ → HeapItem → Blocks → Blocks
glue p i [] = (p, i) ∷ []
glue p i ((q, j) ∷ bs) =
    if not i.used && not j.used then glue p (merge i j) bs else (p, i) ∷ glue q j bs

-- Every header outside `bs` is the same in both states.
abbrev pub SameOutside : Blocks → Heap → Heap → Type 0
SameOutside bs s t = (a : ℕ) → has a bs ≡ false → t.items a ≡ s.items a

pub record Glued (s : Heap) (p : ℕ) (i : HeapItem) (bs : Blocks) (t : Heap) : Type 0 where
  pub chain : Chain t p (glue p i bs)
  pub top : t.heap_top ≡ s.heap_top
  pub calls : t.calls ≡ s.calls
  pub outside : SameOutside ((p, i) ∷ bs) s t

coalesce-null : (f : ℕ) (s : Heap) → 0 < f → coalesce f null s ≡ done tt s
unfolding coalesce
coalesce-null zero s h = elim h [ ]
coalesce-null (suc f) s h = refl

module _ (f : ℕ) (s : Heap) {p : ℕ} (i : HeapItem) (ne : p ≢ null) (m : mapped s p ≡ true)
    (e : s.items p ≡ i) where
  coalesce-last : i.next ≡ null → 0 < f → coalesce (suc f) p s ≡ done tt s
  unfolding coalesce
  coalesce-last end h =
      rw (==-false ne, load_lem s m e)
        (elim (Bool-cases i.used) [
          | inl t ↦ rw (t, end) (coalesce-null f s h)
          | inr t ↦ rw (t, end) (coalesce-null f s h)
        ])

  module _ {q : ℕ} (j : HeapItem) {bs : Blocks} (n : First s i.next q j bs) where
    coalesce-on : (not i.used && not j.used) ≡ false → coalesce (suc f) p s ≡ coalesce f q s
    unfolding coalesce
    coalesce-on t =
        ground (arith, load_lem s m e, load_lem s n.is_mapped n.holds, n.start, n.ne_null)

    coalesce-merge :
        (not i.used && not j.used) ≡ true
        → coalesce (suc f) p s ≡ coalesce f p (record s { items = put s.items p (merge i j) })
    unfolding coalesce
    coalesce-merge t = ground (
      arith,
      load_lem s m e,
      load_lem s n.is_mapped n.holds,
      n.start,
      n.ne_null,
      store_lem s p (merge i j) m,
    )

put-other :
    (items : ℕ → HeapItem) (p : ℕ) (i : HeapItem) (bs : Blocks)
    → has p bs ≡ false
    → (a : ℕ) → has a bs ≡ true
    → put items p i a ≡ items a
put-other items p i bs out a h = elim (Bool-cases (a == p)) [
  | inl t ↦ let same = ap (λ x. has x bs) ((==_iff a p).0 t) in absurd (ground arith)
  | inr t ↦ rw t
]

pub has-glue :
    (a p : ℕ) (i : HeapItem) (bs : Blocks)
    → has a ((p, i) ∷ bs) ≡ false
    → has a (glue p i bs) ≡ false
unfolding glue
has-glue a p i [] h = h
has-glue a p i ((q, j) ∷ bs) h = elim (Bool-cases (not i.used && not j.used)) [
  | inl t ↦ rw t (has-glue a p (merge i j) bs (ground arith))
  | inr t ↦ let later = has-glue a q j bs (ground arith) in rw t (ground arith)
]

pub glue-merge :
    (p q : ℕ) (i j : HeapItem) (bs : Blocks)
    → (not i.used && not j.used) ≡ true
    → glue p i ((q, j) ∷ bs) ≡ glue p (merge i j) bs
unfolding glue
glue-merge p q i j bs t = rw t

pub glue-keep :
    (p q : ℕ) (i j : HeapItem) (bs : Blocks)
    → (not i.used && not j.used) ≡ false
    → glue p i ((q, j) ∷ bs) ≡ (p, i) ∷ glue q j bs
unfolding glue
glue-keep p q i j bs t = rw t

Glued-merge :
    (s : Heap) {p q : ℕ} {i j : HeapItem} {bs : Blocks} {u : Heap}
    → p ≢ null
    → (not i.used && not j.used) ≡ true
    → Glued (record s { items = put s.items p (merge i j) }) p (merge i j) bs u
    → Glued s p i ((q, j) ∷ bs) u
Glued-merge s {p} {q} {i} {j} {bs} ne t g = record {
  chain = rw (glue-merge p q i j bs t) g.chain;
  top = g.top;
  calls = g.calls;
  outside = λ a o. g.outside a (ground arith) ∙ rw (or-left (a == p) _ o);
}

Glued-keep :
    (s : Heap) {p q : ℕ} {i j : HeapItem} {bs : Blocks} {u : Heap}
    → p ≢ null
    → mapped s p ≡ true
    → s.items p ≡ i
    → (not i.used && not j.used) ≡ false
    → i.next ≡ q
    → has p ((q, j) ∷ bs) ≡ false
    → Glued s q j bs u
    → Glued s p i ((q, j) ∷ bs) u
Glued-keep s {p} {q} {i} {j} {bs} ne m e t start out g = record {
  chain =
      rw (glue-keep p q i j bs t)
        (cons ne (rw g.top m) (g.outside p out ∙ e) (has-glue p q j bs out) (rw start g.chain));
  top = g.top;
  calls = g.calls;
  outside = λ a o. g.outside a (ground arith);
}

pub coalesce-Glued :
    (f : ℕ) (s : Heap) {p : ℕ} (i : HeapItem) (bs : Blocks)
    → p ≢ null
    → mapped s p ≡ true
    → s.items p ≡ i
    → has p bs ≡ false
    → Chain s i.next bs
    → length bs + 1 < f
    → Returns (λ _ t. Glued s p i bs t) (coalesce f p s)
unfolding glue
coalesce-Glued zero s i bs ne m e out c fuel = absurd (omega arith)
coalesce-Glued (suc f) s i [] ne m e out c fuel =
    let end = Chain-nil c in
    Returns-of (coalesce-last f s i ne m e end (omega arith)) (record {
      chain = cons ne m e refl (rw end nil);
      top = refl;
      calls = refl;
      outside = λ a o. refl;
    })
coalesce-Glued (suc f) s {p} i ((q, j) ∷ bs) ne m e out c fuel =
    let n = Chain-First c in
    elim (Bool-cases (not i.used && not j.used)) [
      | inl t ↦
          let merged = record s { items = put s.items p (merge i j) } in
          let far = or-right (p == q) (has p bs) out in
          (rw (coalesce-merge f s i ne m e j n t) (
            Returns-mono
              (coalesce-Glued f merged (merge i j) bs ne m (rw ==-refl) far
                (Chain-frame n.rest refl (put-other s.items p (merge i j) bs far)) (omega arith))
              λ _ u g. Glued-merge s ne t g))
      | inr t ↦ rw (coalesce-on f s i ne m e j n t) (
          Returns-mono
            (coalesce-Glued f s j bs n.ne_null n.is_mapped n.holds n.fresh n.rest (omega arith))
            λ _ u g. Glued-keep s ne m e t n.start out g)
    ]
