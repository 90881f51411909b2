-- ===== src/Heap/Glue.antt =====
-- What a free does to the list of blocks.
use system_related_projects.Base.{
  ℕ, suc, ◌+◌, ◌%◌, ◌≡◌, ◌≢◌, refl, sym, ap, ◌∙◌, Bool, true, false, not, ◌&&◌, [], ◌∷◌, ◌==◌,
  if◌then◌else◌, length, arith, Bool-cases, Option, some, none, inl, inr,
}
use system_related_projects.Heap.{HeapItem, sizeof_item, w32}
use system_related_projects.Heap.Coalesce.{merge, glue}
use system_related_projects.Heap.Blocks.{Blocks, has}

abbrev pub released : HeapItem → HeapItem
released i = record i { used = false }

-- The blocks with that at `item` free.
unfoldable pub freed : ℕ → Blocks → Blocks
freed item [] = []
freed item ((p, i) ∷ bs) = (p, if p == item then released i else i) ∷ freed item bs

abbrev pub glue_all : Blocks → Blocks
glue_all [] = []
glue_all ((p, i) ∷ bs) = glue p i bs

pub length-freed : (item : ℕ) (bs : Blocks) → length (freed item bs) ≡ length bs
unfolding freed
length-freed item [] = refl
length-freed item (b ∷ bs) = ap suc (length-freed item bs)

pub has-freed : (a item : ℕ) (bs : Blocks) → has a (freed item bs) ≡ has a bs
unfolding freed
has-freed a item [] = refl
has-freed a item ((p, i) ∷ bs) = rw (has-freed a item bs)

-- No two neighbours are free.
unfoldable pub compact : Blocks → Bool
compact [] = true
compact ((p, i) ∷ []) = true
compact ((p, i) ∷ (q, j) ∷ bs) = not (not i.used && not j.used) && compact ((q, j) ∷ bs)

-- The bytes of the blocks with their headers.
unfoldable pub extent : Blocks → ℕ
extent [] = 0
extent ((p, i) ∷ bs) = sizeof_item + i.size + extent bs

unfoldable pub find_block : ℕ → Blocks → Option HeapItem
find_block a [] = none
find_block a ((p, i) ∷ bs) = if a == p then some i else find_block a bs

-- The first block keeps its address and its use.
record Headed (p : ℕ) (u : Bool) (bs : Blocks) : Type 0 where
  pub first : HeapItem
  pub rest : Blocks
  pub is_first : bs ≡ (p, first) ∷ rest
  pub keeps : first.used ≡ u

glue-Headed : (p : ℕ) (i : HeapItem) (bs : Blocks) → Headed p i.used (glue p i bs)
unfolding glue
glue-Headed p i [] = record { first = i; rest = []; is_first = refl; keeps = refl }
glue-Headed p i ((q, j) ∷ bs) = elim (Bool-cases (not i.used && not j.used)) [
  | inl t ↦ rw t (glue-Headed p (merge i j) bs)
  | inr t ↦ rw t (record { first = i; rest = glue q j bs; is_first = refl; keeps = refl })
]

compact-cons :
    (p q : ℕ) (i : HeapItem) (u : Bool) (bs : Blocks)
    → Headed q u bs
    → (not i.used && not u) ≡ false
    → compact bs ≡ true
    → compact ((p, i) ∷ bs) ≡ true
unfolding compact
compact-cons p q i u bs h t c = rw (h.is_first, h.keeps, t) (ap compact (sym h.is_first) ∙ c)

pub compact-glue : (p : ℕ) (i : HeapItem) (bs : Blocks) → compact (glue p i bs) ≡ true
unfolding glue compact
compact-glue p i [] = refl
compact-glue p i ((q, j) ∷ bs) = elim (Bool-cases (not i.used && not j.used)) [
  | inl t ↦ rw t (compact-glue p (merge i j) bs)
  | inr t ↦
      rw t (compact-cons p q i j.used (glue q j bs) (glue-Headed q j bs) t (compact-glue q j bs))
]

pub extent-glue :
    (p : ℕ) (i : HeapItem) (bs : Blocks) → extent (glue p i bs) % w32 ≡ extent ((p, i) ∷ bs) % w32
unfolding glue extent
extent-glue p i [] = refl
extent-glue p i ((q, j) ∷ bs) = elim (Bool-cases (not i.used && not j.used)) [
  | inl t ↦ rw t (extent-glue p (merge i j) bs ∙ omega arith)
  | inr t ↦ let later = extent-glue q j bs in rw t (omega arith)
]

unused-passed :
    (c : Bool) (i k : HeapItem) (o : Option HeapItem)
    → (if c then some i else o) ≡ some k
    → i.used ≡ false
    → k.used ≡ true
    → (c ≡ false) × (o ≡ some k)
unused-passed true i k o h f u = absurd (ground arith)
unused-passed false i k o h f u = (refl, h)

find_block-tail :
    (c : Bool) (i k : HeapItem) (o r : Option HeapItem)
    → (if c then some i else o) ≡ some k
    → (o ≡ some k → r ≡ some k)
    → (if c then some i else r) ≡ some k
find_block-tail true i k o r h f = h
find_block-tail false i k o r h f = f h

pub find_block-glue :
    (a p : ℕ) (i k : HeapItem) (bs : Blocks)
    → find_block a ((p, i) ∷ bs) ≡ some k
    → k.used ≡ true
    → find_block a (glue p i bs) ≡ some k
unfolding glue find_block
find_block-glue a p i k [] h u = h
find_block-glue a p i k ((q, j) ∷ bs) h u = elim (Bool-cases (not i.used && not j.used)) [
  | inl t ↦
      let at_p = unused-passed (a == p) i k _ h (ground arith) u in
      let at_q = unused-passed (a == q) j k _ at_p.1 (ground arith) u in
      rw t (find_block-glue a p (merge i j) k bs (rw at_p.0 at_q.1) u)
  | inr t ↦ rw t (find_block-tail (a == p) i k _ _ h λ o. find_block-glue a q j k bs o u)
]

pub find_block-freed :
    (a item : ℕ) (bs : Blocks) → a ≢ item → find_block a (freed item bs) ≡ find_block a bs
unfolding find_block freed
find_block-freed a item [] ne = refl
find_block-freed a item ((p, i) ∷ bs) ne = elim (Bool-cases (a == p)) [
  | inl t ↦ ground (arith, find_block-freed a item bs ne)
  | inr t ↦ rw (t, find_block-freed a item bs ne)
]

pub extent-freed : (item : ℕ) (bs : Blocks) → extent (freed item bs) ≡ extent bs
unfolding extent freed
extent-freed item [] = refl
extent-freed item ((p, i) ∷ bs) = elim (Bool-cases (p == item)) [
  | inl t ↦ rw (t, extent-freed item bs)
  | inr t ↦ rw (t, extent-freed item bs)
]

pub compact-glue_all : (bs : Blocks) → compact (glue_all bs) ≡ true
unfolding compact
compact-glue_all [] = refl
compact-glue_all ((p, i) ∷ bs) = compact-glue p i bs

pub extent-glue_all : (bs : Blocks) → extent (glue_all bs) % w32 ≡ extent bs % w32
extent-glue_all [] = refl
extent-glue_all ((p, i) ∷ bs) = extent-glue p i bs

pub find_block-glue_all :
    (a : ℕ) (k : HeapItem) (bs : Blocks)
    → find_block a bs ≡ some k
    → k.used ≡ true
    → find_block a (glue_all bs) ≡ some k
find_block-glue_all a k [] h u = h
find_block-glue_all a k ((p, i) ∷ bs) h u = find_block-glue a p i k bs h u
