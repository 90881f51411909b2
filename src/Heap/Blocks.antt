-- ===== src/Heap/Blocks.antt =====
-- The heap's list of blocks as a list.
use system_related_projects.Base.{
  ℕ, ◌≤◌, ◌≡◌, ◌≢◌, refl, ◌∙◌, Bool, true, false, ◌||◌, List, [], ◌∷◌, ◌==◌, arith,
}
use system_related_projects.Base.Result.{done}
use system_related_projects.Heap.{HeapItem, Heap, null, load, store, put, mapped}

-- Each block with the address of its header.
abbrev pub Blocks : Type 0
Blocks = List (ℕ × HeapItem)

abbrev pub has : ℕ → Blocks → Bool
has a [] = false
has a ((p, _) ∷ bs) = (a == p) || has a bs

-- From `p` the links lead through the distinct, mapped headers `bs` to NULL.
pub data Chain (s : Heap) : ℕ → Blocks → Type 0 where
  nil : Chain s null []
  cons :
      {p : ℕ} {i : HeapItem} {bs : Blocks}
      → p ≢ null
      → mapped s p ≡ true
      → s.items p ≡ i
      → has p bs ≡ false
      → Chain s i.next bs
      → Chain s p ((p, i) ∷ bs)

pub load_lem :
    (s : Heap) {p : ℕ} {i : HeapItem} → mapped s p ≡ true → s.items p ≡ i → load p s ≡ done i s
unfolding load
load_lem s m e = rw (m, e)

pub store_lem :
    (s : Heap) (p : ℕ) (i : HeapItem)
    → mapped s p ≡ true
    → store p i s ≡ done tt (record s { items = put s.items p i })
unfolding store
store_lem s p i m = rw m

-- A change of the headers that spares those of a chain leaves the chain.
pub Chain-frame :
    {s t : Heap} {p : ℕ} {bs : Blocks}
    → Chain s p bs
    → t.heap_top ≡ s.heap_top
    → ((a : ℕ) → has a bs ≡ true → t.items a ≡ s.items a)
    → Chain t p bs
Chain-frame nil top same = nil
Chain-frame (cons {p} ne m e fresh c) top same =
    cons ne (rw top m) (same p (ground arith) ∙ e) fresh
      (Chain-frame c top λ a i. same a (ground arith))

-- So does new space at the top.
pub Chain-higher :
    {s t : Heap} {p : ℕ} {bs : Blocks}
    → Chain s p bs
    → s.heap_top ≤ t.heap_top
    → ((a : ℕ) → has a bs ≡ true → t.items a ≡ s.items a)
    → Chain t p bs
Chain-higher nil top same = nil
Chain-higher (cons {p} ne m e fresh c) top same =
    cons ne (ground arith) (same p (ground arith) ∙ e) fresh
      (Chain-higher c top λ a i. same a (ground arith))

pub Chain-nil : {s : Heap} {a : ℕ} → Chain s a [] → a ≡ null
Chain-nil nil = refl

-- The first block of a chain.
pub record First (s : Heap) (a p : ℕ) (i : HeapItem) (bs : Blocks) : Type 0 where
  pub start : a ≡ p
  pub ne_null : p ≢ null
  pub is_mapped : mapped s p ≡ true
  pub holds : s.items p ≡ i
  pub fresh : has p bs ≡ false
  pub rest : Chain s i.next bs

pub Chain-First :
    {s : Heap} {a p : ℕ} {i : HeapItem} {bs : Blocks} → Chain s a ((p, i) ∷ bs) → First s a p i bs
Chain-First (cons ne m e fresh c) = record {
  start = refl;
  ne_null = ne;
  is_mapped = m;
  holds = e;
  fresh = fresh;
  rest = c;
}
