-- ===== src/Heap/Freeing.antt =====
-- `mm_kfree` against the list of blocks.
use system_related_projects.Base.{
  ℕ, zero, suc, ◌+◌, ◌-◌, ◌%◌, ◌<◌, ◌≡◌, ◌≢◌, refl, ap, ◌∙◌, Bool, true, false, [], ◌∷◌, ◌==◌,
  if◌then◌else◌, length, arith, Bool-cases, ==-false, ==_iff, ==-swap, or-left, some, inl, inr,
}
use system_related_projects.Base.Result.{done, Returns, returns, Returns-mono, Returns-bind}
use system_related_projects.Heap.{
  HeapItem, Heap, Call, null, put, mapped, sizeof_item, w32, coalesce, heap_base, free_block, kfree,
}
use system_related_projects.Heap.Blocks.{
  Blocks, has, Chain, nil, cons, load_lem, store_lem, Chain-frame, Chain-nil, Chain-First,
}
use system_related_projects.Heap.Coalesce.{Glued, coalesce-Glued}
use system_related_projects.Heap.Glue.{
  released, freed, glue_all, length-freed, has-freed, compact, extent, find_block, compact-glue_all,
  extent-glue_all, find_block-glue_all, find_block-freed, extent-freed,
}

-- The state with the header at `item` marked free.
abbrev pub mark_free : ℕ → Heap → Heap
mark_free item s = record s { items = put s.items item (released (s.items item)) }

mark_free-items :
    (item : ℕ) (s : Heap) (p : ℕ)
    → (mark_free item s).items p ≡ (if p == item then released (s.items p) else s.items p)
mark_free-items item s p = elim (Bool-cases (p == item)) [
  | inl t ↦ rw (t, (==_iff p item).0 t)
  | inr t ↦ rw t
]

if-next : (c : Bool) (i : HeapItem) → (if c then released i else i).next ≡ i.next
if-next true i = refl
if-next false i = refl

pub Chain-freed :
    {s : Heap} {p : ℕ} {bs : Blocks} (item : ℕ)
    → Chain s p bs
    → Chain (mark_free item s) p (freed item bs)
unfolding freed
Chain-freed item nil = nil
Chain-freed {s} item (cons {p} {i} {bs} ne m e fresh c) =
    cons ne m (mark_free-items item s p ∙ rw e) (has-freed p item bs ∙ fresh)
      (rw (if-next (p == item) i) (Chain-freed item c))

module _ (item f : ℕ) (s : Heap) {p : ℕ} {i : HeapItem} (ne : p ≢ null) (m : mapped s p ≡ true)
    (e : s.items p ≡ i) where
  free_block-here :
      (p == item) ≡ true
      → free_block item (suc f) p s ≡ coalesce (suc f) heap_base (mark_free item s)
  unfolding free_block
  free_block-here t =
      let same = (==_iff p item).0 t in ground (arith, load_lem s m e, store_lem s p (released i) m)

  free_block-next : (p == item) ≡ false → free_block item (suc f) p s ≡ free_block item f i.next s
  unfolding free_block
  free_block-next t = ground (arith, load_lem s m e)

-- The search of `mm_kfree` comes to the block and goes on to the merging.
free_block-found :
    (item k f : ℕ) (s : Heap) {p : ℕ} (bs : Blocks)
    → Chain s p bs
    → has item bs ≡ true
    → length bs + k < f
    → (g : ℕ) × (k < g) × (free_block item f p s ≡ coalesce g heap_base (mark_free item s))
free_block-found item k f s [] c h fuel = absurd (ground arith)
free_block-found item k zero s (b ∷ bs) c h fuel = absurd (omega arith)
free_block-found item k (suc f) s ((p, i) ∷ bs) c h fuel =
    let n = Chain-First c in
    rw n.start (elim (Bool-cases (p == item)) [
      | inl t ↦ (suc f, omega arith, free_block-here item f s n.ne_null n.is_mapped n.holds t)
      | inr t ↦
          rw (free_block-next item f s n.ne_null n.is_mapped n.holds t)
            (free_block-found item k f s bs n.rest (ground arith) (omega arith))
    ])

free_block-null : (item f : ℕ) (s : Heap) → free_block item (suc f) null s ≡ done tt s
unfolding free_block
free_block-null item f s = refl

-- The search of `mm_kfree` that meets no such block.
free_block-absent :
    (item f : ℕ) (s : Heap) {p : ℕ} (bs : Blocks)
    → Chain s p bs
    → has item bs ≡ false
    → length bs < f
    → free_block item f p s ≡ done tt s
free_block-absent item zero s bs c h fuel = absurd (omega arith)
free_block-absent item (suc f) s [] c h fuel = rw (Chain-nil c) (free_block-null item f s)
free_block-absent item (suc f) s ((p, i) ∷ bs) c h fuel =
    let n = Chain-First c in
    rw n.start (
      rw
        (free_block-next item f s n.ne_null n.is_mapped n.holds
          (==-swap item p (or-left (item == p) _ h)))
        (free_block-absent item f s bs n.rest (ground arith) (omega arith)))

-- The header of the block that is freed by its address.
abbrev pub header : ℕ → ℕ
header address = (address + w32 - sizeof_item) % w32

-- `mm_kfree` of an address other than NULL that has no header in the list, on a list of fewer blocks
-- than the fuel: it returns, and takes and releases the lock, and nothing else changes.
pub kfree-absent :
    (fuel address : ℕ) (s : Heap) (bs : Blocks)
    → address ≢ null
    → Chain s heap_base bs
    → has (header address) bs ≡ false
    → length bs < fuel
    → kfree fuel address s
      ≡ done tt (record s { calls = Call.unlock_heap ∷ Call.lock_heap ∷ s.calls })
unfolding kfree
kfree-absent fuel address s bs ne c out enough = rw (
  ==-false ne,
  free_block-absent (header address) fuel (record s { calls = Call.lock_heap ∷ s.calls }) bs
      (Chain-frame c refl λ a i. refl) out enough,
)

record Merged (s : Heap) (bs : Blocks) (t : Heap) : Type 0 where
  pub chain : Chain t heap_base (glue_all bs)
  pub top : t.heap_top ≡ s.heap_top
  pub calls : t.calls ≡ s.calls
  pub outside : (a : ℕ) → has a bs ≡ false → t.items a ≡ s.items a

coalesce-Merged :
    (f : ℕ) (s : Heap) (bs : Blocks)
    → Chain s heap_base bs
    → length bs + 1 < f
    → Returns (λ _ t. Merged s bs t) (coalesce f heap_base s)
coalesce-Merged f s [] c enough = absurd (ground (arith, Chain-nil c))
coalesce-Merged f s ((p, i) ∷ bs) c enough =
    let n = Chain-First c in
    Returns-mono {P = λ _ t. Glued s p i bs t}
      (rw n.start
        (coalesce-Glued f s i bs n.ne_null n.is_mapped n.holds n.fresh n.rest (omega arith)))
      λ _ t g. record {
        chain = rw n.start g.chain;
        top = g.top;
        calls = g.calls;
        outside = g.outside;
      }

put-elsewhere :
    (s : Heap) (item : ℕ) (i : HeapItem) (bs : Blocks) (a : ℕ)
    → has item bs ≡ true
    → has a bs ≡ false
    → put s.items item i a ≡ s.items a
put-elsewhere s item i bs a inside out = elim (Bool-cases (a == item)) [
  | inl t ↦ let same = ap (λ x. has x bs) ((==_iff a item).0 t) in absurd (ground arith)
  | inr t ↦ rw t
]

-- The list and the state after the block `item` of the list `bs` is freed in `s`.
pub record Released (s : Heap) (item : ℕ) (bs : Blocks) (t : Heap) : Type 0 where
  pub chain : Chain t heap_base (glue_all (freed item bs))
  pub no_free_pair : compact (glue_all (freed item bs)) ≡ true
  pub same_extent : extent (glue_all (freed item bs)) % w32 ≡ extent bs % w32
  pub keeps_used :
      (a : ℕ) (k : HeapItem)
      → a ≢ item
      → find_block a bs ≡ some k
      → k.used ≡ true
      → find_block a (glue_all (freed item bs)) ≡ some k
  pub top : t.heap_top ≡ s.heap_top
  pub calls : t.calls ≡ Call.unlock_heap ∷ Call.lock_heap ∷ s.calls
  pub outside : (a : ℕ) → has a bs ≡ false → t.items a ≡ s.items a

-- `mm_kfree` of an address other than NULL whose header is in the list, with fuel for twice the list:
-- it returns. The list is then that of before with this block free and all free neighbours merged.
-- No two neighbours are free, headers and contents cover as many bytes as before modulo 2 ^ 32, every
-- other used block is found as before, headers outside the list and the top of the heap are the same,
-- and the lock is taken and released.
pub kfree-Released :
    (fuel address : ℕ) (s : Heap) (bs : Blocks)
    → address ≢ null
    → Chain s heap_base bs
    → has (header address) bs ≡ true
    → length bs + length bs + 2 < fuel
    → Returns (λ _ t. Released s (header address) bs t) (kfree fuel address s)
unfolding kfree
kfree-Released fuel address s bs ne c inside enough =
    let locked = record s { calls = Call.lock_heap ∷ s.calls } in
    let item = header address in
    let c' : Chain locked heap_base bs = Chain-frame c refl (λ a i. refl) in
    let (g, lt, e) = free_block-found item (length bs + 1) fuel locked bs c' inside (omega arith) in
    rw (==-false ne, e)
      (Returns-bind
        (coalesce-Merged g (mark_free item locked) (freed item bs) (Chain-freed item c')
          (rw (length-freed item bs) lt))
        λ _ t merged. returns (record {
          chain = Chain-frame merged.chain refl λ a i. refl;
          no_free_pair = compact-glue_all (freed item bs);
          same_extent = extent-glue_all (freed item bs) ∙ ap (λ n. n % w32) (extent-freed item bs);
          keeps_used = λ a k other e u.
              find_block-glue_all a k (freed item bs) (find_block-freed a item bs other ∙ e) u;
          top = merged.top;
          calls = ap (λ cs. Call.unlock_heap ∷ cs) merged.calls;
          outside = λ a o.
              merged.outside a (has-freed a item bs ∙ o) ∙ put-elsewhere s item _ bs a inside o;
        }))
