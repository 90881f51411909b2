-- ===== src/Heap/Extending.antt =====
-- `mm_kmalloc` when no block is large enough.
use system_related_projects.Base.{
  ℕ, ◌+◌, ◌*◌, ◌/◌, ◌%◌, ◌≤◌, ◌<◌, ◌≡◌, ◌≢◌, refl, ap, true, false, ◌&&◌, ◌∷◌, ◌==◌, leb, length,
  arith, Bool-cases, ==-false, ==-refl, ==_iff, inl, inr,
}
use system_related_projects.Base.Result.{and_then, done, Returns, Returns-of, Returns-bind}
use system_related_projects.Heap.{
  Call, add_pages, morecore, total_size, rest_of_page, extend, take_block, kmalloc, kfree,
  page_size, heap_base, HeapItem, Heap, null, put, sizeof_item, w32,
}
use system_related_projects.Heap.Blocks.{
  Blocks, has, Chain, nil, cons, store_lem, Chain-frame, Chain-higher,
}
use system_related_projects.Heap.Freeing.{header as freed_header, kfree-absent}
use system_related_projects.Heap.Allocating.{
  fit, first_fit_lem, add_pages-top, add_pages-below, add_pages-calls,
}

abbrev pub grown_bytes : ℕ → ℕ
grown_bytes total = (total / page_size + 1) * page_size

-- The state with the new pages, the header of the free rest and that of the taken block.
abbrev pub grown : ℕ → Heap → Heap
grown total s = add_pages (total / page_size + 1) s

abbrev rest_header : ℕ → HeapItem
rest_header total = record { size = rest_of_page total; used = false; next = null }

abbrev taken_header : ℕ → ℕ → ℕ → HeapItem
taken_header total size top = record { size = size; used = true; next = top + total }

abbrev pub extended : ℕ → ℕ → Heap → Heap
extended total size s =
    let g = grown total s in
    record g {
      items =
          put (put g.items (s.heap_top + total) (rest_header total)) s.heap_top
            (taken_header total size s.heap_top);
      calls = Call.unlock_heap ∷ g.calls;
    }

-- The new pages fit the address space and hold both headers.
pub record HasRoom (total : ℕ) (s : Heap) : Type 0 where
  pub started : heap_base ≤ s.heap_top
  pub in_range : s.heap_top + grown_bytes total < w32
  pub holds_rest : total + sizeof_item ≤ grown_bytes total

mapped-grown :
    (total : ℕ) (s : Heap) (a : ℕ)
    → HasRoom total s
    → s.heap_top ≤ a
    → a ≤ s.heap_top + total
    → (leb heap_base a && leb (a + sizeof_item) (grown total s).heap_top) ≡ true
mapped-grown total s a r low high =
    let top = add_pages-top (total / page_size + 1) s r.in_range in
    let started = r.started in let rest = r.holds_rest in ground arith

pub small : (a : ℕ) → a < w32 → a % w32 ≡ a
small a h = omega arith

morecore_lem :
    (total : ℕ) (s : Heap) → s.heap_top ≢ null → morecore total s ≡ done s.heap_top (grown total s)
unfolding morecore
morecore_lem total s ne = rw (==-false ne)

extend_lem :
    (total : ℕ) (s : Heap)
    → HasRoom total s
    → extend total s
      ≡ done s.heap_top (record (grown total s) {
        items = put (grown total s).items (s.heap_top + total) (rest_header total);
      })
unfolding extend
extend_lem total s r =
    let range = r.in_range in
    let started = r.started in
    let rest = r.holds_rest in
    rw (
      morecore_lem total s (omega arith),
      small (s.heap_top + total) (omega arith),
      store_lem (grown total s) (s.heap_top + total) (rest_header total)
          (mapped-grown total s (s.heap_top + total) r (omega arith) (omega arith)),
    )

take_lem :
    (total size : ℕ) (s : Heap)
    → HasRoom total s
    → and_then (extend total s) (λ p. take_block p total size)
      ≡ done (s.heap_top + sizeof_item) (extended total size s)
unfolding take_block
take_lem total size s r =
    let range = r.in_range in
    let rest = r.holds_rest in
    rw (
      extend_lem total s r,
      small (s.heap_top + total) (omega arith),
      small (s.heap_top + sizeof_item) (omega arith),
      store_lem
          (record (grown total s) {
            items = put (grown total s).items (s.heap_top + total) (rest_header total);
          })
          s.heap_top (taken_header total size s.heap_top)
          (mapped-grown total s s.heap_top r (omega arith) (omega arith)),
    )

-- A header of the list lies below the top of the heap.
below_top :
    {s : Heap} {p : ℕ} {bs : Blocks}
    → Chain s p bs
    → (a : ℕ) → has a bs ≡ true
    → a + sizeof_item ≤ s.heap_top
below_top nil a h = absurd (ground arith)
below_top {s} (cons {p} ne m e fresh c) a h = elim (Bool-cases (a == p)) [
  | inl t ↦ let same = (==_iff a p).0 t in ground arith
  | inr t ↦ below_top c a (ground arith)
]

-- What `mm_kmalloc` leaves when it grows the heap: the new block is not in the list.
pub record Extended (s : Heap) (size : ℕ) (bs : Blocks) (a : ℕ) (t : Heap) : Type 0 where
  pub address : a ≡ s.heap_top + sizeof_item
  pub header : t.items s.heap_top ≡ taken_header (total_size size) size s.heap_top
  pub top : t.heap_top ≡ s.heap_top + grown_bytes (total_size size)
  pub chain : Chain t heap_base bs
  pub unlisted : has s.heap_top bs ≡ false
  pub calls : t.calls ≡ Call.unlock_heap ∷ Call.lock_heap ∷ s.calls

extended-below :
    (size : ℕ) (s : Heap) (a : ℕ)
    → s.heap_top + grown_bytes (total_size size) < w32
    → a + sizeof_item ≤ s.heap_top
    → (extended (total_size size) size s).items a ≡ s.items a
extended-below size s a range low =
    let total = total_size size in
    let new : (a == s.heap_top) ≡ false = ground arith in
    let rest : (a == s.heap_top + total) ≡ false = ground arith in
    rw (new, rest) (add_pages-below (total / page_size + 1) s a range (omega arith))

extended-Extended :
    (size : ℕ) (s : Heap) (bs : Blocks)
    → Chain s heap_base bs
    → HasRoom (total_size size) s
    → Extended s size bs
        (s.heap_top + sizeof_item)
        (extended (total_size size) size (record s { calls = Call.lock_heap ∷ s.calls }))
extended-Extended size s bs c r =
    let locked = record s { calls = Call.lock_heap ∷ s.calls } in
    let total = total_size size in
    let range = r.in_range in
    let new_top = add_pages-top (total / page_size + 1) locked range in
    record {
      address = refl;
      header = rw (==-refl s.heap_top);
      top = new_top;
      chain =
          Chain-higher c (omega arith)
            λ a i. extended-below size locked a (omega arith) (below_top c a i);
      unlisted = elim (Bool-cases (has s.heap_top bs)) [
        | inl t ↦ let low = below_top c s.heap_top t in absurd (omega arith)
        | inr t ↦ t
      ];
      calls = ap (λ cs. Call.unlock_heap ∷ cs) (add_pages-calls (total / page_size + 1) locked);
    }

-- `mm_kmalloc` of a size other than 0, with fuel for the list, no free block that is large enough, and
-- new pages that fit the address space and hold both new headers: it returns the address behind a used
-- header at the old top of the heap, and the top rises by the new pages. The list of blocks is the one
-- of before, without the new block, and the lock is taken and released.
pub kmalloc-Extended :
    (fuel size : ℕ) (s : Heap) (bs : Blocks)
    → size ≢ 0
    → Chain s heap_base bs
    → length bs < fuel
    → fit (total_size size) bs ≡ null
    → HasRoom (total_size size) s
    → Returns (λ a t. Extended s size bs a t) (kmalloc fuel size s)
unfolding kmalloc
kmalloc-Extended fuel size s bs ne c enough full r =
    let locked = record s { calls = Call.lock_heap ∷ s.calls } in
    let c' : Chain locked heap_base bs = Chain-frame c refl (λ a i. refl) in
    let started = r.started in
    let up : s.heap_top ≢ null = omega arith in
    Returns-of {a = s.heap_top + sizeof_item} {s = extended (total_size size) size locked}
      (rw (==-false ne, ==-false up, first_fit_lem (total_size size) fuel locked bs c' enough, full)
        (take_lem (total_size size) size locked
          (record { started = r.started; in_range = r.in_range; holds_rest = r.holds_rest })))
      (extended-Extended size s bs c r)

-- Under the same conditions, `mm_kfree` of what `mm_kmalloc` returned returns, and the list is that of
-- before both calls, while the top stays where the growth put it: no memory is given back to the list.
pub kmalloc-kfree :
    (fuel size : ℕ) (s : Heap) (bs : Blocks)
    → size ≢ 0
    → Chain s heap_base bs
    → length bs < fuel
    → fit (total_size size) bs ≡ null
    → HasRoom (total_size size) s
    → Returns
        (λ _ u. Chain u heap_base bs × (u.heap_top ≡ s.heap_top + grown_bytes (total_size size)))
        (and_then (kmalloc fuel size s) (kfree fuel))
kmalloc-kfree fuel size s bs ne c enough full r =
    Returns-bind (kmalloc-Extended fuel size s bs ne c enough full r) λ a t x.
      let range = r.in_range in
      let rest = r.holds_rest in
      let at_top : freed_header a ≡ s.heap_top = rw x.address (omega arith) in
      Returns-of
        (kfree-absent fuel a t bs (rw x.address (omega arith)) x.chain (rw at_top x.unlisted)
          enough)
        (Chain-frame x.chain refl (λ b i. refl), x.top)
