-- ===== src/Heap/Taking.antt =====
-- `mm_kmalloc` when it takes a block of the list, as a whole.
use system_related_projects.Base.{
  ℕ, ◌+◌, ◌-◌, ◌%◌, ◌≤◌, ◌<◌, ◌≡◌, ◌≢◌, refl, true, ◌∷◌, length, arith, ==-false,
}
use system_related_projects.Base.Result.{and_then, done, Returns, Returns-of}
use system_related_projects.Heap.{
  Call, total_size, split_block, take_block, kmalloc, heap_base, HeapItem, Heap, null, put, mapped,
  sizeof_item, w32,
}
use system_related_projects.Heap.Blocks.{Blocks, Chain, load_lem, store_lem, Chain-frame}
use system_related_projects.Heap.Allocating.{fit, first_fit_lem}
use system_related_projects.Heap.Splitting.{
  IsHeap, taken, remainder, split_at, fit-Picked, split_items,
}
use system_related_projects.Heap.Allocating.{fit, first_fit_lem}
use system_related_projects.Heap.Keeping.{
  IsHeap-split_at, listed-mapped, listed-items, has_of_find_block,
}
use system_related_projects.Heap.Extending.{small}

abbrev pub cut : ℕ → ℕ → ℕ → HeapItem → Heap → Heap
cut total size new i s = record s {
  items = split_items total size new i s;
  calls = Call.unlock_heap ∷ s.calls;
}

cut_lem :
    (total size new : ℕ) (i : HeapItem) (s : Heap)
    → mapped s new ≡ true
    → mapped s (new + total) ≡ true
    → s.items new ≡ i
    → s.heap_top < w32
    → total ≤ i.size
    → i.size < w32
    → and_then (split_block new total s) (λ _. take_block new total size)
      ≡ done (new + sizeof_item) (cut total size new i s)
unfolding split_block take_block
cut_lem total size new i s m m' e range enough small_size =
    let near : new + sizeof_item ≤ s.heap_top = ground arith in
    let far : new + total + sizeof_item ≤ s.heap_top = ground arith in
    let size_left : (i.size + w32 - total) % w32 ≡ i.size - total = omega arith in
    rw (
      load_lem s m e,
      small (new + total) (omega arith),
      size_left,
      store_lem s (new + total) (remainder total i) m',
      small (new + sizeof_item) (omega arith),
      store_lem (record s { items = put s.items (new + total) (remainder total i) }) new
          (taken total size new) m,
    )

-- What `mm_kmalloc` leaves when it takes a block of the list.
pub record Taken (s : Heap) (size : ℕ) (bs : Blocks) (a : ℕ) (t : Heap) : Type 0 where
  pub block : ℕ
  pub is_fit : block ≡ fit (total_size size) bs
  pub address : a ≡ block + sizeof_item
  pub heap : IsHeap t (split_at (total_size size) size block bs)
  pub holds : size + sizeof_item ≤ total_size size
  pub top : t.heap_top ≡ s.heap_top
  pub calls : t.calls ≡ Call.unlock_heap ∷ Call.lock_heap ∷ s.calls

room : (size : ℕ) → size + 20 < w32 → size + sizeof_item ≤ total_size size
unfolding total_size
room size h = omega arith

-- `mm_kmalloc` of a size other than 0 and at least 20 below 2 ^ 32, on a heap whose blocks lie apart
-- below its top, with fuel for the list and a free block that is large enough: it returns the address
-- behind the header of the first such block. The block is cut into one of that size and a free
-- remainder, the heap again has its blocks apart below the same top, the bytes asked for fit in front
-- of the remainder, and the lock is taken and released.
pub kmalloc-Taken :
    (fuel size : ℕ) (s : Heap) (bs : Blocks)
    → size ≢ 0
    → size + 20 < w32
    → IsHeap s bs
    → length bs < fuel
    → fit (total_size size) bs ≢ null
    → Returns (λ a t. Taken s size bs a t) (kmalloc fuel size s)
unfolding kmalloc
kmalloc-Taken fuel size s bs ne range h fuel_left fits =
    let total = total_size size in
    let new = fit total bs in
    let locked = record s { calls = Call.lock_heap ∷ s.calls } in
    let c' : Chain locked heap_base bs = Chain-frame h.chain refl (λ a i. refl) in
    let x = fit-Picked total bs h.chain fits in
    let low = h.within new x.item x.finds in
    let started : s.heap_top ≢ null = omega arith in
    let m = listed-mapped new h.chain (has_of_find_block new x.item bs x.finds) in
    let m' : mapped s (new + total) ≡ true = ground (arith, x.enough) in
    Returns-of {a = new + sizeof_item} {s = cut total size new x.item locked}
      (rw
        (
          ==-false ne,
          ==-false started,
          first_fit_lem total fuel locked bs c' fuel_left,
          ==-false fits,
        )
        (cut_lem total size new x.item locked m m' (listed-items new x.item h.chain x.finds)
          h.in_range x.enough (omega arith)))
      (record {
        block = new;
        is_fit = refl;
        address = refl;
        heap =
            IsHeap-split_at total size new x.item bs (room size range) h x.finds x.enough refl
              λ a. refl;
        holds = room size range;
        top = refl;
        calls = refl;
      })
