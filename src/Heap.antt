-- ===== src/Heap.antt =====
-- The kernel heap of MimicOS: `mm_kmalloc`, `mm_kfree` and `mm_morecore` of
-- MimicOS/src/kernel/mm/mm.c with MimicOS/include/kernel/mm/mm.h.
--
-- The heap is a list of blocks, each behind a header of 12 bytes. A header may be read or written
-- only inside the pages mapped from `heap_base` up to `heap_top`; elsewhere it is a fault. New pages
-- come cleared. The mapping of a page (`physical_pageAlloc`, and `paging_map`, which lies outside the
-- repository) is taken to succeed. Loops over the list run on fuel. `calls` logs the calls made to
-- the mutex, the newest first.
pub mod Blocks
mod Tests
pub mod Coalesce
pub mod Taking
pub mod Keeping
pub mod Splitting
pub mod Extending
pub mod Allocating
pub mod Glue
pub mod Freeing
use system_related_projects.Base.{
  ℕ, zero, suc, ◌+◌, ◌-◌, ◌*◌, ◌/◌, ◌%◌, ◌^◌, Bool, true, false, not, ◌&&◌, List, ◌∷◌, ◌==◌, ltb,
  leb, if◌then◌else◌,
}
use system_related_projects.Base.Int.{ℤ, success}
use system_related_projects.Base.Result.{done, fault, spin, M, pure, ◌>>=◌, ◌>>◌}

-- struct MM_HEAPITEM
pub record HeapItem : Type 0 where
  pub next : ℕ
  pub size : ℕ
  pub used : Bool

pub data Call : Type 0 where
  lock_heap unlock_heap init_lock physical_init segmentation_init paging_init : Call
  disable_interrupts enable_interrupts : Call
  -- memcpy of a number of bytes, from the second address to the first
  copy_memory : ℕ → ℕ → ℕ → Call

pub record Heap : Type 0 where
  pub items : ℕ → HeapItem
  pub heap_top : ℕ
  pub calls : List Call

abbrev pub null : ℕ
null = 0

-- KERNEL_HEAP_VADDRESS
abbrev pub heap_base : ℕ
heap_base = 0xd000_0000

abbrev pub sizeof_item : ℕ
sizeof_item = 12

abbrev pub page_size : ℕ
page_size = 4096

abbrev pub w32 : ℕ
w32 = 2 ^ 32

abbrev pub mapped : Heap → ℕ → Bool
mapped s p = leb heap_base p && leb (p + sizeof_item) s.heap_top

unfoldable pub load : ℕ → M Heap HeapItem
load p s = if mapped s p then done (s.items p) s else fault

abbrev pub put : (ℕ → HeapItem) → ℕ → HeapItem → ℕ → HeapItem
put items p i a = if a == p then i else items a

unfoldable pub store : ℕ → HeapItem → M Heap (Unit {0})
store p i s = if mapped s p then done tt (record s { items = put s.items p i }) else fault

abbrev pub call : Call → M Heap (Unit {0})
call c s = done tt (record s { calls = c ∷ s.calls })

abbrev pub get : M Heap Heap
get s = done s s

abbrev pub zero_item : HeapItem
zero_item = record { next = null; size = 0; used = false }

-- One round of the loop of `mm_morecore`: a page is mapped at the top and cleared.
abbrev pub add_page : Heap → Heap
add_page s = record s {
  items = λ a. if leb s.heap_top a && ltb a (s.heap_top + page_size) then zero_item else s.items a;
  heap_top = (s.heap_top + page_size) % w32;
}

unfoldable pub add_pages : ℕ → Heap → Heap
add_pages zero s = s
add_pages (suc n) s = add_pages n (add_page s)

unfoldable pub morecore : ℕ → M Heap ℕ
morecore size s =
    let top = if s.heap_top == null then heap_base else s.heap_top in
    done top (add_pages (size / page_size + 1) (record s { heap_top = top }))

-- ((size + 7) & ~7) + sizeof(struct MM_HEAPITEM), in 32 bits
unfoldable pub total_size : ℕ → ℕ
total_size size = ((size + 7) % w32 / 8 * 8 + sizeof_item) % w32

-- The loop that looks for the first fit; NULL if there is none.
unfoldable pub first_fit : ℕ → ℕ → ℕ → M Heap ℕ
first_fit total zero p = λ _. spin
first_fit total (suc f) p = if p == null then pure null else (do
  i ← load p
  if not i.used && leb total i.size then pure p else first_fit total f i.next)

-- The size of the free block behind a block of `total` bytes in new pages, for a `total` below 2 ^ 31,
-- where the int `total_size` is not negative.
unfoldable pub rest_of_page : ℕ → ℕ
rest_of_page total =
    let used = if total % page_size == 0 then total else total % page_size in
    (w32 + page_size + w32 - used - sizeof_item) % w32

unfoldable pub split_block : ℕ → ℕ → M Heap (Unit {0})
split_block new total = do
  i ← load new
  store ((new + total) % w32)
      (record { size = (i.size + w32 - total) % w32; used = false; next = i.next })

unfoldable pub extend : ℕ → M Heap ℕ
extend total = do
  new ← morecore total
  store ((new + total) % w32) (record { size = rest_of_page total; used = false; next = null })
  pure new

unfoldable pub take_block : ℕ → ℕ → ℕ → M Heap ℕ
take_block new total size = do
  store new (record { size = size; used = true; next = (new + total) % w32 })
  call unlock_heap
  pure ((new + sizeof_item) % w32)

unfoldable pub kmalloc : ℕ → ℕ → M Heap ℕ
kmalloc fuel size = if size == 0 then pure null else (do
  call lock_heap
  let total = total_size size
  s ← get
  new ← (if s.heap_top == null then pure null else first_fit total fuel heap_base)
  if new == null
      then (do p ← extend total; take_block p total size)
      else (do split_block new total; take_block new total size))

-- Merging of free neighbours, over the whole list. One round merges the next block into the current
-- one or goes on to the next.
unfoldable pub coalesce : ℕ → ℕ → M Heap (Unit {0})
coalesce zero p = λ _. spin
coalesce (suc f) p = if p == null then pure tt else (do
  i ← load p
  if not i.used && not (i.next == null)
      then (do
        j ← load i.next
        if not j.used
            then (do
              store p (record i { size = (i.size + (sizeof_item + j.size)) % w32; next = j.next })
              coalesce f p)
            else coalesce f i.next)
      else coalesce f i.next)

-- The loop of `mm_kfree` that looks for the block.
unfoldable pub free_block : ℕ → ℕ → ℕ → M Heap (Unit {0})
free_block item zero p = λ _. spin
free_block item (suc f) p = if p == null then pure tt else (do
  i ← load p
  if p == item
      then (do store p (record i { used = false }); coalesce (suc f) heap_base)
      else free_block item f i.next)

unfoldable pub kfree : ℕ → ℕ → M Heap (Unit {0})
kfree fuel address = if address == null then pure tt else (do
  call lock_heap
  s ← get
  free_block ((address + w32 - sizeof_item) % w32) fuel heap_base
  call unlock_heap)

-- The initialisers that `mm_init` calls are seen in the log only.
unfoldable pub init : M Heap ℤ
init = do
  call physical_init
  call segmentation_init
  call paging_init
  (λ s. done tt (record s { heap_top = null }))
  call init_lock
  pure success

-- `map_quick` is `paging_mapQuick`, as a function from physical to virtual addresses.
unfoldable pub pmemcpyto : (ℕ → ℕ) → ℕ → ℕ → ℕ → M Heap (Unit {0})
pmemcpyto map_quick dst src size = do
  call disable_interrupts
  call (copy_memory (map_quick dst) src size)
  call enable_interrupts

unfoldable pub pmemcpyfrom : (ℕ → ℕ) → ℕ → ℕ → ℕ → M Heap (Unit {0})
pmemcpyfrom map_quick dst src size = do
  call disable_interrupts
  call (copy_memory dst (map_quick src) size)
  call enable_interrupts
