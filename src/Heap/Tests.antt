-- ===== src/Heap/Tests.antt =====
-- Runs and instances of the kernel heap.
use system_related_projects.Base.{
  ℕ, ◌+◌, ◌≡◌, refl, true, false, ◌==◌, [], ◌∷◌, arith, some, none, Bool-cases, inl, inr, ==_iff,
  ap, if◌then◌else◌,
}
use system_related_projects.Base.Result.{Returns, and_then}
use system_related_projects.Heap.{HeapItem, Heap, null, heap_base, kmalloc, kfree, total_size}
use system_related_projects.Heap.Blocks.{Blocks, Chain, nil, cons}
use system_related_projects.Heap.Glue.{find_block}
use system_related_projects.Heap.Freeing.{header, Released, kfree-Released}
use system_related_projects.Heap.Allocating.{fit}
use system_related_projects.Heap.Splitting.{IsHeap, found_here, found_later}
use system_related_projects.Heap.Extending.{
  HasRoom, Extended, grown_bytes, kmalloc-Extended, kmalloc-kfree,
}
use system_related_projects.Heap.Taking.{Taken, kmalloc-Taken}

abbrev second : ℕ
second = 0xd000_0024

abbrev third : ℕ
third = 0xd000_0058

abbrev used_20 : HeapItem
used_20 = record { next = second; size = 20; used = true }

abbrev used_40 : HeapItem
used_40 = record { next = third; size = 40; used = true }

abbrev free_tail : HeapItem
free_tail = record { next = null; size = 3996; used = false }

abbrev free_page : HeapItem
free_page = record { next = null; size = 4084; used = false }

-- One page with two used blocks and a free one behind them.
abbrev three_blocks : Heap
three_blocks = record {
  items = λ a. if a == heap_base then used_20 else (if a == second then used_40 else free_tail);
  heap_top = 0xd000_1000;
  calls = [];
}

abbrev three : Blocks
three = (heap_base, used_20) ∷ (second, used_40) ∷ (third, free_tail) ∷ []

three-Chain : Chain three_blocks heap_base three
three-Chain =
    cons (omega arith) refl refl refl
      (cons (omega arith) refl refl refl (cons (omega arith) refl refl refl nil))

-- One page that is one free block.
abbrev one_block : Heap
one_block = record { items = λ a. free_page; heap_top = 0xd000_1000; calls = [] }

abbrev one : Blocks
one = (heap_base, free_page) ∷ []

find_one : (a : ℕ) (i : HeapItem) → find_block a one ≡ some i → (a ≡ heap_base) × (free_page ≡ i)
unfolding find_block
find_one a i e = elim (Bool-cases (a == heap_base)) [
  | inl t ↦ ((==_iff a heap_base).0 t, found_here (a == heap_base) free_page i none e t)
  | inr t ↦ absurd (ground (arith, found_later (a == heap_base) free_page none (some i) e t))
]

one-IsHeap : IsHeap one_block one
one-IsHeap = record {
  chain = cons (omega arith) refl refl refl nil;
  in_range = omega arith;
  within = λ a i e. let (at, is) = find_one a i e in let size = ap (λ x. x.size) is in omega arith;
  apart = λ a q i e inside lt. let (at, is) = find_one a i e in absurd (ground arith);
}

kfree-Released_example :
    Returns
      (λ _ t. Released three_blocks (header 0xd000_0030) three t)
      (kfree 9 0xd000_0030 three_blocks)
kfree-Released_example =
    kfree-Released 9 0xd000_0030 three_blocks three (omega arith) three-Chain refl (omega arith)

kmalloc-Taken_example : Returns (λ a t. Taken one_block 100 one a t) (kmalloc 2 100 one_block)
unfolding fit total_size
kmalloc-Taken_example =
    kmalloc-Taken 2 100 one_block one (omega arith) (omega arith) one-IsHeap (omega arith)
      (omega arith)

three-full : fit (total_size 5000) three ≡ null
unfolding fit total_size
three-full = refl

three-HasRoom : HasRoom (total_size 5000) three_blocks
unfolding total_size
three-HasRoom = record { started = omega arith; in_range = omega arith; holds_rest = omega arith }

kmalloc-Extended_example :
    Returns (λ a t. Extended three_blocks 5000 three a t) (kmalloc 4 5000 three_blocks)
kmalloc-Extended_example =
    kmalloc-Extended 4 5000 three_blocks three (omega arith) three-Chain (omega arith) three-full
      three-HasRoom

kmalloc-kfree_example :
    Returns
      (λ _ u.
        Chain u heap_base three
        × (u.heap_top ≡ three_blocks.heap_top + grown_bytes (total_size 5000)))
      (and_then (kmalloc 4 5000 three_blocks) (kfree 4))
kmalloc-kfree_example =
    kmalloc-kfree 4 5000 three_blocks three (omega arith) three-Chain (omega arith) three-full
      three-HasRoom
