-- ===== src/Heap/Allocating.antt =====
-- `mm_kmalloc` against the list of blocks.
use system_related_projects.Base.{
  ℕ, zero, suc, ◌+◌, ◌*◌, ◌<◌, ◌≡◌, ◌≢◌, refl, ◌∙◌, true, false, not, ◌&&◌, [], ◌∷◌, leb,
  if◌then◌else◌, length, arith, Bool-cases, ==-false, inl, inr,
}
use system_related_projects.Base.Result.{done}
use system_related_projects.Heap.{
  add_page, add_pages, first_fit, page_size, HeapItem, Heap, null, mapped, w32,
}
use system_related_projects.Heap.Blocks.{Blocks, Chain, load_lem, Chain-nil, Chain-First}

-- The first block that is free and large enough, or NULL.
unfoldable pub fit : ℕ → Blocks → ℕ
fit total [] = null
fit total ((p, i) ∷ bs) = if not i.used && leb total i.size then p else fit total bs

module _ (total f : ℕ) (s : Heap) {p : ℕ} {i : HeapItem} (ne : p ≢ null) (m : mapped s p ≡ true)
    (e : s.items p ≡ i) where
  first_fit-here : (not i.used && leb total i.size) ≡ true → first_fit total (suc f) p s ≡ done p s
  unfolding first_fit
  first_fit-here t = rw (==-false ne, load_lem s m e, t)

  first_fit-next :
      (not i.used && leb total i.size) ≡ false
      → first_fit total (suc f) p s ≡ first_fit total f i.next s
  unfolding first_fit
  first_fit-next t = rw (==-false ne, load_lem s m e, t)

first_fit-null : (total f : ℕ) (s : Heap) → first_fit total (suc f) null s ≡ done null s
unfolding first_fit
first_fit-null total f s = refl

pub first_fit_lem :
    (total f : ℕ) (s : Heap) {p : ℕ} (bs : Blocks)
    → Chain s p bs
    → length bs < f
    → first_fit total f p s ≡ done (fit total bs) s
unfolding fit
first_fit_lem total zero s bs c h = absurd (omega arith)
first_fit_lem total (suc f) s [] c h = rw (Chain-nil c) (first_fit-null total f s)
first_fit_lem total (suc f) s ((p, i) ∷ bs) c h =
    let n = Chain-First c in
    rw n.start (elim (Bool-cases (not i.used && leb total i.size)) [
      | inl t ↦ rw (t, first_fit-here total f s n.ne_null n.is_mapped n.holds t)
      | inr t ↦
          rw (t, first_fit-next total f s n.ne_null n.is_mapped n.holds t)
            (first_fit_lem total f s bs n.rest (omega arith))
    ])

add_page-top :
    (s : Heap) → s.heap_top + page_size < w32 → (add_page s).heap_top ≡ s.heap_top + page_size
add_page-top s h = omega arith

add_page-below : (s : Heap) (a : ℕ) → a < s.heap_top → (add_page s).items a ≡ s.items a
add_page-below s a lt = ground arith

-- The new pages leave what is below them, and add as many bytes as pages.
pub add_pages-top :
    (n : ℕ) (s : Heap)
    → s.heap_top + n * page_size < w32
    → (add_pages n s).heap_top ≡ s.heap_top + n * page_size
unfolding add_pages
add_pages-top zero s h = omega arith
add_pages-top (suc n) s h =
    let here = add_page-top s (omega arith) in
    add_pages-top n (add_page s) (omega arith) ∙ omega arith

pub add_pages-below :
    (n : ℕ) (s : Heap) (a : ℕ)
    → s.heap_top + n * page_size < w32
    → a < s.heap_top
    → (add_pages n s).items a ≡ s.items a
unfolding add_pages
add_pages-below zero s a h lt = refl
add_pages-below (suc n) s a h lt =
    let here = add_page-top s (omega arith) in
    add_pages-below n (add_page s) a (omega arith) (omega arith) ∙ add_page-below s a lt

pub add_pages-calls : (n : ℕ) (s : Heap) → (add_pages n s).calls ≡ s.calls
unfolding add_pages
add_pages-calls zero s = refl
add_pages-calls (suc n) s = add_pages-calls n _
