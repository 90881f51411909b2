-- ===== src/Physical/Clients.antt =====
-- The callers of the allocator: any sequence of `physical_pageAlloc` and `physical_pageFree` in which
-- only pages that are held are freed.
use system_related_projects.Base.{
  ℕ, ◌/◌, ◌%◌, ◌≡◌, ◌≢◌, true, false, List, [], ◌∷◌, ◌++◌, arith, if◌then◌else◌, ◌==◌, ◌&&◌, ◌∙◌,
  sym, ==-refl, ==-false,
}
use system_related_projects.Base.Result.{Result, done, Returns, returns}
use system_related_projects.Physical.{Physical, null, page_alloc, page_free}
use system_related_projects.Physical.Bitmap.{taken, IsValid}
use system_related_projects.Physical.Alloc.{Granted, page, exhausted, page_alloc-Granted}
use system_related_projects.Physical.Free.{frees, page_free_lem}

-- The allocator, and the addresses that were handed out and are not freed yet.
pub record Machine : Type 0 where
  pub memory : Physical
  pub owned : List ℕ

pub data Step : Machine → Machine → Type 0 where
  allocate :
      (m : Machine) (a : ℕ) (s : Physical)
      → page_alloc m.memory ≡ done a s
      → a ≢ null
      → Step m (record { memory = s; owned = a ∷ m.owned })
  refuse :
      (m : Machine) (s : Physical)
      → page_alloc m.memory ≡ done null s
      → Step m (record { memory = s; owned = m.owned })
  release :
      (m : Machine) (before after : List ℕ) (a : ℕ) (s : Physical)
      → m.owned ≡ before ++ a ∷ after
      → page_free a m.memory ≡ done tt s
      → Step m (record { memory = s; owned = before ++ after })

pub data Reach (m : Machine) : Machine → Type 0 where
  here : Reach m m
  next : {n o : Machine} → Reach m n → Step n o → Reach m o

-- The address of a page other than page 0 that is marked as taken.
abbrev pub IsOwned : Physical → ℕ → Type 0
IsOwned s a = (a % 4096 ≡ 0) × (a ≢ null) × (taken s.bitmap (a / 4096) ≡ true)

abbrev pub AllOwned : Physical → List ℕ → Type 0
AllOwned s [] = Unit {0}
AllOwned s (a ∷ as') = IsOwned s a × AllOwned s as'

abbrev pub NotIn : ℕ → List ℕ → Type 0
NotIn a [] = Unit {0}
NotIn a (b ∷ bs) = (a ≢ b) × NotIn a bs

abbrev pub Distinct : List ℕ → Type 0
Distinct [] = Unit {0}
Distinct (a ∷ as') = NotIn a as' × Distinct as'

pub record IsSafe (m : Machine) : Type 0 where
  pub valid : IsValid m.memory
  pub marked : AllOwned m.memory m.owned
  pub distinct : Distinct m.owned

of_done :
    {S A : Type 0} {P : A → S → Type 0} {r : Result S A} {a : A} {s : S}
    → r ≡ done a s
    → Returns P r
    → P a s
of_done e h = opened (rw e at h)
  where
    opened : {S A : Type 0} {P : A → S → Type 0} {a : A} {s : S} → Returns P (done a s) → P a s
    opened (returns p) = p

module _ (s s' : Physical) where
  -- A page that is handed out is none of those that are held, and these stay marked.
  Granted-apart :
      (a : ℕ) (held : List ℕ)
      → Granted s a s'
      → a ≢ null
      → AllOwned s held
      → NotIn a held × AllOwned s' held
  Granted-apart a [] g ne owned = (tt, tt)
  Granted-apart a (b ∷ bs) (page p e lo hi free high marks) ne owned =
      let rest = Granted-apart a bs (page p e lo hi free high marks) ne owned.1 in
      let mark = marks (b / 4096) in
      let start : a / 4096 ≡ p = omega arith in
      (
        (λ same. ground (arith, start), rest.0),
        ((owned.0.0, owned.0.1, ground (arith, mark)), rest.1),
      )
  Granted-apart a (b ∷ bs) (exhausted e all same calls) ne owned = absurd (ne e)

  Granted-IsOwned : (a : ℕ) → Granted s a s' → a ≢ null → IsOwned s' a
  Granted-IsOwned a (page p e lo hi free high marks) ne =
      let start : a / 4096 ≡ p = omega arith in (omega arith, ne, rw start (marks p ∙ rw ==-refl))
  Granted-IsOwned a (exhausted e all same calls) ne = absurd (ne e)

  -- NULL changes no mark.
  refused_owned : (held : List ℕ) → Granted s null s' → AllOwned s held → AllOwned s' held
  refused_owned [] g owned = tt
  refused_owned (b ∷ bs) (page p e lo hi free high marks) owned = absurd (omega arith)
  refused_owned (b ∷ bs) (exhausted e all same calls) owned = (
    (owned.0.0, owned.0.1, rw same owned.0.2),
    refused_owned bs (exhausted e all same calls) owned.1,
  )

  module _ (a : ℕ)
      (bits : (q : ℕ)
        → taken s'.bitmap q ≡ (if frees s a && (a / 4096 == q) then false else taken s.bitmap q))
      (aligned : a % 4096 ≡ 0) where
    -- Freeing a page leaves every other page that is held marked.
    other-IsOwned : (b : ℕ) → a ≢ b → IsOwned s b → IsOwned s' b
    other-IsOwned b ne owned =
        let apart : (a / 4096 == b / 4096) ≡ false = ==-false (omega arith) in
        (owned.0, owned.1, ground (arith, bits (b / 4096), owned.2, apart))

    rest_owned : (held : List ℕ) → NotIn a held → AllOwned s held → AllOwned s' held
    rest_owned [] out owned = tt
    rest_owned (b ∷ bs) out owned = (other-IsOwned b out.0 owned.0, rest_owned bs out.1 owned.1)

-- One entry taken out of the list of pages.
NotIn-cut :
    (b a : ℕ) (before after : List ℕ)
    → NotIn b (before ++ a ∷ after)
    → (b ≢ a) × NotIn b (before ++ after)
NotIn-cut b a [] after out = out
NotIn-cut b a (c ∷ before) after out =
    let rest = NotIn-cut b a before after out.1 in (rest.0, (out.0, rest.1))

Distinct-cut :
    (a : ℕ) (before after : List ℕ)
    → Distinct (before ++ a ∷ after)
    → NotIn a (before ++ after) × Distinct (before ++ after)
Distinct-cut a [] after apart = apart
Distinct-cut a (c ∷ before) after apart =
    let rest = Distinct-cut a before after apart.1 in
    let out = NotIn-cut c a before after apart.0 in ((λ e. out.0 (sym e), rest.0), (out.1, rest.1))

AllOwned-cut :
    (s : Physical) (a : ℕ) (before after : List ℕ)
    → AllOwned s (before ++ a ∷ after)
    → IsOwned s a × AllOwned s (before ++ after)
AllOwned-cut s a [] after owned = owned
AllOwned-cut s a (c ∷ before) after owned =
    let rest = AllOwned-cut s a before after owned.1 in (rest.0, (owned.0, rest.1))

-- What is granted to the holder of a safe list of pages makes it one page longer, and safe.
pub Granted-IsSafe :
    (s s' : Physical) (a : ℕ) (owned : List ℕ)
    → IsSafe (record { memory = s; owned = owned })
    → Granted s a s'
    → IsValid s'
    → a ≢ null
    → IsSafe (record { memory = s'; owned = a ∷ owned })
Granted-IsSafe s s' a owned safe g v ne =
    let (apart, marked) = Granted-apart s s' a owned g ne safe.marked in
    record {
      valid = v;
      marked = (Granted-IsOwned s s' a g ne, marked);
      distinct = (apart, safe.distinct);
    }

Step-IsSafe : {m n : Machine} → Step m n → IsSafe m → IsSafe n
Step-IsSafe (allocate m a s e ne) safe =
    let (g, v, _, _) = of_done e (page_alloc-Granted safe.valid) in
    Granted-IsSafe m.memory s a m.owned safe g v ne
Step-IsSafe (refuse m s e) safe =
    let (g, v, _, _) = of_done e (page_alloc-Granted safe.valid) in
    record {
      valid = v;
      marked = refused_owned m.memory s m.owned g safe.marked;
      distinct = safe.distinct;
    }
Step-IsSafe (release m before after a s held e) safe =
    let (v, _, bits) = of_done e (page_free_lem safe.valid a) in
    let (owned, others) = AllOwned-cut m.memory a before after (rw held at (safe.marked)) in
    let (out, apart) = Distinct-cut a before after (rw held at (safe.distinct)) in
    record {
      valid = v;
      marked = rest_owned m.memory s a bits owned.0 (before ++ after) out others;
      distinct = apart;
    }

-- In any sequence of calls of `physical_pageAlloc` and `physical_pageFree` from a valid state with no
-- page handed out, where only pages that are held are freed: the state stays valid, and the pages held
-- are pages other than page 0, marked in the bitmap, and all different, so that no page is handed out
-- a second time before it is freed.
pub Reach-IsSafe : {m n : Machine} → IsValid m.memory → m.owned ≡ [] → Reach m n → IsSafe n
Reach-IsSafe v none_held here = record {
  valid = v;
  marked = rw none_held tt;
  distinct = rw none_held tt;
}
Reach-IsSafe v none_held (next r step) = Step-IsSafe step (Reach-IsSafe v none_held r)
