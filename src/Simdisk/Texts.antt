-- ===== src/Simdisk/Texts.antt =====
-- Texts in arrays and ints, compared as the code compares them.
use system_related_projects.Base.{
  ℕ, ◌≡◌, ◌≢◌, refl, true, false, List, [], ◌∷◌, ◌++◌, ◌==◌, arith, Bool-cases, inl, inr, ==-refl,
  ==-false,
}
use system_related_projects.Base.Int.{ℤ, pos, negsuc}
use system_related_projects.Base.Result.{done}
use system_related_projects.Vfs.{Str}
use system_related_projects.Vfs.Mounting.{eq_int, str_eq}
use system_related_projects.Simdisk.Finding.{same_text}

-- A text without a 0, and an array that holds it and its closing 0.
abbrev pub NoNul : Str → Type 0
NoNul [] = Unit {0}
NoNul (c ∷ cs) = (c ≢ 0) × NoNul cs

pub record IsText (bytes : List ℕ) (text : Str) : Type 0 where
  pub rest : List ℕ
  pub holds : bytes ≡ text ++ 0 ∷ rest
  pub no_nul : NoNul text

same_text-append :
    {S : Type 0} (x y : Str) (p q : List ℕ) (s : S)
    → NoNul x
    → NoNul y
    → same_text (x ++ 0 ∷ p) (y ++ 0 ∷ q) s ≡ done (str_eq x y) s
unfolding same_text str_eq
same_text-append [] [] p q s hx hy = refl
same_text-append [] (b ∷ y) p q s hx hy = ground (arith, hy.0)
same_text-append (a ∷ x) [] p q s hx hy = ground (arith, hx.0)
same_text-append (a ∷ x) (b ∷ y) p q s hx hy = elim (Bool-cases (a == b)) [
  | inl e ↦ rw (e, ==-false hx.0) (same_text-append x y p q s hx.1 hy.1)
  | inr e ↦ rw e
]

pub same_text_lem :
    {S : Type 0} {a b : List ℕ} {x y : Str} (s : S)
    → IsText a x
    → IsText b y
    → same_text a b s ≡ done (str_eq x y) s
same_text_lem s p q = rw (p.holds, q.holds) (same_text-append _ _ p.rest q.rest s p.no_nul q.no_nul)

pub eq_int_refl : (a : ℤ) → eq_int a a ≡ true
eq_int_refl (pos n) = ==-refl n
eq_int_refl (negsuc n) = ==-refl n

pub eq_of_eq_int : (a b : ℤ) → eq_int a b ≡ true → a ≡ b
eq_of_eq_int (pos a) (pos b) h = ground arith
eq_of_eq_int (negsuc a) (negsuc b) h = ground arith
eq_of_eq_int (pos a) (negsuc b) h = cc
eq_of_eq_int (negsuc a) (pos b) h = cc

pub eq_int-false : {a b : ℤ} → a ≢ b → eq_int a b ≡ false
eq_int-false {a} {b} ne = elim (Bool-cases (eq_int a b)) [
  | inl e ↦ absurd (ne (eq_of_eq_int a b e))
  | inr e ↦ e
]
