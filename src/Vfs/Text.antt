-- ===== src/Vfs/Text.antt =====
-- The comparison of texts decides their equality.
use system_related_projects.Base.{
  ◌≡◌, ◌≢◌, refl, true, false, [], ◌∷◌, arith, ==-refl, inl, inr, Bool-cases,
}
use system_related_projects.Vfs.{Str}
use system_related_projects.Vfs.Mounting.{str_eq}

pub str_eq_refl : (a : Str) → str_eq a a ≡ true
unfolding str_eq
str_eq_refl [] = refl
str_eq_refl (x ∷ xs) = rw (==-refl, str_eq_refl xs)

pub eq_of_str_eq : (a b : Str) → str_eq a b ≡ true → a ≡ b
unfolding str_eq
eq_of_str_eq [] [] h = refl
eq_of_str_eq [] (y ∷ ys) h = cc
eq_of_str_eq (x ∷ xs) [] h = cc
eq_of_str_eq (x ∷ xs) (y ∷ ys) h = ground (arith, eq_of_str_eq xs ys)

pub str_eq-false : {a b : Str} → a ≢ b → str_eq a b ≡ false
str_eq-false {a} {b} ne = elim (Bool-cases (str_eq a b)) [
  | inl e ↦ absurd (ne (eq_of_str_eq a b e))
  | inr e ↦ e
]
