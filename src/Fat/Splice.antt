-- ===== src/Fat/Splice.antt =====
-- Buffers that are written piece by piece.
use system_related_projects.Base.{
  ℕ, zero, suc, ◌+◌, ◌≤◌, ◌≡◌, refl, ap, sym, ◌∙◌, List, [], ◌∷◌, ◌++◌, length, take, drop, get_or,
  arith, length-append, length-take, length-drop,
}
use system_related_projects.Base.Result.{done}
use system_related_projects.Fat.{splice, overlay, slice}

-- Every element of a list satisfies `P`.
pub data Every {A : Type 0} (P : A → Type 0) : List A → Type 0 where
  every_nil : Every P []
  every_cons : {x : A} {xs : List A} → P x → Every P xs → Every P (x ∷ xs)

-- What lies in a list behind a part of known length.
pub take-exact : (n : ℕ) (xs ys : List ℕ) → length xs ≡ n → take n (xs ++ ys) ≡ xs
take-exact zero [] ys h = refl
take-exact zero (x ∷ xs) ys h = absurd (omega arith)
take-exact (suc n) [] ys h = absurd (omega arith)
take-exact (suc n) (x ∷ xs) ys h = ap (λ zs. x ∷ zs) (take-exact n xs ys (omega arith))

pub drop-past : (i k : ℕ) (xs ys : List ℕ) → i ≡ length xs + k → drop i (xs ++ ys) ≡ drop k ys
drop-past i k [] ys h = let e : i ≡ k = omega arith in rw e refl
drop-past i k (x ∷ xs) ys h =
    let e : i ≡ suc (length xs + k) = omega arith in rw e (drop-past (length xs + k) k xs ys refl)

pub get_or-past :
    (i k : ℕ) (xs ys : List ℕ) → i ≡ length xs + k → get_or (xs ++ ys) i 0 ≡ get_or ys k 0
get_or-past i k [] ys h = let e : i ≡ k = omega arith in rw e refl
get_or-past i k (x ∷ xs) ys h =
    let e : i ≡ suc (length xs + k) = omega arith in rw e (get_or-past (length xs + k) k xs ys refl)

pub append_assoc : (xs ys zs : List ℕ) → (xs ++ ys) ++ zs ≡ xs ++ (ys ++ zs)
append_assoc [] ys zs = refl
append_assoc (x ∷ xs) ys zs = ap (λ l. x ∷ l) (append_assoc xs ys zs)

pub append-nil : (xs : List ℕ) → xs ++ [] ≡ xs
append-nil [] = refl
append-nil (x ∷ xs) = ap (λ l. x ∷ l) (append-nil xs)

pub drop_all : (n : ℕ) (xs : List ℕ) → length xs ≤ n → drop n xs ≡ []
drop_all zero [] h = refl
drop_all zero (x ∷ xs) h = absurd (omega arith)
drop_all (suc n) [] h = refl
drop_all (suc n) (x ∷ xs) h = drop_all n xs (omega arith)

pub take_all : (n : ℕ) (xs : List ℕ) → length xs ≤ n → take n xs ≡ xs
take_all zero [] h = refl
take_all zero (x ∷ xs) h = absurd (omega arith)
take_all (suc n) [] h = refl
take_all (suc n) (x ∷ xs) h = ap (λ l. x ∷ l) (take_all n xs (omega arith))

pub take-append_le : (n : ℕ) (xs ys : List ℕ) → n ≤ length xs → take n (xs ++ ys) ≡ take n xs
take-append_le zero xs ys h = refl
take-append_le (suc n) [] ys h = absurd (omega arith)
take-append_le (suc n) (x ∷ xs) ys h = ap (λ l. x ∷ l) (take-append_le n xs ys (omega arith))

-- Behind the whole of the first list.
pub take-append_ge : (n : ℕ) (xs ys : List ℕ) → take (length xs + n) (xs ++ ys) ≡ xs ++ take n ys
take-append_ge n [] ys = let e : 0 + n ≡ n = omega arith in rw e refl
take-append_ge n (x ∷ xs) ys =
    let e : suc (length xs) + n ≡ suc (length xs + n) = omega arith in
    rw e (ap (λ l. x ∷ l) (take-append_ge n xs ys))

-- Two neighbouring parts of a list are one.
pub take-drop_add : (a b : ℕ) (xs : List ℕ) → take a xs ++ take b (drop a xs) ≡ take (a + b) xs
take-drop_add zero b xs = let e : 0 + b ≡ b = omega arith in rw e refl
take-drop_add (suc a) zero [] = let e : suc a + 0 ≡ suc a = omega arith in rw e refl
take-drop_add (suc a) (suc b) [] =
    let e : suc a + suc b ≡ suc (a + suc b) = omega arith in rw e refl
take-drop_add (suc a) b (x ∷ xs) =
    let e : suc a + b ≡ suc (a + b) = omega arith in rw e (ap (λ l. x ∷ l) (take-drop_add a b xs))

pub drop-drop : (a b : ℕ) (xs : List ℕ) → drop b (drop a xs) ≡ drop (a + b) xs
drop-drop zero b xs = let e : 0 + b ≡ b = omega arith in rw e refl
drop-drop (suc a) zero [] = let e : suc a + 0 ≡ suc a = omega arith in rw e refl
drop-drop (suc a) (suc b) [] = let e : suc a + suc b ≡ suc (a + suc b) = omega arith in rw e refl
drop-drop (suc a) b (x ∷ xs) =
    let e : suc a + b ≡ suc (a + b) = omega arith in rw e (drop-drop a b xs)

pub overlay_lem :
    {S : Type 0} (buffer : List ℕ) (at : ℕ) (bytes : List ℕ) (s : S)
    → at + length bytes ≤ length buffer
    → overlay buffer at bytes s ≡ done (splice buffer at bytes) s
unfolding overlay
overlay_lem buffer at bytes s h = ground arith

pub slice_lem :
    {S : Type 0} (buffer : List ℕ) (at count : ℕ) (s : S)
    → at + count ≤ length buffer
    → slice buffer at count s ≡ done (take count (drop at buffer)) s
unfolding slice
slice_lem buffer at count s h = ground arith

pub length-splice :
    (buffer : List ℕ) (at : ℕ) (bytes : List ℕ)
    → at + length bytes ≤ length buffer
    → length (splice buffer at bytes) ≡ length buffer
unfolding splice
length-splice buffer at bytes h =
    let whole = length-append (take at buffer) (bytes ++ drop (at + length bytes) buffer) in
    let rest = length-append bytes (drop (at + length bytes) buffer) in
    let front = length-take at buffer in
    let back = length-drop (at + length bytes) buffer in ground arith

-- A buffer that is written from its start to its end.
pub splice_whole :
    (buffer bytes : List ℕ) → length bytes ≡ length buffer → splice buffer 0 bytes ≡ bytes
unfolding splice
splice_whole buffer bytes h =
    rw (drop_all (0 + length bytes) buffer (omega arith)) (append-nil bytes)

-- A second piece that is put behind the first.
pub splice-splice :
    (buffer : List ℕ) (at : ℕ) (xs ys : List ℕ)
    → at + length xs ≤ length buffer
    → splice (splice buffer at xs) (at + length xs) ys ≡ splice buffer at (xs ++ ys)
unfolding splice
splice-splice buffer at xs ys h =
    let n = length (take at buffer) in
    let front : n ≡ at = let t = length-take at buffer in ground arith in
    let rest = xs ++ drop (at + length xs) buffer in
    let place : at + length xs ≡ n + length xs = omega arith in
    let kept : take (at + length xs) (take at buffer ++ rest) ≡ take at buffer ++ xs =
      ap (λ k. take k (take at buffer ++ rest)) place
      ∙ take-append_ge (length xs) (take at buffer) rest
      ∙ ap (λ l. take at buffer ++ l)
          (take-exact (length xs) xs (drop (at + length xs) buffer) refl) in
    let behind : drop (at + length xs + length ys) (take at buffer ++ rest)
        ≡ drop (at + length (xs ++ ys)) buffer =
      drop-past (at + length xs + length ys) (length xs + length ys) (take at buffer) rest
        (omega arith)
      ∙ drop-past (length xs + length ys) (length ys) xs _ (omega arith)
      ∙ drop-drop (at + length xs) (length ys) buffer
      ∙ ap (λ k. drop k buffer) (let l = length-append xs ys in omega arith) in
    rw kept (
      rw behind (
        append_assoc (take at buffer) xs _
        ∙ ap (λ l. take at buffer ++ l) (sym (append_assoc xs ys _))))
