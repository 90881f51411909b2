-- ===== src/Base/Result.antt =====
-- State-passing commands that can go wrong. `fault` is what C leaves undefined (an access outside an
-- array, a string copied past its buffer, a freed object); `spin` is a loop that used up its fuel.
use mathlib.Core.Path.{◌≡◌}

pub data Result (S A : Type 0) : Type 0 where
  done : A → S → Result S A
  fault : Result S A
  spin : Result S A

abbrev pub M : Type 0 → Type 0 → Type 0
M S A = S → Result S A

module _ {S A : Type 0} where
  abbrev pub pure : A → M S A
  pure a s = done a s

module _ {S A B : Type 0} where
  abbrev pub and_then : Result S A → (A → M S B) → Result S B
  and_then (done a s) k = k a s
  and_then fault k = fault
  and_then spin k = spin

  infixl 5 ◌>>=◌ ◌>>◌
  abbrev pub ◌>>=◌ : M S A → (A → M S B) → M S B
  ◌>>=◌ m k = λ s. and_then (m s) k

  abbrev pub ◌>>◌ : M S A → M S B → M S B
  ◌>>◌ m n = λ s. and_then (m s) (λ _. n)

-- Where the state of a component stands in a larger one.
pub record Part (W S : Type 0) : Type 0 where
  pub get : W → S
  pub put : S → W → W

module _ {W S A : Type 0} (part : Part W S) where
  abbrev pub put_back : W → Result S A → Result W A
  put_back w (done a s) = done a (part.put s w)
  put_back w fault = fault
  put_back w spin = spin

  -- A command on the component, run on the whole.
  abbrev pub within : M S A → M W A
  within m w = put_back w (m (part.get w))

-- The run comes to its end, without a fault and within its fuel, and what it returns and leaves
-- behind satisfies `P`.
pub data Returns {S A : Type 0} (P : A → S → Type 0) : Result S A → Type 0 where
  returns : {a : A} {s : S} → P a s → Returns P (done a s)

module _ {S A : Type 0} {P : A → S → Type 0} where
  pub Returns-mono :
      {Q : A → S → Type 0} {r : Result S A}
      → Returns P r
      → ((a : A) (s : S) → P a s → Q a s)
      → Returns Q r
  Returns-mono (returns p) weaken = returns (weaken _ _ p)

  pub Returns-bind :
      {B : Type 0} {Q : B → S → Type 0} {r : Result S A} {k : A → M S B}
      → Returns P r
      → ((a : A) (s : S) → P a s → Returns Q (k a s))
      → Returns Q (and_then r k)
  Returns-bind (returns p) next = next _ _ p

  pub Returns-of : {r : Result S A} {a : A} {s : S} → r ≡ done a s → P a s → Returns P r
  Returns-of e p = rw e (returns p)

-- The answer of a run that ends in `pure` is what was put there.
pub and_then-pure :
    {S A B : Type 0} (r : Result S A) {b c : B} {t : S}
    → and_then r (λ _. pure b) ≡ done c t
    → c ≡ b
and_then-pure (done a s) e = cc
and_then-pure fault e = cc
and_then-pure spin e = cc
