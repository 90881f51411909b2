-- ===== src/Base/Bits.antt =====
-- The bits of a byte, as the bitmaps of the kernel and of the simulated disk use them. The native
-- bit operations have no laws at variables; over a byte every value is checked.
use Prim.Native.Nat.{ℕ, zero, suc, ◌-◌, ◌^◌, ◌<◌, bit_and, bit_or}
use mathlib.Core.Path.{◌≡◌, refl}
use mathlib.Core.Bool.{Bool, true, false, ◌&&◌, not}
use mathlib.Core.Logic.{inl, inr}
use native.Mathlib.Omega.{arith}
use system_related_projects.Base.Tests.{Bool-cases, ◌==◌, ==_iff, ltb, ltb→lt, if◌then◌else◌}

-- Does a byte, or another number under a bound, pass a test without exception?
unfoldable pub passes : (ℕ → Bool) → ℕ → Bool
passes test zero = true
passes test (suc bound) = if test bound then passes test bound else false

pub passes-at :
    (test : ℕ → Bool) (bound : ℕ) {value : ℕ}
    → passes test bound ≡ true
    → value < bound
    → test value ≡ true
unfolding passes
passes-at test zero all below = absurd (omega arith)
passes-at test (suc bound) {value} all below = elim (Bool-cases (test bound)) [
  | inl holds ↦ elim (Bool-cases (value == bound)) [
    | inl same ↦ rw ((==_iff value bound).0 same) holds
    | inr other ↦ passes-at test bound (rw holds at all) (ground arith)
  ]
  | inr fails ↦ ground arith
]

-- `b & (1 << k)`, read as a truth value.
unfoldable pub test_bit : ℕ → ℕ → Bool
test_bit b k = not (bit_and b (2 ^ k) == 0)

-- `b |= 1 << k` on a byte.
unfoldable pub set_bit : ℕ → ℕ → ℕ
set_bit b k = bit_or b (2 ^ k)

-- `b &= ~(1 << k)` on a byte: the complement is stored back in eight bits.
unfoldable pub clear_bit : ℕ → ℕ → ℕ
clear_bit b k = bit_and b (255 - 2 ^ k)

bool_eq : Bool → Bool → Bool
bool_eq true true = true
bool_eq false false = true
bool_eq _ _ = false

bool_eq_sound : (a b : Bool) → bool_eq a b ≡ true → a ≡ b
unfolding bool_eq
bool_eq_sound true true h = refl
bool_eq_sound false false h = refl
bool_eq_sound true false h = cc
bool_eq_sound false true h = cc

set_case : ℕ → ℕ → ℕ → Bool
unfolding test_bit set_bit bool_eq
set_case b k j =
    ltb (set_bit b k) 256
    && bool_eq (test_bit (set_bit b k) j) (if k == j then true else test_bit b j)

clear_case : ℕ → ℕ → ℕ → Bool
unfolding test_bit clear_bit bool_eq
clear_case b k j =
    ltb (clear_bit b k) 256
    && bool_eq (test_bit (clear_bit b k) j) (if k == j then false else test_bit b j)

set_table : passes (λ b. passes (λ k. passes (λ j. set_case b k j) 8) 8) 256 ≡ true
unfolding passes set_case
set_table = refl

clear_table : passes (λ b. passes (λ k. passes (λ j. clear_case b k j) 8) 8) 256 ≡ true
unfolding passes clear_case
clear_table = refl

restore_table :
    passes (λ b. passes (λ k. if test_bit b k then true else clear_bit (set_bit b k) k == b) 8) 256
    ≡ true
unfolding passes test_bit set_bit clear_bit
restore_table = refl

and_left : (a b : Bool) → (a && b) ≡ true → a ≡ true
and_left true b h = refl
and_left false b h = cc

and_right : (a b : Bool) → (a && b) ≡ true → b ≡ true
and_right true b h = h
and_right false b h = cc

module _ (b k j : ℕ) (hb : b < 256) (hk : k < 8) (hj : j < 8) where
  set_case-true : set_case b k j ≡ true
  set_case-true =
      passes-at _ 8 {value = j}
        (passes-at _ 8 {value = k} (passes-at _ 256 {value = b} set_table hb) hk) hj

  clear_case-true : clear_case b k j ≡ true
  clear_case-true =
      passes-at _ 8 {value = j}
        (passes-at _ 8 {value = k} (passes-at _ 256 {value = b} clear_table hb) hk) hj

  pub test_bit-set_bit : test_bit (set_bit b k) j ≡ (if k == j then true else test_bit b j)
  unfolding set_case
  test_bit-set_bit = bool_eq_sound _ _ (and_right (ltb (set_bit b k) 256) _ set_case-true)

  pub test_bit-clear_bit : test_bit (clear_bit b k) j ≡ (if k == j then false else test_bit b j)
  unfolding clear_case
  test_bit-clear_bit = bool_eq_sound _ _ (and_right (ltb (clear_bit b k) 256) _ clear_case-true)

module _ (b k : ℕ) (hb : b < 256) (hk : k < 8) where
  pub set_bit-lt : set_bit b k < 256
  unfolding set_case
  set_bit-lt = ltb→lt _ _ (and_left _ (bool_eq _ _) (set_case-true b k k hb hk hk))

  pub clear_bit-lt : clear_bit b k < 256
  unfolding clear_case
  clear_bit-lt = ltb→lt _ _ (and_left _ (bool_eq _ _) (clear_case-true b k k hb hk hk))

  -- Clearing a bit that was just set, on a byte that did not have it, gives the byte back.
  pub clear_bit-set_bit : test_bit b k ≡ false → clear_bit (set_bit b k) k ≡ b
  clear_bit-set_bit off =
      (==_iff _ b).0
        (rw off at (passes-at _ 8 {value = k} (passes-at _ 256 {value = b} restore_table hb) hk))
