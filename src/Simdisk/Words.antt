-- ===== src/Simdisk/Words.antt =====
-- Ints in the buffers and in the bytes of the simulated disk.
use system_related_projects.Base.{
  ℕ, zero, suc, ◌+◌, ◌-◌, ◌*◌, ◌/◌, ◌%◌, ◌^◌, ◌≤◌, ◌<◌, ◌≡◌, refl, ap, ◌∙◌, List, [], ◌∷◌, length,
  get_or, arith, ◌⊎◌, inl,
}
use system_related_projects.Base.Int.{ℤ, pos, negsuc}
use system_related_projects.Simdisk.Layout.{overwrite, word_of, int_bytes, int_of, int_at, put_int}
use system_related_projects.Simdisk.Making.{fill_ints}

pub length-overwrite :
    (b : List ℕ) (at : ℕ) (bytes : List ℕ) → length (overwrite b at bytes) ≡ length b
unfolding overwrite
length-overwrite [] at bytes = refl
length-overwrite (x ∷ xs) (suc at) bytes = ap suc (length-overwrite xs at bytes)
length-overwrite (x ∷ xs) zero [] = refl
length-overwrite (x ∷ xs) zero (b ∷ bytes) = ap suc (length-overwrite xs zero bytes)

pub get_or-overwrite_in :
    (b : List ℕ) (at : ℕ) (bytes : List ℕ) (q : ℕ)
    → at ≤ q
    → q < at + length bytes
    → at + length bytes ≤ length b
    → get_or (overwrite b at bytes) q 0 ≡ get_or bytes (q - at) 0
unfolding overwrite
get_or-overwrite_in [] at bytes q low high fits = absurd (omega arith)
get_or-overwrite_in (x ∷ xs) (suc at) bytes zero low high fits = absurd (omega arith)
get_or-overwrite_in (x ∷ xs) (suc at) bytes (suc q) low high fits =
    let e : suc q - suc at ≡ q - at = omega arith in
    rw e (get_or-overwrite_in xs at bytes q (omega arith) (omega arith) (omega arith))
get_or-overwrite_in (x ∷ xs) zero [] q low high fits = absurd (omega arith)
get_or-overwrite_in (x ∷ xs) zero (b ∷ bytes) zero low high fits = refl
get_or-overwrite_in (x ∷ xs) zero (b ∷ bytes) (suc q) low high fits =
    let e : suc q - 0 ≡ suc (q - 0) = omega arith in
    rw e (get_or-overwrite_in xs zero bytes q (omega arith) (omega arith) (omega arith))

pub get_or-overwrite_out :
    (b : List ℕ) (at : ℕ) (bytes : List ℕ) (i : ℕ)
    → (i < at) ⊎ (at + length bytes ≤ i)
    → get_or (overwrite b at bytes) i 0 ≡ get_or b i 0
unfolding overwrite
get_or-overwrite_out [] at bytes i h = refl
get_or-overwrite_out (x ∷ xs) (suc at) bytes zero h = refl
get_or-overwrite_out (x ∷ xs) (suc at) bytes (suc i) h =
    get_or-overwrite_out xs at bytes i (ground arith)
get_or-overwrite_out (x ∷ xs) zero [] i h = refl
get_or-overwrite_out (x ∷ xs) zero (b ∷ bytes) zero h = ground arith
get_or-overwrite_out (x ∷ xs) zero (b ∷ bytes) (suc i) h =
    get_or-overwrite_out xs zero bytes i (ground arith)

word_of_lt : (i : ℤ) → word_of i < 2 ^ 32
word_of_lt (pos n) = omega arith
word_of_lt (negsuc n) = omega arith

word_bytes_lem :
    (w : ℕ)
    → w < 2 ^ 32
    → w % 256 + 256 * (w / 256 % 256) + 65536 * (w / 65536 % 256) + 16777216 * (w / 16777216 % 256)
      ≡ w
word_bytes_lem w h = omega arith

pub int_at-put_int :
    (b : List ℕ) (at : ℕ) (i : ℤ)
    → at + 4 ≤ length b
    → int_at (put_int b at i) at ≡ int_of (word_of i)
unfolding int_at put_int
int_at-put_int b at i fits =
    let e0 = get_or-overwrite_in b at (int_bytes i) at (omega arith) (omega arith) fits in
    let e1 = get_or-overwrite_in b at (int_bytes i) (at + 1) (omega arith) (omega arith) fits in
    let e2 = get_or-overwrite_in b at (int_bytes i) (at + 2) (omega arith) (omega arith) fits in
    let e3 = get_or-overwrite_in b at (int_bytes i) (at + 3) (omega arith) (omega arith) fits in
    let z : at - at ≡ 0 = omega arith in
    let o : at + 1 - at ≡ 1 = omega arith in
    let t : at + 2 - at ≡ 2 = omega arith in
    let h : at + 3 - at ≡ 3 = omega arith in
    rw (e0, e1, e2, e3, z, o, t, h) (ap int_of (word_bytes_lem (word_of i) (word_of_lt i)))

-- An int that is written does not touch one that lies apart from it.
pub int_at-overwrite :
    (b : List ℕ) (at : ℕ) (bytes : List ℕ) (q : ℕ)
    → (q + 4 ≤ at) ⊎ (at + length bytes ≤ q)
    → int_at (overwrite b at bytes) q ≡ int_at b q
unfolding int_at
int_at-overwrite b at bytes q apart = rw (
  get_or-overwrite_out b at bytes q (ground arith),
  get_or-overwrite_out b at bytes (q + 1) (ground arith),
  get_or-overwrite_out b at bytes (q + 2) (ground arith),
  get_or-overwrite_out b at bytes (q + 3) (ground arith),
)

pub int_at-fill_ints :
    (n : ℕ) (at : ℕ) (i : ℤ) (b : List ℕ) (q : ℕ)
    → q + 4 ≤ at
    → int_at (fill_ints n at i b) q ≡ int_at b q
unfolding fill_ints put_int
int_at-fill_ints zero at i b q below = refl
int_at-fill_ints (suc n) at i b q below =
    int_at-fill_ints n (at + 4) i (put_int b at i) q (omega arith)
    ∙ int_at-overwrite b at (int_bytes i) q (inl below)
