-- ===== src/Simdisk/Content.antt =====
-- The bytes of a file as a function, and the ints in them.
use system_related_projects.Base.{
  ℕ, zero, suc, ◌+◌, ◌-◌, ◌*◌, ◌≤◌, ◌<◌, ◌≡◌, refl, ap, ◌∙◌, List, [], ◌∷◌, ltb, leb, if◌then◌else◌,
  length, get_or, arith, ◌&&◌, ◌⊎◌,
}
use system_related_projects.Base.Int.{ℤ}
use system_related_projects.Simdisk.Layout.{overwrite, int_at, int_of}
use system_related_projects.Simdisk.Words.{get_or-overwrite_in}

-- The bytes of a file after `n` bytes of a buffer are written at a place.
abbrev pub written : (ℕ → ℕ) → ℕ → ℕ → List ℕ → ℕ → ℕ
written c at n buffer i = if leb at i && ltb i (at + n) then get_or buffer (i - at) 0 else c i

unfoldable pub bytes_of : (ℕ → ℕ) → ℕ → ℕ → List ℕ
bytes_of c at zero = []
bytes_of c at (suc n) = c at ∷ bytes_of c (at + 1) n

-- The int of four bytes, and the int at a place of the file.
abbrev pub int4 : ℕ → ℕ → ℕ → ℕ → ℤ
int4 a b c d = int_of (a + 256 * b + 65536 * c + 16777216 * d)

unfoldable pub int_in : (ℕ → ℕ) → ℕ → ℤ
int_in c q = int4 (c q) (c (q + 1)) (c (q + 2)) (c (q + 3))

get_or-bytes_of : (c : ℕ → ℕ) (p n i : ℕ) → i < n → get_or (bytes_of c p n) i 0 ≡ c (p + i)
unfolding bytes_of
get_or-bytes_of c p zero i h = absurd (omega arith)
get_or-bytes_of c p (suc n) zero h = let e : p + 0 ≡ p = omega arith in rw e refl
get_or-bytes_of c p (suc n) (suc i) h =
    let e : p + suc i ≡ p + 1 + i = omega arith in
    rw e (get_or-bytes_of c (p + 1) n i (omega arith))

length-bytes_of : (c : ℕ → ℕ) (p n : ℕ) → length (bytes_of c p n) ≡ n
unfolding bytes_of
length-bytes_of c p zero = refl
length-bytes_of c p (suc n) = ap suc (length-bytes_of c (p + 1) n)

-- A byte of a buffer that `n` bytes are read into.
get_or-read :
    (b : List ℕ) (c : ℕ → ℕ) (p n i : ℕ)
    → i < n
    → n ≤ length b
    → get_or (overwrite b 0 (bytes_of c p n)) i 0 ≡ c (p + i)
get_or-read b c p n i h room =
    let l = length-bytes_of c p n in
    let e : i - 0 ≡ i = omega arith in
    get_or-overwrite_in b 0 (bytes_of c p n) i (omega arith) (omega arith) (omega arith)
    ∙ ap (λ k. get_or (bytes_of c p n) k 0) e
    ∙ get_or-bytes_of c p n i h

-- An int of such a buffer is that of the file.
pub int_at-read :
    (b : List ℕ) (c : ℕ → ℕ) (p n i : ℕ)
    → i + 4 ≤ n
    → n ≤ length b
    → int_at (overwrite b 0 (bytes_of c p n)) i ≡ int_in c (p + i)
unfolding int_at int_in
int_at-read b c p n i h room =
    let a1 : p + (i + 1) ≡ p + i + 1 = omega arith in
    let a2 : p + (i + 2) ≡ p + i + 2 = omega arith in
    let a3 : p + (i + 3) ≡ p + i + 3 = omega arith in
    rw (
      get_or-read b c p n i (omega arith) room,
      get_or-read b c p n (i + 1) (omega arith) room,
      get_or-read b c p n (i + 2) (omega arith) room,
      get_or-read b c p n (i + 3) (omega arith) room,
      a1,
      a2,
      a3,
    )

written_in :
    (c : ℕ → ℕ) (at n : ℕ) (b : List ℕ) (q : ℕ)
    → at ≤ q
    → q < at + n
    → written c at n b q ≡ get_or b (q - at) 0
written_in c at n b q low high = ground arith

written_out :
    (c : ℕ → ℕ) (at n : ℕ) (b : List ℕ) (q : ℕ) → (q < at) ⊎ (at + n ≤ q) → written c at n b q ≡ c q
written_out c at n b q apart = ground arith

pub int_in-written_in :
    (c : ℕ → ℕ) (at n : ℕ) (b : List ℕ) (q : ℕ)
    → at ≤ q
    → q + 4 ≤ at + n
    → int_in (written c at n b) q ≡ int_at b (q - at)
unfolding int_at int_in
int_in-written_in c at n b q low high =
    let a1 : q + 1 - at ≡ q - at + 1 = omega arith in
    let a2 : q + 2 - at ≡ q - at + 2 = omega arith in
    let a3 : q + 3 - at ≡ q - at + 3 = omega arith in
    let w0 = written_in c at n b q low (omega arith) in
    let w1 = written_in c at n b (q + 1) (omega arith) (omega arith) in
    let w2 = written_in c at n b (q + 2) (omega arith) (omega arith) in
    let w3 = written_in c at n b (q + 3) (omega arith) (omega arith) in
    rw (w0, w1, w2, w3, a1, a2, a3)

pub int_in-written_out :
    (c : ℕ → ℕ) (at n : ℕ) (b : List ℕ) (q : ℕ)
    → (q + 4 ≤ at) ⊎ (at + n ≤ q)
    → int_in (written c at n b) q ≡ int_in c q
unfolding int_in
int_in-written_out c at n b q apart =
    let w0 = written_out c at n b q (ground arith) in
    let w1 = written_out c at n b (q + 1) (ground arith) in
    let w2 = written_out c at n b (q + 2) (ground arith) in
    let w3 = written_out c at n b (q + 3) (ground arith) in rw (w0, w1, w2, w3)
