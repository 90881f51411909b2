-- ===== src/Fat/Packing.antt =====
-- The 12-bit table, and what is read after a write to the others.
use system_related_projects.Base.{
  ℕ, zero, suc, ◌+◌, ◌*◌, ◌/◌, ◌%◌, ◌<◌, ◌≤◌, ◌≡◌, ◌≢◌, refl, ap, true, false, ◌==◌, if◌then◌else◌,
  List, [], ◌∷◌, length, get_or, set, get_or-set, ==-false, ltb, leb, length-set, ◌⊎◌, inl, inr,
  ◌^◌, arith,
}
use system_related_projects.Base.Int.{pos, fail}
use system_related_projects.Fat.{FatMount, Volume, fat_12, fat_16, fat_32, word_at, on_mount}
use system_related_projects.Fat.Table.{
  table_entry, table_reach, set_place, set_at, cluster12, set_fat_cluster, get_fat_cluster,
}
use system_related_projects.Base.Result.{Returns, returns, ◌>>◌}

-- Two entries of 12 bits to three bytes, as the file system lays them down.
unfoldable pub pack12 : List (ℕ × ℕ) → List ℕ
pack12 [] = []
pack12 (p ∷ pairs) = p.0 % 256 ∷ (p.0 / 256 + 16 * (p.1 % 16)) ∷ p.1 / 16 ∷ pack12 pairs

-- The entries in their order, 0 behind the last.
unfoldable pub entry12 : List (ℕ × ℕ) → ℕ → ℕ
entry12 [] c = 0
entry12 (p ∷ pairs) zero = p.0
entry12 (p ∷ pairs) (suc zero) = p.1
entry12 (p ∷ pairs) (suc (suc c)) = entry12 pairs c

pub data Fits : List (ℕ × ℕ) → Type 0 where
  fits_nil : Fits []
  fits_cons :
      {p : ℕ × ℕ} {pairs : List (ℕ × ℕ)} → p.0 < 4096 → p.1 < 4096 → Fits pairs → Fits (p ∷ pairs)

raw12 : List ℕ → ℕ → ℕ
raw12 fat c = let w = word_at fat (c * 3 / 2) in if c % 2 == 1 then w / 16 else cluster12 w

raw12_lem : {pairs : List (ℕ × ℕ)} → Fits pairs → (c : ℕ) → raw12 (pack12 pairs) c ≡ entry12 pairs c
unfolding raw12 pack12 entry12
raw12_lem fits_nil c = ground arith
raw12_lem (fits_cons {p = p} h k rest) zero = omega arith
raw12_lem (fits_cons {p = p} h k rest) (suc zero) = omega arith
raw12_lem (fits_cons {p = p} {pairs = pairs} h k rest) (suc (suc c)) =
    let place : suc (suc c) * 3 / 2 ≡ suc (suc (suc (c * 3 / 2))) = omega arith in
    let parity : suc (suc c) % 2 ≡ c % 2 = omega arith in
    let next : c * 3 / 2 + 1 ≡ suc (c * 3 / 2) = omega arith in
    let after : suc (suc (suc (c * 3 / 2))) + 1 ≡ suc (suc (suc (suc (c * 3 / 2)))) = omega arith in
    rw place (rw parity (rw after (rw next at (raw12_lem rest c))))

-- A 12-bit table that two entries to three bytes are packed into is read back entry by entry, where
-- all entries are below 0x1000; the last entry of a chain, 0xFFF, is read as FAIL.
pub table_entry-pack12 :
    {pairs : List (ℕ × ℕ)}
    → Fits pairs
    → (c : ℕ)
    → table_entry fat_12 (pack12 pairs) c
      ≡ (if entry12 pairs c == 0xfff then fail else pos (entry12 pairs c))
unfolding table_entry raw12
table_entry-pack12 fit c = ap (λ next. if next == 0xfff then fail else pos next) (raw12_lem fit c)

get_or-elsewhere :
    (xs : List ℕ) (i j v : ℕ) → i < length xs → i ≢ j → get_or (set xs i v) j 0 ≡ get_or xs j 0
get_or-elsewhere xs i j v h ne = rw (get_or-set xs i j v 0 h) (rw (==-false ne) refl)

-- A 16- or a 32-bit table is written at the byte of the cluster's number.
table_entry-set16 :
    (fat : List ℕ) (c v : ℕ)
    → 1 ≤ c
    → c < length fat
    → table_entry fat_16 (set fat c v) c ≡ table_entry fat_16 fat c
unfolding table_entry
table_entry-set16 fat c v h within =
    let low = get_or-elsewhere fat c (2 * c) v within (omega arith) in
    let high = get_or-elsewhere fat c (2 * c + 1) v within (omega arith) in rw low (rw high refl)

table_entry-set32 :
    (fat : List ℕ) (c v : ℕ)
    → 1 ≤ c
    → c < length fat
    → table_entry fat_32 (set fat c v) c ≡ table_entry fat_32 fat c
unfolding table_entry
table_entry-set32 fat c v h within =
    let a = get_or-elsewhere fat c (4 * c) v within (omega arith) in
    let b = get_or-elsewhere fat c (4 * c + 1) v within (omega arith) in
    let e = get_or-elsewhere fat c (4 * c + 2) v within (omega arith) in
    let f = get_or-elsewhere fat c (4 * c + 2 + 1) v within (omega arith) in
    rw a (rw b (rw e (rw f refl)))

module _ {D H : Type 0} (vol : Volume D H) (m : FatMount H) (d : D) where
  -- Writing an entry of a 16- or 32-bit table, of any cluster but 0 and without a commit, does not
  -- change what is read for this cluster afterwards: the table is written at another place than it
  -- is read at. The condition is that the table has the bytes of the cluster.
  pub get_fat_cluster-set_fat_cluster :
      (m.type ≡ fat_16) ⊎ (m.type ≡ fat_32)
      → (c value : ℕ) → 1 ≤ c
      → table_reach m.type c ≤ length m.fat_data
      → Returns
          (λ r t. r ≡ table_entry m.type m.fat_data c)
          ((set_fat_cluster vol (pos c) value false >> get_fat_cluster (pos c)) (on_mount m d))
  unfolding set_fat_cluster set_at get_fat_cluster set_place table_reach
  get_fat_cluster-set_fat_cluster (inl wide) c value h within =
      let bytes : 2 * c + 2 ≤ length m.fat_data = rw wide at within in
      let inside : ltb c (length m.fat_data) ≡ true = ground arith in
      let fits : leb (2 * c + 2) (length (set m.fat_data c (value % 2 ^ 16 % 256))) ≡ true =
        rw (length-set m.fat_data c (value % 2 ^ 16 % 256)) (ground arith) in
      rw wide (rw inside (rw fits (returns (table_entry-set16 m.fat_data c _ h (omega arith)))))
  get_fat_cluster-set_fat_cluster (inr wide) c value h within =
      let bytes : 4 * c + 4 ≤ length m.fat_data = rw wide at within in
      let inside : ltb c (length m.fat_data) ≡ true = ground arith in
      let fits : leb (4 * c + 4) (length (set m.fat_data c (value % 2 ^ 28 % 256))) ≡ true =
        rw (length-set m.fat_data c (value % 2 ^ 28 % 256)) (ground arith) in
      rw wide (rw inside (rw fits (returns (table_entry-set32 m.fat_data c _ h (omega arith)))))
