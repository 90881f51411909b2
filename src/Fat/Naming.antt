-- ===== src/Fat/Naming.antt =====
-- A name that is stored in an entry and compared with it again: fat_setFileName and fat_compareName
-- of fat.c.
use system_related_projects.Base.{
  ℕ, zero, suc, ◌+◌, ◌-◌, ◌≤◌, ◌<◌, ◌≡◌, ◌≢◌, lt→ltb, refl, ap, sym, false, ◌||◌, some, List, [],
  ◌∷◌, ◌++◌, ◌==◌, ==-false, ==-refl, get_or, get_elem?, set, replicate, map, length, length-append,
  length-map, arith,
}
use system_related_projects.Base.Int.{success}
use system_related_projects.Base.Result.{done, ◌>>=◌}
use system_related_projects.Fat.{Entry, FatFile, pad_byte, extension_size}
use system_related_projects.Fat.Names.{
  dot, upper_string, byte_of, or_fault, match_name, compare_name, fill_name, set_file_name,
}
use system_related_projects.Fat.Splice.{Every, every_cons, append_assoc, append-nil, get_or-past}

-- A character that may stand in a name, once it is in upper case.
pub record Plain (b : ℕ) : Type 0 where
  pub not_nul : b ≢ 0
  pub not_dot : b ≢ dot
  pub not_pad : b ≢ pad_byte
  pub ascii : b < 128

get_elem?-past : (pre rest : List ℕ) (b : ℕ) → get_elem? (pre ++ b ∷ rest) (length pre) ≡ some b
get_elem?-past [] rest b = refl
get_elem?-past (x ∷ pre) rest b = get_elem?-past pre rest b

set-past : (pre rest : List ℕ) (a b : ℕ) → set (pre ++ a ∷ rest) (length pre) b ≡ pre ++ b ∷ rest
set-past [] rest a b = refl
set-past (x ∷ pre) rest a b = ap (λ l. x ∷ l) (set-past pre rest a b)

byte_lem :
    {S : Type 0} (pre rest : List ℕ) (b : ℕ) (s : S)
    → byte_of (pre ++ b ∷ rest) (length pre) s ≡ done b s
unfolding byte_of or_fault
byte_lem pre rest b s = rw (get_elem?-past pre rest b) refl

snoc_lem : (pre rest : List ℕ) (b : ℕ) → (pre ++ b ∷ []) ++ rest ≡ pre ++ b ∷ rest
snoc_lem pre rest b = append_assoc pre (b ∷ []) rest

length-snoc : (pre : List ℕ) (b : ℕ) → length (pre ++ b ∷ []) ≡ length pre + 1
length-snoc pre b = length-append pre (b ∷ [])

-- The loop stores the rest of a name behind what it has stored.
fill_name_lem :
    {S : Type 0} (n : ℕ) (rest pre junk : List ℕ) (free : ℕ) (s : S)
    → Every Plain rest
    → n ≡ length rest + free
    → fill_name (pre ++ (rest ++ 0 ∷ junk)) n (length pre) (pre ++ replicate n pad_byte) s
      ≡ done (length (pre ++ rest), (pre ++ rest) ++ replicate free pad_byte) s
unfolding fill_name
fill_name_lem zero [] pre junk free s every h =
    let none : free ≡ 0 = omega arith in
    rw none (rw (append-nil pre) (ap (λ l. done (length pre, l) s) (sym (append-nil pre))))
fill_name_lem zero (b ∷ rest) pre junk free s every h = absurd (omega arith)
fill_name_lem (suc n) [] pre junk free s every h =
    let all : free ≡ suc n = omega arith in
    rw all (rw (byte_lem pre junk 0 s) (rw (append-nil pre) refl))
fill_name_lem (suc n) (b ∷ rest) pre junk free s (every_cons plain every) h =
    let later = fill_name_lem n rest (pre ++ b ∷ []) junk free s every (omega arith) in
    let goes_on : (b == 0 || b == dot) ≡ false =
      rw (==-false plain.not_nul) (==-false plain.not_dot) in
    rw (byte_lem pre (rest ++ 0 ∷ junk) b s) (
      rw goes_on (
        rw (set-past pre (replicate n pad_byte) pad_byte b) (
          rw
            (
              snoc_lem pre (rest ++ 0 ∷ junk) b,
              snoc_lem pre (replicate n pad_byte) b,
              snoc_lem pre rest b,
              length-snoc pre b,
            )
            at later)))

match_name_lem :
    {S : Type 0} (n : ℕ) (rest pre junk : List ℕ) (free : ℕ) (s : S)
    → Every Plain rest
    → n ≡ length rest + free
    → match_name
        ((pre ++ rest) ++ replicate free pad_byte)
        (pre ++ (rest ++ 0 ∷ junk))
        n
        (length pre)
        s
      ≡ done (some (length (pre ++ rest))) s
unfolding match_name
match_name_lem zero [] pre junk free s every h = rw (append-nil pre) refl
match_name_lem zero (b ∷ rest) pre junk free s every h = absurd (omega arith)
match_name_lem (suc n) [] pre junk free s every h =
    let all : free ≡ suc n = omega arith in
    rw all (
      rw (append-nil pre)
        (rw (get_or-past (length pre) 0 pre (pad_byte ∷ replicate n pad_byte) (omega arith)) refl))
match_name_lem (suc n) (b ∷ rest) pre junk free s (every_cons plain every) h =
    let later = match_name_lem n rest (pre ++ b ∷ []) junk free s every (omega arith) in
    let field = (pre ++ b ∷ rest) ++ replicate free pad_byte in
    let here : get_or field (length pre) 0 ≡ b =
      rw (append_assoc pre (b ∷ rest) (replicate free pad_byte))
        (get_or-past (length pre) 0 pre (b ∷ (rest ++ replicate free pad_byte)) (omega arith)) in
    rw here (
      rw (==-false plain.not_pad) (
        rw (byte_lem pre (rest ++ 0 ∷ junk) b s) (
          rw (lt→ltb _ _ plain.ascii, ==-refl b)
            (rw (snoc_lem pre (rest ++ 0 ∷ junk) b, snoc_lem pre rest b, length-snoc pre b) at
              later))))

upper_string_lem :
    (to_upper : ℕ → ℕ) (stem junk : List ℕ)
    → Every (λ b. b ≢ 0) stem
    → upper_string to_upper (stem ++ 0 ∷ junk) ≡ some (map to_upper stem ++ 0 ∷ junk)
unfolding upper_string
upper_string_lem to_upper [] junk every = refl
upper_string_lem to_upper (b ∷ stem) junk (every_cons nonzero every) =
    rw (==-false nonzero) (rw (upper_string_lem to_upper stem junk every) refl)

module _ {S : Type 0} (to_upper : ℕ → ℕ) (stem junk : List ℕ) (s : S) where
  -- The entry that a name without an extension is stored as.
  stored_entry : Entry → Entry
  stored_entry e = record e {
    name = map to_upper stem ++ replicate (8 - length stem) pad_byte;
    extension = replicate extension_size pad_byte;
  }

  set_file_name_lem :
      (file : FatFile)
      → Every (λ b. b ≢ 0) stem
      → Every Plain (map to_upper stem)
      → length stem ≤ 8
      → set_file_name to_upper file (stem ++ 0 ∷ junk) s
        ≡ done
            (
              success,
              record file { entry = stored_entry file.entry },
              map to_upper stem ++ 0 ∷ junk,
            )
            s
  unfolding set_file_name or_fault stored_entry
  set_file_name_lem file text plain short =
      let size = length-map stem to_upper in
      rw (upper_string_lem to_upper stem junk text) (
        rw (fill_name_lem 8 (map to_upper stem) [] junk (8 - length stem) s plain (omega arith))
          (rw (byte_lem (map to_upper stem) junk 0 s) refl))

  compare_name_lem :
      (e : Entry)
      → Every (λ b. b ≢ 0) stem
      → Every Plain (map to_upper stem)
      → length stem ≤ 8
      → compare_name to_upper (stored_entry e) (stem ++ 0 ∷ junk) s
        ≡ done (success, map to_upper stem ++ 0 ∷ junk) s
  unfolding compare_name or_fault stored_entry
  compare_name_lem e text plain short =
      let size = length-map stem to_upper in
      rw (upper_string_lem to_upper stem junk text) (
        rw (match_name_lem 8 (map to_upper stem) [] junk (8 - length stem) s plain (omega arith))
          (rw (byte_lem (map to_upper stem) junk 0 s) refl))

  -- A name of at most eight characters other than NUL, which in upper case are below 0x80 and neither
  -- NUL nor a dot nor a blank, that fat_setFileName stores in an entry is matched by fat_compareName
  -- with this entry, whatever lies behind the NUL of the name.
  pub compare_name-set_file_name :
      (file : FatFile)
      → Every (λ b. b ≢ 0) stem
      → Every Plain (map to_upper stem)
      → length stem ≤ 8
      → (set_file_name to_upper file (stem ++ 0 ∷ junk)
            >>= (λ stored. compare_name to_upper stored.1.entry (stem ++ 0 ∷ junk)))
          s
        ≡ done (success, map to_upper stem ++ 0 ∷ junk) s
  compare_name-set_file_name file text plain short =
      rw (set_file_name_lem file text plain short) (compare_name_lem file.entry text plain short)
