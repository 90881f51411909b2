-- ===== src/Fat/Names.antt =====
-- Names in directory entries: fat_compareName, fat_getIndex and fat_setFileName of fat.c. A name is
-- the memory from its first byte on, with the NUL that ends it and what lies behind that; a read
-- behind that memory is a fault.
use system_related_projects.Base.{
  ℕ, zero, suc, ◌+◌, Bool, not, ◌&&◌, ◌||◌, Option, none, some, List, [], ◌∷◌, ◌==◌, if◌then◌else◌,
  ltb, get_or, get_elem?, set, replicate, drop, test_bit,
}
use system_related_projects.Base.Int.{ℤ, pos, success, fail, is_fail}
use system_related_projects.Base.Result.{fault, M, pure, ◌>>=◌}
use system_related_projects.Fat.{
  Entry, FatFile, free_cluster, entry_deleted, pad_byte, name_size, extension_size, dir_at,
}

abbrev pub dot : ℕ
dot = 46

abbrev pub slash : ℕ
slash = 47

-- Uppercases a string in place: the bytes before the NUL. Without a NUL: none.
unfoldable pub upper_string : (ℕ → ℕ) → List ℕ → Option (List ℕ)
upper_string to_upper [] = none
upper_string to_upper (b ∷ bytes) =
    if b == 0
    then some (b ∷ bytes)
    else elim (upper_string to_upper bytes) [ none ↦ none | some rest ↦ some (to_upper b ∷ rest) ]

unfoldable pub or_fault : {S A : Type 0} → Option A → M S A
or_fault none = λ _. fault
or_fault (some a) = pure a

unfoldable pub byte_of : {S : Type 0} → List ℕ → ℕ → M S ℕ
byte_of bytes i = or_fault (get_elem? bytes i)

-- strlen
unfoldable pub string_length : List ℕ → Option ℕ
string_length [] = none
string_length (b ∷ bytes) =
    if b == 0 then some 0 else elim (string_length bytes) [ none ↦ none | some n ↦ some (suc n) ]

-- Are a char of the name and a BYTE of the entry equal as ints? A char from 0x80 on is negative.
abbrev pub same_char : ℕ → ℕ → Bool
same_char b byte = ltb b 128 && b == byte

-- The loop over the `n` bytes of the entry's name from `i` on: none for FAIL, else where it ended.
unfoldable pub match_name : {S : Type 0} → List ℕ → List ℕ → ℕ → ℕ → M S (Option ℕ)
match_name field name zero i = pure (some i)
match_name field name (suc n) i = if get_or field i 0 == pad_byte then pure (some i) else (do
  b ← byte_of name i
  if same_char b (get_or field i 0) then match_name field name n (i + 1) else pure none)

-- The loop over the `n` bytes of the extension from `x` on, compared with the name from `at` on.
unfoldable pub match_extension : {S : Type 0} → List ℕ → List ℕ → ℕ → ℕ → ℕ → M S ℤ
match_extension field name at zero x = pure success
match_extension field name at (suc n) x = if get_or field x 0 == pad_byte then pure success else (do
  b ← byte_of name (at + x)
  if same_char b (get_or field x 0) then match_extension field name at n (x + 1) else pure fail)

-- The result, and the name in upper case that is left.
unfoldable pub compare_name : {S : Type 0} → (ℕ → ℕ) → Entry → List ℕ → M S (ℤ × List ℕ)
compare_name to_upper e name = do
  upper ← or_fault (upper_string to_upper name)
  ended ← match_name e.name upper name_size 0
  elim ended [
    | none ↦ pure (fail, upper)
    | some i ↦ do
      b ← byte_of upper i
      if b == dot || not (get_or e.extension 0 0 == pad_byte)
          then (do r ← match_extension e.extension upper (i + 1) extension_size 0; pure (r, upper))
          else pure (success, upper)
  ]

-- An entry that is passed over: deleted, or with neither a cluster nor the archive attribute.
abbrev pub skips : Entry → Bool
skips e =
    get_or e.name 0 0 == entry_deleted
    || (e.start_cluster == free_cluster && not (test_bit e.attribute 5))

-- The loop of fat_getIndex over the `n` entries from `i` on: the index or FAIL, and the name left.
unfoldable pub index_from : {S : Type 0} → (ℕ → ℕ) → List ℕ → ℕ → ℕ → List ℕ → M S (ℤ × List ℕ)
index_from to_upper dir zero i name = pure (fail, name)
index_from to_upper dir (suc n) i name = do
  e ← dir_at dir i
  if get_or e.name 0 0 == 0
      then pure (fail, name)
      else (if skips e then index_from to_upper dir n (i + 1) name else (do
        (r, name') ← compare_name to_upper e name
        if is_fail r then index_from to_upper dir n (i + 1) name' else pure (pos i, name')))

unfoldable pub get_index : {S : Type 0} → (ℕ → ℕ) → List ℕ → List ℕ → M S (ℤ × List ℕ)
get_index to_upper dir name = index_from to_upper dir 32 0 name

-- The loop that fills the entry's name, `n` bytes from `i` on: where it ended, and the field.
unfoldable pub fill_name : {S : Type 0} → List ℕ → ℕ → ℕ → List ℕ → M S (ℕ × List ℕ)
fill_name name zero i field = pure (i, field)
fill_name name (suc n) i field = do
  b ← byte_of name i
  if b == 0 || b == dot then pure (i, field) else fill_name name n (i + 1) (set field i b)

-- The loop that fills the extension, over the rest of the name: it advances in the name alone.
unfoldable pub fill_extension : {S : Type 0} → List ℕ → List ℕ → M S (List ℕ)
fill_extension [] field = λ _. fault
fill_extension (b ∷ rest) field = if b == 0 then pure field else fill_extension rest (set field 0 b)

-- The result, which is SUCCESS, the file and the name in upper case.
unfoldable pub set_file_name :
    {S : Type 0} → (ℕ → ℕ) → FatFile → List ℕ → M S (ℤ × FatFile × List ℕ)
set_file_name to_upper file name = do
  upper ← or_fault (upper_string to_upper name)
  (i, field) ← fill_name upper name_size 0 (replicate name_size pad_byte)
  b ← byte_of upper i
  extension ←
      if b == dot
      then fill_extension (drop (i + 1) upper) (replicate extension_size pad_byte)
      else pure (replicate extension_size pad_byte)
  let entry = record file.entry { name = field; extension = extension }
  pure (success, record file { entry = entry }, upper)
