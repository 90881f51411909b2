-- ===== src/Fat/Directory.antt =====
-- A directory as a list of entries: what fat_list shows of it.
use system_related_projects.Base.{
  ℕ, zero, suc, ◌+◌, ◌*◌, ◌≤◌, ◌<◌, ◌≡◌, refl, ap, ◌∙◌, Bool, true, false, not, ◌||◌, List, [], ◌∷◌,
  ◌++◌, ◌==◌, ltb, Bool-cases, inl, inr, if◌then◌else◌, get_or, take, drop, length, length-append,
  arith,
}
use system_related_projects.Base.Result.{done}
use system_related_projects.Fat.{Entry, encode_entry, tail_bytes, dir_at, entry_deleted}
use system_related_projects.Fat.Splice.{
  Every, every_cons, append_assoc, drop-past, take-exact, slice_lem,
}
use system_related_projects.Fat.Encoding.{Sized, decode_entry-encode_entry}
use system_related_projects.Fat.Listing.{Listed, listed, list_from, list_dir}

-- A directory on the disk: its entries, an entry that ends it, and what lies behind.
unfoldable pub lay_out : List Entry → Entry → List ℕ → List ℕ
lay_out [] ending junk = encode_entry ending ++ junk
lay_out (e ∷ entries) ending junk = encode_entry e ++ lay_out entries ending junk

unfoldable pub is_shown : Entry → Bool
is_shown e = not (get_or e.name 0 0 == entry_deleted || e.file_size == 0xffff_ffff)

-- The entries that are shown, in their order.
unfoldable pub shown : (ℕ → ℕ) → List Entry → List Listed
shown to_lower [] = []
shown to_lower (e ∷ entries) =
    if is_shown e then listed to_lower e ∷ shown to_lower entries else shown to_lower entries

-- An entry that is in use or deleted.
pub record InUse (e : Entry) : Type 0 where
  pub sized : Sized e
  pub started : (get_or e.name 0 0 == 0) ≡ false

pub length-encode_entry : (e : Entry) → Sized e → length (encode_entry e) ≡ 32
unfolding encode_entry
length-encode_entry e z =
    let a = length-append e.name (e.extension ++ (e.attribute ∷ (e.reserved ++ tail_bytes e))) in
    let b = length-append e.extension (e.attribute ∷ (e.reserved ++ tail_bytes e)) in
    let c = length-append e.reserved (tail_bytes e) in
    omega (arith, a, b, c, z.name_sized, z.extension_sized, z.reserved_sized)

dir_at_lem :
    {S : Type 0} (pre rest : List ℕ) (e : Entry) (i : ℕ) (s : S)
    → Sized e
    → length pre ≡ i * 32
    → dir_at (pre ++ (encode_entry e ++ rest)) i s ≡ done e s
unfolding dir_at
dir_at_lem pre rest e i s z at =
    let size = length-encode_entry e z in
    let whole = length-append pre (encode_entry e ++ rest) in
    let part = length-append (encode_entry e) rest in
    let behind : drop (i * 32) (pre ++ (encode_entry e ++ rest)) ≡ encode_entry e ++ rest =
      drop-past (i * 32) 0 pre (encode_entry e ++ rest) (omega arith) in
    let bytes : take 32 (drop (i * 32) (pre ++ (encode_entry e ++ rest))) ≡ encode_entry e =
      ap (take 32) behind ∙ take-exact 32 (encode_entry e) rest size in
    rw (slice_lem (pre ++ (encode_entry e ++ rest)) (i * 32) 32 s (omega arith))
      (rw bytes (rw (decode_entry-encode_entry e z) refl))

module _ {S : Type 0} (to_lower : ℕ → ℕ) (ending : Entry) (junk : List ℕ) (s : S)
    (sized : Sized ending) (ends : (get_or ending.name 0 0 == 0) ≡ true) where
  list_from_lem :
      (fuel i found : ℕ) (pre : List ℕ) (entries : List Entry)
      → Every InUse entries
      → length pre ≡ i * 32
      → found + length entries ≤ 31
      → length entries < fuel
      → list_from to_lower (pre ++ lay_out entries ending junk) fuel i found s
        ≡ done (shown to_lower entries) s
  unfolding list_from lay_out shown is_shown
  list_from_lem zero i found pre entries used at few fuel_ok = absurd (omega arith)
  list_from_lem (suc fuel) i found pre [] used at few fuel_ok =
      let open_slot : not (ltb found 32 || ltb i 16) ≡ false = ground arith in
      rw open_slot (rw (dir_at_lem pre junk ending i s sized at) (rw ends refl))
  list_from_lem (suc fuel) i found pre (e ∷ entries) (every_cons used rest) at few fuel_ok =
      let open_slot : not (ltb found 32 || ltb i 16) ≡ false = ground arith in
      let size = length-encode_entry e used.sized in
      let longer = length-append pre (encode_entry e) in
      let next : length (pre ++ encode_entry e) ≡ (i + 1) * 32 = omega arith in
      let joined = append_assoc pre (encode_entry e) (lay_out entries ending junk) in
      rw open_slot (
        rw (dir_at_lem pre (lay_out entries ending junk) e i s used.sized at) (
          rw used.started
            (elim (Bool-cases (get_or e.name 0 0 == entry_deleted || e.file_size == 0xffff_ffff)) [
              | inl hidden ↦ rw hidden (
                  rw joined at (
                    list_from_lem fuel (i + 1) found (pre ++ encode_entry e) entries rest next
                      (omega arith) (omega arith)))
              | inr visible ↦ rw visible (
                  rw
                    (rw joined at (
                      list_from_lem fuel (i + 1) (found + 1) (pre ++ encode_entry e) entries rest
                        next (omega arith) (omega arith)))
                    refl)
            ])))

length-lay_out :
    (entries : List Entry) (ending : Entry) (junk : List ℕ)
    → Every InUse entries
    → Sized ending
    → length entries * 32 + 32 ≤ length (lay_out entries ending junk)
unfolding lay_out
length-lay_out [] ending junk used z =
    let a = length-append (encode_entry ending) junk in
    let b = length-encode_entry ending z in omega arith
length-lay_out (e ∷ entries) ending junk (every_cons used rest) z =
    let a = length-append (encode_entry e) (lay_out entries ending junk) in
    let b = length-encode_entry e used.sized in
    let later = length-lay_out entries ending junk rest z in omega arith

-- fat_list shows of a directory its entries in their order, without the deleted ones and those whose
-- size is 0xFFFFFFFF, where at most 31 entries stand before the entry that starts with 0 and all are
-- laid out as the structure says.
pub list_dir-lay_out :
    {S : Type 0} (to_lower : ℕ → ℕ) (entries : List Entry) (ending : Entry) (junk : List ℕ) (s : S)
    → Every InUse entries
    → Sized ending
    → (get_or ending.name 0 0 == 0) ≡ true
    → length entries ≤ 31
    → list_dir to_lower (lay_out entries ending junk) s ≡ done (shown to_lower entries) s
unfolding list_dir
list_dir-lay_out to_lower entries ending junk s used sized ends few =
    let room = length-lay_out entries ending junk used sized in
    list_from_lem to_lower ending junk s sized ends _ 0 0 [] entries used (omega arith)
      (omega arith) (omega arith)
