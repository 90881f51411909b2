-- ===== src/Fat/Encoding.antt =====
-- Directory entries and their 32 bytes on the disk.
use system_related_projects.Base.{
  ℕ, ◌+◌, ◌/◌, ◌%◌, ◌<◌, ◌≡◌, refl, ap, ◌∙◌, [], ◌∷◌, length, take, drop, get_or, arith,
}
use system_related_projects.Fat.Splice.{take-exact, drop-past, get_or-past}
use system_related_projects.Fat.{Entry, decode_entry, encode_entry, word_at, dword_at, tail_bytes}

-- The fields have the sizes of struct FAT_ENTRY.
pub record Sized (e : Entry) : Type 0 where
  pub name_sized : length e.name ≡ 8
  pub extension_sized : length e.extension ≡ 3
  pub reserved_sized : length e.reserved ≡ 10
  pub time_fits : e.time < 65536
  pub date_fits : e.date < 65536
  pub cluster_fits : e.start_cluster < 65536
  pub size_fits : e.file_size < 4294967296

module _ (e : Entry) (z : Sized e) where
  at_tail : {i : ℕ} (k : ℕ) → i ≡ 22 + k → get_or (encode_entry e) i 0 ≡ get_or (tail_bytes e) k 0
  unfolding encode_entry
  at_tail {i = i} k at =
      get_or-past i (14 + k) e.name _ (omega (arith, z.name_sized))
      ∙ get_or-past (14 + k) (11 + k) e.extension _ (omega (arith, z.extension_sized))
      ∙ get_or-past (11 + k) (10 + k) (e.attribute ∷ []) _ (omega arith)
      ∙ get_or-past (10 + k) k e.reserved _ (omega (arith, z.reserved_sized))

  reserved_lem : take 10 (drop 12 (encode_entry e)) ≡ e.reserved
  unfolding encode_entry
  reserved_lem =
      ap (take 10) (
        drop-past 12 4 e.name _ (omega (arith, z.name_sized))
        ∙ drop-past 4 1 e.extension _ (omega (arith, z.extension_sized)))
      ∙ take-exact 10 e.reserved _ z.reserved_sized

  extension_lem : take 3 (drop 8 (encode_entry e)) ≡ e.extension
  unfolding encode_entry
  extension_lem =
      ap (take 3) (drop-past 8 0 e.name _ (omega (arith, z.name_sized)))
      ∙ take-exact 3 e.extension _ z.extension_sized

  name_lem : take 8 (encode_entry e) ≡ e.name
  unfolding encode_entry
  name_lem = take-exact 8 e.name _ z.name_sized

  attribute_lem : get_or (encode_entry e) 11 0 ≡ e.attribute
  unfolding encode_entry
  attribute_lem =
      get_or-past 11 3 e.name _ (omega (arith, z.name_sized))
      ∙ get_or-past 3 0 e.extension _ (omega (arith, z.extension_sized))

  word_lem :
      (k w : ℕ)
      → get_or (tail_bytes e) k 0 ≡ w % 256
      → get_or (tail_bytes e) (k + 1) 0 ≡ w / 256 % 256
      → w < 65536
      → word_at (encode_entry e) (22 + k) ≡ w
  word_lem k w low high fits =
      let first = at_tail {i = 22 + k} k refl ∙ low in
      let second = at_tail {i = 22 + k + 1} (k + 1) (omega arith) ∙ high in
      omega (arith, first, second)

-- An entry whose fields fit is got back from the 32 bytes that it is written as.
pub decode_entry-encode_entry : (e : Entry) → Sized e → decode_entry (encode_entry e) ≡ e
unfolding decode_entry
decode_entry-encode_entry e z =
    let time = word_lem e z 0 e.time refl refl z.time_fits in
    let date = word_lem e z 2 e.date refl refl z.date_fits in
    let cluster = word_lem e z 4 e.start_cluster refl refl z.cluster_fits in
    let low = word_lem e z 6 (e.file_size % 65536) refl refl (omega arith) in
    let high =
      word_lem e z 8 (e.file_size / 65536) refl refl (let h = z.size_fits in omega arith) in
    let size : dword_at (encode_entry e) 28 ≡ e.file_size = omega (arith, low, high) in
    rw (name_lem e z) (
      rw (extension_lem e z) (
        rw (attribute_lem e z)
          (rw (reserved_lem e z) (rw time (rw date (rw cluster (rw size refl)))))))
