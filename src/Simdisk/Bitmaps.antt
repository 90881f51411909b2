-- ===== src/Simdisk/Bitmaps.antt =====
-- What get_block and get_inode hand out, and where write_inode writes.
use system_related_projects.Base.{
  ℕ, zero, suc, ◌+◌, ◌-◌, ◌*◌, ◌/◌, ◌%◌, ◌^◌, ◌≤◌, ◌<◌, ◌≡◌, ap, ◌∙◌, true, false, List, [], ◌∷◌,
  ◌==◌, ltb, leb, length, arith, Bool-cases, inl, inr, get_or, set, length-set, get_elem?-eq_get_or,
  get_or-set, test_bit, set_bit,
}
use system_related_projects.Base.Int.{pos}
use system_related_projects.Base.Result.{done}
use system_related_projects.Simdisk.{
  Sys, Disk, blocksize, max_file_num, block_map_start, inode_map_start, inode_table_start,
  block_table_start, block_limit, minus_one, inode_size, is_count, signed_char, first_open,
  first_zero, search_map, read_block, write_block, read_inode, write_inode, write_at, byte_at,
  take_from_map, get_block, get_inode,
}

first_zero-le : (b n k : ℕ) → first_zero b n k ≤ k + n
unfolding first_zero
first_zero-le b zero k = omega arith
first_zero-le b (suc n) k = elim (Bool-cases (test_bit (b * 2 ^ k) 7)) [
  | inl t ↦ let later = first_zero-le b n (k + 1) in rw t (omega arith)
  | inr t ↦ rw t (omega arith)
]

-- A byte, as a char, is never equal to 0xff.
first_open_zero : (bits : List ℕ) → 0 < length bits → get_or bits 0 0 < 256 → first_open bits 0 ≡ 0
unfolding first_open
first_open_zero [] some_bits byte = absurd (omega arith)
first_open_zero (b ∷ bs) some_bits byte =
    let differs : is_count (signed_char b) 255 ≡ false = ground arith in rw differs

-- The number that is taken, and the map with its bit set.
abbrev pub taken_number : ℕ → List ℕ → ℕ
taken_number table bits = first_zero (get_or bits 0 0) 8 0 + table

abbrev pub marked : ℕ → List ℕ → List ℕ
marked table bits =
    let ret = taken_number table bits in
    set bits (ret / 8) (set_bit (get_or bits (ret / 8) 0) (7 - ret % 8))

-- A block of bytes.
pub record IsBlock (bits : List ℕ) : Type 0 where
  pub sized : length bits ≡ blocksize
  pub byte : get_or bits 0 0 < 256

byte_at_lem :
    {S : Type 0} (bits : List ℕ) (j : ℕ) (s : S)
    → j < length bits
    → byte_at bits j s ≡ done (get_or bits j 0) s
unfolding byte_at
byte_at_lem bits j s h = rw (get_elem?-eq_get_or bits j 0 h, byte_at)

module _ {F : Type 0} (sys : Sys F) (start n : ℕ) (junk bits : List ℕ) (v : IsBlock bits) where
  search_map_first :
      (s : Disk F) {t : Disk F}
      → read_block sys (pos start) junk s ≡ done (pos 0, bits) t
      → search_map sys (suc n) start junk s ≡ done (start, 0, bits) t
  unfolding search_map
  search_map_first s e = rw (e, first_open_zero bits (omega (arith, v.sized)) v.byte)

module _ {F : Type 0} (sys : Sys F) (start stop table limit : ℕ) (junk : List ℕ) (h : start < stop)
    (low : 8 ≤ table) (high : table + 8 < 8192) (under : table + 8 < limit) where
  take_lem :
      (s : Disk F) {t u : Disk F} (bits : List ℕ)
      → IsBlock bits
      → read_block sys (pos start) junk s ≡ done (pos 0, bits) t
      → write_block sys (pos start) (marked table bits) t ≡ done (pos 0) u
      → take_from_map sys start stop table limit junk s ≡ done (pos (taken_number table bits)) u
  unfolding take_from_map
  take_lem s {t} bits v e w =
      let bound = first_zero-le (get_or bits 0 0) 8 0 in
      let ret = taken_number table bits in
      let rounds : stop - start ≡ suc (stop - start - 1) = omega arith in
      let number : first_zero (get_or bits 0 0) 8 0 + 0 * 8 + (start - start) * 8192 + table ≡ ret =
        omega arith in
      let fits : leb limit ret ≡ false = ground arith in
      rw (rounds, search_map_first sys start (stop - start - 1) junk bits v s e)
        (rw (byte_at_lem bits 0 t (omega (arith, v.sized)))
          (rw (number, fits) (rw (byte_at_lem bits (ret / 8) t (omega (arith, v.sized))) (rw w))))

  marked-first : (bits : List ℕ) → IsBlock bits → get_or (marked table bits) 0 0 ≡ get_or bits 0 0
  marked-first bits v =
      let bound = first_zero-le (get_or bits 0 0) 8 0 in
      let ret = taken_number table bits in
      let other : (ret / 8 == 0) ≡ false = ground arith in
      get_or-set bits (ret / 8) 0 _ 0 (omega (arith, v.sized)) ∙ rw other

  marked-IsBlock : (bits : List ℕ) → IsBlock bits → IsBlock (marked table bits)
  marked-IsBlock bits v = record {
    sized = length-set bits _ _ ∙ v.sized;
    byte = rw (marked-first bits v) v.byte;
  }

  take-take :
      (s : Disk F) {t u s' t' : Disk F} (bits : List ℕ)
      → IsBlock bits
      → read_block sys (pos start) junk s ≡ done (pos 0, bits) t
      → write_block sys (pos start) (marked table bits) t ≡ done (pos 0) u
      → read_block sys (pos start) junk u ≡ done (pos 0, marked table bits) s'
      → write_block sys (pos start) (marked table (marked table bits)) s' ≡ done (pos 0) t'
      → (take_from_map sys start stop table limit junk s ≡ done (pos (taken_number table bits)) u)
        × (take_from_map sys start stop table limit junk u
            ≡ done (pos (taken_number table bits)) t')
  take-take s {u} {t'} bits v e w e' w' =
      let same = marked-first bits v in
      let again = take_lem u (marked table bits) (marked-IsBlock bits v) e' w' in
      (take_lem s bits v e w, again ∙ ap (λ b. done (pos (first_zero b 8 0 + table)) t') same)

-- Where the first block of the block map can be read and written, and reads back as it was written:
-- two calls of `get_block` in a row succeed and give the same number, which lies at most 8 behind the
-- first block of the table.
pub get_block-get_block :
    {F : Type 0} (sys : Sys F) (junk : List ℕ) (s : Disk F) {t u s' t' : Disk F} (bits : List ℕ)
    → IsBlock bits
    → read_block sys (pos block_map_start) junk s ≡ done (pos 0, bits) t
    → write_block sys (pos block_map_start) (marked block_table_start bits) t ≡ done (pos 0) u
    → read_block sys (pos block_map_start) junk u ≡ done (pos 0, marked block_table_start bits) s'
    → write_block sys
        (pos block_map_start)
        (marked block_table_start (marked block_table_start bits))
        s'
      ≡ done (pos 0) t'
    → (n : ℕ) × (n ≤ block_table_start + 8)
      × (get_block sys junk s ≡ done (pos n) u)
      × (get_block sys junk u ≡ done (pos n) t')
unfolding get_block
get_block-get_block sys junk s bits v e w e' w' =
    let bound = first_zero-le (get_or bits 0 0) 8 0 in
    let both =
      take-take sys block_map_start inode_map_start block_table_start block_limit junk (omega arith)
        (omega arith) (omega arith) (omega arith) s bits v e w e' w' in
    (taken_number block_table_start bits, omega arith, both.0, both.1)

-- The same of `get_inode` and the first block of the inode map: two calls in a row succeed and give
-- the same number, from 16 to 24.
pub get_inode-get_inode :
    {F : Type 0} (sys : Sys F) (junk : List ℕ) (s : Disk F) {t u s' t' : Disk F} (bits : List ℕ)
    → IsBlock bits
    → read_block sys (pos inode_map_start) junk s ≡ done (pos 0, bits) t
    → write_block sys (pos inode_map_start) (marked inode_table_start bits) t ≡ done (pos 0) u
    → read_block sys (pos inode_map_start) junk u ≡ done (pos 0, marked inode_table_start bits) s'
    → write_block sys
        (pos inode_map_start)
        (marked inode_table_start (marked inode_table_start bits))
        s'
      ≡ done (pos 0) t'
    → (n : ℕ) × (16 ≤ n)
      × (n ≤ 24)
      × (get_inode sys junk s ≡ done (pos n) u)
      × (get_inode sys junk u ≡ done (pos n) t')
unfolding get_inode
get_inode-get_inode sys junk s bits v e w e' w' =
    let bound = first_zero-le (get_or bits 0 0) 8 0 in
    let both =
      take-take sys inode_map_start inode_table_start inode_table_start max_file_num junk
        (omega arith) (omega arith) (omega arith) (omega arith) s bits v e w e' w' in
    (taken_number inode_table_start bits, omega arith, omega arith, both.0, both.1)

-- An inode number from 10000 on, but below the number of blocks and such that its offset fits an int:
-- `read_inode` refuses it and does nothing, while `write_inode` writes it, at an offset behind the
-- inode table.
pub write_inode-past_table :
    {F : Type 0} (sys : Sys F) (n : ℕ) (inode : List ℕ) (s : Disk F)
    → max_file_num ≤ n
    → {k : ℕ} → s.devsize ≡ pos k
    → n < k
    → 16384 + n * 256 < 2 ^ 31
    → (read_inode sys (pos n) inode s ≡ done (minus_one, inode) s)
      × (write_inode sys (pos n) inode s ≡ write_at sys (pos (16384 + n * 256)) inode_size inode s)
      × (block_table_start * blocksize ≤ 16384 + n * 256)
unfolding read_inode write_inode
write_inode-past_table sys n inode s past {k} sized below fits =
    let refused : leb max_file_num n ≡ true = ground arith in
    let accepted : leb k n ≡ false = ground arith in
    let some_inode : (n == 0) ≡ false = ground arith in
    let room : ltb (16384 + n * 256) (2 ^ 31) ≡ true = ground arith in
    (rw refused, rw (sized, accepted, some_inode) (rw room), omega arith)
