-- ===== src/Simdisk.antt =====
-- The device and the bitmaps of the simulated disk: kernal/file_system/block.c with the constants of
-- kernal/file_system/simdisk.h.
--
-- The system calls lie outside the repository and are the record `Sys`, over what the operating
-- system keeps, `F`. `read` is given the buffer and gives back the buffer that it leaves. Numbers are
-- C ints; a product that does not fit one is a fault, and so is an access behind a buffer. Messages
-- are not modelled. The buffer `bits` of get_block and get_inode is not initialised: what it holds at
-- first is the argument `junk`.
pub mod Bitmaps
pub mod Layout
pub mod Finding
pub mod Making
pub mod Files
pub mod Words
pub mod Content
pub mod Device
pub mod RootInode
pub mod Blocks
pub mod Formatting
pub mod Rereading
pub mod Texts
pub mod Lookup
pub mod Opening
pub mod Creating
mod Tests
mod Runs
use system_related_projects.Base.{
  ℕ, zero, suc, ◌+◌, ◌-◌, ◌*◌, ◌/◌, ◌%◌, ◌^◌, Bool, true, false, not, ◌&&◌, ◌||◌, Option, none,
  some, List, [], ◌∷◌, ◌==◌, ltb, leb, if◌then◌else◌, length, get_elem?, set, test_bit, set_bit,
}
use system_related_projects.Base.Int.{ℤ, pos, negsuc}
use system_related_projects.Base.Result.{done, fault, M, pure, ◌>>=◌, ◌>>◌}
use system_related_projects.Vfs.{Str}

abbrev pub max_file_num : ℕ
max_file_num = 10000

abbrev pub block_map_start : ℕ
block_map_start = 1

abbrev pub inode_map_start : ℕ
inode_map_start = 14

abbrev pub inode_table_start : ℕ
inode_table_start = 16

abbrev pub block_table_start : ℕ
block_table_start = 2516

abbrev pub blocksize : ℕ
blocksize = 1024

abbrev pub inode_size : ℕ
inode_size = 256

-- The limit in `get_block`.
abbrev pub block_limit : ℕ
block_limit = 102400

abbrev pub minus_one : ℤ
minus_one = negsuc 0

-- `fstat` gives the size of the file.
pub record Sys (F : Type 0) : Type 0 where
  pub open_fd : Str → F → ℤ × F
  pub fstat : ℤ → F → ℤ × ℕ × F
  pub lseek : ℤ → ℤ → F → ℤ × F
  pub read : ℤ → List ℕ → ℕ → F → ℤ × List ℕ × F
  pub write : ℤ → List ℕ → ℕ → F → ℤ × F
  pub fsync : ℤ → F → ℤ × F

-- The variables `f` and `devsize`, and the operating system's state.
pub record Disk (F : Type 0) : Type 0 where
  pub f : ℤ
  pub devsize : ℤ
  pub files : F

abbrev pub is_negative : ℤ → Bool
is_negative (pos n) = false
is_negative (negsuc n) = true

abbrev pub is_zero : ℤ → Bool
is_zero (pos n) = n == 0
is_zero (negsuc n) = false

-- n >= bound, for a bound that is not negative
abbrev pub reaches : ℤ → ℕ → Bool
reaches (pos n) bound = leb bound n
reaches (negsuc n) bound = false

-- n >= bound
abbrev pub at_least : ℤ → ℤ → Bool
at_least n (pos bound) = reaches n bound
at_least (pos n) (negsuc bound) = true
at_least (negsuc n) (negsuc bound) = leb n bound

-- A number that is stored in an int of 32 bits.
abbrev pub stored_int : ℕ → ℤ
stored_int n =
    if ltb (n % 2 ^ 32) (2 ^ 31) then pos (n % 2 ^ 32) else negsuc (2 ^ 32 - 1 - n % 2 ^ 32)

-- n == count, for a count that is not negative
abbrev pub is_count : ℤ → ℕ → Bool
is_count (pos n) count = n == count
is_count (negsuc n) count = false

-- base + n * unit, where the int has room for it
abbrev pub offset_of : {S : Type 0} → ℕ → ℤ → ℕ → M S ℤ
offset_of base (pos n) unit =
    if ltb (base + n * unit) (2 ^ 31) then pure (pos (base + n * unit)) else (λ _. fault)
offset_of base (negsuc n) unit =
    if leb (suc n * unit) base
    then pure (pos (base - suc n * unit))
    else (if leb (suc n * unit) (2 ^ 31 + base)
        then pure (negsuc (suc n * unit - base - 1))
        else (λ _. fault))

-- A byte of a `char` array as the int that it is promoted to.
abbrev pub signed_char : ℕ → ℤ
signed_char b = if ltb b 128 then pos b else negsuc (255 - b)

-- The index of the first byte that is not equal to 0xff as a char, from index `j` on.
unfoldable pub first_open : List ℕ → ℕ → ℕ
first_open [] j = j
first_open (b ∷ bs) j = if is_count (signed_char b) 255 then first_open bs (j + 1) else j

-- The first k from `k` on with (~(bitb << k) & 0x80) != 0, among `n`.
unfoldable pub first_zero : ℕ → ℕ → ℕ → ℕ
first_zero b zero k = k
first_zero b (suc n) k = if test_bit (b * 2 ^ k) 7 then first_zero b n (k + 1) else k

unfoldable pub byte_at : {S : Type 0} → List ℕ → ℕ → M S ℕ
byte_at bits j s = elim (get_elem? bits j) [ none ↦ fault | some b ↦ done b s ]

module _ {F : Type 0} (sys : Sys F) where
  abbrev pub on_files : {A : Type 0} → (ℤ → F → A × F) → M (Disk F) A
  on_files op s = let r = op s.f s.files in done r.0 (record s { files = r.1 })

  unfoldable pub open_file : Str → M (Disk F) ℤ
  open_file path s =
      let r = sys.open_fd path s.files in done r.0 (record s { f = r.0; files = r.1 })

  unfoldable pub dev_open : Str → M (Disk F) ℤ
  dev_open path s =
      if is_negative s.f
      then (do
        f ← open_file path
        if is_negative f then pure minus_one else (do
          (r, size) ← on_files (λ f w. let t = sys.fstat f w in ((t.0, t.1), t.2))
          if is_negative r then pure minus_one else (λ t.
              let blocks = stored_int (size / blocksize) in
              done blocks (record t { devsize = blocks }))))
          s
      else done s.devsize s

  -- lseek, then a read of `count` bytes
  unfoldable pub read_at : ℤ → ℕ → List ℕ → M (Disk F) (ℤ × List ℕ)
  read_at offset count buffer = do
    at ← on_files (λ f. sys.lseek f offset)
    if is_negative at then pure (minus_one, buffer) else (do
      (n, buffer') ← on_files (λ f w. let t = sys.read f buffer count w in ((t.0, t.1), t.2))
      pure (if is_count n count then pos 0 else minus_one, buffer'))

  -- lseek, a write of `count` bytes, and fsync
  unfoldable pub write_at : ℤ → ℕ → List ℕ → M (Disk F) ℤ
  write_at offset count buffer = do
    at ← on_files (λ f. sys.lseek f offset)
    if is_negative at then pure minus_one else (do
      n ← on_files (λ f. sys.write f buffer count)
      if is_count n count then (do on_files (λ f. sys.fsync f); pure (pos 0)) else pure minus_one)

  unfoldable pub read_block : ℤ → List ℕ → M (Disk F) (ℤ × List ℕ)
  read_block block_num block s =
      (if at_least block_num s.devsize
          then pure (minus_one, block)
          else (do offset ← offset_of 0 block_num blocksize; read_at offset blocksize block))
        s

  unfoldable pub write_block : ℤ → List ℕ → M (Disk F) ℤ
  write_block block_num block s =
      (if at_least block_num s.devsize
          then pure minus_one
          else (do offset ← offset_of 0 block_num blocksize; write_at offset blocksize block))
        s

  unfoldable pub read_inode : ℤ → List ℕ → M (Disk F) (ℤ × List ℕ)
  read_inode inum inode =
      if reaches inum max_file_num || is_zero inum then pure (minus_one, inode) else (do
        offset ← offset_of (inode_table_start * blocksize) inum inode_size
        read_at offset inode_size inode)

  unfoldable pub write_inode : ℤ → List ℕ → M (Disk F) ℤ
  write_inode inum inode s =
      (if at_least inum s.devsize || is_zero inum then pure minus_one else (do
        offset ← offset_of (inode_table_start * blocksize) inum inode_size
        write_at offset inode_size inode))
        s

  -- The loop over the `n` blocks of a map from block `i` on: the block, the byte and the buffer.
  unfoldable pub search_map : ℕ → ℕ → List ℕ → M (Disk F) (ℕ × ℕ × List ℕ)
  search_map zero i bits = pure (i, blocksize, bits)
  search_map (suc n) i bits = do
    (r, bits') ← read_block (pos i) bits
    let j = first_open bits' 0
    if ltb j blocksize then pure (i, j, bits') else search_map n (i + 1) bits'

  -- get_block and get_inode, which differ only in their constants.
  unfoldable pub take_from_map : ℕ → ℕ → ℕ → ℕ → List ℕ → M (Disk F) ℤ
  take_from_map start stop table limit junk = do
    (i, j, bits) ← search_map (stop - start) start junk
    bitb ← byte_at bits j
    let ret = first_zero bitb 8 0 + j * 8 + (i - start) * 8192 + table
    if leb limit ret then pure minus_one else (do
      b ← byte_at bits (ret / 8)
      write_block (pos i) (set bits (ret / 8) (set_bit b (7 - ret % 8)))
      pure (pos ret))

  unfoldable pub get_block : List ℕ → M (Disk F) ℤ
  get_block = take_from_map block_map_start inode_map_start block_table_start block_limit

  unfoldable pub get_inode : List ℕ → M (Disk F) ℤ
  get_inode = take_from_map inode_map_start inode_table_start inode_table_start max_file_num
