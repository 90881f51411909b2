-- ===== src/Fat/Table.antt =====
-- The file allocation table and the clusters: fat_setFATCluster to fat_rwCluster of fat.c.
use system_related_projects.Base.{
  ℕ, zero, suc, ◌+◌, ◌-◌, ◌*◌, ◌/◌, ◌%◌, ◌^◌, Bool, true, false, not, ◌&&◌, ◌||◌, Option, none,
  some, List, ltb, leb, ◌==◌, if◌then◌else◌, length, set,
}
use system_related_projects.Base.Int.{ℤ, pos, negsuc, success, fail, is_fail}
use system_related_projects.Base.Result.{fault, M, pure, ◌>>=◌, ◌>>◌}
use system_related_projects.Fat.{
  BootSector, FatMount, Volume, Fat, w32, fat_read, fat_write, free_cluster, fat_12, fat_16, fat_32,
  sizeof_bootsector, sizeof_entry, to_word, to_int, word_at, dword_at, overlay, slice, get_mount,
  put_mount, on_device,
}

abbrev pub seek_start : ℕ
seek_start = 0

-- FAT_CLUSTER12, FAT_CLUSTER16 and FAT_CLUSTER31, which stands for the missing FAT_CLUSTER32
abbrev pub cluster12 : ℕ → ℕ
cluster12 c = c % 2 ^ 12

abbrev pub cluster16 : ℕ → ℕ
cluster16 c = c % 2 ^ 16

abbrev pub cluster31 : ℕ → ℕ
cluster31 c = c % 2 ^ 28

-- An array index; a negative one is a fault.
abbrev pub index_of : {S : Type 0} → ℤ → M S ℕ
index_of (pos n) = pure n
index_of (negsuc n) = λ _. fault

-- Where the table of each type is written, and the value that is stored there, before it is cut to a
-- byte. The type is none of the three: none.
unfoldable pub set_place : ℕ → ℕ → ℕ → Option (ℕ × ℕ)
set_place type cluster value =
    if type == fat_12
    then some (cluster * 3 / 2, cluster12 value)
    else (if type == fat_16
        then some (cluster, cluster16 value)
        else (if type == fat_32 then some (cluster, cluster31 value) else none))

-- The entry of a cluster as the code reads it, or FAIL.
unfoldable pub table_entry : ℕ → List ℕ → ℕ → ℤ
table_entry type fat cluster =
    if type == fat_12
    then (let w = word_at fat (cluster * 3 / 2) in
        let next = if cluster % 2 == 1 then w / 16 else cluster12 w in
        if next == 0xfff then fail else pos next)
    else (if type == fat_16
        then (let next = word_at fat (2 * cluster) in if next == 0xffff then fail else pos next)
        else (if type == fat_32
            then (let next = dword_at fat (4 * cluster) in
                if next == 0xfff_ffff then fail else to_int next)
            else fail))

-- How many bytes of the table that reads.
unfoldable pub table_reach : ℕ → ℕ → ℕ
table_reach type cluster =
    if type == fat_12
    then cluster * 3 / 2 + 2
    else (if type == fat_16
        then 2 * cluster + 2
        else (if type == fat_32 then 4 * cluster + 4 else 0))

-- Comparison with FAT_FREECLUSTER.
abbrev pub is_free : ℤ → Bool
is_free (pos n) = n == free_cluster
is_free (negsuc n) = false

abbrev pub count_of : ℤ → ℕ
count_of (pos n) = n
count_of (negsuc n) = 0

-- The type is one that the two switches know; else they do not touch the table.
abbrev pub known_type : ℕ → Bool
known_type type = type == fat_12 || type == fat_16 || type == fat_32

-- The quotient that the code divides by is 0 for sectors of fewer than 32 bytes.
unfoldable pub cluster2block : BootSector → ℤ → Option ℕ
cluster2block b cluster =
    if b.bytes_per_sector / sizeof_entry == 0
    then none
    else some (
        (to_word cluster * b.sectors_per_cluster
          + b.hidden_sectors
          + b.num_fats * b.sectors_per_fat
          + b.num_root_dir_ents / (b.bytes_per_sector / sizeof_entry)
          + (w32 - 1))
        % w32)

unfoldable pub block_offset : BootSector → ℕ → ℕ
block_offset b block = (block * b.bytes_per_sector + 1) % w32

module _ {D H : Type 0} where
  unfoldable pub get_fat_cluster : ℤ → M (Fat D H) ℤ
  get_fat_cluster cluster = do
    m ← get_mount
    c ← if known_type m.type then index_of cluster else pure 0
    if leb (table_reach m.type c) (length m.fat_data)
        then pure (table_entry m.type m.fat_data c)
        else (λ _. fault)

  -- The loop of fat_getFreeCluster over the `n` clusters from `index` on.
  unfoldable pub search_free : ℕ → ℕ → M (Fat D H) ℤ
  search_free zero index = pure fail
  search_free (suc n) index = do
    cluster ← get_fat_cluster (pos index)
    if is_free cluster then pure (pos index) else search_free n (index + 1)

  unfoldable pub get_free_cluster : M (Fat D H) ℤ
  get_free_cluster = do m ← get_mount; search_free (count_of m.total_clusters) 0

  module _ (vol : Volume D H) where
    unfoldable pub commit_fat : M (Fat D H) (Unit {0})
    commit_fat = do
      on_device (λ h. vol.seek_fn h (sizeof_bootsector + 1) seek_start)
      m ← get_mount
      table ← slice m.fat_data 0 m.fat_size
      on_device (λ h. vol.write_fn h table)
      pure tt

    -- The byte is written at its place, where the type has one, and the table is committed.
    unfoldable pub set_at : FatMount H → Bool → Option (ℕ × ℕ) → M (Fat D H) (Unit {0})
    set_at m commit none = pure tt
    set_at m commit (some (i, v)) =
        if ltb i (length m.fat_data)
        then (do
          put_mount (record m { fat_data = set m.fat_data i (v % 256) })
          if commit then commit_fat else pure tt)
        else (λ _. fault)

    unfoldable pub set_fat_cluster : ℤ → ℕ → Bool → M (Fat D H) (Unit {0})
    set_fat_cluster cluster value commit = do
      m ← get_mount
      c ← if known_type m.type then index_of cluster else pure 0
      set_at m commit (set_place m.type c value)

  module _ (vol : Volume D H) where
    -- The loop over the `n` sectors from sector `i` on. The place in the buffer grows by `i` sectors
    -- in round `i`.
    unfoldable pub rw_sectors : ℕ → ℕ → ℕ → ℕ → ℕ → List ℕ → M (Fat D H) (ℤ × List ℕ)
    rw_sectors mode bps zero i at buffer = pure (success, buffer)
    rw_sectors mode bps (suc n) i at buffer =
        let place = at + bps * i in
        if mode == fat_read
        then (do
          (r, bytes) ← on_device (λ h. vol.read_fn h bps)
          buffer' ← overlay buffer place bytes
          if is_fail r then pure (fail, buffer') else rw_sectors mode bps n (i + 1) place buffer')
        else (do
          bytes ← slice buffer place bps
          r ← on_device (λ h. vol.write_fn h bytes)
          if is_fail r then pure (fail, buffer) else rw_sectors mode bps n (i + 1) place buffer)

    -- The sectors of the cluster at a block; the argument none is the division by 0.
    unfoldable pub rw_block : List ℕ → ℕ → Option ℕ → M (Fat D H) (ℤ × List ℕ)
    rw_block buffer mode none = λ _. fault
    rw_block buffer mode (some block) = do
      m ← get_mount
      let b = m.bootsector
      r ← on_device (λ h. vol.seek_fn h (block_offset b block) seek_start)
      if is_fail r
          then pure (fail, buffer)
          else rw_sectors mode b.bytes_per_sector b.sectors_per_cluster 0 0 buffer

    -- The result, and the buffer that is left.
    unfoldable pub rw_cluster : ℤ → List ℕ → ℕ → M (Fat D H) (ℤ × List ℕ)
    rw_cluster cluster buffer mode =
        if not (mode == fat_read) && not (mode == fat_write)
        then pure (fail, buffer)
        else (do m ← get_mount; rw_block buffer mode (cluster2block m.bootsector cluster))

-- Division and remainder of unsigned 32-bit numbers, and the subtraction.
abbrev pub sub32 : ℕ → ℕ → ℕ
sub32 a b = (a % w32 + w32 - b % w32) % w32

-- The first of two numbers that is not 0.
abbrev pub or_else : ℕ → ℕ → ℕ
or_else a b = if a == 0 then b else a

abbrev pub int_below : ℤ → ℕ → Bool
int_below (pos n) bound = ltb n bound
int_below (negsuc n) bound = true

-- Truncating division of an int by a positive number.
abbrev pub int_div : ℤ → ℕ → ℤ
int_div (pos n) d = pos (n / d)
int_div (negsuc n) d = if suc n / d == 0 then pos 0 else negsuc (suc n / d - 1)

unfoldable pub root_dir_sectors : BootSector → ℕ
root_dir_sectors b = (b.num_root_dir_ents * 32 + (b.bytes_per_sector - 1)) / b.bytes_per_sector

unfoldable pub data_sectors : BootSector → ℕ
data_sectors b =
    let fats = or_else b.sectors_per_fat b.fatsz32 in
    let total = or_else b.total_sectors b.total_sectors_large in
    sub32 total (b.reserved_sectors + b.num_fats * fats + root_dir_sectors b)

unfoldable pub type_of : ℤ → ℕ
type_of clusters =
    if int_below clusters 4085
    then fat_12
    else (if int_below clusters 65525 then fat_16 else fat_32)

-- A division by 0 is a fault.
unfoldable pub determine_type : {D H : Type 0} → M (Fat D H) ℕ
determine_type = do
  m ← get_mount
  let b = m.bootsector
  if b.bytes_per_sector == 0 || b.sectors_per_cluster == 0 then (λ _. fault) else (do
    let clusters = int_div (to_int (data_sectors b)) b.sectors_per_cluster
    put_mount (record m { total_clusters = clusters; type = type_of clusters })
    pure (type_of clusters))
