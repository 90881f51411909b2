-- ===== src/Fat/Samples.antt =====
-- A small volume of the FAT file system on a device that keeps its bytes and a place, and the entries
-- and files on it, for runs and instances.
use system_related_projects.Base.{
  ℕ, ◌+◌, ◌*◌, ◌≡◌, refl, some, List, [], ◌∷◌, ◌++◌, length, take, drop, replicate, if◌then◌else◌,
  ltb, ◌-◌, arith,
}
use system_related_projects.Base.Int.{pos, success, fail}
use system_related_projects.Base.Result.{done, returns}
use system_related_projects.Fat.{BootSector, Entry, FatMount, FatFile, Volume, Env, fat_16, splice}
use system_related_projects.Fat.Table.{cluster2block, block_offset, table_entry, table_reach}
use system_related_projects.Fat.Reading.{Keeps}
use system_related_projects.Fat.Layout.{Chain, chain_last, chain_link}

abbrev pub Device : Type 0
Device = List ℕ × ℕ

abbrev pub content : Device → List ℕ
content d = d.0

abbrev pub place : Device → ℕ
place d = d.1

abbrev pub volume : Volume Device ℕ
volume = record {
  open_fn = λ path mode d. done (some 1) d;
  close_fn = λ h d. done success d;
  seek_fn = λ h offset origin d. done success (d.0, offset);
  read_fn = λ h n d. done (pos n, take n (drop d.1 d.0)) (d.0, d.1 + n);
  write_fn = λ h bytes d. done (pos (length bytes)) (splice d.0 d.1 bytes, d.1 + length bytes);
}

pub keeps : Keeps volume content place
keeps = record {
  seeks = λ h offset d. returns (refl, refl, refl);
  reads = λ h n d within. returns (refl, refl, refl, refl);
}

-- Sectors of 32 bytes, where cluster `c` begins at byte `32 * (c - 1) + 1`.
abbrev pub sector : ℕ → BootSector
sector n = record {
  bytes_per_sector = 32;
  sectors_per_cluster = n;
  reserved_sectors = 0;
  num_fats = 0;
  num_root_dir_ents = 0;
  total_sectors = 9;
  sectors_per_fat = 0;
  hidden_sectors = 0;
  total_sectors_large = 0;
  fatsz32 = 0;
  magic = 0xaa55;
}

-- Cluster 2 leads to cluster 3, which is the last; cluster 4 is free.
abbrev pub table : List ℕ
table = 0xf8 ∷ 0xff ∷ 0xff ∷ 0xff ∷ 3 ∷ 0 ∷ 0xff ∷ 0xff ∷ 0 ∷ 0 ∷ []

abbrev pub mount_of : ℕ → List ℕ → FatMount ℕ
mount_of n dir = record {
  device = some 1;
  bootsector = sector n;
  rootdir = some dir;
  type = fat_16;
  fat_data = table;
  fat_size = 10;
  cluster_size = 32 * n;
  total_clusters = pos 5;
}

abbrev pub image : List ℕ
image = replicate 33 0 ++ (replicate 32 7 ++ (replicate 32 9 ++ replicate 64 1))

abbrev pub device : Device
device = (image, 0)

pub block_lem : cluster2block (sector 1) (pos 2) ≡ some 1
unfolding cluster2block
block_lem = refl

pub next_block_lem : cluster2block (sector 1) (pos 3) ≡ some 2
unfolding cluster2block
next_block_lem = refl

-- An empty file `A` with the archive attribute.
abbrev pub empty_file : Entry
empty_file = record {
  name = 65 ∷ replicate 7 32;
  extension = replicate 3 32;
  attribute = 32;
  reserved = replicate 10 0;
  time = 0;
  date = 0;
  start_cluster = 2;
  file_size = 0;
}

abbrev pub last_entry : Entry
last_entry = record {
  name = replicate 8 0;
  extension = replicate 3 0;
  attribute = 0;
  reserved = replicate 10 0;
  time = 0;
  date = 0;
  start_cluster = 0;
  file_size = 0;
}

-- The capital of a letter, 32 below it.
abbrev pub upper : ℕ → ℕ
upper b = if ltb b 97 then b else b - 32

abbrev pub a_file : FatFile
a_file = record { entry = empty_file; dir_cluster = fail; dir_index = fail; current_pos = 0 }

-- A file of forty bytes in clusters 2 and 3, at the start of the second.
abbrev pub long_file : FatFile
long_file = record {
  entry = record empty_file { file_size = 40 };
  dir_cluster = fail;
  dir_index = fail;
  current_pos = 32;
}

abbrev pub env : Env
env = record {
  fresh = λ n. replicate n 0;
  uninit_entry = last_entry;
  uninit_file = a_file;
  to_upper = upper;
  to_lower = λ b. b + 32;
}

pub two_clusters : Chain (mount_of 1 []) image (2 ∷ 3 ∷ [])
unfolding table_reach table_entry block_offset
two_clusters =
    chain_link (record { block = 1; found = block_lem; inside = omega arith })
      (record { known = refl; reach = omega arith; entry = refl; nonzero = omega arith })
      (chain_last (record { block = 2; found = next_block_lem; inside = omega arith }))
