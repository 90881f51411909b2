-- ===== src/Fat.antt =====
-- The FAT file system of MimicOS: MimicOS/src/kernel/fs/fat.c with the structures of
-- MimicOS/include/kernel/fs/fat.h.
--
-- The state is one mounted volume and what the device keeps. The device is a file of the virtual file
-- system; the operations on it, vfs_open to vfs_seek, are the record `Volume`, over the device's state
-- `D` and its handles `H`. A struct on the disk is the list of its bytes, and is decoded where the code
-- casts the bytes to it. A FAT_FILE is passed by value and given back.
--
-- mm_kmalloc is taken to find memory, since the code does not test its answer, and the record `Env`
-- says what fresh memory and the uninitialised local entry hold; the functions toupper and tolower lie
-- outside the repository and are in it too. An access outside a buffer or to freed memory is a fault.
pub mod Table
pub mod Names
pub mod Paths
pub mod Files
pub mod Mounting
pub mod Entries
pub mod Listing
pub mod Free
pub mod Encoding
pub mod Packing
pub mod Splice
pub mod Reading
pub mod Writing
pub mod Sectors
pub mod Layout
pub mod Rounds
pub mod Transfer
pub mod Chains
pub mod Ending
pub mod Moving
pub mod Naming
pub mod Directory
pub mod Outcomes
pub mod Registering
pub mod Samples
mod Tests
use system_related_projects.Base.{
  ℕ, zero, suc, ◌+◌, ◌-◌, ◌*◌, ◌/◌, ◌%◌, ◌^◌, Bool, true, false, Option, none, some, List, [], ◌∷◌,
  ◌++◌, ltb, leb, ◌==◌, if◌then◌else◌, length, take, drop, get_elem?, get_or,
}
use system_related_projects.Base.Int.{ℤ, pos, negsuc}
use system_related_projects.Base.Result.{done, fault, spin, Result, M, pure, ◌>>=◌, ◌>>◌}
use system_related_projects.Vfs.{Str}

-- struct FAT_BOOTSECTOR, the fields that are read
pub record BootSector : Type 0 where
  pub bytes_per_sector : ℕ
  pub sectors_per_cluster : ℕ
  pub reserved_sectors : ℕ
  pub num_fats : ℕ
  pub num_root_dir_ents : ℕ
  pub total_sectors : ℕ
  pub sectors_per_fat : ℕ
  pub hidden_sectors : ℕ
  pub total_sectors_large : ℕ
  pub fatsz32 : ℕ
  pub magic : ℕ

-- struct FAT_ENTRY, with the attribute as a byte and the time and the date as words
pub record Entry : Type 0 where
  pub name : List ℕ
  pub extension : List ℕ
  pub attribute : ℕ
  pub reserved : List ℕ
  pub time : ℕ
  pub date : ℕ
  pub start_cluster : ℕ
  pub file_size : ℕ

-- struct FAT_MOUNTPOINT. `rootdir` is none once it is freed.
pub record FatMount (H : Type 0) : Type 0 where
  pub device : Option H
  pub bootsector : BootSector
  pub rootdir : Option (List ℕ)
  pub type : ℕ
  pub fat_data : List ℕ
  pub fat_size : ℕ
  pub cluster_size : ℕ
  pub total_clusters : ℤ

-- What data_ptr of the mount point leads to: NULL, a mount that is freed, or a FAT_MOUNTPOINT.
pub data MountPtr (H : Type 0) : Type 0 where
  null_mount : MountPtr H
  freed : MountPtr H
  mounted : FatMount H → MountPtr H

-- struct FAT_FILE, whose mount is the one of the state. No function leaves a negative `current_pos`
-- that finds none: it is a number below 2 ^ 31.
pub record FatFile : Type 0 where
  pub entry : Entry
  pub dir_cluster : ℤ
  pub dir_index : ℤ
  pub current_pos : ℕ

-- vfs_open, vfs_close, vfs_seek, vfs_read and vfs_write
pub record Volume (D H : Type 0) : Type 0 where
  pub open_fn : Str → ℕ → M D (Option H)
  pub close_fn : Option H → M D ℤ
  pub seek_fn : Option H → ℕ → ℕ → M D ℤ
  pub read_fn : Option H → ℕ → M D (ℤ × List ℕ)
  pub write_fn : Option H → List ℕ → M D ℤ

pub record Env : Type 0 where
  pub fresh : ℕ → List ℕ
  pub uninit_entry : Entry
  pub uninit_file : FatFile
  pub to_upper : ℕ → ℕ
  pub to_lower : ℕ → ℕ

pub record Fat (D H : Type 0) : Type 0 where
  pub mount : MountPtr H
  pub dev : D

abbrev pub w32 : ℕ
w32 = 2 ^ 32

abbrev pub fat_read : ℕ
fat_read = 1

abbrev pub fat_write : ℕ
fat_write = 2

abbrev pub free_cluster : ℕ
free_cluster = 0

abbrev pub end_of_cluster : ℕ
end_of_cluster = 0xffff_ffff

abbrev pub entry_deleted : ℕ
entry_deleted = 0xe5

abbrev pub pad_byte : ℕ
pad_byte = 0x20

abbrev pub fat_12 : ℕ
fat_12 = 12

abbrev pub fat_16 : ℕ
fat_16 = 16

abbrev pub fat_32 : ℕ
fat_32 = 32

abbrev pub fat_magic : ℕ
fat_magic = 0xaa55

abbrev pub name_size : ℕ
name_size = 8

abbrev pub extension_size : ℕ
extension_size = 3

abbrev pub sizeof_entry : ℕ
sizeof_entry = 32

abbrev pub sizeof_bootsector : ℕ
sizeof_bootsector = 512

-- An int as the 32-bit word that it is converted to, and back.
abbrev pub to_word : ℤ → ℕ
to_word (pos n) = n % w32
to_word (negsuc n) = w32 - 1 - n % w32

abbrev pub to_int : ℕ → ℤ
to_int w = if ltb (w % w32) (2 ^ 31) then pos (w % w32) else negsuc (w32 - 1 - w % w32)

-- The little-endian word of two or four bytes at a place, 0 for bytes that are not there.
abbrev pub word_at : List ℕ → ℕ → ℕ
word_at bytes i = get_or bytes i 0 + 256 * get_or bytes (i + 1) 0

abbrev pub dword_at : List ℕ → ℕ → ℕ
dword_at bytes i = word_at bytes i + 65536 * word_at bytes (i + 2)

unfoldable pub decode_entry : List ℕ → Entry
decode_entry b = record {
  name = take 8 b;
  extension = take 3 (drop 8 b);
  attribute = get_or b 11 0;
  reserved = take 10 (drop 12 b);
  time = word_at b 22;
  date = word_at b 24;
  start_cluster = word_at b 26;
  file_size = dword_at b 28;
}

abbrev pub word_bytes : ℕ → List ℕ
word_bytes w = w % 256 ∷ w / 256 % 256 ∷ []

-- The bytes of an entry behind the reserved ones.
abbrev pub tail_bytes : Entry → List ℕ
tail_bytes e =
    word_bytes e.time
    ++ word_bytes e.date
    ++ word_bytes e.start_cluster
    ++ word_bytes (e.file_size % 65536)
    ++ word_bytes (e.file_size / 65536)

unfoldable pub encode_entry : Entry → List ℕ
encode_entry e = e.name ++ (e.extension ++ (e.attribute ∷ (e.reserved ++ tail_bytes e)))

unfoldable pub decode_bootsector : List ℕ → BootSector
decode_bootsector b = record {
  bytes_per_sector = word_at b 11;
  sectors_per_cluster = get_or b 13 0;
  reserved_sectors = word_at b 14;
  num_fats = get_or b 16 0;
  num_root_dir_ents = word_at b 17;
  total_sectors = word_at b 19;
  sectors_per_fat = word_at b 22;
  hidden_sectors = dword_at b 28;
  total_sectors_large = dword_at b 32;
  fatsz32 = dword_at b 36;
  magic = word_at b 510;
}

-- The bytes put into a buffer from a place on.
unfoldable pub splice : List ℕ → ℕ → List ℕ → List ℕ
splice buffer at bytes = take at buffer ++ (bytes ++ drop (at + length bytes) buffer)

-- A fault where the bytes do not fit.
unfoldable pub overlay : {S : Type 0} → List ℕ → ℕ → List ℕ → M S (List ℕ)
overlay buffer at bytes =
    if leb (at + length bytes) (length buffer) then pure (splice buffer at bytes) else (λ _. fault)

-- `count` bytes of a buffer from a place on.
unfoldable pub slice : {S : Type 0} → List ℕ → ℕ → ℕ → M S (List ℕ)
slice buffer at count =
    if leb (at + count) (length buffer) then pure (take count (drop at buffer)) else (λ _. fault)

-- dir[i] of a buffer that is cast to an array of entries
unfoldable pub dir_at : {S : Type 0} → List ℕ → ℕ → M S Entry
dir_at buffer i = do b ← slice buffer (i * sizeof_entry) sizeof_entry; pure (decode_entry b)

unfoldable pub set_dir_at : {S : Type 0} → List ℕ → ℕ → Entry → M S (List ℕ)
set_dir_at buffer i e = overlay buffer (i * sizeof_entry) (encode_entry e)

module _ {D H : Type 0} where
  abbrev pub get_mount : M (Fat D H) (FatMount H)
  get_mount s = elim s.mount [ null_mount ↦ fault | freed ↦ fault | mounted m ↦ done m s ]

  abbrev pub put_mount : FatMount H → M (Fat D H) (Unit {0})
  put_mount m s = done tt (record s { mount = mounted m })

  abbrev pub set_mount : MountPtr H → M (Fat D H) (Unit {0})
  set_mount p s = done tt (record s { mount = p })

  -- Is data_ptr NULL?
  abbrev pub is_null : M (Fat D H) Bool
  is_null s = elim s.mount [
    | null_mount ↦ done true s
    | freed ↦ done false s
    | mounted m ↦ done false s
  ]

  abbrev pub lift : {A : Type 0} → Fat D H → Result D A → Result (Fat D H) A
  lift s (done a d) = done a (record s { dev = d })
  lift s fault = fault
  lift s spin = spin

  -- An operation of the virtual file system, here on the device of the mount point.
  abbrev pub on_device : {A : Type 0} → (Option H → M D A) → M (Fat D H) A
  on_device op = do m ← get_mount; λ s. lift s (op m.device s.dev)

-- The state with a mount.
abbrev pub on_mount : {D H : Type 0} → FatMount H → D → Fat D H
on_mount m d = record { mount = mounted m; dev = d }
