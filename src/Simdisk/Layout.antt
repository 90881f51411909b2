-- ===== src/Simdisk/Layout.antt =====
-- The structures that the simulated disk keeps in its blocks, of kernal/file_system/simdisk.h.
--
-- A structure is the list of its bytes; an int has four, the lowest first. `struct inode` is read with
-- its field `name`, which the header has in a comment and the code uses: 260 bytes, of which
-- read_inode and write_inode move the first 256. `struct dir` has 2048 bytes, of which a block holds
-- the first 1024.
use system_related_projects.Base.{
  ℕ, zero, suc, ◌+◌, ◌-◌, ◌*◌, ◌/◌, ◌%◌, ◌^◌, List, [], ◌∷◌, ltb, if◌then◌else◌, take, drop, get_or,
}
use system_related_projects.Base.Int.{ℤ, pos, negsuc}

abbrev pub max_file_name_length : ℕ
max_file_name_length = 50

abbrev pub max_open_files : ℕ
max_open_files = 10

abbrev pub max_level : ℕ
max_level = 10

abbrev pub file_type : ℤ
file_type = pos 1

abbrev pub dir_type : ℤ
dir_type = pos 2

abbrev pub entries_per_dir : ℕ
entries_per_dir = 32

abbrev pub sizeof_inode : ℕ
sizeof_inode = 260

abbrev pub sizeof_dir : ℕ
sizeof_dir = 2048

-- Offsets in struct inode
abbrev pub inode_type : ℕ
inode_type = 0

abbrev pub inode_num : ℕ
inode_num = 4

abbrev pub inode_file_size : ℕ
inode_file_size = 8

abbrev pub inode_uid : ℕ
inode_uid = 12

abbrev pub inode_gid : ℕ
inode_gid = 16

abbrev pub inode_mode : ℕ
inode_mode = 20

abbrev pub inode_name : ℕ
inode_name = 31

abbrev pub inode_blocks : ℕ
inode_blocks = 84

abbrev pub inode_ind_blocks : ℕ
inode_ind_blocks = 124

-- Offsets in struct dirEntry, which has 64 bytes
abbrev pub sizeof_dentry : ℕ
sizeof_dentry = 64

abbrev pub dentry_inode : ℕ
dentry_inode = 0

abbrev pub dentry_type : ℕ
dentry_type = 4

abbrev pub dentry_length : ℕ
dentry_length = 8

abbrev pub dentry_name : ℕ
dentry_name = 12

-- The bytes put into a buffer from a place on, as far as it goes.
unfoldable pub overwrite : List ℕ → ℕ → List ℕ → List ℕ
overwrite [] at bytes = []
overwrite (x ∷ xs) (suc at) bytes = x ∷ overwrite xs at bytes
overwrite (x ∷ xs) zero [] = x ∷ xs
overwrite (x ∷ xs) zero (b ∷ bytes) = b ∷ overwrite xs zero bytes

abbrev pub word_of : ℤ → ℕ
word_of (pos n) = n % 2 ^ 32
word_of (negsuc n) = 2 ^ 32 - 1 - n % 2 ^ 32

abbrev pub int_bytes : ℤ → List ℕ
int_bytes i =
    let w = word_of i in w % 256 ∷ w / 256 % 256 ∷ w / 65536 % 256 ∷ w / 16777216 % 256 ∷ []

abbrev pub int_of : ℕ → ℤ
int_of w = if ltb w (2 ^ 31) then pos w else negsuc (2 ^ 32 - 1 - w)

unfoldable pub int_at : List ℕ → ℕ → ℤ
int_at b i = int_of (
    get_or b i 0
    + 256 * get_or b (i + 1) 0
    + 65536 * get_or b (i + 2) 0
    + 16777216 * get_or b (i + 3) 0)

unfoldable pub put_int : List ℕ → ℕ → ℤ → List ℕ
put_int b at i = overwrite b at (int_bytes i)

-- tmp->blocks[j]
abbrev pub block_of : List ℕ → ℕ → ℤ
block_of inode j = int_at inode (inode_blocks + j * 4)

-- The fields of dentry[k]
abbrev pub entry_inode : List ℕ → ℕ → ℤ
entry_inode direc k = int_at direc (k * sizeof_dentry + dentry_inode)

abbrev pub entry_type : List ℕ → ℕ → ℤ
entry_type direc k = int_at direc (k * sizeof_dentry + dentry_type)

abbrev pub entry_length : List ℕ → ℕ → ℤ
entry_length direc k = int_at direc (k * sizeof_dentry + dentry_length)

abbrev pub entry_name : List ℕ → ℕ → List ℕ
entry_name direc k = take max_file_name_length (drop (k * sizeof_dentry + dentry_name) direc)
