-- ===== src/Simdisk/Runs.antt =====
-- Runs and instances of the files and directories of the simulated disk, on a file that keeps its
-- bytes.
use system_related_projects.Base.{
  ℕ, ◌≤◌, ◌<◌, ◌≡◌, ◌≢◌, refl, true, false, Option, some, List, [], ◌∷◌, replicate, arith, ◌==◌,
  if◌then◌else◌, Bool, not, ◌&&◌, ◌||◌, ltb, passes, passes-at, zero, suc,
}
use system_related_projects.Base.Int.{ℤ, pos, negsuc}
use system_related_projects.Base.Result.{done, fault, Returns, ◌>>◌}
use system_related_projects.Vfs.{Str}
use system_related_projects.Vfs.Mounting.{str_eq, eq_int}
use system_related_projects.Simdisk.{Sys, minus_one, is_zero, read_inode, read_at}
use system_related_projects.Simdisk.Layout.{
  max_open_files, entries_per_dir, int_at, overwrite, inode_num, entry_inode, entry_length,
  entry_name, put_int,
}
use system_related_projects.Simdisk.Finding.{
  Session, Junk, slash, find, search_entries, examine, skips, same_text,
}
use system_related_projects.Simdisk.Making.{my_mkfs, put_entry}
use system_related_projects.Simdisk.Files.{my_open, my_creat}
use system_related_projects.Simdisk.Content.{written, bytes_of}
use system_related_projects.Simdisk.Device.{Keeps}
use system_related_projects.Simdisk.Formatting.{IsJunk, formatted}
use system_related_projects.Simdisk.Rereading.{zeros, IsRoot, my_mkfs-find, my_mkfs-my_mkfs}
use system_related_projects.Simdisk.Opening.{Opened, my_open-my_close}
use system_related_projects.Simdisk.Creating.{my_creat-fault}
use system_related_projects.Simdisk.Texts.{IsText}
use system_related_projects.Simdisk.Lookup.{FirstNamed, search_entries-FirstNamed}

record File : Type 0 where
  bytes : ℕ → ℕ
  at : ℕ
  len : ℕ

abbrev place_of : ℤ → ℕ
place_of (pos n) = n
place_of (negsuc n) = 0

abbrev file_calls : Sys File
file_calls = record {
  open_fd = λ path w. (pos 3, w);
  fstat = λ f w. (pos 0, w.len, w);
  lseek = λ f offset w. (offset, record w { at = place_of offset });
  read = λ f b n w. (pos n, overwrite b 0 (bytes_of w.bytes w.at n), w);
  write = λ f b n w. (pos n, record w { bytes = written w.bytes w.at n b });
  fsync = λ f w. (pos 0, w);
}

file_calls-Keeps : Keeps file_calls (λ w. w.bytes) (λ w. w.at) (λ w. w.len)
file_calls-Keeps = record {
  opens = λ path w. (3, refl, refl, refl);
  fstats = λ f w. (refl, refl, refl, refl);
  seeks = λ f n w. (refl, refl, refl, refl);
  reads = λ f b n w inside room. (refl, refl, refl, refl);
  writes = λ f b n w inside room. (refl, refl, refl);
  fsyncs = λ f w. (refl, refl);
}

abbrev junk : Junk
junk = record {
  inode = replicate 260 7;
  dir = replicate 2048 7;
  args = replicate 10 (replicate 50 7);
  bits = replicate 1024 7;
}

junk-IsJunk : IsJunk junk
junk-IsJunk = record { inode_sized = refl; dir_sized = refl }

-- A disk of 3000 blocks, which starts with the super block of a file system.
abbrev disk_file : File
disk_file = record {
  bytes = λ i. if i == 0 then 226 else (if i == 1 then 7 else 0);
  at = 0;
  len = 3072000;
}

abbrev session : Session File
session = record {
  disk = record { f = minus_one; devsize = pos 0; files = disk_file };
  fd = replicate 10 (pos 0);
  cwd_inode = pos 0;
}

abbrev root : Str
root = slash ∷ []

my_mkfs-find_example :
    Returns
      (λ (b : Option (List ℕ)) t.
        ((r : List ℕ) × (b ≡ some r) × IsRoot r) × (t.fd ≡ replicate max_open_files minus_one))
      ((do my_mkfs file_calls junk root; find file_calls junk root) session)
my_mkfs-find_example =
    my_mkfs-find file_calls (λ w. w.bytes) (λ w. w.at) (λ w. w.len) file_calls-Keeps junk
      junk-IsJunk root session refl refl (omega arith) (omega arith) junk junk-IsJunk

my_mkfs-my_mkfs_example :
    Returns
      (λ _ t. t.disk.files.bytes ≡ formatted junk zeros 3000 disk_file.bytes)
      ((do my_mkfs file_calls junk root; my_mkfs file_calls junk root) session)
my_mkfs-my_mkfs_example =
    my_mkfs-my_mkfs file_calls (λ w. w.bytes) (λ w. w.at) (λ w. w.len) file_calls-Keeps junk
      junk-IsJunk root session refl refl (omega arith) (omega arith) junk junk-IsJunk root

my_creat-fault_example :
    (my_creat file_calls junk (slash ∷ 97 ∷ 98 ∷ []) session ≡ fault)
    × (my_creat file_calls junk (97 ∷ 98 ∷ []) session ≡ fault)
my_creat-fault_example =
    my_creat-fault file_calls junk session (97 ∷ 98 ∷ []) (omega arith) (omega arith)

-- A file of 260 bytes is enough for the number of the root's inode.
abbrev found_root : List ℕ
found_root = replicate 260 1

-- The inode that find gives is what the system calls read.
abbrev one_inode : Sys File
one_inode = record file_calls { read = λ f b n w. (pos n, found_root, w) }

abbrev sought : Session File
sought = record session { disk = record session.disk { files = record disk_file { at = 16640 } } }

root-found : find one_inode junk root session ≡ done (some found_root) sought
unfolding find read_inode read_at str_eq
root-found = refl

my_open-my_close_example :
    Returns (Opened (int_at found_root inode_num) sought) (my_open one_inode junk root session)
my_open-my_close_example = my_open-my_close one_inode junk root session root-found refl

-- A directory block with a directory `a`, a file `a` and a file `b`, the rest not in use.
abbrev listing : List ℕ
listing = put_entry 0 (pos 5) (pos 2) (pos 32) (97 ∷ 0 ∷ []) (
    put_entry 1 (pos 6) (pos 1) (pos 32) (97 ∷ 0 ∷ [])
      (put_entry 2 (pos 7) (pos 1) (pos 32) (98 ∷ 0 ∷ []) (replicate 2048 0)))

abbrev texts : ℕ → Str
texts j = if j == 2 then 98 ∷ [] else 97 ∷ []

abbrev row : List ℕ
row = 97 ∷ 0 ∷ replicate 48 7

-- The file is the second entry.
search_entries-runs : search_entries entries_per_dir 0 false listing row tt ≡ done (some 1) tt
unfolding search_entries examine skips same_text put_entry put_int overwrite int_at
search_entries-runs = refl

-- No entry has the length 64, and behind the third none is in use.
abbrev entry_test : ℕ → Bool
entry_test j =
    not (eq_int (entry_length listing j) (pos 64)) && (ltb j 3 || is_zero (entry_inode listing j))

listing-table : passes entry_test 32 ≡ true
unfolding passes put_entry put_int overwrite int_at
listing-table = refl

not_64 : (x : ℤ) (b : Bool) → (not (eq_int x (pos 64)) && b) ≡ true → x ≢ pos 64
not_64 x b h e = let t : eq_int x (pos 64) ≡ true = rw e refl in let f = rw t at h in cc

unused : (a : Bool) (i : ℕ) (x : ℤ) → 3 ≤ i → (a && (ltb i 3 || is_zero x)) ≡ true → x ≡ pos 0
unused true i (pos n) h e = ground arith
unused true i (negsuc n) h e = ground arith
unused false i x h e = cc

listing-short : (j : ℕ) → j < 32 → entry_length listing j ≢ pos 64
listing-short j h = not_64 (entry_length listing j) _ (passes-at entry_test 32 listing-table h)

listing-stored :
    (j : ℕ) → j < 32 → entry_inode listing j ≢ pos 0 → IsText (entry_name listing j) (texts j)
unfolding put_entry put_int overwrite
listing-stored zero h used = record { rest = _; holds = refl; no_nul = omega arith }
listing-stored (suc zero) h used = record { rest = _; holds = refl; no_nul = omega arith }
listing-stored (suc (suc zero)) h used = record { rest = _; holds = refl; no_nul = omega arith }
listing-stored (suc (suc (suc j))) h used =
    absurd (
      used (unused _ (suc (suc (suc j))) _ (omega arith) (passes-at entry_test 32 listing-table h)))

search_entries-FirstNamed_example :
    Returns
      (λ r t. FirstNamed false listing texts (97 ∷ []) 0 r × (t ≡ tt))
      (search_entries entries_per_dir 0 false listing row tt)
search_entries-FirstNamed_example =
    search_entries-FirstNamed false listing texts
      (record { rest = replicate 48 7; holds = refl; no_nul = omega arith }) listing-stored
      listing-short tt
