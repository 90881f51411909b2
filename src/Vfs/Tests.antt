-- ===== src/Vfs/Tests.antt =====
-- Runs and instances of the virtual file system with a small driver.
use system_related_projects.Base.{
  ℕ, ◌+◌, ◌≡◌, refl, true, false, ◌==◌, List, [], ◌∷◌, ◌++◌, arith, Option, some, none, length,
  replicate,
}
use system_related_projects.Base.Int.{ℤ, pos, success, fail}
use system_related_projects.Base.Result.{M, pure, done, Returns}
use system_related_projects.Vfs.{
  Str, Handle, MountData, FileSystem, MountPoint, Allocator, Vfs, null, load,
}
use system_related_projects.Vfs.Mounting.{find, file2mountpoint, is_prefix, str_eq, mount, unmount}
use system_related_projects.Vfs.Files.{
  open_file, create, delete, rename, list_dir, write, has_mode, mode_write, write_with,
}
use system_related_projects.Vfs.Chain.{Entries, Chain, nil, cons, first_match}
use system_related_projects.Vfs.Appending.{
  Mounted, mounts, Supplied, view, mount_data, mount-appends,
}
use system_related_projects.Vfs.Unmounting.{Unmounted, unmount-cut}
use system_related_projects.Vfs.Access.{
  file2mountpoint-first_match, unmounted_path, write-permitted,
}

-- The heap hands out cleared memory in order; the world is the next address.
abbrev bump : Allocator ℕ
bump = record { kmalloc = λ n w. (w, w + n); kfree = λ p w. w; fresh_word = λ w. 0 }

abbrev driver_mount : Option Str → Str → ℤ → M ℕ ℕ
driver_mount device mountpoint fstype = pure 7

abbrev driver_unmount : MountData → Str → M ℕ ℤ
driver_unmount info mountpoint = pure success

abbrev driver_write : Handle → List ℕ → M ℕ ℤ
driver_write h buffer = pure (pos (length buffer))

abbrev driver : FileSystem ℕ
driver = record {
  fstype = pos 5;
  calltable = record {
    open_fn = none;
    close_fn = none;
    clone_fn = none;
    read_fn = none;
    write_fn = some driver_write;
    seek_fn = none;
    control_fn = none;
    create_fn = none;
    delete_fn = none;
    rename_fn = none;
    copy_fn = none;
    list_fn = none;
    mount_fn = some driver_mount;
    unmount_fn = some driver_unmount;
  };
}

abbrev slash : ℕ
slash = 47

-- Mount points for /a, /b and /c at the addresses 1, 2 and 3.
abbrev point : ℕ → ℕ → MountPoint ℕ
point c next = record {
  fs = driver;
  info = mount_data 7 (slash ∷ c ∷ []) 20 (100 ∷ []) 30;
  next = next;
}

abbrev three_mounts : Vfs ℕ
three_mounts = record {
  filesystems = driver ∷ [];
  mounts = λ a. elim (a == 1) [
    | true ↦ some (point 97 2)
    | false ↦ elim (a == 2) [
      | true ↦ some (point 98 3)
      | false ↦ elim (a == 3) [ true ↦ some (point 99 0) | false ↦ none ]
    ]
  ];
  mp_head = 3;
  mp_tail = 1;
  world = 1000;
}

abbrev three : Entries ℕ
three = (1, point 97 2) ∷ (2, point 98 3) ∷ (3, point 99 0) ∷ []

three-Chain : Chain three_mounts.mounts null 1 three
three-Chain =
    cons (omega arith) refl refl (cons (omega arith) refl refl (cons (omega arith) refl refl nil))

two-Chain : Chain three_mounts.mounts 3 1 ((1, point 97 2) ∷ (2, point 98 3) ∷ [])
two-Chain = cons (omega arith) refl refl (cons (omega arith) refl refl nil)

three-Mounted : Mounted three_mounts three
three-Mounted =
    mounts ((1, point 97 2) ∷ (2, point 98 3) ∷ []) (point 99 0) (omega arith) (omega arith)
      two-Chain refl refl refl refl

abbrev path_d : Str
path_d = slash ∷ 100 ∷ []

abbrev device : Str
device = 101 ∷ []

memory : Supplied bump three_mounts three path_d device 1000 1020 1023 1025
memory = record {
  w1 = 1020;
  w2 = 1023;
  first = refl;
  second = refl;
  third = refl;
  m_ne = omega arith;
  name_ne = omega arith;
  copy_ne = omega arith;
  fresh = refl;
  cleared = refl;
}

mount-appends_example :
    Returns
      (λ r s'.
        (r ≡ success)
        × (s'.world ≡ 1025)
        × ((ms' : Entries ℕ) × Mounted s' ms'
            × (view ms' ≡ view three ++ (1000, driver, mount_data 7 path_d 1020 device 1023) ∷ [])))
      (mount bump (some device) path_d (pos 5) three_mounts)
unfolding find
mount-appends_example =
    mount-appends memory driver (pos 5) refl refl refl (omega arith) three-Mounted

-- Of the three, /c is unmounted: only /a is left.
unmount-cut_example :
    Returns
      (Unmounted bump 1000 three_mounts 3 (point 99 0) ((1, point 97 2) ∷ (2, point 98 3) ∷ []) [])
      (unmount bump 4 (slash ∷ 99 ∷ []) three_mounts)
unfolding first_match str_eq
unmount-cut_example =
    unmount-cut bump 3 three_mounts (slash ∷ 99 ∷ []) (omega arith) refl refl
      ((1, point 97 2) ∷ (2, point 98 3) ∷ []) [] three-Chain (omega arith) refl

file2mountpoint-first_match_example :
    file2mountpoint 4 (slash ∷ 98 ∷ 99 ∷ []) three_mounts
    ≡ done
        (first_match (λ mountpoint. is_prefix mountpoint (slash ∷ 98 ∷ 99 ∷ [])) three)
        three_mounts
file2mountpoint-first_match_example =
    file2mountpoint-first_match 4 three-Chain (omega arith) (slash ∷ 98 ∷ 99 ∷ [])

unmounted_path_example :
    (open_file bump 4 path_d 1 three_mounts ≡ done none three_mounts)
    × (create 4 path_d three_mounts ≡ done fail three_mounts)
    × (delete 4 path_d three_mounts ≡ done fail three_mounts)
    × (rename 4 path_d device three_mounts ≡ done fail three_mounts)
    × (list_dir 4 path_d three_mounts ≡ done none three_mounts)
unfolding first_match is_prefix
unmounted_path_example =
    unmounted_path 4 three-Chain (omega arith) bump slash (100 ∷ []) device 1 (omega arith)
      (omega arith) refl

abbrev long_name : Str
long_name = replicate 256 slash

abbrev writable : Handle
writable = record { address = 50; mount = 2; data_ptr = 0; mode = 2 }

write-runs : write (some writable) (1 ∷ 2 ∷ []) three_mounts ≡ done (pos 2) three_mounts
unfolding write write_with has_mode load
write-runs = refl

write-permitted_example :
    (has_mode 2 mode_write ≡ true)
    × ((f : Handle → List ℕ → M ℕ ℤ) × ((point 98 3).fs.calltable.write_fn ≡ some f)
        × ((w : ℕ) × (f writable (1 ∷ 2 ∷ []) three_mounts.world ≡ done (pos 2) w)))
write-permitted_example =
    write-permitted three_mounts writable {m = point 98 3} (1 ∷ 2 ∷ []) (omega arith) refl
      write-runs λ e. cc
