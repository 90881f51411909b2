-- ===== src/Fat/Registering.antt =====
-- `fat_init` of MimicOS/src/kernel/fs/fat.c: the FAT file system as a driver of the virtual file
-- system. The mounts and the open files, which the mount points and the handles lead to by address,
-- stand in tables. A path is passed on with its closing 0. What `fat_read` puts into the caller's
-- buffer is given back as the bytes up to its count.
use system_related_projects.Base.{
  ℕ, ◌+◌, ◌*◌, Bool, true, false, Option, none, some, List, [], ◌∷◌, ◌++◌, ◌==◌, if◌then◌else◌,
  length, take, map, replicate,
}
use system_related_projects.Base.Int.{ℤ, pos, negsuc}
use system_related_projects.Base.Result.{
  Result, done, fault, spin, M, pure, ◌>>=◌, ◌>>◌, Part, within,
}
use system_related_projects.Vfs.{
  Str, Handle, MountData, DirlistEntry, Calltable, FileSystem, Allocator, Vfs, null, allocate,
}
use system_related_projects.Vfs.Mounting.{register}
use system_related_projects.Dfs.Registering.{sizeof_filesystem}
use system_related_projects.Fat.{MountPtr, null_mount, FatFile, Volume, Env, Fat}
use system_related_projects.Fat.Files.{
  minus_one, opened, Opened, open_file, read_file, write_file, seek_file, close_file, clone_file,
  control_file,
}
use system_related_projects.Fat.Mounting.{mount_volume, unmount_volume}
use system_related_projects.Fat.Entries.{create, delete, rename, copy}
use system_related_projects.Fat.Listing.{Listed, list}

abbrev pub fat_type : ℤ
fat_type = pos 1

-- sizeof(struct FAT_MOUNTPOINT) and sizeof(struct FAT_FILE), which are packed
abbrev pub sizeof_mount : ℕ
sizeof_mount = 4 + 512 + 4 + 1 + 4 * 4

abbrev pub sizeof_file : ℕ
sizeof_file = 4 + 32 + 3 * 4

-- Each file with the address of its mount.
pub record FatWorld (D H : Type 0) : Type 0 where
  pub mounts : ℕ → MountPtr H
  pub files : ℕ → Option (ℕ × FatFile)
  pub dev : D

module _ {D H : Type 0} where
  abbrev pub mount_at : FatWorld D H → ℕ → MountPtr H
  mount_at w p = if p == null then null_mount else w.mounts p

  abbrev pub keep_mount :
      {A : Type 0} → FatWorld D H → ℕ → Result (Fat D H) A → Result (FatWorld D H) A
  keep_mount w p (done a s) =
      done a (record w { mounts = λ q. if q == p then s.mount else w.mounts q; dev = s.dev })
  keep_mount w p fault = fault
  keep_mount w p spin = spin

  -- A command on the mount at an address.
  unfoldable pub at_mount : {A : Type 0} → ℕ → M (Fat D H) A → M (FatWorld D H) A
  at_mount p m w = keep_mount w p (m (record { mount = mount_at w p; dev = w.dev }))

  unfoldable pub store_file : ℕ → Option (ℕ × FatFile) → M (FatWorld D H) (Unit {0})
  store_file a f w = done tt (record w { files = λ b. if b == a then f else w.files b })

  -- A command on the file at an address, which may free it; NULL is no file.
  unfoldable pub with_file :
      {A : Type 0} → ℕ → (Option FatFile → M (Fat D H) (A × Option FatFile)) → M (FatWorld D H) A
  with_file a f w =
      (if a == null then (do (r, _) ← at_mount null (f none); pure r) else elim (w.files a) [
        | none ↦ (λ _. fault)
        | some (p, file) ↦ do
          (r, file') ← at_mount p (f (some file))
          store_file a (elim file' [ none ↦ none | some f' ↦ some (p, f') ])
          pure r
      ])
        w

abbrev pub vfs_file : ℕ
vfs_file = 0

abbrev pub vfs_directory : ℕ
vfs_directory = 1

abbrev pub dirlist_entry : Listed → DirlistEntry
dirlist_entry e = record {
  name = e.name;
  attributes = if e.is_directory then vfs_directory else vfs_file;
  size = e.size;
}

abbrev pub terminated : Str → List ℕ
terminated name = name ++ 0 ∷ []

abbrev pub counted : ℤ → List ℕ → List ℕ
counted (pos n) buffer = take n buffer
counted (negsuc k) buffer = []

module _ {W D H : Type 0} (part : Part W (FatWorld D H)) (heap : Allocator W) (vol : Volume D H)
    (env : Env) where
  abbrev pub kmalloc : ℕ → M W ℕ
  kmalloc n w = let r = heap.kmalloc n w in done r.0 r.1

  abbrev pub kfree : ℕ → M W (Unit {0})
  kfree p w = done tt (heap.kfree p w)

  abbrev pub on_mount : {A : Type 0} → MountData → M (Fat D H) A → M W A
  on_mount m command = within part (at_mount m.data_ptr command)

  -- The device of a NULL name is searched behind address 0.
  unfoldable pub mount : Option Str → Str → ℤ → M W ℕ
  mount none mountpoint fstype = λ _. fault
  mount (some device) mountpoint fstype = do
    p ← kmalloc sizeof_mount
    if p == null then pure null else (do
      ok ← within part (at_mount p (mount_volume vol env device))
      if ok then pure p else (do kfree p; pure null))

  -- The result FAIL is an address other than NULL, so the caller takes the file for open.
  unfoldable pub open_handle : MountData → Handle → Str → M W (Bool × Handle)
  open_handle m h name = if m.data_ptr == null then pure (true, h) else (do
    a ← kmalloc sizeof_file
    r ← on_mount m (open_file vol env (terminated name) h.mode)
    elim r [
      | minus_one ↦ pure (true, h)
      | Opened.null ↦ do kfree a; pure (false, h)
      | opened file ↦ do
        within part (store_file a (some (m.data_ptr, file)))
        pure (true, record h { data_ptr = a })
    ])

  unfoldable pub close_handle : Handle → M W ℤ
  close_handle h = do
    r ← within part (with_file h.data_ptr (λ f. pure (close_file f)))
    if h.data_ptr == null then pure r else (do kfree h.data_ptr; pure r)

  unfoldable pub read_handle : Handle → ℕ → M W (ℤ × List ℕ)
  read_handle h size = do
    (r, buffer) ← within part (
        with_file h.data_ptr (λ f. do
          (r, buffer, f') ← read_file vol env f (replicate size 0) size
          pure ((r, buffer), f')))
    pure (r, counted r buffer)

  abbrev pub calltable : Calltable W
  calltable = record {
    open_fn = some open_handle;
    close_fn = some close_handle;
    clone_fn = some (λ h c. pure (clone_file none none, c));
    read_fn = some read_handle;
    write_fn = some (λ h buffer.
        within part (with_file h.data_ptr (λ f. write_file vol env f buffer (length buffer))));
    seek_fn = some (λ h offset origin.
        within part (with_file h.data_ptr (λ f. pure (seek_file f offset origin))));
    control_fn = some (λ h request arg. pure (control_file none request arg));
    create_fn = some (λ m name. on_mount m (create vol env (terminated name)));
    delete_fn = some (λ m name. on_mount m (delete vol env (terminated name)));
    rename_fn = some (λ m src dst. on_mount m (rename vol env (terminated src) (terminated dst)));
    copy_fn = some (λ m src dst. pure (copy src dst));
    list_fn = some (λ m dir. do
      found ← on_mount m (list vol env (terminated dir))
      pure (elim found [ none ↦ none | some es ↦ some (map dirlist_entry es) ]));
    mount_fn = some mount;
    unmount_fn = some (λ m mountpoint. do
      r ← on_mount m (unmount_volume vol env)
      if m.data_ptr == null then pure r else (do kfree m.data_ptr; pure r));
  }

  abbrev pub file_system : FileSystem W
  file_system = record { fstype = fat_type; calltable = calltable }

  -- The memory is written without a test of its address.
  unfoldable pub fat_init : M (Vfs W) ℤ
  fat_init = do
    fs ← allocate heap sizeof_filesystem
    if fs == null then (λ _. fault) else register file_system
