-- ===== src/Dfs/Registering.antt =====
-- `dfs_init` of MimicOS/src/kernel/fs/dfs.c: the device file system as a driver of the virtual file
-- system, with its state as a part of what the drivers keep. `answer` is the value that `dfs_copy`
-- happens to leave.
use system_related_projects.Base.{ℕ, some, ◌==◌, if◌then◌else◌}
use system_related_projects.Base.Int.{ℤ}
use system_related_projects.Base.Result.{fault, M, pure, ◌>>=◌, Part, within}
use system_related_projects.Vfs.{Calltable, FileSystem, Allocator, Vfs, null, allocate}
use system_related_projects.Vfs.Mounting.{register}
use system_related_projects.Dfs.{Dfs, Io}
use system_related_projects.Dfs.Ops.{
  dfs_type, open_device, close, clone, read, write, seek, control, create, delete, rename, copy,
  list_dir, mount, unmount,
}

-- sizeof(struct VFS_FILESYSTEM): the type, fourteen functions and the link, words of 32 bits
abbrev pub sizeof_filesystem : ℕ
sizeof_filesystem = 64

module _ {W C I : Type 0} (part : Part W (Dfs C I)) (io : Io C I) (answer : ℤ) where
  abbrev pub calltable : Calltable W
  calltable = record {
    open_fn = some (λ m h name. within part (open_device io h name));
    close_fn = some (λ h. within part (close io h));
    clone_fn = some (λ h c. within part (clone io h c));
    read_fn = some (λ h size. within part (read io h size));
    write_fn = some (λ h buffer. within part (write io h buffer));
    seek_fn = some (λ h offset origin. within part (seek io h offset origin));
    control_fn = some (λ h request arg. within part (control io h request arg));
    create_fn = some (λ m name. within part (create m name));
    delete_fn = some (λ m name. within part (delete m name));
    rename_fn = some (λ m src dst. within part (rename answer m src dst));
    copy_fn = some (λ m src dst. within part (copy answer m src dst));
    list_fn = some (λ m dir. within part (list_dir m dir));
    mount_fn = some (λ device mountpoint fstype. pure (mount device mountpoint fstype));
    unmount_fn = some (λ m mountpoint. within part (unmount m mountpoint));
  }

  abbrev pub file_system : FileSystem W
  file_system = record { fstype = dfs_type; calltable = calltable }

  -- The memory is written without a test of its address.
  unfoldable pub dfs_init : Allocator W → M (Vfs W) ℤ
  dfs_init heap = do
    fs ← allocate heap sizeof_filesystem
    if fs == null then (λ _. fault) else register file_system
