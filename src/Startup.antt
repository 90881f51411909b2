-- ===== src/Startup.antt =====
-- `vfs_init` of MimicOS/src/kernel/fs/vfs.c, which puts the three file system components together:
-- the device file system and the FAT file system as drivers of the virtual file system.
--
-- What the drivers keep, `W`, holds the state of both as parts. `answer` is the value that `dfs_copy`
-- happens to leave.
pub mod Devices
pub mod Reading
pub mod Seeking
mod FileRuns
mod Tests
use system_related_projects.Base.{none}
use system_related_projects.Base.Int.{ℤ, success}
use system_related_projects.Base.Result.{M, pure, ◌>>=◌, ◌>>◌, Part}
use system_related_projects.Vfs.{Str, Allocator, Vfs}
use system_related_projects.Vfs.Mounting.{mount}
use system_related_projects.Dfs.{Dfs, Io}
use system_related_projects.Dfs.Ops.{dfs_type}
use system_related_projects.Dfs.Registering.{dfs_init}
use system_related_projects.Fat.{Volume, Env}
use system_related_projects.Fat.Registering.{FatWorld, fat_init}
use system_related_projects.Base.{[], ◌∷◌}

-- "/amos/device/"
abbrev pub device_path : Str
device_path = 47 ∷ 97 ∷ 109 ∷ 111 ∷ 115 ∷ 47 ∷ 100 ∷ 101 ∷ 118 ∷ 105 ∷ 99 ∷ 101 ∷ 47 ∷ []

module _ {W C I D H : Type 0} (heap : Allocator W) (devices : Part W (Dfs C I)) (io : Io C I)
    (answer : ℤ) (disks : Part W (FatWorld D H)) (vol : Volume D H) (env : Env) where
  -- No answer is looked at.
  unfoldable pub vfs_init : M (Vfs W) ℤ
  vfs_init = do
    dfs_init devices io answer heap
    mount heap none device_path dfs_type
    fat_init disks heap vol env
    pure success
