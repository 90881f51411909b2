-- ===== src/Fat/Mounting.antt =====
-- fat_mount and fat_unmount of fat.c. The result of fat_mount becomes the data_ptr of the mount
-- point, which is where the model keeps it.
use system_related_projects.Base.{
  ℕ, ◌+◌, ◌*◌, Bool, true, false, Option, none, some, [], ◌==◌, if◌then◌else◌, replicate,
}
use system_related_projects.Base.Int.{ℤ, pos, success, fail}
use system_related_projects.Base.Result.{M, pure, ◌>>=◌, ◌>>◌}
use system_related_projects.Vfs.{Str}
use system_related_projects.Fat.{
  BootSector, FatMount, null_mount, freed, Volume, Env, Fat, fat_magic, sizeof_entry,
  sizeof_bootsector, decode_bootsector, overlay, get_mount, put_mount, set_mount, lift, on_device,
  is_null,
}
use system_related_projects.Fat.Table.{seek_start, determine_type}

abbrev pub mode_readwrite : ℕ
mode_readwrite = 3

-- A fresh FAT_MOUNTPOINT with what is set before its type is determined.
unfoldable pub new_mount : {H : Type 0} → Option H → BootSector → FatMount H
new_mount device sector = record {
  device = device;
  bootsector = sector;
  rootdir = none;
  type = 0;
  fat_data = [];
  fat_size = 0;
  cluster_size = 0;
  total_clusters = pos 0;
}

module _ {D H : Type 0} (vol : Volume D H) (env : Env) where
  -- The table and the root directory are read in. The sizes, int in the code, stay below 2 ^ 31.
  unfoldable pub load_volume : M (Fat D H) (Unit {0})
  load_volume = do
    determine_type
    m ← get_mount
    let b = m.bootsector
    let fat_size = b.sectors_per_fat * b.bytes_per_sector
    (_, table) ← on_device (λ h. vol.read_fn h fat_size)
    fat_data ← overlay (replicate fat_size 0) 0 table
    let dir_size = b.num_root_dir_ents * sizeof_entry
    on_device (λ h. vol.seek_fn h (b.num_fats * fat_size + sizeof_bootsector + 1) seek_start)
    (_, dir) ← on_device (λ h. vol.read_fn h dir_size)
    rootdir ← overlay (replicate dir_size 0) 0 dir
    put_mount (record m {
      rootdir = some rootdir;
      fat_data = fat_data;
      fat_size = fat_size;
      cluster_size = b.bytes_per_sector * b.sectors_per_cluster;
    })

  -- The device is closed again where the magic number is wrong. Is there a mount?
  unfoldable pub mount_volume : Str → M (Fat D H) Bool
  mount_volume device = do
    h ← λ s. lift s (vol.open_fn device mode_readwrite s.dev)
    elim h [
      | none ↦ do set_mount null_mount; pure false
      | some handle ↦ do
        (_, bytes) ← λ s. lift s (vol.read_fn (some handle) sizeof_bootsector s.dev)
        sector ← overlay (env.fresh sizeof_bootsector) 0 bytes
        let b = decode_bootsector sector
        if b.magic == fat_magic
            then (do put_mount (new_mount (some handle) b); load_volume; pure true)
            else (do
              λ s. lift s (vol.close_fn (some handle) s.dev)
              set_mount null_mount
              pure false)
    ]

  -- The mount is freed and the pointer to it stays.
  unfoldable pub unmount_volume : M (Fat D H) ℤ
  unmount_volume = do
    missing ← is_null
    if missing
        then pure fail
        else (do on_device (λ h. vol.close_fn h); set_mount freed; pure success)
