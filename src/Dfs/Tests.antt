-- ===== src/Dfs/Tests.antt =====
-- Runs and instances of the device file system with two devices.
use system_related_projects.Base.{
  ℕ, ◌<◌, ◌≤◌, ◌≡◌, ◌≢◌, refl, [], ◌∷◌, ◌⊎◌, arith, some, none, length,
}
use system_related_projects.Base.Int.{pos, success}
use system_related_projects.Base.Result.{done, fault, Returns}
use system_related_projects.Vfs.{Str, MountData}
use system_related_projects.Vfs.Mounting.{str_eq}
use system_related_projects.Dfs.{Device, Dfs}
use system_related_projects.Dfs.Ops.{find_device, rename, list_dir}
use system_related_projects.Dfs.Devices.{rename-moves}
use system_related_projects.Dfs.ListingDevices.{listed, list_dir_lem}

-- A call table is a number here.
abbrev console : Device ℕ
console = record { name = 99 ∷ []; calltable = 1; type = pos 2 }

abbrev floppy : Device ℕ
floppy = record { name = 102 ∷ []; calltable = 2; type = pos 1 }

abbrev two_devices : Dfs ℕ ℕ
two_devices = record { devices = console ∷ floppy ∷ []; freed = []; io = 0 }

abbrev root : MountData
root = record {
  data_ptr = 1;
  mountpoint = 47 ∷ [];
  mountpoint_ptr = 20;
  device = [];
  device_ptr = 30;
}

abbrev new_name : Str
new_name = 103 ∷ []

other_names : {a b : ℕ} → a ≢ b → (a ∷ []) ≢ (b ∷ [])
other_names ne e = ne cc

rename-moves_example :
    Returns
      (λ r s'.
        (r ≡ success)
        × (find_device new_name s'.devices
            ≡ some (record { name = new_name; calltable = 2; type = pos 1 }))
        × (find_device (99 ∷ []) s'.devices ≡ find_device (99 ∷ []) two_devices.devices))
      (rename success root (102 ∷ []) new_name two_devices)
unfolding find_device str_eq
rename-moves_example =
    rename-moves two_devices root (102 ∷ []) new_name {d = floppy} refl (omega arith) success
      (99 ∷ []) refl (other_names (omega arith)) (other_names (omega arith))
      (other_names (omega arith))

list_dir_lem_example :
    ((length two_devices.devices ≡ 0) × (list_dir root [] two_devices ≡ done none two_devices))
    ⊎ ((30 < length two_devices.devices) × (list_dir root [] two_devices ≡ fault))
    ⊎ ((length two_devices.devices ≤ 30)
        × (list_dir root [] two_devices ≡ done (some (listed two_devices)) two_devices)
        × (length (listed two_devices) ≡ 32))
list_dir_lem_example = list_dir_lem two_devices root []
