-- ===== src/Startup/Tests.antt =====
-- Runs and instances of the three file system components put together.
use system_related_projects.Base.{
  ℕ, ◌+◌, ◌≡◌, refl, true, false, none, some, [], ◌∷◌, List, ◌++◌, ◌==◌, arith,
}
use system_related_projects.Base.Int.{ℤ, pos, success, fail}
use system_related_projects.Base.Result.{fault, pure, Returns, ◌>>=◌, Part}
use system_related_projects.Vfs.{MountPoint, Allocator, Vfs}
use system_related_projects.Vfs.Mounting.{is_prefix, str_eq}
use system_related_projects.Vfs.Files.{open_file, read, close, has_mode}
use system_related_projects.Vfs.Chain.{Entries, Chain, cons, nil, first_match}
use system_related_projects.Vfs.Appending.{mount_data}
use system_related_projects.Dfs.{Device, Dfs, Io}
use system_related_projects.Dfs.Ops.{find_device}
use system_related_projects.Dfs.Registering.{file_system}
use system_related_projects.Fat.{null_mount, Entry, Volume, Env}
use system_related_projects.Fat.Registering.{FatWorld}
use system_related_projects.Startup.{vfs_init, device_path}
use system_related_projects.Startup.Devices.{OnDevice, vfs_init-fault, open-read-close}

-- What the drivers keep: the devices, the mounts and files, and the next free address.
record World : Type 0 where
  dfs : Dfs ℕ ℕ
  fat : FatWorld ℕ ℕ
  next : ℕ

abbrev bump : Allocator World
bump = record {
  kmalloc = λ n w. (w.next, record w { next = w.next + n });
  kfree = λ p w. w;
  fresh_word = λ w. 0;
}

abbrev devices : Part World (Dfs ℕ ℕ)
devices = record { get = λ w. w.dfs; put = λ x w. record w { dfs = x } }

abbrev disks : Part World (FatWorld ℕ ℕ)
disks = record { get = λ w. w.fat; put = λ x w. record w { fat = x } }

-- A device that counts the calls, and gives one byte.
abbrev counting : Io ℕ ℕ
counting = record {
  io_open = λ d i. (70, i + 1);
  io_close = λ h i. (success, i + 1);
  io_clone = λ h i. (fail, 0, i);
  io_read = λ h n i. (pos 1, 65 ∷ [], i + 1);
  io_write = λ h buffer i. (fail, i);
  io_seek = λ h offset origin i. (fail, i);
  io_control = λ h request arg i. (fail, i);
}

abbrev no_volume : Volume ℕ ℕ
no_volume = record {
  open_fn = λ name mode. pure none;
  close_fn = λ h. pure fail;
  seek_fn = λ h offset origin. pure fail;
  read_fn = λ h n. pure (fail, []);
  write_fn = λ h buffer. pure fail;
}

abbrev blank_entry : Entry
blank_entry = record {
  name = [];
  extension = [];
  attribute = 0;
  reserved = [];
  time = 0;
  date = 0;
  start_cluster = 0;
  file_size = 0;
}

abbrev env : Env
env = record {
  fresh = λ n. [];
  uninit_entry = blank_entry;
  uninit_file = record {
    entry = blank_entry;
    dir_cluster = fail;
    dir_index = fail;
    current_pos = 0;
  };
  to_upper = λ c. c;
  to_lower = λ c. c;
}

abbrev console : Device ℕ
console = record { name = 99 ∷ []; calltable = 1; type = pos 2 }

abbrev world : World
world = record {
  dfs = record { devices = console ∷ []; freed = []; io = 0 };
  fat = record { mounts = λ p. null_mount; files = λ p. none; dev = 0 };
  next = 1000;
}

abbrev unmounted : Vfs World
unmounted = record { filesystems = []; mounts = λ a. none; mp_head = 0; mp_tail = 0; world = world }

vfs_init-fault_example :
    vfs_init bump devices counting success disks no_volume env unmounted ≡ fault
vfs_init-fault_example =
    vfs_init-fault bump devices counting success disks no_volume env unmounted refl (omega arith)
      refl (omega arith)

abbrev point : MountPoint World
point = record {
  fs = file_system devices counting success;
  info = mount_data 1 device_path 20 [] 30;
  next = 0;
}

abbrev mounted : Vfs World
mounted = record unmounted {
  mounts = λ a. elim (a == 5) [ true ↦ some point | false ↦ none ];
  mp_head = 5;
  mp_tail = 5;
}

abbrev one : Entries World
one = (5, point) ∷ []

one-Chain : Chain mounted.mounts 0 5 one
one-Chain = cons (omega arith) refl refl nil

console_path :
    OnDevice bump devices counting success mounted one
      (99 ∷ [])
      5
      point
      console
      1000
      70
      (record world { next = 1012 })
      1
unfolding first_match is_prefix find_device str_eq
console_path = record {
  p_ne = omega arith;
  holds = refl;
  driver = refl;
  first = refl;
  short = omega arith;
  memory = refl;
  a_ne = omega arith;
  found = refl;
  opens = refl;
  h_ne = omega arith;
}

open-read-close_example :
    Returns
      (λ (x : (ℤ × List ℕ) × ℤ) (s' : Vfs World).
        (x ≡ ((pos 1, 65 ∷ []), success))
        × ((v : World) × (s' ≡ record mounted { world = bump.kfree 1000 v })
            × (v.dfs ≡ record { devices = console ∷ []; freed = []; io = 3 })))
      ((do
        hd ← open_file bump 2 (device_path ++ (99 ∷ [])) 1
        x ← read hd 1
        y ← close bump hd
        pure (x, y))
        mounted)
unfolding has_mode
open-read-close_example =
    open-read-close console_path 2 one-Chain (omega arith) 1 (λ x v. refl) refl refl 1 refl refl
