-- ===== src/Dfs.antt =====
-- The device file system, MimicOS/src/kernel/fs/dfs.c with MimicOS/include/kernel/fs/dfs.h.
--
-- The devices are a linked list that only this file touches, kept as a list from `dfs_deviceHead` on.
-- An entry owns its name and its call table. The io_* functions, which lie outside the repository,
-- are the record `Io`; the call table of a device is an abstract value that is handed to them.
pub mod Ops
pub mod Registering
pub mod Devices
pub mod ListingDevices
mod Tests
use system_related_projects.Base.{
  ℕ, zero, suc, ◌+◌, Bool, true, false, Option, none, some, List, [], ◌∷◌, ◌==◌, if◌then◌else◌,
  length,
}
use system_related_projects.Base.Int.{ℤ}
use system_related_projects.Vfs.{Str}

-- struct DFS_ENTRY
pub record Device (C : Type 0) : Type 0 where
  pub name : Str
  pub calltable : C
  pub type : ℤ

-- What `dfs_remove` gives back to the heap.
pub data Freed (C : Type 0) : Type 0 where
  freed_calltable : C → Freed C
  freed_name : Str → Freed C
  freed_entry : Device C → Freed C

-- The state of the file system, with what it has freed, the latest first, beside what the io_* functions keep.
pub record Dfs (C I : Type 0) : Type 0 where
  pub devices : List (Device C)
  pub freed : List (Freed C)
  pub io : I

-- The io_* functions of MimicOS/include/kernel/io/io.h. An io handle is an address, 0 for NULL.
pub record Io (C I : Type 0) : Type 0 where
  pub io_open : Device C → I → ℕ × I
  pub io_close : ℕ → I → ℤ × I
  pub io_clone : ℕ → I → ℤ × ℕ × I
  pub io_read : ℕ → ℕ → I → ℤ × List ℕ × I
  pub io_write : ℕ → List ℕ → I → ℤ × I
  pub io_seek : ℕ → ℕ → ℕ → I → ℤ × I
  pub io_control : ℕ → ℕ → ℕ → I → ℤ × I
