-- ===== src/Vfs.antt =====
-- The virtual file system of MimicOS: MimicOS/src/kernel/fs/vfs.c with the structures of
-- MimicOS/include/kernel/fs/vfs.h.
--
-- `W` is what the drivers and the kernel heap keep. A driver is a call table of optional functions
-- over `W`, which may fault or not come to an end. Mount points live at addresses, since the code relinks and frees them; a read of one
-- that is not there is a fault. Text is the list of its bytes without the closing 0. A handle is
-- passed by value, with the address that it was allocated at.
pub mod Mounting
pub mod Files
pub mod Chain
pub mod Unmounting
pub mod Appending
pub mod Access
pub mod Text
mod Tests
use system_related_projects.Base.{
  ℕ, zero, suc, ◌+◌, ◌<◌, Bool, true, false, ◌&&◌, Option, none, some, List, [], ◌∷◌, ◌==◌, ltb,
  if◌then◌else◌, length,
}
use system_related_projects.Base.Int.{ℤ}
use system_related_projects.Base.Result.{Result, done, fault, spin, M, pure, ◌>>=◌, ◌>>◌}

abbrev pub Str : Type 0
Str = List ℕ

-- struct VFS_HANDLE
pub record Handle : Type 0 where
  pub address : ℕ
  pub mount : ℕ
  pub data_ptr : ℕ
  pub mode : ℕ

-- What a driver reads of a struct VFS_MOUNTPOINT, with the addresses of its two texts.
pub record MountData : Type 0 where
  pub data_ptr : ℕ
  pub mountpoint : Str
  pub mountpoint_ptr : ℕ
  pub device : Str
  pub device_ptr : ℕ

-- struct VFS_DIRLIST_ENTRY
pub record DirlistEntry : Type 0 where
  pub name : Str
  pub attributes : ℕ
  pub size : ℕ

-- struct VFS_FILESYSTEM_CALLTABLE. `open` and `clone` also return the handle that they filled in.
pub record Calltable (W : Type 0) : Type 0 where
  pub open_fn : Option (MountData → Handle → Str → M W (Bool × Handle))
  pub close_fn : Option (Handle → M W ℤ)
  pub clone_fn : Option (Handle → Handle → M W (ℤ × Handle))
  pub read_fn : Option (Handle → ℕ → M W (ℤ × List ℕ))
  pub write_fn : Option (Handle → List ℕ → M W ℤ)
  pub seek_fn : Option (Handle → ℕ → ℕ → M W ℤ)
  pub control_fn : Option (Handle → ℕ → ℕ → M W ℤ)
  pub create_fn : Option (MountData → Str → M W ℤ)
  pub delete_fn : Option (MountData → Str → M W ℤ)
  pub rename_fn : Option (MountData → Str → Str → M W ℤ)
  pub copy_fn : Option (MountData → Str → Str → M W ℤ)
  pub list_fn : Option (MountData → Str → M W (Option (List DirlistEntry)))
  pub mount_fn : Option (Option Str → Str → ℤ → M W ℕ)
  pub unmount_fn : Option (MountData → Str → M W ℤ)

-- struct VFS_FILESYSTEM, its list kept as a list
pub record FileSystem (W : Type 0) : Type 0 where
  pub fstype : ℤ
  pub calltable : Calltable W

-- struct VFS_MOUNTPOINT
pub record MountPoint (W : Type 0) : Type 0 where
  pub fs : FileSystem W
  pub info : MountData
  pub next : ℕ

-- `mm_kmalloc` and `mm_kfree` as the file systems see them, and the word that fresh memory holds
-- where a structure keeps its link.
pub record Allocator (W : Type 0) : Type 0 where
  pub kmalloc : ℕ → W → ℕ × W
  pub kfree : ℕ → W → W
  pub fresh_word : W → ℕ

-- The global variables of vfs.c.
pub record Vfs (W : Type 0) : Type 0 where
  pub filesystems : List (FileSystem W)
  pub mounts : ℕ → Option (MountPoint W)
  pub mp_head : ℕ
  pub mp_tail : ℕ
  pub world : W

abbrev pub null : ℕ
null = 0

abbrev pub vfs_maxfilename : ℕ
vfs_maxfilename = 256

module _ {W : Type 0} where
  abbrev pub get : M (Vfs W) (Vfs W)
  get s = done s s

  abbrev pub lift : {A : Type 0} → Vfs W → Result W A → Result (Vfs W) A
  lift s (done a w) = done a (record s { world = w })
  lift s fault = fault
  lift s spin = spin

  -- A call that works on the drivers' state.
  abbrev pub outside : {A : Type 0} → M W A → M (Vfs W) A
  outside f s = lift s (f s.world)

  abbrev pub allocate : Allocator W → ℕ → M (Vfs W) ℕ
  allocate heap n s = let r = heap.kmalloc n s.world in done r.0 (record s { world = r.1 })

  abbrev pub outside_free : Allocator W → ℕ → M (Vfs W) (Unit {0})
  outside_free heap p s = done tt (record s { world = heap.kfree p s.world })

  unfoldable pub load : ℕ → M (Vfs W) (MountPoint W)
  load p s = if p == null then fault else elim (s.mounts p) [ none ↦ fault | some m ↦ done m s ]

  abbrev pub put :
      (ℕ → Option (MountPoint W)) → ℕ → Option (MountPoint W) → ℕ → Option (MountPoint W)
  put mounts p c a = if a == p then c else mounts a

  abbrev pub store : ℕ → Option (MountPoint W) → M (Vfs W) (Unit {0})
  store p c s = done tt (record s { mounts = put s.mounts p c })

  unfoldable pub set_next : ℕ → ℕ → M (Vfs W) (Unit {0})
  set_next p q = do m ← load p; store p (some (record m { next = q }))

-- `strcpy` into a buffer of `size` bytes: one more byte than the text has, or a fault.
abbrev pub strcpy : {S : Type 0} → ℕ → Str → M S Str
strcpy size text = if ltb (length text) size then pure text else (λ _. fault)
