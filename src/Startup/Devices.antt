-- ===== src/Startup/Devices.antt =====
-- What becomes of `vfs_init`, and devices through the virtual file system.
use system_related_projects.Base.{
  ℕ, ◌<◌, ◌≡◌, ◌≢◌, refl, ap, ◌∙◌, true, false, some, List, [], ◌∷◌, ◌++◌, length, drop, ==-false,
  lt→ltb, none, Bool-cases, inl, inr, ◌+◌, ◌==◌,
}
use system_related_projects.Base.Int.{ℤ}
use system_related_projects.Base.Result.{done, fault, pure, Returns, returns, ◌>>=◌, Part}
use system_related_projects.Vfs.{
  Str, Handle, MountPoint, Allocator, Vfs, null, vfs_maxfilename, FileSystem,
}
use system_related_projects.Vfs.Mounting.{
  mount, fill_in, find, is_prefix, sizeof_mountpoint, register, duplicate, file2mountpoint,
}
use system_related_projects.Vfs.Files.{
  open_file, read, close, has_mode, mode_read, mode_append, sizeof_handle, opened, rest_of,
}
use system_related_projects.Vfs.Chain.{Entries, Chain, first_match, load_lem}
use system_related_projects.Vfs.Access.{file2mountpoint-first_match}
use system_related_projects.Dfs.{Device, Dfs, Io}
use system_related_projects.Dfs.Ops.{dfs_type, find_device}
use system_related_projects.Dfs.Ops
use system_related_projects.Dfs.Registering.{dfs_init, sizeof_filesystem, file_system}
use system_related_projects.Fat.{Volume, Env}
use system_related_projects.Fat.Registering.{FatWorld}
use system_related_projects.Startup.{vfs_init}

module _ {W : Type 0} (heap : Allocator W) where
  -- The length of the name of a NULL device.
  fill_in-none :
      (m word : ℕ) (fs : FileSystem W) (mountpoint : Str) (fstype : ℤ) (s : Vfs W)
      → fill_in heap m word fs none mountpoint fstype s ≡ fault
  unfolding fill_in duplicate
  fill_in-none m word fs mountpoint fstype s =
      elim (Bool-cases ((heap.kmalloc (length mountpoint + 1) s.world).0 == null)) [
        | inl e ↦ rw e
        | inr e ↦ rw e
      ]

module _ {W C I D H : Type 0} (heap : Allocator W) (devices : Part W (Dfs C I)) (io : Io C I)
    (answer : ℤ) (disks : Part W (FatWorld D H)) (vol : Volume D H) (env : Env) where
  -- Where there is memory for the driver's record and for a mount point, `vfs_init` is a fault,
  -- whatever the state: it mounts the device file system on no device, and the length of that name
  -- is taken.
  pub vfs_init-fault :
      (s : Vfs W) {p m : ℕ} {w w' : W}
      → heap.kmalloc sizeof_filesystem s.world ≡ (p, w)
      → p ≢ null
      → heap.kmalloc sizeof_mountpoint w ≡ (m, w')
      → m ≢ null
      → vfs_init heap devices io answer disks vol env s ≡ fault
  unfolding vfs_init dfs_init register mount find
  vfs_init-fault s first p_ne second m_ne =
      simp (first, ==-false p_ne, second, ==-false m_ne, fill_in-none)

drop-append : (xs ys : Str) → drop (length xs) (xs ++ ys) ≡ ys
drop-append [] ys = refl
drop-append (x ∷ xs) ys = drop-append xs ys

open_device-found :
    {C I : Type 0} (io : Io C I) (hd : Handle) (name : Str) (x : Dfs C I) {d : Device C} {h : ℕ}
    {i : I}
    → find_device name x.devices ≡ some d
    → io.io_open d x.io ≡ (h, i)
    → h ≢ null
    → Ops.open_device io hd name x ≡ done (true, record hd { data_ptr = h }) (record x { io = i })
unfolding Ops.open_device
open_device-found io hd name x found opens ne =
    rw (found, Ops.open_device) (rw (opens, ==-false ne))

-- A path of the device file system that is mounted at `p`, with the device `d` behind it, and what
-- its io_open gives.
pub record OnDevice {W C I : Type 0} (heap : Allocator W) (devices : Part W (Dfs C I)) (io : Io C I)
    (answer : ℤ) (s : Vfs W) (ms : Entries W) (name : Str) (p : ℕ) (m : MountPoint W) (d : Device C)
    (a h : ℕ) (w : W) (i : I) : Type 0 where
  pub p_ne : p ≢ null
  pub holds : s.mounts p ≡ some m
  pub driver : m.fs ≡ file_system devices io answer
  pub first : first_match (λ path. is_prefix path (m.info.mountpoint ++ name)) ms ≡ p
  pub short : length (m.info.mountpoint ++ name) < vfs_maxfilename
  pub memory : heap.kmalloc sizeof_handle s.world ≡ (a, w)
  pub a_ne : a ≢ null
  pub found : find_device name (devices.get w).devices ≡ some d
  pub opens : io.io_open d (devices.get w).io ≡ (h, i)
  pub h_ne : h ≢ null

module _ {W C I : Type 0} {heap : Allocator W} {devices : Part W (Dfs C I)} {io : Io C I}
    {answer : ℤ} {s : Vfs W} {ms : Entries W} {name : Str} {p : ℕ} {m : MountPoint W} {d : Device C}
    {a h : ℕ} {w : W} {i : I} (on : OnDevice heap devices io answer s ms name p m d a h w i)
    (fuel : ℕ) (c : Chain s.mounts null s.mp_tail ms) (enough : length ms < fuel) (mode : ℕ) where
  abbrev handle : Handle
  handle = record { address = a; mount = p; data_ptr = h; mode = mode }

  -- The state with what the io functions keep.
  abbrev kept : I → W → Vfs W
  kept j v = record s { world = devices.put (record (devices.get w) { io = j }) v }

  open_device_lem :
      has_mode mode mode_append ≡ false
      → open_file heap fuel (m.info.mountpoint ++ name) mode s ≡ done (some handle) (kept i w)
  unfolding open_file opened rest_of
  open_device_lem no_append =
      let looked : file2mountpoint fuel (m.info.mountpoint ++ name) s ≡ done p s =
        file2mountpoint-first_match fuel c enough (m.info.mountpoint ++ name)
        ∙ ap (λ q. done q s) on.first in
      let has_fn = ap (λ (fs : FileSystem W). fs.calltable.open_fn) on.driver in
      rw (
        lt→ltb _ _ on.short,
        looked,
        ==-false on.p_ne,
        load_lem s on.p_ne on.holds,
        has_fn,
        on.memory,
        ==-false on.a_ne,
        drop-append m.info.mountpoint name,
        open_device-found io _ name (devices.get w) on.found on.opens on.h_ne,
        no_append,
      )

  read_device_lem :
      (n : ℕ) {r : ℤ} {bytes : List ℕ} {j : I} (v : W)
      → has_mode mode mode_read ≡ true
      → io.io_read h n (devices.get v).io ≡ (r, bytes, j)
      → read (some handle) n (record s { world = v })
        ≡ done (r, bytes) (record s { world = devices.put (record (devices.get v) { io = j }) v })
  unfolding read Ops.read
  read_device_lem n v reads e =
      let has_fn = ap (λ (fs : FileSystem W). fs.calltable.read_fn) on.driver in
      rw (reads, load_lem (record s { world = v }) on.p_ne on.holds, has_fn, e)

  close_device_lem :
      {r : ℤ} {j : I} (v : W)
      → io.io_close h (devices.get v).io ≡ (r, j)
      → close heap (some handle) (record s { world = v })
        ≡ done r
            (record s { world = heap.kfree a (devices.put (record (devices.get v) { io = j }) v) })
  unfolding close Ops.close
  close_device_lem v e =
      let has_fn = ap (λ (fs : FileSystem W). fs.calltable.close_fn) on.driver in
      rw (load_lem (record s { world = v }) on.p_ne on.holds, has_fn, e)

  module _ (same : (x : Dfs C I) (v : W) → devices.get (devices.put x v) ≡ x) where
    -- A path of the device file system, opened in a mode that reads and does not append, read and
    -- closed: `vfs_open` gives a handle to what io_open gives, `vfs_read` and `vfs_close` answer what
    -- io_read and io_close of the device then answer, one after the other. The handle's memory is
    -- freed, and of the virtual file system and of the list of devices nothing changes. The conditions
    -- are that the path has fewer than 256 bytes, the mount list fewer entries than the fuel, and the
    -- first mount point that is a prefix of the path is one of the device file system; that the rest of
    -- the path is the name of a device; that there is memory for the handle; that io_open does not
    -- answer NULL; and that the state of the drivers keeps what is stored in it for the devices.
    pub open-read-close :
        has_mode mode mode_append ≡ false
        → has_mode mode mode_read ≡ true
        → (n : ℕ) {r r' : ℤ} {bytes : List ℕ} {j j' : I} → io.io_read h n i ≡ (r, bytes, j)
        → io.io_close h j ≡ (r', j')
        → Returns
            (λ (x : (ℤ × List ℕ) × ℤ) (s' : Vfs W).
              (x ≡ ((r, bytes), r'))
              × ((v : W) × (s' ≡ record s { world = heap.kfree a v })
                  × (devices.get v ≡ record (devices.get w) { io = j' })))
            ((do
              hd ← open_file heap fuel (m.info.mountpoint ++ name) mode
              x ← read hd n
              y ← close heap hd
              pure (x, y))
              s)
    open-read-close no_append reads n {r} {r'} {bytes} {j} {j'} e e' =
        let v = (kept i w).world in
        let dfs = devices.get w in
        let v' = devices.put (record (devices.get v) { io = j }) v in
        let io1 : (devices.get v).io ≡ i = rw (same (record dfs { io = i }) w) in
        let io2 : (devices.get v').io ≡ j = rw (same (record (devices.get v) { io = j }) v) in
        let input : io.io_read h n (devices.get v).io ≡ (r, bytes, j) = rw (io1, e) in
        let ended : io.io_close h (devices.get v').io ≡ (r', j') = rw (io2, e') in
        let devs : (devices.get v').devices ≡ dfs.devices =
          rw (same (record (devices.get v) { io = j }) v, same (record dfs { io = i }) w) in
        let gone : (devices.get v').freed ≡ dfs.freed =
          rw (same (record (devices.get v) { io = j }) v, same (record dfs { io = i }) w) in
        rw (open_device_lem no_append, read_device_lem n v reads input, close_device_lem v' ended)
          (returns (
            refl,
            (
              devices.put (record (devices.get v') { io = j' }) v',
              refl,
              same (record (devices.get v') { io = j' }) v'
                  ∙ ap (λ ds. record { devices = ds; freed = (devices.get v').freed; io = j' }) devs
                  ∙ ap (λ fs. record { devices = dfs.devices; freed = fs; io = j' }) gone,
            ),
          ))
