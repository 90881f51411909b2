-- ===== src/Vfs/Appending.antt =====
-- What `vfs_mount` does to the mount list.
use system_related_projects.Base.{
  ℕ, ◌+◌, ◌≡◌, ◌≢◌, refl, ap, ◌∙◌, false, Option, some, List, [], ◌∷◌, ◌++◌, length, arith,
  ==-false, ==-refl, map,
}
use mathlib.Core.List.{map-append}
use system_related_projects.Base.Int.{ℤ, success}
use system_related_projects.Base.Result.{M, done, and_then, Returns, Returns-of}
use system_related_projects.Vfs.{Str, MountData, FileSystem, MountPoint, Allocator, Vfs, null, put}
use system_related_projects.Vfs.Mounting.{
  sizeof_mountpoint, find, link, duplicate, driver_mount, call_mount, fill_in, mount,
}
use system_related_projects.Vfs.Chain.{
  Store, Entries, has, has-append, Chain, nil, load_lem, set_next_lem, Chain-frame, Chain-snoc,
}

-- The fields of a new mount point: what the driver returned, and the copies of the two texts.
abbrev pub mount_data : ℕ → Str → ℕ → Str → ℕ → MountData
mount_data d mountpoint name device copy = record {
  data_ptr = d;
  mountpoint = mountpoint;
  mountpoint_ptr = name;
  device = device;
  device_ptr = copy;
}

module _ {W : Type 0} where
  -- The list `ms` hangs from `vfs_mpTail`, and `vfs_mpHead` is its last mount point.
  pub data Mounted (s : Vfs W) (ms : Entries W) : Type 0 where
    no_mounts : s.mp_tail ≡ null → ms ≡ [] → Mounted s ms
    mounts :
        (init : Entries W) (last : MountPoint W)
        → s.mp_tail ≢ null
        → s.mp_head ≢ null
        → Chain s.mounts s.mp_head s.mp_tail init
        → s.mounts s.mp_head ≡ some last
        → last.next ≡ null
        → has s.mp_head init ≡ false
        → ms ≡ init ++ (s.mp_head, last) ∷ []
        → Mounted s ms

  -- A mount list as the rest of the system sees it: which driver serves which path.
  abbrev pub entry : ℕ × MountPoint W → ℕ × FileSystem W × MountData
  entry (p, m) = (p, m.fs, m.info)

  abbrev pub view : Entries W → List (ℕ × FileSystem W × MountData)
  view ms = map entry ms

  -- The memory that `vfs_mount` asks for is there, apart from the mount list, and comes cleared.
  pub record Supplied (heap : Allocator W) (s : Vfs W) (ms : Entries W) (mountpoint device : Str)
      (m name copy : ℕ) (w : W) : Type 0 where
    pub w1 : W
    pub w2 : W
    pub first : heap.kmalloc sizeof_mountpoint s.world ≡ (m, w1)
    pub second : heap.kmalloc (length mountpoint + 1) w1 ≡ (name, w2)
    pub third : heap.kmalloc (length device + 1) w2 ≡ (copy, w)
    pub m_ne : m ≢ null
    pub name_ne : name ≢ null
    pub copy_ne : copy ≢ null
    pub fresh : has m ms ≡ false
    pub cleared : heap.fresh_word w1 ≡ null

module _ {W : Type 0} {heap : Allocator W} {s : Vfs W} {ms : Entries W} {mountpoint device : Str}
    {m name copy : ℕ} {w : W} (mem : Supplied heap s ms mountpoint device m name copy w)
    (fs : FileSystem W) (fstype : ℤ) where
  -- The mount point before the driver is called.
  abbrev blank : MountPoint W
  blank = record { fs = fs; info = mount_data null mountpoint name device copy; next = null }

  abbrev placed : Vfs W
  placed = record s { mounts = put s.mounts m (some blank); world = w }

  mount-placed :
      find fstype s.filesystems ≡ some fs
      → mount heap (some device) mountpoint fstype s
        ≡ and_then (link m placed) (λ _. call_mount heap m fs (some device) mountpoint fstype)
  unfolding mount fill_in duplicate
  mount-placed found = simp (
    mem.first,
    found,
    ==-false mem.m_ne,
    mem.second,
    ==-false mem.name_ne,
    mem.third,
    ==-false mem.copy_ne,
    mem.cleared,
  )

  call_mount-success :
      {f : Option Str → Str → ℤ → M W ℕ} {d : ℕ} (w' : W) (t : Vfs W)
      → fs.calltable.mount_fn ≡ some f
      → f (some device) mountpoint fstype t.world ≡ done d w'
      → d ≢ null
      → t.mounts m ≡ some blank
      → call_mount heap m fs (some device) mountpoint fstype t
        ≡ done success (record t {
          mounts =
              put t.mounts m
                (some (record blank { info = mount_data d mountpoint name device copy }));
          world = w';
        })
  unfolding call_mount
  call_mount-success {f} {d} w' t has_fn answer ne holds =
      ap (λ o. driver_mount heap o m (some device) mountpoint fstype t) has_fn ∙ ran
    where
      ran :
          driver_mount heap (some f) m (some device) mountpoint fstype t
          ≡ done success (record t {
            mounts =
                put t.mounts m
                  (some (record blank { info = mount_data d mountpoint name device copy }));
            world = w';
          })
      ran =
          unfold driver_mount in
          rw (answer, load_lem (record t { world = w' }) mem.m_ne holds, ==-false ne)

  abbrev filled : ℕ → MountPoint W
  filled d = record blank { info = mount_data d mountpoint name device copy }

  abbrev Appended : ℕ → Vfs W → Type 0
  Appended d s' =
      (ms' : Entries W) × Mounted s' ms'
      × (view ms' ≡ view ms ++ (m, fs, mount_data d mountpoint name device copy) ∷ [])

  link-first :
      s.mp_tail ≡ null → link m placed ≡ done tt (record placed { mp_tail = m; mp_head = m })
  unfolding link
  link-first e = rw e

  link-later :
      {last : MountPoint W}
      → s.mp_tail ≢ null
      → s.mp_head ≢ null
      → s.mp_head ≢ m
      → s.mounts s.mp_head ≡ some last
      → link m placed
        ≡ done tt (record placed {
          mounts = put placed.mounts s.mp_head (some (record last { next = m }));
          mp_head = m;
        })
  unfolding link
  link-later {last} nt nh ne holds =
      rw (==-false nt, set_next_lem placed {m = last} m nh (rw (==-false ne) holds))

  module _ {f : Option Str → Str → ℤ → M W ℕ} {d : ℕ} {w' : W}
      (found : find fstype s.filesystems ≡ some fs) (has_fn : fs.calltable.mount_fn ≡ some f)
      (answer : f (some device) mountpoint fstype w ≡ done d w') (accepted : d ≢ null) where
    -- On a list `ms` whose last mount point is `vfs_mpHead`, with the driver known, its `mount`
    -- successful and the memory supplied and cleared, `vfs_mount` succeeds, keeps that invariant, and
    -- the list shows the same paths and drivers as before with the new ones behind them.
    pub mount-appends :
        Mounted s ms
        → Returns
            (λ r s'. (r ≡ success) × (s'.world ≡ w') × Appended d s')
            (mount heap (some device) mountpoint fstype s)
    mount-appends (no_mounts e e') =
        rw (mount-placed found, link-first e)
          (Returns-of (call_mount-success w' _ has_fn answer accepted (rw ==-refl)) (
            refl,
            refl,
            (
              (m, filled d) ∷ [],
              mounts [] (filled d) mem.m_ne mem.m_ne nil (rw ==-refl) refl refl refl,
              rw e',
            ),
          ))
    mount-appends (mounts init last nt nh c holds end out e) =
        rw (mount-placed found, link-later nt nh apart.0 holds)
          (Returns-of
            (call_mount-success w' _ has_fn answer accepted (rw (==-false apart.2, ==-refl)))
            (
              refl,
              refl,
              (
                longer ++ (m, filled d) ∷ [],
                mounts longer (filled d) nt mem.m_ne chain (rw ==-refl) refl
                    (ground (arith, apart, has-append m init ((s.mp_head, last') ∷ []))) refl,
                rw (e, map-append, map-append, map-append),
              ),
            ))
      where
        last' : MountPoint W
        last' = record last { next = m }

        longer : Entries W
        longer = init ++ (s.mp_head, last') ∷ []

        apart : (s.mp_head ≢ m) × (has m init ≡ false) × (m ≢ s.mp_head)
        apart = ground (arith, mem.fresh, e, has-append m init ((s.mp_head, last) ∷ []))

        store' : Store W
        store' = put (put placed.mounts s.mp_head (some last')) m (some (filled d))

        chain : Chain store' m s.mp_tail longer
        chain =
            Chain-snoc (Chain-frame c λ a i. ground (arith, apart)) nh
              (rw (==-false apart.0, ==-refl)) out
