-- ===== src/Vfs/Mounting.antt =====
-- `vfs_register`, `vfs_unregister`, `vfs_find`, `vfs_mount`, `vfs_unmount` and
-- `vfs_file2mountpoint` of MimicOS/src/kernel/fs/vfs.c. The loops over the mount list run on fuel.
use system_related_projects.Base.{
  ℕ, zero, suc, ◌+◌, Bool, true, false, ◌&&◌, Option, none, some, List, [], ◌∷◌, ◌==◌,
  if◌then◌else◌, length,
}
use system_related_projects.Base.Int.{ℤ, pos, negsuc, success, fail}
use system_related_projects.Base.Result.{done, fault, spin, M, pure, ◌>>=◌, ◌>>◌}
use system_related_projects.Vfs.{
  Str, FileSystem, Allocator, Vfs, null, vfs_maxfilename, get, outside, allocate, outside_free,
  load, store, set_next, strcpy,
}

-- sizeof(struct VFS_MOUNTPOINT): five words of 32 bits
abbrev pub sizeof_mountpoint : ℕ
sizeof_mountpoint = 20

abbrev pub eq_int : ℤ → ℤ → Bool
eq_int (pos a) (pos b) = a == b
eq_int (negsuc a) (negsuc b) = a == b
eq_int (pos a) (negsuc b) = false
eq_int (negsuc a) (pos b) = false

-- strcmp(a, b) == 0
unfoldable pub str_eq : Str → Str → Bool
str_eq [] [] = true
str_eq [] (y ∷ ys) = false
str_eq (x ∷ xs) [] = false
str_eq (x ∷ xs) (y ∷ ys) = (x == y) && str_eq xs ys

-- strncmp(prefix, text, strlen(prefix)) == 0
unfoldable pub is_prefix : Str → Str → Bool
is_prefix [] ys = true
is_prefix (x ∷ xs) [] = false
is_prefix (x ∷ xs) (y ∷ ys) = (x == y) && is_prefix xs ys

module _ {W : Type 0} where
  unfoldable pub register : FileSystem W → M (Vfs W) ℤ
  register fs s = done success (record s { filesystems = fs ∷ s.filesystems })

  unfoldable pub unregister : ℤ → M (Vfs W) ℤ
  unregister fstype = pure fail

  unfoldable pub find : ℤ → List (FileSystem W) → Option (FileSystem W)
  find fstype [] = none
  find fstype (fs ∷ rest) = if eq_int fs.fstype fstype then some fs else find fstype rest

  -- `for (mount = vfs_mpTail; mount != NULL; mount = mount->next)` up to the first mount point that
  -- passes the test; NULL if there is none.
  unfoldable pub search_mounts : (Str → Bool) → ℕ → ℕ → M (Vfs W) ℕ
  search_mounts test zero p = λ _. spin
  search_mounts test (suc f) p =
      if p == null
      then pure null
      else (do m ← load p; if test m.info.mountpoint then pure p else search_mounts test f m.next)

  unfoldable pub file2mountpoint : ℕ → Str → M (Vfs W) ℕ
  file2mountpoint fuel filename = do
    s ← get
    search_mounts (λ mountpoint. is_prefix mountpoint filename) fuel s.mp_tail

  abbrev pub set_tail : ℕ → M (Vfs W) (Unit {0})
  set_tail p s = done tt (record s { mp_tail = p })

  abbrev pub set_head : ℕ → M (Vfs W) (Unit {0})
  set_head p s = done tt (record s { mp_head = p })

  -- The new mount point put behind the others.
  unfoldable pub link : ℕ → M (Vfs W) (Unit {0})
  link m = do s ← get; if s.mp_tail == null then set_tail m else set_next s.mp_head m; set_head m

  -- The loop that looks for the predecessor. Its test is the assignment `m->next = mount`.
  unfoldable pub unlink_loop : ℕ → ℕ → ℕ → M (Vfs W) ℕ
  unlink_loop zero m mount = λ _. spin
  unlink_loop (suc f) m mount =
      if m == null
      then pure null
      else (do set_next m mount; if mount == null then unlink_loop f mount mount else pure m)

  unfoldable pub unlink : ℕ → ℕ → ℕ → M (Vfs W) (Unit {0})
  unlink fuel mount next = do
    s ← get
    if mount == s.mp_tail
        then set_tail next
        else (do m ← unlink_loop fuel s.mp_tail mount; set_next m next)

  module _ (heap : Allocator W) where
    -- `mm_kfree` of a mount point
    unfoldable pub release : ℕ → M (Vfs W) (Unit {0})
    release p = do outside_free heap p; store p none

    -- mm_kmalloc(strlen(text) + 1) and `strcpy` into it; a fault if there is no memory.
    unfoldable pub duplicate : Str → M (Vfs W) ℕ
    duplicate text = do
      p ← allocate heap (length text + 1)
      if p == null then (λ _. fault) else pure p

    -- The driver's own `mount`, for the mount point that is already linked.
    unfoldable pub driver_mount :
        Option (Option Str → Str → ℤ → M W ℕ) → ℕ → Option Str → Str → ℤ → M (Vfs W) ℤ
    driver_mount none m device mountpoint fstype = do release m; pure fail
    driver_mount (some f) m device mountpoint fstype = do
      d ← outside (f device mountpoint fstype)
      mp ← load m
      store m (some (record mp { info = record mp.info { data_ptr = d } }))
      if d == null then (do release m; pure fail) else pure success

    unfoldable pub call_mount : ℕ → FileSystem W → Option Str → Str → ℤ → M (Vfs W) ℤ
    call_mount m fs device mountpoint fstype =
        driver_mount fs.calltable.mount_fn m device mountpoint fstype

    -- strlen(device) of a NULL device is a fault.
    unfoldable pub fill_in : ℕ → ℕ → FileSystem W → Option Str → Str → ℤ → M (Vfs W) ℤ
    fill_in m word fs none mountpoint fstype = do name ← duplicate mountpoint; λ _. fault
    fill_in m word fs (some device) mountpoint fstype = do
      name ← duplicate mountpoint
      copy ← duplicate device
      store m (
          some (record {
            fs = fs;
            info = record {
              data_ptr = word;
              mountpoint = mountpoint;
              mountpoint_ptr = name;
              device = device;
              device_ptr = copy;
            };
            next = word;
          }))
      link m
      call_mount m fs (some device) mountpoint fstype

    unfoldable pub mount : Option Str → Str → ℤ → M (Vfs W) ℤ
    mount device mountpoint fstype = do
      m ← allocate heap sizeof_mountpoint
      s ← get
      if m == null then pure fail else elim (find fstype s.filesystems) [
        | none ↦ do outside_free heap m; pure fail
        | some fs ↦ fill_in m (heap.fresh_word s.world) fs device mountpoint fstype
      ]

    unfoldable pub unmount : ℕ → Str → M (Vfs W) ℤ
    unmount fuel mountpoint = do
      name ← strcpy vfs_maxfilename mountpoint
      s ← get
      p ← search_mounts (λ text. str_eq text name) fuel s.mp_tail
      if p == null then pure fail else (do
        m ← load p
        elim m.fs.calltable.unmount_fn [
          | none ↦ pure fail
          | some f ↦ do
            r ← outside (f m.info name)
            unlink fuel p m.next
            outside_free heap m.info.mountpoint_ptr
            outside_free heap m.info.device_ptr
            release p
            pure success
        ])
