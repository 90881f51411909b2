-- ===== src/Dfs/Ops.antt =====
-- The operations of MimicOS/src/kernel/fs/dfs.c. `mm_kmalloc` is taken to find memory, as the code
-- does not test its answer.
use system_related_projects.Base.{
  ℕ, ◌+◌, ◌*◌, ◌/◌, Bool, true, false, Option, none, some, List, [], ◌∷◌, ◌==◌, if◌then◌else◌,
  length, ltb, take, set, replicate, ◌-◌,
}
use system_related_projects.Base.Int.{ℤ, pos, success, fail, is_fail}
use system_related_projects.Base.Result.{done, fault, M, pure, ◌>>=◌}
use system_related_projects.Vfs.{Str, Handle, MountData, DirlistEntry, strcpy}
use system_related_projects.Vfs.Mounting.{str_eq, eq_int}
use system_related_projects.Dfs.{Device, Dfs, freed_calltable, freed_name, freed_entry, Io}

abbrev pub dfs_type : ℤ
dfs_type = pos 2

abbrev pub vfs_directory : ℕ
vfs_directory = 1

abbrev pub vfs_device : ℕ
vfs_device = 2

abbrev pub vfs_namesize : ℕ
vfs_namesize = 32

-- How many entries the buffer of `dfs_list` has room for.
abbrev pub list_capacity : ℕ
list_capacity = 32

-- Any address but NULL stands for `(void *)!NULL`.
unfoldable pub mount : Option Str → Str → ℤ → ℕ
mount device mountpoint fstype = if eq_int fstype dfs_type then 1 else 0

unfoldable pub directory_entry : Str → DirlistEntry
directory_entry name = record { name = name; attributes = vfs_directory; size = 0 }

-- An entry that memset has cleared.
abbrev pub cleared_entry : DirlistEntry
cleared_entry = record { name = []; attributes = 0; size = 0 }

-- An entry is written into the buffer; behind its end that is a fault.
unfoldable pub put_entry :
    {S : Type 0} → List DirlistEntry → ℕ → DirlistEntry → M S (List DirlistEntry)
put_entry entries i e = if ltb i (length entries) then pure (set entries i e) else (λ _. fault)

module _ {C : Type 0} where
  unfoldable pub find_device : Str → List (Device C) → Option (Device C)
  find_device name [] = none
  find_device name (d ∷ ds) = if str_eq d.name name then some d else find_device name ds

  -- The list without the first device of that name.
  unfoldable pub drop_device : Str → List (Device C) → List (Device C)
  drop_device name [] = []
  drop_device name (d ∷ ds) = if str_eq d.name name then ds else d ∷ drop_device name ds

  -- strncpy of a name into an entry
  unfoldable pub list_entry : Device C → DirlistEntry
  list_entry d = record { name = take vfs_namesize d.name; attributes = vfs_device; size = 0 }

  -- The loop of `dfs_list` from entry `i` on. Where the count is not used up at the end of the devices,
  -- the NULL behind the last one is read.
  unfoldable pub fill_list :
      {S : Type 0} → List (Device C) → ℕ → ℕ → List DirlistEntry → M S (List DirlistEntry)
  fill_list [] i count entries = if count == 0 then pure entries else (λ _. fault)
  fill_list (d ∷ ds) i count entries = do
    entries' ← put_entry entries i (list_entry d)
    fill_list ds (i + 1) (count - 1) entries'

module _ {C I : Type 0} where
  unfoldable pub add : Str → C → ℤ → M (Dfs C I) (Device C)
  add name calltable type s =
      let d : Device C = record { name = name; calltable = calltable; type = type } in
      done d (record s { devices = d ∷ s.devices })

  unfoldable pub remove : Str → M (Dfs C I) ℤ
  remove name s = elim (find_device name s.devices) [
    | none ↦ done fail s
    | some d ↦ done success (record s {
      devices = drop_device name s.devices;
      freed = freed_entry d ∷ freed_name d.name ∷ freed_calltable d.calltable ∷ s.freed;
    })
  ]

  unfoldable pub unmount : MountData → Str → M (Dfs C I) ℤ
  unmount m mountpoint = pure fail

  module _ (io : Io C I) where
    abbrev pub on_io : {A : Type 0} → (I → A × I) → M (Dfs C I) A
    on_io f s = let r = f s.io in done r.0 (record s { io = r.1 })

    -- The answer is NULL or the handle, with what was stored in `data_ptr` in both cases.
    unfoldable pub open_device : Handle → Str → M (Dfs C I) (Bool × Handle)
    open_device h filename s = elim (find_device filename s.devices) [
      | none ↦ done (false, h) s
      | some d ↦
          let (p, i) = io.io_open d s.io in
          done (if p == 0 then false else true, record h { data_ptr = p }) (record s { io = i })
    ]

    unfoldable pub close : Handle → M (Dfs C I) ℤ
    close h = on_io (io.io_close h.data_ptr)

    unfoldable pub clone : Handle → Handle → M (Dfs C I) (ℤ × Handle)
    clone h c =
        on_io (λ i. let r = io.io_clone h.data_ptr i in ((r.0, record c { data_ptr = r.1 }), r.2))

    unfoldable pub read : Handle → ℕ → M (Dfs C I) (ℤ × List ℕ)
    read h size = on_io (λ i. let r = io.io_read h.data_ptr size i in ((r.0, r.1), r.2))

    unfoldable pub write : Handle → List ℕ → M (Dfs C I) ℤ
    write h buffer = on_io (io.io_write h.data_ptr buffer)

    unfoldable pub seek : Handle → ℕ → ℕ → M (Dfs C I) ℤ
    seek h offset origin = on_io (io.io_seek h.data_ptr offset origin)

    unfoldable pub control : Handle → ℕ → ℕ → M (Dfs C I) ℤ
    control h request arg = on_io (io.io_control h.data_ptr request arg)

  unfoldable pub create : MountData → Str → M (Dfs C I) ℤ
  create m filename = pure fail

  unfoldable pub delete : MountData → Str → M (Dfs C I) ℤ
  delete m filename = remove filename

  -- The copy of the name is given strlen(dst) bytes, which `mm_kmalloc` rounds up to a multiple of 8,
  -- and `strcpy` writes one byte more than strlen(dst).
  unfoldable pub duplicate_name : Str → M (Dfs C I) Str
  duplicate_name dst = strcpy ((length dst + 7) / 8 * 8) dst

  -- There is no `return` behind `dfs_add`: `answer` is what the caller then finds.
  unfoldable pub copy : ℤ → MountData → Str → Str → M (Dfs C I) ℤ
  copy answer m src dst s = elim (find_device src s.devices) [
    | none ↦ done fail s
    | some d ↦ (do name ← duplicate_name dst; added ← add name d.calltable d.type; pure answer) s
  ]

  unfoldable pub rename : ℤ → MountData → Str → Str → M (Dfs C I) ℤ
  rename answer m src dst = do
    r ← copy answer m src dst
    if is_fail r then pure fail else delete m src

  -- The buffer that is returned.
  unfoldable pub list_dir : MountData → Str → M (Dfs C I) (Option (List DirlistEntry))
  list_dir m dir s =
      if length s.devices == 0
      then done none s
      else (do
        here ← put_entry (replicate list_capacity cleared_entry) 0 (directory_entry (46 ∷ []))
        parent ← put_entry here 1 (directory_entry (46 ∷ 46 ∷ []))
        entries ← fill_list s.devices 2 (length s.devices) parent
        pure (some entries))
          s
