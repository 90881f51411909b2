-- ===== src/Paging.antt =====
-- The page directories of MimicOS: MimicOS/src/kernel/mm/paging.c with the macros and structures of
-- MimicOS/include/kernel/mm/paging.h.
--
-- Physical memory is a map from the address of a page and an index to the entry that stands there.
-- The function paging_mapQuick, which has no body in the repository, makes the page at a physical
-- address readable at once: an access through its result is an access to that page. The mutex is
-- seen through the log of its calls. Frames come from the physical page allocator. The processor's
-- register cr3 is part of the state. The process manager and the scheduler, which lie outside the
-- repository, are the record `Processes`, over what they keep.
pub mod Mapping
pub mod Creating
mod Tests
use system_related_projects.Base.{
  ℕ, zero, suc, ◌+◌, ◌-◌, ◌*◌, ◌/◌, ◌%◌, ◌^◌, Bool, true, false, ◌&&◌, List, ◌∷◌, ◌==◌,
  if◌then◌else◌,
}
use system_related_projects.Base.Int.{ℤ, pos, negsuc, success, fail}
use system_related_projects.Base.Result.{Result, done, fault, spin, M, pure, ◌>>=◌, ◌>>◌}
use system_related_projects.Physical.{Physical, page_alloc}

-- struct PAGE_TABLE_ENTRY and struct PAGE_DIRECTORY_ENTRY, which has `reserved` for `dirty` and
-- `pagesize` for `attributeindex`
pub record PageEntry : Type 0 where
  pub present : ℕ
  pub readwrite : ℕ
  pub user : ℕ
  pub writethrough : ℕ
  pub cachedisabled : ℕ
  pub accessed : ℕ
  pub dirty : ℕ
  pub attributeindex : ℕ
  pub globalpage : ℕ
  pub available : ℕ
  pub address : ℕ

-- The fields of struct PROCESS_INFO that are read
pub record Process : Type 0 where
  pub page_dir : ℕ
  pub privilege : ℕ

pub data Call : Type 0 where
  lock_paging unlock_paging : Call

pub record Paging : Type 0 where
  pub physical : Physical
  pub memory : ℕ → ℕ → PageEntry
  pub calls : List Call
  pub cr3 : ℕ

abbrev pub page_entrys : ℕ
page_entrys = 1024

abbrev pub size_4kb : ℕ
size_4kb = 4096

abbrev pub readwrite_access : ℕ
readwrite_access = 1

abbrev pub readonly_access : ℕ
readonly_access = 0

abbrev pub page_align : ℕ → ℕ
page_align a = (a + size_4kb - 1) % 2 ^ 32 / size_4kb * size_4kb

abbrev pub get_directory_index : ℕ → ℕ
get_directory_index a = a / 2 ^ 22 % 1024

abbrev pub get_table_index : ℕ → ℕ
get_table_index a = a / 2 ^ 12 % 1024

abbrev pub table_shift_r : ℕ → ℕ
table_shift_r a = a / 2 ^ 12

abbrev pub table_shift_l : ℕ → ℕ
table_shift_l a = a * 2 ^ 12 % 2 ^ 32

abbrev pub update : (ℕ → ℕ → PageEntry) → ℕ → ℕ → PageEntry → ℕ → ℕ → PageEntry
update memory page i e page' i' = if page' == page && i' == i then e else memory page' i'

abbrev pub load : ℕ → ℕ → M Paging PageEntry
load page i s = done (s.memory page i) s

abbrev pub store : ℕ → ℕ → PageEntry → M Paging (Unit {0})
store page i e s = done tt (record s { memory = update s.memory page i e })

abbrev pub call : Call → M Paging (Unit {0})
call c s = done tt (record s { calls = c ∷ s.calls })

abbrev pub lift_physical : {A : Type 0} → Paging → Result Physical A → Result Paging A
lift_physical s (done a p) = done a (record s { physical = p })
lift_physical s fault = fault
lift_physical s spin = spin

-- An entry as the two functions that set one fill it in.
unfoldable pub filled : ℕ → Process → ℕ → PageEntry
filled present p page = record {
  present = present % 2;
  readwrite = readwrite_access;
  user = p.privilege % 2;
  writethrough = 0;
  cachedisabled = 0;
  accessed = 0;
  dirty = 0;
  attributeindex = 0;
  globalpage = 0;
  available = 0;
  address = table_shift_r page % 2 ^ 20;
}

unfoldable pub get_page_directory_entry : ℕ → ℕ → M Paging PageEntry
get_page_directory_entry pd address = load pd (get_directory_index address)

unfoldable pub set_page_directory_entry : Process → ℕ → ℕ → M Paging (Unit {0})
set_page_directory_entry p address pt =
    store p.page_dir (get_directory_index address) (filled 1 p pt)

-- The loop over the `n` indices from `i` on.
unfoldable pub for_each : (ℕ → M Paging (Unit {0})) → ℕ → ℕ → M Paging (Unit {0})
for_each body zero i = pure tt
for_each body (suc n) i = body i >> for_each body n (i + 1)

-- The two functions call each other, on fuel. The place of an entry is its page and its index.
unfoldable pub get_page_table_entry : ℕ → Process → ℕ → M Paging (ℕ × ℕ)
get_page_table_entry zero p address = λ _. spin
get_page_table_entry (suc fuel) p address = do
  e ← get_page_directory_entry p.page_dir address
  let pt = table_shift_l e.address
  if pt == 0
      then (do
        page ← λ s. lift_physical s (page_alloc s.physical)
        set_page_directory_entry p address page
        for_each
            (λ i. do
              place ← get_page_table_entry fuel p (page_align ((address + i * size_4kb) % 2 ^ 32))
              store place.0 place.1 (filled 0 p 0))
            page_entrys 0
        pure (page, get_table_index address))
      else pure (pt, get_table_index address)

unfoldable pub set_page_table_entry : ℕ → Process → ℕ → ℕ → ℕ → M Paging (Unit {0})
set_page_table_entry fuel p address physical present = do
  place ← get_page_table_entry fuel p (page_align address)
  store place.0 place.1 (filled present p (page_align physical))

-- An entry that memset has cleared
abbrev pub cleared : PageEntry
cleared = record {
  present = 0;
  readwrite = 0;
  user = 0;
  writethrough = 0;
  cachedisabled = 0;
  accessed = 0;
  dirty = 0;
  attributeindex = 0;
  globalpage = 0;
  available = 0;
  address = 0;
}

unfoldable pub clear_page : ℕ → M Paging (Unit {0})
clear_page page s =
    done tt (record s { memory = λ page' i. if page' == page then cleared else s.memory page' i })

-- One round of the loop that fills a directory.
unfoldable pub default_entry : ℕ → ℕ → PageEntry → ℕ → PageEntry
default_entry privilege pd e i =
    if i == page_entrys - 1
    then record e {
      user = privilege % 2;
      present = 1;
      readwrite = readwrite_access;
      address = table_shift_r pd % 2 ^ 20;
    }
    else record e { user = privilege % 2; present = 0; readwrite = readonly_access }

-- The result, and the address that is put into `page_dir`.
unfoldable pub create_directory : ℕ → M Paging (ℤ × ℕ)
create_directory privilege = do
  call lock_paging
  pd ← λ s. lift_physical s (page_alloc s.physical)
  if pd == 0 then (do call unlock_paging; pure (fail, pd)) else (do
    clear_page pd
    for_each (λ i. do e ← load pd i; store pd i (default_entry privilege pd e i)) page_entrys 0
    call unlock_paging
    pure (success, pd))

-- paging_destroyDirectory is empty.
abbrev pub destroy_directory : Process → M Paging (Unit {0})
destroy_directory p = pure tt

-- Comparison with SUCCESS.
abbrev pub is_success : ℤ → Bool
is_success (pos n) = n == 0
is_success (negsuc n) = false

unfoldable pub set_current_page_dir : ℕ → M Paging (Unit {0})
set_current_page_dir pd s = done tt (record s { cr3 = pd })

-- kernel_panic, process_printStack, process_kill and the scheduler's choice
pub record Processes (W : Type 0) : Type 0 where
  pub panic : ℕ → W → W
  pub print_stack : ℕ → W → W
  pub kill : ℕ → W → ℤ × W
  pub select : W → ℕ × W

-- KERNEL_PID
abbrev pub kernel_pid : ℕ
kernel_pid = 0

-- The handler of a page fault of the process at `process`, with its stack and its number: the process
-- to go on with. Its message is not modelled, and `process_id` is read as the number of the process.
unfoldable pub page_fault_handler : {W : Type 0} → Processes W → ℕ → ℕ → ℕ → W → ℕ × W
page_fault_handler os process kstack id w =
    let w' = if id == kernel_pid then os.panic kstack w else w in
    let killed = os.kill id (os.print_stack kstack w') in
    if is_success killed.0 then os.select killed.1 else (process, killed.1)
