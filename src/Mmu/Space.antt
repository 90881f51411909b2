-- ===== src/Mmu/Space.antt =====
-- When the memory holds an address space: a directory and its tables, each a page of its own.
use system_related_projects.Base.{ℕ, ◌+◌, ◌%◌, ◌^◌, ◌≤◌, ◌<◌, ◌≡◌, ◌≢◌, true}
use system_related_projects.Mmu.{Memory, page_size, entry_at, get_addr_from_entry}

-- The table of the directory's entry `i`.
abbrev pub table_of : ℕ → Memory → ℕ → ℕ
table_of dir m i = get_addr_from_entry (m (entry_at dir i))

abbrev pub HasTable : ℕ → Memory → ℕ → Type 0
HasTable dir m i = (m (entry_at dir i)).present ≡ true

abbrev pub IsPage : ℕ → Type 0
IsPage p = (p % page_size ≡ 0) × (p + page_size ≤ 2 ^ 32)

-- Tables are aligned pages, and differ from one another and from the directory.
pub record IsSpace (dir : ℕ) (m : Memory) : Type 0 where
  pub aligned : IsPage dir
  pub tables : (i : ℕ) → i < 1024 → HasTable dir m i → IsPage (table_of dir m i)
  pub off_directory : (i : ℕ) → i < 1024 → HasTable dir m i → table_of dir m i ≢ dir
  pub apart :
      (i j : ℕ)
      → i < 1024
      → j < 1024
      → i ≢ j
      → HasTable dir m i
      → HasTable dir m j
      → table_of dir m i ≢ table_of dir m j

-- A page that the space does not use yet.
pub record IsFresh (dir : ℕ) (m : Memory) (p : ℕ) : Type 0 where
  pub page : IsPage p
  pub ne_null : p ≢ 0
  pub ne_dir : p ≢ dir
  pub unused : (i : ℕ) → i < 1024 → HasTable dir m i → table_of dir m i ≢ p
