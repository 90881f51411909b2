-- ===== src/Mmu.antt =====
-- The two-level page tables of kernal/mem_management/mm/mmu.c.
--
-- Memory is a map from the address of a table entry to the entry, which is all that the program
-- keeps there. Addresses are 32-bit numbers. `memalign` lies outside the repository: the page that
-- it returns, 0 for NULL, is an argument, and the assertions of `allocate_page` about it are made.
-- A failed assertion ends the program and is the result `none`.
pub mod Space
pub mod Mapping
pub mod Growing
pub mod Program
mod Tests
use system_related_projects.Base.{
  ℕ, ◌+◌, ◌-◌, ◌*◌, ◌/◌, ◌%◌, ◌^◌, Bool, true, false, not, ◌&&◌, ◌||◌, Option, none, some, ◌==◌,
  leb, ltb, if◌then◌else◌,
}

-- page_entry, a word of bit fields; the unnamed fields are left out
pub record PageEntry : Type 0 where
  pub present : Bool
  pub rw : ℕ
  pub us : ℕ
  pub a : ℕ
  pub d : ℕ
  pub page_frame_address : ℕ

abbrev pub Memory : Type 0
Memory = ℕ → PageEntry

abbrev pub page_size : ℕ
page_size = 4096

abbrev pub sizeof_entry : ℕ
sizeof_entry = 4

-- virtual_address >> 22
abbrev pub page_directory_index : ℕ → ℕ
page_directory_index va = va / 2 ^ 22

-- (virtual_address >> page_shift()) & 0x3FF
abbrev pub page_table_index : ℕ → ℕ
page_table_index va = va / 2 ^ 12 % 2 ^ 10

-- &table[i]
abbrev pub entry_at : ℕ → ℕ → ℕ
entry_at table i = table + sizeof_entry * i

abbrev pub zero_entry : PageEntry
zero_entry = record { present = false; rw = 0; us = 0; a = 0; d = 0; page_frame_address = 0 }

abbrev pub in_page : ℕ → ℕ → Bool
in_page p x = leb p x && ltb x (p + page_size)

abbrev pub update : Memory → ℕ → PageEntry → Memory
update m x e y = if y == x then e else m y

-- `p` is what memalign returns: not NULL, aligned, and then cleared.
unfoldable pub allocate_page : ℕ → Memory → Option Memory
allocate_page p m =
    if p == 0
    then none
    else (if p % page_size == 0 then some (λ x. if in_page p x then zero_entry else m x) else none)

-- The field keeps twenty bits of addr >> page_shift().
unfoldable pub set_page_entry : PageEntry → ℕ → PageEntry
set_page_entry e addr = record e { page_frame_address = addr / 2 ^ 12 % 2 ^ 20; present = true }

unfoldable pub get_addr_from_entry : PageEntry → ℕ
get_addr_from_entry e = e.page_frame_address * 2 ^ 12 % 2 ^ 32

-- The second half, with the table at hand.
unfoldable pub set_table_entry : Memory → ℕ → ℕ → ℕ → Memory
set_table_entry m table va pa =
    let x = entry_at table (page_table_index va) in update m x (set_page_entry (m x) pa)

unfoldable pub insert_page_into_address_space : ℕ → ℕ → ℕ → ℕ → Memory → Option Memory
insert_page_into_address_space page dir va pa m =
    let x = entry_at dir (page_directory_index va) in
    if (m x).present
    then some (set_table_entry m (get_addr_from_entry (m x)) va pa)
    else elim (allocate_page page m) [
      | none ↦ none
      | some m' ↦ some (set_table_entry (update m' x (set_page_entry (m' x) page)) page va pa)
    ]

unfoldable pub get_page_from_address_space : ℕ → ℕ → Memory → Option ℕ
get_page_from_address_space dir va m =
    let x = entry_at dir (page_directory_index va) in
    if (m x).present
    then (let y = entry_at (get_addr_from_entry (m x)) (page_table_index va) in
        if (m y).present then some (get_addr_from_entry (m y)) else none)
    else none
