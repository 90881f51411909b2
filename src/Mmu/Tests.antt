-- ===== src/Mmu/Tests.antt =====
-- The mapping of the program's own `main`, in an empty directory.
use system_related_projects.Base.{
  ℕ, ◌*◌, ◌/◌, ◌^◌, ◌<◌, ◌≡◌, refl, ◌==◌, some, arith, if◌then◌else◌,
}
use system_related_projects.Base.Int.{pos}
use system_related_projects.Mmu.{
  Memory, zero_entry, insert_page_into_address_space, get_page_from_address_space,
}
use system_related_projects.Mmu.Space.{IsSpace, IsFresh}
use system_related_projects.Mmu.Growing.{insert_page-maps}
use system_related_projects.Mmu.Program.{Platform, main, main_ends}

abbrev empty : Memory
empty x = zero_entry

empty-IsSpace : IsSpace 0x1000 empty
empty-IsSpace = record {
  aligned = (refl, omega arith);
  tables = λ i h t. absurd (ground arith);
  off_directory = λ i h t. absurd (ground arith);
  apart = λ i j h k ne t u. absurd (ground arith);
}

empty-IsFresh : IsFresh 0x1000 empty 0x2000
empty-IsFresh = record {
  page = (refl, omega arith);
  ne_null = omega arith;
  ne_dir = omega arith;
  unused = λ i h t. absurd (ground arith);
}

insert_page-maps_example :
    (m' : Memory) × (insert_page_into_address_space 0x2000 0x1000 0xf000 0x5000 empty ≡ some m')
    × IsSpace 0x1000 m'
    × ((va' : ℕ)
        → va' < 2 ^ 32
        → get_page_from_address_space 0x1000 va' m' ≡ (
            if va' / 4096 == 0xf000 / 4096
            then some (0x5000 / 4096 * 4096)
            else get_page_from_address_space 0x1000 va' empty))
insert_page-maps_example =
    insert_page-maps empty-IsSpace 0x2000 0xf000 0x5000 (omega arith) (omega arith) empty-IsFresh

-- Pointers of four bytes, and a file that opens, gives a page and closes.
abbrev platform : Platform
platform = record { entry_size = 4; pointer_size = 4; fd = pos 3; count = pos 4096; closed = pos 0 }

main_ends_example :
    (m' : Memory) × (main platform 0x1000 0x3000 0x2000 empty empty ≡ some (pos 0, m'))
main_ends_example =
    main_ends 0x1000 0x3000 0x2000 empty empty (refl, omega arith) (refl, omega arith)
      (refl, omega arith) (omega arith) (omega arith) (omega arith) (omega arith) (omega arith)
      platform refl (λ opens. refl)
