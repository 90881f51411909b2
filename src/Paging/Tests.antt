-- ===== src/Paging/Tests.antt =====
-- Runs and instances of the page directories.
use system_related_projects.Base.{
  ◌+◌, ◌≡◌, inr, refl, none, some, [], ◌∷◌, ◌==◌, ◌&&◌, if◌then◌else◌, test_bit, set_bit, arith,
}
use system_related_projects.Base.Int.{success}
use system_related_projects.Base.Result.{done, Returns}
use system_related_projects.Physical.{
  Physical, page_alloc, page_alloc_high, page_alloc_low, page_alloc_limit, is_page_free,
  page_alloc_address, lock_bitmap, unlock_bitmap,
}
use system_related_projects.Paging.{
  Process, Paging, lock_paging, unlock_paging, cleared, set_page_table_entry, create_directory,
}
use system_related_projects.Paging.Mapping.{translate, table_of, set_page_table_entry-translate}
use system_related_projects.Paging.Creating.{create_directory-translate}

-- Eight pages from the second on are free.
abbrev frames : Physical
frames = record { bitmap = 0x80 ∷ []; bitmap_size = 1; max_address = 0x8000; calls = [] }

abbrev frames_after : Physical
frames_after = record {
  bitmap = 0xc0 ∷ [];
  bitmap_size = 1;
  max_address = 0x8000;
  calls = unlock_bitmap ∷ lock_bitmap ∷ unlock_bitmap ∷ lock_bitmap ∷ [];
}

abbrev process : Process
process = record { page_dir = 0x1000; privilege = 1 }

-- The directory at 0x1000 leads to the table at 0x2000.
abbrev one_table : Paging
one_table = record {
  physical = frames;
  memory = λ page i.
      if page == 0x1000 && i == 0 then record cleared { present = 1; address = 2 } else cleared;
  calls = [];
  cr3 = 0;
}

grants : page_alloc frames ≡ done 0x1000 frames_after
unfolding page_alloc page_alloc_high page_alloc_low page_alloc_limit is_page_free page_alloc_address
    test_bit set_bit
grants = refl

set_page_table_entry-translate_example :
    Returns
      (λ _ t.
        (translate t.memory 0x1000 0x5000 ≡ some 0x9000)
        × (translate t.memory 0x1000 0x6000 ≡ translate one_table.memory 0x1000 0x6000)
        × (t.physical ≡ frames))
      (set_page_table_entry 1 process 0x5000 0x9000 1 one_table)
unfolding table_of
set_page_table_entry-translate_example =
    set_page_table_entry-translate process 0x5000 0x9000 0 one_table refl (omega arith) 0x6000 refl
      (omega arith) (omega arith) (omega arith) (omega arith) (inr (omega arith))

create_directory-translate_example :
    Returns
      (λ r u.
        (r ≡ (success, 0x1000))
        × (translate u.memory 0x1000 (0xffff_f000 + 8) ≡ some (0x1000 + 8))
        × (translate u.memory 0x1000 0x5000 ≡ none)
        × (u.physical ≡ frames_after)
        × (u.calls ≡ unlock_paging ∷ lock_paging ∷ []))
      (create_directory 1 one_table)
create_directory-translate_example =
    create_directory-translate 1 0x1000 one_table frames_after 8 0x5000 grants (omega arith) refl
      (omega arith) (omega arith) (omega arith)
