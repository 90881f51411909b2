-- ===== src/Dma/Tests.antt =====
-- A transfer of 512 bytes on channel 2, as a floppy disk uses it.
use system_related_projects.Base.{ℕ, ◌/◌, ◌%◌, ◌≡◌, some, List, [], ◌∷◌, get_or, arith}
use system_related_projects.Dma.{Event, dma_modereg, dma_read, dma_write}
use system_related_projects.Dma.Registers.{received, dma_read-dma_write}

dma_read-dma_write_example :
    (es : List Event) × (fs : List Event) × (m : ℕ) × (n : ℕ) × (dma_read 2 0x12345 512 ≡ some es)
    × (dma_write 2 0x12345 512 ≡ some fs)
    × (received (get_or dma_modereg 2 0) es ≡ m ∷ [])
    × (received (get_or dma_modereg 2 0) fs ≡ n ∷ [])
    × (m / 4 % 4 ≡ 2)
    × (n / 4 % 4 ≡ 0)
dma_read-dma_write_example =
    dma_read-dma_write 2 0x12345 512 (omega arith) (omega arith) (omega arith) (omega arith)
