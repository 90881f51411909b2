-- ===== src/Simdisk/Tests.antt =====
-- Runs and instances of the simulated disk, on a file that keeps one block.
use system_related_projects.Base.{
  leb, ltb, false, true, ◌^◌, ℕ, ◌+◌, ◌*◌, ◌≤◌, ◌<◌, ◌≡◌, refl, List, ◌∷◌, replicate, arith,
}
use system_related_projects.Base.Int.{pos}
use system_related_projects.Base.Result.{done}
use system_related_projects.Simdisk.{
  Sys, Disk, block_map_start, block_table_start, read_block, write_block, write_at, read_at,
  get_block,
}
use system_related_projects.Simdisk.Bitmaps.{IsBlock, marked, get_block-get_block}

abbrev one_block : Sys (List ℕ)
one_block = record {
  open_fd = λ path w. (pos 3, w);
  fstat = λ f w. (pos 0, 104857600, w);
  lseek = λ f offset w. (offset, w);
  read = λ f buffer count w. (pos count, w, w);
  write = λ f buffer count w. (pos count, buffer);
  fsync = λ f w. (pos 0, w);
}

-- The first bit is set, as my_mkfs leaves it in the block map.
abbrev bits : List ℕ
bits = 0x80 ∷ replicate 1023 0

abbrev junk : List ℕ
junk = replicate 1024 255

abbrev disk : List ℕ → Disk (List ℕ)
disk block = record { f = pos 3; devsize = pos 102400; files = block }

bits-IsBlock : IsBlock bits
bits-IsBlock = record { sized = refl; byte = omega arith }

reads :
    (block : List ℕ) (i : ℕ)
    → i < 100
    → read_block one_block (pos i) junk (disk block) ≡ done (pos 0, block) (disk block)
unfolding read_block read_at
reads block i h =
    let small : leb 102400 i ≡ false = ground arith in
    let fits : ltb (0 + i * 1024) (2 ^ 31) ≡ true = ground arith in rw small (rw fits)

writes :
    (block new : List ℕ) (i : ℕ)
    → i < 100
    → write_block one_block (pos i) new (disk block) ≡ done (pos 0) (disk new)
unfolding write_block write_at
writes block new i h =
    let small : leb 102400 i ≡ false = ground arith in
    let fits : ltb (0 + i * 1024) (2 ^ 31) ≡ true = ground arith in rw small (rw fits)

get_block-get_block_example :
    (n : ℕ) × (n ≤ block_table_start + 8)
    × (get_block one_block junk (disk bits) ≡ done (pos n) (disk (marked block_table_start bits)))
    × (get_block one_block junk (disk (marked block_table_start bits))
        ≡ done (pos n) (disk (marked block_table_start (marked block_table_start bits))))
get_block-get_block_example =
    get_block-get_block one_block junk (disk bits) bits bits-IsBlock
      (reads bits block_map_start (omega arith))
      (writes bits (marked block_table_start bits) block_map_start (omega arith))
      (reads (marked block_table_start bits) block_map_start (omega arith))
      (writes (marked block_table_start bits)
        (marked block_table_start (marked block_table_start bits)) block_map_start (omega arith))
