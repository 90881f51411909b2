-- ===== src/Simdisk/RootInode.antt =====
-- The structures that my_mkfs lays out: their sizes, and the fields that the other functions go by.
use system_related_projects.Base.{
  ℕ, zero, suc, ◌+◌, ◌≤◌, ◌≡◌, refl, ◌∙◌, List, length, arith, replicate, length-replicate, inl,
  ◌⊎◌,
}
use system_related_projects.Base.Int.{ℤ, pos}
use system_related_projects.Simdisk.{minus_one, blocksize, block_table_start, max_file_num}
use system_related_projects.Simdisk.Layout.{
  dir_type, inode_type, inode_num, sizeof_inode, put_int, int_at, block_of,
}
use system_related_projects.Simdisk.Making.{
  magic, super_block, fill_ints, root_inode, put_entry, root_block,
}
use system_related_projects.Simdisk.Words.{
  length-overwrite, int_at-put_int, int_at-overwrite, int_at-fill_ints,
}

length-put_int : (b : List ℕ) (at : ℕ) (i : ℤ) → length (put_int b at i) ≡ length b
unfolding put_int
length-put_int b at i = length-overwrite b at _

length-fill_ints : (n at : ℕ) (i : ℤ) (b : List ℕ) → length (fill_ints n at i b) ≡ length b
unfolding fill_ints
length-fill_ints zero at i b = refl
length-fill_ints (suc n) at i b =
    length-fill_ints n (at + 4) i (put_int b at i) ∙ length-put_int b at i

pub length-super_block : (k : ℤ) → length (super_block k) ≡ blocksize
unfolding super_block
length-super_block k = simp (length-put_int, length-replicate)

pub length-root_inode : (r : List ℕ) → length (root_inode r) ≡ length r
unfolding root_inode
length-root_inode r = simp (length-fill_ints, length-put_int, length-overwrite)

pub length-root_block : (b : List ℕ) → length (root_block b) ≡ length b
unfolding root_block put_entry
length-root_block b = simp (length-put_int, length-overwrite)

int_at-put_apart :
    (b : List ℕ) (at : ℕ) (i : ℤ) (q : ℕ)
    → (q + 4 ≤ at) ⊎ (at + 4 ≤ q)
    → int_at (put_int b at i) q ≡ int_at b q
unfolding put_int
int_at-put_apart b at i q apart = int_at-overwrite b at _ q apart

-- The int at the start of a buffer behind four more.
int_at-five :
    (b : List ℕ) (i0 i1 i2 i3 i4 : ℤ)
    → int_at (put_int (put_int (put_int (put_int (put_int b 0 i0) 4 i1) 8 i2) 12 i3) 16 i4) 0
      ≡ int_at (put_int b 0 i0) 0
int_at-five b i0 i1 i2 i3 i4 =
    int_at-put_apart _ 16 i4 0 (inl (omega arith))
    ∙ int_at-put_apart _ 12 i3 0 (inl (omega arith))
    ∙ int_at-put_apart _ 8 i2 0 (inl (omega arith))
    ∙ int_at-put_apart _ 4 i1 0 (inl (omega arith))

-- The second of them.
int_at-four :
    (b : List ℕ) (i1 i2 i3 i4 : ℤ)
    → int_at (put_int (put_int (put_int (put_int b 4 i1) 8 i2) 12 i3) 16 i4) 4
      ≡ int_at (put_int b 4 i1) 4
int_at-four b i1 i2 i3 i4 =
    int_at-put_apart _ 16 i4 4 (inl (omega arith))
    ∙ int_at-put_apart _ 12 i3 4 (inl (omega arith))
    ∙ int_at-put_apart _ 8 i2 4 (inl (omega arith))

-- The fields in front of `mode` are those that are written first.
int_at-root_inode :
    (r : List ℕ) (q : ℕ)
    → q + 4 ≤ 20
    → int_at (root_inode r) q
      ≡ int_at
          (put_int
            (put_int (put_int (put_int (put_int r 0 dir_type) 4 (pos 1)) 8 (pos 1)) 12 (pos 0))
            16
            (pos 0))
          q
unfolding root_inode
int_at-root_inode r q below =
    int_at-fill_ints 30 124 minus_one _ q (omega arith)
    ∙ int_at-fill_ints 9 88 minus_one _ q (omega arith)
    ∙ int_at-put_apart _ 84 (pos 2516) q (inl (omega arith))
    ∙ int_at-overwrite _ 31 _ q (inl (omega arith))
    ∙ int_at-overwrite _ 20 _ q (inl (omega arith))

block_of-root_inode :
    (r : List ℕ) → length r ≡ sizeof_inode → block_of (root_inode r) 0 ≡ pos block_table_start
unfolding root_inode
block_of-root_inode r sized =
    int_at-fill_ints 30 124 minus_one _ 84 (omega arith)
    ∙ int_at-fill_ints 9 88 minus_one _ 84 (omega arith)
    ∙ int_at-put_int _ 84 (pos 2516) (simp (length-overwrite, length-put_int, sized) (omega arith))

-- The three fields of the root's inode that find and my_open go by.
pub root_inode_fields :
    (r : List ℕ)
    → length r ≡ sizeof_inode
    → (int_at (root_inode r) inode_type ≡ dir_type)
      × (int_at (root_inode r) inode_num ≡ pos 1)
      × (block_of (root_inode r) 0 ≡ pos block_table_start)
root_inode_fields r sized =
    let l = length-put_int r 0 dir_type in
    (
      int_at-root_inode r 0 (omega arith)
          ∙ int_at-five r dir_type (pos 1) (pos 1) (pos 0) (pos 0)
          ∙ int_at-put_int r 0 dir_type (omega arith),
      int_at-root_inode r 4 (omega arith)
          ∙ int_at-four _ (pos 1) (pos 1) (pos 0) (pos 0)
          ∙ int_at-put_int (put_int r 0 dir_type) 4 (pos 1) (omega arith),
      block_of-root_inode r sized,
    )

pub super_block_magic : (k : ℤ) → int_at (super_block k) 0 ≡ pos magic
unfolding super_block
super_block_magic k =
    let l = length-replicate {A = ℕ} blocksize 0 in
    int_at-five (replicate blocksize 0) (pos magic) k (pos max_file_num) (pos 99883) (pos 2499)
    ∙ int_at-put_int (replicate blocksize 0) 0 (pos magic) (omega arith)
