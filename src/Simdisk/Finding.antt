-- ===== src/Simdisk/Finding.antt =====
-- `find` of kernal/file_system/simdisk.c. malloc is taken to find memory; what it and the local
-- arrays hold at first is the record `Junk`. Messages are not modelled.
use system_related_projects.Base.{
  ℕ, zero, suc, ◌+◌, ◌-◌, Bool, true, false, not, ◌&&◌, ◌||◌, Option, none, some, List, [], ◌∷◌,
  ◌==◌, leb, if◌then◌else◌, get_elem?, get_or, set,
}
use system_related_projects.Base.Int.{ℤ, pos}
use system_related_projects.Base.Result.{done, fault, M, pure, ◌>>=◌, Part, within}
use system_related_projects.Vfs.{Str}
use system_related_projects.Vfs.Mounting.{eq_int, str_eq}
use system_related_projects.Vfs.Files.{ends_in_slash}
use system_related_projects.Simdisk.{Sys, Disk, read_block, read_inode, is_negative, is_zero}
use system_related_projects.Simdisk.Layout.{
  max_level, file_type, dir_type, entries_per_dir, block_of, entry_inode, entry_type, entry_length,
  entry_name,
}

-- The device, and the variables `fd` and `cwd_inode`.
pub record Session (F : Type 0) : Type 0 where
  pub disk : Disk F
  pub fd : List ℤ
  pub cwd_inode : ℤ

abbrev pub on_disk : {F : Type 0} → Part (Session F) (Disk F)
on_disk = record { get = λ s. s.disk; put = λ d s. record s { disk = d } }

-- What memory holds before it is written.
pub record Junk : Type 0 where
  pub inode : List ℕ
  pub dir : List ℕ
  pub args : List (List ℕ)
  pub bits : List ℕ

abbrev pub slash : ℕ
slash = 47

-- strcmp(a, b) == 0 on two arrays; a read behind one of them is a fault.
unfoldable pub same_text : {S : Type 0} → List ℕ → List ℕ → M S Bool
same_text [] bs s = fault
same_text (a ∷ as') [] s = fault
same_text (a ∷ as') (b ∷ bs) s =
    let rest = same_text as' bs s in
    if a == b then (if a == 0 then done true s else rest) else done false s

-- arg[j][k] = c
unfoldable pub put_char : {S : Type 0} → List (List ℕ) → ℕ → ℕ → ℕ → M S (List (List ℕ))
put_char arg j k c s = elim (get_elem? arg j) [
  | none ↦ fault
  | some row ↦ elim (get_elem? row k) [ none ↦ fault | some old ↦ done (set arg j (set row k c)) s ]
]

-- The path separated into the rows of `arg`: the last row that is begun, or none for "path error".
-- A row that no slash ends gets no closing 0.
unfoldable pub split_path :
    {S : Type 0} → Str → ℕ → ℕ → List (List ℕ) → M S (Option ℕ × List (List ℕ))
split_path [] j k arg = pure (some j, arg)
split_path (c ∷ cs) j k arg =
    let ends = c == slash in
    if j == max_level then pure (none, arg) else (do
      arg' ← put_char arg j k (if ends then 0 else c)
      split_path cs (if ends then j + 1 else j) (if ends then 0 else k + 1) arg')

-- The first `continue` of the loop over the entries, and the two that match the type.
unfoldable pub skips : Bool → List ℕ → ℕ → Bool
skips d direc k =
    is_zero (entry_inode direc k)
    || (d && eq_int (entry_type direc k) file_type)
    || (not d && eq_int (entry_type direc k) dir_type)

-- One round of the loop over the entries: none where the name is found, else where it goes on. An
-- entry of length 64 takes the place of two.
unfoldable pub examine : {S : Type 0} → Bool → List ℕ → List ℕ → ℕ → M S (Option ℕ)
examine d direc name k = if skips d direc k then pure (some (k + 1)) else (do
  same ← same_text (entry_name direc k) name
  pure (
      if same
      then none
      else some (if eq_int (entry_length direc k) (pos 64) then k + 2 else k + 1)))

-- The loop from entry `k` on, in at most `n` rounds.
unfoldable pub search_entries : {S : Type 0} → ℕ → ℕ → Bool → List ℕ → List ℕ → M S (Option ℕ)
search_entries zero k d direc name = pure none
search_entries (suc n) k d direc name = if leb entries_per_dir k then pure none else (do
  next ← examine d direc name k
  elim next [ none ↦ pure (some k) | some k' ↦ search_entries n k' d direc name ])

-- tmp->blocks[j] <= 0
abbrev pub not_positive : ℤ → Bool
not_positive i = is_negative i || is_zero i

module _ {F : Type 0} (sys : Sys F) where
  -- The loop over `n` blocks of the directory `tmp` from block `j` on: whether the name is found, and
  -- the two buffers.
  unfoldable pub search_blocks :
      ℕ → ℕ → Bool → List ℕ → List ℕ → List ℕ → M (Disk F) (Bool × List ℕ × List ℕ)
  search_blocks zero j d name tmp direc = pure (false, tmp, direc)
  search_blocks (suc n) j d name tmp direc =
      if not_positive (block_of tmp j) then search_blocks n (j + 1) d name tmp direc else (do
        (_, direc') ← read_block sys (block_of tmp j) direc
        at ← search_entries entries_per_dir 0 d direc' name
        elim at [
          | none ↦ search_blocks n (j + 1) d name tmp direc'
          | some k ↦ do
            (_, tmp') ← read_inode sys (entry_inode direc' k) tmp
            pure (true, tmp', direc')
        ])

  -- The loop over `n` names from arg[i] on.
  unfoldable pub walk :
      ℕ → ℕ → Bool → List (List ℕ) → List ℕ → List ℕ → M (Disk F) (Option (List ℕ))
  walk zero i d arg tmp direc = pure (some tmp)
  walk (suc n) i d arg tmp direc = do
    (found, tmp', direc') ← search_blocks 10 0 d (get_or arg i []) tmp direc
    if found then walk n (i + 1) d arg tmp' direc' else pure none

  -- The path without the slash that it begins with, and whether it has one.
  unfoldable pub absolute : Str → Bool × Str
  absolute [] = (false, [])
  absolute (c ∷ cs) = if c == slash then (true, cs) else (false, c ∷ cs)

  -- The inode, or none for NULL. The last character is read before the text where that is empty.
  unfoldable pub find : Junk → Str → M (Session F) (Option (List ℕ))
  find junk [] s = fault
  find junk (c ∷ cs) s =
      (if str_eq (c ∷ cs) (slash ∷ [])
          then (do (_, root) ← within on_disk (read_inode sys (pos 1) junk.inode); pure (some root))
          else (do
            let (absu, rest) = absolute (c ∷ cs)
            let d = ends_in_slash (c ∷ cs)
            (levels, arg) ← split_path rest 0 0 junk.args
            elim levels [
              | none ↦ pure none
              | some j ↦ do
                let count = if d then j - 1 else j
                (_, tmp) ←
                    within on_disk (read_inode sys (if absu then pos 1 else s.cwd_inode) junk.inode)
                within on_disk (walk (count + 1) 0 d arg tmp junk.dir)
            ]))
        s
