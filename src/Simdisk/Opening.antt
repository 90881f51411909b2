-- ===== src/Simdisk/Opening.antt =====
-- The table of open files: my_open and my_close.
use system_related_projects.Base.{
  ℕ, zero, suc, ◌+◌, ◌<◌, ◌≡◌, refl, true, false, ◌||◌, Option, none, some, List, [], ◌∷◌, get_or,
  set, length, arith, inl, inr, ◌⊎◌, ltb, lt→ltb, set-set,
}
use system_related_projects.Base.Int.{ℤ, pos, negsuc}
use system_related_projects.Base.Result.{done, Returns, returns}
use system_related_projects.Vfs.{Str}
use system_related_projects.Vfs.Mounting.{eq_int}
use system_related_projects.Simdisk.{Sys, minus_one, is_zero}
use system_related_projects.Simdisk.Layout.{max_open_files, inode_num, int_at}
use system_related_projects.Simdisk.Finding.{Session, Junk, find}
use system_related_projects.Simdisk.Files.{free_slot, take_fd, my_open, my_close}

-- A place of the table that no file has.
abbrev pub IsFree : List ℤ → ℕ → Type 0
IsFree fd i = (get_or fd i (pos 1) ≡ minus_one) ⊎ (get_or fd i (pos 1) ≡ pos 0)

-- The lowest free place, or none.
abbrev pub LowestFree : List ℤ → Option ℕ → Type 0
LowestFree fd none = (j : ℕ) → j < length fd → ¬ IsFree fd j
LowestFree fd (some i) = (i < length fd) × IsFree fd i × ((j : ℕ) → j < i → ¬ IsFree fd j)

-- The test of one place.
open_test-cases :
    (x : ℤ)
    → (((eq_int x minus_one || is_zero x) ≡ true) × ((x ≡ minus_one) ⊎ (x ≡ pos 0)))
      ⊎ (((eq_int x minus_one || is_zero x) ≡ false) × (¬ ((x ≡ minus_one) ⊎ (x ≡ pos 0))))
open_test-cases (pos zero) = inl (refl, inr refl)
open_test-cases (pos (suc n)) = inr (ground arith, ground arith)
open_test-cases (negsuc zero) = inl (refl, inl refl)
open_test-cases (negsuc (suc n)) = inr (ground arith, ground arith)

free_slot-LowestFree :
    (fd : List ℤ) (o : ℕ)
    → ((free_slot fd o ≡ none) × LowestFree fd none)
      ⊎ ((i : ℕ) × (free_slot fd o ≡ some (o + i)) × LowestFree fd (some i))
unfolding free_slot
free_slot-LowestFree [] o = inl (refl, λ j low. absurd (omega arith))
free_slot-LowestFree (x ∷ xs) o = elim (open_test-cases x) [
  | inl (e, free) ↦
      let z : o + 0 ≡ o = omega arith in
      inr (0, rw (e, z) refl, (omega arith, free, λ j low. absurd (omega arith)))
  | inr (e, taken) ↦ elim (free_slot-LowestFree xs (o + 1)) [
    | inl (f, full) ↦ inl (rw (e, f) refl, all_taken x xs taken full)
    | inr (i, f, (low, free, before)) ↦
        let z : o + 1 + i ≡ o + suc i = omega arith in
        inr (suc i, rw (e, f, z) refl, (omega arith, free, taken_before x xs i taken before))
  ]
]
  where
    all_taken :
        (x : ℤ) (xs : List ℤ)
        → ¬ ((x ≡ minus_one) ⊎ (x ≡ pos 0))
        → LowestFree xs none
        → LowestFree (x ∷ xs) none
    all_taken x xs taken full zero h = taken
    all_taken x xs taken full (suc j) h = full j (omega arith)

    taken_before :
        (x : ℤ) (xs : List ℤ) (i : ℕ)
        → ¬ ((x ≡ minus_one) ⊎ (x ≡ pos 0))
        → ((j : ℕ) → j < i → ¬ IsFree xs j)
        → (j : ℕ) → j < suc i
        → ¬ IsFree (x ∷ xs) j
    taken_before x xs i taken before zero h = taken
    taken_before x xs i taken before (suc j) h = before j (omega arith)

-- What my_open leaves of the session `t` that find leaves, for an inode of the number `inum`.
abbrev pub Opened : {F : Type 0} → ℤ → Session F → ℤ → Session F → Type 0
Opened {F} inum t r u =
    ((r ≡ minus_one) × LowestFree t.fd none × (u ≡ t))
    ⊎ ((i : ℕ) × (r ≡ pos i)
        × LowestFree t.fd (some i)
        × (u ≡ record t { fd = set t.fd i inum })
        × (my_close r u ≡ done tt (record t { fd = set t.fd i minus_one })))

module _ {F : Type 0} where
  take_fd-Opened :
      (inum : ℤ) (t : Session F)
      → length t.fd ≡ max_open_files
      → Returns (Opened inum t) (take_fd inum t)
  unfolding take_fd my_close
  take_fd-Opened inum t sized = elim (free_slot-LowestFree t.fd 0) [
    | inl (e, full) ↦ rw (e, take_fd) (returns (inl (refl, full, refl)))
    | inr (i, e, low) ↦
        let z : 0 + i ≡ i = omega arith in
        let inside : ltb i 10 ≡ true = lt→ltb _ _ (omega (arith, low.0)) in
        rw (e, take_fd)
          (rw z (returns (inr (i, refl, low, refl, rw (inside, set-set t.fd i inum minus_one)))))
  ]

module _ {F : Type 0} (sys : Sys F) (junk : Junk) (path : Str) (s : Session F) where
  -- my_open of a path that find finds: where every place of the table of open files is taken it
  -- answers -1 and changes nothing. Else it answers the lowest place that is free, puts the number of
  -- the inode there and changes no other place; my_close of the answer puts -1 there.
  pub my_open-my_close :
      {t : Session F} {inode : List ℕ}
      → find sys junk path s ≡ done (some inode) t
      → length t.fd ≡ max_open_files
      → Returns (Opened (int_at inode inode_num) t) (my_open sys junk path s)
  unfolding my_open
  my_open-my_close {t} {inode} found sized =
      rw found (take_fd-Opened (int_at inode inode_num) t sized)
