-- ===== src/Fat/Reading.antt =====
-- Clusters that are read from a device which keeps its bytes: fat_rwCluster of fat.c.
use system_related_projects.Base.{
  ℕ, suc, ◌+◌, ◌*◌, ◌≤◌, ◌≡◌, ◌⊎◌, inl, inr, refl, ap, sym, ◌∙◌, false, Option, some, List, ◌++◌,
  length, take, drop, length-take, length-drop, length-append, arith,
}
use system_related_projects.Base.Int.{ℤ, pos, success, is_fail}
use system_related_projects.Base.Result.{Result, and_then, M, Returns, returns, Returns-mono}
use system_related_projects.Fat.{FatMount, Volume, Fat, on_mount, splice, lift, fat_read, on_device}
use system_related_projects.Fat.Table.{
  seek_start, cluster2block, block_offset, rw_sectors, rw_block, rw_cluster,
}
use system_related_projects.Fat.Splice.{
  overlay_lem, splice_whole, splice-splice, length-splice, take-drop_add, drop-drop,
}

-- A device that keeps its bytes and a place: a seek to any place succeeds, and a read within the
-- bytes gives those from the place on, and moves the place behind them.
pub record Keeps {D H : Type 0} (vol : Volume D H) (content : D → List ℕ) (place : D → ℕ)
    : Type 0 where
  pub seeks :
      (h : Option H) (offset : ℕ) (d : D)
      → Returns
          (λ r d'. (r ≡ success) × (content d' ≡ content d) × (place d' ≡ offset))
          (vol.seek_fn h offset seek_start d)
  pub reads :
      (h : Option H) (n : ℕ) (d : D)
      → place d + n ≤ length (content d)
      → Returns
          (λ r d'.
            (is_fail r.0 ≡ false)
            × (r.1 ≡ take n (drop (place d) (content d)))
            × (content d' ≡ content d)
            × (place d' ≡ place d + n))
          (vol.read_fn h n d)

pub Returns-lift :
    {D H A : Type 0} (m : FatMount H) (d : D) {P : A → D → Type 0} {Q : A → Fat D H → Type 0}
    {r : Result D A}
    → Returns P r
    → ((a : A) (d' : D) → P a d' → Q a (on_mount m d'))
    → Returns Q (lift (on_mount m d) r)
Returns-lift m d (returns p) weaken = returns (weaken _ _ p)

pub length-part : (p n : ℕ) (xs : List ℕ) → p + n ≤ length xs → length (take n (drop p xs)) ≡ n
length-part p n xs h = let a = length-take n (drop p xs) in let b = length-drop p xs in ground arith

-- Two sectors, read one behind the other.
two_parts_lem :
    (bps p : ℕ) (buffer xs : List ℕ)
    → p + bps * 2 ≤ length xs
    → length buffer ≡ bps * 2
    → splice
        (splice buffer (0 + bps * 0) (take bps (drop p xs)))
        (0 + bps * 0 + bps * 1)
        (take bps (drop (p + bps) xs))
      ≡ take (bps * 2) (drop p xs)
two_parts_lem bps p buffer xs within sized =
    let first = take bps (drop p xs) in
    let second = take bps (drop (p + bps) xs) in
    let one : length first ≡ bps = length-part p bps xs (omega arith) in
    let two : length second ≡ bps = length-part (p + bps) bps xs (omega arith) in
    let start : 0 + bps * 0 ≡ 0 = omega arith in
    let next : 0 + bps * 0 + bps * 1 ≡ 0 + length first = omega arith in
    let both : length (first ++ second) ≡ length buffer =
      let l = length-append first second in omega arith in
    let double : bps + bps ≡ bps * 2 = omega arith in
    ap (λ k. splice (splice buffer k first) (0 + bps * 0 + bps * 1) second) start
    ∙ ap (λ k. splice (splice buffer 0 first) k second) next
    ∙ splice-splice buffer 0 first second (omega arith)
    ∙ splice_whole buffer (first ++ second) both
    ∙ ap (λ l. first ++ take bps l) (sym (drop-drop p bps xs))
    ∙ take-drop_add bps bps (drop p xs)
    ∙ ap (λ k. take k (drop p xs)) double

module _ {D H : Type 0} (vol : Volume D H) (content : D → List ℕ) (place : D → ℕ)
    (dev : Keeps vol content place) (m : FatMount H) where
  -- What a run leaves on the device, whose bytes are those of `d`.
  pub data Left (P : D → Type 0) (d : D) : Fat D H → Type 0 where
    left : (d' : D) → content d' ≡ content d → P d' → Left P d (on_mount m d')

  pub bind-left :
      {A B : Type 0} {R : A → Type 0} {P : D → Type 0} {Q : B → Fat D H → Type 0} {d : D}
      {r : Result (Fat D H) A} (k : A → M (Fat D H) B)
      → Returns (λ a t. R a × Left P d t) r
      → ((a : A) → R a → (d' : D) → content d' ≡ content d → P d' → Returns Q (k a (on_mount m d')))
      → Returns Q (and_then r k)
  bind-left k (returns (ra, left d' same p)) next = next _ ra d' same p

  pub seek_lem :
      (offset : ℕ) (d : D)
      → Returns
          (λ r t. (r ≡ success) × Left (λ d'. place d' ≡ offset) d t)
          (on_device (λ h. vol.seek_fn h offset seek_start) (on_mount m d))
  seek_lem offset d =
      Returns-lift m d (dev.seeks m.device offset d) (λ r d' h. (h.0, left d' h.1 h.2))

  pub read_lem :
      (n : ℕ) (d : D)
      → place d + n ≤ length (content d)
      → Returns
          (λ r t.
            ((is_fail r.0 ≡ false) × (r.1 ≡ take n (drop (place d) (content d))))
            × Left (λ d'. place d' ≡ place d + n) d t)
          (on_device (λ h. vol.read_fn h n) (on_mount m d))
  read_lem n d within =
      Returns-lift m d (dev.reads m.device n d within) (λ r d' h. ((h.0, h.1), left d' h.2 h.3))

  -- A sector is read into the buffer, and the loop goes on.
  pub sector_lem :
      {P : ℤ × List ℕ → Fat D H → Type 0} (bps n i at : ℕ) (buffer : List ℕ) (d : D)
      → place d + bps ≤ length (content d)
      → at + bps * i + bps ≤ length buffer
      → ((d' : D)
          → content d' ≡ content d
          → place d' ≡ place d + bps
          → Returns P (
              rw_sectors vol fat_read bps n
                (i + 1)
                (at + bps * i)
                (splice buffer (at + bps * i) (take bps (drop (place d) (content d))))
                (on_mount m d')))
      → Returns P (rw_sectors vol fat_read bps (suc n) i at buffer (on_mount m d))
  unfolding rw_sectors
  sector_lem {P = P} bps n i at buffer d within room next =
      let spot = at + bps * i in
      let bytes = take bps (drop (place d) (content d)) in
      let sized : length bytes ≡ bps =
        let a = length-take bps (drop (place d) (content d)) in
        let b = length-drop (place d) (content d) in ground arith in
      bind-left _ (read_lem bps d within) (λ r h d' same moved. rw h.1 (
        rw (overlay_lem buffer spot bytes (on_mount m d') (omega arith))
          (rw h.0 (next d' same moved))))

  -- What the device has from a place on.
  unfoldable pub bytes_at : ℕ → ℕ → D → List ℕ
  bytes_at at n d = take n (drop at (content d))

  length-bytes_at : (at n : ℕ) (d : D) → at + n ≤ length (content d) → length (bytes_at at n d) ≡ n
  unfolding bytes_at
  length-bytes_at at n d h =
      let a = length-take n (drop at (content d)) in
      let b = length-drop at (content d) in ground arith

  one_sector_lem :
      (bps : ℕ) (buffer : List ℕ) (d : D)
      → place d + bps ≤ length (content d)
      → length buffer ≡ bps
      → Returns
          (λ r t. (r ≡ (success, bytes_at (place d) bps d)) × Left (λ _. Unit {0}) d t)
          (rw_sectors vol fat_read bps 1 0 0 buffer (on_mount m d))
  unfolding bytes_at rw_sectors
  one_sector_lem bps buffer d within sized =
      let start : 0 + bps * 0 ≡ 0 = omega arith in
      sector_lem bps 0 0 0 buffer d within (omega arith) (λ d' same moved. returns (
        rw start (
            ap (λ b. (success, b))
              (splice_whole buffer _ (length-bytes_at (place d) bps d within ∙ sym sized))),
        left d' same tt,
      ))

  two_sectors_lem :
      (bps : ℕ) (buffer : List ℕ) (d : D)
      → place d + bps * 2 ≤ length (content d)
      → length buffer ≡ bps * 2
      → Returns
          (λ r t. (r ≡ (success, bytes_at (place d) (bps * 2) d)) × Left (λ _. Unit {0}) d t)
          (rw_sectors vol fat_read bps 2 0 0 buffer (on_mount m d))
  unfolding bytes_at rw_sectors
  two_sectors_lem bps buffer d within sized =
      let start : 0 + bps * 0 ≡ 0 = omega arith in
      let one = length-part (place d) bps (content d) (omega arith) in
      sector_lem bps 1 0 0 buffer d (omega arith) (omega arith) (λ d' same moved.
        let kept : length (splice buffer (0 + bps * 0) (take bps (drop (place d) (content d))))
            ≡ length buffer =
          length-splice buffer _ _ (omega arith) in
        let size : length (content d') ≡ length (content d) = ap length same in
        sector_lem bps 0 1 (0 + bps * 0) _ d' (omega arith) (omega arith) (λ e same' moved'.
          returns (
            rw moved (
                rw same (
                  ap (λ b. (success, b))
                    (two_parts_lem bps (place d) buffer (content d) within sized))),
            left e (same' ∙ same) tt,
          )))

  sectors_lem :
      (bps sectors : ℕ) (buffer : List ℕ) (d : D)
      → (sectors ≡ 1) ⊎ (sectors ≡ 2)
      → length buffer ≡ bps * sectors
      → place d + length buffer ≤ length (content d)
      → Returns
          (λ r t. (r ≡ (success, bytes_at (place d) (length buffer) d)) × Left (λ _. Unit {0}) d t)
          (rw_sectors vol fat_read bps sectors 0 0 buffer (on_mount m d))
  sectors_lem bps sectors buffer d (inl one) sized within =
      let single : length buffer ≡ bps =
        let e : bps * 1 ≡ bps = omega arith in sized ∙ ap (λ k. bps * k) one ∙ e in
      rw one (rw single (one_sector_lem bps buffer d (omega arith) single))
  sectors_lem bps sectors buffer d (inr two) sized within =
      let double : length buffer ≡ bps * 2 = sized ∙ ap (λ k. bps * k) two in
      rw two (rw double (two_sectors_lem bps buffer d (omega arith) double))

  pub relocate :
      {P : D → Type 0} {d d' : D} {t : Fat D H} → content d' ≡ content d → Left P d' t → Left P d t
  relocate same (left e same' p) = left e (same' ∙ same) p

  -- fat_rwCluster reads the cluster whole: SUCCESS, with the bytes that the device has at the block
  -- of the cluster in the buffer, and the device's bytes are unchanged. The conditions are that the
  -- block can be computed, that a cluster has one or two sectors, that the buffer has its size, and
  -- that the device is long enough.
  pub rw_cluster-bytes_at :
      (c block : ℕ) (buffer : List ℕ) (d : D)
      → cluster2block m.bootsector (pos c) ≡ some block
      → (m.bootsector.sectors_per_cluster ≡ 1) ⊎ (m.bootsector.sectors_per_cluster ≡ 2)
      → length buffer ≡ m.bootsector.bytes_per_sector * m.bootsector.sectors_per_cluster
      → block_offset m.bootsector block + length buffer ≤ length (content d)
      → Returns
          (λ r t.
            (r ≡ (success, bytes_at (block_offset m.bootsector block) (length buffer) d))
            × Left (λ _. Unit {0}) d t)
          (rw_cluster vol (pos c) buffer fat_read (on_mount m d))
  unfolding rw_cluster rw_block bytes_at
  rw_cluster-bytes_at c block buffer d found few sized within = rw found (
      bind-left _ (seek_lem (block_offset m.bootsector block) d) (λ r ok d' same at.
        let size : length (content d') ≡ length (content d) = ap length same in
        rw ok (
          Returns-mono (sectors_lem _ _ buffer d' few sized (omega arith)) (λ a t h. (
            h.0
                ∙ ap (λ l. (success, take (length buffer) l))
                    (let e : drop (place d') (content d')
                          ≡ drop (block_offset m.bootsector block) (content d) =
                        rw at (rw same refl) in
                      e),
            relocate same h.1,
          )))))
