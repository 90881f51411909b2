-- ===== src/Fat/Sectors.antt =====
-- Clusters of three and more sectors: fat_rwCluster of fat.c moves its pointer by the number of the
-- sectors that it has passed.
use system_related_projects.Base.{
  ℕ, zero, suc, ◌+◌, ◌*◌, ◌≤◌, ◌<◌, ◌≡◌, refl, ap, ◌∙◌, inl, inr, some, List, length, take, drop,
  leb, Bool-cases, leb→le, arith,
}
use system_related_projects.Base.Int.{pos}
use system_related_projects.Base.Result.{Result, fault, and_then, M, Returns, returns}
use system_related_projects.Fat.{FatMount, Volume, Fat, on_mount, overlay, splice, fat_read}
use system_related_projects.Fat.Table.{
  cluster2block, block_offset, rw_sectors, rw_block, rw_cluster,
}
use system_related_projects.Fat.Splice.{overlay_lem, length-splice}
use system_related_projects.Fat.Reading.{Keeps, Left, left, seek_lem, read_lem, length-part}

overlay_fault_lem :
    {S : Type 0} (buffer : List ℕ) (at : ℕ) (bytes : List ℕ) (s : S)
    → length buffer < at + length bytes
    → overlay buffer at bytes s ≡ fault
unfolding overlay
overlay_fault_lem buffer at bytes s h = ground arith

module _ {D H : Type 0} (vol : Volume D H) (content : D → List ℕ) (place : D → ℕ)
    (dev : Keeps vol content place) (m : FatMount H) where
  bind_fault_lem :
      {A B : Type 0} {R : A → Type 0} {P : D → Type 0} {d : D} {r : Result (Fat D H) A}
      (k : A → M (Fat D H) B)
      → Returns (λ a t. R a × Left vol content place dev m P d t) r
      → ((a : A) → R a → (d' : D) → content d' ≡ content d → P d' → k a (on_mount m d') ≡ fault)
      → and_then r k ≡ fault
  bind_fault_lem k (returns (ra, left d' same p)) next = next _ ra d' same p

  -- A round faults when its sector does not fit or when the rest does.
  round_fault_lem :
      (bps n i at : ℕ) (buffer : List ℕ) (d : D)
      → place d + bps ≤ length (content d)
      → ((d' : D)
          → content d' ≡ content d
          → place d' ≡ place d + bps
          → at + bps * i + bps ≤ length buffer
          → rw_sectors vol fat_read bps n
              (i + 1)
              (at + bps * i)
              (splice buffer (at + bps * i) (take bps (drop (place d) (content d))))
              (on_mount m d')
            ≡ fault)
      → rw_sectors vol fat_read bps (suc n) i at buffer (on_mount m d) ≡ fault
  unfolding rw_sectors
  round_fault_lem bps n i at buffer d within next =
      let bytes = take bps (drop (place d) (content d)) in
      let full : length bytes ≡ bps = length-part (place d) bps (content d) within in
      bind_fault_lem _ (read_lem vol content place dev m bps d within) (λ r h d' same moved.
        rw h.1 (elim (Bool-cases (leb (at + bps * i + bps) (length buffer))) [
          | inr out ↦
              rw (overlay_fault_lem buffer (at + bps * i) bytes (on_mount m d') (ground arith)) refl
          | inl fits ↦
              let room : at + bps * i + bps ≤ length buffer = leb→le _ _ fits in
              rw (overlay_lem buffer (at + bps * i) bytes (on_mount m d') (omega arith))
                (rw h.0 (next d' same moved room))
        ]))

  sectors_fault_lem :
      (bps n i at : ℕ) (buffer : List ℕ) (d : D)
      → 1 ≤ bps
      → 3 ≤ i + suc n
      → length buffer ≡ bps * (i + suc n)
      → bps * i ≤ at + bps
      → place d + bps * suc n ≤ length (content d)
      → rw_sectors vol fat_read bps (suc n) i at buffer (on_mount m d) ≡ fault
  sectors_fault_lem bps zero (suc (suc i)) at buffer d one many sized far within =
      let end : bps * (suc (suc i) + 1) ≡ bps * i + 3 * bps = omega arith in
      let past : bps * suc (suc i) ≡ bps * i + 2 * bps = omega arith in
      round_fault_lem bps 0 (suc (suc i)) at buffer d (omega arith)
        (λ d' same moved room. absurd (omega arith))
  sectors_fault_lem bps zero (suc zero) at buffer d one many sized far within = absurd (omega arith)
  sectors_fault_lem bps zero zero at buffer d one many sized far within = absurd (omega arith)
  sectors_fault_lem bps (suc n) i at buffer d one many sized far within =
      let more : bps * suc (suc n) ≡ bps + bps * suc n = omega arith in
      let total : bps * (i + suc (suc n)) ≡ bps * (i + 1 + suc n) = omega arith in
      let next : bps * (i + 1) ≡ bps * i + bps = omega arith in
      let full = length-part (place d) bps (content d) (omega arith) in
      round_fault_lem bps (suc n) i at buffer d (omega arith) (λ d' same moved room.
        let kept =
          length-splice buffer (at + bps * i) (take bps (drop (place d) (content d)))
            (omega arith) in
        let size : length (content d') ≡ length (content d) = ap length same in
        sectors_fault_lem bps n (i + 1) (at + bps * i) _ d' one (omega arith) (omega arith)
          (omega arith) (omega arith))

  many_sectors_lem :
      (bps n sectors : ℕ) (buffer : List ℕ) (d : D)
      → 1 ≤ bps
      → sectors ≡ 3 + n
      → length buffer ≡ bps * sectors
      → place d + length buffer ≤ length (content d)
      → rw_sectors vol fat_read bps sectors 0 0 buffer (on_mount m d) ≡ fault
  many_sectors_lem bps n sectors buffer d one many sized within =
      let count : sectors ≡ suc (2 + n) = omega arith in
      let size : length buffer ≡ bps * suc (2 + n) = sized ∙ ap (λ k. bps * k) count in
      let same : bps * suc (2 + n) ≡ bps * (0 + suc (2 + n)) = omega arith in
      rw count (
        sectors_fault_lem bps (2 + n) 0 0 buffer d one (omega arith) (size ∙ same) (omega arith)
          (omega arith))

  -- Reading a cluster of three or more sectors into a buffer of its size is a fault: the pointer
  -- moves by the number of the sector in each round, and the last sector is read behind the buffer.
  -- The conditions are that the device keeps its bytes and a place, so that every seek and every read
  -- within its bytes succeeds, that a sector has at least one byte, that the block can be computed, and
  -- that the device is long enough.
  pub rw_cluster-past_buffer :
      (c block n : ℕ) (buffer : List ℕ) (d : D)
      → cluster2block m.bootsector (pos c) ≡ some block
      → 1 ≤ m.bootsector.bytes_per_sector
      → m.bootsector.sectors_per_cluster ≡ 3 + n
      → length buffer ≡ m.bootsector.bytes_per_sector * m.bootsector.sectors_per_cluster
      → block_offset m.bootsector block + length buffer ≤ length (content d)
      → rw_cluster vol (pos c) buffer fat_read (on_mount m d) ≡ fault
  unfolding rw_cluster rw_block
  rw_cluster-past_buffer c block n buffer d found one many sized within = rw found (
      bind_fault_lem _ (seek_lem vol content place dev m (block_offset m.bootsector block) d)
        (λ r ok d' same at.
          let kept : length (content d') ≡ length (content d) = ap length same in
          rw ok (many_sectors_lem _ n _ buffer d' one many sized (omega arith))))
