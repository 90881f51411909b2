-- ===== src/Fat/Rounds.antt =====
-- One round of the loop of fat_rw of fat.c that reads.
use system_related_projects.Base.{
  ℕ, suc, ◌+◌, ◌-◌, ◌≤◌, ◌<◌, ◌≡◌, refl, ap, ◌∙◌, true, false, List, length, take, drop, ltb,
  lt→ltb, ◌/◌, ◌*◌, ◌^◌, ◌==◌, ==-false, if◌then◌else◌, length-take, length-drop, arith,
}
use system_related_projects.Base.Int.{pos, success}
use system_related_projects.Base.Result.{done, Returns, returns}
use system_related_projects.Fat.{FatMount, Volume, Fat, on_mount, splice, fat_read}
use system_related_projects.Fat.Table.{block_offset, get_fat_cluster}
use system_related_projects.Fat.Free.{get_fat_cluster_lem}
use system_related_projects.Fat.Files.{
  as_int, bytes_below, round_bytes, round_of, read_round, one_round, transfer,
}
use system_related_projects.Fat.Splice.{overlay_lem, slice_lem}
use system_related_projects.Fat.Reading.{
  Keeps, Left, left, bind-left, bytes_at, rw_cluster-bytes_at,
}
use system_related_projects.Fat.Layout.{Layout, block_bytes, cluster_bytes, Stored, Linked}

pub as_int_lem : {S : Type 0} (n : ℕ) (s : S) → n < 2 ^ 31 → as_int n s ≡ done n s
unfolding as_int
as_int_lem n s fits = rw (lt→ltb _ _ fits) refl

round_bytes_lem :
    {S : Type 0} (cs position size : ℕ) (s : S)
    → (position / cs + 1) * cs < 2 ^ 31
    → round_bytes cs position 0 size s ≡ done (if ltb cs size then cs else size) s
unfolding round_bytes bytes_below
round_bytes_lem cs position size s fits =
    let k = position / cs in
    let bound : cs ≤ (k + 1) * cs = omega arith in
    rw (as_int_lem ((position / cs + 1) * cs) s fits) (ground arith)

module _ {D H : Type 0} (vol : Volume D H) (content : D → List ℕ) (place : D → ℕ)
    (dev : Keeps vol content place) (m : FatMount H) (image : List ℕ)
    (layout : Layout m image) where
  pub length-cluster_bytes :
      {c : ℕ} → Stored m image c → length (cluster_bytes m image c) ≡ m.cluster_size
  unfolding cluster_bytes block_bytes
  length-cluster_bytes {c = c} stored =
      let a = length-take m.cluster_size (drop (block_offset m.bootsector stored.block) image) in
      let b = length-drop (block_offset m.bootsector stored.block) image in
      let inside = stored.inside in rw stored.found (ground arith)

  -- The cluster as fat_rwCluster reads it.
  cluster_lem :
      {c : ℕ} (cluster_buffer : List ℕ) (d : D) (stored : Stored m image c)
      → content d ≡ image
      → length cluster_buffer ≡ m.cluster_size
      → bytes_at vol content place dev m
          (block_offset m.bootsector stored.block)
          (length cluster_buffer)
          d
        ≡ cluster_bytes m image c
  unfolding cluster_bytes block_bytes bytes_at
  cluster_lem cluster_buffer d stored same sized = rw stored.found (rw sized (rw same refl))

  read_round_lem :
      (c bytes at : ℕ) (cluster_buffer buffer : List ℕ) (d : D)
      → Stored m image c
      → content d ≡ image
      → length cluster_buffer ≡ m.cluster_size
      → bytes ≤ m.cluster_size
      → at + bytes ≤ length buffer
      → Returns
          (λ w t.
            (w
              ≡ round_of false
                  (cluster_bytes m image c)
                  (splice buffer at (take bytes (cluster_bytes m image c))))
            × Left vol content place dev m (λ _. Unit {0}) d t)
          (read_round vol (pos c) 0 bytes cluster_buffer buffer at (on_mount m d))
  unfolding read_round
  read_round_lem c bytes at cluster_buffer buffer d stored same sized below room =
      let whole = length-cluster_bytes stored in
      let part : length (take bytes (cluster_bytes m image c)) ≡ bytes =
        let a = length-take bytes (cluster_bytes m image c) in ground arith in
      let inside = stored.inside in
      let end : length (content d) ≡ length image = ap length same in
      bind-left vol content place dev m _
        (rw_cluster-bytes_at vol content place dev m c stored.block cluster_buffer d stored.found
          layout.few (sized ∙ layout.cluster_sized) (omega arith))
        (λ r got d' same' _.
          rw (got ∙ ap (λ l. (success, l)) (cluster_lem cluster_buffer d stored same sized)) (
            rw (slice_lem (cluster_bytes m image c) 0 bytes (on_mount m d') (omega arith)) (
              rw
                (overlay_lem buffer at (take bytes (cluster_bytes m image c)) (on_mount m d')
                  (omega arith))
                (returns (refl, left d' same' tt)))))

  pub link_lem :
      {c next : ℕ} (d : D)
      → Linked m image c next
      → get_fat_cluster (pos c) (on_mount m d) ≡ done (pos next) (on_mount m d)
  link_lem {c = c} d link =
      get_fat_cluster_lem m d c link.known link.reach ∙ ap (λ n. done n (on_mount m d)) link.entry

  -- The last round.
  pub last_round_lem :
      (fuel position at size c : ℕ) (cluster_buffer buffer : List ℕ) (d : D)
      → Stored m image c
      → content d ≡ image
      → length cluster_buffer ≡ m.cluster_size
      → size ≤ m.cluster_size
      → at + size ≤ length buffer
      → (position / m.cluster_size + 1) * m.cluster_size < 2 ^ 31
      → at + size < 2 ^ 31
      → Returns
          (λ r t.
            (r ≡ (at + size, splice buffer at (take size (cluster_bytes m image c))))
            × Left vol content place dev m (λ _. Unit {0}) d t)
          (transfer vol
            (suc fuel)
            fat_read
            m.cluster_size
            position
            (pos c)
            0
            size
            at
            cluster_buffer
            buffer
            (on_mount m d))
  unfolding transfer one_round round_of
  last_round_lem fuel position at size c cb buffer d stored same sized below room bounded fits =
      let bytes : (if ltb m.cluster_size size then m.cluster_size else size) ≡ size =
        ground arith in
      let finished : (size - size == 0) ≡ true = ground arith in
      rw (round_bytes_lem m.cluster_size position size (on_mount m d) bounded) (
        rw bytes (
          bind-left vol content place dev m _
            (read_round_lem c size at cb buffer d stored same sized below room)
            (λ w got d' same' _. rw got (
              rw (as_int_lem (at + size) (on_mount m d') fits)
                (rw finished (returns (refl, left d' same' tt)))))))

  -- A round that is followed by another.
  pub first_round_lem :
      {P : ℕ × List ℕ → Fat D H → Type 0} (fuel position at size c next : ℕ)
      (cluster_buffer buffer : List ℕ) (d : D)
      → Stored m image c
      → Linked m image c next
      → content d ≡ image
      → length cluster_buffer ≡ m.cluster_size
      → m.cluster_size < size
      → at + size ≤ length buffer
      → (position / m.cluster_size + 1) * m.cluster_size < 2 ^ 31
      → at + size < 2 ^ 31
      → ((d' : D)
          → content d' ≡ content d
          → Returns P (
              transfer vol fuel fat_read m.cluster_size position
                (pos next)
                0
                (size - m.cluster_size)
                (at + m.cluster_size)
                (cluster_bytes m image c)
                (splice buffer at (take m.cluster_size (cluster_bytes m image c)))
                (on_mount m d')))
      → Returns P (
          transfer vol
            (suc fuel)
            fat_read
            m.cluster_size
            position
            (pos c)
            0
            size
            at
            cluster_buffer
            buffer
            (on_mount m d))
  unfolding transfer one_round round_of
  first_round_lem fuel position at size c next cb buffer d stored link same sized above room bounded
        fits next_round =
      let bytes : (if ltb m.cluster_size size then m.cluster_size else size) ≡ m.cluster_size =
        ground arith in
      let more : (size - m.cluster_size == 0) ≡ false = ground arith in
      let goes_on : (next == 0) ≡ false = ==-false link.nonzero in
      rw (round_bytes_lem m.cluster_size position size (on_mount m d) bounded) (
        rw bytes (
          bind-left vol content place dev m _
            (read_round_lem c m.cluster_size at cb buffer d stored same sized (omega arith)
              (omega arith))
            (λ w got d' same' _. rw got (
              rw (as_int_lem (at + m.cluster_size) (on_mount m d') (omega arith))
                (rw more (rw (link_lem d' link) (rw goes_on (next_round d' same'))))))))
