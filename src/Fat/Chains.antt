-- ===== src/Fat/Chains.antt =====
-- Reading an open file: fat_read of fat.c, from a position at the start of a cluster.
use system_related_projects.Base.{
  ℕ, zero, suc, ◌+◌, ◌*◌, ◌^◌, ◌/◌, ◌%◌, ◌≤◌, ◌<◌, ◌≡◌, refl, ap, sym, ◌∙◌, false, some, List, ◌∷◌,
  length, take, drop, ltb, ◌==◌, ==-false, length-drop, arith,
}
use system_related_projects.Base.Int.{pos}
use system_related_projects.Base.Result.{done, Returns, returns}
use system_related_projects.Fat.{FatMount, FatFile, Volume, Env, w32, on_mount, splice}
use system_related_projects.Fat.Files.{follow, make_room, fat_rw, move_bytes, read_file}
use system_related_projects.Fat.Splice.{drop-past}
use system_related_projects.Fat.Reading.{Keeps, Left, left, bind-left}
use system_related_projects.Fat.Layout.{
  Layout, cluster_bytes, chain_bytes, Chain, chain_last, chain_link,
}
use system_related_projects.Fat.Rounds.{as_int_lem, link_lem, length-cluster_bytes}
use system_related_projects.Fat.Transfer.{transfer_lem}
use native.Mathlib.Nat.{mul-div_cancel, mul-mod_left}

module _ {D H : Type 0} (vol : Volume D H) (content : D → List ℕ) (place : D → ℕ)
    (dev : Keeps vol content place) (m : FatMount H) (image : List ℕ)
    (layout : Layout m image) where
  -- What is left of a chain behind its first `k` clusters.
  record Suffix (k c : ℕ) (clusters : List ℕ) (d : D) : Type 0 where
    first : ℕ
    rest : List ℕ
    chain : Chain m image (first ∷ rest)
    reached : follow k (pos c) (on_mount m d) ≡ done (pos first) (on_mount m d)
    bytes :
        chain_bytes m image (first ∷ rest)
        ≡ drop (k * m.cluster_size) (chain_bytes m image (c ∷ clusters))

  follow_lem :
      (k : ℕ) {c : ℕ} {clusters : List ℕ} (d : D)
      → Chain m image (c ∷ clusters)
      → k ≤ length clusters
      → Suffix k c clusters d
  unfolding follow chain_bytes
  follow_lem zero {c = c} {clusters = clusters} d chain h = record {
    first = c;
    rest = clusters;
    chain = chain;
    reached = refl;
    bytes = let e : 0 * m.cluster_size ≡ 0 = omega arith in rw e refl;
  }
  follow_lem (suc k) d (chain_last stored) h = absurd (omega arith)
  follow_lem (suc k) d (chain_link {c = c} {next = next} {clusters = clusters} stored link chain)
        h =
      let later = follow_lem k d chain (omega arith) in
      let goes_on : (next == 0) ≡ false = ==-false link.nonzero in
      record {
        first = later.first;
        rest = later.rest;
        chain = later.chain;
        reached =
            rw (link_lem vol content place dev m image layout d link) (rw goes_on later.reached);
        bytes =
            later.bytes
            ∙ sym (
                drop-past (suc k * m.cluster_size) (k * m.cluster_size) (cluster_bytes m image c) _
                  (let whole = length-cluster_bytes vol content place dev m image layout stored in
                    omega arith));
      }

  module _ (env : Env) where
    -- fat_read from a position at the start of a cluster returns the number of bytes that were asked
    -- for, puts the bytes of the file's chain of clusters from this position on into the buffer, and
    -- moves the position behind them; the device's bytes are unchanged. The conditions are: the device
    -- keeps its bytes and a place, the clusters have one or two sectors and lie on it, the table links
    -- them without a cycle to cluster 0, the buffer of a cluster has its size, the bytes asked for lie
    -- within the file's size, of fewer than 2 ^ 32, and within the chain, they fit into the buffer, and the
    -- position behind them and the end of the cluster at the position are below 2 ^ 31.
    pub read_file-chain_bytes :
        (file : FatFile) (k size : ℕ) {clusters : List ℕ} (buffer : List ℕ) (d : D)
        → Chain m image (file.entry.start_cluster ∷ clusters)
        → content d ≡ image
        → length (env.fresh m.cluster_size) ≡ m.cluster_size
        → k ≤ length clusters
        → file.current_pos ≡ k * m.cluster_size
        → file.current_pos + size ≤ file.entry.file_size
        → file.entry.file_size < w32
        → file.current_pos + size
          ≤ length (chain_bytes m image (file.entry.start_cluster ∷ clusters))
        → size ≤ length buffer
        → (k + 1) * m.cluster_size < 2 ^ 31
        → file.current_pos + size < 2 ^ 31
        → Returns
            (λ r t.
              (r ≡ (
                pos size,
                splice buffer 0 (
                    take size (
                      drop file.current_pos
                        (chain_bytes m image (file.entry.start_cluster ∷ clusters)))),
                some (record file { current_pos = file.current_pos + size }),
              ))
              × Left vol content place dev m (λ _. Unit {0}) d t)
            (read_file vol env (some file) buffer size (on_mount m d))
    unfolding read_file fat_rw move_bytes make_room
    read_file-chain_bytes file k size {clusters = clusters} buffer d chain same fresh short at
          within fits enough room bounded int_fits =
        let one = layout.nonempty in
        let suffix = follow_lem k d chain short in
        let positive : (m.cluster_size == 0) ≡ false = ground arith in
        let quotient : file.current_pos / m.cluster_size ≡ k =
          rw at (mul-div_cancel k (omega arith)) in
        let remainder : file.current_pos % m.cluster_size ≡ 0 =
          rw at (mul-mod_left k m.cluster_size) in
        let left_bytes = chain_bytes m image (suffix.first ∷ suffix.rest) in
        let behind : left_bytes
            ≡ drop file.current_pos (chain_bytes m image (file.entry.start_cluster ∷ clusters)) =
          rw at suffix.bytes in
        let rest_enough : size ≤ length left_bytes =
          let a = ap length behind in
          let b =
            length-drop file.current_pos
              (chain_bytes m image (file.entry.start_cluster ∷ clusters)) in
          ground arith in
        let inside : ltb file.entry.file_size ((file.current_pos + size) % w32) ≡ false =
          ground arith in
        rw positive (
          rw quotient (
            rw suffix.reached (
              rw inside (
                rw remainder (
                  bind-left vol content place dev m _
                    (transfer_lem vol content place dev m image layout (size + 1) file.current_pos 0
                      size (env.fresh m.cluster_size) buffer d suffix.chain same fresh (omega arith)
                      rest_enough (omega arith) (rw quotient bounded) (omega arith))
                    (λ r got d' same' _.
                      let none : 0 + size ≡ size = omega arith in
                      rw got (
                        rw none (
                          rw (as_int_lem (file.current_pos + size) (on_mount m d') int_fits)
                            (returns (rw behind refl, left d' same' tt))))))))))
