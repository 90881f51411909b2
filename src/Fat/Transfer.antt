-- ===== src/Fat/Transfer.antt =====
-- Reading along a chain of clusters: the loop of fat_rw of fat.c.
use system_related_projects.Base.{
  ℕ, zero, suc, ◌+◌, ◌-◌, ◌*◌, ◌/◌, ◌^◌, ◌≤◌, ◌<◌, ◌≡◌, inl, inr, refl, ap, sym, ◌∙◌, List, [], ◌∷◌,
  ◌++◌, length, take, ltb, Bool-cases, ltb→lt, length-take, length-append, arith,
}
use system_related_projects.Base.Int.{pos}
use system_related_projects.Base.Result.{Returns, Returns-mono}
use system_related_projects.Fat.{FatMount, Volume, on_mount, splice, fat_read}
use system_related_projects.Fat.Files.{transfer}
use system_related_projects.Fat.Splice.{
  splice-splice, length-splice, append-nil, take_all, take-append_le, take-append_ge,
}
use system_related_projects.Fat.Reading.{Keeps, Left, relocate}
use system_related_projects.Fat.Layout.{
  Layout, cluster_bytes, chain_bytes, Stored, Chain, chain_last, chain_link,
}
use system_related_projects.Fat.Rounds.{length-cluster_bytes, last_round_lem, first_round_lem}

pair_eq : {a b : ℕ} {xs ys : List ℕ} → a ≡ b → xs ≡ ys → ◌≡◌ {A = ℕ × List ℕ} (a, xs) (b, ys)
pair_eq same same' = rw same (rw same' refl)

module _ {D H : Type 0} (vol : Volume D H) (content : D → List ℕ) (place : D → ℕ)
    (dev : Keeps vol content place) (m : FatMount H) (image : List ℕ)
    (layout : Layout m image) where
  -- The bytes of a chain in two pieces.
  pieces_lem :
      (buffer : List ℕ) (at size c : ℕ) (clusters : List ℕ)
      → Stored m image c
      → m.cluster_size ≤ size
      → at + size ≤ length buffer
      → splice
          (splice buffer at (take m.cluster_size (cluster_bytes m image c)))
          (at + m.cluster_size)
          (take (size - m.cluster_size) (chain_bytes m image clusters))
        ≡ splice buffer at (take size (chain_bytes m image (c ∷ clusters)))
  unfolding chain_bytes
  pieces_lem buffer at size c clusters stored above room =
      let whole = length-cluster_bytes vol content place dev m image layout stored in
      let all : take m.cluster_size (cluster_bytes m image c) ≡ cluster_bytes m image c =
        take_all m.cluster_size (cluster_bytes m image c) (omega arith) in
      let end : at + m.cluster_size ≡ at + length (cluster_bytes m image c) = omega arith in
      let sum : length (cluster_bytes m image c) + (size - m.cluster_size) ≡ size = omega arith in
      ap
        (λ l.
          splice (splice buffer at l) (at + m.cluster_size)
            (take (size - m.cluster_size) (chain_bytes m image clusters)))
        all
      ∙ ap
          (λ k.
            splice (splice buffer at (cluster_bytes m image c)) k
              (take (size - m.cluster_size) (chain_bytes m image clusters)))
          end
      ∙ splice-splice buffer at (cluster_bytes m image c) _ (omega arith)
      ∙ ap (λ l. splice buffer at l)
          (sym (
              take-append_ge (size - m.cluster_size) (cluster_bytes m image c)
                (chain_bytes m image clusters))
            ∙ ap (λ k. take k (cluster_bytes m image c ++ chain_bytes m image clusters)) sum)

  -- The loop moves the first bytes of a chain.
  pub transfer_lem :
      (fuel position at size : ℕ) {c : ℕ} {clusters : List ℕ} (cluster_buffer buffer : List ℕ)
      (d : D)
      → Chain m image (c ∷ clusters)
      → content d ≡ image
      → length cluster_buffer ≡ m.cluster_size
      → size < fuel
      → size ≤ length (chain_bytes m image (c ∷ clusters))
      → at + size ≤ length buffer
      → (position / m.cluster_size + 1) * m.cluster_size < 2 ^ 31
      → at + size < 2 ^ 31
      → Returns
          (λ r t.
            (r ≡ (at + size, splice buffer at (take size (chain_bytes m image (c ∷ clusters)))))
            × Left vol content place dev m (λ _. Unit {0}) d t)
          (transfer vol fuel fat_read m.cluster_size position
            (pos c)
            0
            size
            at
            cluster_buffer
            buffer
            (on_mount m d))
  unfolding chain_bytes
  transfer_lem zero position at size cb buffer d chain same sized fuel_ok enough room bounded fits =
      absurd (omega arith)
  transfer_lem (suc fuel) position at size cb buffer d (chain_last {c = c} stored) same sized
        fuel_ok enough room bounded fits =
      let whole = length-cluster_bytes vol content place dev m image layout stored in
      let alone = append-nil (cluster_bytes m image c) in
      let short : length (cluster_bytes m image c ++ []) ≡ m.cluster_size =
        ap length alone ∙ whole in
      rw alone (
        last_round_lem vol content place dev m image layout fuel position at size c cb buffer d
          stored same sized (omega arith) room bounded fits)
  transfer_lem (suc fuel) position at size cb buffer d
        (chain_link {c = c} {next = next} {clusters = clusters} stored link chain) same sized
        fuel_ok enough room bounded fits =
      let whole = length-cluster_bytes vol content place dev m image layout stored in
      let rest = chain_bytes m image (next ∷ clusters) in
      let total = length-append (cluster_bytes m image c) rest in
      elim (Bool-cases (ltb m.cluster_size size)) [
        | inr short ↦ rw (take-append_le size (cluster_bytes m image c) rest (ground arith)) (
            last_round_lem vol content place dev m image layout fuel position at size c cb buffer d
              stored same sized (ground arith) room bounded fits)
        | inl more ↦
            let above : m.cluster_size < size = ltb→lt _ _ more in
            let one = layout.nonempty in
            let sum : at + m.cluster_size + (size - m.cluster_size) ≡ at + size = omega arith in
            let part : length (take m.cluster_size (cluster_bytes m image c)) ≡ m.cluster_size =
              let a = length-take m.cluster_size (cluster_bytes m image c) in ground arith in
            let kept =
              length-splice buffer at (take m.cluster_size (cluster_bytes m image c))
                (omega arith) in
            first_round_lem vol content place dev m image layout fuel position at size c next cb
              buffer d stored link same sized above room bounded fits
              (λ d' same'.
                Returns-mono
                  (transfer_lem fuel position (at + m.cluster_size) (size - m.cluster_size)
                    (cluster_bytes m image c) _ d' chain (same' ∙ same) whole (omega arith)
                    (omega arith) (omega arith) bounded (omega arith))
                  (λ r t h. (
                    h.0
                        ∙ pair_eq sum (
                            pieces_lem buffer at size c (next ∷ clusters) stored (omega arith)
                              room),
                    relocate vol content place dev m same' h.1,
                  )))
      ]
