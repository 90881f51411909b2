-- ===== src/Fat/Writing.antt =====
-- Clusters that are written to a device which keeps its bytes, and entries that are stored in their
-- directory: fat_rwCluster and fat_updateFileEntry of fat.c.
use system_related_projects.Base.{
  ℕ, suc, ◌+◌, ◌*◌, ◌≤◌, ◌≡◌, ◌⊎◌, inl, inr, refl, ap, sym, ◌∙◌, false, Option, some, List, ◌++◌,
  length, take, drop, arith,
}
use system_related_projects.Base.Int.{ℤ, pos, success, is_fail}
use system_related_projects.Base.Result.{Result, and_then, M, Returns, returns, Returns-mono}
use system_related_projects.Fat.{
  Entry, FatMount, FatFile, Volume, Env, Fat, on_mount, splice, fat_write, encode_entry, set_dir_at,
  on_device,
}
use system_related_projects.Fat.Table.{
  cluster2block, block_offset, rw_sectors, rw_block, rw_cluster,
}
use system_related_projects.Fat.Paths.{store_entry, update_file_entry}
use system_related_projects.Fat.Splice.{
  overlay_lem, slice_lem, splice-splice, length-splice, take_all, take-drop_add,
}
use system_related_projects.Fat.Reading.{
  Keeps, bind-left, Returns-lift, length-part, seek_lem, bytes_at, rw_cluster-bytes_at,
}
use system_related_projects.Fat.Encoding.{Sized}
use system_related_projects.Fat.Directory.{length-encode_entry}

-- A write within the bytes of the device puts its bytes there, and moves the place behind them.
pub record Stores {D H : Type 0} (vol : Volume D H) (content : D → List ℕ) (place : D → ℕ)
    : Type 0 where
  pub writes :
      (h : Option H) (bytes : List ℕ) (d : D)
      → place d + length bytes ≤ length (content d)
      → Returns
          (λ r d'.
            (is_fail r ≡ false)
            × (content d' ≡ splice (content d) (place d) bytes)
            × (place d' ≡ place d + length bytes))
          (vol.write_fn h bytes d)

module _ {D H : Type 0} (vol : Volume D H) (content : D → List ℕ) (place : D → ℕ)
    (dev : Keeps vol content place) (stores : Stores vol content place) (m : FatMount H) where
  -- The mount is as before, and `P` holds of the device.
  pub data At (P : D → Type 0) : Fat D H → Type 0 where
    at_device : (d : D) → P d → At P (on_mount m d)

  At-mono : {P Q : D → Type 0} {t : Fat D H} → At P t → ((d : D) → P d → Q d) → At Q t
  At-mono (at_device d p) weaken = at_device d (weaken d p)

  bind-at :
      {A B : Type 0} {R : A → Type 0} {P : D → Type 0} {Q : B → Fat D H → Type 0}
      {r : Result (Fat D H) A} (k : A → M (Fat D H) B)
      → Returns (λ a t. R a × At P t) r
      → ((a : A) → R a → (d' : D) → P d' → Returns Q (k a (on_mount m d')))
      → Returns Q (and_then r k)
  bind-at k (returns (ra, at_device d' p)) next = next _ ra d' p

  write_lem :
      (bytes : List ℕ) (d : D)
      → place d + length bytes ≤ length (content d)
      → Returns
          (λ r t.
            (is_fail r ≡ false)
            × At
                (λ d'.
                  (content d' ≡ splice (content d) (place d) bytes)
                  × (place d' ≡ place d + length bytes))
                t)
          (on_device (λ h. vol.write_fn h bytes) (on_mount m d))
  write_lem bytes d within =
      Returns-lift m d (stores.writes m.device bytes d within)
        (λ r d' h. (h.0, at_device d' (h.1, h.2)))

  sector_lem :
      {P : ℤ × List ℕ → Fat D H → Type 0} (bps n i at : ℕ) (buffer : List ℕ) (d : D)
      → place d + bps ≤ length (content d)
      → at + bps * i + bps ≤ length buffer
      → ((d' : D)
          → content d' ≡ splice (content d) (place d) (take bps (drop (at + bps * i) buffer))
          → place d' ≡ place d + bps
          → Returns P
              (rw_sectors vol fat_write bps n (i + 1) (at + bps * i) buffer (on_mount m d')))
      → Returns P (rw_sectors vol fat_write bps (suc n) i at buffer (on_mount m d))
  unfolding rw_sectors
  sector_lem bps n i at buffer d within room next =
      let bytes = take bps (drop (at + bps * i) buffer) in
      let sized : length bytes ≡ bps = length-part (at + bps * i) bps buffer room in
      rw (slice_lem buffer (at + bps * i) bps (on_mount m d) room) (
        bind-at _ (write_lem bytes d (omega arith))
          (λ r ok d' h. rw ok (next d' h.0 (h.1 ∙ ap (λ k. place d + k) sized))))

  sectors_lem :
      (bps sectors : ℕ) (buffer : List ℕ) (d : D)
      → (sectors ≡ 1) ⊎ (sectors ≡ 2)
      → length buffer ≡ bps * sectors
      → place d + length buffer ≤ length (content d)
      → Returns
          (λ r t.
            (r ≡ (success, buffer)) × At (λ d'. content d' ≡ splice (content d) (place d) buffer) t)
          (rw_sectors vol fat_write bps sectors 0 0 buffer (on_mount m d))
  unfolding rw_sectors
  sectors_lem bps sectors buffer d (inl one) sized within =
      let size : length buffer ≡ bps =
        let e : bps * 1 ≡ bps = omega arith in sized ∙ ap (λ k. bps * k) one ∙ e in
      let start : 0 + bps * 0 ≡ 0 = omega arith in
      let whole : take bps (drop (0 + bps * 0) buffer) ≡ buffer =
        ap (λ k. take bps (drop k buffer)) start ∙ take_all bps buffer (omega arith) in
      rw one (
        sector_lem bps 0 0 0 buffer d (omega arith) (omega arith) (λ d' same moved.
          returns (refl, at_device d' (same ∙ ap (λ l. splice (content d) (place d) l) whole))))
  sectors_lem bps sectors buffer d (inr two) sized within =
      let size : length buffer ≡ bps * 2 = sized ∙ ap (λ k. bps * k) two in
      let first : 0 + bps * 0 ≡ 0 = omega arith in
      let second : 0 + bps * 0 + bps * 1 ≡ bps = omega arith in
      let double : bps + bps ≡ bps * 2 = omega arith in
      let a = take bps (drop (0 + bps * 0) buffer) in
      let b = take bps (drop (0 + bps * 0 + bps * 1) buffer) in
      let length_a : length a ≡ bps = length-part (0 + bps * 0) bps buffer (omega arith) in
      let both : a ++ b ≡ buffer =
        ap (λ k. take bps (drop k buffer) ++ b) first
        ∙ ap (λ k. take bps buffer ++ take bps (drop k buffer)) second
        ∙ take-drop_add bps bps buffer
        ∙ take_all (bps + bps) buffer (omega arith) in
      rw two (
        sector_lem bps 1 0 0 buffer d (omega arith) (omega arith) (λ d' same moved.
          let size' : length (content d') ≡ length (content d) =
            ap length same ∙ length-splice (content d) (place d) a (omega arith) in
          sector_lem bps 0 1 (0 + bps * 0) buffer d' (omega arith) (omega arith) (λ e same' moved'.
            returns (
              refl,
              at_device e (
                  same'
                  ∙ ap (λ c. splice c (place d') b) same
                  ∙ ap (λ k. splice (splice (content d) (place d) a) k b)
                      (moved ∙ ap (λ k. place d + k) (sym length_a))
                  ∙ splice-splice (content d) (place d) a b (omega arith)
                  ∙ ap (λ l. splice (content d) (place d) l) both),
            ))))

  module _ (c block : ℕ) (found : cluster2block m.bootsector (pos c) ≡ some block)
      (few : (m.bootsector.sectors_per_cluster ≡ 1) ⊎ (m.bootsector.sectors_per_cluster ≡ 2)) where
    -- Where the cluster begins.
    unfoldable pub start_of : ℕ
    start_of = block_offset m.bootsector block

    write_cluster_lem :
        (buffer : List ℕ) (d : D)
        → length buffer ≡ m.bootsector.bytes_per_sector * m.bootsector.sectors_per_cluster
        → start_of + length buffer ≤ length (content d)
        → Returns
            (λ r t.
              (r ≡ (success, buffer))
              × At (λ d'. content d' ≡ splice (content d) start_of buffer) t)
            (rw_cluster vol (pos c) buffer fat_write (on_mount m d))
    unfolding rw_cluster rw_block start_of
    write_cluster_lem buffer d sized within = rw found (
        bind-left vol content place dev m _
          (seek_lem vol content place dev m (block_offset m.bootsector block) d)
          (λ r ok d' same at.
            let size : length (content d') ≡ length (content d) = ap length same in
            rw ok (
              Returns-mono (sectors_lem _ _ buffer d' few sized (omega arith)) (λ a t h. (
                h.0,
                At-mono h.1 (λ e p.
                    p
                    ∙ ap (λ l. splice l (place d') buffer) same
                    ∙ ap (λ k. splice (content d) k buffer) at),
              )))))

    -- A file whose entry stands at index `i` of the directory in this cluster.
    unfoldable pub stored_file : Entry → ℕ → ℕ → FatFile
    stored_file entry i position = record {
      entry = entry;
      dir_cluster = pos c;
      dir_index = pos i;
      current_pos = position;
    }

    module _ (env : Env) where
      -- fat_updateFileEntry stores the entry of a file at its index in the directory: it answers SUCCESS,
      -- and the device's bytes are those before with the 32 bytes of the entry at this index of the
      -- directory's cluster. The conditions are that the device keeps its bytes and a place, so that every seek succeeds and so
      -- does every read and write within its bytes; that the file has an index, which lies in the cluster;
      -- that a cluster has one or two sectors and the size that the mount has for it, the buffer for one
      -- has this size too, and the device has the cluster of the directory, at a block that can be
      -- computed; and that the fields of the entry have their sizes.
      pub update_file_entry-encode_entry :
          (entry : Entry) (i position : ℕ) (d : D)
          → Sized entry
          → m.cluster_size ≡ m.bootsector.bytes_per_sector * m.bootsector.sectors_per_cluster
          → length (env.fresh m.cluster_size) ≡ m.cluster_size
          → i * 32 + 32 ≤ m.cluster_size
          → start_of + m.cluster_size ≤ length (content d)
          → Returns
              (λ r t.
                (r ≡ (success, stored_file entry i position))
                × At
                    (λ d'.
                      content d'
                      ≡ splice (content d) start_of (
                          splice
                            (take m.cluster_size (drop start_of (content d)))
                            (i * 32)
                            (encode_entry entry)))
                    t)
              (update_file_entry vol env (stored_file entry i position) (on_mount m d))
      unfolding update_file_entry store_entry set_dir_at bytes_at start_of stored_file
      update_file_entry-encode_entry entry i position d sized whole fresh inside within =
          let off = block_offset m.bootsector block in
          let blank = env.fresh m.cluster_size in
          let dir = take (length blank) (drop off (content d)) in
          let new = splice dir (i * 32) (encode_entry entry) in
          let length_dir : length dir ≡ length blank =
            length-part off (length blank) (content d) (omega arith) in
          let length_entry = length-encode_entry entry sized in
          let length_new : length new ≡ length dir =
            length-splice dir (i * 32) (encode_entry entry) (omega arith) in
          bind-left vol content place dev m _
            (rw_cluster-bytes_at vol content place dev m c block blank d found few (fresh ∙ whole)
              (omega arith))
            (λ r got d' same _.
              let size : length (content d') ≡ length (content d) = ap length same in
              rw got (
                rw (overlay_lem dir (i * 32) (encode_entry entry) (on_mount m d') (omega arith)) (
                  bind-at _
                    (write_cluster_lem new d' (length_new ∙ length_dir ∙ fresh ∙ whole)
                      (omega arith))
                    (λ r' got' e p. rw got' (
                      returns (
                        refl,
                        at_device e (
                            p
                            ∙ ap (λ l. splice l off new) same
                            ∙ ap
                                (λ k. splice (content d) off (
                                  splice (take k (drop off (content d))) (i * 32)
                                    (encode_entry entry)))
                                fresh),
                      ))))))
