-- ===== src/Fat/Layout.antt =====
-- Files as chains of clusters on a device, for the proofs about fat_rw of fat.c.
use system_related_projects.Base.{
  ℕ, ◌+◌, ◌*◌, ◌≤◌, ◌≡◌, ◌≢◌, ◌⊎◌, true, Option, none, some, List, [], ◌∷◌, ◌++◌, length, take,
  drop,
}
use system_related_projects.Base.Int.{pos}
use system_related_projects.Fat.{FatMount}
use system_related_projects.Fat.Table.{
  cluster2block, block_offset, known_type, table_entry, table_reach,
}

-- The volume: its clusters of one or two sectors, and what the device keeps.
pub record Layout {H : Type 0} (m : FatMount H) (image : List ℕ) : Type 0 where
  pub few : (m.bootsector.sectors_per_cluster ≡ 1) ⊎ (m.bootsector.sectors_per_cluster ≡ 2)
  pub cluster_sized :
      m.cluster_size ≡ m.bootsector.bytes_per_sector * m.bootsector.sectors_per_cluster
  pub nonempty : 1 ≤ m.cluster_size

-- The bytes of a cluster.
unfoldable pub block_bytes : {H : Type 0} → FatMount H → List ℕ → Option ℕ → List ℕ
block_bytes m image none = []
block_bytes m image (some block) =
    take m.cluster_size (drop (block_offset m.bootsector block) image)

module _ {H : Type 0} (m : FatMount H) (image : List ℕ) where
  unfoldable pub cluster_bytes : ℕ → List ℕ
  cluster_bytes c = block_bytes m image (cluster2block m.bootsector (pos c))

  unfoldable pub chain_bytes : List ℕ → List ℕ
  chain_bytes [] = []
  chain_bytes (c ∷ clusters) = cluster_bytes c ++ chain_bytes clusters

  -- A cluster that lies on the device.
  pub record Stored (c : ℕ) : Type 0 where
    pub block : ℕ
    pub found : cluster2block m.bootsector (pos c) ≡ some block
    pub inside : block_offset m.bootsector block + m.cluster_size ≤ length image

  -- The table leads from a cluster to the next.
  pub record Linked (c next : ℕ) : Type 0 where
    pub known : known_type m.type ≡ true
    pub reach : table_reach m.type c ≤ length m.fat_data
    pub entry : table_entry m.type m.fat_data c ≡ pos next
    pub nonzero : next ≢ 0

  pub data Chain : List ℕ → Type 0 where
    chain_last : {c : ℕ} → Stored c → Chain (c ∷ [])
    chain_link :
        {c next : ℕ} {clusters : List ℕ}
        → Stored c
        → Linked c next
        → Chain (next ∷ clusters)
        → Chain (c ∷ next ∷ clusters)
