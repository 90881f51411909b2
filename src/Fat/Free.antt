-- ===== src/Fat/Free.antt =====
-- The search for a free cluster: what fat_getFreeCluster finds.
use system_related_projects.Base.{
  ℕ, zero, suc, ◌+◌, ◌<◌, ◌≤◌, ◌≡◌, ◌≢◌, inl, inr, refl, ap, ◌==◌, ==_iff, Bool-cases, true, false,
  length, arith,
}
use system_related_projects.Base.Int.{ℤ, pos, negsuc, fail}
use system_related_projects.Base.Result.{done, Returns, returns}
use system_related_projects.Fat.{FatMount, on_mount}
use system_related_projects.Fat.Table.{
  known_type, table_entry, table_reach, get_fat_cluster, search_free, get_free_cluster, count_of,
  is_free,
}

-- The table of the mount has the bytes of the first `n` clusters.
pub record Covers {H : Type 0} (m : FatMount H) (n : ℕ) : Type 0 where
  pub known : known_type m.type ≡ true
  pub reach : (c : ℕ) → c < n → table_reach m.type c ≤ length m.fat_data

-- The answer is the first of `n` clusters whose entry is 0, or FAIL when no entry is.
pub data FirstFree (entry : ℕ → ℤ) (n : ℕ) : ℤ → Type 0 where
  first :
      (c : ℕ)
      → c < n
      → entry c ≡ pos 0
      → ((j : ℕ) → j < c → entry j ≢ pos 0)
      → FirstFree entry n (pos c)
  none_free : ((j : ℕ) → j < n → entry j ≢ pos 0) → FirstFree entry n fail

is_free-zero : (z : ℤ) → is_free z ≡ true → z ≡ pos 0
is_free-zero (pos n) h = ap pos (ground arith)
is_free-zero (negsuc n) h = absurd (ground arith)

is_free-ne : (z : ℤ) → is_free z ≡ false → z ≢ pos 0
is_free-ne z busy e = absurd (let h : is_free (pos 0) ≡ false = rw e at busy in ground arith)

module _ {D H : Type 0} (m : FatMount H) (d : D) where
  pub get_fat_cluster_lem :
      (c : ℕ)
      → known_type m.type ≡ true
      → table_reach m.type c ≤ length m.fat_data
      → get_fat_cluster (pos c) (on_mount m d)
        ≡ done (table_entry m.type m.fat_data c) (on_mount m d)
  unfolding get_fat_cluster
  get_fat_cluster_lem c known within = rw known (ground arith)

  search_free_lem :
      (n i : ℕ)
      → Covers m (i + n)
      → ((j : ℕ) → j < i → table_entry m.type m.fat_data j ≢ pos 0)
      → Returns
          (λ r t. (t ≡ on_mount m d) × FirstFree (table_entry m.type m.fat_data) (i + n) r)
          (search_free n i (on_mount m d))
  unfolding search_free
  search_free_lem zero i cov used = returns (refl, none_free (λ j h. used j (omega arith)))
  search_free_lem (suc n) i cov used =
      let known = cov.known in
      let within = cov.reach i (omega arith) in
      rw (get_fat_cluster_lem i known within)
        (elim (Bool-cases (is_free (table_entry m.type m.fat_data i))) [
          | inl free ↦ rw free (returns (refl, first i (omega arith) (is_free-zero _ free) used))
          | inr busy ↦
              let later : i + 1 + n ≡ i + suc n = omega arith in
              let rest = search_free_lem n (i + 1) (rw later cov) (λ j h.
                elim (Bool-cases (j == i)) [
                  | inl same ↦ rw ((==_iff j i).0 same) (is_free-ne _ busy)
                  | inr other ↦ used j (ground arith)
                ]) in
              rw busy (rw later at rest)
        ])

  -- The answer of fat_getFreeCluster is the first cluster below `total_clusters` whose entry in the
  -- table is 0, and FAIL when there is none; nothing changes. The condition is that the type is one
  -- of the three and the table has the bytes of all those clusters.
  pub get_free_cluster-FirstFree :
      Covers m (count_of m.total_clusters)
      → Returns
          (λ r t.
            (t ≡ on_mount m d)
            × FirstFree (table_entry m.type m.fat_data) (count_of m.total_clusters) r)
          (get_free_cluster (on_mount m d))
  unfolding get_free_cluster
  get_free_cluster-FirstFree cov =
      let none : 0 + count_of m.total_clusters ≡ count_of m.total_clusters = omega arith in
      rw none at
        (search_free_lem (count_of m.total_clusters) 0 (rw none cov) (λ j h. absurd (omega arith)))
