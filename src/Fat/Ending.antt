-- ===== src/Fat/Ending.antt =====
-- Runs that end: the parts that fat_rw of fat.c is made of.
use system_related_projects.Base.{
  ℕ, zero, suc, ◌+◌, ◌*◌, Bool, true, false, not, ◌&&◌, Option, none, some, List, ltb, leb, ◌==◌,
  Bool-cases, inl, inr, if◌then◌else◌, length,
}
use system_related_projects.Base.Int.{ℤ, pos, negsuc, is_fail}
use system_related_projects.Base.Result.{Result, done, fault, and_then, M, pure}
use system_related_projects.Fat.{
  FatMount, MountPtr, null_mount, freed, mounted, Volume, Fat, fat_write, fat_read, overlay, slice,
  get_mount, on_device, lift,
}
use system_related_projects.Fat.Table.{
  index_of, is_free, known_type, table_reach, get_fat_cluster, set_fat_cluster, commit_fat,
  set_place, set_at, search_free, get_free_cluster, rw_sectors, rw_block, rw_cluster,
}
use system_related_projects.Fat.Files.{follow, ends_chain}

-- The run ends, with a result or a fault, and does not use up its fuel.
pub data Ends {S A : Type 0} : Result S A → Type 0 where
  ends_done : {a : A} {s : S} → Ends (done a s)
  ends_fault : Ends fault

pub Ends-bind :
    {S A B : Type 0} {r : Result S A} (k : A → M S B)
    → Ends r
    → ((a : A) (s : S) → Ends (k a s))
    → Ends (and_then r k)
Ends-bind k (ends_done {a = a} {s = s}) next = next a s
Ends-bind k ends_fault next = ends_fault

pub overlay-Ends :
    {S : Type 0} (buffer : List ℕ) (at : ℕ) (bytes : List ℕ) (s : S)
    → Ends (overlay buffer at bytes s)
unfolding overlay
overlay-Ends buffer at bytes s = elim (Bool-cases (leb (at + length bytes) (length buffer))) [
  | inl fits ↦ rw fits ends_done
  | inr out ↦ rw out ends_fault
]

pub slice-Ends :
    {S : Type 0} (buffer : List ℕ) (at count : ℕ) (s : S) → Ends (slice buffer at count s)
unfolding slice
slice-Ends buffer at count s = elim (Bool-cases (leb (at + count) (length buffer))) [
  | inl fits ↦ rw fits ends_done
  | inr out ↦ rw out ends_fault
]

-- The operations of the device end.
pub record Responds {D H : Type 0} (vol : Volume D H) : Type 0 where
  pub seeks : (h : Option H) (offset origin : ℕ) (d : D) → Ends (vol.seek_fn h offset origin d)
  pub reads : (h : Option H) (n : ℕ) (d : D) → Ends (vol.read_fn h n d)
  pub writes : (h : Option H) (bytes : List ℕ) (d : D) → Ends (vol.write_fn h bytes d)

lift-Ends : {D H A : Type 0} (s : Fat D H) {r : Result D A} → Ends r → Ends (lift s r)
lift-Ends s ends_done = ends_done
lift-Ends s ends_fault = ends_fault

module _ {D H : Type 0} where
  pub get_mount-Ends : (s : Fat D H) → Ends (get_mount s)
  get_mount-Ends s = go s.mount
    where
      go :
          (p : MountPtr H)
          → Ends {S = Fat D H}
              (elim p [ null_mount ↦ fault | freed ↦ fault | mounted m ↦ done m s ])
      go null_mount = ends_fault
      go freed = ends_fault
      go (mounted m) = ends_done

  index_of-Ends : (i : ℤ) (s : Fat D H) → Ends (index_of i s)
  index_of-Ends (pos n) s = ends_done
  index_of-Ends (negsuc n) s = ends_fault

  known_index-Ends :
      (type : ℕ) (c : ℤ) (s : Fat D H) → Ends ((if known_type type then index_of c else pure 0) s)
  known_index-Ends type c s = elim (Bool-cases (known_type type)) [
    | inl known ↦ rw known (index_of-Ends c s)
    | inr other ↦ rw other ends_done
  ]

  pub get_fat_cluster-Ends : (c : ℤ) (s : Fat D H) → Ends (get_fat_cluster c s)
  unfolding get_fat_cluster
  get_fat_cluster-Ends c s = Ends-bind _ (get_mount-Ends s) (λ m t.
      Ends-bind _ (known_index-Ends m.type c t) (λ i u.
        elim (Bool-cases (leb (table_reach m.type i) (length m.fat_data))) [
          | inl fits ↦ rw fits ends_done
          | inr out ↦ rw out ends_fault
        ]))

  search_free-Ends : (n index : ℕ) (s : Fat D H) → Ends (search_free n index s)
  unfolding search_free
  search_free-Ends zero index s = ends_done
  search_free-Ends (suc n) index s = Ends-bind _ (get_fat_cluster-Ends (pos index) s) (λ c t.
      elim (Bool-cases (is_free c)) [
        | inl free ↦ rw free ends_done
        | inr used ↦ rw used (search_free-Ends n (index + 1) t)
      ])

  pub get_free_cluster-Ends : (s : Fat D H) → Ends (get_free_cluster s)
  unfolding get_free_cluster
  get_free_cluster-Ends s = Ends-bind _ (get_mount-Ends s) (λ m t. search_free-Ends _ 0 t)

  pub follow-Ends : (n : ℕ) (c : ℤ) (s : Fat D H) → Ends (follow n c s)
  unfolding follow
  follow-Ends zero c s = ends_done
  follow-Ends (suc n) c s = Ends-bind _ (get_fat_cluster-Ends c s) (λ next t.
      elim (Bool-cases (ends_chain next)) [
        | inl over ↦ rw over ends_done
        | inr more ↦ rw more (follow-Ends n next t)
      ])

  module _ (vol : Volume D H) (responds : Responds vol) where
    seek-Ends :
        (offset origin : ℕ) (s : Fat D H) → Ends (on_device (λ h. vol.seek_fn h offset origin) s)
    seek-Ends offset origin s =
        Ends-bind _ (get_mount-Ends s)
          (λ m t. lift-Ends t (responds.seeks m.device offset origin t.dev))

    read-Ends : (n : ℕ) (s : Fat D H) → Ends (on_device (λ h. vol.read_fn h n) s)
    read-Ends n s =
        Ends-bind _ (get_mount-Ends s) (λ m t. lift-Ends t (responds.reads m.device n t.dev))

    write-Ends : (bytes : List ℕ) (s : Fat D H) → Ends (on_device (λ h. vol.write_fn h bytes) s)
    write-Ends bytes s =
        Ends-bind _ (get_mount-Ends s) (λ m t. lift-Ends t (responds.writes m.device bytes t.dev))

    commit_fat-Ends : (s : Fat D H) → Ends (commit_fat vol s)
    unfolding commit_fat
    commit_fat-Ends s = Ends-bind _ (seek-Ends _ _ s) (λ r t. Ends-bind _ (get_mount-Ends t) (λ m u.
        Ends-bind _ (slice-Ends m.fat_data 0 m.fat_size u)
          (λ table v. Ends-bind _ (write-Ends table v) (λ r' w. ends_done))))

    set_at-Ends :
        (m : FatMount H) (commit : Bool) (p : Option (ℕ × ℕ)) (s : Fat D H)
        → Ends (set_at vol m commit p s)
    unfolding set_at
    set_at-Ends m commit none s = ends_done
    set_at-Ends m true (some (i, v)) s = elim (Bool-cases (ltb i (length m.fat_data))) [
      | inl fits ↦ rw fits (commit_fat-Ends _)
      | inr out ↦ rw out ends_fault
    ]
    set_at-Ends m false (some (i, v)) s = elim (Bool-cases (ltb i (length m.fat_data))) [
      | inl fits ↦ rw fits ends_done
      | inr out ↦ rw out ends_fault
    ]

    pub set_fat_cluster-Ends :
        (c : ℤ) (value : ℕ) (commit : Bool) (s : Fat D H)
        → Ends (set_fat_cluster vol c value commit s)
    unfolding set_fat_cluster
    set_fat_cluster-Ends c value commit s = Ends-bind _ (get_mount-Ends s) (λ m t.
        Ends-bind _ (known_index-Ends m.type c t)
          (λ i u. set_at-Ends m commit (set_place m.type i value) u))

    rw_sectors-Ends :
        (mode bps n i at : ℕ) (buffer : List ℕ) (s : Fat D H)
        → Ends (rw_sectors vol mode bps n i at buffer s)
    unfolding rw_sectors
    rw_sectors-Ends mode bps zero i at buffer s = ends_done
    rw_sectors-Ends mode bps (suc n) i at buffer s = elim (Bool-cases (mode == fat_read)) [
      | inl reading ↦ rw reading (
          Ends-bind _ (read-Ends bps s) (λ r t.
            Ends-bind _ (overlay-Ends buffer (at + bps * i) r.1 t) (λ b u.
              elim (Bool-cases (is_fail r.0)) [
                | inl failed ↦ rw failed ends_done
                | inr fine ↦ rw fine (rw_sectors-Ends mode bps n (i + 1) (at + bps * i) b u)
              ])))
      | inr writing ↦ rw writing (
          Ends-bind _ (slice-Ends buffer (at + bps * i) bps s) (λ bytes t.
            Ends-bind _ (write-Ends bytes t) (λ r u. elim (Bool-cases (is_fail r)) [
              | inl failed ↦ rw failed ends_done
              | inr fine ↦ rw fine (rw_sectors-Ends mode bps n (i + 1) (at + bps * i) buffer u)
            ])))
    ]

    rw_block-Ends :
        (buffer : List ℕ) (mode : ℕ) (block : Option ℕ) (s : Fat D H)
        → Ends (rw_block vol buffer mode block s)
    unfolding rw_block
    rw_block-Ends buffer mode none s = ends_fault
    rw_block-Ends buffer mode (some block) s = Ends-bind _ (get_mount-Ends s) (λ m t.
        Ends-bind _ (seek-Ends _ _ t) (λ r u. elim (Bool-cases (is_fail r)) [
          | inl failed ↦ rw failed ends_done
          | inr fine ↦ rw fine (rw_sectors-Ends mode _ _ 0 0 buffer u)
        ]))

    pub rw_cluster-Ends :
        (c : ℤ) (buffer : List ℕ) (mode : ℕ) (s : Fat D H) → Ends (rw_cluster vol c buffer mode s)
    unfolding rw_cluster
    rw_cluster-Ends c buffer mode s =
        elim (Bool-cases (not (mode == fat_read) && not (mode == fat_write))) [
          | inl neither ↦ rw neither ends_done
          | inr one ↦ rw one (Ends-bind _ (get_mount-Ends s) (λ m t. rw_block-Ends buffer mode _ t))
        ]
