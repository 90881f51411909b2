-- ===== src/Fat/Moving.antt =====
-- The loops of fat_rw of fat.c, which come to their end on any chain of clusters.
use system_related_projects.Base.{
  ℕ, zero, suc, ◌+◌, ◌-◌, ◌*◌, ◌/◌, ◌%◌, ◌^◌, ◌≤◌, refl, ◌<◌, ◌≡◌, ◌⊎◌, true, false, not, ◌||◌,
  Option, none, some, List, ltb, ◌==◌, Bool-cases, inl, inr, arith,
}
use system_related_projects.Base.Int.{ℤ, is_fail}
use system_related_projects.Base.Result.{done, fault}
use system_related_projects.Fat.{FatFile, Volume, Env, Fat, w32, fat_write, fat_read}
use system_related_projects.Fat.Files.{
  extend, make_room, as_int, bytes_below, round_bytes, prepare, read_round, write_round, one_round,
  ends_chain, transfer, move_bytes, fat_rw,
}
use native.Mathlib.Nat.{mod-lt}
use system_related_projects.Fat.Ending.{
  Ends, ends_done, ends_fault, Ends-bind, overlay-Ends, slice-Ends, get_mount-Ends,
  get_fat_cluster-Ends, get_free_cluster-Ends, follow-Ends, set_fat_cluster-Ends, rw_cluster-Ends,
  Responds,
}

as_int-Ends : {S : Type 0} (n : ℕ) (s : S) → Ends (as_int n s)
unfolding as_int
as_int-Ends n s = elim (Bool-cases (ltb n (2 ^ 31))) [
  | inl fits ↦ rw fits ends_done
  | inr over ↦ rw over ends_fault
]

as_int-cases : {S : Type 0} (n : ℕ) (s : S) → (as_int n s ≡ done n s) ⊎ (as_int n s ≡ fault)
unfolding as_int
as_int-cases n s = elim (Bool-cases (ltb n (2 ^ 31))) [
  | inl fits ↦ inl (rw fits refl)
  | inr over ↦ inr (rw over refl)
]

bytes_below-lt :
    (cs bound offset size : ℕ)
    → offset < cs
    → cs ≤ bound
    → (size - bytes_below cs bound offset size ≡ 0)
      ⊎ (size - bytes_below cs bound offset size < size)
unfolding bytes_below
bytes_below-lt cs bound offset size inside above = ground arith

module _ {D H : Type 0} (vol : Volume D H) (responds : Responds vol) where
  extend-Ends : (n : ℕ) (prev : ℤ) (s : Fat D H) → Ends (extend vol n prev s)
  unfolding extend
  extend-Ends zero prev s = ends_done
  extend-Ends (suc n) prev s = Ends-bind _ (get_free_cluster-Ends s) (λ next t.
      elim (Bool-cases (is_fail next)) [
        | inl full ↦ rw full ends_done
        | inr free ↦ rw free (
            Ends-bind _ (set_fat_cluster-Ends vol responds prev _ false t)
              (λ _ u. extend-Ends n next u))
      ])

  make_room-Ends :
      (mode : ℕ) (file : FatFile) (cs : ℕ) (c : ℤ) (size : ℕ) (s : Fat D H)
      → Ends (make_room vol mode file cs c size s)
  unfolding make_room
  make_room-Ends mode file cs c size s =
      elim (Bool-cases (not (ltb file.entry.file_size ((file.current_pos + size) % w32)))) [
        | inl inside ↦ rw inside ends_done
        | inr beyond ↦ rw beyond (elim (Bool-cases (mode == fat_write)) [
          | inr reading ↦ rw reading ends_done
          | inl writing ↦ rw writing (
              Ends-bind _ (extend-Ends (size / cs + 1) c s) (λ last t.
                elim (Bool-cases (is_fail last)) [
                  | inl failed ↦ rw failed ends_done
                  | inr fine ↦ rw fine (
                      Ends-bind _ (set_fat_cluster-Ends vol responds last _ true t)
                        (λ _ u. ends_done))
                ]))
        ])
      ]

  prepare-Ends :
      (cs : ℕ) (c : ℤ) (offset bytes : ℕ) (b : List ℕ) (s : Fat D H)
      → Ends (prepare vol cs c offset bytes b s)
  unfolding prepare
  prepare-Ends cs c offset bytes b s = elim (Bool-cases (ltb 0 offset || ltb bytes cs)) [
    | inl part ↦ rw part (rw_cluster-Ends vol responds c b fat_read s)
    | inr all ↦ rw all (Ends-bind _ (overlay-Ends b 0 _ s) (λ b' t. ends_done))
  ]

  read_round-Ends :
      (c : ℤ) (offset bytes : ℕ) (b buffer : List ℕ) (at : ℕ) (s : Fat D H)
      → Ends (read_round vol c offset bytes b buffer at s)
  unfolding read_round
  read_round-Ends c offset bytes b buffer at s =
      Ends-bind _ (rw_cluster-Ends vol responds c b fat_read s) (λ r t.
        elim (Bool-cases (is_fail r.0)) [
          | inl failed ↦ rw failed ends_done
          | inr fine ↦ rw fine (
              Ends-bind _ (slice-Ends r.1 offset bytes t)
                (λ moved u. Ends-bind _ (overlay-Ends buffer at moved u) (λ b' v. ends_done)))
        ])

  write_round-Ends :
      (cs : ℕ) (c : ℤ) (offset bytes : ℕ) (b buffer : List ℕ) (at : ℕ) (s : Fat D H)
      → Ends (write_round vol cs c offset bytes b buffer at s)
  unfolding write_round
  write_round-Ends cs c offset bytes b buffer at s =
      Ends-bind _ (prepare-Ends cs c offset bytes b s) (λ r t. elim (Bool-cases (is_fail r.0)) [
        | inl failed ↦ rw failed ends_done
        | inr fine ↦ rw fine (
            Ends-bind _ (slice-Ends buffer at bytes t) (λ moved u.
              Ends-bind _ (overlay-Ends r.1 offset moved u) (λ new v.
                Ends-bind _ (rw_cluster-Ends vol responds c new fat_write v) (λ r' w. ends_done))))
      ])

  one_round-Ends :
      (mode cs : ℕ) (c : ℤ) (offset bytes : ℕ) (b buffer : List ℕ) (at : ℕ) (s : Fat D H)
      → Ends (one_round vol mode cs c offset bytes b buffer at s)
  unfolding one_round
  one_round-Ends mode cs c offset bytes b buffer at s = elim (Bool-cases (mode == fat_write)) [
    | inl writing ↦ rw writing (write_round-Ends cs c offset bytes b buffer at s)
    | inr reading ↦ rw reading (read_round-Ends c offset bytes b buffer at s)
  ]

  -- Every round that is not the last takes bytes away.
  transfer-Ends :
      (fuel mode cs position : ℕ) (c : ℤ) (offset size at : ℕ) (b buffer : List ℕ) (s : Fat D H)
      → offset < cs
      → size < fuel
      → Ends (transfer vol fuel mode cs position c offset size at b buffer s)
  unfolding transfer round_bytes
  transfer-Ends zero mode cs position c offset size at b buffer s inside enough =
      absurd (omega arith)
  transfer-Ends (suc fuel) mode cs position c offset size at b buffer s inside enough =
      let k = position / cs in
      let bound : cs ≤ (k + 1) * cs = omega arith in
      let bytes = bytes_below cs ((position / cs + 1) * cs) offset size in
      elim (as_int-cases ((position / cs + 1) * cs) s) [
        | inr over ↦ rw over ends_fault
        | inl fits ↦ rw fits (
            Ends-bind _ (one_round-Ends mode cs c offset bytes b buffer at s) (λ w t.
              elim (Bool-cases w.failed) [
                | inl failed ↦ rw failed ends_done
                | inr fine ↦ rw fine (
                    Ends-bind _ (as_int-Ends (at + bytes) t) (λ total u.
                      elim (Bool-cases (size - bytes == 0)) [
                        | inl over ↦ rw over ends_done
                        | inr left ↦ rw left (
                            Ends-bind _ (get_fat_cluster-Ends c u) (λ next v.
                              elim (Bool-cases (ends_chain next)) [
                                | inl last ↦ rw last ends_done
                                | inr more ↦ rw more (
                                    transfer-Ends fuel mode cs position next 0 (size - bytes) total
                                      _ _ v (omega arith)
                                      (let less =
                                          bytes_below-lt cs ((position / cs + 1) * cs) offset size
                                            inside bound in
                                        ground arith))
                              ]))
                      ]))
              ]))
      ]

  module _ (env : Env) where
    move_bytes-Ends :
        (mode cs : ℕ) (file : FatFile) (c : ℤ) (buffer : List ℕ) (room : Option ℕ) (s : Fat D H)
        → 1 ≤ cs
        → Ends (move_bytes vol env mode cs file c buffer room s)
    unfolding move_bytes
    move_bytes-Ends mode cs file c buffer none s whole = ends_done
    move_bytes-Ends mode cs file c buffer (some n) s whole =
        Ends-bind _
          (transfer-Ends (n + 1) mode cs file.current_pos c (file.current_pos % cs) n 0 _ buffer s
            (mod-lt file.current_pos whole) (omega arith))
          (λ r t. Ends-bind _ (as_int-Ends (file.current_pos + r.0) t) (λ p u. ends_done))

    -- fat_rw does not run for ever, reading or writing, for every file, position, size and table, a
    -- table with a cycle included: it never uses up the fuel of its loop, and either returns or stops
    -- at something that C leaves undefined, such as an access outside a buffer or an int that
    -- overflows. The condition is that the operations of the device end in one of these ways.
    pub fat_rw-Ends :
        (file : Option FatFile) (buffer : List ℕ) (size mode : ℕ) (s : Fat D H)
        → Ends (fat_rw vol env file buffer size mode s)
    unfolding fat_rw
    fat_rw-Ends none buffer size mode s = ends_done
    fat_rw-Ends (some file) buffer size mode s = Ends-bind _ (get_mount-Ends s) (λ m t.
        elim (Bool-cases (m.cluster_size == 0)) [
          | inl empty ↦ rw empty ends_fault
          | inr whole ↦ rw whole (
              Ends-bind _ (follow-Ends _ _ t) (λ c u. elim (Bool-cases (is_fail c)) [
                | inl failed ↦ rw failed ends_done
                | inr fine ↦ rw fine (
                    Ends-bind _ (make_room-Ends mode file m.cluster_size c size u) (λ room v.
                      move_bytes-Ends mode m.cluster_size file c buffer room v (ground arith)))
              ]))
        ])
