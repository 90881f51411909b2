-- ===== src/Fat/Tests.antt =====
-- Runs and instances of the FAT file system on the sample volume.
use system_related_projects.Base.{
  ◌+◌, ◌≡◌, refl, inl, false, some, [], ◌∷◌, ◌++◌, take, drop, replicate, arith,
}
use system_related_projects.Base.Int.{pos, success}
use system_related_projects.Base.Result.{done, fault, Returns, returns, ◌>>=◌, ◌>>◌}
use system_related_projects.Fat.{
  on_mount, fat_read, fat_write, fat_12, fat_16, splice, encode_entry,
}
use system_related_projects.Fat.Table.{
  cluster2block, block_offset, rw_cluster, table_entry, table_reach, get_free_cluster,
  get_fat_cluster, set_fat_cluster,
}
use system_related_projects.Fat.Free.{Covers, FirstFree, get_free_cluster-FirstFree}
use system_related_projects.Fat.Reading.{Left}
use system_related_projects.Fat.Packing.{
  Fits, fits_nil, fits_cons, pack12, entry12, table_entry-pack12, get_fat_cluster-set_fat_cluster,
}
use system_related_projects.Fat.Encoding.{Sized}
use system_related_projects.Fat.Splice.{every_nil, every_cons}
use system_related_projects.Fat.Listing.{listed, list_dir}
use system_related_projects.Fat.Directory.{lay_out, shown, is_shown, list_dir-lay_out}
use system_related_projects.Fat.Names.{set_file_name, compare_name}
use system_related_projects.Fat.Naming.{compare_name-set_file_name}
use system_related_projects.Fat.Files.{fat_rw, read_file}
use system_related_projects.Fat.Layout.{chain_bytes, cluster_bytes, block_bytes}
use system_related_projects.Fat.Chains.{read_file-chain_bytes}
use system_related_projects.Fat.Sectors.{rw_cluster-past_buffer}
use system_related_projects.Fat.Writing.{
  Stores, At, start_of, stored_file, update_file_entry-encode_entry,
}
use system_related_projects.Fat.Paths.{update_file_entry}
use system_related_projects.Fat.Ending.{Ends, ends_done, Responds}
use system_related_projects.Fat.Moving.{fat_rw-Ends}
use system_related_projects.Fat.Samples.{
  content, place, volume, keeps, sector, table, mount_of, image, device, block_lem, empty_file,
  last_entry, upper, a_file, long_file, env, two_clusters,
}

covers : Covers (mount_of 1 []) 5
unfolding table_reach
covers = record { known = refl; reach = λ c h. omega arith }

get_free_cluster-FirstFree_example :
    Returns
      (λ r t. (t ≡ on_mount (mount_of 1 []) device) × FirstFree (table_entry fat_16 table) 5 r)
      (get_free_cluster (on_mount (mount_of 1 []) device))
get_free_cluster-FirstFree_example = get_free_cluster-FirstFree (mount_of 1 []) device covers

four_entries : Fits ((0xff8, 0xfff) ∷ (3, 0xfff) ∷ [])
four_entries =
    fits_cons (omega arith) (omega arith) (fits_cons (omega arith) (omega arith) fits_nil)

table_entry-pack12_example :
    table_entry fat_12 (0xf8 ∷ 0xff ∷ 0xff ∷ 3 ∷ 0xf0 ∷ 0xff ∷ []) 2 ≡ pos 3
unfolding pack12 entry12
table_entry-pack12_example = table_entry-pack12 four_entries 2

get_fat_cluster-set_fat_cluster_example :
    Returns
      (λ r t. r ≡ table_entry fat_16 table 2)
      ((set_fat_cluster volume (pos 2) 4 false >> get_fat_cluster (pos 2))
        (on_mount (mount_of 1 []) device))
unfolding table_reach
get_fat_cluster-set_fat_cluster_example =
    get_fat_cluster-set_fat_cluster volume (mount_of 1 []) device (inl refl) 2 4 (omega arith)
      (omega arith)

empty_file-Sized : Sized empty_file
empty_file-Sized = record {
  name_sized = refl;
  extension_sized = refl;
  reserved_sized = refl;
  time_fits = omega arith;
  date_fits = omega arith;
  cluster_fits = omega arith;
  size_fits = omega arith;
}

last_entry-Sized : Sized last_entry
last_entry-Sized = record {
  name_sized = refl;
  extension_sized = refl;
  reserved_sized = refl;
  time_fits = omega arith;
  date_fits = omega arith;
  cluster_fits = omega arith;
  size_fits = omega arith;
}

list_dir-lay_out_example :
    list_dir (λ b. b + 32) (encode_entry empty_file ++ (encode_entry last_entry ++ [])) device
    ≡ done (listed (λ b. b + 32) empty_file ∷ []) device
unfolding lay_out shown is_shown
list_dir-lay_out_example =
    list_dir-lay_out (λ b. b + 32) (empty_file ∷ []) last_entry [] device
      (every_cons (record { sized = empty_file-Sized; started = refl }) every_nil) last_entry-Sized
      refl (omega arith)

compare_name-set_file_name_example :
    (set_file_name upper a_file (98 ∷ 99 ∷ 0 ∷ [])
        >>= (λ stored. compare_name upper stored.1.entry (98 ∷ 99 ∷ 0 ∷ [])))
      device
    ≡ done (success, 66 ∷ 67 ∷ 0 ∷ []) device
compare_name-set_file_name_example =
    compare_name-set_file_name upper (98 ∷ 99 ∷ []) [] device a_file
      (every_cons (omega arith) (every_cons (omega arith) every_nil))
      (every_cons
        (record {
          not_nul = omega arith;
          not_dot = omega arith;
          not_pad = omega arith;
          ascii = omega arith;
        })
        (every_cons
          (record {
            not_nul = omega arith;
            not_dot = omega arith;
            not_pad = omega arith;
            ascii = omega arith;
          })
          every_nil))
      (omega arith)

read_file-chain_bytes_example :
    Returns
      (λ r t.
        (r ≡ (
          pos 8,
          splice
              (replicate 8 0)
              0
              (take 8 (drop 32 (chain_bytes (mount_of 1 []) image (2 ∷ 3 ∷ [])))),
          some (record long_file { current_pos = 40 }),
        ))
        × Left volume content place keeps (mount_of 1 []) (λ _. Unit {0}) device t)
      (read_file volume env (some long_file) (replicate 8 0) 8 (on_mount (mount_of 1 []) device))
unfolding chain_bytes cluster_bytes block_bytes block_offset cluster2block
read_file-chain_bytes_example =
    read_file-chain_bytes volume content place keeps (mount_of 1 []) image
      (record { few = inl refl; cluster_sized = refl; nonempty = omega arith }) env long_file 1 8
      (replicate 8 0) device two_clusters refl refl (omega arith) refl (omega arith) (omega arith)
      (omega arith) (omega arith) (omega arith) (omega arith)

wide_block_lem : cluster2block (sector 3) (pos 1) ≡ some 2
unfolding cluster2block
wide_block_lem = refl

rw_cluster-past_buffer_example :
    rw_cluster volume (pos 1) (replicate 96 0) fat_read (on_mount (mount_of 3 []) device) ≡ fault
unfolding block_offset
rw_cluster-past_buffer_example =
    rw_cluster-past_buffer volume content place keeps (mount_of 3 []) 1 2 0 (replicate 96 0) device
      wide_block_lem (omega arith) refl refl (omega arith)

responds : Responds volume
responds = record {
  seeks = λ h offset origin d. ends_done;
  reads = λ h n d. ends_done;
  writes = λ h bytes d. ends_done;
}

fat_rw-Ends_example : Ends (
    fat_rw volume env
      (some long_file)
      (replicate 60 5)
      60
      fat_write
      (on_mount (mount_of 1 []) device))
fat_rw-Ends_example =
    fat_rw-Ends volume responds env (some long_file) (replicate 60 5) 60 fat_write
      (on_mount (mount_of 1 []) device)

stores : Stores volume content place
stores = record { writes = λ h bytes d within. returns (refl, refl, refl) }

update_file_entry-encode_entry_example :
    Returns
      (λ r t.
        (r ≡ (
          success,
          stored_file volume content place keeps stores
              (mount_of 1 [])
              2
              1
              block_lem
              (inl refl)
              empty_file
              0
              0,
        ))
        × At volume content place keeps stores
            (mount_of 1 [])
            (λ d.
              content d
              ≡ splice image 33 (splice (take 32 (drop 33 image)) 0 (encode_entry empty_file)))
            t)
      (update_file_entry volume env
        (stored_file volume content place keeps stores
          (mount_of 1 [])
          2
          1
          block_lem
          (inl refl)
          empty_file
          0
          0)
        (on_mount (mount_of 1 []) device))
unfolding start_of block_offset
update_file_entry-encode_entry_example =
    update_file_entry-encode_entry volume content place keeps stores (mount_of 1 []) 2 1 block_lem
      (inl refl) env empty_file 0 0 device empty_file-Sized refl refl (omega arith) (omega arith)
