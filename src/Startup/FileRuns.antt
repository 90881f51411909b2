-- ===== src/Startup/FileRuns.antt =====
-- A file of the FAT file system that is open in the virtual file system, read piece by piece.
use system_related_projects.Base.{ℕ, ◌≡◌, refl, inl, some, List, [], ◌∷◌, ◌++◌, take, drop, arith}
use system_related_projects.Base.Int.{ℤ, pos}
use system_related_projects.Base.Result.{pure, Returns, ◌>>=◌, Part}
use system_related_projects.Vfs.{Handle, MountPoint, Allocator, Vfs}
use system_related_projects.Vfs.Files.{read, seek, has_mode}
use system_related_projects.Vfs.Appending.{mount_data}
use system_related_projects.Fat.{FatFile, mounted}
use system_related_projects.Fat.Layout.{chain_bytes, cluster_bytes, block_bytes}
use system_related_projects.Fat.Table.{block_offset, cluster2block}
use system_related_projects.Fat.Samples.{
  Device, content, place, volume, keeps, mount_of, image, device, long_file, env, two_clusters,
}
use system_related_projects.Fat.Registering.{FatWorld, file_system}
use system_related_projects.Startup.Reading.{OpenFile}
use system_related_projects.Startup.Seeking.{seek-read-read}

-- Only the FAT file system; its mount is at address 7, and the file at address 9.
abbrev World : Type 0
World = FatWorld Device ℕ

abbrev whole : Part World World
whole = record { get = λ w. w; put = λ x w. x }

abbrev no_memory : Allocator World
no_memory = record { kmalloc = λ n w. (0, w); kfree = λ p w. w; fresh_word = λ w. 0 }

abbrev read_out : FatFile
read_out = record long_file { current_pos = 40 }

abbrev world : World
world = record {
  mounts = λ p. mounted (mount_of 1 []);
  files = λ a. some (7, read_out);
  dev = device;
}

abbrev point : MountPoint World
point = record {
  fs = file_system whole no_memory volume env;
  info = mount_data 7 [] 20 [] 30;
  next = 0;
}

abbrev state : Vfs World
state = record {
  filesystems = [];
  mounts = λ a. some point;
  mp_head = 5;
  mp_tail = 5;
  world = world;
}

abbrev handle : Handle
handle = record { address = 11; mount = 5; data_ptr = 9; mode = 1 }

abbrev AtFile : ℕ → Vfs World → Type 0
AtFile at =
    OpenFile whole (λ x v. refl) no_memory volume env content place keeps (mount_of 1 []) image
      (record { few = inl refl; cluster_sized = refl; nonempty = omega arith }) refl 2 (3 ∷ [])
      two_clusters handle at 40

opened : AtFile 40 state
unfolding has_mode
opened = record {
  point = point;
  point_ne = omega arith;
  holds = refl;
  driver = refl;
  reads = refl;
  file_ne = omega arith;
  fat = 7;
  file = read_out;
  stored = record { q_ne = omega arith; mount = refl; stored = refl; bytes = refl };
  position = refl;
  starts = refl;
  sized = refl;
  size_word = omega arith;
}

seek-read-read_example :
    Returns
      (λ (a : ℤ × ((ℤ × List ℕ) × (ℤ × List ℕ))) s'.
        (a.0 ≡ pos 0)
        × (a.1.0.0 ≡ pos 32)
        × (a.1.1.0 ≡ pos 8)
        × (a.1.0.1 ++ a.1.1.1 ≡ take 40 (drop 0 (chain_bytes (mount_of 1 []) image (2 ∷ 3 ∷ []))))
        × AtFile 40 s')
      ((do
        r ← seek (some handle) 0 0
        both ← (do x ← read (some handle) 32; y ← read (some handle) 8; pure (x, y))
        pure (r, both))
        state)
unfolding chain_bytes cluster_bytes block_bytes block_offset cluster2block
seek-read-read_example =
    seek-read-read whole (λ x v. refl) no_memory volume env content place keeps (mount_of 1 [])
      image (record { few = inl refl; cluster_sized = refl; nonempty = omega arith }) refl 2
      (3 ∷ []) two_clusters handle 0 1 8 state opened (omega arith) (omega arith) (omega arith)
      (omega arith) (omega arith)
