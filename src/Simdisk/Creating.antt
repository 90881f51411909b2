-- ===== src/Simdisk/Creating.antt =====
-- Creating a file: my_creat cuts a path in two.
use system_related_projects.Base.{
  ℕ, ◌+◌, ◌-◌, ◌<◌, ◌≡◌, ◌≢◌, refl, true, some, [], ◌∷◌, length, arith, ltb, ==-false, Option, none,
}
use system_related_projects.Base.Result.{fault}
use system_related_projects.Vfs.{Str}
use system_related_projects.Simdisk.{Sys}
use system_related_projects.Simdisk.Finding.{Session, Junk, slash, find}
use system_related_projects.Simdisk.Files.{last_slash, cut_path, my_creat}

-- No character is a slash.
abbrev pub NoSlash : Str → Type 0
NoSlash [] = Unit {0}
NoSlash (c ∷ cs) = (c ≢ slash) × NoSlash cs

last_slash-none : (name : Str) (i : ℕ) (div : Option ℕ) → NoSlash name → last_slash name i div ≡ div
unfolding last_slash
last_slash-none [] i div h = refl
last_slash-none (c ∷ cs) i div h = rw (==-false h.0) (last_slash-none cs (i + 1) div h.1)

module _ {F : Type 0} (sys : Sys F) (junk : Junk) (s : Session F) where
  -- A file in the root directory, or one whose path has no slash, cannot be created: my_creat of "/"
  -- and a name of fewer than 50 characters looks for the empty path and reads the character in front
  -- of it, and of a name without a slash it uses a variable that is not set.
  pub my_creat-fault :
      (name : Str)
      → NoSlash name
      → length name < 50
      → (my_creat sys junk (slash ∷ name) s ≡ fault) × (my_creat sys junk name s ≡ fault)
  unfolding my_creat cut_path last_slash find
  my_creat-fault name plain short =
      let none_at = last_slash-none name 0 none plain in
      let first_at = last_slash-none name 1 (some 0) plain in
      let fits : ltb (length (slash ∷ name) - 0 - 1) 50 ≡ true = ground arith in
      (rw (first_at, cut_path) (rw fits refl), rw (none_at, cut_path) refl)
