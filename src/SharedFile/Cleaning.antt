-- ===== src/SharedFile/Cleaning.antt =====
-- What a received tree is after `remove_invalid_files` and `reset_file_size_string`.
use transmitic_core.Common.{true, false, ◌≡◌, refl, ◌∙◌, ap, ap₂, Bool-cases, inl, inr}
use transmitic_core.Paths.{file_contains_only_valid_chars}
use transmitic_core.SharedFile.{
  SharedFile, Files, shared_file, nil, cons, path, is_directory, file_size, size_string, SizeFormat,
  get_file_size_string, set_file_size_string, reset_file_size_string, reset_files,
  remove_invalid_files, remove_invalid_all,
}

-- The path is accepted.
abbrev pub IsValidPath : SharedFile → Type 0
IsValidPath f = file_contains_only_valid_chars (path f) ≡ true

-- Everything that directories lead to satisfies `P`; what a file that is no directory holds is
-- left out, and so is the root.
module _ (P : SharedFile → Type 0) where
  unfoldable mutual
    pub Inside : SharedFile → Type 0
    Inside (shared_file p d fs size string) = elim d [ true ↦ InsideAll fs | false ↦ Unit ]

    pub InsideAll : Files → Type 0
    InsideAll nil = Unit
    InsideAll (cons f fs) = P f × Inside f × InsideAll fs

-- The size is printed as `get_file_size_string` prints it.
abbrev pub IsPrinted : SizeFormat → SharedFile → Type 0
IsPrinted format f = size_string f ≡ get_file_size_string format (file_size f)

path_remove : (f : SharedFile) → path (remove_invalid_files f) ≡ path f
unfolding remove_invalid_files
path_remove (shared_file p true fs size string) = refl
path_remove (shared_file p false fs size string) = refl

mutual
  unfolding remove_invalid_files Inside

  removed : (f : SharedFile) → Inside IsValidPath (remove_invalid_files f)
  removed (shared_file p true fs size string) = removed_all fs
  removed (shared_file p false fs size string) = tt

  removed_all : (fs : Files) → InsideAll IsValidPath (remove_invalid_all fs)
  removed_all nil = tt
  removed_all (cons f fs) = elim (Bool-cases (file_contains_only_valid_chars (path f))) [
    | inl good ↦
        rw good
          (ap file_contains_only_valid_chars (path_remove f) ∙ good, removed f, removed_all fs)
    | inr bad ↦ rw bad (removed_all fs)
  ]

mutual
  unfolding remove_invalid_files Inside

  unchanged : (f : SharedFile) → Inside IsValidPath f → remove_invalid_files f ≡ f
  unchanged (shared_file p true fs size string) h =
      ap (λ gs. shared_file p true gs size string) (unchanged_all fs h)
  unchanged (shared_file p false fs size string) h = refl

  unchanged_all : (fs : Files) → InsideAll IsValidPath fs → remove_invalid_all fs ≡ fs
  unchanged_all nil h = refl
  unchanged_all (cons f fs) h = rw h.0 (ap₂ cons (unchanged f h.1) (unchanged_all fs h.2))

printed : (format : SizeFormat) (f : SharedFile) → IsPrinted format (set_file_size_string format f)
unfolding set_file_size_string
printed format (shared_file p d fs size string) = refl

Inside-printed :
    (format : SizeFormat) (P : SharedFile → Type 0) (f : SharedFile)
    → Inside P f
    → Inside P (set_file_size_string format f)
unfolding set_file_size_string Inside
Inside-printed format P (shared_file p true fs size string) h = h
Inside-printed format P (shared_file p false fs size string) h = tt

file_Inside : (P : SharedFile → Type 0) (f : SharedFile) → is_directory f ≡ false → Inside P f
unfolding Inside
file_Inside P (shared_file p true fs size string) h = cc
file_Inside P (shared_file p false fs size string) h = tt

mutual
  unfolding reset_file_size_string Inside

  reset :
      (format : SizeFormat) (f : SharedFile)
      → Inside (IsPrinted format) (reset_file_size_string format f)
  reset format (shared_file p true fs size string) = reset_all format fs
  reset format (shared_file p false fs size string) = tt

  reset_all :
      (format : SizeFormat) (fs : Files) → InsideAll (IsPrinted format) (reset_files format fs)
  reset_all format nil = tt
  reset_all format (cons f fs) = elim (Bool-cases (is_directory f)) [
    | inl dir ↦ rw dir (
      printed format (reset_file_size_string format f),
      Inside-printed format (IsPrinted format) (reset_file_size_string format f) (reset format f),
      reset_all format fs,
    )
    | inr no_dir ↦ rw no_dir (
      printed format f,
      Inside-printed format (IsPrinted format) f (file_Inside (IsPrinted format) f no_dir),
      reset_all format fs,
    )
  ]

-- `remove_invalid_files` leaves no entry with a refused path below the root wherever
-- directories lead, and it changes nothing in a tree that has none.
pub remove_invalid_files-Inside :
    (f : SharedFile)
    → Inside IsValidPath (remove_invalid_files f)
      × (Inside IsValidPath f → remove_invalid_files f ≡ f)
remove_invalid_files-Inside f = (removed f, unchanged f)

-- After `reset_file_size_string` the root and every entry that directories lead to carry their
-- own size as `get_file_size_string` prints it, whatever text they came with.
pub reset_file_size_string-IsPrinted :
    (format : SizeFormat) (f : SharedFile)
    → IsPrinted format (reset_file_size_string format f)
      × Inside (IsPrinted format) (reset_file_size_string format f)
unfolding reset_file_size_string Inside
reset_file_size_string-IsPrinted format (shared_file p true fs size string) =
    (refl, reset format (shared_file p true fs size string))
reset_file_size_string-IsPrinted format (shared_file p false fs size string) = (refl, tt)
