-- ===== src/SharedFile.antt =====
-- The tree of shared files: src/shared_file.rs, and the search of src/utils.rs. How a size is
-- printed with `f64` is a parameter: `whole` prints `{}` of the size, and `rounded` prints
-- `{:.2}` of the size over the divisor.
pub mod Search
pub mod Cleaning
mod Tests
use transmitic_core.Common.{
  ℕ, ◌+◌, Bool, true, false, List, [], ◌∷◌, ◌++◌, Option, none, some, leb, if◌then◌else◌, text_eq,
}
use transmitic_core.Paths.{file_contains_only_valid_chars}

mutual
  pub data SharedFile : Type 0 where
    shared_file : List ℕ → Bool → Files → ℕ → List ℕ → SharedFile

  -- `Vec<SharedFile>`
  pub data Files : Type 0 where
    nil : Files
    cons : SharedFile → Files → Files

abbrev pub path : SharedFile → List ℕ
path (shared_file p d fs size string) = p

abbrev pub is_directory : SharedFile → Bool
is_directory (shared_file p d fs size string) = d

abbrev pub files : SharedFile → Files
files (shared_file p d fs size string) = fs

abbrev pub file_size : SharedFile → ℕ
file_size (shared_file p d fs size string) = size

abbrev pub size_string : SharedFile → List ℕ
size_string (shared_file p d fs size string) = string

-- Depth first, the file itself before its files, whether it is a directory or not.
unfoldable mutual
  pub get_file_by_path : List ℕ → SharedFile → Option SharedFile
  get_file_by_path file_choice (shared_file p d fs size string) = elim (text_eq p file_choice) [
    | true ↦ some (shared_file p d fs size string)
    | false ↦ search_files file_choice fs
  ]

  pub search_files : List ℕ → Files → Option SharedFile
  search_files file_choice nil = none
  search_files file_choice (cons f fs) = elim (get_file_by_path file_choice f) [
    | some found ↦ some found
    | none ↦ search_files file_choice fs
  ]

pub record SizeFormat : Type 0 where
  pub whole : ℕ → List ℕ
  pub rounded : ℕ → ℕ → List ℕ

abbrev pub tb : ℕ
tb = 1_099_511_627_776

abbrev pub gig : ℕ
gig = 1_073_741_824

abbrev pub meg : ℕ
meg = 1_048_576

abbrev pub kb : ℕ
kb = 1024

module _ (format : SizeFormat) where
  open format use {whole, rounded}

  unfoldable pub get_file_size_string : ℕ → List ℕ
  get_file_size_string bytes =
      if leb tb bytes
      then rounded bytes tb ++ (b' ' ∷ b'T' ∷ b'B' ∷ [])
      else if leb gig bytes
      then rounded bytes gig ++ (b' ' ∷ b'G' ∷ b'B' ∷ [])
      else if leb meg bytes
      then rounded bytes meg ++ (b' ' ∷ b'M' ∷ b'B' ∷ [])
      else if leb kb bytes
      then rounded bytes kb ++ (b' ' ∷ b'K' ∷ b'B' ∷ [])
      else whole bytes ++ (b' ' ∷ b'b' ∷ b'y' ∷ b't' ∷ b'e' ∷ b's' ∷ [])

  -- `SharedFile::new`
  unfoldable pub new : List ℕ → Bool → Files → ℕ → SharedFile
  new p d fs size = shared_file p d fs size (get_file_size_string size)

  unfoldable pub set_file_size_string : SharedFile → SharedFile
  set_file_size_string (shared_file p d fs size string) =
      shared_file p d fs size (get_file_size_string size)

  unfoldable mutual
    pub reset_file_size_string : SharedFile → SharedFile
    reset_file_size_string (shared_file p d fs size string) = elim d [
      | true ↦ shared_file p true (reset_files fs) size (get_file_size_string size)
      | false ↦ shared_file p false fs size (get_file_size_string size)
    ]

    -- The loop over the files of a directory.
    pub reset_files : Files → Files
    reset_files nil = nil
    reset_files (cons f fs) =
        cons (set_file_size_string (if is_directory f then reset_file_size_string f else f))
          (reset_files fs)

unfoldable mutual
  pub remove_invalid_files : SharedFile → SharedFile
  remove_invalid_files (shared_file p d fs size string) = elim d [
    | true ↦ shared_file p true (remove_invalid_all fs) size string
    | false ↦ shared_file p false fs size string
  ]

  -- `retain`, and then the loop over what is left. The two passes are one here, since the test
  -- reads only the path, which the loop does not change.
  pub remove_invalid_all : Files → Files
  remove_invalid_all nil = nil
  remove_invalid_all (cons f fs) =
      let rest = remove_invalid_all fs in
      if file_contains_only_valid_chars (path f) then cons (remove_invalid_files f) rest else rest
