-- ===== src/SharedFile/Search.antt =====
-- `get_file_by_path` of src/utils.rs against a search of the list of all files.
use transmitic_core.Common.{
  ℕ, ◌≡◌, refl, List, [], ◌∷◌, ◌++◌, Option, none, some, text_eq, arith, if◌then◌else◌,
}
use transmitic_core.SharedFile.{
  SharedFile, Files, shared_file, nil, cons, path, get_file_by_path, search_files,
}

-- All files of a tree, each before what it holds.
unfoldable mutual
  pub preorder : SharedFile → List SharedFile
  preorder (shared_file p d fs size string) = shared_file p d fs size string ∷ preorder_files fs

  pub preorder_files : Files → List SharedFile
  preorder_files nil = []
  preorder_files (cons f fs) = preorder f ++ preorder_files fs

-- The first file of a list that has the path.
unfoldable pub first_at : List ℕ → List SharedFile → Option SharedFile
first_at choice [] = none
first_at choice (f ∷ fs) = if text_eq (path f) choice then some f else first_at choice fs

first_at-append :
    (choice : List ℕ) (xs ys : List SharedFile)
    → first_at choice (xs ++ ys)
      ≡ (elim (first_at choice xs) [ some f ↦ some f | none ↦ first_at choice ys ])
unfolding first_at
first_at-append choice [] ys = refl
first_at-append choice (x ∷ xs) ys = ground (arith, first_at-append choice xs ys)

mutual
  unfolding get_file_by_path preorder first_at

  file_lem :
      (choice : List ℕ) (f : SharedFile) → get_file_by_path choice f ≡ first_at choice (preorder f)
  file_lem choice (shared_file p d fs size string) = ground (arith, files_lem choice fs)

  files_lem :
      (choice : List ℕ) (fs : Files) → search_files choice fs ≡ first_at choice (preorder_files fs)
  files_lem choice nil = refl
  files_lem choice (cons f fs) = ground (
    arith,
    file_lem choice f,
    files_lem choice fs,
    first_at-append choice (preorder f) (preorder_files fs),
  )

-- `get_file_by_path` returns the first file with the chosen path among all files of the tree,
-- each taken before those it holds, and nothing if no file has that path.
pub get_file_by_path-first_at :
    (choice : List ℕ) (f : SharedFile) → get_file_by_path choice f ≡ first_at choice (preorder f)
get_file_by_path-first_at choice f = file_lem choice f
