-- ===== src/SharedFile/Tests.antt =====
-- The theorems about src/shared_file.rs and the search of src/utils.rs, at a small tree.
use transmitic_core.Common.{◌≡◌, true, false, [], ◌∷◌}
use transmitic_core.SharedFile.{
  SharedFile, shared_file, nil, cons, SizeFormat, get_file_by_path, remove_invalid_files,
  reset_file_size_string,
}
use transmitic_core.SharedFile.Search.{preorder, first_at, get_file_by_path-first_at}
use transmitic_core.SharedFile.Cleaning.{
  IsValidPath, IsPrinted, Inside, remove_invalid_files-Inside, reset_file_size_string-IsPrinted,
}

-- A directory with a good path in it and a bad one.
abbrev tree : SharedFile
tree =
    shared_file (b'a' ∷ []) true
      (cons (shared_file (b'a' ∷ b'/' ∷ b'b' ∷ []) false nil 5 [])
        (cons (shared_file (b'a' ∷ b'/' ∷ b'?' ∷ []) false nil 2048 (b'x' ∷ [])) nil))
      0 []

-- Sizes in unary.
abbrev format : SizeFormat
format = record { whole = λ n. n ∷ []; rounded = λ n d. n ∷ d ∷ [] }

get_file_by_path-first_at_example :
    get_file_by_path (b'a' ∷ b'/' ∷ b'b' ∷ []) tree
    ≡ first_at (b'a' ∷ b'/' ∷ b'b' ∷ []) (preorder tree)
get_file_by_path-first_at_example = get_file_by_path-first_at (b'a' ∷ b'/' ∷ b'b' ∷ []) tree

remove_invalid_files-Inside_example :
    Inside IsValidPath (remove_invalid_files tree)
    × (Inside IsValidPath tree → remove_invalid_files tree ≡ tree)
remove_invalid_files-Inside_example = remove_invalid_files-Inside tree

reset_file_size_string-IsPrinted_example :
    IsPrinted format (reset_file_size_string format tree)
    × Inside (IsPrinted format) (reset_file_size_string format tree)
reset_file_size_string-IsPrinted_example = reset_file_size_string-IsPrinted format tree
