-- ===== src/Config/Edits.antt =====
-- The loops over users and files in the operations of src/config.rs.
use transmitic_core.Common.{
  Bool, not, Option, none, some, List, [], ◌∷◌, ◌++◌, if◌then◌else◌, text_eq,
}
use transmitic_core.Config.{Text, ConfigSharedFile, SharedUser}
use transmitic_core.Config.Sanitize.{without_scheme}
use transmitic_core.Config.Verify.{contains_name}

-- `retain`
unfoldable pub retain : {A : Type 0} → (A → Bool) → List A → List A
retain keep [] = []
retain keep (x ∷ xs) = let rest = retain keep xs in if keep x then x ∷ rest else rest

unfoldable pub paths : List ConfigSharedFile → List Text
paths [] = []
paths (file ∷ files) = file.path ∷ paths files

-- The loop of `add_files`; `existing` are the paths from before it.
unfoldable pub add_all : List Text → List Text → List ConfigSharedFile → List ConfigSharedFile
add_all existing [] shared_files = shared_files
add_all existing (file ∷ files) shared_files =
    let path = without_scheme file in
    add_all existing files (
      if contains_name existing path
      then shared_files
      else shared_files ++ (record { path = path; shared_with = [] } ∷ []))

-- The first user of the nickname, changed.
unfoldable pub change_user :
    (SharedUser → SharedUser) → Text → List SharedUser → Option (List SharedUser)
change_user change nickname [] = none
change_user change nickname (user ∷ users) =
    let rest = change_user change nickname users in
    if text_eq user.nickname nickname
    then some (change user ∷ users)
    else (elim rest [ none ↦ none | some users' ↦ some (user ∷ users') ])

-- The first file of the path with the user added; `some none` where the user is there already.
unfoldable pub share : Text → Text → List ConfigSharedFile → Option (Option (List ConfigSharedFile))
share nickname file_path [] = none
share nickname file_path (file ∷ files) =
    let rest = share nickname file_path files in
    if text_eq file.path file_path
    then (if contains_name file.shared_with nickname
        then some none
        else some
            (some (record file { shared_with = file.shared_with ++ (nickname ∷ []) } ∷ files)))
    else (elim rest [
      | none ↦ none
      | some none ↦ some none
      | some (some files') ↦ some (some (file ∷ files'))
    ])

-- A file less one of those that it is shared with.
unfoldable pub unshare : Text → ConfigSharedFile → ConfigSharedFile
unshare nickname file = record file {
  shared_with = retain (λ x. not (text_eq x nickname)) file.shared_with;
}
