-- ===== src/Config/Sanitize.antt =====
-- `sanitize_config` of src/config.rs, in a build for unix. Texts are ordered by their bytes, and
-- the sorts are stable.
use transmitic_core.Common.{
  Bool, true, false, Option, none, some, List, [], ◌∷◌, map, ltb, ◌==◌, if◌then◌else◌,
}
use transmitic_core.Config.{Text, ConfigFile, ConfigSharedFile, SharedUser, Outside}
use transmitic_core.Config.Texts.{file_scheme}

-- The text behind a prefix, if it has the prefix.
unfoldable pub strip_prefix : Text → Text → Option Text
strip_prefix [] s = some s
strip_prefix (c ∷ prefix) [] = none
strip_prefix (c ∷ prefix) (d ∷ s) =
    let rest = strip_prefix prefix s in if c == d then rest else none

unfoldable pub starts_with : Text → Text → Bool
starts_with s prefix = elim (strip_prefix prefix s) [ some rest ↦ true | none ↦ false ]

unfoldable pub without_scheme : Text → Text
without_scheme path = elim (strip_prefix file_scheme path) [ some rest ↦ rest | none ↦ path ]

unfoldable pub text_lt : Text → Text → Bool
text_lt [] [] = false
text_lt [] (d ∷ t) = true
text_lt (c ∷ s) [] = false
text_lt (c ∷ s) (d ∷ t) = let rest = text_lt s t in if c == d then rest else ltb c d

module _ {A : Type 0} (key : A → Text) where
  -- In front of the first element that is not less, so that equal ones keep their order.
  unfoldable pub insert_by_key : A → List A → List A
  insert_by_key a [] = a ∷ []
  insert_by_key a (x ∷ xs) =
      let rest = insert_by_key a xs in if text_lt (key x) (key a) then x ∷ rest else a ∷ x ∷ xs

  unfoldable pub sort_by_key : List A → List A
  sort_by_key [] = []
  sort_by_key (x ∷ xs) = insert_by_key x (sort_by_key xs)

module _ {Disk : Type 0} (outside : Outside Disk) where
  open outside use {trim}

  unfoldable pub sanitize_user : SharedUser → SharedUser
  sanitize_user user = record user {
    nickname = trim user.nickname;
    public_id = trim user.public_id;
    ip = trim user.ip;
    port = trim user.port;
  }

  unfoldable pub sanitize_file : ConfigSharedFile → ConfigSharedFile
  sanitize_file file = record {
    path = without_scheme (trim file.path);
    shared_with = sort_by_key (λ x. x) (map trim file.shared_with);
  }

  unfoldable pub sanitize_config : ConfigFile → ConfigFile
  sanitize_config c = record c {
    my_private_id = trim c.my_private_id;
    sharing_port = trim c.sharing_port;
    path_downloads = trim c.path_downloads;
    shared_users = map sanitize_user (sort_by_key (λ user. user.nickname) c.shared_users);
    shared_files = map sanitize_file c.shared_files;
  }
