-- ===== src/Config/Verified.antt =====
-- `verify_config` of src/config.rs as a whole, against what a consistent file is.
use transmitic_core.Common.{
  ◌≢◌, ◌⊎◌, inl, inr, refl, Bool, ◌++◌, ℕ, ◌≡◌, sym, subst, true, false, not, ◌&&◌, List, [], ◌∷◌,
  All, ltb, text_eq_refl, ok, ok_or, arith,
}
use transmitic_core.Base64
use transmitic_core.Paths.{file_contains_only_valid_chars}
use transmitic_core.Config.{Text, ConfigFile, ConfigSharedFile, SharedUser, ConfigError, Outside}
use transmitic_core.Config.Sanitize.{sanitize_config}
use transmitic_core.Config.Verify.{
  refuse_if, verify_config_port, count, for_each, verify_ignore_and_reverse, contains_name,
  nicknames, get_bytes_from_base64_str, verify_config_my_private_id, same_nickname, same_public_id,
  verify_unique, verify_user, verify_config_shared_users, same_path, verify_file_unique,
  verify_file_users, verify_file_path, verify_config_shared_files, verify_config,
}
use transmitic_core.Paths.Valid.{IsAccepted, file_contains_only_valid_chars_iff}
use transmitic_core.Config.Parts.{then-ok, bind-ok, ok_or-ok, refuse_if-ok, for_each-All, not-false}
use transmitic_core.Config.Ports.{verify_config_port-IsPort}
use transmitic_core.Config.Prefixes.{not-starts_with}
use transmitic_core.Config.Distinct.{Differ, Distinct-Differ, counted_once-Distinct}
use transmitic_core.Config.Consistent.{
  In, names_of, nicknames-names_of, contains_name-In, IsGoodUser, IsGoodFile, IsConsistent,
  get_bytes-ok, verify_user-IsGoodUser,
}

module _ {Disk : Type 0} (outside : Outside Disk) where
  open outside use {debug, to_lowercase, from_pkcs8, get_path_transmitic_config_dir}

  users-Differ :
      (users : List SharedUser)
      → for_each (verify_unique outside users) users ≡ ok tt
      → Differ (λ user. to_lowercase user.nickname) users × Differ (λ user. user.public_id) users
  unfolding verify_unique
  users-Differ users e = (
    Distinct-Differ (λ user. to_lowercase user.nickname) users
        (counted_once-Distinct (same_nickname outside) users users
          (λ user. text_eq_refl (to_lowercase user.nickname)) (λ p. omega arith)
          (for_each-All (verify_unique outside users)
            (λ user. ltb 1 (count (same_nickname outside user) users) ≡ false)
            (λ user passed. refuse_if-ok _ _ ((then-ok _ _ tt passed).0)) users e)),
    Distinct-Differ (λ user. user.public_id) users
        (counted_once-Distinct (same_public_id outside) users users
          (λ user. text_eq_refl user.public_id) (λ p. omega arith)
          (for_each-All (verify_unique outside users)
            (λ user. ltb 1 (count (same_public_id outside user) users) ≡ false)
            (λ user passed. refuse_if-ok _ _ ((then-ok _ _ tt passed).1)) users e)),
  )

  files-Differ :
      (files : List ConfigSharedFile)
      → for_each (verify_file_unique outside files) files ≡ ok tt
      → Differ (λ file. file.path) files
  unfolding verify_file_unique
  files-Differ files e =
      Distinct-Differ (λ file. file.path) files
        (counted_once-Distinct (same_path outside) files files (λ file. text_eq_refl file.path)
          (λ p. omega arith)
          (for_each-All (verify_file_unique outside files)
            (λ file. ltb 1 (count (same_path outside file) files) ≡ false)
            (λ file passed. refuse_if-ok _ _ passed) files e))

  file_users-In :
      (names : List Text) (file : ConfigSharedFile)
      → verify_file_users outside names file ≡ ok tt
      → All (λ name. In name names) file.shared_with
  unfolding verify_file_users
  file_users-In names file e =
      for_each-All _ (λ name. In name names)
        (λ name passed.
          contains_name-In names name
            (not-false (contains_name names name) (refuse_if-ok _ _ passed)))
        file.shared_with e

  file_path-valid :
      (dir : Text) (file : ConfigSharedFile)
      → verify_file_path outside dir file ≡ ok tt
      → ((rest : Text) → file.path ≢ dir ++ rest) × IsAccepted file.path
  unfolding verify_file_path
  file_path-valid dir file e =
      let (apart, e1) = then-ok _ _ tt e in
      let (avoids, e2) = then-ok _ _ tt e1 in
      (
        not-starts_with file.path dir (refuse_if-ok _ _ apart),
        (file_contains_only_valid_chars_iff file.path).0
            (not-false (file_contains_only_valid_chars file.path) (refuse_if-ok _ _ e2)),
      )

  -- Two properties of all elements together.
  both_All :
      {A : Type 0} (P Q R : A → Type 0)
      → ((x : A) → P x → Q x → R x)
      → (xs : List A) → All P xs
      → All Q xs
      → All R xs
  both_All P Q R join [] p q = tt
  both_All P Q R join (x ∷ xs) p q = (join x p.0 q.0, both_All P Q R join xs p.1 q.1)

  files-IsGoodFile :
      (users : List SharedUser) (files : List ConfigSharedFile)
      → verify_config_shared_files outside users files ≡ ok tt
      → Differ (λ file. file.path) files × All (IsGoodFile outside users) files
  unfolding verify_config_shared_files
  files-IsGoodFile users files e =
      let (unique, e1) = then-ok _ _ tt e in
      let (known, e2) = then-ok _ _ tt e1 in
      let (dir, is_dir, e3) =
        bind-ok (ok_or get_path_transmitic_config_dir ConfigError.no_path)
          (λ dir. for_each (verify_file_path outside dir) files) tt e2 in
      (
        files-Differ files unique,
        both_All _ _ (IsGoodFile outside users)
            (λ file k (apart, valid). record {
              known = k;
              dir = dir;
              is_dir = ok_or-ok get_path_transmitic_config_dir ConfigError.no_path dir is_dir;
              no_prefix = apart;
              valid = valid;
            })
            files
            (for_each-All (verify_file_users outside (nicknames users))
              (λ file. All (λ name. In name (names_of users)) file.shared_with)
              (λ file passed.
                subst (λ names. All (λ name. In name names) file.shared_with)
                  (nicknames-names_of users) (file_users-In (nicknames users) file passed))
              files known)
            (for_each-All (verify_file_path outside dir)
              (λ file. ((rest : Text) → file.path ≢ dir ++ rest) × IsAccepted file.path)
              (file_path-valid dir) files e3),
      )

  key-accepted :
      (id : Text)
      → verify_config_my_private_id outside id ≡ ok tt
      → (bytes : List ℕ) × (transmitic_core.Base64.decode debug id ≡ ok bytes)
        × (from_pkcs8 bytes ≡ true)
  unfolding verify_config_my_private_id
  key-accepted id e =
      let (bytes, decoded, e1) =
        bind-ok (get_bytes_from_base64_str outside ConfigError.private_id_no_base64 id)
          (λ bytes. refuse_if (not (from_pkcs8 bytes)) ConfigError.private_id_no_key) tt e in
      (
        bytes,
        get_bytes-ok outside ConfigError.private_id_no_base64 id bytes decoded,
        not-false (from_pkcs8 bytes) (refuse_if-ok _ _ e1),
      )

  users-IsGoodUser :
      (users : List SharedUser)
      → verify_config_shared_users outside users ≡ ok tt
      → Differ (λ user. to_lowercase user.nickname) users
        × Differ (λ user. user.public_id) users
        × All (IsGoodUser outside) users
  unfolding verify_config_shared_users
  users-IsGoodUser users e =
      let (unique, each) = then-ok (for_each (verify_unique outside users) users) _ tt e in
      let (nicknames, ids) = users-Differ users unique in
      (
        nicknames,
        ids,
        for_each-All (verify_user outside) (IsGoodUser outside) (verify_user-IsGoodUser outside)
            users each,
      )

  one_off : (a b : Bool) → a && b ≡ false → (a ≡ false) ⊎ (b ≡ false)
  one_off true b h = inr h
  one_off false b h = inl refl

  -- The five checks on the sanitized file.
  checked-IsConsistent :
      (c : ConfigFile)
      → verify_config_port c.sharing_port ≡ ok tt
      → verify_config_my_private_id outside c.my_private_id ≡ ok tt
      → verify_config_shared_users outside c.shared_users ≡ ok tt
      → verify_config_shared_files outside c.shared_users c.shared_files ≡ ok tt
      → verify_ignore_and_reverse c.ignore_incoming c.reverse_connection ≡ ok tt
      → IsConsistent outside c
  unfolding verify_ignore_and_reverse
  checked-IsConsistent c port key users files mode =
      let (bytes, decoded, accepted) = key-accepted c.my_private_id key in
      let (distinct_nicknames, distinct_ids, good_users) = users-IsGoodUser c.shared_users users in
      let (distinct_paths, good_files) = files-IsGoodFile c.shared_users c.shared_files files in
      record {
        port = verify_config_port-IsPort c.sharing_port port;
        key_bytes = bytes;
        key_decoded = decoded;
        key_accepted = accepted;
        distinct_nicknames = distinct_nicknames;
        distinct_ids = distinct_ids;
        distinct_paths = distinct_paths;
        users = good_users;
        files = good_files;
        one_mode = one_off c.ignore_incoming c.reverse_connection (
            refuse_if-ok (c.ignore_incoming && c.reverse_connection) ConfigError.ignore_and_reverse
              mode);
      }

  -- A file that `verify_config` returns is what `sanitize_config` made of the file, and it is
  -- consistent. Its port is a decimal number of at most 65535, with a plus or without a sign, or one
  -- with a minus of at most 2 ^ 31. Its private key decodes to bytes that are accepted as a key.
  -- Nicknames (in lower case), public IDs and paths are each distinct. Every user has a nickname
  -- that is not empty, holds none of `*?"<>|\:/.{}` and, in lower case, not the word `transmitic`; a
  -- port of the same kind; a public ID that is not empty and decodes; and an address that is not
  -- empty. Every file is shared with nicknames of the users only, its path does not begin, byte by
  -- byte, with the one of the configuration's directory, and the path is one that
  -- `file_contains_only_valid_chars` accepts. At most one of the two connection modes is on.
  pub verify_config-IsConsistent :
      (c c' : ConfigFile)
      → verify_config outside c ≡ ok c'
      → (c' ≡ sanitize_config outside c) × IsConsistent outside c'
  unfolding verify_config
  verify_config-IsConsistent c c' e =
      let s = sanitize_config outside c in
      let (port, e1) = then-ok (verify_config_port s.sharing_port) _ c' e in
      let (key, e2) = then-ok (verify_config_my_private_id outside s.my_private_id) _ c' e1 in
      let (users, e3) = then-ok (verify_config_shared_users outside s.shared_users) _ c' e2 in
      let (files, e4) =
        then-ok (verify_config_shared_files outside s.shared_users s.shared_files) _ c' e3 in
      let (mode, e5) =
        then-ok (verify_ignore_and_reverse s.ignore_incoming s.reverse_connection) _ c' e4 in
      let same : s ≡ c' = cc in
      (
        sym same,
        subst (IsConsistent outside) same (checked-IsConsistent s port key users files mode),
      )
