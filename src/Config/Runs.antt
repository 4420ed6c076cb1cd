-- ===== src/Config/Runs.antt =====
-- Runs of the operations of `Config` in src/config.rs, and the consistency of its file.
use transmitic_core.Common.{
  ℕ, sym, subst, Bool, true, false, not, Option, none, some, List, if◌then◌else◌, Outcome, ok, err,
  panic, inl, inr,
}
use transmitic_core.Config.{Text, Config, ConfigFile, ConfigSharedFile, ConfigError, Outside}
use transmitic_core.Base64
use transmitic_core.Config.Verify.{contains_name, nicknames, get_bytes_from_base64_str}
use transmitic_core.Config.Consistent.{IsConsistent}
use transmitic_core.Config.Verified.{verify_config-IsConsistent}
use transmitic_core.Config.Writing.{write_and_set_config-IsAtomic}
use transmitic_core.Config.Edits.{share, change_user}
use transmitic_core.Config.Changes.{
  is_some, write_and_set_config, remove_after, Result, decrypt_config, encrypt_config, add_files,
  add_new_user, add_user_to_shared, create_new_id, remove_file_from_sharing,
  remove_user_from_sharing, remove_user, set_port, set_path_downloads_dir, set_ignore_incoming,
  set_reverse_connection, set_user_is_allowed_state, update_user,
}

module _ {Disk : Type 0} (outside : Outside Disk) where
  -- A call that changes the configuration, and what it leaves.
  pub data Step (c : Config) (disk : Disk) : Result Disk → Type 0 where
    decrypts : Step c disk (decrypt_config outside c disk)
    encrypts : (password : Text) → Step c disk (encrypt_config outside password c disk)
    adds_files : (files : List Text) → Step c disk (add_files outside files c disk)
    adds_user :
        (nickname public_id ip port : Text)
        → Step c disk (add_new_user outside nickname public_id ip port c disk)
    shares : (nickname path : Text) → Step c disk (add_user_to_shared outside nickname path c disk)
    makes_id :
        (private_id : Option (List ℕ)) → Step c disk (create_new_id outside private_id c disk)
    removes_file : (path : Text) → Step c disk (remove_file_from_sharing outside path c disk)
    unshares :
        (nickname path : Text) → Step c disk (remove_user_from_sharing outside nickname path c disk)
    removes_user : (nickname : Text) → Step c disk (remove_user outside nickname c disk)
    sets_port : (port : Text) → Step c disk (set_port outside port c disk)
    sets_downloads : (path : Text) → Step c disk (set_path_downloads_dir outside path c disk)
    sets_ignore : (state : Bool) → Step c disk (set_ignore_incoming outside state c disk)
    sets_reverse : (state : Bool) → Step c disk (set_reverse_connection outside state c disk)
    sets_allowed :
        (nickname : Text) (state : Bool)
        → Step c disk (set_user_is_allowed_state outside nickname state c disk)
    updates_user :
        (nickname public_id ip port : Text)
        → Step c disk (update_user outside nickname public_id ip port c disk)

  pub data Steps (c : Config) (disk : Disk) : Config → Disk → Type 0 where
    stop : Steps c disk c disk
    step :
        {c' : Config} {disk' : Disk} {r : Result Disk}
        → Steps c disk c' disk'
        → Step c' disk' r
        → Steps c disk (r.0) (r.1)

  -- The file is the one from before, or a consistent one.
  abbrev IsKept : Config → Result Disk → Type 0
  IsKept c r = IsConsistent outside c.config_file → IsConsistent outside (r.0).config_file

  write-IsKept :
      (c : Config) (disk : Disk) (f : ConfigFile) → IsKept c (write_and_set_config outside c disk f)
  write-IsKept c disk f h = elim ((write_and_set_config-IsAtomic outside c disk f).0) [
    | inl (done, verified) ↦ (verify_config-IsConsistent outside f _ verified).1
    | inr (failed, same) ↦ subst (IsConsistent outside) (sym same) h
  ]

  remove_after-IsKept :
      (p : Option Text) (c : Config) (disk : Disk) → IsKept c (remove_after outside p c disk)
  unfolding remove_after
  remove_after-IsKept none c disk h = h
  remove_after-IsKept (some path) c disk h = h

  -- The end of `decrypt_config` and of `encrypt_config`.
  finish-IsKept :
      (c0 : Config) (r : Result Disk) (p password : Option Text)
      → IsKept c0 r
      → IsKept c0 (elim (r.2) [
        | ok done ↦ remove_after outside p (r.0) (r.1)
        | err e ↦ (record (r.0) { password = password }, r.1, err e)
        | panic ↦ (r.0, r.1, panic)
      ])
  finish-IsKept c0 (c, disk, ok done) p password k h = remove_after-IsKept p c disk (k h)
  finish-IsKept c0 (c, disk, err e) p password k h = k h
  finish-IsKept c0 (c, disk, panic) p password k h = k h

  either-IsKept :
      (b : Bool) (c : Config) (r r' : Result Disk)
      → IsKept c r
      → IsKept c r'
      → IsKept c (if b then r else r')
  either-IsKept true c r r' k k' = k
  either-IsKept false c r r' k k' = k'

  -- The end of `create_new_id`: the key is read back from the file.
  id-IsKept :
      (c0 : Config) (r : Result Disk) (m : Outcome ConfigError (List ℕ))
      → IsKept c0 r
      → IsKept c0 (elim (r.2) [
        | ok done ↦ elim m [
          | ok bytes ↦ (record (r.0) { local_private_key_bytes = bytes }, r.1, ok tt)
          | err e ↦ (r.0, r.1, err e)
          | panic ↦ (r.0, r.1, panic)
        ]
        | err e ↦ (r.0, r.1, err e)
        | panic ↦ (r.0, r.1, panic)
      ])
  id-IsKept c0 (c, disk, ok done) (ok bytes) k h = k h
  id-IsKept c0 (c, disk, ok done) (err e) k h = k h
  id-IsKept c0 (c, disk, ok done) panic k h = k h
  id-IsKept c0 (c, disk, err e) m k h = k h
  id-IsKept c0 (c, disk, panic) m k h = k h

  -- A search that may fail, and then the write of what it found.
  search-IsKept :
      {A : Type 0} (o : Option A) (c : Config) (r : Result Disk) (found : A → Result Disk)
      → IsKept c r
      → ((a : A) → IsKept c (found a))
      → IsKept c (elim o [ none ↦ r | some a ↦ found a ])
  search-IsKept none c r found k k' = k
  search-IsKept (some a) c r found k k' = k' a

  share-IsKept :
      (o : Option (List ConfigSharedFile)) (c : Config) (disk : Disk)
      → IsKept c (elim o [
        | none ↦ (c, disk, ok tt)
        | some files ↦
            write_and_set_config outside c disk (record (c.config_file) { shared_files = files })
      ])
  share-IsKept none c disk h = h
  share-IsKept (some files) c disk h = write-IsKept c disk _ h

  -- The new key, encoded, is put into the file.
  new_id-IsKept :
      (m : Outcome ConfigError (List ℕ)) (c : Config) (disk : Disk)
      → IsKept c (elim m [
        | ok id ↦
            (let r =
                write_and_set_config outside c disk
                  (record (c.config_file) { my_private_id = id }) in
              elim (r.2) [
                | ok done ↦
                    elim (get_bytes_from_base64_str outside ConfigError.private_id_no_base64
                      (r.0).config_file.my_private_id) [
                        | ok bytes ↦ (record (r.0) { local_private_key_bytes = bytes }, r.1, ok tt)
                        | err e ↦ (r.0, r.1, err e)
                        | panic ↦ (r.0, r.1, panic)
                      ]
                | err e ↦ (r.0, r.1, err e)
                | panic ↦ (r.0, r.1, panic)
              ])
        | err e ↦ (c, disk, err e)
        | panic ↦ (c, disk, panic)
      ])
  new_id-IsKept (ok id) c disk h =
      let r = write_and_set_config outside c disk (record (c.config_file) { my_private_id = id }) in
      id-IsKept c r
        (get_bytes_from_base64_str outside ConfigError.private_id_no_base64
          (r.0).config_file.my_private_id)
        (write-IsKept c disk _) h
  new_id-IsKept (err e) c disk h = h
  new_id-IsKept panic c disk h = h

  Step-IsKept : {c : Config} {disk : Disk} {r : Result Disk} → Step c disk r → IsKept c r
  unfolding decrypt_config encrypt_config add_files add_new_user add_user_to_shared create_new_id
      remove_file_from_sharing remove_user_from_sharing remove_user set_port set_path_downloads_dir
      set_ignore_incoming set_reverse_connection set_user_is_allowed_state update_user
  Step-IsKept {c} {disk} decrypts =
      either-IsKept (not (is_some c.password)) c _ _ (λ h. h)
        (finish-IsKept c
          (write_and_set_config outside (record c { password = none }) disk c.config_file)
          outside.get_path_encrypted_config c.password
          (write-IsKept (record c { password = none }) disk c.config_file))
  Step-IsKept {c} {disk} (encrypts password) =
      either-IsKept (is_some c.password) c _ _ (λ h. h)
        (finish-IsKept c
          (write_and_set_config outside (record c { password = some password }) disk c.config_file)
          outside.get_path_config_json none
          (write-IsKept (record c { password = some password }) disk c.config_file))
  Step-IsKept {c} {disk} (adds_files files) = write-IsKept c disk _
  Step-IsKept {c} {disk} (adds_user nickname public_id ip port) = write-IsKept c disk _
  Step-IsKept {c} {disk} (shares nickname path) =
      either-IsKept (not (contains_name (nicknames c.config_file.shared_users) nickname)) c _ _
        (λ h. h)
        (search-IsKept (share nickname path c.config_file.shared_files) c _ _ (λ h. h)
          (λ o. share-IsKept o c disk))
  Step-IsKept {c} {disk} (makes_id none) = λ h. h
  Step-IsKept {c} {disk} (makes_id (some bytes)) =
      new_id-IsKept (transmitic_core.Base64.encode {E = ConfigError} outside.debug bytes) c disk
  Step-IsKept {c} {disk} (removes_file path) = write-IsKept c disk _
  Step-IsKept {c} {disk} (unshares nickname path) = write-IsKept c disk _
  Step-IsKept {c} {disk} (removes_user nickname) = write-IsKept c disk _
  Step-IsKept {c} {disk} (sets_port port) = write-IsKept c disk _
  Step-IsKept {c} {disk} (sets_downloads path) = write-IsKept c disk _
  Step-IsKept {c} {disk} (sets_ignore state) = write-IsKept c disk _
  Step-IsKept {c} {disk} (sets_reverse state) = write-IsKept c disk _
  Step-IsKept {c} {disk} (sets_allowed nickname state) =
      search-IsKept (change_user _ nickname c.config_file.shared_users) c _ _ (λ h. h)
        (λ users. write-IsKept c disk _)
  Step-IsKept {c} {disk} (updates_user nickname public_id ip port) =
      search-IsKept (change_user _ nickname c.config_file.shared_users) c _ _ (λ h. h)
        (λ users. write-IsKept c disk _)

  -- From a configuration whose file is consistent, every run of operations, with any failures of
  -- the disk, the encryption or the input on the way, ends with a consistent file.
  pub run-IsConsistent :
      (c : Config) (disk : Disk) (c' : Config) (disk' : Disk)
      → Steps c disk c' disk'
      → IsConsistent outside c.config_file
      → IsConsistent outside c'.config_file
  run-IsConsistent c disk c' disk' stop h = h
  run-IsConsistent c disk c' disk' (step before last) h =
      Step-IsKept last (run-IsConsistent c disk _ _ before h)
