-- ===== src/Config/Changes.antt =====
-- The operations of `Config` in src/config.rs. An operation returns the configuration, the disk
-- and its result, since an error too may leave a change: the nonce is moved before the write.
use transmitic_core.Common.{
  ℕ, ◌+◌, Bool, true, false, not, Option, none, some, List, [], ◌∷◌, ◌++◌, map, leb, if◌then◌else◌,
  text_eq, Outcome, ok, err, panic, ◌>>=◌, ok_or,
}
use transmitic_core.Base64
use transmitic_core.Stream.Consts.{nonce_max}
use transmitic_core.Config.{Text, Config, ConfigFile, ConfigError, Outside}
use transmitic_core.Config.Edits.{retain, paths, add_all, change_user, share, unshare}
use transmitic_core.Config.Verify.{
  verify_config, contains_name, nicknames, get_bytes_from_base64_str,
}

abbrev pub is_some {ℓ} : {A : Type ℓ} → Option A → Bool
is_some (some a) = true
is_some none = false

abbrev pub Result : Type 0 → Type 0
Result Disk = Config × Disk × Outcome ConfigError (Unit {0})

module _ {Disk : Type 0} (outside : Outside Disk) where
  open outside use {
    debug, get_path_encrypted_config, get_path_config_json, to_string_pretty, encrypt, write,
    remove_file,
  }

  unfoldable pub get_expected_config_path : Bool → Option Text
  get_expected_config_path encrypted =
      if encrypted then get_path_encrypted_config else get_path_config_json

  -- What `write_config` does before the write: the sanitized file, the path and the text.
  unfoldable pub prepare :
      ConfigFile → Option Text → ℕ → ℕ → ℕ → Outcome ConfigError (ConfigFile × Text × Text)
  prepare config_file password nonce iterations config_version = do
    c ← verify_config outside config_file
    config_path ← ok_or (get_expected_config_path (is_some password)) ConfigError.no_path
    config_str ← ok_or (to_string_pretty c) ConfigError.not_serialized
    text ← elim password as (λ p. Outcome ConfigError Text) [
      | some p ↦
          ok_or (encrypt config_str p nonce iterations config_version) ConfigError.not_encrypted
      | none ↦ ok config_str
    ]
    ok (c, config_path, text)

  unfoldable pub write_config :
      Disk → ConfigFile → Option Text → ℕ → ℕ → ℕ → Disk × Outcome ConfigError ConfigFile
  write_config disk config_file password nonce iterations config_version =
      elim (prepare config_file password nonce iterations config_version) [
        | ok (c, config_path, text) ↦
            let (disk', written) = write config_path text disk in
            (disk', if written then ok c else err ConfigError.not_written)
        | err e ↦ (disk, err e)
        | panic ↦ (disk, panic)
      ]

  -- The nonce of the next encryption; without a password it stays.
  unfoldable pub next_nonce : Config → ℕ
  next_nonce c =
      if is_some c.password then (if leb nonce_max c.nonce then 0 else c.nonce + 1) else c.nonce

  -- The end of `write_and_set_config`, from what `write_config` returned.
  unfoldable pub set_config : Config → Disk × Outcome ConfigError ConfigFile → Result Disk
  set_config c (disk, ok written) = (record c { config_file = written }, disk, ok tt)
  set_config c (disk, err e) = (c, disk, err e)
  set_config c (disk, panic) = (c, disk, panic)

  unfoldable pub write_and_set_config : Config → Disk → ConfigFile → Result Disk
  write_and_set_config c disk config_file =
      let c' = record c { nonce = next_nonce c } in
      set_config c'
        (write_config disk config_file c'.password c'.nonce c'.iterations c'.config_version)

  -- `fs::remove_file` at the end, where the change before it succeeded.
  unfoldable pub remove_after : Option Text → Config → Disk → Result Disk
  remove_after none c disk = (c, disk, err ConfigError.no_path)
  remove_after (some path) c disk =
      let (disk', removed) = remove_file path disk in
      (c, disk', if removed then ok tt else err ConfigError.not_removed)

  unfoldable pub decrypt_config : Config → Disk → Result Disk
  decrypt_config c disk =
      if not (is_some c.password)
      then (c, disk, err ConfigError.not_yet_encrypted)
      else (let (c', disk', result) =
            write_and_set_config (record c { password = none }) disk c.config_file in
          elim result [
            | ok done ↦ remove_after get_path_encrypted_config c' disk'
            | err e ↦ (record c' { password = c.password }, disk', err e)
            | panic ↦ (c', disk', panic)
          ])

  unfoldable pub encrypt_config : Text → Config → Disk → Result Disk
  encrypt_config password c disk =
      if is_some c.password
      then (c, disk, err ConfigError.already_encrypted)
      else (let (c', disk', result) =
            write_and_set_config (record c { password = some password }) disk c.config_file in
          elim result [
            | ok done ↦ remove_after get_path_config_json c' disk'
            | err e ↦ (record c' { password = none }, disk', err e)
            | panic ↦ (c', disk', panic)
          ])

  unfoldable pub add_files : List Text → Config → Disk → Result Disk
  add_files files c disk = write_and_set_config c disk (record (c.config_file) {
    shared_files = add_all (paths c.config_file.shared_files) files c.config_file.shared_files;
  })

  unfoldable pub add_new_user : Text → Text → Text → Text → Config → Disk → Result Disk
  add_new_user new_nickname new_public_id new_ip new_port c disk =
      write_and_set_config c disk (record (c.config_file) {
        shared_users =
            c.config_file.shared_users
            ++ (record {
              nickname = new_nickname;
              public_id = new_public_id;
              ip = new_ip;
              port = new_port;
              allowed = true;
            }
                ∷ []);
      })

  unfoldable pub add_user_to_shared : Text → Text → Config → Disk → Result Disk
  add_user_to_shared nickname file_path c disk =
      if not (contains_name (nicknames c.config_file.shared_users) nickname)
      then (c, disk, err ConfigError.no_such_user)
      else elim (share nickname file_path c.config_file.shared_files) [
        | none ↦ (c, disk, err ConfigError.no_such_file)
        | some none ↦ (c, disk, ok tt)
        | some (some files) ↦
            write_and_set_config c disk (record (c.config_file) { shared_files = files })
      ]

  -- The argument is the new private key, unless none was made.
  unfoldable pub create_new_id : Option (List ℕ) → Config → Disk → Result Disk
  create_new_id none c disk = (c, disk, err ConfigError.no_new_id)
  create_new_id (some private_id_bytes) c disk =
      elim (transmitic_core.Base64.encode {E = ConfigError} debug private_id_bytes) [
        | ok private_id_string ↦
            let (c', disk', result) =
              write_and_set_config c disk
                (record (c.config_file) { my_private_id = private_id_string }) in
            elim result [
              | ok done ↦
                  elim (get_bytes_from_base64_str outside ConfigError.private_id_no_base64
                    c'.config_file.my_private_id) [
                      | ok bytes ↦ (record c' { local_private_key_bytes = bytes }, disk', ok tt)
                      | err e ↦ (c', disk', err e)
                      | panic ↦ (c', disk', panic)
                    ]
              | err e ↦ (c', disk', err e)
              | panic ↦ (c', disk', panic)
            ]
        | err e ↦ (c, disk, err e)
        | panic ↦ (c, disk, panic)
      ]

  unfoldable pub remove_file_from_sharing : Text → Config → Disk → Result Disk
  remove_file_from_sharing file_path c disk = write_and_set_config c disk (record (c.config_file) {
    shared_files = retain (λ x. not (text_eq x.path file_path)) c.config_file.shared_files;
  })

  unfoldable pub remove_user_from_sharing : Text → Text → Config → Disk → Result Disk
  remove_user_from_sharing nickname file_path c disk =
      write_and_set_config c disk (record (c.config_file) {
        shared_files =
            map (λ file. if text_eq file.path file_path then unshare nickname file else file)
              c.config_file.shared_files;
      })

  unfoldable pub remove_user : Text → Config → Disk → Result Disk
  remove_user nickname c disk = write_and_set_config c disk (record (c.config_file) {
    shared_files = map (unshare nickname) c.config_file.shared_files;
    shared_users = retain (λ x. not (text_eq x.nickname nickname)) c.config_file.shared_users;
  })

  unfoldable pub set_port : Text → Config → Disk → Result Disk
  set_port port c disk =
      write_and_set_config c disk (record (c.config_file) { sharing_port = port })

  unfoldable pub set_path_downloads_dir : Text → Config → Disk → Result Disk
  set_path_downloads_dir path c disk =
      write_and_set_config c disk (record (c.config_file) { path_downloads = path })

  unfoldable pub set_ignore_incoming : Bool → Config → Disk → Result Disk
  set_ignore_incoming state c disk =
      write_and_set_config c disk (record (c.config_file) { ignore_incoming = state })

  unfoldable pub set_reverse_connection : Bool → Config → Disk → Result Disk
  set_reverse_connection state c disk =
      write_and_set_config c disk (record (c.config_file) { reverse_connection = state })

  unfoldable pub set_user_is_allowed_state : Text → Bool → Config → Disk → Result Disk
  set_user_is_allowed_state nickname is_allowed c disk =
      elim (change_user (λ user. record user { allowed = is_allowed }) nickname
        c.config_file.shared_users) [
          | none ↦ (c, disk, err ConfigError.no_such_user)
          | some users ↦
              write_and_set_config c disk (record (c.config_file) { shared_users = users })
        ]

  unfoldable pub update_user : Text → Text → Text → Text → Config → Disk → Result Disk
  update_user nickname new_public_id new_ip new_port c disk =
      elim (change_user
        (λ user. record user { public_id = new_public_id; ip = new_ip; port = new_port }) nickname
        c.config_file.shared_users) [
          | none ↦ (c, disk, err ConfigError.no_such_user)
          | some users ↦
              write_and_set_config c disk (record (c.config_file) { shared_users = users })
        ]
