-- ===== src/Config/Verify.antt =====
-- `verify_config` of src/config.rs and what it calls. A key text is decoded by the codec, so a
-- panic of the codec is a panic here.
use transmitic_core.Common.{
  ℕ, ◌+◌, ◌-◌, ◌*◌, Bool, true, false, not, ◌&&◌, Option, none, some, List, [], ◌∷◌, ltb, leb, ◌==◌,
  if◌then◌else◌, is_empty, text_eq, Outcome, ok, err, panic, ◌>>=◌, ◌>>◌, ok_or,
}
use transmitic_core.Base64
use transmitic_core.Paths.{
  contains_any, file_contains_only_valid_chars, get_blocked_user_name_chars,
  get_blocked_file_path_chars,
}
use transmitic_core.Config.{Text, ConfigFile, ConfigSharedFile, SharedUser, ConfigError, Outside}
use transmitic_core.Config.Texts.{reserved}
use transmitic_core.Config.Sanitize.{starts_with, sanitize_config}

-- A test that must fail.
abbrev pub refuse_if : Bool → ConfigError → Outcome ConfigError (Unit {0})
refuse_if true e = err e
refuse_if false e = ok tt

-- `str::parse::<i32>`: a sign and digits, within 32 bits.
unfoldable pub parse_digits : ℕ → Text → Option ℕ
parse_digits n [] = some n
parse_digits n (c ∷ s) =
    let rest = parse_digits (n * 10 + (c - b'0')) s in
    if leb b'0' c && leb c b'9' then rest else none

unfoldable pub parse_magnitude : ℕ → Text → Option ℕ
parse_magnitude most [] = none
parse_magnitude most (c ∷ s) = elim (parse_digits 0 (c ∷ s)) [
  | none ↦ none
  | some n ↦ if leb n most then some n else none
]

-- The sign, true for a negative number, and the magnitude.
unfoldable pub parse_i32 : Text → Option (Bool × ℕ)
parse_i32 [] = none
parse_i32 (c ∷ s) =
    if c == b'-'
    then (elim (parse_magnitude 2_147_483_648 s) [ none ↦ none | some n ↦ some (true, n) ])
    else if c == b'+'
    then (elim (parse_magnitude 2_147_483_647 s) [ none ↦ none | some n ↦ some (false, n) ])
    else (elim (parse_magnitude 2_147_483_647 (c ∷ s)) [ none ↦ none | some n ↦ some (false, n) ])

abbrev pub max_port : ℕ
max_port = 65535

unfoldable pub verify_config_port : Text → Outcome ConfigError (Unit {0})
verify_config_port port = do
  (negative, value) ← ok_or (parse_i32 port) ConfigError.port_no_number
  refuse_if (not negative && ltb max_port value) ConfigError.port_too_high

-- `contains` on texts.
unfoldable pub contains_text : Text → Text → Bool
contains_text [] part = is_empty part
contains_text (c ∷ s) part =
    let rest = contains_text s part in if starts_with (c ∷ s) part then true else rest

unfoldable pub count : {A : Type 0} → (A → Bool) → List A → ℕ
count same [] = 0
count same (x ∷ xs) = let rest = count same xs in if same x then rest + 1 else rest

module _ {A : Type 0} (check : A → Outcome ConfigError (Unit {0})) where
  -- A loop of checks, up to the first error.
  unfoldable pub for_each : List A → Outcome ConfigError (Unit {0})
  for_each [] = ok tt
  for_each (x ∷ xs) = check x >> for_each xs

unfoldable pub verify_ignore_and_reverse : Bool → Bool → Outcome ConfigError (Unit {0})
verify_ignore_and_reverse ignore_incoming reverse_connection =
    refuse_if (ignore_incoming && reverse_connection) ConfigError.ignore_and_reverse

unfoldable pub contains_name : List Text → Text → Bool
contains_name [] name = false
contains_name (x ∷ xs) name =
    let rest = contains_name xs name in if text_eq x name then true else rest

unfoldable pub nicknames : List SharedUser → List Text
nicknames [] = []
nicknames (user ∷ users) = user.nickname ∷ nicknames users

module _ {Disk : Type 0} (outside : Outside Disk) where
  open outside use {debug, to_lowercase, from_pkcs8, get_path_transmitic_config_dir}

  -- `crypto::get_bytes_from_base64_str`, with the error by name.
  unfoldable pub get_bytes_from_base64_str : ConfigError → Text → Outcome ConfigError (List ℕ)
  get_bytes_from_base64_str e string = elim (transmitic_core.Base64.decode debug string) [
    | ok bytes ↦ ok bytes
    | err invalid ↦ err e
    | panic ↦ panic
  ]

  unfoldable pub verify_config_my_private_id : Text → Outcome ConfigError (Unit {0})
  verify_config_my_private_id my_private_id = do
    local_private_key_bytes ←
        get_bytes_from_base64_str ConfigError.private_id_no_base64 my_private_id
    refuse_if (not (from_pkcs8 local_private_key_bytes)) ConfigError.private_id_no_key

  abbrev pub same_nickname : SharedUser → SharedUser → Bool
  same_nickname user userj = text_eq (to_lowercase user.nickname) (to_lowercase userj.nickname)

  abbrev pub same_public_id : SharedUser → SharedUser → Bool
  same_public_id user userj = text_eq user.public_id userj.public_id

  -- The duplicates of one user among all.
  unfoldable pub verify_unique : List SharedUser → SharedUser → Outcome ConfigError (Unit {0})
  verify_unique shared_users user = do
    refuse_if (ltb 1 (count (same_nickname user) shared_users)) ConfigError.nickname_repeated
    refuse_if (ltb 1 (count (same_public_id user) shared_users)) ConfigError.public_id_repeated

  unfoldable pub verify_user : SharedUser → Outcome ConfigError (Unit {0})
  verify_user user = do
    refuse_if (is_empty user.nickname) ConfigError.nickname_empty
    refuse_if (contains_any get_blocked_user_name_chars user.nickname)
        ConfigError.nickname_blocked_char
    refuse_if (contains_text (to_lowercase user.nickname) reserved) ConfigError.nickname_reserved
    refuse_if (is_empty user.port) ConfigError.user_port_empty
    verify_config_port user.port
    refuse_if (is_empty user.public_id) ConfigError.public_id_empty
    public_id ← get_bytes_from_base64_str ConfigError.public_id_no_base64 user.public_id
    refuse_if (is_empty user.ip) ConfigError.ip_empty

  unfoldable pub verify_config_shared_users : List SharedUser → Outcome ConfigError (Unit {0})
  verify_config_shared_users shared_users = do
    for_each (verify_unique shared_users) shared_users
    for_each verify_user shared_users

  abbrev pub same_path : ConfigSharedFile → ConfigSharedFile → Bool
  same_path file filej = text_eq file.path filej.path

  unfoldable pub verify_file_unique :
      List ConfigSharedFile → ConfigSharedFile → Outcome ConfigError (Unit {0})
  verify_file_unique shared_files file =
      refuse_if (ltb 1 (count (same_path file) shared_files)) ConfigError.file_repeated

  unfoldable pub verify_file_users : List Text → ConfigSharedFile → Outcome ConfigError (Unit {0})
  verify_file_users names file =
      for_each (λ user. refuse_if (not (contains_name names user)) ConfigError.unknown_user)
        file.shared_with

  unfoldable pub verify_file_path : Text → ConfigSharedFile → Outcome ConfigError (Unit {0})
  verify_file_path dir file = do
    refuse_if (starts_with file.path dir) ConfigError.config_dir_shared
    refuse_if (contains_any get_blocked_file_path_chars file.path) ConfigError.file_blocked_char
    refuse_if (not (file_contains_only_valid_chars file.path)) ConfigError.file_invalid

  unfoldable pub verify_config_shared_files :
      List SharedUser → List ConfigSharedFile → Outcome ConfigError (Unit {0})
  verify_config_shared_files shared_users shared_files = do
    for_each (verify_file_unique shared_files) shared_files
    for_each (verify_file_users (nicknames shared_users)) shared_files
    transmitic_config_dir_path ← ok_or get_path_transmitic_config_dir ConfigError.no_path
    for_each (verify_file_path transmitic_config_dir_path) shared_files

  -- The sanitized file, if it is good.
  unfoldable pub verify_config : ConfigFile → Outcome ConfigError ConfigFile
  verify_config config_file = do
    let c = sanitize_config outside config_file
    verify_config_port c.sharing_port
    verify_config_my_private_id c.my_private_id
    verify_config_shared_users c.shared_users
    verify_config_shared_files c.shared_users c.shared_files
    verify_ignore_and_reverse c.ignore_incoming c.reverse_connection
    ok c
