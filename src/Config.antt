-- ===== src/Config.antt =====
-- The configuration: src/config.rs. What the standard library does to Unicode text, the key pair
-- of ring, the encryption of the file, serde and the file system are the parameter `Outside`.
-- An error is named by where it arises; its text is left out.
pub mod Texts
pub mod Sanitize
pub mod Verify
pub mod Parts
pub mod Ports
pub mod Prefixes
pub mod Distinct
pub mod Consistent
pub mod Verified
pub mod Edits
pub mod Changes
pub mod Writing
pub mod Runs
pub mod Removal
mod Tests
use transmitic_core.Common.{ℕ, Bool, Option, List, Outcome}

abbrev pub Text : Type 0
Text = List ℕ

pub record ConfigSharedFile : Type 0 where
  pub path : Text
  pub shared_with : List Text

pub record SharedUser : Type 0 where
  pub nickname : Text
  pub public_id : Text
  pub ip : Text
  pub port : Text
  pub allowed : Bool

pub record ConfigFile : Type 0 where
  pub my_private_id : Text
  pub shared_users : List SharedUser
  pub shared_files : List ConfigSharedFile
  pub sharing_port : Text
  pub ignore_incoming : Bool
  pub reverse_connection : Bool
  pub path_downloads : Text

pub record Config : Type 0 where
  pub first_start : Bool
  pub config_file : ConfigFile
  pub local_private_key_bytes : List ℕ
  pub password : Option Text
  pub nonce : ℕ
  pub iterations : ℕ
  pub config_version : ℕ

pub data ConfigError : Type 0 where
  port_no_number port_too_high private_id_no_base64 private_id_no_key : ConfigError
  nickname_repeated public_id_repeated nickname_empty nickname_blocked_char : ConfigError
  nickname_reserved user_port_empty public_id_empty public_id_no_base64 ip_empty : ConfigError
  file_repeated unknown_user config_dir_shared file_blocked_char file_invalid : ConfigError
  ignore_and_reverse no_path not_serialized not_encrypted not_written : ConfigError
  not_removed already_encrypted not_yet_encrypted no_such_user no_such_file no_new_id : ConfigError

-- What the code only calls. `encrypt` is `get_encrypted_config_str`, by text, password, nonce,
-- iterations and version; `write` and `remove` say whether they succeeded.
pub record Outside (Disk : Type 0) : Type 0 where
  pub debug : Bool
  pub trim : Text → Text
  pub to_lowercase : Text → Text
  pub from_pkcs8 : List ℕ → Bool
  pub get_path_transmitic_config_dir : Option Text
  pub get_path_encrypted_config : Option Text
  pub get_path_config_json : Option Text
  pub to_string_pretty : ConfigFile → Option Text
  pub encrypt : Text → Text → ℕ → ℕ → ℕ → Option Text
  pub write : Text → Text → Disk → Disk × Bool
  pub remove_file : Text → Disk → Disk × Bool
