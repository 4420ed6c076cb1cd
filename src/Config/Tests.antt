-- ===== src/Config/Tests.antt =====
-- The theorems about src/config.rs, at a small configuration.
use transmitic_core.Common.{All, ℕ, ◌≡◌, refl, Bool, true, false, none, some, List, [], ◌∷◌, ok}
use transmitic_core.Config.{Text, Config, ConfigFile, Outside}
use transmitic_core.Config.Sanitize.{sanitize_config}
use transmitic_core.Config.Verify.{verify_config}
use transmitic_core.Config.Consistent.{In, IsConsistent}
use transmitic_core.Config.Verified.{verify_config-IsConsistent}
use transmitic_core.Config.Changes.{next_nonce, write_and_set_config, remove_user, set_port}
use transmitic_core.Config.Writing.{IsAtomic, IsNext, write_and_set_config-IsAtomic}
use transmitic_core.Config.Removal.{IsAbsent, remove_user-IsAbsent}
use transmitic_core.Config.Runs.{stop, step, removes_user, sets_port, run-IsConsistent}

-- Nothing is trimmed, every key is one, and the disk keeps the last text.
abbrev toy : Outside Text
toy = record {
  debug = false;
  trim = λ s. s;
  to_lowercase = λ s. s;
  from_pkcs8 = λ bytes. true;
  get_path_transmitic_config_dir = some (b'/' ∷ b't' ∷ []);
  get_path_encrypted_config = some (b'/' ∷ b't' ∷ b'/' ∷ b'e' ∷ []);
  get_path_config_json = some (b'/' ∷ b't' ∷ b'/' ∷ b'j' ∷ []);
  to_string_pretty = λ c. some c.sharing_port;
  encrypt = λ text password nonce iterations version. some text;
  write = λ path text disk. (text, true);
  remove_file = λ path disk. (disk, true);
}

abbrev ann : Text
ann = b'a' ∷ b'n' ∷ b'n' ∷ []

abbrev file : ConfigFile
file = record {
  my_private_id = b'Z' ∷ b'm' ∷ b'9' ∷ b'v' ∷ [];
  shared_users =
      record {
        nickname = ann;
        public_id = b'Z' ∷ b'm' ∷ b'9' ∷ b'v' ∷ [];
        ip = b'1' ∷ [];
        port = b'8' ∷ b'0' ∷ [];
        allowed = true;
      }
      ∷ [];
  shared_files = record { path = b'/' ∷ b'a' ∷ []; shared_with = ann ∷ [] } ∷ [];
  sharing_port = b'4' ∷ b'5' ∷ [];
  ignore_incoming = false;
  reverse_connection = true;
  path_downloads = [];
}

file_verified : verify_config toy file ≡ ok file
unfolding verify_config sanitize_config transmitic_core.Config.Verify.verify_config_port
    transmitic_core.Config.Verify.parse_i32 transmitic_core.Config.Verify.parse_magnitude
    transmitic_core.Config.Verify.parse_digits
    transmitic_core.Config.Verify.verify_config_my_private_id
    transmitic_core.Config.Verify.get_bytes_from_base64_str
    transmitic_core.Config.Verify.verify_config_shared_users transmitic_core.Config.Verify.for_each
    transmitic_core.Config.Verify.verify_unique transmitic_core.Config.Verify.count
    transmitic_core.Config.Verify.verify_user transmitic_core.Config.Verify.contains_text
    transmitic_core.Config.Verify.verify_config_shared_files
    transmitic_core.Config.Verify.verify_file_unique transmitic_core.Config.Verify.verify_file_users
    transmitic_core.Config.Verify.contains_name transmitic_core.Config.Verify.nicknames
    transmitic_core.Config.Verify.verify_file_path
    transmitic_core.Config.Verify.verify_ignore_and_reverse
    transmitic_core.Config.Sanitize.strip_prefix transmitic_core.Config.Sanitize.starts_with
    transmitic_core.Config.Sanitize.without_scheme transmitic_core.Config.Sanitize.text_lt
    transmitic_core.Config.Sanitize.insert_by_key transmitic_core.Config.Sanitize.sort_by_key
    transmitic_core.Config.Sanitize.sanitize_user transmitic_core.Config.Sanitize.sanitize_file
    transmitic_core.Base64.decode transmitic_core.Base64.only_padding
    transmitic_core.Base64.get_decode_capacity transmitic_core.Base64.decode_loop
    transmitic_core.Base64.get_index_of_byte transmitic_core.Base64.table_reverse
    transmitic_core.Base64.debug_assert_len transmitic_core.Paths.get_blocked_file_path_chars
    transmitic_core.Paths.get_blocked_file_name_chars
    transmitic_core.Paths.get_blocked_user_name_chars transmitic_core.Paths.contains_any
    transmitic_core.Paths.is_drive transmitic_core.Paths.is_separator
    transmitic_core.Paths.parts_valid transmitic_core.Paths.keep_part
    transmitic_core.Paths.parts_kept transmitic_core.Paths.file_contains_only_valid_chars
    transmitic_core.Paths.Parts.replace transmitic_core.Paths.Parts.split_loop
    transmitic_core.Paths.Parts.split transmitic_core.Paths.Parts.proper_parts
    transmitic_core.Paths.Parts.relative_parts transmitic_core.Paths.Parts.path_iter
    transmitic_core.Common.text_eq transmitic_core.Common.contains transmitic_core.Common.index
file_verified = refl

verify_config-IsConsistent_example : (file ≡ sanitize_config toy file) × IsConsistent toy file
verify_config-IsConsistent_example = verify_config-IsConsistent toy file file file_verified

abbrev config : Config
config = record {
  first_start = false;
  config_file = file;
  local_private_key_bytes = [];
  password = none;
  nonce = 0;
  iterations = 1;
  config_version = 0;
}

-- With a password, at the highest nonce but one.
abbrev protected : Config
protected = record config { password = some ann; nonce = 79_228_162_514_264_337_593_543_950_334 }

write_and_set_config-IsAtomic_example :
    IsAtomic toy protected file (write_and_set_config toy protected [] file)
    × IsNext protected.password protected.nonce (write_and_set_config toy protected [] file).0.nonce
    × ((write_and_set_config toy protected [] file).0.password ≡ protected.password)
    × ((write_and_set_config toy protected [] file).0.local_private_key_bytes
        ≡ protected.local_private_key_bytes)
write_and_set_config-IsAtomic_example = write_and_set_config-IsAtomic toy protected [] file

-- Ann is removed, and then the port is set to a bad one.
abbrev removed : Config
removed = (remove_user toy ann config []).0

abbrev after : Config
after = (set_port toy (b'x' ∷ []) removed ((remove_user toy ann config []).1)).0

run-IsConsistent_example : IsConsistent toy after.config_file
run-IsConsistent_example =
    run-IsConsistent toy config [] after _
      (step (step stop (removes_user ann)) (sets_port (b'x' ∷ [])))
      ((verify_config-IsConsistent toy file file file_verified).1)

removal_done : (remove_user toy ann config []).2 ≡ ok tt
unfolding remove_user write_and_set_config next_nonce transmitic_core.Config.Changes.write_config
    transmitic_core.Config.Changes.prepare transmitic_core.Config.Changes.get_expected_config_path
    transmitic_core.Config.Changes.set_config transmitic_core.Config.Edits.retain
    transmitic_core.Config.Edits.unshare verify_config sanitize_config
    transmitic_core.Config.Verify.verify_config_port transmitic_core.Config.Verify.parse_i32
    transmitic_core.Config.Verify.parse_magnitude transmitic_core.Config.Verify.parse_digits
    transmitic_core.Config.Verify.verify_config_my_private_id
    transmitic_core.Config.Verify.get_bytes_from_base64_str
    transmitic_core.Config.Verify.verify_config_shared_users transmitic_core.Config.Verify.for_each
    transmitic_core.Config.Verify.verify_unique transmitic_core.Config.Verify.count
    transmitic_core.Config.Verify.verify_user transmitic_core.Config.Verify.contains_text
    transmitic_core.Config.Verify.verify_config_shared_files
    transmitic_core.Config.Verify.verify_file_unique transmitic_core.Config.Verify.verify_file_users
    transmitic_core.Config.Verify.contains_name transmitic_core.Config.Verify.nicknames
    transmitic_core.Config.Verify.verify_file_path
    transmitic_core.Config.Verify.verify_ignore_and_reverse
    transmitic_core.Config.Sanitize.strip_prefix transmitic_core.Config.Sanitize.starts_with
    transmitic_core.Config.Sanitize.without_scheme transmitic_core.Config.Sanitize.text_lt
    transmitic_core.Config.Sanitize.insert_by_key transmitic_core.Config.Sanitize.sort_by_key
    transmitic_core.Config.Sanitize.sanitize_user transmitic_core.Config.Sanitize.sanitize_file
    transmitic_core.Base64.decode transmitic_core.Base64.only_padding
    transmitic_core.Base64.get_decode_capacity transmitic_core.Base64.decode_loop
    transmitic_core.Base64.get_index_of_byte transmitic_core.Base64.table_reverse
    transmitic_core.Base64.debug_assert_len transmitic_core.Paths.get_blocked_file_path_chars
    transmitic_core.Paths.get_blocked_file_name_chars
    transmitic_core.Paths.get_blocked_user_name_chars transmitic_core.Paths.contains_any
    transmitic_core.Paths.is_drive transmitic_core.Paths.is_separator
    transmitic_core.Paths.parts_valid transmitic_core.Paths.keep_part
    transmitic_core.Paths.parts_kept transmitic_core.Paths.file_contains_only_valid_chars
    transmitic_core.Paths.Parts.replace transmitic_core.Paths.Parts.split_loop
    transmitic_core.Paths.Parts.split transmitic_core.Paths.Parts.proper_parts
    transmitic_core.Paths.Parts.relative_parts transmitic_core.Paths.Parts.path_iter
    transmitic_core.Common.text_eq transmitic_core.Common.contains transmitic_core.Common.index
removal_done = refl

remove_user-IsAbsent_example :
    All (IsAbsent ann) (remove_user toy ann config []).0.config_file.shared_users
    × All
        (λ file. ¬ In ann file.shared_with)
        (remove_user toy ann config []).0.config_file.shared_files
remove_user-IsAbsent_example = remove_user-IsAbsent toy ann config [] (refl, tt) removal_done
