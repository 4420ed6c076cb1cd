-- ===== src/Config/Consistent.antt =====
-- What a consistent configuration file is, and the checks of src/config.rs one by one.
use transmitic_core.Common.{
  map, ap, ◌++◌, ℕ, ◌≡◌, ◌≢◌, ◌⊎◌, refl, true, false, some, List, [], ◌∷◌, All, is_empty, text_eq,
  text_eq_iff, Outcome, ok, err, panic, arith, Bool-cases, inl, inr,
}
use transmitic_core.Base64
use transmitic_core.Paths.{get_blocked_user_name_chars}
use transmitic_core.Paths.Valid.{IsAccepted}
use transmitic_core.Config.Parts.{then-ok, bind-ok, refuse_if-ok}
use transmitic_core.Config.Ports.{IsPort, verify_config_port-IsPort}
use transmitic_core.Config.Prefixes.{not-contains_text}
use transmitic_core.Config.Distinct.{Differ}
use transmitic_core.Paths.Loops.{Avoids, contains_any-Avoids}
use transmitic_core.Config.{Text, ConfigFile, ConfigSharedFile, SharedUser, ConfigError, Outside}
use transmitic_core.Config.Verify.{
  refuse_if, contains_name, nicknames, get_bytes_from_base64_str, verify_user,
}

-- `*?"<>|\:/.{}`
abbrev pub user_name_chars : List ℕ
user_name_chars =
    b'*' ∷ b'?' ∷ 0x22 ∷ b'<' ∷ b'>' ∷ b'|' ∷ 0x5c ∷ b':' ∷ b'/' ∷ b'.' ∷ b'{' ∷ b'}' ∷ []

-- `transmitic`
abbrev pub transmitic : Text
transmitic = b't' ∷ b'r' ∷ b'a' ∷ b'n' ∷ b's' ∷ b'm' ∷ b'i' ∷ b't' ∷ b'i' ∷ b'c' ∷ []

abbrev pub names_of : List SharedUser → List Text
names_of users = map (λ user. user.nickname) users

-- The text stands in the list.
unfoldable pub In : Text → List Text → Type 0
In name [] = ⊥
In name (x ∷ xs) = (x ≡ name) ⊎ In name xs

pub nicknames-names_of : (users : List SharedUser) → nicknames users ≡ names_of users
unfolding nicknames
nicknames-names_of [] = refl
nicknames-names_of (user ∷ users) = ap (λ names. user.nickname ∷ names) (nicknames-names_of users)

pub contains_name-In : (xs : List Text) (name : Text) → contains_name xs name ≡ true → In name xs
unfolding contains_name In
contains_name-In [] name h = cc
contains_name-In (x ∷ xs) name h = elim (Bool-cases (text_eq x name)) [
  | inl same ↦ inl ((text_eq_iff x name).0 same)
  | inr other ↦ inr (contains_name-In xs name (ground (arith, h, other)))
]

is_empty-false : (s : Text) → is_empty s ≡ false → s ≢ []
is_empty-false [] h e = cc
is_empty-false (c ∷ s) h e = cc

module _ {Disk : Type 0} (outside : Outside Disk) where
  open outside use {debug, to_lowercase, from_pkcs8, get_path_transmitic_config_dir}

  -- What holds of each user by itself.
  pub record IsGoodUser (user : SharedUser) : Type 0 where
    pub named : user.nickname ≢ []
    pub avoids : Avoids user_name_chars user.nickname
    pub unreserved :
        (before after : Text) → to_lowercase user.nickname ≢ before ++ (transmitic ++ after)
    pub port : IsPort user.port
    pub id_bytes : List ℕ
    pub decoded : transmitic_core.Base64.decode debug user.public_id ≡ ok id_bytes
    pub has_id : user.public_id ≢ []
    pub has_ip : user.ip ≢ []

  -- What holds of each file by itself and with the users.
  pub record IsGoodFile (users : List SharedUser) (file : ConfigSharedFile) : Type 0 where
    pub known : All (λ name. In name (names_of users)) file.shared_with
    pub dir : Text
    pub is_dir : get_path_transmitic_config_dir ≡ some dir
    pub no_prefix : (rest : Text) → file.path ≢ dir ++ rest
    pub valid : IsAccepted file.path

  -- A configuration file without contradictions.
  pub record IsConsistent (c : ConfigFile) : Type 0 where
    pub port : IsPort c.sharing_port
    pub key_bytes : List ℕ
    pub key_decoded : transmitic_core.Base64.decode debug c.my_private_id ≡ ok key_bytes
    pub key_accepted : from_pkcs8 key_bytes ≡ true
    pub distinct_nicknames : Differ (λ user. to_lowercase user.nickname) c.shared_users
    pub distinct_ids : Differ (λ user. user.public_id) c.shared_users
    pub distinct_paths : Differ (λ file. file.path) c.shared_files
    pub users : All IsGoodUser c.shared_users
    pub files : All (IsGoodFile c.shared_users) c.shared_files
    pub one_mode : (c.ignore_incoming ≡ false) ⊎ (c.reverse_connection ≡ false)

  pub get_bytes-ok :
      (e : ConfigError) (s : Text) (bytes : List ℕ)
      → get_bytes_from_base64_str outside e s ≡ ok bytes
      → transmitic_core.Base64.decode debug s ≡ ok bytes
  unfolding get_bytes_from_base64_str
  get_bytes-ok e s bytes h = go (transmitic_core.Base64.decode debug s) h
    where
      go :
          (m : Outcome transmitic_core.Base64.InvalidBase64String (List ℕ))
          → (elim m as (λ x. Outcome ConfigError (List ℕ)) [
            | ok b ↦ ok b
            | err x ↦ err e
            | panic ↦ panic
          ])
            ≡ ok bytes
          → m ≡ ok bytes
      go (ok b) same = cc
      go (err x) same = cc
      go panic same = cc

  pub verify_user-IsGoodUser :
      (user : SharedUser) → verify_user outside user ≡ ok tt → IsGoodUser user
  unfolding verify_user get_blocked_user_name_chars
  verify_user-IsGoodUser user e =
      let (named, e1) = then-ok _ _ tt e in
      let (avoids, e2) = then-ok _ _ tt e1 in
      let (unreserved, e3) = then-ok _ _ tt e2 in
      let (has_port, e4) = then-ok _ _ tt e3 in
      let (port, e5) = then-ok _ _ tt e4 in
      let (has_id, e6) = then-ok _ _ tt e5 in
      let (bytes, decoded, e7) =
        bind-ok (get_bytes_from_base64_str outside ConfigError.public_id_no_base64 user.public_id)
          (λ public_id. refuse_if (is_empty user.ip) ConfigError.ip_empty) tt e6 in
      record {
        named = is_empty-false user.nickname (refuse_if-ok _ _ named);
        avoids =
            (contains_any-Avoids get_blocked_user_name_chars user.nickname).0
              (refuse_if-ok _ _ avoids);
        unreserved =
            not-contains_text (to_lowercase user.nickname) transmitic (refuse_if-ok _ _ unreserved);
        port = verify_config_port-IsPort user.port port;
        id_bytes = bytes;
        decoded = get_bytes-ok ConfigError.public_id_no_base64 user.public_id bytes decoded;
        has_id = is_empty-false user.public_id (refuse_if-ok _ _ has_id);
        has_ip = is_empty-false user.ip (refuse_if-ok _ _ e7);
      }
