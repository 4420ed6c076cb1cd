-- ===== src/Config/Removal.antt =====
-- `remove_user` of src/config.rs: what is left of the user.
use transmitic_core.Common.{
  ◌≡◌, ◌≢◌, sym, subst, ◌∙◌, not, List, [], ◌∷◌, map, All, text_eq, text_eq_iff, ok, inl, inr,
  Bool-cases,
}
use transmitic_core.Config.{Text, Config, ConfigFile, ConfigSharedFile, SharedUser, Outside}
use transmitic_core.Config.Edits.{retain, unshare}
use transmitic_core.Config.Sanitize.{
  insert_by_key, sort_by_key, sanitize_user, sanitize_config, text_lt,
}
use transmitic_core.Config.Consistent.{In, names_of, IsGoodFile}
use transmitic_core.Config.Verified.{verify_config-IsConsistent}
use transmitic_core.Config.Changes.{remove_user}
use transmitic_core.Config.Writing.{write_and_set_config-IsAtomic}

module _ {A : Type 0} (P : A → Type 0) where
  insert_by_key-All :
      (key : A → Text) (a : A) (xs : List A) → P a → All P xs → All P (insert_by_key key a xs)
  unfolding insert_by_key
  insert_by_key-All key a [] pa h = (pa, tt)
  insert_by_key-All key a (x ∷ xs) pa h = elim (Bool-cases (text_lt (key x) (key a))) [
    | inl less ↦ rw less (h.0, insert_by_key-All key a xs pa h.1)
    | inr more ↦ rw more (pa, h)
  ]

  sort_by_key-All : (key : A → Text) (xs : List A) → All P xs → All P (sort_by_key key xs)
  unfolding sort_by_key
  sort_by_key-All key [] h = tt
  sort_by_key-All key (x ∷ xs) h =
      insert_by_key-All key x (sort_by_key key xs) h.0 (sort_by_key-All key xs h.1)

-- No user of the name.
abbrev pub IsAbsent : Text → SharedUser → Type 0
IsAbsent nickname user = user.nickname ≢ nickname

module _ {Disk : Type 0} (outside : Outside Disk) where
  open outside use {trim}

  -- What is kept is trimmed and has another name.
  kept-IsAbsent :
      (nickname : Text) (users : List SharedUser)
      → All (λ user. trim user.nickname ≡ user.nickname) users
      → All
          (λ user. trim user.nickname ≢ nickname)
          (retain (λ x. not (text_eq x.nickname nickname)) users)
  unfolding retain
  kept-IsAbsent nickname [] h = tt
  kept-IsAbsent nickname (user ∷ users) h = elim (Bool-cases (text_eq user.nickname nickname)) [
    | inl same ↦ rw same (kept-IsAbsent nickname users h.1)
    | inr other ↦ rw other (
      λ e. cc ((text_eq_iff user.nickname nickname).1 (sym h.0 ∙ e), other),
      kept-IsAbsent nickname users h.1,
    )
  ]

  map-IsAbsent :
      (nickname : Text) (users : List SharedUser)
      → All (λ user. trim user.nickname ≢ nickname) users
      → All (IsAbsent nickname) (map (sanitize_user outside) users)
  unfolding sanitize_user
  map-IsAbsent nickname [] h = tt
  map-IsAbsent nickname (user ∷ users) h = (h.0, map-IsAbsent nickname users h.1)

  absent-In :
      (nickname : Text) (users : List SharedUser)
      → All (IsAbsent nickname) users
      → ¬ In nickname (names_of users)
  unfolding In
  absent-In nickname [] h i = i
  absent-In nickname (user ∷ users) h (inl e) = h.0 e
  absent-In nickname (user ∷ users) h (inr i) = absent-In nickname users h.1 i

  unshared :
      (nickname : Text) (names others : List Text)
      → ¬ In nickname others
      → All (λ name. In name others) names
      → ¬ In nickname names
  unfolding In
  unshared nickname [] others gone h i = i
  unshared nickname (name ∷ names) others gone h (inl e) = gone (subst (λ n. In n others) e h.0)
  unshared nickname (name ∷ names) others gone h (inr i) = unshared nickname names others gone h.1 i

  files_unshared :
      (nickname : Text) (users : List SharedUser) (files : List ConfigSharedFile)
      → ¬ In nickname (names_of users)
      → All (IsGoodFile outside users) files
      → All (λ file. ¬ In nickname file.shared_with) files
  files_unshared nickname users [] gone h = tt
  files_unshared nickname users (file ∷ files) gone h = (
    unshared nickname file.shared_with (names_of users) gone h.0.known,
    files_unshared nickname users files gone h.1,
  )

  -- Where trimming changes no nickname of the users, a `remove_user` that succeeds leaves no user
  -- of the nickname and no file that is shared with it.
  pub remove_user-IsAbsent :
      (nickname : Text) (c : Config) (disk : Disk)
      → All (λ user. trim user.nickname ≡ user.nickname) c.config_file.shared_users
      → (remove_user outside nickname c disk).2 ≡ ok tt
      → All (IsAbsent nickname) (remove_user outside nickname c disk).0.config_file.shared_users
        × All
            (λ file. ¬ In nickname file.shared_with)
            (remove_user outside nickname c disk).0.config_file.shared_files
  unfolding remove_user
  remove_user-IsAbsent nickname c disk h done =
      elim ((write_and_set_config-IsAtomic outside c disk (record (c.config_file) {
        shared_files = map (unshare nickname) c.config_file.shared_files;
        shared_users = retain (λ x. not (text_eq x.nickname nickname)) c.config_file.shared_users;
      })).0) [
        | inr (failed, same) ↦ absurd (failed done)
        | inl (fine, verified) ↦
            let (sanitized, good) = verify_config-IsConsistent outside _ _ verified in
            let absent =
              subst (λ (f : ConfigFile). All (IsAbsent nickname) f.shared_users) (sym sanitized)
                (unfold sanitize_config in
                  map-IsAbsent nickname _ (
                    sort_by_key-All _ (λ user. user.nickname) _
                      (kept-IsAbsent nickname c.config_file.shared_users h))) in
            (absent, files_unshared nickname _ _ (absent-In nickname _ absent) good.files)
      ]
