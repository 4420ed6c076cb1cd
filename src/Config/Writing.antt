-- ===== src/Config/Writing.antt =====
-- `write_and_set_config` of src/config.rs: which file is in place after it.
use transmitic_core.Common.{
  ℕ, ◌+◌, ◌<◌, ◌≤◌, leb, arith, sym, subst, ◌≡◌, ◌≢◌, ◌⊎◌, refl, ap, ◌∙◌, Bool, true, false, Option,
  none, some, if◌then◌else◌, Outcome, ok, err, panic, ok_or, inl, inr,
}
use transmitic_core.Stream.Consts.{nonce_max}
use transmitic_core.Config.{Text, Config, ConfigFile, ConfigError, Outside}
use transmitic_core.Config.Verify.{verify_config}
use transmitic_core.Config.Parts.{bind-ok}
use transmitic_core.Config.Changes.{
  is_some, get_expected_config_path, prepare, write_config, next_nonce, set_config,
  write_and_set_config, Result,
}

-- The nonce after a write: without a password the same one; with a password the one above, and 0
-- after the highest number of 96 bits.
abbrev pub IsNext : Option Text → ℕ → ℕ → Type 0
IsNext none before after = after ≡ before
IsNext (some password) before after =
    (before < 79_228_162_514_264_337_593_543_950_335 → after ≡ before + 1)
    × (79_228_162_514_264_337_593_543_950_335 ≤ before → after ≡ 0)

module _ {Disk : Type 0} (outside : Outside Disk) where
  open outside use {to_string_pretty, encrypt}

  prepare-verify :
      (f c : ConfigFile) (password : Option Text) (nonce iterations version : ℕ) (path text : Text)
      → prepare outside f password nonce iterations version ≡ ok (c, path, text)
      → verify_config outside f ≡ ok c
  unfolding prepare
  prepare-verify f c password nonce iterations version path text e =
      let (c1, verified, e1) = bind-ok (verify_config outside f) _ (c, path, text) e in
      let (path1, found, e2) =
        bind-ok (ok_or (get_expected_config_path outside (is_some password)) ConfigError.no_path) _
          (c, path, text) e1 in
      let (str, printed, e3) =
        bind-ok (ok_or (to_string_pretty c1) ConfigError.not_serialized) _ (c, path, text) e2 in
      let (text1, sealed, e4) =
        bind-ok
          (elim password as (λ p. Outcome ConfigError Text) [
            | some p ↦ ok_or (encrypt str p nonce iterations version) ConfigError.not_encrypted
            | none ↦ ok str
          ])
          _ (c, path, text) e3 in
      let same : c1 ≡ c = ap (λ o. kept o) e4 in verified ∙ ap ok same
    where
      kept : Outcome ConfigError (ConfigFile × Text × Text) → ConfigFile
      kept (ok t) = t.0
      kept (err x) = c
      kept panic = c

  write_config-verify :
      (disk : Disk) (f c : ConfigFile) (password : Option Text) (nonce iterations version : ℕ)
      → (write_config outside disk f password nonce iterations version).1 ≡ ok c
      → verify_config outside f ≡ ok c
  unfolding write_config
  write_config-verify disk f c password nonce iterations version e =
      go (prepare outside f password nonce iterations version) refl e
    where
      chosen :
          (b : Bool) (c1 : ConfigFile)
          → (if b then ok c1 else err ConfigError.not_written) ≡ ok c
          → c1 ≡ c
      chosen true c1 h = cc
      chosen false c1 h = cc

      go :
          (m : Outcome ConfigError (ConfigFile × Text × Text))
          → prepare outside f password nonce iterations version ≡ m
          → (elim m as (λ x. Disk × Outcome ConfigError ConfigFile) [
            | ok (c1, path, text) ↦
                let (disk', written) = outside.write path text disk in
                (disk', if written then ok c1 else err ConfigError.not_written)
            | err x ↦ (disk, err x)
            | panic ↦ (disk, panic)
          ]).1
            ≡ ok c
          → verify_config outside f ≡ ok c
      go (ok (c1, path, text)) p h =
          prepare-verify f c1 password nonce iterations version path text p
          ∙ ap ok (chosen (outside.write path text disk).1 c1 h)
      go (err x) p h = cc
      go panic p h = cc

  -- The new file is in place, and it was verified; or the old one is.
  abbrev pub IsAtomic : Config → ConfigFile → Result Disk → Type 0
  IsAtomic c f (c', disk', result) =
      ((result ≡ ok tt) × (verify_config outside f ≡ ok c'.config_file))
      ⊎ ((result ≢ ok tt) × (c'.config_file ≡ c.config_file))

  set_config-IsAtomic :
      (c c1 : Config) (f : ConfigFile) (m : Disk × Outcome ConfigError ConfigFile)
      → ((w : ConfigFile) → m.1 ≡ ok w → verify_config outside f ≡ ok w)
      → c1.config_file ≡ c.config_file
      → IsAtomic c f (set_config outside c1 m)
        × ((set_config outside c1 m).0.nonce ≡ c1.nonce)
        × ((set_config outside c1 m).0.password ≡ c1.password)
        × ((set_config outside c1 m).0.local_private_key_bytes ≡ c1.local_private_key_bytes)
  unfolding set_config
  set_config-IsAtomic c c1 f (disk, ok w) verified same =
      (inl (refl, verified w refl), refl, refl, refl)
  set_config-IsAtomic c c1 f (disk, err e) verified same = (inr (λ h. cc, same), refl, refl, refl)
  set_config-IsAtomic c c1 f (disk, panic) verified same = (inr (λ h. cc, same), refl, refl, refl)

  next_nonce-IsNext : (c : Config) → IsNext c.password c.nonce (next_nonce outside c)
  unfolding next_nonce
  next_nonce-IsNext c = go c.password
    where
      go :
          (p : Option Text)
          → IsNext p c.nonce
              (if is_some p then (if leb nonce_max c.nonce then 0 else c.nonce + 1) else c.nonce)
      go none = refl
      go (some password) = (λ h. ground (arith, h), λ h. ground (arith, h))

  -- `write_and_set_config` either succeeds, and then the configuration holds what verification
  -- made of the new file, or it does not, and then it holds the file from before. In both
  -- cases the nonce is the same one if there is no password, and with a password it is one higher,
  -- or 0 where it was not below 2 ^ 96 - 1; the password and the key are the same.
  pub write_and_set_config-IsAtomic :
      (c : Config) (disk : Disk) (f : ConfigFile)
      → IsAtomic c f (write_and_set_config outside c disk f)
        × IsNext c.password c.nonce (write_and_set_config outside c disk f).0.nonce
        × ((write_and_set_config outside c disk f).0.password ≡ c.password)
        × ((write_and_set_config outside c disk f).0.local_private_key_bytes
            ≡ c.local_private_key_bytes)
  unfolding write_and_set_config
  write_and_set_config-IsAtomic c disk f =
      let (atomic, nonce, password, key) =
        set_config-IsAtomic c (record c { nonce = next_nonce outside c }) f
          (write_config outside disk f c.password (next_nonce outside c) c.iterations
            c.config_version)
          (λ w e.
            write_config-verify disk f w c.password (next_nonce outside c) c.iterations
              c.config_version e)
          refl in
      (atomic, subst (IsNext c.password c.nonce) (sym nonce) (next_nonce-IsNext c), password, key)
