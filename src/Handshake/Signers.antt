-- ===== src/Handshake/Signers.antt =====
-- Who signed the key that src/transmitic_stream.rs receives.
use mathlib.Core.Path.{◌≡◌, refl, sym, subst}
use mathlib.Core.List.{Mem, mem-cons_self, mem-cons_of_mem}
use transmitic_core.Common.{
  ℕ, Bool, true, false, Option, none, some, List, [], ◌∷◌, Outcome, ok, err, panic, if◌then◌else◌,
  take, drop,
}
use transmitic_core.Handshake.Steps.{
  Gives, then_do-Gives, IsAlike, write_all-Gives, read_exact-Gives,
}
use transmitic_core.Common.Actions.{then_do}
use transmitic_core.Base64
use transmitic_core.Config.{SharedUser}
use transmitic_core.Handshake.{
  Crypto, TransmiticStream, HandshakeError, public_id_no_base64, write_all, read_exact,
  send_diffie_helman_key, receive_diffie_helman_key, match_user, set_matched, require_matched,
}

module _ (crypto : Crypto) where
  open crypto use {debug, sign, verify, public_key, diffie_hellman}

  -- One of the users, whose public ID verifies the signature of the key.
  pub record IsSigner (users : List SharedUser) (buffer : List ℕ) (user : SharedUser) : Type 0 where
    pub id_bytes : List ℕ
    pub known : Mem user users
    pub decoded : Base64.decode debug user.public_id ≡ ok id_bytes
    pub verified : verify id_bytes (take 32 buffer) (drop 32 buffer) ≡ true

  abbrev IsMatch : List SharedUser → List ℕ → Option SharedUser → Type 0
  IsMatch users buffer none = Unit
  IsMatch users buffer (some user) = IsSigner users buffer user

  abbrev Finds : List SharedUser → List ℕ → Outcome HandshakeError (Option SharedUser) → Type 0
  Finds users buffer (ok found) = IsMatch users buffer found
  Finds users buffer (err e) = Unit
  Finds users buffer panic = Unit

  weaken :
      (u user : SharedUser) (users : List SharedUser) (buffer : List ℕ)
      → IsSigner users buffer user
      → IsSigner (u ∷ users) buffer user
  weaken u user users buffer h = record {
    id_bytes = h.id_bytes;
    known = mem-cons_of_mem u h.known;
    decoded = h.decoded;
    verified = h.verified;
  }

  weaken-Finds :
      (u : SharedUser) (users : List SharedUser) (buffer : List ℕ)
      (r : Outcome HandshakeError (Option SharedUser))
      → Finds users buffer r
      → Finds (u ∷ users) buffer r
  weaken-Finds u users buffer (ok none) h = tt
  weaken-Finds u users buffer (ok (some user)) h = weaken u user users buffer h
  weaken-Finds u users buffer (err e) h = tt
  weaken-Finds u users buffer panic h = tt

  Finds-if :
      (users : List SharedUser) (buffer : List ℕ) (b : Bool) (user : SharedUser)
      (r : Outcome HandshakeError (Option SharedUser))
      → (b ≡ true → IsSigner users buffer user)
      → Finds users buffer r
      → Finds users buffer (if b then ok (some user) else r)
  Finds-if users buffer true user r one rest = one refl
  Finds-if users buffer false user r one rest = rest

  match_user-Finds :
      (users : List SharedUser) (buffer : List ℕ)
      → Finds users buffer (match_user crypto users (take 32 buffer) (drop 32 buffer))
  unfolding match_user
  match_user-Finds [] buffer = tt
  match_user-Finds (u ∷ users) buffer =
      go (Base64.decode debug u.public_id) refl _
        (weaken-Finds u users buffer _ (match_user-Finds users buffer))
    where
      go :
          (r : Outcome Base64.InvalidBase64String (List ℕ))
          → Base64.decode debug u.public_id ≡ r
          → (rest : Outcome HandshakeError (Option SharedUser)) → Finds (u ∷ users) buffer rest
          → Finds (u ∷ users) buffer (elim r [
            | err e ↦ err public_id_no_base64
            | panic ↦ panic
            | ok id ↦ if verify id (take 32 buffer) (drop 32 buffer) then ok (some u) else rest
          ])
      go (err e) h rest k = tt
      go panic h rest k = tt
      go (ok id) h rest k =
          Finds-if (u ∷ users) buffer (verify id (take 32 buffer) (drop 32 buffer)) u rest
            (λ v. record { id_bytes = id; known = mem-cons_self; decoded = h; verified = v }) k

  -- The user that signed is the match, and the key is its key.
  pub record IsKeyFrom (users : List SharedUser) (buffer inbound : List ℕ) (t : TransmiticStream)
      (key : List ℕ) : Type 0 where
    pub user : SharedUser
    pub signer : IsSigner users buffer user
    pub left : IsAlike inbound users (some user) t
    pub first : key ≡ take 32 buffer

  lift-Finds :
      (users : List SharedUser) (buffer inbound : List ℕ) (t : TransmiticStream)
      (r : Outcome HandshakeError (Option SharedUser))
      → IsAlike inbound users none t
      → Finds users buffer r
      → Gives (λ s found. IsAlike inbound users none s × IsMatch users buffer found) (t, r)
  lift-Finds users buffer inbound t (ok found) h k = (h, k)
  lift-Finds users buffer inbound t (err e) h k = tt
  lift-Finds users buffer inbound t panic h k = tt

  matched-Gives :
      (users : List SharedUser) (buffer inbound : List ℕ) (t : TransmiticStream)
      (found : Option SharedUser)
      → IsAlike inbound users none t
      → IsMatch users buffer found
      → Gives (IsKeyFrom users buffer inbound) (
          then_do (set_matched crypto found t) (λ _ s.
            then_do
              (require_matched crypto s.matched_shared_user s)
              (λ _ s. (s, ok (take 32 buffer)))))
  matched-Gives users buffer inbound t none h k =
      subst
        (λ o.
          Gives (IsKeyFrom users buffer inbound)
            (then_do (require_matched crypto o t) (λ _ s. (s, ok (take 32 buffer)))))
        (sym h.matched) tt
  matched-Gives users buffer inbound t (some user) h k = record {
    user = user;
    signer = k;
    left = record { left = h.left; same = h.same; matched = refl };
    first = refl;
  }

  same-users :
      (u users : List SharedUser) (buffer : List ℕ) (r : Outcome HandshakeError (Option SharedUser))
      → u ≡ users
      → Finds u buffer r
      → Finds users buffer r
  same-users u users buffer r e h = subst (λ x. Finds x buffer r) e h

  same-buffer :
      (users : List SharedUser) (b buffer inbound : List ℕ)
      (r : TransmiticStream × Outcome HandshakeError (List ℕ))
      → b ≡ buffer
      → Gives (IsKeyFrom users b inbound) r
      → Gives (IsKeyFrom users buffer inbound) r
  same-buffer users b buffer inbound r e h = subst (λ x. Gives (IsKeyFrom users x inbound) r) e h

  pub receive_key-Gives :
      (inbound : List ℕ) (users : List SharedUser) (t : TransmiticStream)
      → IsAlike inbound users none t
      → Gives
          (IsKeyFrom users (take 96 inbound) (drop 96 inbound))
          (receive_diffie_helman_key crypto t)
  unfolding receive_diffie_helman_key
  receive_key-Gives inbound users t h =
      then_do-Gives (λ s bytes. IsAlike (drop 96 inbound) users none s × (bytes ≡ take 96 inbound))
        Q (read_exact 96 t) _ (read_exact-Gives 96 inbound users none t h)
        (λ bytes s k. same-buffer users bytes (take 96 inbound) (drop 96 inbound) _ k.1 (
          then_do-Gives
            (λ s found. IsAlike (drop 96 inbound) users none s × IsMatch users bytes found)
            (IsKeyFrom users bytes (drop 96 inbound))
            (s, match_user crypto s.shared_users (take 32 bytes) (drop 32 bytes)) _
            (lift-Finds users bytes (drop 96 inbound) s _ k.0 (
              same-users s.shared_users users bytes _ k.0.same
                (match_user-Finds s.shared_users bytes)))
            (λ found r m. matched-Gives users bytes (drop 96 inbound) r found m.0 m.1)))
    where
      Q : TransmiticStream → List ℕ → Type 0
      Q = IsKeyFrom users (take 96 inbound) (drop 96 inbound)

  -- A send of the key gives its secret back.
  pub send_key-Gives :
      (secret inbound : List ℕ) (users : List SharedUser) (m : Option SharedUser)
      (t : TransmiticStream)
      → IsAlike inbound users m t
      → Gives
          (λ s back. IsAlike inbound users m s × (back ≡ secret))
          (send_diffie_helman_key crypto secret t)
  unfolding send_diffie_helman_key
  send_key-Gives secret inbound users m t h =
      then_do-Gives (λ s _. IsAlike inbound users m s)
        (λ s back. IsAlike inbound users m s × (back ≡ secret)) (write_all _ t) _
        (write_all-Gives _ inbound users m t h) (λ _ s k. (k, refl))
