-- ===== src/Handshake/Known.antt =====
-- Whom a connection of src/transmitic_stream.rs is with.
use mathlib.Core.Path.{◌≡◌, refl, ◌∙◌, sym, ap, subst}
use transmitic_core.Handshake.Steps.{
  Gives, Gives-holds, then_do-Gives, IsAlike, IsHeader, send_transmitic_header-Gives,
  receive_transmitic_header-Gives,
}
use transmitic_core.Handshake.Signers.{IsSigner, IsKeyFrom, receive_key-Gives, send_key-Gives}
use transmitic_core.Common.{ℕ, none, some, List, ok, err, take, drop}
use transmitic_core.Stream
use transmitic_core.Stream.{Socket}
use transmitic_core.Config.{SharedUser}
use transmitic_core.Uploader.{OwnedStream}
use transmitic_core.Handshake.{
  Crypto, TransmiticStream, HandshakeError, exit_no_user, new, send_transmitic_header,
  receive_transmitic_header, send_diffie_helman_key, receive_diffie_helman_key,
  get_encrypted_stream, connect, wait_for_incoming,
}

module _ (crypto : Crypto) where
  open crypto use {diffie_hellman}

  -- The peer spoke the protocol and signed its key as a user, the stream is that user's, and its key
  -- is the shared secret.
  pub record IsKnown (users : List SharedUser) (secret inbound key : List ℕ) (owned : OwnedStream)
      : Type 0 where
    pub spoken : IsHeader inbound
    pub signer : IsSigner crypto users (take 96 (drop 8 inbound)) owned.shared_user
    pub agreed : key ≡ diffie_hellman secret (take 32 (take 96 (drop 8 inbound)))

  abbrev Known :
      List SharedUser → List ℕ → List ℕ → TransmiticStream → List ℕ × OwnedStream → Type 0
  Known users secret inbound s (key, owned) = IsKnown users secret inbound key owned

  stream-Gives :
      (users : List SharedUser) (secret back inbound rest key : List ℕ) (t : TransmiticStream)
      (user : SharedUser)
      → IsHeader inbound
      → IsSigner crypto users (take 96 (drop 8 inbound)) user
      → IsAlike rest users (some user) t
      → key ≡ take 32 (take 96 (drop 8 inbound))
      → back ≡ secret
      → Gives (Known users secret inbound) (get_encrypted_stream crypto (diffie_hellman back key) t)
  unfolding get_encrypted_stream
  stream-Gives users secret back inbound rest key t user a b c d e =
      subst
        (λ o. Gives {E = HandshakeError} (Known users secret inbound) (elim o [
          | none ↦ (t, err exit_no_user)
          | some u ↦ (
            t,
            ok (
              diffie_hellman back key,
              record {
                encrypted_stream = Stream.new t.stream;
                shared_user = u;
                private_id_bytes = t.private_id_bytes;
              },
            ),
          )
        ]))
        (sym c.matched)
        (record {
          spoken = a;
          signer = b;
          agreed = ap (λ x. diffie_hellman x key) e ∙ ap (diffie_hellman secret) d;
        })

  connect-Gives :
      (secret inbound : List ℕ) (users : List SharedUser) (t : TransmiticStream)
      → IsAlike inbound users none t
      → Gives (Known users secret inbound) (connect crypto secret t)
  unfolding connect
  connect-Gives secret inbound users t h =
      then_do-Gives (λ s _. IsAlike inbound users none s) Q (send_transmitic_header t) _
        (send_transmitic_header-Gives inbound users none t h)
        (λ _ t1 h1.
          then_do-Gives (λ s _. IsAlike (drop 8 inbound) users none s × IsHeader inbound) Q
            (receive_transmitic_header t1) _
            (receive_transmitic_header-Gives inbound users none t1 h1)
            (λ _ t2 h2.
              then_do-Gives (λ s back. IsAlike (drop 8 inbound) users none s × (back ≡ secret)) Q
                (send_diffie_helman_key crypto secret t2) _
                (send_key-Gives crypto secret (drop 8 inbound) users none t2 h2.0)
                (λ back t3 h3.
                  then_do-Gives
                    (IsKeyFrom crypto users (take 96 (drop 8 inbound)) (drop 96 (drop 8 inbound))) Q
                    (receive_diffie_helman_key crypto t3) _
                    (receive_key-Gives crypto (drop 8 inbound) users t3 h3.0)
                    (λ key t4 h4.
                      stream-Gives users secret back inbound _ key t4 h4.user h2.1 h4.signer h4.left
                        h4.first h3.1))))
    where
      Q : TransmiticStream → List ℕ × OwnedStream → Type 0
      Q = Known users secret inbound

  wait_for_incoming-Gives :
      (secret inbound : List ℕ) (users : List SharedUser) (t : TransmiticStream)
      → IsAlike inbound users none t
      → Gives (Known users secret inbound) (wait_for_incoming crypto secret t)
  unfolding wait_for_incoming
  wait_for_incoming-Gives secret inbound users t h =
      then_do-Gives (λ s _. IsAlike (drop 8 inbound) users none s × IsHeader inbound) Q
        (receive_transmitic_header t) _ (receive_transmitic_header-Gives inbound users none t h)
        (λ _ t1 h1.
          then_do-Gives (λ s _. IsAlike (drop 8 inbound) users none s) Q (send_transmitic_header t1)
            _ (send_transmitic_header-Gives (drop 8 inbound) users none t1 h1.0)
            (λ _ t2 h2.
              then_do-Gives
                (IsKeyFrom crypto users (take 96 (drop 8 inbound)) (drop 96 (drop 8 inbound))) Q
                (receive_diffie_helman_key crypto t2) _
                (receive_key-Gives crypto (drop 8 inbound) users t2 h2)
                (λ key t3 h3.
                  then_do-Gives
                    (λ s back.
                      IsAlike (drop 96 (drop 8 inbound)) users (some h3.user) s × (back ≡ secret))
                    Q (send_diffie_helman_key crypto secret t3) _
                    (send_key-Gives crypto secret _ users (some h3.user) t3 h3.left)
                    (λ back t4 h4.
                      stream-Gives users secret back inbound _ key t4 h3.user h1.1 h3.signer h4.0
                        h3.first h4.1))))
    where
      Q : TransmiticStream → List ℕ × OwnedStream → Type 0
      Q = Known users secret inbound

-- A connection that `connect` returns is with a known user: the bytes received begin with the magic
-- number and the major version; the public ID of one of the users, the one of the stream, decodes
-- and verifies the signature behind the key received; and the cipher's key is the shared secret of
-- the own secret and that key.
pub connect-IsKnown :
    (crypto : Crypto) (stream : Socket) (users : List SharedUser)
    (private_id_bytes secret key : List ℕ) (t : TransmiticStream) (owned : OwnedStream)
    → connect crypto secret (new stream users private_id_bytes) ≡ (t, ok (key, owned))
    → IsKnown crypto users secret stream.inbound key owned
unfolding new
connect-IsKnown crypto stream users private_id_bytes secret key t owned e =
    Gives-holds (Known crypto users secret stream.inbound) _ t (key, owned) e
      (connect-Gives crypto secret stream.inbound users (new stream users private_id_bytes)
        (record { left = refl; same = refl; matched = refl }))

-- The same of a connection that `wait_for_incoming` returns: the bytes received begin with the magic
-- number and the major version; the public ID of one of the users, the one of the stream, decodes
-- and verifies the signature behind the key received; and the cipher's key is the shared secret of
-- the own secret and that key.
pub wait_for_incoming-IsKnown :
    (crypto : Crypto) (stream : Socket) (users : List SharedUser)
    (private_id_bytes secret key : List ℕ) (t : TransmiticStream) (owned : OwnedStream)
    → wait_for_incoming crypto secret (new stream users private_id_bytes) ≡ (t, ok (key, owned))
    → IsKnown crypto users secret stream.inbound key owned
unfolding new
wait_for_incoming-IsKnown crypto stream users private_id_bytes secret key t owned e =
    Gives-holds (Known crypto users secret stream.inbound) _ t (key, owned) e
      (wait_for_incoming-Gives crypto secret stream.inbound users
        (new stream users private_id_bytes) (record { left = refl; same = refl; matched = refl }))
