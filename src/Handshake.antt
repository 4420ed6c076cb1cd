-- ===== src/Handshake.antt =====
-- How two peers open a connection: src/transmitic_stream.rs, with the constants of
-- src/core_consts.rs. The signatures of ring and the keys of x25519_dalek are the parameter
-- `Crypto`; the random secret is an argument. A socket is the one of Stream. The process exits
-- where the source calls `exit`.
mod Steps
mod Signers
pub mod Known
mod Tests
use transmitic_core.Common.{
  ℕ, ◌+◌, Bool, true, false, not, Option, none, some, List, [], ◌∷◌, ◌++◌, Outcome, ok, err, panic,
  if◌then◌else◌, ltb, ◌==◌, length, take, drop, to_be_bytes, from_be_bytes, text_eq,
}
use transmitic_core.Common.Actions.{Action, pure, raise, gets, modify, lift, ◌>>=◌, ◌>>◌}
use transmitic_core.Base64
use transmitic_core.Stream
use transmitic_core.Stream.{Socket}
use transmitic_core.Config.{SharedUser}
use transmitic_core.Uploader.{OwnedStream}

abbrev pub tran_magic_number : List ℕ
tran_magic_number = b'T' ∷ b'R' ∷ b'A' ∷ b'Q' ∷ []

abbrev pub tran_api_major : ℕ
tran_api_major = 10

abbrev pub tran_api_minor : ℕ
tran_api_minor = 0

abbrev pub buffer_size : ℕ
buffer_size = 32 + 64

-- `sign` by the private ID, `verify` by public ID, text and signature; `public_key` of a secret, and
-- the shared secret of a secret and a public key. `debug` says whether the build checks assertions.
pub record Crypto : Type 0 where
  pub debug : Bool
  pub sign : List ℕ → List ℕ → List ℕ
  pub verify : List ℕ → List ℕ → List ℕ → Bool
  pub public_key : List ℕ → List ℕ
  pub diffie_hellman : List ℕ → List ℕ → List ℕ

pub record TransmiticStream : Type 0 where
  pub stream : Socket
  pub shared_users : List SharedUser
  pub private_id_bytes : List ℕ
  pub matched_shared_user : Option SharedUser

pub data HandshakeError : Type 0 where
  io magic_number_mismatch remote_id_not_found public_id_no_base64 exit_no_user : HandshakeError
  api_major_mismatch : ℕ → HandshakeError

abbrev pub Handshake : Type 0 → Type 0
Handshake A = Action TransmiticStream HandshakeError A

-- `TransmiticStream::new`, where the private ID is a key.
unfoldable pub new : Socket → List SharedUser → List ℕ → TransmiticStream
new stream shared_users private_id_bytes = record {
  stream = stream;
  shared_users = shared_users;
  private_id_bytes = private_id_bytes;
  matched_shared_user = none;
}

-- `write_all`
unfoldable pub write_all : List ℕ → Handshake (Unit {0})
write_all bytes t =
    if t.stream.broken
    then (t, err io)
    else (record t { stream = record (t.stream) { outbound = t.stream.outbound ++ bytes } }, ok tt)

-- `read_exact`
unfoldable pub read_exact : ℕ → Handshake (List ℕ)
read_exact size t = if ltb (length t.stream.inbound) size then (t, err io) else (
  record t { stream = record (t.stream) { inbound = drop size t.stream.inbound } },
  ok (take size t.stream.inbound),
)

abbrev pub header : List ℕ
header = tran_magic_number ++ (to_be_bytes 2 tran_api_major ++ to_be_bytes 2 tran_api_minor)

unfoldable pub send_transmitic_header : Handshake (Unit {0})
send_transmitic_header = write_all header

unfoldable pub receive_transmitic_header : Handshake (Unit {0})
receive_transmitic_header = do
  buffer ← read_exact 8
  let api_major = from_be_bytes (take 2 (drop 4 buffer))
  if not (text_eq (take 4 buffer) tran_magic_number)
      then raise magic_number_mismatch
      else (if not (api_major == tran_api_major)
          then raise (api_major_mismatch api_major)
          else pure tt)

module _ (crypto : Crypto) where
  open crypto use {debug, sign, verify, public_key, diffie_hellman}

  -- The secret is the result, as in the source.
  unfoldable pub send_diffie_helman_key : List ℕ → Handshake (List ℕ)
  send_diffie_helman_key local_diffie_secret t =
      (write_all (
            public_key local_diffie_secret
            ++ sign t.private_id_bytes (public_key local_diffie_secret))
          >> pure local_diffie_secret)
        t

  -- The loop over the users.
  unfoldable pub match_user :
      List SharedUser → List ℕ → List ℕ → Outcome HandshakeError (Option SharedUser)
  match_user [] public_bytes signed_bytes = ok none
  match_user (shared_user ∷ users) public_bytes signed_bytes =
      let rest = match_user users public_bytes signed_bytes in
      elim (Base64.decode debug shared_user.public_id) [
        | err e ↦ err public_id_no_base64
        | panic ↦ panic
        | ok remote_public_id_bytes ↦
            if verify remote_public_id_bytes public_bytes signed_bytes
            then ok (some shared_user)
            else rest
      ]

  abbrev pub set_matched : Option SharedUser → Handshake (Unit {0})
  set_matched none = pure tt
  set_matched (some user) = modify (λ t. record t { matched_shared_user = some user })

  abbrev pub require_matched : Option SharedUser → Handshake (Unit {0})
  require_matched none = raise remote_id_not_found
  require_matched (some user) = pure tt

  unfoldable pub receive_diffie_helman_key : Handshake (List ℕ)
  receive_diffie_helman_key = do
    buffer ← read_exact buffer_size
    shared_users ← gets (λ t. t.shared_users)
    found ← lift (match_user shared_users (take 32 buffer) (drop 32 buffer))
    set_matched found
    matched_shared_user ← gets (λ t. t.matched_shared_user)
    require_matched matched_shared_user
    pure (take 32 buffer)

  -- The key comes with the stream, whose cipher it is.
  unfoldable pub get_encrypted_stream : List ℕ → Handshake (List ℕ × OwnedStream)
  get_encrypted_stream encryption_key t = elim (t.matched_shared_user) [
    | none ↦ (t, err exit_no_user)
    | some shared_user ↦ (
      t,
      ok (
        encryption_key,
        record {
          encrypted_stream = Stream.new t.stream;
          shared_user = shared_user;
          private_id_bytes = t.private_id_bytes;
        },
      ),
    )
  ]

  unfoldable pub connect : List ℕ → Handshake (List ℕ × OwnedStream)
  connect secret = do
    send_transmitic_header
    receive_transmitic_header
    local_diffie_secret ← send_diffie_helman_key secret
    remote_diffie_key ← receive_diffie_helman_key
    get_encrypted_stream (diffie_hellman local_diffie_secret remote_diffie_key)

  unfoldable pub wait_for_incoming : List ℕ → Handshake (List ℕ × OwnedStream)
  wait_for_incoming secret = do
    receive_transmitic_header
    send_transmitic_header
    remote_diffie_key ← receive_diffie_helman_key
    local_diffie_secret ← send_diffie_helman_key secret
    get_encrypted_stream (diffie_hellman local_diffie_secret remote_diffie_key)
