-- ===== src/Handshake/Tests.antt =====
-- A run of src/transmitic_stream.rs with a peer that is known.
use mathlib.Core.Path.{refl}
use transmitic_core.Common.{
  ℕ, Bool, true, false, Option, none, some, List, [], ◌∷◌, ◌++◌, ok, length, take, drop, replicate,
  text_eq,
}
use transmitic_core.Base64
use transmitic_core.Stream
use transmitic_core.Stream.{Socket}
use transmitic_core.Config.{SharedUser}
use transmitic_core.Uploader.{OwnedStream}
use transmitic_core.Handshake.{
  Crypto, TransmiticStream, header, new, write_all, read_exact, send_transmitic_header,
  receive_transmitic_header, send_diffie_helman_key, receive_diffie_helman_key, match_user,
  get_encrypted_stream, connect, wait_for_incoming,
}
use transmitic_core.Handshake.Known.{IsKnown, connect-IsKnown, wait_for_incoming-IsKnown}

-- A signature repeats the text; keys are their own public keys.
abbrev toy : Crypto
toy = record {
  debug = false;
  sign = λ id text. text ++ text;
  verify = λ id text signed. text_eq (text ++ text) signed;
  public_key = λ secret. secret;
  diffie_hellman = λ secret key. secret ++ key;
}

abbrev ann : SharedUser
ann = record {
  nickname = b'a' ∷ [];
  public_id = [];
  ip = b'h' ∷ [];
  port = b'1' ∷ [];
  allowed = true;
}

abbrev mine : List ℕ
mine = replicate 32 1

abbrev theirs : List ℕ
theirs = replicate 32 2

abbrev socket : Socket
socket = record {
  inbound = header ++ (theirs ++ (theirs ++ theirs));
  outbound = [];
  broken = false;
}

abbrev after : TransmiticStream
after = record {
  stream = record { inbound = []; outbound = header ++ (mine ++ (mine ++ mine)); broken = false };
  shared_users = ann ∷ [];
  private_id_bytes = 5 ∷ [];
  matched_shared_user = some ann;
}

abbrev of_ann : Socket → OwnedStream
of_ann s = record { encrypted_stream = Stream.new s; shared_user = ann; private_id_bytes = 5 ∷ [] }

connect-IsKnown_example :
    IsKnown toy (ann ∷ []) mine socket.inbound (mine ++ theirs) (of_ann after.stream)
unfolding connect send_transmitic_header write_all new receive_transmitic_header read_exact
    transmitic_core.Common.to_be_bytes text_eq transmitic_core.Common.from_be_bytes
    send_diffie_helman_key receive_diffie_helman_key match_user Base64.decode get_encrypted_stream
connect-IsKnown_example =
    connect-IsKnown toy socket (ann ∷ []) (5 ∷ []) mine (mine ++ theirs) after (of_ann after.stream)
      refl

wait_for_incoming-IsKnown_example :
    IsKnown toy (ann ∷ []) mine socket.inbound (mine ++ theirs) (of_ann after.stream)
unfolding wait_for_incoming receive_transmitic_header read_exact new
    transmitic_core.Common.to_be_bytes text_eq transmitic_core.Common.from_be_bytes
    send_transmitic_header write_all receive_diffie_helman_key match_user Base64.decode
    send_diffie_helman_key get_encrypted_stream
wait_for_incoming-IsKnown_example =
    wait_for_incoming-IsKnown toy socket (ann ∷ []) (5 ∷ []) mine (mine ++ theirs) after
      (of_ann after.stream) refl
