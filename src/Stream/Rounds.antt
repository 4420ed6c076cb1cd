-- ===== src/Stream/Rounds.antt =====
-- Rounds of `read`, `get_message` and `get_payload` on one end of src/encrypted_stream.rs.
use transmitic_core.Common.{
  ℕ, ◌≡◌, ap, ap₂, subst, ◌∙◌, List, [], ◌∷◌, length, Outcome, ok, bind-ok,
}
use transmitic_core.Stream.Sealing.{Cipher}
use transmitic_core.Stream.Sessions.{Message, receive_all}
use transmitic_core.Stream.{EncryptedStream, StreamError, read, get_message, get_payload}

-- Rounds of `read`, `get_message` and `get_payload` that succeed.
pub data Receives (cipher : Cipher)
    : EncryptedStream → List Message → EncryptedStream → Type 0 where
  done : {r : EncryptedStream} → Receives cipher r [] r
  more :
      {r r' r'' : EncryptedStream} {m : Message} {ms : List Message}
      → read cipher r ≡ ok r'
      → get_message r' ≡ ok (m.0)
      → get_payload cipher r' ≡ ok (m.1)
      → Receives cipher r' ms r''
      → Receives cipher r (m ∷ ms) r''

same_round :
    (msg : ℕ) (payload : List ℕ) (m : Message) (ms' ms : List Message) (r r' : EncryptedStream)
    → ◌≡◌ {A = Outcome StreamError (List Message × EncryptedStream)}
        (ok ((msg, payload) ∷ ms', r))
        (ok (m ∷ ms, r'))
    → (msg ≡ m.0) × (payload ≡ m.1) × (ms' ≡ ms) × (r ≡ r')
same_round msg payload m ms' ms r r' e =
    let heads : (msg, payload) ≡ m = cc in (ap (λ m. m.0) heads, ap (λ m. m.1) heads, cc, cc)

pub receive_all-Receives :
    (cipher : Cipher) (r r' : EncryptedStream) (ms : List Message)
    → receive_all cipher r (length ms) ≡ ok (ms, r')
    → Receives cipher r ms r'
unfolding receive_all
receive_all-Receives cipher r r' [] e =
    subst (Receives cipher r []) (let same : r ≡ r' = cc in same) done
receive_all-Receives cipher r r' (m ∷ ms) e =
    let (r1, read_ok, e1) = bind-ok (read cipher r) _ _ e in
    let (msg, msg_ok, e2) = bind-ok (get_message r1) _ _ e1 in
    let (payload, payload_ok, e3) = bind-ok (get_payload cipher r1) _ _ e2 in
    let ((ms', r2), rest_ok, e4) = bind-ok (receive_all cipher r1 (length ms)) _ _ e3 in
    let (msg_eq, payload_eq, ms_eq, r_eq) = same_round msg payload m ms' ms r2 r' e4 in
    more read_ok (msg_ok ∙ ap ok msg_eq) (payload_ok ∙ ap ok payload_eq)
      (receive_all-Receives cipher r1 r' ms (rest_ok ∙ ap₂ (λ ms r. ok (ms, r)) ms_eq r_eq))
