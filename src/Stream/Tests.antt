-- ===== src/Stream/Tests.antt =====
-- The theorems about src/encrypted_stream.rs, at concrete streams under a toy cipher.
use transmitic_core.Common.{
  ℕ, ◌+◌, ◌*◌, ◌<◌, ◌≤◌, ◌≡◌, refl, false, List, [], ◌∷◌, ◌++◌, All, Outcome, ok, err, panic, ◌>>=◌,
  inr, length, zeros, length-zeros, arith,
}
use transmitic_core.Stream.Consts.{nonce_max}
use transmitic_core.Stream.Frames.{header}
use transmitic_core.Stream.Receiving.{read_oversized}
use transmitic_core.Stream.Nonces.{nonce_advances, nonce_bytes-injective}
use transmitic_core.Stream.Sessions.{
  Message, IsMessage, send_all, receive_all, send_all_total, receive_all-send_all,
}
use transmitic_core.Stream.Samples.{toy, toy-IsSealing, sender, sender-IsWritable, new-IsReadable}
use transmitic_core.Stream.{StreamError, EncryptedStream, new, read, write}

abbrev messages : List Message
messages = (4, 1 ∷ 2 ∷ 3 ∷ []) ∷ (5, []) ∷ []

messages-IsMessage : All IsMessage messages
messages-IsMessage = ((omega arith, omega arith), ((omega arith, omega arith), tt))

nonces_left : sender.nonce + 2 * length messages ≤ nonce_max
unfolding new
nonces_left = omega arith

send_all_total_example :
    (s' : EncryptedStream) × (send_all toy sender messages ≡ ok s')
    × (sender.nonce ≤ s'.nonce)
    × (s'.nonce ≤ sender.nonce + 2 * length messages)
send_all_total_example =
    send_all_total toy toy-IsSealing sender messages sender-IsWritable messages-IsMessage
      nonces_left

-- The sender after both messages, and what it wrote.
abbrev sender' : EncryptedStream
sender' =
    (send_all_total toy toy-IsSealing sender messages sender-IsWritable messages-IsMessage
      nonces_left).0

abbrev receiver : EncryptedStream
receiver =
    new (record { inbound = sender'.stream.outbound ++ (9 ∷ []); outbound = []; broken = false })

sent_from_empty : sender'.stream.outbound ≡ sender.stream.outbound ++ sender'.stream.outbound
unfolding new
sent_from_empty = refl

same_nonce : receiver.nonce ≡ sender.nonce
unfolding new
same_nonce = refl

inbound_lem : receiver.stream.inbound ≡ sender'.stream.outbound ++ (9 ∷ [])
unfolding new
inbound_lem = refl

receive_all-send_all_example :
    (r' : EncryptedStream) × (receive_all toy receiver (length messages) ≡ ok (messages, r'))
    × (r'.stream.inbound ≡ 9 ∷ [])
    × (r'.nonce ≡ sender'.nonce)
receive_all-send_all_example =
    receive_all-send_all toy toy-IsSealing sender sender' receiver messages
      (sender'.stream.outbound) (9 ∷ []) sender-IsWritable (new-IsReadable _) messages-IsMessage
      nonces_left
      ((send_all_total toy toy-IsSealing sender messages sender-IsWritable messages-IsMessage
        nonces_left).1)
      sent_from_empty same_nonce inbound_lem

-- The first message alone.
one_nonce_left : sender.nonce + 2 * length {A = Message} ((4, 1 ∷ 2 ∷ []) ∷ []) ≤ nonce_max
unfolding new
one_nonce_left = omega arith

sent_one :
    (s' : EncryptedStream) × (send_all toy sender ((4, 1 ∷ 2 ∷ []) ∷ []) ≡ ok s')
    × (sender.nonce ≤ s'.nonce)
    × (s'.nonce ≤ sender.nonce + 2 * 1)
sent_one =
    send_all_total toy toy-IsSealing sender ((4, 1 ∷ 2 ∷ []) ∷ []) sender-IsWritable
      ((omega arith, omega arith), tt) one_nonce_left

wrote_one : write toy sender 4 (1 ∷ 2 ∷ []) ≡ ok (sent_one.0)
unfolding send_all
wrote_one = bind_ok (write toy sender 4 (1 ∷ 2 ∷ [])) (sent_one.1)
  where
    bind_ok :
        (m : Outcome StreamError EncryptedStream)
        → (m >>= λ s'. send_all toy s' []) ≡ ok (sent_one.0)
        → m ≡ ok (sent_one.0)
    bind_ok (ok s') e = e
    bind_ok (err f) e = cc
    bind_ok panic e = cc

nonce_advances_example :
    (sender.nonce < (sent_one.0).nonce)
    × ((sent_one.0).nonce ≤ sender.nonce + 2)
    × ((sent_one.0).nonce ≤ nonce_max)
nonce_advances_example = nonce_advances toy sender (sent_one.0) 4 (1 ∷ 2 ∷ []) (inr wrote_one)

abbrev seven : ℕ
seven = 7

nonce_bytes-injective_example : seven ≡ seven
nonce_bytes-injective_example = nonce_bytes-injective seven seven (omega arith) (omega arith) refl

-- A header that announces 200,000 bytes.
abbrev long : List ℕ
long = zeros 200_000

abbrev sealed_header : List ℕ
sealed_header = zeros 16 ++ header 4 long

abbrev victim : EncryptedStream
victim = new (record { inbound = sealed_header ++ []; outbound = []; broken = false })

read_oversized_example : read toy victim ≡ panic
read_oversized_example =
    read_oversized toy toy-IsSealing victim 4 long sealed_header [] (new-IsReadable _) (omega arith)
      (omega (arith, length-zeros 200_000)) victim_nonce victim_inbound refl
      (omega (arith, length-zeros 200_000))
  where
    victim_nonce : victim.nonce < nonce_max
    victim_nonce = unfold new in omega arith

    victim_inbound : victim.stream.inbound ≡ sealed_header ++ []
    victim_inbound = unfold new in refl
