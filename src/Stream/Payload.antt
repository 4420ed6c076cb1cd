-- ===== src/Stream/Payload.antt =====
-- `get_message` and `get_payload` on a buffer that holds a whole message.
use transmitic_core.Common.{
  ℕ, ◌+◌, ◌-◌, ◌%◌, ◌^◌, ◌<◌, ◌≤◌, ◌≡◌, refl, ap, ◌∙◌, true, false, ◌&&◌, List, [], ◌++◌, length,
  length-append, take-append_length, drop-append_length, arith, to_be_bytes, from_be_bytes,
  length-to_be_bytes, from_be_bytes-to_be_bytes, append_assoc, ltb, ok, slice, slice_in_range,
  Bool-cases, inl, inr,
}
use transmitic_core.Stream.Consts.{max_data_size, is_crc_payload}
use transmitic_core.Stream.Sealing.{Cipher, IsSealing}
use transmitic_core.Stream.Frames.{header, length-header, body, body_crc}
use transmitic_core.Stream.{EncryptedStream, StreamError, get_message, get_payload}

-- Three slices of a buffer that begins with a header.
module _ (msg : ℕ) (payload rest : List ℕ) where
  pub slice_size :
      slice {E = StreamError} (header msg payload ++ rest) 2 6
      ≡ ok (to_be_bytes 4 (length payload % 2 ^ 32))
  slice_size =
      slice_in_range (header msg payload ++ rest) 2 6 (omega arith)
        (omega (arith, length-append (header msg payload) rest, length-header msg payload))
      ∙ (unfold header to_be_bytes in refl)

  slice_message : slice {E = StreamError} (header msg payload ++ rest) 0 2 ≡ ok (to_be_bytes 2 msg)
  slice_message =
      slice_in_range (header msg payload ++ rest) 0 2 (omega arith)
        (omega (arith, length-append (header msg payload) rest, length-header msg payload))
      ∙ (unfold header to_be_bytes in refl)

pub size_back : (n : ℕ) → n < 2 ^ 32 → from_be_bytes (to_be_bytes 4 (n % 2 ^ 32)) ≡ n
size_back n h = from_be_bytes-to_be_bytes 4 (n % 2 ^ 32) (omega arith) ∙ (omega arith)

pub get_message_lem :
    (s : EncryptedStream) (msg : ℕ) (payload rest : List ℕ)
    → msg < 2 ^ 16
    → s.buffer ≡ header msg payload ++ rest
    → get_message s ≡ ok msg
unfolding get_message
get_message_lem s msg payload rest h e =
    rw (e, slice_message msg payload rest, from_be_bytes-to_be_bytes 2 msg (omega arith))

-- The buffer holds a message: its header, and its body where there is a payload.
pub data Holds (cipher : Cipher) (msg : ℕ) (payload buffer : List ℕ) : Type 0 where
  holds_bare :
      (rest : List ℕ)
      → payload ≡ []
      → buffer ≡ header msg payload ++ rest
      → Holds cipher msg payload buffer
  holds_full :
      (rest : List ℕ)
      → buffer ≡ header msg payload ++ (body cipher msg payload ++ rest)
      → Holds cipher msg payload buffer

pub get_message-Holds :
    (cipher : Cipher) (s : EncryptedStream) (msg : ℕ) (payload : List ℕ)
    → msg < 2 ^ 16
    → Holds cipher msg payload s.buffer
    → get_message s ≡ ok msg
get_message-Holds cipher s msg payload h (holds_bare rest p e) =
    get_message_lem s msg payload rest h e
get_message-Holds cipher s msg payload h (holds_full rest e) = get_message_lem s msg payload _ h e

-- A slice that stands behind the header.
slice_behind :
    (msg : ℕ) (payload xs ys rest : List ℕ) (lo hi : ℕ)
    → lo ≡ 6 + length xs
    → hi ≡ lo + length ys
    → slice {E = StreamError} (header msg payload ++ (xs ++ (ys ++ rest))) lo hi ≡ ok ys
slice_behind msg payload xs ys rest lo hi p q =
    slice_in_range _ lo hi (omega arith) (
      omega (
        arith,
        length-append (header msg payload) (xs ++ (ys ++ rest)),
        length-header msg payload,
        length-append xs (ys ++ rest),
        length-append ys rest,
      ))
    ∙ ap ok (
        rw
          (
            ← append_assoc (header msg payload) xs (ys ++ rest),
            drop-append_length lo (header msg payload ++ xs) (ys ++ rest)
                (omega (arith, length-append (header msg payload) xs, length-header msg payload)),
          )
          (take-append_length (hi - lo) ys rest (omega arith)))

body_tail :
    (cipher : Cipher) (msg : ℕ) (payload : List ℕ)
    → (tail : List ℕ) × (body cipher msg payload ≡ payload ++ tail)
unfolding body
body_tail cipher msg payload = (_, refl)

module _ (cipher : Cipher) (s : EncryptedStream) (size msg : ℕ) (size_bytes payload : List ℕ) where
  -- `get_payload` from the slices that it takes, without a checksum and with one.
  payload_plain :
      slice {E = StreamError} s.buffer 2 6 ≡ ok size_bytes
      → from_be_bytes size_bytes ≡ size
      → slice {E = StreamError} s.buffer 6 (6 + size) ≡ ok payload
      → get_message s ≡ ok msg
      → (is_crc_payload msg && ltb 0 size) ≡ false
      → get_payload cipher s ≡ ok payload
  unfolding get_payload
  payload_plain e1 e2 e3 e4 e5 = rw (e1, e2, e3, e4, e5)

  payload_checked :
      (crc : List ℕ)
      → slice {E = StreamError} s.buffer 2 6 ≡ ok size_bytes
      → from_be_bytes size_bytes ≡ size
      → slice {E = StreamError} s.buffer 6 (6 + size) ≡ ok payload
      → get_message s ≡ ok msg
      → (is_crc_payload msg && ltb 0 size) ≡ true
      → slice {E = StreamError} s.buffer (6 + size) (6 + size + 4) ≡ ok crc
      → from_be_bytes crc ≡ cipher.hash payload
      → get_payload cipher s ≡ ok payload
  unfolding get_payload
  payload_checked crc e1 e2 e3 e4 e5 e6 e7 = rw (e1, e2, e3, e4, e5, e6, e7) (ground arith)

module _ (cipher : Cipher) (law : IsSealing cipher) where
  get_payload_full :
      (s : EncryptedStream) (msg : ℕ) (payload rest : List ℕ)
      → msg < 2 ^ 16
      → length payload ≤ max_data_size
      → s.buffer ≡ header msg payload ++ (body cipher msg payload ++ rest)
      → get_payload cipher s ≡ ok payload
  get_payload_full s msg payload rest hm hp e =
      let tail = body_tail cipher msg payload in
      elim (Bool-cases (is_crc_payload msg && ltb 0 (length payload))) [
        | inl t ↦
            let crc = to_be_bytes 4 (cipher.hash payload) in
            let e' : s.buffer ≡ header msg payload ++ (payload ++ (crc ++ rest)) =
              e
              ∙ ap (λ b. header msg payload ++ b)
                  (rw (body_crc cipher msg payload (ground arith), append_assoc)) in
            payload_checked cipher s (length payload) msg (to_be_bytes 4 (length payload % 2 ^ 32))
              payload crc (rw e (slice_size msg payload _))
              (size_back (length payload) (omega arith))
              (rw e' (
                slice_behind msg payload [] payload (crc ++ rest) 6 (6 + length payload) refl refl))
              (get_message_lem s msg payload _ hm e) t
              (rw e' (
                slice_behind msg payload payload crc rest (6 + length payload)
                  (6 + length payload + 4) refl
                  (omega (arith, length-to_be_bytes 4 (cipher.hash payload)))))
              (from_be_bytes-to_be_bytes 4 (cipher.hash payload) (law.hash-lt payload))
        | inr f ↦
            payload_plain cipher s (length payload) msg (to_be_bytes 4 (length payload % 2 ^ 32))
              payload (rw e (slice_size msg payload _)) (size_back (length payload) (omega arith))
              (rw (e, tail.1, append_assoc)
                (slice_behind msg payload [] payload (tail.0 ++ rest) 6 (6 + length payload) refl
                  refl))
              (get_message_lem s msg payload _ hm e) f
      ]

  -- After a whole message is in the buffer, `get_payload` returns its payload.
  pub get_payload-Holds :
      (s : EncryptedStream) (msg : ℕ) (payload : List ℕ)
      → msg < 2 ^ 16
      → length payload ≤ max_data_size
      → Holds cipher msg payload s.buffer
      → get_payload cipher s ≡ ok payload
  get_payload-Holds s msg payload hm hp (holds_full rest e) =
      get_payload_full s msg payload rest hm hp e
  get_payload-Holds s msg payload hm hp (holds_bare rest p e) =
      payload_plain cipher s (length payload) msg (to_be_bytes 4 (length payload % 2 ^ 32)) payload
        (rw e (slice_size msg payload _)) (size_back (length payload) (omega arith))
        (rw (e, p) (slice_behind msg [] [] [] rest 6 6 refl refl))
        (get_message_lem s msg payload _ hm e) (rw p (ground arith))
