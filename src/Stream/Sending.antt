-- ===== src/Stream/Sending.antt =====
-- `write` of src/encrypted_stream.rs against the frames on the wire.
use transmitic_core.Common.{
  ℕ, ◌+◌, ◌-◌, ◌%◌, ◌^◌, ◌<◌, ◌≤◌, ◌≡◌, refl, ap, ◌∙◌, false, some, List, [], ◌∷◌, ◌++◌, is_empty,
  length, length-append, length-drop, take, drop, take-append_length, drop-append_length, arith,
  to_be_bytes, length-to_be_bytes, append_assoc, drop-drop, ok, ◌>>=◌, slice, copy_from_slice,
  slice_in_range, copy_in_range, Bool-cases, inl, inr,
}
use transmitic_core.Stream.Consts.{max_data_size, is_crc_payload, nonce_max, total_buffer_size}
use transmitic_core.Stream.Sealing.{Cipher}
use transmitic_core.Stream.Frames.{
  header, length-header, body, length-body, body_size, body_crc, body_plain, bare, full, Frame,
}
use transmitic_core.Stream.{
  nonce_bytes, EncryptedStream, StreamError, write_message, write_payload, write, write_stream,
  increment_nonce,
}

-- The buffer after the header has been written.
abbrev with_header : ℕ → List ℕ → List ℕ → List ℕ
with_header msg payload buffer = header msg payload ++ drop 6 buffer

header_copied :
    (msg : ℕ) (payload buffer : List ℕ)
    → take 2 (to_be_bytes 2 msg ++ drop 2 buffer)
        ++ (to_be_bytes 4 (length payload % 2 ^ 32) ++ drop 6 (to_be_bytes 2 msg ++ drop 2 buffer))
      ≡ with_header msg payload buffer
unfolding header to_be_bytes
header_copied msg payload buffer = ap (λ rest. header msg payload ++ rest) (drop-drop 4 2 buffer)

length-with_header :
    (msg : ℕ) (payload buffer : List ℕ)
    → 6 ≤ length buffer
    → length (with_header msg payload buffer) ≡ length buffer
length-with_header msg payload buffer h = omega (
  arith,
  length-append (header msg payload) (drop 6 buffer),
  length-header msg payload,
  length-drop 6 buffer,
)

module _ (msg : ℕ) (payload buffer : List ℕ) (fits : 6 ≤ length buffer) where
  copy_message_type :
      copy_from_slice {E = StreamError} buffer 0 2 (to_be_bytes 2 msg)
      ≡ ok (to_be_bytes 2 msg ++ drop 2 buffer)
  copy_message_type =
      copy_in_range buffer 0 (to_be_bytes 2 msg) 2 (omega (arith, length-to_be_bytes 2 msg))
        (omega arith)

  copy_payload_size :
      copy_from_slice {E = StreamError}
        (to_be_bytes 2 msg ++ drop 2 buffer)
        2
        6
        (to_be_bytes 4 (length payload % 2 ^ 32))
      ≡ ok (with_header msg payload buffer)
  copy_payload_size =
      copy_in_range (to_be_bytes 2 msg ++ drop 2 buffer) 2 (to_be_bytes 4 (length payload % 2 ^ 32))
        6 (omega (arith, length-to_be_bytes 4 (length payload % 2 ^ 32)))
        (omega (
          arith,
          length-append (to_be_bytes 2 msg) (drop 2 buffer),
          length-to_be_bytes 2 msg,
          length-drop 2 buffer,
        ))
      ∙ ap ok (header_copied msg payload buffer)

  slice-header :
      slice {E = StreamError} (with_header msg payload buffer) 0 6 ≡ ok (header msg payload)
  slice-header =
      slice_in_range (with_header msg payload buffer) 0 6 (omega arith)
        (omega (arith, length-with_header msg payload buffer fits))
      ∙ ap ok
          (take-append_length 6 (header msg payload) (drop 6 buffer) (length-header msg payload))

pub sub_zero : (n : ℕ) → n - 0 ≡ n
sub_zero n = omega arith

pub slice_front :
    (xs rest : List ℕ) (n : ℕ) → length xs ≡ n → slice {E = StreamError} (xs ++ rest) 0 n ≡ ok xs
slice_front xs rest n e =
    slice_in_range (xs ++ rest) 0 n (omega arith) (omega (arith, length-append xs rest))
    ∙ ap ok (rw sub_zero (take-append_length n xs rest e))

module _ (payload buffer : List ℕ) (size : ℕ) (size_eq : length payload ≡ size) where
  pub copy_front :
      size ≤ length buffer
      → copy_from_slice {E = StreamError} buffer 0 size payload ≡ ok (payload ++ drop size buffer)
  copy_front h = copy_in_range buffer 0 payload size (omega arith) h

  -- The checksum behind the payload.
  copy_behind :
      (crc : List ℕ)
      → length crc ≡ 4
      → size + 4 ≤ length buffer
      → copy_from_slice {E = StreamError} (payload ++ drop size buffer) size (size + 4) crc
        ≡ ok ((payload ++ crc) ++ drop (size + 4) buffer)
  copy_behind crc four h =
      copy_in_range (payload ++ drop size buffer) size crc (size + 4) (omega arith)
        (omega (arith, length-append payload (drop size buffer), length-drop size buffer))
      ∙ ap ok (
          rw
            (
              take-append_length size payload (drop size buffer) size_eq,
              ← drop-drop 4 size (payload ++ drop size buffer),
              drop-append_length size payload (drop size buffer) size_eq,
              drop-drop 4 size buffer,
              append_assoc,
            )
            refl)

write_sealed :
    (s : EncryptedStream) (buffer sealed : List ℕ)
    → s.stream.broken ≡ false
    → s.nonce < nonce_max
    → (write_stream (record s { buffer = buffer }) sealed >>= increment_nonce)
      ≡ ok (record s {
        stream = record (s.stream) { outbound = s.stream.outbound ++ sealed };
        nonce = s.nonce + 1;
        buffer = buffer;
      })
unfolding write_stream increment_nonce
write_sealed s buffer sealed hb hn = ground arith

-- A stream with its buffer, which can be written to.
abbrev pub IsWritable : EncryptedStream → Type 0
IsWritable s = (length s.buffer ≡ total_buffer_size) × (s.stream.broken ≡ false)

-- What `write` changes: the frame is on the wire, and the nonce has moved on.
pub record IsSent (s s' : EncryptedStream) (frame : List ℕ) (nonce : ℕ) : Type 0 where
  pub outbound : s'.stream.outbound ≡ s.stream.outbound ++ frame
  pub inbound : s'.stream.inbound ≡ s.stream.inbound
  pub crypto_buffer : s'.crypto_buffer ≡ s.crypto_buffer
  pub nonce_moved : s'.nonce ≡ nonce
  pub writable : IsWritable s'

module _ (cipher : Cipher) where
  open cipher use {encrypt}

  -- The buffer after the body has been written.
  abbrev with_body : ℕ → List ℕ → List ℕ → List ℕ
  with_body msg payload buffer =
      body cipher msg payload ++ drop (body_size cipher msg (length payload)) buffer

  -- The stream after one sealed block has been sent.
  abbrev pub sent : EncryptedStream → List ℕ → List ℕ → EncryptedStream
  sent s buffer sealed = record s {
    stream = record (s.stream) { outbound = s.stream.outbound ++ sealed };
    nonce = s.nonce + 1;
    buffer = buffer;
  }

  write_message_lem :
      (s : EncryptedStream) (msg : ℕ) (payload sealed : List ℕ)
      → length s.buffer ≡ total_buffer_size
      → s.stream.broken ≡ false
      → s.nonce < nonce_max
      → encrypt (nonce_bytes s.nonce) (header msg payload) ≡ some sealed
      → write_message cipher s msg payload ≡ ok (sent s (with_header msg payload s.buffer) sealed)
  unfolding write_message
  write_message_lem s msg payload sealed hl hb hn he =
      rw
        (
          copy_message_type msg payload s.buffer (omega arith),
          copy_payload_size msg payload s.buffer (omega arith),
          slice-header msg payload s.buffer (omega arith),
          he,
        )
        (write_sealed s (with_header msg payload s.buffer) sealed hb hn)

  write_payload_lem :
      (s : EncryptedStream) (msg : ℕ) (payload sealed : List ℕ)
      → length s.buffer ≡ total_buffer_size
      → length payload ≤ max_data_size
      → s.stream.broken ≡ false
      → s.nonce < nonce_max
      → encrypt (nonce_bytes s.nonce) (body cipher msg payload) ≡ some sealed
      → write_payload cipher s msg payload ≡ ok (sent s (with_body msg payload s.buffer) sealed)
  unfolding write_payload
  write_payload_lem s msg payload sealed hl hp hb hn he = elim (Bool-cases (is_crc_payload msg)) [
    | inl t ↦
        let crc = to_be_bytes 4 (cipher.hash payload) in
        let four : length crc ≡ 4 = length-to_be_bytes 4 (cipher.hash payload) in
        let he' = rw (body_crc cipher msg payload t) at he in
        rw
          (
            body_crc cipher msg payload t,
            t,
            copy_front payload s.buffer (length payload) refl (omega arith),
            copy_behind payload s.buffer (length payload) refl crc four (omega arith),
            slice_front (payload ++ crc) (drop (length payload + 4) s.buffer) (length payload + 4)
                (omega (arith, length-append payload crc)),
            he',
          )
          (write_sealed s ((payload ++ crc) ++ drop (length payload + 4) s.buffer) sealed hb hn)
    | inr f ↦
        let he' = rw (body_plain cipher msg payload f) at he in
        rw
          (
            body_plain cipher msg payload f,
            f,
            copy_front payload s.buffer (length payload) refl (omega arith),
            slice_front payload (drop (length payload) s.buffer) (length payload) refl,
            he',
          )
          (write_sealed s (payload ++ drop (length payload) s.buffer) sealed hb hn)
  ]

  length-with_body :
      (msg : ℕ) (payload buffer : List ℕ)
      → length payload + 4 ≤ length buffer
      → length (with_body msg payload buffer) ≡ length buffer
  length-with_body msg payload buffer h = ground (
    arith,
    length-append (body cipher msg payload) (drop (body_size cipher msg (length payload)) buffer),
    length-body cipher msg payload,
    length-drop (body_size cipher msg (length payload)) buffer,
  )

  pub write-Frame :
      (s : EncryptedStream) (msg : ℕ) (payload : List ℕ) {frame : List ℕ} {nonce : ℕ}
      → IsWritable s
      → length payload ≤ max_data_size
      → nonce ≤ nonce_max
      → Frame cipher s.nonce msg payload frame nonce
      → (s' : EncryptedStream) × (write cipher s msg payload ≡ ok s') × IsSent s s' frame nonce
  unfolding write
  write-Frame s msg payload hw hp hn (bare {sealed} e sealing) = (
    sent s (with_header msg payload s.buffer) sealed,
    rw (write_message_lem s msg payload sealed hw.0 hw.1 (omega arith) sealing, ap is_empty e),
    record {
      outbound = refl;
      inbound = refl;
      crypto_buffer = refl;
      nonce_moved = refl;
      writable = (omega (arith, length-with_header msg payload s.buffer (omega arith)), hw.1);
    },
  )
  write-Frame s msg [] hw hp hn (full pos sealing sealing') = absurd (omega arith)
  write-Frame s msg (p ∷ payload) hw hp hn (full {sealed} {sealed'} pos sealing sealing') =
      let s1 = sent s (with_header msg (p ∷ payload) s.buffer) sealed in
      let long : length s1.buffer ≡ total_buffer_size =
        omega (arith, length-with_header msg (p ∷ payload) s.buffer (omega arith)) in
      (
        sent s1 (with_body msg (p ∷ payload) s1.buffer) sealed',
        rw (write_message_lem s msg (p ∷ payload) sealed hw.0 hw.1 (omega arith) sealing)
            (write_payload_lem s1 msg (p ∷ payload) sealed' long hp hw.1 (omega arith) sealing'),
        record {
          outbound = append_assoc s.stream.outbound sealed sealed';
          inbound = refl;
          crypto_buffer = refl;
          nonce_moved = refl;
          writable =
              (omega (arith, length-with_body msg (p ∷ payload) s1.buffer (omega arith)), hw.1);
        },
      )
