-- ===== src/Stream/Nonces.antt =====
-- The nonce of src/encrypted_stream.rs: its counter over reads and writes, and its bytes.
use transmitic_core.Common.{
  ℕ, ◌+◌, ◌%◌, ◌^◌, ◌<◌, ◌≤◌, ◌≡◌, refl, ap, sym, ◌∙◌, List, not, arith, ok, ◌>>=◌, slice,
  copy_from_slice, take, length, ltb, ok_or, ◌==◌, to_be_bytes, from_be_bytes,
  from_be_bytes-to_be_bytes, drop, ◌⊎◌, inl, inr, subst, is_empty, if◌then◌else◌,
}
use transmitic_core.Common.Ensures.{
  Ensures, ensured, Ensures-holds, Ensures-ok, Ensures-err, Ensures-if, Ensures-any, Ensures-bind,
}
use transmitic_core.Stream.Consts.{
  nonce_max, msg_type_size, payload_offset, crc_size, is_crc_payload,
}
use transmitic_core.Stream.Sealing.{Cipher}
use transmitic_core.Stream.{
  EncryptedStream, StreamError, get_message, write, write_message, write_payload, write_stream,
  read, read_stream, read_block, increment_nonce, nonce_bytes,
}

-- The 12 bytes determine the counter.
pub nonce_bytes-injective :
    (m n : ℕ) → m ≤ nonce_max → n ≤ nonce_max → nonce_bytes m ≡ nonce_bytes n → m ≡ n
unfolding nonce_bytes
nonce_bytes-injective m n hm hn e =
    sym (from_be_bytes-to_be_bytes 12 m (omega arith))
    ∙ ap from_be_bytes (low_bytes m ∙ e ∙ sym (low_bytes n))
    ∙ from_be_bytes-to_be_bytes 12 n (omega arith)
  where
    low_bytes : (k : ℕ) → to_be_bytes 12 k ≡ drop 4 (to_be_bytes 16 k)
    low_bytes k = unfold to_be_bytes in refl

-- A step that moves the counter on by one.
abbrev Moved : ℕ → EncryptedStream → Type 0
Moved n s' = (s'.nonce ≡ n + 1) × (s'.nonce ≤ nonce_max)

increment_nonce-Moved : (s : EncryptedStream) → Ensures (Moved s.nonce) (increment_nonce s)
increment_nonce-Moved s = ensured (λ s' e. unfold increment_nonce in ground arith)

-- A step that leaves the counter alone.
abbrev Kept : ℕ → EncryptedStream → Type 0
Kept n s' = s'.nonce ≡ n

write_stream-Kept :
    (s : EncryptedStream) (bytes : List ℕ) → Ensures (Kept s.nonce) (write_stream s bytes)
write_stream-Kept s bytes = ensured (λ s' e. unfold write_stream in ground arith)

read_stream-Kept : (s : EncryptedStream) (n : ℕ) → Ensures (Kept s.nonce) (read_stream s n)
unfolding read_stream
read_stream-Kept s n = Ensures-any (slice s.crypto_buffer 0 n) _ λ front.
    Ensures-if (ltb (length s.stream.inbound) n) _ _ (Ensures-err StreamError.io) (
      Ensures-any (copy_from_slice s.crypto_buffer 0 n (take n s.stream.inbound)) _
        λ buffer. Ensures-ok refl)

send-Moved :
    (s : EncryptedStream) (bytes : List ℕ)
    → Ensures (Moved s.nonce) (write_stream s bytes >>= increment_nonce)
send-Moved s bytes =
    Ensures-bind (write_stream s bytes) _ (write_stream-Kept s bytes)
      λ s' kept. subst (λ n. Ensures (Moved n) (increment_nonce s')) kept (increment_nonce-Moved s')

module _ (cipher : Cipher) where
  write_message-Moved :
      (s : EncryptedStream) (msg : ℕ) (payload : List ℕ)
      → Ensures (Moved s.nonce) (write_message cipher s msg payload)
  unfolding write_message
  write_message-Moved s msg payload =
      Ensures-any (copy_from_slice s.buffer 0 msg_type_size (to_be_bytes 2 msg)) _ λ b.
        Ensures-any
          (copy_from_slice b msg_type_size payload_offset (to_be_bytes 4 (length payload % 2 ^ 32)))
          _
          λ b'. Ensures-any (slice b' 0 payload_offset) _ λ front.
            Ensures-any
              (ok_or (cipher.encrypt (nonce_bytes s.nonce) front) StreamError.encrypt_message) _
              λ text. send-Moved (record s { buffer = b' }) text

  write_payload-Moved :
      (s : EncryptedStream) (msg : ℕ) (payload : List ℕ)
      → Ensures (Moved s.nonce) (write_payload cipher s msg payload)
  unfolding write_payload
  write_payload-Moved s msg payload =
      let size = length payload in
      Ensures-any (copy_from_slice s.buffer 0 size payload) _ λ b.
        Ensures-any
          (if is_crc_payload msg
            then copy_from_slice b size (size + crc_size) (to_be_bytes 4 (cipher.hash payload))
            else ok b)
          _
          λ b'.
            Ensures-any (slice b' 0 (if is_crc_payload msg then size + crc_size else size)) _
              λ front.
                Ensures-any
                  (ok_or (cipher.encrypt (nonce_bytes s.nonce) front) StreamError.encrypt_payload) _
                  λ text. send-Moved (record s { buffer = b' }) text

  -- The counter goes up, by two at most, and not past the maximum.
  abbrev Advanced : EncryptedStream → EncryptedStream → Type 0
  Advanced s s' = (s.nonce < s'.nonce) × (s'.nonce ≤ s.nonce + 2) × (s'.nonce ≤ nonce_max)

  write-Advanced :
      (s : EncryptedStream) (msg : ℕ) (payload : List ℕ)
      → Ensures (Advanced s) (write cipher s msg payload)
  unfolding write
  write-Advanced s msg payload =
      Ensures-bind (write_message cipher s msg payload) _ (write_message-Moved s msg payload)
        λ s' moved.
          Ensures-if (not (is_empty payload)) _ _
            (ensured λ s'' e. omega (arith, Ensures-holds (write_payload-Moved s' msg payload) e))
            (Ensures-ok (omega arith))

  read_block-Moved :
      (s : EncryptedStream) (lo n : ℕ) (failure : StreamError)
      → Ensures (λ p. Moved s.nonce (p.0)) (read_block cipher s lo n failure)
  unfolding read_block
  read_block-Moved s lo n failure =
      Ensures-bind (read_stream s n) _ (read_stream-Kept s n) λ s' kept.
        Ensures-any (slice s'.crypto_buffer 0 n) _ λ sealed.
          Ensures-any (ok_or (cipher.decrypt (nonce_bytes s'.nonce) sealed) failure) _ λ plain.
            Ensures-any (copy_from_slice s'.buffer lo (lo + length plain) plain) _ λ b.
              Ensures-bind (increment_nonce (record s' { buffer = b })) _
                (increment_nonce-Moved (record s' { buffer = b }))
                λ s'' moved. Ensures-ok (omega arith)

  body_Advanced :
      (s s' : EncryptedStream) (n size : ℕ)
      → Moved s.nonce s'
      → Ensures
          (Advanced s)
          (read_block cipher s' n size StreamError.decrypt_payload >>= λ (s'', k). ok s'')
  body_Advanced s s' n size moved =
      Ensures-bind (read_block cipher s' n size StreamError.decrypt_payload) _
        (read_block-Moved s' n size StreamError.decrypt_payload)
        λ p moved'. Ensures-ok (omega arith)

  read-Advanced : (s : EncryptedStream) → Ensures (Advanced s) (read cipher s)
  unfolding read
  read-Advanced s =
      Ensures-bind (read_block cipher s 0 22 StreamError.decrypt_message) _
        (read_block-Moved s 0 22 StreamError.decrypt_message)
        λ (s', n) moved. Ensures-any (slice s'.buffer msg_type_size payload_offset) _ λ size.
          Ensures-any (get_message s') _ λ msg.
            Ensures-if (from_be_bytes size == 0) _ _ (Ensures-ok (omega arith))
              (body_Advanced s s' n _ moved)

  -- Every `read` and every `write` that succeeds, on any stream, moves the counter up, by
  -- two at most, and leaves it no higher than the maximum.
  pub nonce_advances :
      (s s' : EncryptedStream) (msg : ℕ) (payload : List ℕ)
      → (read cipher s ≡ ok s') ⊎ (write cipher s msg payload ≡ ok s')
      → (s.nonce < s'.nonce) × (s'.nonce ≤ s.nonce + 2) × (s'.nonce ≤ nonce_max)
  nonce_advances s s' msg payload (inl e) = Ensures-holds (read-Advanced s) e
  nonce_advances s s' msg payload (inr e) = Ensures-holds (write-Advanced s msg payload) e
