-- ===== src/Stream.antt =====
-- One encrypted connection: src/encrypted_stream.rs, with the constants of src/core_consts.rs
-- and src/crypto.rs. The cipher (aes-gcm) and the checksum (crc32fast) are parameters.
-- A socket is the bytes that are still to be read and those written so far; writing fails once
-- it is broken. `usize` is 64 bits wide, so the sums of sizes do not wrap. A function returns
-- the new stream; after an error or a panic every caller drops the stream.
pub mod Consts
pub mod Sealing
pub mod Frames
pub mod Sending
pub mod Payload
pub mod Receiving
pub mod Nonces
pub mod Sessions
pub mod Rounds
pub mod Samples
mod Tests
use transmitic_core.Common.{
  ℕ, ◌+◌, ◌%◌, ◌^◌, Bool, true, false, not, ◌&&◌, Option, none, some, List, [], ◌∷◌, ◌++◌, Outcome,
  ok, err, panic, ◌>>=◌, ◌>>◌, ok_or, ltb, leb, ◌==◌, if◌then◌else◌, length, take, drop, slice,
  copy_from_slice, to_be_bytes, from_be_bytes, is_empty, zeros,
}
use Consts.{
  msg_type_size, payload_size_len, crc_size, crypto_extension_size, payload_offset,
  total_buffer_size, total_crypto_buffer_size, nonce_max, nonce_init, is_crc_payload,
}
use Sealing.{Cipher}

pub record Socket : Type 0 where
  pub inbound : List ℕ
  pub outbound : List ℕ
  pub broken : Bool

pub record EncryptedStream : Type 0 where
  pub stream : Socket
  pub nonce : ℕ
  pub crypto_buffer : List ℕ
  pub buffer : List ℕ
  pub reverse_message : ℕ

pub data StreamError : Type 0 where
  nonce_maxed decrypt_message decrypt_payload encrypt_message encrypt_payload io : StreamError
  checksum_mismatch : ℕ → ℕ → StreamError

-- `EncryptedStream::new`, less the owner of the stream, which no operation reads.
unfoldable pub new : Socket → EncryptedStream
new stream = record {
  stream = stream;
  nonce = nonce_init;
  crypto_buffer = zeros total_crypto_buffer_size;
  buffer = zeros total_buffer_size;
  reverse_message = 0;
}

pub increment_nonce : EncryptedStream → Outcome StreamError EncryptedStream
increment_nonce s =
    if leb nonce_max s.nonce then err nonce_maxed else ok (record s { nonce = s.nonce + 1 })

-- The last 12 of the 16 bytes of a `u128`.
pub nonce_bytes : ℕ → List ℕ
nonce_bytes nonce = drop 4 (to_be_bytes 16 nonce)

abbrev get_nonce_bytes : EncryptedStream → List ℕ
get_nonce_bytes s = nonce_bytes s.nonce

-- `read_exact` into the front of the buffer; at the end of the input it fails.
pub read_stream : EncryptedStream → ℕ → Outcome StreamError EncryptedStream
read_stream s read_size = do
  front ← slice s.crypto_buffer 0 read_size
  if ltb (length s.stream.inbound) read_size then err io else (do
    crypto_buffer ← copy_from_slice s.crypto_buffer 0 read_size (take read_size s.stream.inbound)
    ok (record s {
      stream = record (s.stream) { inbound = drop read_size s.stream.inbound };
      crypto_buffer = crypto_buffer;
    }))

-- `write_all`
pub write_stream : EncryptedStream → List ℕ → Outcome StreamError EncryptedStream
write_stream s bytes =
    if s.stream.broken
    then err io
    else ok (record s { stream = record (s.stream) { outbound = s.stream.outbound ++ bytes } })

pub get_message : EncryptedStream → Outcome StreamError ℕ
get_message s = do message_array ← slice s.buffer 0 2; ok (from_be_bytes message_array)

module _ (cipher : Cipher) where
  open cipher use {encrypt, decrypt, hash}

  -- One sealed block, decrypted into the buffer at `at`; both blocks of a message are read so.
  -- The number is the length of the plaintext.
  pub read_block : EncryptedStream → ℕ → ℕ → StreamError → Outcome StreamError (EncryptedStream × ℕ)
  read_block s at read_size failure = do
    s' ← read_stream s read_size
    sealed ← slice s'.crypto_buffer 0 read_size
    plaintext ← ok_or (decrypt (get_nonce_bytes s') sealed) failure
    buffer ← copy_from_slice s'.buffer at (at + length plaintext) plaintext
    s'' ← increment_nonce (record s' { buffer = buffer })
    ok (s'', length plaintext)

  pub read : EncryptedStream → Outcome StreamError EncryptedStream
  read s0 = do
    (s, plaintext_msg_len) ←
        read_block s0 0 (payload_offset + crypto_extension_size) decrypt_message
    payload_size_bytes ← slice s.buffer msg_type_size payload_offset
    let payload_size = from_be_bytes payload_size_bytes
    msg ← get_message s
    if payload_size == 0 then ok s else (do
      let read_size = payload_size + crypto_extension_size
      let read_size' = if is_crc_payload msg then read_size + crc_size else read_size
      (s', payload_len) ← read_block s plaintext_msg_len read_size' decrypt_payload
      ok s')

  pub get_payload : EncryptedStream → Outcome StreamError (List ℕ)
  get_payload s = do
    payload_size_bytes ← slice s.buffer msg_type_size payload_offset
    let payload_size = from_be_bytes payload_size_bytes
    payload ← slice s.buffer payload_offset (payload_offset + payload_size)
    message ← get_message s
    if is_crc_payload message && ltb 0 payload_size
        then (do
          expected_checksum_bytes ←
              slice s.buffer (payload_offset + payload_size)
                (payload_offset + payload_size + crc_size)
          let expected_checksum = from_be_bytes expected_checksum_bytes
          let actual_checksum = hash payload
          if not (expected_checksum == actual_checksum)
              then err (checksum_mismatch actual_checksum expected_checksum)
              else ok payload)
        else ok payload

  -- `payload.len() as u32` keeps the low 32 bits.
  pub write_message : EncryptedStream → ℕ → List ℕ → Outcome StreamError EncryptedStream
  write_message s msg payload = do
    buffer ← copy_from_slice s.buffer 0 msg_type_size (to_be_bytes 2 msg)
    let payload_size_u32 = length payload % 2 ^ 32
    buffer' ← copy_from_slice buffer msg_type_size payload_offset (to_be_bytes 4 payload_size_u32)
    front ← slice buffer' 0 payload_offset
    cipher_text ← ok_or (encrypt (get_nonce_bytes s) front) encrypt_message
    s' ← write_stream (record s { buffer = buffer' }) cipher_text
    increment_nonce s'

  pub write_payload : EncryptedStream → ℕ → List ℕ → Outcome StreamError EncryptedStream
  write_payload s msg payload = do
    let payload_size = length payload
    buffer ← copy_from_slice s.buffer 0 payload_size payload
    buffer' ←
        if is_crc_payload msg
        then copy_from_slice buffer payload_size (payload_size + crc_size)
            (to_be_bytes 4 (hash payload))
        else ok buffer
    let used_buffer_len = if is_crc_payload msg then payload_size + crc_size else payload_size
    front ← slice buffer' 0 used_buffer_len
    cipher_text ← ok_or (encrypt (get_nonce_bytes s) front) encrypt_payload
    s' ← write_stream (record s { buffer = buffer' }) cipher_text
    increment_nonce s'

  pub write : EncryptedStream → ℕ → List ℕ → Outcome StreamError EncryptedStream
  write s msg payload = do
    s' ← write_message s msg payload
    if not (is_empty payload) then write_payload s' msg payload else ok s'
