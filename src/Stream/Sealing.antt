-- ===== src/Stream/Sealing.antt =====
-- What the connection takes from aes-gcm and crc32fast: functions that the code only calls.
use transmitic_core.Common.{ℕ, ◌+◌, ◌<◌, ◌≤◌, ◌^◌, ◌≡◌, Option, some, List, length}
use transmitic_core.Stream.Consts.{crypto_extension_size, total_buffer_size}

-- `Aes256Gcm` under one key, by nonce and text, and `crc32fast::hash`.
pub record Cipher : Type 0 where
  pub encrypt : List ℕ → List ℕ → Option (List ℕ)
  pub decrypt : List ℕ → List ℕ → Option (List ℕ)
  pub hash : List ℕ → ℕ

-- Encryption fails on no text that fits the buffer, the tag adds 16 bytes, what was encrypted
-- decrypts under the same nonce, and the checksum is a `u32`.
pub record IsSealing (cipher : Cipher) : Type 0 where
  pub encrypt_total :
      (nonce plain : List ℕ)
      → length plain ≤ total_buffer_size
      → (sealed : List ℕ) × (cipher.encrypt nonce plain ≡ some sealed)
  pub length-encrypt :
      (nonce plain sealed : List ℕ)
      → cipher.encrypt nonce plain ≡ some sealed
      → length sealed ≡ length plain + crypto_extension_size
  pub decrypt-encrypt :
      (nonce plain sealed : List ℕ)
      → cipher.encrypt nonce plain ≡ some sealed
      → cipher.decrypt nonce sealed ≡ some plain
  pub hash-lt : (text : List ℕ) → cipher.hash text < 2 ^ 32
