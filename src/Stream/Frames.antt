-- ===== src/Stream/Frames.antt =====
-- The bytes of one message on the wire: the sealed header and, for a payload that is not empty,
-- the sealed body with its checksum.
use transmitic_core.Common.{
  ℕ, ◌+◌, ◌%◌, ◌^◌, ◌<◌, ◌≡◌, refl, true, false, some, List, [], ◌++◌, if◌then◌else◌, length,
  length-append, arith, to_be_bytes, length-to_be_bytes, append-nil,
}
use transmitic_core.Stream.Consts.{crc_size, is_crc_payload}
use transmitic_core.Stream.Sealing.{Cipher}
use transmitic_core.Stream.{nonce_bytes}

-- The message type and the size of the payload.
unfoldable pub header : ℕ → List ℕ → List ℕ
header msg payload = to_be_bytes 2 msg ++ to_be_bytes 4 (length payload % 2 ^ 32)

pub length-header : (msg : ℕ) (payload : List ℕ) → length (header msg payload) ≡ 6
unfolding header to_be_bytes
length-header msg payload = refl

module _ (cipher : Cipher) where
  -- The payload, and behind it its checksum where the message type has one.
  unfoldable pub body : ℕ → List ℕ → List ℕ
  body msg payload =
      payload ++ (if is_crc_payload msg then to_be_bytes 4 (cipher.hash payload) else [])

  pub data Frame (nonce msg : ℕ) (payload : List ℕ) : List ℕ → ℕ → Type 0 where
    bare :
        {sealed : List ℕ}
        → payload ≡ []
        → cipher.encrypt (nonce_bytes nonce) (header msg payload) ≡ some sealed
        → Frame nonce msg payload sealed (nonce + 1)
    full :
        {sealed sealed' : List ℕ}
        → 0 < length payload
        → cipher.encrypt (nonce_bytes nonce) (header msg payload) ≡ some sealed
        → cipher.encrypt (nonce_bytes (nonce + 1)) (body msg payload) ≡ some sealed'
        → Frame nonce msg payload (sealed ++ sealed') (nonce + 1 + 1)

  -- The size of the body, as both ends compute it.
  abbrev pub body_size : ℕ → ℕ → ℕ
  body_size msg size = if is_crc_payload msg then size + crc_size else size

  pub length-body :
      (msg : ℕ) (payload : List ℕ) → length (body msg payload) ≡ body_size msg (length payload)
  unfolding body
  length-body msg payload = ground (
    arith,
    length-append payload (to_be_bytes 4 (cipher.hash payload)),
    length-append payload [],
    length-to_be_bytes 4 (cipher.hash payload),
  )

  pub body_crc :
      (msg : ℕ) (payload : List ℕ)
      → is_crc_payload msg ≡ true
      → body msg payload ≡ payload ++ to_be_bytes 4 (cipher.hash payload)
  unfolding body
  body_crc msg payload t = rw t

  pub body_plain :
      (msg : ℕ) (payload : List ℕ) → is_crc_payload msg ≡ false → body msg payload ≡ payload
  unfolding body
  body_plain msg payload f = rw (f, append-nil)
