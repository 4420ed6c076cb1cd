-- ===== src/Base64/Tests.antt =====
-- The theorems about src/base64.rs, at concrete bytes and texts.
use transmitic_core.Common.{
  ℕ, ◌+◌, ◌*◌, ◌/◌, ◌%◌, ◌<◌, ◌≡◌, ◌≢◌, refl, true, false, List, [], ◌∷◌, ◌++◌, map, All, length,
  arith, ok, err, panic, some, ◌>>=◌, ◌⊎◌,
}
use transmitic_core.Base64.{
  InvalidBase64String, encode, encode_loop, decode, get_encode_capacity, padding_char, too_short,
}
use transmitic_core.Base64.Table.{sextet_char}
use transmitic_core.Base64.Text.{encode_shape, IsTextByte}
use transmitic_core.Base64.RoundTrip.{decode-encode, decode-encode_loop}
use transmitic_core.Base64.Padding.{decode_after_padding}
use transmitic_core.Base64.Errors.{IsReported}
use transmitic_core.Base64.Refusals.{decode_refuses, decode-ne-panic, decode_panics}

-- `foobar!` holds no special case: seven bytes, two whole groups and one byte over.
abbrev bytes : List ℕ
bytes = b'f' ∷ b'o' ∷ b'o' ∷ b'b' ∷ b'a' ∷ b'r' ∷ 0xff ∷ []

bytes-IsByte : All (λ b. b < 256) bytes
bytes-IsByte = (
  omega arith,
  (omega arith, (omega arith, (omega arith, (omega arith, (omega arith, (omega arith, tt)))))),
)

decode-encode_example : (encode false bytes >>= decode false) ≡ ok bytes
decode-encode_example = decode-encode false bytes bytes-IsByte

decode-encode_loop_example : (encode_loop bytes [] >>= decode true) ≡ ok bytes
decode-encode_loop_example = decode-encode_loop true bytes bytes-IsByte

encode_shape_example :
    (out : List ℕ) × (encode {E = InvalidBase64String} true bytes ≡ ok out)
    × (length out ≡ get_encode_capacity bytes)
    × (get_encode_capacity bytes ≡ (length bytes + 2) / 3 * 4)
    × All IsTextByte out
encode_shape_example = encode_shape true bytes bytes-IsByte

-- `Zm9!`
abbrev bad_text : List ℕ
bad_text = b'Z' ∷ b'm' ∷ b'9' ∷ b'!' ∷ []

abbrev bad_character : InvalidBase64String
bad_character = record { invalid_byte = some b'!'; index = 3 }

bad_text_refused : decode false bad_text ≡ err bad_character
unfolding decode transmitic_core.Base64.only_padding transmitic_core.Base64.get_decode_capacity
    transmitic_core.Common.index transmitic_core.Base64.decode_loop
    transmitic_core.Base64.get_index_of_byte transmitic_core.Base64.table_reverse
bad_text_refused = refl

decode_refuses_example :
    ((bad_character ≡ too_short) × (length bad_text < 4)) ⊎ IsReported bad_text 0 bad_character
decode_refuses_example = decode_refuses false bad_text bad_character bad_text_refused

decode-ne-panic_example : decode false bad_text ≢ panic
decode-ne-panic_example = decode-ne-panic bad_text (omega arith)

decode_panics_example : decode true (map sextet_char (1 ∷ 2 ∷ 3 ∷ 4 ∷ 5 ∷ [])) ≡ panic
decode_panics_example =
    decode_panics true (1 ∷ 2 ∷ 3 ∷ 4 ∷ 5 ∷ [])
      (omega arith, (omega arith, (omega arith, (omega arith, (omega arith, tt))))) (omega arith)
      (omega arith)

decode_after_padding_example :
    (bytes : List ℕ) × (decode false (map sextet_char (0 ∷ 1 ∷ 2 ∷ 3 ∷ [])) ≡ ok bytes)
    × (decode false (
          map sextet_char (0 ∷ 1 ∷ 2 ∷ 3 ∷ [])
          ++ (sextet_char 25 ∷ sextet_char 38 ∷ padding_char ∷ b'v' ∷ []))
        ≡ ok (bytes ++ ((25 * 4 + 38 / 16) ∷ [])))
decode_after_padding_example =
    decode_after_padding (0 ∷ 1 ∷ 2 ∷ 3 ∷ []) 25 38 b'v'
      (omega arith, (omega arith, (omega arith, (omega arith, tt)))) refl (omega arith)
      (omega arith)
