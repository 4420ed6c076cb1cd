-- ===== src/Base64/RoundTrip.antt =====
-- `decode` of src/base64.rs on what `encode` wrote, with its padding and without.
use transmitic_core.Common.{
  ℕ, suc, ◌+◌, ◌-◌, ◌*◌, ◌/◌, ◌%◌, ◌<◌, ◌≡◌, refl, ◌∙◌, ap, Bool, true, false, List, [], ◌∷◌, ◌++◌,
  ok, ◌≤◌, length, index, arith, All, IsByte, low_bits, append-nil, append_assoc, ◌>>=◌, add_u8,
  bit_and, ◌<<<◌, ◌>>>◌,
}
use transmitic_core.Base64.{
  decode_loop, decode, encode, encode_loop, get_decode_capacity, debug_assert_len, stop_at_padding,
  only_padding, InvalidBase64String,
}
use transmitic_core.Base64.Table.{sextet_char, sextet_char_padding, get_index_of_byte-sextet_char}
use transmitic_core.Base64.Text.{text, encode-text, encode_loop-text}

-- The three bytes of a group of four characters.
unfoldable pub group_bytes : ℕ → ℕ → ℕ → ℕ → List ℕ
group_bytes p q r s = (p * 4 + q / 16) ∷ (q % 16 * 16 + r / 4) ∷ (r % 4 * 64 + s) ∷ []

three_pushes :
    (p q r s : ℕ) (output : List ℕ)
    → p < 64
    → q < 64
    → r < 64
    → s < 64
    → ((output ++ (add_u8 (p <<< 2) (q >>> 4) ∷ []))
          ++ (add_u8 (bit_and q 0b1111 <<< 4) (r >>> 2) ∷ []))
        ++ (add_u8 (bit_and r 0b11 <<< 6) s ∷ [])
      ≡ output ++ group_bytes p q r s
unfolding group_bytes
three_pushes p q r s output hp hq hr hs = ground (
  arith,
  low_bits q,
  low_bits r,
  append_assoc output ((p * 4 + q / 16) ∷ []) ((q % 16 * 16 + r / 4) ∷ []),
  append_assoc output ((p * 4 + q / 16) ∷ (q % 16 * 16 + r / 4) ∷ []) ((r % 4 * 64 + s) ∷ []),
)

-- One whole round of the loop on four characters of the table.
pub decode_group :
    (p q r s i n : ℕ) (rest output : List ℕ)
    → p < 64
    → q < 64
    → r < 64
    → s < 64
    → decode_loop (sextet_char p ∷ sextet_char q ∷ sextet_char r ∷ sextet_char s ∷ rest) i n output
      ≡ decode_loop rest (i + 4) n (output ++ group_bytes p q r s)
unfolding decode_loop group_bytes
decode_group p q r s i n rest output hp hq hr hs =
    rw
      (
        get_index_of_byte-sextet_char p i hp,
        get_index_of_byte-sextet_char q (i + 1) hq,
        sextet_char_padding r hr,
        get_index_of_byte-sextet_char r (i + 2) hr,
        sextet_char_padding s hs,
        get_index_of_byte-sextet_char s (i + 3) hs,
      )
      (ap (λ out. decode_loop rest (i + 4) n out) (three_pushes p q r s output hp hq hr hs))

group_round_trip :
    (b c d : ℕ)
    → IsByte b × IsByte c × IsByte d
    → group_bytes (b / 4) (b % 4 * 16 + c / 16) (c % 16 * 4 + d / 64) (d % 64) ≡ b ∷ c ∷ d ∷ []
unfolding group_bytes
group_round_trip b c d h = ground arith

pub decode_loop-text :
    (padded : Bool) (bytes : List ℕ) (i n : ℕ) (output : List ℕ)
    → All IsByte bytes
    → n ≡ i + length (text padded bytes)
    → decode_loop (text padded bytes) i n output ≡ ok (output ++ bytes)
unfolding text decode_loop stop_at_padding
decode_loop-text padded [] i n output h e = rw append-nil
decode_loop-text true (b ∷ []) i n output h e = ground (
  arith,
  get_index_of_byte-sextet_char (b / 4) i,
  get_index_of_byte-sextet_char (b % 4 * 16) (i + 1),
)
decode_loop-text false (b ∷ []) i n output h e = ground (
  arith,
  get_index_of_byte-sextet_char (b / 4) i,
  get_index_of_byte-sextet_char (b % 4 * 16) (i + 1),
)
decode_loop-text true (b ∷ c ∷ []) i n output h e = ground (
  arith,
  get_index_of_byte-sextet_char (b / 4) i,
  get_index_of_byte-sextet_char (b % 4 * 16 + c / 16) (i + 1),
  get_index_of_byte-sextet_char (c % 16 * 4) (i + 2),
  sextet_char_padding (c % 16 * 4),
  low_bits (b % 4 * 16 + c / 16),
  append_assoc output (b ∷ []) (c ∷ []),
)
decode_loop-text false (b ∷ c ∷ []) i n output h e = ground (
  arith,
  get_index_of_byte-sextet_char (b / 4) i,
  get_index_of_byte-sextet_char (b % 4 * 16 + c / 16) (i + 1),
  get_index_of_byte-sextet_char (c % 16 * 4) (i + 2),
  sextet_char_padding (c % 16 * 4),
  low_bits (b % 4 * 16 + c / 16),
  append_assoc output (b ∷ []) (c ∷ []),
)
decode_loop-text padded (b ∷ c ∷ d ∷ bytes) i n output h e =
    decode_group (b / 4) (b % 4 * 16 + c / 16) (c % 16 * 4 + d / 64) (d % 64) i n
      (text padded bytes) output (omega arith) (omega arith) (omega arith) (omega arith)
    ∙ ap (λ out. decode_loop (text padded bytes) (i + 4) n (output ++ out))
        (group_round_trip b c d (h.0, h.1.0, h.1.1.0))
    ∙ decode_loop-text padded bytes (i + 4) n (output ++ (b ∷ c ∷ d ∷ [])) h.1.1.1 (omega arith)
    ∙ ap ok (append_assoc output (b ∷ c ∷ d ∷ []) bytes)

-- A place counted from the end is not moved by four characters in front.
index_behind_group :
    (k w x y z : ℕ) (t : List ℕ)
    → k ≤ length t
    → index {E = InvalidBase64String} (w ∷ x ∷ y ∷ z ∷ t) (length (w ∷ x ∷ y ∷ z ∷ t) - k)
      ≡ index t (length t - k)
index_behind_group k w x y z t h =
    let e : length (w ∷ x ∷ y ∷ z ∷ t) - k ≡ suc (suc (suc (suc (length t - k)))) = omega arith in
    rw e (unfold index in refl)

get_decode_capacity_group :
    (w x y z m : ℕ) (t : List ℕ)
    → 2 ≤ length t
    → get_decode_capacity t ≡ ok (suc m)
    → get_decode_capacity (w ∷ x ∷ y ∷ z ∷ t) ≡ ok (suc (suc (suc (suc m))))
unfolding get_decode_capacity
get_decode_capacity_group w x y z m t h e =
    ground (arith, index_behind_group 1 w x y z t, index_behind_group 2 w x y z t)

length-text-ge : (padded : Bool) (b : ℕ) (bytes : List ℕ) → 2 ≤ length (text padded (b ∷ bytes))
unfolding text
length-text-ge true b [] = omega arith
length-text-ge false b [] = omega arith
length-text-ge padded b (c ∷ []) = omega arith
length-text-ge padded b (c ∷ d ∷ bytes) = omega arith

-- `get_decode_capacity` counts the bytes of a text of `encode`, padded or not.
get_decode_capacity-text :
    (padded : Bool) (b : ℕ) (bytes : List ℕ)
    → All IsByte (b ∷ bytes)
    → get_decode_capacity (text padded (b ∷ bytes)) ≡ ok (suc (length bytes))
unfolding text
get_decode_capacity-text true b [] h =
    unfold get_decode_capacity index in ground (arith, sextet_char_padding (b / 4))
get_decode_capacity-text false b [] h =
    unfold get_decode_capacity index in
    ground (arith, sextet_char_padding (b / 4), sextet_char_padding (b % 4 * 16))
get_decode_capacity-text true b (c ∷ []) h =
    unfold get_decode_capacity index in ground (arith, sextet_char_padding (c % 16 * 4))
get_decode_capacity-text false b (c ∷ []) h =
    unfold get_decode_capacity index in
    ground (arith, sextet_char_padding (c % 16 * 4), sextet_char_padding (b % 4 * 16 + c / 16))
get_decode_capacity-text padded b (c ∷ d ∷ []) h =
    unfold get_decode_capacity index in
    ground (arith, sextet_char_padding (c % 16 * 4 + d / 64), sextet_char_padding (d % 64))
get_decode_capacity-text padded b (c ∷ d ∷ e ∷ bytes) h =
    get_decode_capacity_group (sextet_char (b / 4)) (sextet_char (b % 4 * 16 + c / 16))
      (sextet_char (c % 16 * 4 + d / 64)) (sextet_char (d % 64)) (length bytes)
      (text padded (e ∷ bytes)) (length-text-ge padded e bytes)
      (get_decode_capacity-text padded e bytes h.1.1.1)

-- A text is long enough, and does not consist of padding only.
only_padding-text :
    (padded : Bool) (b : ℕ) (bytes : List ℕ)
    → All IsByte (b ∷ bytes)
    → only_padding (text padded (b ∷ bytes)) ≡ ok false
unfolding only_padding text index
only_padding-text true b [] h = refl
only_padding-text false b [] h = ground (arith, sextet_char_padding (b / 4))
only_padding-text true b (c ∷ []) h = refl
only_padding-text false b (c ∷ []) h = ground (arith, sextet_char_padding (c % 16 * 4))
only_padding-text padded b (c ∷ d ∷ bytes) h = ground arith

decode_unfold :
    (debug : Bool) (s bytes : List ℕ)
    → 2 ≤ length s
    → only_padding s ≡ ok false
    → get_decode_capacity s ≡ ok (length bytes)
    → decode_loop s 0 (length s) [] ≡ ok bytes
    → decode debug s ≡ ok bytes
unfolding decode debug_assert_len
decode_unfold debug [] bytes h p c l = absurd (omega arith)
decode_unfold debug (x ∷ xs) bytes h p c l = ground arith

-- Decoding the text of any bytes gives them back, in both builds, with padding or without.
pub decode-text :
    (debug padded : Bool) (bytes : List ℕ)
    → All IsByte bytes
    → decode debug (text padded bytes) ≡ ok bytes
decode-text debug padded [] h = unfold text decode in refl
decode-text debug padded (b ∷ bytes) h =
    decode_unfold debug (text padded (b ∷ bytes)) (b ∷ bytes) (length-text-ge padded b bytes)
      (only_padding-text padded b bytes h) (get_decode_capacity-text padded b bytes h)
      (decode_loop-text padded (b ∷ bytes) 0 _ [] h (omega arith))

-- For all bytes and in both builds, `decode` after `encode` returns the bytes.
pub decode-encode :
    (debug : Bool) (bytes : List ℕ)
    → All IsByte bytes
    → (encode debug bytes >>= decode debug) ≡ ok bytes
decode-encode debug bytes h = rw (encode-text debug bytes h) (decode-text debug true bytes h)

-- For all bytes and in both builds, what the loop of `encode` writes before the padding is
-- added decodes to the bytes too.
pub decode-encode_loop :
    (debug : Bool) (bytes : List ℕ)
    → All IsByte bytes
    → (encode_loop bytes [] >>= decode debug) ≡ ok bytes
decode-encode_loop debug bytes h =
    rw (encode_loop-text bytes [] h) (decode-text debug false bytes h)
