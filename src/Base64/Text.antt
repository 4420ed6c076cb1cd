-- ===== src/Base64/Text.antt =====
-- What `encode` of src/base64.rs writes, as a plain recursion over groups of three bytes.
use transmitic_core.Common.{
  ℕ, ◌+◌, ◌-◌, ◌*◌, ◌/◌, ◌%◌, ◌<◌, ◌≡◌, refl, ◌∙◌, ap, sym, Bool, true, false, List, [], ◌∷◌, ◌++◌,
  ok, ◌==◌, length, length-append, length-replicate, replicate, arith, All, IsByte, low_bits,
  append-nil, append_assoc, ◌⊎◌, inl, inr,
}
use transmitic_core.Base64.{
  padding_char, encode_loop, encode, get_encode_capacity, debug_assert_len,
}
use transmitic_core.Base64.Table.{sextet_char, index-table}

abbrev pad : Bool → ℕ → List ℕ
pad true n = replicate n padding_char
pad false n = []

-- The base64 text of bytes, with its padding or without.
unfoldable pub text : Bool → List ℕ → List ℕ
text padded [] = []
text padded (b ∷ []) = sextet_char (b / 4) ∷ sextet_char (b % 4 * 16) ∷ pad padded 2
text padded (b ∷ c ∷ []) =
    sextet_char (b / 4)
    ∷ sextet_char (b % 4 * 16 + c / 16)
    ∷ sextet_char (c % 16 * 4)
    ∷ pad padded 1
text padded (b ∷ c ∷ d ∷ bytes) =
    sextet_char (b / 4)
    ∷ sextet_char (b % 4 * 16 + c / 16)
    ∷ sextet_char (c % 16 * 4 + d / 64)
    ∷ sextet_char (d % 64)
    ∷ text padded bytes

group_text : ℕ → ℕ → ℕ → List ℕ
group_text b c d =
    sextet_char (b / 4)
    ∷ sextet_char (b % 4 * 16 + c / 16)
    ∷ sextet_char (c % 16 * 4 + d / 64)
    ∷ sextet_char (d % 64)
    ∷ []

-- The loop looks up no index outside the table, and writes the text without padding.
pub encode_loop-text :
    {E : Type 0} (bytes output : List ℕ)
    → All IsByte bytes
    → encode_loop {E = E} bytes output ≡ ok (output ++ text false bytes)
unfolding encode_loop text group_text
encode_loop-text [] output h = rw append-nil
encode_loop-text {E} (b ∷ []) output h =
    ground (arith, low_bits b, index-table {E = E} (b / 4), index-table {E = E} (b % 4 * 16))
encode_loop-text {E} (b ∷ c ∷ []) output h = ground (
  arith,
  low_bits b,
  low_bits c,
  index-table {E = E} (b / 4),
  index-table {E = E} (b % 4 * 16 + c / 16),
  index-table {E = E} (c % 16 * 4),
)
encode_loop-text {E} (b ∷ c ∷ d ∷ bytes) output h = ground (
  arith,
  low_bits b,
  low_bits c,
  low_bits d,
  index-table {E = E} (b / 4),
  index-table {E = E} (b % 4 * 16 + c / 16),
  index-table {E = E} (c % 16 * 4 + d / 64),
  index-table {E = E} (d % 64),
  encode_loop-text {E = E} bytes (output ++ group_text b c d),
  append_assoc output (group_text b c d) (text false bytes),
)

-- Padding makes up the last group of four characters.
length-text : (bytes : List ℕ) → length (text true bytes) ≡ (length bytes + 2) / 3 * 4
unfolding text
length-text [] = omega arith
length-text (b ∷ []) = omega arith
length-text (b ∷ c ∷ []) = omega arith
length-text (b ∷ c ∷ d ∷ bytes) = omega (arith, length-text bytes)

pub get_encode_capacity-eq :
    (bytes : List ℕ) → get_encode_capacity bytes ≡ (length bytes + 2) / 3 * 4
unfolding get_encode_capacity
get_encode_capacity-eq bytes = ground arith

pub length-text_capacity : (bytes : List ℕ) → length (text true bytes) ≡ get_encode_capacity bytes
length-text_capacity bytes = length-text bytes ∙ sym (get_encode_capacity-eq bytes)

padding_of : List ℕ → ℕ
padding_of [] = 0
padding_of (b ∷ []) = 2
padding_of (b ∷ c ∷ []) = 1
padding_of (b ∷ c ∷ d ∷ bytes) = padding_of bytes

text-padding :
    (bytes : List ℕ)
    → text true bytes ≡ text false bytes ++ replicate (padding_of bytes) padding_char
unfolding text padding_of
text-padding [] = refl
text-padding (b ∷ []) = refl
text-padding (b ∷ c ∷ []) = refl
text-padding (b ∷ c ∷ d ∷ bytes) = rw (text-padding bytes)

-- The padding that fills the capacity.
padding_fills :
    (bytes : List ℕ) → get_encode_capacity bytes - length (text false bytes) ≡ padding_of bytes
padding_fills bytes = omega (
  arith,
  length-text_capacity bytes,
  ap length (text-padding bytes),
  length-append (text false bytes) (replicate (padding_of bytes) padding_char),
  length-replicate (padding_of bytes) padding_char,
)

-- `encode` panics on no input, in either build, and returns the padded text.
pub encode-text :
    {E : Type 0} (debug : Bool) (bytes : List ℕ)
    → All IsByte bytes
    → encode {E = E} debug bytes ≡ ok (text true bytes)
unfolding encode debug_assert_len
encode-text debug [] h = unfold text in refl
encode-text {E} debug (b ∷ bytes) h =
    rw
      (
        encode_loop-text (b ∷ bytes) [] h,
        padding_fills (b ∷ bytes),
        ← text-padding (b ∷ bytes),
        length-text_capacity (b ∷ bytes),
      )
      (ground (arith, ◌==◌ (get_encode_capacity (b ∷ bytes)) (get_encode_capacity (b ∷ bytes))))

-- The characters that `encode` may write: those of the table, and padding.
abbrev pub IsTextByte : ℕ → Type 0
IsTextByte c = (((s : ℕ) × (s < 64) × (sextet_char s ≡ c)) ⊎ (c ≡ padding_char))

sextet-IsTextByte : (s : ℕ) → s < 64 → IsTextByte (sextet_char s)
sextet-IsTextByte s h = inl (s, h, refl)

text-IsTextByte : (bytes : List ℕ) → All IsByte bytes → All IsTextByte (text true bytes)
unfolding text
text-IsTextByte [] h = tt
text-IsTextByte (b ∷ []) h = (
  sextet-IsTextByte (b / 4) (omega arith),
  (sextet-IsTextByte (b % 4 * 16) (omega arith), (inr refl, (inr refl, tt))),
)
text-IsTextByte (b ∷ c ∷ []) h = (
  sextet-IsTextByte (b / 4) (omega arith),
  (
    sextet-IsTextByte (b % 4 * 16 + c / 16) (omega arith),
    (sextet-IsTextByte (c % 16 * 4) (omega arith), (inr refl, tt)),
  ),
)
text-IsTextByte (b ∷ c ∷ d ∷ bytes) h = (
  sextet-IsTextByte (b / 4) (omega arith),
  (
    sextet-IsTextByte (b % 4 * 16 + c / 16) (omega arith),
    (
      sextet-IsTextByte (c % 16 * 4 + d / 64) (omega arith),
      (sextet-IsTextByte (d % 64) (omega arith), text-IsTextByte bytes h.1.1.1),
    ),
  ),
)

-- For all bytes and in both builds `encode` returns, without a panic, a text of the computed
-- capacity, which is four characters for each three bytes begun, and each character of it is
-- one of the table or padding.
pub encode_shape :
    {E : Type 0} (debug : Bool) (bytes : List ℕ)
    → All IsByte bytes
    → (out : List ℕ) × (encode {E = E} debug bytes ≡ ok out)
      × (length out ≡ get_encode_capacity bytes)
      × (get_encode_capacity bytes ≡ (length bytes + 2) / 3 * 4)
      × All IsTextByte out
encode_shape debug bytes h = (
  text true bytes,
  encode-text debug bytes h,
  length-text_capacity bytes,
  get_encode_capacity-eq bytes,
  text-IsTextByte bytes h,
)
