-- ===== src/Base64.antt =====
-- Base64 encoding and decoding: src/base64.rs. A string is the list of its bytes.
-- `debug` says whether the build has debug assertions; a release build does not check them.
-- `encode` ends in `String::from_utf8(output).unwrap()`, which sees only ASCII bytes.
-- `Vec::with_capacity(n)` of bytes has capacity `n`, on which the padding of `encode` relies.
pub mod Table
pub mod Text
pub mod RoundTrip
pub mod Errors
pub mod Refusals
pub mod Padding
mod Tests
use transmitic_core.Common.{
  ℕ, zero, suc, ◌+◌, ◌-◌, ◌*◌, ◌/◌, ◌%◌, ◌≡◌, refl, Bool, true, false, not, ◌&&◌, ◌||◌, Option,
  none, some, List, [], ◌∷◌, ◌++◌, Outcome, ok, err, panic, ◌>>=◌, ◌>>◌, ok_or, assert, ltb, ◌==◌,
  if◌then◌else◌, length, get_elem?, replicate, ◌<<<◌, ◌>>>◌, add_u8, bit_and, index,
}

abbrev pub padding_char : ℕ
padding_char = b'='

abbrev pub bit_group_len : ℕ
bit_group_len = 6

-- Indicates an invalid base64 character.
abbrev pub bad_idx : ℕ
bad_idx = 255

unfoldable pub table : List ℕ
table =
    65 ∷ 66 ∷ 67 ∷ 68 ∷ 69 ∷ 70 ∷ 71 ∷ 72 ∷ 73 ∷ 74 ∷ 75 ∷ 76 ∷ 77 ∷ 78 ∷ 79 ∷ 80 ∷ 81 ∷ 82 ∷ 83
    ∷ 84 ∷ 85 ∷ 86 ∷ 87 ∷ 88 ∷ 89 ∷ 90 ∷ 97 ∷ 98 ∷ 99 ∷ 100 ∷ 101 ∷ 102 ∷ 103 ∷ 104 ∷ 105 ∷ 106
    ∷ 107 ∷ 108 ∷ 109 ∷ 110 ∷ 111 ∷ 112 ∷ 113 ∷ 114 ∷ 115 ∷ 116 ∷ 117 ∷ 118 ∷ 119 ∷ 120 ∷ 121 ∷ 122
    ∷ 48 ∷ 49 ∷ 50 ∷ 51 ∷ 52 ∷ 53 ∷ 54 ∷ 55 ∷ 56 ∷ 57 ∷ 43 ∷ 47 ∷ []

unfoldable pub table_reverse : List ℕ
table_reverse =
    255 ∷ 255 ∷ 255 ∷ 255 ∷ 255 ∷ 255 ∷ 255 ∷ 255 ∷ 255 ∷ 255 ∷ 255 ∷ 255 ∷ 255 ∷ 255 ∷ 255 ∷ 255
    ∷ 255 ∷ 255 ∷ 255 ∷ 255 ∷ 255 ∷ 255 ∷ 255 ∷ 255 ∷ 255 ∷ 255 ∷ 255 ∷ 255 ∷ 255 ∷ 255 ∷ 255 ∷ 255
    ∷ 255 ∷ 255 ∷ 255 ∷ 255 ∷ 255 ∷ 255 ∷ 255 ∷ 255 ∷ 255 ∷ 255 ∷ 255 ∷ 62 ∷ 255 ∷ 255 ∷ 255 ∷ 63
    ∷ 52 ∷ 53 ∷ 54 ∷ 55 ∷ 56 ∷ 57 ∷ 58 ∷ 59 ∷ 60 ∷ 61 ∷ 255 ∷ 255 ∷ 255 ∷ 255 ∷ 255 ∷ 255 ∷ 255 ∷ 0
    ∷ 1 ∷ 2 ∷ 3 ∷ 4 ∷ 5 ∷ 6 ∷ 7 ∷ 8 ∷ 9 ∷ 10 ∷ 11 ∷ 12 ∷ 13 ∷ 14 ∷ 15 ∷ 16 ∷ 17 ∷ 18 ∷ 19 ∷ 20 ∷ 21
    ∷ 22 ∷ 23 ∷ 24 ∷ 25 ∷ 255 ∷ 255 ∷ 255 ∷ 255 ∷ 255 ∷ 255 ∷ 26 ∷ 27 ∷ 28 ∷ 29 ∷ 30 ∷ 31 ∷ 32 ∷ 33
    ∷ 34 ∷ 35 ∷ 36 ∷ 37 ∷ 38 ∷ 39 ∷ 40 ∷ 41 ∷ 42 ∷ 43 ∷ 44 ∷ 45 ∷ 46 ∷ 47 ∷ 48 ∷ 49 ∷ 50 ∷ 51 ∷ []

pub record InvalidBase64String : Type 0 where
  pub invalid_byte : Option ℕ
  pub index : ℕ

-- The bits as `f64` divided by 6 and rounded up: exact below 2 ^ 53 bits.
pub get_encode_capacity : List ℕ → ℕ
get_encode_capacity input_bytes =
    let input_bits = length input_bytes * 8 in
    let capacity = (input_bits + bit_group_len - 1) / bit_group_len in
    let minimum_bytes : ℕ = 4 in
    let modd = capacity % minimum_bytes in
    if not (modd == 0) then capacity + (minimum_bytes - modd) else capacity

-- One round of the loop for each three bytes; a missing second or third byte breaks it.
pub encode_loop : {E : Type 0} → List ℕ → List ℕ → Outcome E (List ℕ)
encode_loop [] output = ok output
encode_loop (b ∷ []) output = do
  first ← index table (b >>> 2)
  second ← index table (add_u8 (bit_and b 0b11 <<< 4) (0 >>> 4))
  ok (output ++ (first ∷ second ∷ []))
encode_loop (b ∷ c ∷ []) output = do
  first ← index table (b >>> 2)
  second ← index table (add_u8 (bit_and b 0b11 <<< 4) (c >>> 4))
  third ← index table (add_u8 (bit_and c 0b1111 <<< 2) (0 >>> 6))
  ok (output ++ (first ∷ second ∷ third ∷ []))
encode_loop (b ∷ c ∷ d ∷ bytes) output = do
  first ← index table (b >>> 2)
  second ← index table (add_u8 (bit_and b 0b11 <<< 4) (c >>> 4))
  third ← index table (add_u8 (bit_and c 0b1111 <<< 2) (d >>> 6))
  fourth ← index table (bit_and d 0b111111)
  encode_loop bytes (output ++ (first ∷ second ∷ third ∷ fourth ∷ []))

-- `debug_assert_eq!(output.len(), capacity)`
unfoldable pub debug_assert_len : {E : Type 0} → Bool → List ℕ → ℕ → Outcome E (Unit {0})
debug_assert_len debug output capacity = assert (not debug || length output == capacity)

pub encode : {E : Type 0} → Bool → List ℕ → Outcome E (List ℕ)
encode debug [] = ok []
encode debug (b ∷ bytes) = do
  let capacity = get_encode_capacity (b ∷ bytes)
  output ← encode_loop (b ∷ bytes) []
  let padded = output ++ replicate (capacity - length output) padding_char
  debug_assert_len debug padded capacity
  ok padded

unfoldable pub get_index_of_byte : ℕ → ℕ → Outcome InvalidBase64String ℕ
get_index_of_byte byte byte_index = do
  let invalid : InvalidBase64String = record { invalid_byte = some byte; index = byte_index }
  i ← ok_or (get_elem? table_reverse byte) invalid
  if i == bad_idx then err invalid else ok i

-- A padding character breaks the loop, and is an error before the last two places.
unfoldable pub stop_at_padding : ℕ → ℕ → ℕ → List ℕ → Outcome InvalidBase64String (List ℕ)
stop_at_padding byte byte_index bytes_len output =
    if ltb byte_index (bytes_len - 2)
    then err (record { invalid_byte = some byte; index = byte_index })
    else ok output

-- One round of the loop for each four characters; `i` is the index of the first of them.
-- Nothing guards the read of the second character.
unfoldable pub decode_loop : List ℕ → ℕ → ℕ → List ℕ → Outcome InvalidBase64String (List ℕ)
decode_loop [] i bytes_len output = ok output
decode_loop (c ∷ []) i bytes_len output = do index_one ← get_index_of_byte c i; panic
decode_loop (c ∷ d ∷ []) i bytes_len output = do
  index_one ← get_index_of_byte c i
  index_two ← get_index_of_byte d (i + 1)
  ok (output ++ (add_u8 (index_one <<< 2) (index_two >>> 4) ∷ []))
decode_loop (c ∷ d ∷ e ∷ []) i bytes_len output = do
  index_one ← get_index_of_byte c i
  index_two ← get_index_of_byte d (i + 1)
  let output = output ++ (add_u8 (index_one <<< 2) (index_two >>> 4) ∷ [])
  if e == padding_char
      then stop_at_padding e (i + 2) bytes_len output
      else (get_index_of_byte e (i + 2) >>= λ index_three.
          ok (output ++ (add_u8 (bit_and index_two 0b1111 <<< 4) (index_three >>> 2) ∷ [])))
decode_loop (c ∷ d ∷ e ∷ f ∷ bytes) i bytes_len output = do
  index_one ← get_index_of_byte c i
  index_two ← get_index_of_byte d (i + 1)
  let one = output ++ (add_u8 (index_one <<< 2) (index_two >>> 4) ∷ [])
  if e == padding_char
      then stop_at_padding e (i + 2) bytes_len one
      else (get_index_of_byte e (i + 2) >>= λ index_three.
          let two = one ++ (add_u8 (bit_and index_two 0b1111 <<< 4) (index_three >>> 2) ∷ []) in
          if f == padding_char
          then stop_at_padding f (i + 3) bytes_len two
          else (get_index_of_byte f (i + 3) >>= λ index_four.
              decode_loop bytes (i + 4) bytes_len
                (two ++ (add_u8 (bit_and index_three 0b11 <<< 6) index_four ∷ []))))

-- The subtractions do not wrap: `decode` calls this on two characters at least, which are not
-- all padding.
unfoldable pub get_decode_capacity : List ℕ → Outcome InvalidBase64String ℕ
get_decode_capacity string_bytes = do
  let capacity = length string_bytes * bit_group_len / 8
  last ← index string_bytes (length string_bytes - 1)
  before ← index string_bytes (length string_bytes - 2)
  let capacity' = if last == padding_char then capacity - 1 else capacity
  ok (if before == padding_char then capacity' - 1 else capacity')

abbrev pub too_short : InvalidBase64String
too_short = record { invalid_byte = none; index = 0 }

-- Fewer than four characters that end in two padding characters.
unfoldable pub only_padding : List ℕ → Outcome InvalidBase64String Bool
only_padding string_bytes =
    if ltb (length string_bytes) 4
    then (index string_bytes (length string_bytes - 1) >>= λ last.
        index string_bytes (length string_bytes - 2) >>= λ before.
        ok (last == padding_char && before == padding_char))
    else ok false

unfoldable pub decode : Bool → List ℕ → Outcome InvalidBase64String (List ℕ)
decode debug [] = ok []
decode debug (c ∷ cs) =
    let string_bytes = c ∷ cs in
    if length string_bytes == 1 then err too_short else (do
      short ← only_padding string_bytes
      if short then err too_short else (do
        capacity ← get_decode_capacity string_bytes
        output ← decode_loop string_bytes 0 (length string_bytes) []
        debug_assert_len debug output capacity
        ok output))
