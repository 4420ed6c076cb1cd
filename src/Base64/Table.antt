-- ===== src/Base64/Table.antt =====
-- The lookup tables TABLE and TABLE_REVERSE of src/base64.rs against each other.
use transmitic_core.Common.{
  ℕ, ◌<◌, ◌≡◌, refl, Bool, true, false, not, ◌&&◌, ◌||◌, ltb, none, some, ok, ◌==◌, get_elem?,
  index, holds_below, holds_below-at, arith,
}
use transmitic_core.Base64.{table, table_reverse, padding_char, bad_idx, get_index_of_byte}

-- The character of a six-bit group.
unfoldable pub sextet_char : ℕ → ℕ
sextet_char s = elim (get_elem? table s) [ none ↦ 0 | some c ↦ c ]

table_pair : ℕ → Bool
table_pair s = elim (get_elem? table s) [
  | none ↦ false
  | some c ↦
      not (c == padding_char) && elim (get_elem? table_reverse c) [ none ↦ false | some t ↦ t == s ]
]

table_pairs : holds_below table_pair 64 ≡ true
unfolding holds_below table_pair table table_reverse
table_pairs = refl

pair_at : (s : ℕ) → s < 64 → table_pair s ≡ true
pair_at s h = holds_below-at table_pair 64 s table_pairs h

pub index-table : {E : Type 0} (s : ℕ) → s < 64 → index {E = E} table s ≡ ok (sextet_char s)
unfolding index sextet_char table_pair
index-table s h = ground (arith, pair_at s h)

pub sextet_char_padding : (s : ℕ) → s < 64 → (sextet_char s == padding_char) ≡ false
unfolding sextet_char table_pair
sextet_char_padding s h = ground (arith, pair_at s h)

pub get_index_of_byte-sextet_char : (s i : ℕ) → s < 64 → get_index_of_byte (sextet_char s) i ≡ ok s
unfolding get_index_of_byte sextet_char table_pair
get_index_of_byte-sextet_char s i h = ground (arith, pair_at s h)

reverse_entry : ℕ → Bool
reverse_entry c = elim (get_elem? table_reverse c) [
  | none ↦ true
  | some t ↦ t == bad_idx || (ltb t 64 && sextet_char t == c)
]

reverse_entries : holds_below reverse_entry 123 ≡ true
unfolding holds_below reverse_entry sextet_char table table_reverse
reverse_entries = refl
