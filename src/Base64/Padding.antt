-- ===== src/Base64/Padding.antt =====
-- `decode` of src/base64.rs on padding that is not at the end.
use transmitic_core.Common.{
  ℕ, ◌+◌, ◌*◌, ◌/◌, ◌%◌, ◌<◌, ◌≡◌, refl, ◌∙◌, ap, ap₂, sym, append-nil, false, List, [], ◌∷◌, ◌++◌,
  ok, length, length-append, arith, All, map, append_assoc,
}
use transmitic_core.Base64.{padding_char, decode_loop, decode, stop_at_padding}
use transmitic_core.Base64.Table.{sextet_char, get_index_of_byte-sextet_char}
use transmitic_core.Base64.RoundTrip.{group_bytes, decode_group}
use transmitic_core.Base64.Refusals.{decode-of_loop, length-map-sextet_char}

-- The bytes of whole groups of four characters.
joined : List ℕ → List ℕ
joined (p ∷ q ∷ r ∷ s ∷ sextets) = group_bytes p q r s ++ joined sextets
joined sextets = []

-- The loop on whole groups, and on what follows them.
decode_loop-groups :
    (sextets tail : List ℕ) (i n : ℕ) (output : List ℕ)
    → All (λ s. s < 64) sextets
    → length sextets % 4 ≡ 0
    → decode_loop (map sextet_char sextets ++ tail) i n output
      ≡ decode_loop tail (i + length sextets) n (output ++ joined sextets)
unfolding joined
decode_loop-groups [] tail i n output h m =
    ap₂ (λ j out. decode_loop tail j n out) (omega arith) (sym (append-nil _))
decode_loop-groups (p ∷ []) tail i n output h m = absurd (omega arith)
decode_loop-groups (p ∷ q ∷ []) tail i n output h m = absurd (omega arith)
decode_loop-groups (p ∷ q ∷ r ∷ []) tail i n output h m = absurd (omega arith)
decode_loop-groups (p ∷ q ∷ r ∷ s ∷ sextets) tail i n output h m =
    decode_group p q r s i n (map sextet_char sextets ++ tail) output h.0 h.1.0 h.1.1.0 h.1.1.1.0
    ∙ decode_loop-groups sextets tail (i + 4) n (output ++ group_bytes p q r s) h.1.1.1.1
        (omega arith)
    ∙ ap₂ (λ j out. decode_loop tail j n out) (omega arith)
        (append_assoc output (group_bytes p q r s) (joined sextets))

-- Whole groups alone.
decode-groups :
    (groups : List ℕ)
    → All (λ s. s < 64) groups
    → length groups % 4 ≡ 0
    → decode false (map sextet_char groups) ≡ ok (joined groups)
decode-groups [] h m = unfold decode joined in refl
decode-groups (p ∷ groups) h m =
    let s = map sextet_char (p ∷ groups) in
    decode-of_loop s (joined (p ∷ groups)) (omega (arith, m, length-map-sextet_char groups)) (
      ap (λ t. decode_loop t 0 (length s) []) (sym (append-nil _))
      ∙ decode_loop-groups (p ∷ groups) [] 0 (length s) [] h m
      ∙ unfold decode_loop in refl)

last_group :
    (p q x i : ℕ) (output : List ℕ)
    → p < 64
    → q < 64
    → decode_loop (sextet_char p ∷ sextet_char q ∷ padding_char ∷ x ∷ []) i (i + 4) output
      ≡ ok (output ++ ((p * 4 + q / 16) ∷ []))
unfolding decode_loop stop_at_padding
last_group p q x i output hp hq =
    rw (get_index_of_byte-sextet_char p i hp, get_index_of_byte-sextet_char q (i + 1) hq)
      (ground arith)

-- Without debug assertions a padding character in the last place but one, behind whole groups
-- and two characters of the table, is taken for the end, and whatever byte follows it is dropped
-- with no error: `decode` returns the bytes of the groups, which it returns of these alone, and
-- the one byte of the two characters.
pub decode_after_padding :
    (groups : List ℕ) (p q x : ℕ)
    → All (λ s. s < 64) groups
    → length groups % 4 ≡ 0
    → p < 64
    → q < 64
    → (bytes : List ℕ) × (decode false (map sextet_char groups) ≡ ok bytes)
      × (decode false
            (map sextet_char groups ++ (sextet_char p ∷ sextet_char q ∷ padding_char ∷ x ∷ []))
          ≡ ok (bytes ++ ((p * 4 + q / 16) ∷ [])))
decode_after_padding groups p q x h m hp hq =
    let tail = sextet_char p ∷ sextet_char q ∷ padding_char ∷ x ∷ [] in
    let s = map sextet_char groups ++ tail in
    let long : length s ≡ 0 + length groups + 4 =
      omega (arith, length-append (map sextet_char groups) tail, length-map-sextet_char groups) in
    (
      joined groups,
      decode-groups groups h m,
      decode-of_loop s (joined groups ++ ((p * 4 + q / 16) ∷ [])) (omega (arith, long)) (
          decode_loop-groups groups tail 0 (length s) [] h m
          ∙ ap (λ n. decode_loop tail (0 + length groups) n (joined groups)) long
          ∙ last_group p q x (0 + length groups) (joined groups) hp hq),
    )
