-- ===== src/Base64/Refusals.antt =====
-- `decode` of src/base64.rs as a whole on any string: errors and panics.
use transmitic_core.Common.{
  ℕ, zero, suc, ◌+◌, ◌-◌, ◌*◌, ◌/◌, ◌%◌, ◌<◌, ◌≤◌, ◌≡◌, ◌≢◌, refl, ◌∙◌, ap, sym, subst, Bool, true,
  false, List, [], ◌∷◌, Outcome, ok, err, panic, ◌==◌, if◌then◌else◌, length, index, arith, All,
  ◌⊎◌, inl, inr, map, ◌>>=◌, ◌>>◌, Bool-cases, ltb, ◌&&◌,
}
use transmitic_core.Base64.{
  padding_char, decode_loop, decode, get_decode_capacity, debug_assert_len, too_short, only_padding,
  InvalidBase64String,
}
use transmitic_core.Base64.Table.{sextet_char, sextet_char_padding, get_index_of_byte-sextet_char}
use transmitic_core.Base64.Errors.{decode_loop-Fate, IsReported, returns, refuses, panics}

index_total :
    (xs : List ℕ) (i : ℕ) → i < length xs → (x : ℕ) × (index {E = InvalidBase64String} xs i ≡ ok x)
unfolding index
index_total [] i h = absurd (omega arith)
index_total (x ∷ xs) zero h = (x, refl)
index_total (x ∷ xs) (suc i) h = index_total xs i (omega arith)

only_padding_total :
    (s : List ℕ) → 2 ≤ length s → (b : Bool) × (only_padding s ≡ ok b) × (b ≡ true → length s < 4)
only_padding_total s h =
    let (last, p) = index_total s (length s - 1) (omega arith) in
    let (before, q) = index_total s (length s - 2) (omega arith) in
    elim (Bool-cases (ltb (length s) 4)) [
      | inl t ↦ (
        last == padding_char && before == padding_char,
        unfold only_padding in rw (t, p, q),
        λ e. ground arith,
      )
      | inr f ↦ (false, unfold only_padding in rw f, λ e. cc)
    ]

without_padding : Bool → Bool → ℕ → ℕ
without_padding last before n = let n' = if last then n - 1 else n in if before then n' - 1 else n'

get_decode_capacity_total : (s : List ℕ) → 2 ≤ length s → (n : ℕ) × (get_decode_capacity s ≡ ok n)
get_decode_capacity_total s h =
    let (last, p) = index_total s (length s - 1) (omega arith) in
    let (before, q) = index_total s (length s - 2) (omega arith) in
    (
      without_padding (last == padding_char) (before == padding_char) (length s * 6 / 8),
      unfold get_decode_capacity without_padding in rw (p, q),
    )

-- What `decode` does after the loop.
abbrev finish : Bool → ℕ → List ℕ → Outcome InvalidBase64String (List ℕ)
finish debug capacity output = debug_assert_len debug output capacity >> ok output

finish-ne-err :
    (debug : Bool) (capacity : ℕ) (output : List ℕ) {e : InvalidBase64String}
    → finish debug capacity output ≢ err e
unfolding debug_assert_len
finish-ne-err debug capacity output p = ground arith

decode_long :
    (debug : Bool) (s : List ℕ) (b : Bool) (n : ℕ)
    → 2 ≤ length s
    → only_padding s ≡ ok b
    → get_decode_capacity s ≡ ok n
    → decode debug s
      ≡ (if b then err too_short else (decode_loop s 0 (length s) [] >>= finish debug n))
decode_long debug [] b n h p c = absurd (omega arith)
decode_long debug (x ∷ []) b n h p c = absurd (omega arith)
decode_long debug (x ∷ y ∷ s) b n h p c = unfold decode in rw (p, c) (ground arith)

-- `decode` refuses a short string at once, or runs the loop.
whole_Fate :
    (debug : Bool) (s : List ℕ)
    → 2 ≤ length s
    → ((decode debug s ≡ err too_short) × (length s < 4))
      ⊎ ((n : ℕ) × (decode debug s ≡ (decode_loop s 0 (length s) [] >>= finish debug n)))
whole_Fate debug s h =
    let (b, p, short) = only_padding_total s h in
    let (n, c) = get_decode_capacity_total s h in
    elim (Bool-cases b) [
      | inl t ↦ inl (decode_long debug s b n h p c ∙ rw t, short t)
      | inr f ↦ inr (n, decode_long debug s b n h p c ∙ rw f)
    ]

-- Without debug assertions the result is the loop's, on four characters or more.
pub decode-of_loop :
    (s bytes : List ℕ)
    → 4 ≤ length s
    → decode_loop s 0 (length s) [] ≡ ok bytes
    → decode false s ≡ ok bytes
decode-of_loop s bytes long done = elim (whole_Fate false s (omega arith)) [
  | inl (e, short) ↦ absurd (omega arith)
  | inr (n, e) ↦ unfold debug_assert_len in cc (e, ap (λ r. r >>= finish false n) done)
]

-- Every error that `decode` returns is either the one for a string of fewer than four
-- characters, or it names a byte that stands at the index it reports and is no character of the
-- table.
pub decode_refuses :
    (debug : Bool) (s : List ℕ) (e : InvalidBase64String)
    → decode debug s ≡ err e
    → ((e ≡ too_short) × (length s < 4)) ⊎ IsReported s 0 e
decode_refuses debug [] e h = unfold decode in cc
decode_refuses debug (c ∷ []) e h = inl (unfold decode in ground arith, omega arith)
decode_refuses debug (c ∷ d ∷ s) e h = elim (whole_Fate debug (c ∷ d ∷ s) (omega arith)) [
  | inl (p, short) ↦ inl (ground (arith, p, h), short)
  | inr (n, p) ↦ elim (decode_loop-Fate (c ∷ d ∷ s) 0 (length (c ∷ d ∷ s)) []) [
    | returns out q ↦ absurd (finish-ne-err debug n out (sym (p ∙ step n q) ∙ h))
    | refuses x q reported ↦
        let same : x ≡ e = cc (sym (p ∙ step n q) ∙ h) in
        inr (subst (IsReported (c ∷ d ∷ s) 0) same reported)
    | panics q m ↦ cc (sym (p ∙ step n q) ∙ h)
  ]
]
  where
    step :
        (n : ℕ) {r : Outcome InvalidBase64String (List ℕ)}
        → decode_loop (c ∷ d ∷ s) 0 (length (c ∷ d ∷ s)) [] ≡ r
        → (decode_loop (c ∷ d ∷ s) 0 (length (c ∷ d ∷ s)) [] >>= finish debug n)
          ≡ (r >>= finish debug n)
    step n q = ap (λ r. r >>= finish debug n) q

-- Without debug assertions `decode` panics on no string but one whose length is 1 modulo 4.
pub decode-ne-panic : (s : List ℕ) → length s % 4 ≢ 1 → decode false s ≢ panic
decode-ne-panic [] h p = unfold decode in cc
decode-ne-panic (c ∷ []) h p = h refl
decode-ne-panic (c ∷ d ∷ s) h p = elim (whole_Fate false (c ∷ d ∷ s) (omega arith)) [
  | inl (e, short) ↦ cc
  | inr (n, e) ↦ elim (decode_loop-Fate (c ∷ d ∷ s) 0 (length (c ∷ d ∷ s)) []) [
    | returns out q ↦ unfold debug_assert_len in cc (e, p, ap (λ r. r >>= finish false n) q)
    | refuses x q reported ↦ cc (e, p, ap (λ r. r >>= finish false n) q)
    | panics q m ↦ h m
  ]
]

table_only_loop :
    (sextets : List ℕ) (i n : ℕ) (output : List ℕ)
    → All (λ s. s < 64) sextets
    → length sextets % 4 ≡ 1
    → decode_loop (map sextet_char sextets) i n output ≡ panic
unfolding decode_loop
table_only_loop [] i n output h m = absurd (omega arith)
table_only_loop (p ∷ []) i n output h m = rw (get_index_of_byte-sextet_char p i h.0)
table_only_loop (p ∷ q ∷ []) i n output h m = absurd (omega arith)
table_only_loop (p ∷ q ∷ r ∷ []) i n output h m = absurd (omega arith)
table_only_loop (p ∷ q ∷ r ∷ s ∷ sextets) i n output h m =
    rw
      (
        get_index_of_byte-sextet_char p i h.0,
        get_index_of_byte-sextet_char q (i + 1) h.1.0,
        sextet_char_padding r h.1.1.0,
        get_index_of_byte-sextet_char r (i + 2) h.1.1.0,
        sextet_char_padding s h.1.1.1.0,
        get_index_of_byte-sextet_char s (i + 3) h.1.1.1.0,
      )
      (table_only_loop sextets (i + 4) n _ h.1.1.1.1 (omega arith))

pub length-map-sextet_char : (xs : List ℕ) → length (map sextet_char xs) ≡ length xs
length-map-sextet_char [] = refl
length-map-sextet_char (x ∷ xs) = ap suc (length-map-sextet_char xs)

-- On more than one character, all of them of the table, whose number is 1 modulo 4, `decode`
-- panics, in both builds: the second character of the last group is read past the end.
pub decode_panics :
    (debug : Bool) (sextets : List ℕ)
    → All (λ s. s < 64) sextets
    → 1 < length sextets
    → length sextets % 4 ≡ 1
    → decode debug (map sextet_char sextets) ≡ panic
decode_panics debug sextets h l m =
    elim (whole_Fate debug (map sextet_char sextets)
      (omega (arith, length-map-sextet_char sextets))) [
        | inl (p, short) ↦ absurd (omega (arith, length-map-sextet_char sextets))
        | inr (n, p) ↦ rw (p, table_only_loop sextets 0 (length (map sextet_char sextets)) [] h m)
      ]
