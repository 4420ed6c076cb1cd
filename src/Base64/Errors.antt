-- ===== src/Base64/Errors.antt =====
-- The loop of `decode` of src/base64.rs on any string.
use transmitic_core.Common.{
  ℕ, suc, ◌+◌, ◌-◌, ◌%◌, ◌<◌, ◌≡◌, ◌≢◌, refl, ap, Bool, true, false, List, [], ◌∷◌, Outcome, ok,
  err, panic, ◌==◌, if◌then◌else◌, length, get_elem?, arith, ◌⊎◌, inl, inr, some, ◌>>=◌, Bool-cases,
  ltb,
}
use transmitic_core.Base64.{
  padding_char, decode_loop, stop_at_padding, InvalidBase64String, get_index_of_byte,
}
use transmitic_core.Base64.Table.{sextet_char, sextet_char_padding, get_index_of_byte-sextet_char}

-- `byte` is no character of the table.
abbrev pub IsOutside : ℕ → Type 0
IsOutside byte = (s : ℕ) → s < 64 → sextet_char s ≢ byte

abbrev invalid_at : ℕ → ℕ → InvalidBase64String
invalid_at byte i = record { invalid_byte = some byte; index = i }

get_index_of_byte-IsOutside :
    (byte i : ℕ) {e : InvalidBase64String} → get_index_of_byte byte i ≡ err e → IsOutside byte
get_index_of_byte-IsOutside byte i h s lt p =
    cc (get_index_of_byte-sextet_char s i lt, ap (λ b. get_index_of_byte b i) p)

padding-IsOutside : IsOutside padding_char
padding-IsOutside s lt p = ground (arith, sextet_char_padding s lt)

-- A character is looked up or refused.
get_index_of_byte_cases :
    (byte i : ℕ)
    → ((v : ℕ) × (get_index_of_byte byte i ≡ ok v))
      ⊎ ((get_index_of_byte byte i ≡ err (invalid_at byte i)) × IsOutside byte)
get_index_of_byte_cases byte i = go (get_index_of_byte byte i) refl
  where
    go :
        (r : Outcome InvalidBase64String ℕ)
        → get_index_of_byte byte i ≡ r
        → ((v : ℕ) × (get_index_of_byte byte i ≡ ok v))
          ⊎ ((get_index_of_byte byte i ≡ err (invalid_at byte i)) × IsOutside byte)
    go (ok v) p = inl (v, p)
    go (err e) p =
        inr (unfold get_index_of_byte in ground arith, get_index_of_byte-IsOutside byte i p)
    go panic p = absurd (unfold get_index_of_byte in ground arith)

-- The reported byte stands at the reported index, and is outside the table.
pub record IsReported (string_bytes : List ℕ) (start : ℕ) (e : InvalidBase64String) : Type 0 where
  pub byte : ℕ
  pub place : ℕ
  pub reported_byte : e.invalid_byte ≡ some byte
  pub reported_index : e.index ≡ start + place
  pub stands_there : get_elem? string_bytes place ≡ some byte
  pub outside : IsOutside byte

-- What the loop may do on the rest of the string.
pub data Fate (s : List ℕ) (i : ℕ) (r : Outcome InvalidBase64String (List ℕ)) : Type 0 where
  returns : (out : List ℕ) → r ≡ ok out → Fate s i r
  refuses : (e : InvalidBase64String) → r ≡ err e → IsReported s i e → Fate s i r
  panics : r ≡ panic → length s % 4 ≡ 1 → Fate s i r

refuse_at :
    (s : List ℕ) (i place byte : ℕ) {r : Outcome InvalidBase64String (List ℕ)}
    → r ≡ err (invalid_at byte (i + place))
    → get_elem? s place ≡ some byte
    → IsOutside byte
    → Fate s i r
refuse_at s i place byte p q o = refuses (invalid_at byte (i + place)) p (record {
  byte = byte;
  place = place;
  reported_byte = refl;
  reported_index = refl;
  stands_there = q;
  outside = o;
})

stop_Fate :
    (s : List ℕ) (i place n byte : ℕ) (out : List ℕ)
    → get_elem? s place ≡ some byte
    → (byte == padding_char) ≡ true
    → Fate s i (stop_at_padding byte (i + place) n out)
stop_Fate s i place n byte out q o = elim (Bool-cases (ltb (i + place) (n - 2))) [
  | inl t ↦
      unfold stop_at_padding in
      refuse_at s i place byte (rw t) q
        (let e : byte ≡ padding_char = ground arith in rw e padding-IsOutside)
  | inr f ↦ unfold stop_at_padding in returns out (rw f)
]

Fate-later :
    (w x y z : ℕ) (s : List ℕ) (i : ℕ) {r : Outcome InvalidBase64String (List ℕ)}
    → Fate s (i + 4) r
    → Fate (w ∷ x ∷ y ∷ z ∷ s) i r
Fate-later w x y z s i (returns out p) = returns out p
Fate-later w x y z s i (refuses e p h) = refuses e p (record {
  byte = h.byte;
  place = suc (suc (suc (suc h.place)));
  reported_byte = h.reported_byte;
  reported_index = omega (arith, h.reported_index);
  stands_there = h.stands_there;
  outside = h.outside;
})
Fate-later w x y z s i (panics p h) = panics p (omega arith)

-- A lookup and then the rest; a test and then a branch.
bind_Fate :
    (s : List ℕ) (i j place byte : ℕ) (k : ℕ → Outcome InvalidBase64String (List ℕ))
    → j ≡ i + place
    → get_elem? s place ≡ some byte
    → ((v : ℕ) → Fate s i (k v))
    → Fate s i (get_index_of_byte byte j >>= k)
bind_Fate s i j place byte k e q rest = elim (get_index_of_byte_cases byte j) [
  | inl (v, p) ↦ rw p (rest v)
  | inr (p, o) ↦ refuse_at s i place byte (rw p (ap (λ x. err (invalid_at byte x)) e)) q o
]

if_Fate :
    (s : List ℕ) (i : ℕ) (b : Bool) (x y : Outcome InvalidBase64String (List ℕ))
    → (b ≡ true → Fate s i x)
    → (b ≡ false → Fate s i y)
    → Fate s i (if b then x else y)
if_Fate s i true x y t f = t refl
if_Fate s i false x y t f = f refl

-- The loop returns, or refuses a byte that is no character of the table, or panics for want
-- of a second character.
pub decode_loop-Fate :
    (s : List ℕ) (i n : ℕ) (output : List ℕ) → Fate s i (decode_loop s i n output)
unfolding decode_loop
decode_loop-Fate [] i n output = returns output refl
decode_loop-Fate (c ∷ []) i n output =
    bind_Fate _ i i 0 c _ (omega arith) refl (λ v. panics refl (omega arith))
decode_loop-Fate (c ∷ d ∷ []) i n output =
    bind_Fate _ i i 0 c _ (omega arith) refl
      λ v. bind_Fate _ i (i + 1) 1 d _ refl refl λ w. returns _ refl
decode_loop-Fate (c ∷ d ∷ e ∷ []) i n output = bind_Fate _ i i 0 c _ (omega arith) refl λ v.
    bind_Fate _ i (i + 1) 1 d _ refl refl λ w.
      if_Fate _ i (e == padding_char) _ _ (λ t. stop_Fate _ i 2 n e _ refl t)
        λ f. bind_Fate _ i (i + 2) 2 e _ refl refl λ x. returns _ refl
decode_loop-Fate (c ∷ d ∷ e ∷ f ∷ s) i n output = bind_Fate _ i i 0 c _ (omega arith) refl λ v.
    bind_Fate _ i (i + 1) 1 d _ refl refl λ w.
      if_Fate _ i (e == padding_char) _ _ (λ t. stop_Fate _ i 2 n e _ refl t)
        λ p. bind_Fate _ i (i + 2) 2 e _ refl refl λ x.
          if_Fate _ i (f == padding_char) _ _ (λ t. stop_Fate _ i 3 n f _ refl t)
            λ q.
              bind_Fate _ i (i + 3) 3 f _ refl refl
                λ y. Fate-later c d e f s i (decode_loop-Fate s (i + 4) n _)
