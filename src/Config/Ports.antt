-- ===== src/Config/Ports.antt =====
-- The port numbers that src/config.rs accepts, as texts.
use transmitic_core.Common.{
  ℕ, ◌+◌, ◌-◌, ◌*◌, ◌<◌, ◌≤◌, ◌≡◌, inl, inr, refl, sym, ap, subst, Bool, true, false, not, ◌&&◌,
  Option, none, some, [], ◌∷◌, ◌++◌, append-nil, append_assoc, ltb, leb, ◌==◌, if◌then◌else◌, ok,
  ok_or, arith, Bool-cases,
}
use transmitic_core.Config.{Text, ConfigError}
use transmitic_core.Config.Verify.{
  refuse_if, parse_digits, parse_magnitude, parse_i32, max_port, verify_config_port,
}
use transmitic_core.Config.Parts.{bind-ok, ok_or-ok, refuse_if-ok}

-- The decimal digits of a number.
pub data IsNumeral : Text → ℕ → Type 0 where
  digit : (d : ℕ) → d < 10 → IsNumeral ((b'0' + d) ∷ []) d
  digits :
      (s : Text) (n d : ℕ)
      → IsNumeral s n
      → d < 10
      → IsNumeral (s ++ ((b'0' + d) ∷ [])) (n * 10 + d)

-- A minus and the digits of a number of at most 2 ^ 31, or digits, a plus before them or not, of a
-- number of at most 65535.
pub data IsPort (port : Text) : Type 0 where
  below_zero :
      (s : Text) (n : ℕ) → port ≡ b'-' ∷ s → IsNumeral s n → n ≤ 2_147_483_648 → IsPort port
  with_plus : (s : Text) (n : ℕ) → port ≡ b'+' ∷ s → IsNumeral s n → n ≤ 65_535 → IsPort port
  without_sign : (n : ℕ) → IsNumeral port n → n ≤ 65_535 → IsPort port

is_digit-form :
    (c : ℕ) → leb b'0' c && leb c b'9' ≡ true → (c ≡ b'0' + (c - b'0')) × (c - b'0' < 10)
is_digit-form c h = ground (arith, h)

some-injective : (a b : ℕ) → ◌≡◌ {A = Option ℕ} (some a) (some b) → a ≡ b
some-injective a b e = cc

parse_digits-IsNumeral :
    (front s : Text) (n v : ℕ)
    → IsNumeral front n
    → parse_digits n s ≡ some v
    → IsNumeral (front ++ s) v
unfolding parse_digits
parse_digits-IsNumeral front [] n v h e =
    subst (IsNumeral (front ++ [])) (some-injective n v e)
      (subst (λ t. IsNumeral t n) (sym (append-nil front)) h)
parse_digits-IsNumeral front (c ∷ s) n v h e = elim (Bool-cases (leb b'0' c && leb c b'9')) [
  | inl d ↦
      let (form, small) = is_digit-form c d in
      let longer : IsNumeral (front ++ (c ∷ [])) (n * 10 + (c - b'0')) =
        subst (λ x. IsNumeral (front ++ (x ∷ [])) (n * 10 + (c - b'0'))) (sym form)
          (digits front n (c - b'0') h small) in
      subst (λ t. IsNumeral t v) (append_assoc front (c ∷ []) s)
        (parse_digits-IsNumeral (front ++ (c ∷ [])) s (n * 10 + (c - b'0')) v longer (rw d at e))
  | inr no_digit ↦ cc (rw no_digit at e)
]

parse_magnitude-IsNumeral :
    (most : ℕ) (s : Text) (v : ℕ) → parse_magnitude most s ≡ some v → IsNumeral s v × (v ≤ most)
unfolding parse_magnitude parse_digits
parse_magnitude-IsNumeral most [] v e = cc
parse_magnitude-IsNumeral most (c ∷ s) v e = go (parse_digits 0 (c ∷ s)) refl e
  where
    first : (n : ℕ) → parse_digits 0 (c ∷ s) ≡ some n → IsNumeral (c ∷ s) n
    first n p = elim (Bool-cases (leb b'0' c && leb c b'9')) [
      | inl d ↦
          let (form, small) = is_digit-form c d in
          let one : IsNumeral (c ∷ []) (0 * 10 + (c - b'0')) =
            subst (IsNumeral (c ∷ [])) (omega arith)
              (subst (λ x. IsNumeral (x ∷ []) (c - b'0')) (sym form) (digit (c - b'0') small)) in
          parse_digits-IsNumeral (c ∷ []) s (0 * 10 + (c - b'0')) n one (rw (parse_digits, d) at p)
      | inr no_digit ↦ cc (rw (parse_digits, no_digit) at p)
    ]

    go :
        (o : Option ℕ)
        → parse_digits 0 (c ∷ s) ≡ o
        → (elim o as (λ x. Option ℕ) [ none ↦ none | some n ↦ if leb n most then some n else none ])
          ≡ some v
        → IsNumeral (c ∷ s) v × (v ≤ most)
    go none p h = cc
    go (some n) p h = elim (Bool-cases (leb n most)) [
      | inl within ↦
          let same = some-injective n v (rw within at h) in
          (subst (IsNumeral (c ∷ s)) same (first n p), ground (arith, within, same))
      | inr beyond ↦ cc (rw beyond at h)
    ]

pair-injective :
    (a b : Bool) (m n : ℕ)
    → ◌≡◌ {A = Option (Bool × ℕ)} (some (a, m)) (some (b, n))
    → (a ≡ b) × (m ≡ n)
pair-injective a b m n e = (cc, cc)

parse_i32-IsPort :
    (port : Text) (negative : Bool) (value : ℕ)
    → parse_i32 port ≡ some (negative, value)
    → not negative && ltb max_port value ≡ false
    → IsPort port
unfolding parse_i32
parse_i32-IsPort [] n v e h = cc
parse_i32-IsPort (c ∷ s) n v e h = elim (Bool-cases (c == b'-')) [
  | inl minus ↦ below (parse_magnitude 2_147_483_648 s) refl (ground (arith, minus)) (rw minus at e)
  | inr no_minus ↦ elim (Bool-cases (c == b'+')) [
    | inl plus ↦
        let (m, numeral, small) =
          above s (parse_magnitude 2_147_483_647 s) refl (rw (no_minus, plus) at e) in
        with_plus s m (ap (λ d. d ∷ s) (ground (arith, plus))) numeral small
    | inr no_sign ↦
        let (m, numeral, small) =
          above (c ∷ s) (parse_magnitude 2_147_483_647 (c ∷ s)) refl
            (rw (no_minus, no_sign) at e) in
        without_sign m numeral small
  ]
]
  where
    below :
        (o : Option ℕ)
        → parse_magnitude 2_147_483_648 s ≡ o
        → c ≡ b'-'
        → (elim o as (λ x. Option (Bool × ℕ)) [ none ↦ none | some n ↦ some (true, n) ])
          ≡ some (n, v)
        → IsPort (c ∷ s)
    below none p same q = cc
    below (some m) p same q =
        let numeral = parse_magnitude-IsNumeral 2_147_483_648 s m p in
        below_zero s m (ap (λ d. d ∷ s) same) numeral.0 numeral.1

    above :
        (t : Text) (o : Option ℕ)
        → parse_magnitude 2_147_483_647 t ≡ o
        → (elim o as (λ x. Option (Bool × ℕ)) [ none ↦ none | some n ↦ some (false, n) ])
          ≡ some (n, v)
        → (m : ℕ) × IsNumeral t m × (m ≤ 65_535)
    above t none p q = cc
    above t (some m) p q =
        let same = pair-injective false n m v q in
        (m, (parse_magnitude-IsNumeral 2_147_483_647 t m p).0, ground (arith, h, same.0, same.1))

pub verify_config_port-IsPort : (port : Text) → verify_config_port port ≡ ok tt → IsPort port
unfolding verify_config_port
verify_config_port-IsPort port e =
    let ((negative, value), parsed, checked) =
      bind-ok (ok_or (parse_i32 port) ConfigError.port_no_number)
        (λ (negative, value).
          refuse_if (not negative && ltb max_port value) ConfigError.port_too_high)
        tt e in
    parse_i32-IsPort port negative value
      (ok_or-ok (parse_i32 port) ConfigError.port_no_number (negative, value) parsed)
      (refuse_if-ok (not negative && ltb max_port value) ConfigError.port_too_high checked)
