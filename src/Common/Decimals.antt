-- ===== src/Common/Decimals.antt =====
-- `u64` as decimal text: `to_string`, and `parse`, which takes a sign `+` and leading zeros.
use Prim.Native.Nat.{ℕ, zero, suc, ◌+◌, ◌-◌, ◌*◌, ◌/◌, ◌%◌, ◌^◌, ◌<◌, ◌≤◌}
use mathlib.Core.Path.{◌≡◌}
use mathlib.Core.Bool.{◌||◌}
use mathlib.Core.Option.{Option, none, some}
use mathlib.Core.List.{List, [], ◌∷◌, ◌++◌}
use native.Mathlib.Omega.{arith}
use transmitic_core.Common.Tests.{ltb, ◌==◌, if◌then◌else◌}
use transmitic_core.Common.Lists.{All, All-append}

-- The digits of a number, at most as many as the fuel.
unfoldable pub digits : ℕ → ℕ → List ℕ
digits zero n = []
digits (suc fuel) n =
    let front = digits fuel (n / 10) in (if ltb n 10 then [] else front) ++ ((b'0' + n % 10) ∷ [])

-- A `u64` has 20 digits at most.
unfoldable pub u64_to_string : ℕ → List ℕ
unfolding digits
u64_to_string n = digits 20 n

unfoldable pub scan : ℕ → List ℕ → Option ℕ
scan n [] = some n
scan n (c ∷ s) =
    let m = n * 10 + (c - b'0') in
    let rest = scan m s in
    if ltb c b'0' || ltb b'9' c then none else if ltb (2 ^ 64 - 1) m then none else rest

unfoldable pub parse_u64 : List ℕ → Option ℕ
unfolding scan
parse_u64 [] = none
parse_u64 (c ∷ s) =
    if c == b'+' then (elim s [ [] ↦ none | d ∷ t ↦ scan 0 (d ∷ t) ]) else scan 0 (c ∷ s)

abbrev pub IsDigit : ℕ → Type 0
IsDigit c = (b'0' ≤ c) × (c ≤ b'9')

digits-All : (fuel n : ℕ) → All IsDigit (digits fuel n)
unfolding digits
digits-All zero n = tt
digits-All (suc fuel) n =
    All-append IsDigit (if ltb n 10 then [] else digits fuel (n / 10)) ((b'0' + n % 10) ∷ [])
      (ground (arith, digits-All fuel (n / 10))) ((omega arith, omega arith), tt)

pub u64_to_string-All : (n : ℕ) → All IsDigit (u64_to_string n)
unfolding u64_to_string
u64_to_string-All n = digits-All 20 n

scan-append : (s t : List ℕ) (n m : ℕ) → scan n s ≡ some m → scan n (s ++ t) ≡ scan m t
unfolding scan
scan-append [] t n m h = ground (arith, h)
scan-append (c ∷ s) t n m h = ground (arith, h, scan-append s t (n * 10 + (c - b'0')) m)

scan-digits : (fuel n : ℕ) → n < 10 ^ fuel → n < 2 ^ 64 → scan 0 (digits fuel n) ≡ some n
unfolding scan digits
scan-digits zero n h fits = ground arith
scan-digits (suc fuel) n h fits =
    let front = scan-digits fuel (n / 10) in
    ground (arith, front, scan-append (digits fuel (n / 10)) ((b'0' + n % 10) ∷ []) 0 (n / 10))

parse_u64-scan :
    (s : List ℕ) (c n : ℕ)
    → All IsDigit (s ++ (c ∷ []))
    → scan 0 (s ++ (c ∷ [])) ≡ some n
    → parse_u64 (s ++ (c ∷ [])) ≡ some n
unfolding parse_u64
parse_u64-scan [] c n d h = ground (arith, d.0, h)
parse_u64-scan (x ∷ s) c n d h = ground (arith, d.0, h)

-- Every `u64` is read back from its text.
pub parse_u64-u64_to_string : (n : ℕ) → n < 2 ^ 64 → parse_u64 (u64_to_string n) ≡ some n
unfolding u64_to_string digits
parse_u64-u64_to_string n fits =
    parse_u64-scan (if ltb n 10 then [] else digits 19 (n / 10)) (b'0' + n % 10) n (digits-All 20 n)
      (scan-digits 20 n (omega arith) fits)
