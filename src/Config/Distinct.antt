-- ===== src/Config/Distinct.antt =====
-- What the count of equal elements of src/config.rs says.
use transmitic_core.Common.{
  ◌≤◌, ◌≡◌, ◌≢◌, Bool, true, false, List, [], ◌∷◌, All, ltb, arith, text_eq, text_eq_iff,
}
use transmitic_core.Config.{Text}
use transmitic_core.Config.Verify.{count}

-- No two elements are the same.
unfoldable pub Distinct : {A : Type 0} → (A → A → Bool) → List A → Type 0
Distinct same [] = Unit
Distinct same (x ∷ xs) = All (λ y. same x y ≡ false) xs × Distinct same xs

-- Elements that are counted once at most in the whole list are distinct.
none_counted :
    {A : Type 0} (same : A → Bool) (xs : List A) → count same xs ≡ 0 → All (λ y. same y ≡ false) xs
unfolding count
none_counted same [] h = tt
none_counted same (x ∷ xs) h = (ground (arith, h), none_counted same xs (ground (arith, h)))

pub counted_once-Distinct :
    {A : Type 0} (same : A → A → Bool) (whole xs : List A)
    → ((x : A) → same x x ≡ true)
    → ((p : A → Bool) → count p xs ≤ count p whole)
    → All (λ x. ltb 1 (count (same x) whole) ≡ false) xs
    → Distinct same xs
unfolding count Distinct
counted_once-Distinct same whole [] reflexive part h = tt
counted_once-Distinct same whole (x ∷ xs) reflexive part h = (
  none_counted (same x) xs (ground (arith, part (same x), h.0, reflexive x)),
  counted_once-Distinct same whole xs reflexive (λ p. ground (arith, part p)) h.1,
)

-- No two elements have the same key.
unfoldable pub Differ : {A : Type 0} → (A → Text) → List A → Type 0
Differ key [] = Unit
Differ key (x ∷ xs) = All (λ y. key x ≢ key y) xs × Differ key xs

other_keys :
    {A : Type 0} (key : A → Text) (x : A) (xs : List A)
    → All (λ y. text_eq (key x) (key y) ≡ false) xs
    → All (λ y. key x ≢ key y) xs
other_keys key x [] h = tt
other_keys key x (y ∷ xs) h =
    (λ e. cc ((text_eq_iff (key x) (key y)).1 e, h.0), other_keys key x xs h.1)

pub Distinct-Differ :
    {A : Type 0} (key : A → Text) (xs : List A)
    → Distinct (λ x y. text_eq (key x) (key y)) xs
    → Differ key xs
unfolding Distinct Differ
Distinct-Differ key [] h = tt
Distinct-Differ key (x ∷ xs) h = (other_keys key x xs h.0, Distinct-Differ key xs h.1)
