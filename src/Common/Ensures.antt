-- ===== src/Common/Ensures.antt =====
-- What holds of every value that a chain of fallible steps returns.
use mathlib.Core.Path.{◌≡◌, refl, subst}
use mathlib.Core.Bool.{Bool, true, false}
use transmitic_core.Common.Tests.{if◌then◌else◌}
use transmitic_core.Common.Outcomes.{Outcome, ok, err, panic, ◌>>=◌}

pub data Ensures {ℓ} {E : Type 0} {A : Type ℓ} (P : A → Type 0) (r : Outcome E A) : Type ℓ where
  ensured : ((a : A) → r ≡ ok a → P a) → Ensures P r

ok-injective {ℓ} : {E : Type 0} {A : Type ℓ} {a b : A} → ◌≡◌ {A = Outcome E A} (ok a) (ok b) → a ≡ b
ok-injective e = cc

module _ {ℓ} {E : Type 0} {A : Type ℓ} {P : A → Type 0} where
  pub Ensures-holds : {r : Outcome E A} {a : A} → Ensures P r → r ≡ ok a → P a
  Ensures-holds {a} (ensured h) e = h a e

  pub Ensures-ok : {a : A} → P a → Ensures {E = E} P (ok a)
  Ensures-ok {a} h = ensured (λ b e. subst P (ok-injective e) h)

  pub Ensures-err : (e : E) → Ensures P (err e)
  Ensures-err e = ensured (λ a h. cc)

  pub Ensures-panic : Ensures {E = E} P panic
  Ensures-panic = ensured (λ a h. cc)

  pub Ensures-if :
      (b : Bool) (x y : Outcome E A) → Ensures P x → Ensures P y → Ensures P (if b then x else y)
  Ensures-if true x y hx hy = hx
  Ensures-if false x y hx hy = hy

module _ {ℓ κ} {E : Type 0} {A : Type ℓ} {B : Type κ} {P : B → Type 0} where
  -- Nothing needs to be known of the first step.
  pub Ensures-any :
      (m : Outcome E A) (f : A → Outcome E B) → ((a : A) → Ensures P (f a)) → Ensures P (m >>= f)
  Ensures-any (ok a) f h = h a
  Ensures-any (err e) f h = Ensures-err e
  Ensures-any panic f h = Ensures-panic

  pub Ensures-bind :
      {Q : A → Type 0} (m : Outcome E A) (f : A → Outcome E B)
      → Ensures Q m
      → ((a : A) → Q a → Ensures P (f a))
      → Ensures P (m >>= f)
  Ensures-bind (ok a) f (ensured q) h = h a (q a refl)
  Ensures-bind (err e) f q h = Ensures-err e
  Ensures-bind panic f q h = Ensures-panic
