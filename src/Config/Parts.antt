-- ===== src/Config/Parts.antt =====
-- What a check of src/config.rs that passed says of its parts.
pub use transmitic_core.Common.{then-ok, bind-ok}
use transmitic_core.Common.{
  ◌≡◌, refl, sym, Bool, true, false, not, Option, none, some, List, [], ◌∷◌, All, Outcome, ok,
  ok_or,
}
use transmitic_core.Config.{ConfigError}
use transmitic_core.Config.Verify.{refuse_if, for_each}

-- The parts of a chain that returns.
pub ok_or-ok : {E A : Type 0} (o : Option A) (x : E) (a : A) → ok_or o x ≡ ok a → o ≡ some a
ok_or-ok none x a e = cc
ok_or-ok (some b) x a e = cc

pub refuse_if-ok : (b : Bool) (x : ConfigError) → refuse_if b x ≡ ok tt → b ≡ false
refuse_if-ok true x e = cc
refuse_if-ok false x e = refl

pub for_each-All :
    {A : Type 0} (check : A → Outcome ConfigError (Unit {0})) (P : A → Type 0)
    → ((x : A) → check x ≡ ok tt → P x)
    → (xs : List A) → for_each check xs ≡ ok tt
    → All P xs
unfolding for_each
for_each-All check P sound [] e = tt
for_each-All check P sound (x ∷ xs) e =
    let (one, more) = then-ok (check x) (for_each check xs) tt e in
    (sound x one, for_each-All check P sound xs more)

pub not-false : (b : Bool) → not b ≡ false → b ≡ true
not-false true h = refl
not-false false h = sym h
