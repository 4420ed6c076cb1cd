-- ===== src/Common/Maps.antt =====
-- A `HashMap<String, V>`: its entries in some order, the newest entry of a key in place of the
-- one before.
use mathlib.Core.Path.{◌≡◌, refl}
use mathlib.Core.Bool.{true, false}
use mathlib.Core.Option.{Option, none, some}
use mathlib.Core.List.{List, [], ◌∷◌}
use Prim.Native.Nat.{ℕ}
use native.Mathlib.Omega.{arith}
use transmitic_core.Common.Tests.{text_eq, text_eq_refl, text_eq_iff, if◌then◌else◌}

-- Equal keys are told apart from a third alike.
text_eq_other : (i j k : List ℕ) → text_eq i j ≡ true → text_eq j k ≡ false → text_eq i k ≡ false
text_eq_other i j k same other = cc ((text_eq_iff i j).0 same, other)

module _ {ℓ} {V : Type ℓ} where
  unfoldable pub get : List (List ℕ × V) → List ℕ → Option V
  get [] key = none
  get ((k, v) ∷ m) key = let rest = get m key in if text_eq k key then some v else rest

  unfoldable pub insert : List (List ℕ × V) → List ℕ → V → List (List ℕ × V)
  insert [] key value = (key, value) ∷ []
  insert ((k, v) ∷ m) key value =
      let rest = insert m key value in if text_eq k key then (k, value) ∷ m else (k, v) ∷ rest

  unfoldable pub remove : List (List ℕ × V) → List ℕ → List (List ℕ × V)
  remove [] key = []
  remove ((k, v) ∷ m) key = let rest = remove m key in if text_eq k key then rest else (k, v) ∷ rest

  pub get-remove_same : (m : List (List ℕ × V)) (k : List ℕ) → get (remove m k) k ≡ none
  unfolding get remove
  get-remove_same [] k = refl
  get-remove_same ((j, w) ∷ m) k = ground (arith, get-remove_same m k)

  pub get-insert_same : (m : List (List ℕ × V)) (k : List ℕ) (v : V) → get (insert m k v) k ≡ some v
  unfolding get insert
  get-insert_same [] k v = ground (arith, text_eq_refl k)
  get-insert_same ((j, w) ∷ m) k v = ground (arith, text_eq_refl k, get-insert_same m k v)

  pub get-insert_other :
      (m : List (List ℕ × V)) (k j : List ℕ) (v : V)
      → text_eq k j ≡ false
      → get (insert m k v) j ≡ get m j
  unfolding get insert
  get-insert_other [] k j v h = ground (arith, h)
  get-insert_other ((i, w) ∷ m) k j v h =
      ground (arith, h, text_eq_other i k j, get-insert_other m k j v h)

  pub get-remove_other :
      (m : List (List ℕ × V)) (k j : List ℕ) → text_eq k j ≡ false → get (remove m k) j ≡ get m j
  unfolding get remove
  get-remove_other [] k j h = refl
  get-remove_other ((i, w) ∷ m) k j h =
      ground (arith, h, text_eq_other i k j, get-remove_other m k j h)
