-- ===== src/Common/Slices.antt =====
-- Slices of a buffer, `buffer[lo..hi]`, with the panic of a range that does not fit.
use Prim.Native.Nat.{ℕ, zero, suc, ◌+◌, ◌-◌, ◌≤◌}
use mathlib.Core.Path.{◌≡◌, refl, ap, sym, ◌∙◌}
use mathlib.Core.List.{List, [], ◌∷◌, ◌++◌}
use mathlib.Core.Bool.{◌&&◌}
use mathlib.Core.Option.{none, some}
use native.Mathlib.Omega.{arith}
use transmitic_core.Common.Tests.{leb, ◌==◌, if◌then◌else◌}
use transmitic_core.Common.Lists.{
  length, get_elem?, take, drop, length-append, length-take, length-drop, take-append_length,
  drop-append_length,
}
use transmitic_core.Common.Outcomes.{Outcome, ok, panic}

-- `buffer[lo..hi]`
unfoldable pub slice : {E : Type 0} → List ℕ → ℕ → ℕ → Outcome E (List ℕ)
slice buffer lo hi =
    if leb lo hi && leb hi (length buffer) then ok (take (hi - lo) (drop lo buffer)) else panic

-- `buffer[lo..hi].copy_from_slice(src)`
unfoldable pub copy_from_slice : {E : Type 0} → List ℕ → ℕ → ℕ → List ℕ → Outcome E (List ℕ)
copy_from_slice buffer lo hi src =
    if leb lo hi && leb hi (length buffer) && length src == hi - lo
    then ok (take lo buffer ++ (src ++ drop hi buffer))
    else panic

pub slice_in_range :
    {E : Type 0} (buffer : List ℕ) (lo hi : ℕ)
    → lo ≤ hi
    → hi ≤ length buffer
    → slice {E = E} buffer lo hi ≡ ok (take (hi - lo) (drop lo buffer))
unfolding slice
slice_in_range buffer lo hi p q = ground arith

pub copy_in_range :
    {E : Type 0} (buffer : List ℕ) (lo : ℕ) (src : List ℕ) (hi : ℕ)
    → hi ≡ lo + length src
    → hi ≤ length buffer
    → copy_from_slice {E = E} buffer lo hi src ≡ ok (take lo buffer ++ (src ++ drop hi buffer))
unfolding copy_from_slice
copy_in_range buffer lo src hi p q = ground arith

pub slice_too_long :
    {E : Type 0} (buffer : List ℕ) (lo hi : ℕ)
    → suc (length buffer) ≤ hi
    → slice {E = E} buffer lo hi ≡ panic
unfolding slice
slice_too_long buffer lo hi p = ground arith

-- A copy keeps the length of the buffer.
pub length-copy :
    (buffer : List ℕ) (lo : ℕ) (src : List ℕ) (hi : ℕ)
    → hi ≡ lo + length src
    → hi ≤ length buffer
    → length (take lo buffer ++ (src ++ drop hi buffer)) ≡ length buffer
length-copy buffer lo src hi p q = omega (
  arith,
  length-append (take lo buffer) (src ++ drop hi buffer),
  length-append src (drop hi buffer),
  length-take lo buffer,
  length-drop hi buffer,
)

-- The prefix of a list that stands before what was copied is still there.
pub drop-copy :
    (buffer : List ℕ) (lo : ℕ) (src : List ℕ) (hi : ℕ)
    → lo ≤ length buffer
    → drop lo (take lo buffer ++ (src ++ drop hi buffer)) ≡ src ++ drop hi buffer
drop-copy buffer lo src hi p =
    drop-append_length lo (take lo buffer) _ (omega (arith, length-take lo buffer))

pub take-copy :
    (buffer : List ℕ) (lo : ℕ) (src : List ℕ) (hi : ℕ)
    → lo ≤ length buffer
    → take lo (take lo buffer ++ (src ++ drop hi buffer)) ≡ take lo buffer
take-copy buffer lo src hi p =
    take-append_length lo (take lo buffer) _ (omega (arith, length-take lo buffer))

pub take-take : (m n : ℕ) (xs : List ℕ) → m ≤ n → take m (take n xs) ≡ take m xs
take-take zero n xs h = refl
take-take (suc m) zero xs h = absurd (omega arith)
take-take (suc m) (suc n) [] h = refl
take-take (suc m) (suc n) (x ∷ xs) h = ap (λ l. x ∷ l) (take-take m n xs (omega arith))

drop-nil : (n : ℕ) → drop n (let none_left : List ℕ = [] in none_left) ≡ []
drop-nil zero = refl
drop-nil (suc n) = refl

pub drop-drop : (m n : ℕ) (xs : List ℕ) → drop m (drop n xs) ≡ drop (n + m) xs
drop-drop m zero xs = ap (λ k. drop k xs) (omega arith)
drop-drop m (suc n) [] = drop-nil m ∙ sym (drop-nil (suc n + m))
drop-drop m (suc n) (x ∷ xs) =
    drop-drop m n xs
    ∙ ap (λ k. drop k (x ∷ xs)) (let e : suc (n + m) ≡ suc n + m = omega arith in e)

-- `list[i]`
unfoldable pub index {ℓ} : {E : Type 0} {A : Type ℓ} → List A → ℕ → Outcome E A
index xs i = elim (get_elem? xs i) [ none ↦ panic | some x ↦ ok x ]
