-- ===== src/Common/Words.antt =====
-- Unsigned machine words: `u8` shifts and sums with their wrap-around, and big-endian bytes.
use Prim.Native.Nat.{ℕ, zero, suc, ◌+◌, ◌*◌, ◌/◌, ◌%◌, ◌^◌, ◌<◌}
use mathlib.Core.Path.{◌≡◌, refl}
use mathlib.Core.List.{List, [], ◌∷◌, ◌++◌}
use native.Mathlib.Omega.{arith}
use native.Mathlib.Nat.{pow-suc}
use transmitic_core.Common.Lists.{length, length-append}

abbrev pub IsByte : ℕ → Type 0
IsByte b = b < 256

-- `x << k` and `x >> k` on `u8`, and the wrapping sum.
infixl 75 ◌<<<◌ ◌>>>◌
abbrev pub ◌<<<◌ : ℕ → ℕ → ℕ
x <<< k = x * 2 ^ k % 256

abbrev pub ◌>>>◌ : ℕ → ℕ → ℕ
x >>> k = x / 2 ^ k

abbrev pub add_u8 : ℕ → ℕ → ℕ
add_u8 a b = (a + b) % 256

-- The big-endian bytes of the low `8 * k` bits, `n.to_be_bytes()`.
unfoldable pub to_be_bytes : ℕ → ℕ → List ℕ
to_be_bytes zero n = []
to_be_bytes (suc k) n = to_be_bytes k (n / 256) ++ (n % 256 ∷ [])

abbrev be_from : ℕ → List ℕ → ℕ
be_from acc [] = acc
be_from acc (b ∷ bs) = be_from (acc * 256 + b) bs

-- `from_be_bytes`
unfoldable pub from_be_bytes : List ℕ → ℕ
from_be_bytes bs = be_from 0 bs

be_from-append :
    (acc : ℕ) (xs : List ℕ) (b : ℕ) → be_from acc (xs ++ (b ∷ [])) ≡ be_from acc xs * 256 + b
be_from-append acc [] b = refl
be_from-append acc (x ∷ xs) b = be_from-append (acc * 256 + x) xs b

pub length-to_be_bytes : (k n : ℕ) → length (to_be_bytes k n) ≡ k
unfolding to_be_bytes
length-to_be_bytes zero n = refl
length-to_be_bytes (suc k) n =
    omega (
      arith,
      length-append (to_be_bytes k (n / 256)) (n % 256 ∷ []),
      length-to_be_bytes k (n / 256),
    )

pub from_be_bytes-to_be_bytes : (k n : ℕ) → n < 256 ^ k → from_be_bytes (to_be_bytes k n) ≡ n
unfolding to_be_bytes from_be_bytes
from_be_bytes-to_be_bytes zero n h = omega arith
from_be_bytes-to_be_bytes (suc k) n h = omega (
  arith,
  be_from-append 0 (to_be_bytes k (n / 256)) (n % 256),
  from_be_bytes-to_be_bytes k (n / 256) (omega (arith, pow-suc 256 k)),
)
