-- ===== src/Common/Ranges.antt =====
-- A Boolean test on every number of a small range, by evaluation.
use Prim.Native.Nat.{ℕ, zero, suc, ◌<◌, ◌%◌, bit_and}
use mathlib.Core.Path.{◌≡◌, refl}
use mathlib.Core.Bool.{Bool, true, ◌&&◌}
use native.Mathlib.Omega.{arith}
use transmitic_core.Common.Tests.{◌==◌}

unfoldable pub holds_below : (ℕ → Bool) → ℕ → Bool
holds_below test zero = true
holds_below test (suc bound) = holds_below test bound && test bound

pub holds_below-at :
    (test : ℕ → Bool) (bound i : ℕ) → holds_below test bound ≡ true → i < bound → test i ≡ true
unfolding holds_below
holds_below-at test zero i checked inside = absurd (omega arith)
holds_below-at test (suc bound) i checked inside = ground (arith, holds_below-at test bound i)

low_bits_table :
    holds_below (λ b. bit_and b 3 == b % 4 && bit_and b 15 == b % 16 && bit_and b 63 == b % 64) 256
    ≡ true
unfolding holds_below
low_bits_table = refl

-- The masks of the low bits of a byte are remainders.
pub low_bits :
    (b : ℕ) → b < 256 → (bit_and b 3 ≡ b % 4) × (bit_and b 15 ≡ b % 16) × (bit_and b 63 ≡ b % 64)
low_bits b h = ground (arith, holds_below-at _ 256 b low_bits_table h)
