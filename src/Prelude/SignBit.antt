-- ===== src/Prelude/SignBit.antt =====
-- A test by the sign bit of an `int` that is extended to 32 bits.
use Prim.Native.Nat.{ℕ, zero, suc, ◌-◌, ◌/◌, ◌^◌, ◌<◌, bit_and}
use native.Mathlib.Nat.{pow-suc, one-le-pow}
use mathlib.Core.Path.{◌≡◌}
use mathlib.Core.Logic.{◌↔◌}
use mathlib.Core.Bool.{false, not}
use native.Mathlib.Omega.{arith}
use c_runtime.Prelude.Tests.{◌==◌}
use c_runtime.Prelude.Bits.{test_bit, has_bit, has_bit-eq-test_bit, zero-bit_and, bit_and_step}

sign_bit_zero :
    (w i x : ℕ) → i < w → x < 2 ^ suc i → (bit_and x (2 ^ w - 2 ^ i) ≡ 0) ↔ (test_bit x i ≡ false)
unfolding test_bit
sign_bit_zero zero i x h k = absurd (omega arith)
sign_bit_zero (suc w) zero x h k =
    let none : x / 2 ≡ 0 = omega arith in
    ground (
      arith,
      pow-suc 2 w,
      one-le-pow w 2,
      bit_and_step x (2 ^ suc w - 1),
      none,
      zero-bit_and ((2 ^ suc w - 1) / 2),
    )
sign_bit_zero (suc w) (suc i) x h k = ground (
  arith,
  pow-suc 2 w,
  pow-suc 2 i,
  pow-suc 2 (suc i),
  bit_and_step x (2 ^ suc w - 2 ^ suc i),
  sign_bit_zero w i (x / 2),
)

-- For a number below twice the bit, the bits above it do not change the test.
pub sign_bit :
    (i x : ℕ) → i < 32 → x < 2 ^ suc i → (bit_and x (2 ^ 32 - 2 ^ i) == 0) ≡ not (has_bit x i)
sign_bit i x h k = ground (arith, sign_bit_zero 32 i x h k, has_bit-eq-test_bit i x)
