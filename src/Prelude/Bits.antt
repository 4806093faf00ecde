-- ===== src/Prelude/Bits.antt =====
-- Bitmaps: single bits of `&`, `|`, `^` and `~` at every width.
use Prim.Native.Nat.{
  min, max, digits, bitwise, bit_and-bitwise, bit_or-bitwise, bit_xor-bitwise, differ,
}
use Prim.Native.Nat.{ℕ, zero, suc, ◌+◌, ◌-◌, ◌*◌, ◌/◌, ◌%◌, ◌^◌, ◌≤◌, ◌<◌}
use Prim.Native.Nat.{bit_and, bit_or, bit_xor}
use Prim.Native.Nat.add
use native.Mathlib.Nat.{le_refl, pow-suc, one-le-pow, pow-le-pow_right, div-add-mod}
use mathlib.Core.Path.{◌≡◌, refl, ap, ◌∙◌}
use mathlib.Core.Logic.{◌↔◌}
use mathlib.Core.Bool.{Bool, false, not, xor, ◌&&◌, ◌||◌}
use native.Mathlib.Omega.{arith}
use c_runtime.Prelude.Tests.{◌==◌, ltb}
use c_runtime.Prelude.Word.{not32}

-- The recursion on binary digits behind the native operations: fuel beyond the first operand
-- makes no difference, which gives the equation for the lowest digit of each operation.
module _ (rest : ℕ → ℕ) (digit : ℕ → ℕ → ℕ) where
  abbrev run : ℕ → ℕ → ℕ → ℕ
  run = digits rest digit

  more_fuel : (x y fuel : ℕ) → x ≤ fuel → run (suc fuel) x y ≡ run fuel x y
  more_fuel zero y zero enough = refl
  more_fuel zero y (suc fuel) enough = refl
  more_fuel (suc x) y zero enough = absurd (omega arith)
  more_fuel (suc x) y (suc fuel) enough =
      ap (λ t. t * 2 + digit (suc x % 2) (y % 2)) (more_fuel (suc x / 2) (y / 2) fuel (omega arith))

  spare_fuel : (spare x y fuel : ℕ) → x ≤ fuel → run (spare + fuel) x y ≡ run fuel x y
  spare_fuel zero x y fuel enough = ap (λ n. run n x y) (omega arith)
  spare_fuel (suc spare) x y fuel enough =
      let same : suc spare + fuel ≡ suc (spare + fuel) = omega arith in
      ap (λ n. run n x y) same
      ∙ more_fuel x y (spare + fuel) (omega arith)
      ∙ spare_fuel spare x y fuel enough

  lowest_digit :
      (x y : ℕ)
      → run (suc x) (suc x) y
        ≡ bitwise rest digit (suc x / 2) (y / 2) * 2 + digit (suc x % 2) (y % 2)
  lowest_digit x y =
      let half = suc x / 2 in
      let same : x ≡ (x - half) + half = omega arith in
      ap (λ t. t * 2 + digit (suc x % 2) (y % 2))
        (ap (λ n. run n half (y / 2)) same ∙ spare_fuel (x - half) half (y / 2) half (le_refl half))

pub bit_or_step : (x y : ℕ) → bit_or x y ≡ bit_or (x / 2) (y / 2) * 2 + max (x % 2) (y % 2)
bit_or_step zero y = omega (arith, bit_or-bitwise 0 y, bit_or-bitwise 0 (y / 2))
bit_or_step (suc x) y = simp bit_or-bitwise (lowest_digit (λ t. t) max x y)

pub bit_and_step : (x y : ℕ) → bit_and x y ≡ bit_and (x / 2) (y / 2) * 2 + min (x % 2) (y % 2)
bit_and_step zero y = omega (arith, bit_and-bitwise 0 y, bit_and-bitwise 0 (y / 2))
bit_and_step (suc x) y = simp bit_and-bitwise (lowest_digit (λ t. 0) min x y)

differ-eq : (a b : ℕ) → a < 2 → b < 2 → differ a b ≡ (a + b) % 2
differ-eq zero b p q = omega arith
differ-eq (suc zero) zero p q = omega arith
differ-eq (suc zero) (suc b) p q = omega arith
differ-eq (suc (suc a)) b p q = absurd (omega arith)

pub bit_xor_step : (a b : ℕ) → bit_xor a b ≡ bit_xor (a / 2) (b / 2) * 2 + (a + b) % 2
bit_xor_step zero b = simp bit_xor-bitwise (omega arith)
bit_xor_step (suc a) b =
    simp bit_xor-bitwise
      (omega (arith, lowest_digit (λ t. t) differ a b, differ-eq (suc a % 2) (b % 2)))

-- Bit `i` of a number.
unfoldable pub test_bit : ℕ → ℕ → Bool
test_bit x zero = x % 2 == 1
test_bit x (suc i) = test_bit (x / 2) i

pub test_bit-and : (i a b : ℕ) → test_bit (bit_and a b) i ≡ (test_bit a i && test_bit b i)
unfolding test_bit
test_bit-and zero a b = ground (arith, bit_and_step a b)
test_bit-and (suc i) a b =
    ap (λ t. test_bit t i) (omega (arith, bit_and_step a b)) ∙ test_bit-and i (a / 2) (b / 2)

pub test_bit-or : (i a b : ℕ) → test_bit (bit_or a b) i ≡ (test_bit a i || test_bit b i)
unfolding test_bit
test_bit-or zero a b = ground (arith, bit_or_step a b)
test_bit-or (suc i) a b =
    ap (λ t. test_bit t i) (omega (arith, bit_or_step a b)) ∙ test_bit-or i (a / 2) (b / 2)

pub test_bit-xor : (i a b : ℕ) → test_bit (bit_xor a b) i ≡ xor (test_bit a i) (test_bit b i)
unfolding test_bit xor
test_bit-xor zero a b = ground (arith, bit_xor_step a b)
test_bit-xor (suc i) a b =
    ap (λ t. test_bit t i) (omega (arith, bit_xor_step a b)) ∙ test_bit-xor i (a / 2) (b / 2)

-- `~x` flips each of the 32 bits.
test_bit-complement :
    (w i x : ℕ) → i < w → x < 2 ^ w → test_bit (2 ^ w - 1 - x) i ≡ not (test_bit x i)
unfolding test_bit
test_bit-complement zero i x h k = absurd (omega arith)
test_bit-complement (suc w) zero x h k = ground (arith, pow-suc 2 w)
test_bit-complement (suc w) (suc i) x h k =
    ap (λ t. test_bit t i) (omega (arith, pow-suc 2 w))
    ∙ test_bit-complement w i (x / 2) (omega arith) (omega (arith, pow-suc 2 w))

pub test_bit-not32 : (i x : ℕ) → i < 32 → x < 2 ^ 32 → test_bit (not32 x) i ≡ not (test_bit x i)
test_bit-not32 i x h k = test_bit-complement 32 i x h k

-- `1 << j` has bit `j` and no other.
test_bit-zero : (i : ℕ) → test_bit 0 i ≡ false
unfolding test_bit
test_bit-zero zero = refl
test_bit-zero (suc i) = test_bit-zero i

pub test_bit-pow : (i j : ℕ) → test_bit (2 ^ j) i ≡ (j == i)
unfolding test_bit
test_bit-pow zero zero = refl
test_bit-pow zero (suc j) = ground (arith, pow-suc 2 j)
test_bit-pow (suc i) zero = test_bit-zero i ∙ ground arith
test_bit-pow (suc i) (suc j) =
    ap (λ t. test_bit t i) (omega (arith, pow-suc 2 j)) ∙ test_bit-pow i j ∙ ground arith

-- Numbers below `2 ^ w` with the same first `w` bits are equal.
pub bits_ext :
    (w a b : ℕ) → a < 2 ^ w → b < 2 ^ w → ((i : ℕ) → i < w → test_bit a i ≡ test_bit b i) → a ≡ b
unfolding test_bit
bits_ext zero a b p q h = omega arith
bits_ext (suc w) a b p q h = ground (
  arith,
  pow-suc 2 w,
  h 0,
  bits_ext w (a / 2) (b / 2) (omega (arith, pow-suc 2 w)) (omega (arith, pow-suc 2 w))
      (λ i k. h (suc i) (omega arith)),
)

-- The tests of the source, `x & (1 << i)`.
unfoldable pub has_bit : ℕ → ℕ → Bool
has_bit x i = not (bit_and x (2 ^ i) == 0)

pub zero-bit_and : (b : ℕ) → bit_and 0 b ≡ 0
zero-bit_and b = bit_and-bitwise 0 b

no_common_bit : (x bound : ℕ) → x ≤ bound → bit_and x 0 ≡ 0
no_common_bit zero bound small = refl
no_common_bit (suc x) zero small = absurd (omega arith)
no_common_bit (suc x) (suc bound) small =
    let halves = no_common_bit (suc x / 2) bound (omega arith) in
    omega (arith, halves, bit_and_step (suc x) 0)

pub bit_and-zero : (x : ℕ) → bit_and x 0 ≡ 0
bit_and-zero x = no_common_bit x x (le_refl x)

bit_and-pow : (i x : ℕ) → (bit_and x (2 ^ i) ≡ 0) ↔ (test_bit x i ≡ false)
unfolding test_bit
bit_and-pow zero x = ground (arith, bit_and_step x 1, bit_and-zero (x / 2))
bit_and-pow (suc i) x =
    ground (arith, pow-suc 2 i, one-le-pow i 2, bit_and_step x (2 ^ suc i), bit_and-pow i (x / 2))

pub has_bit-eq-test_bit : (i x : ℕ) → has_bit x i ≡ test_bit x i
unfolding has_bit
has_bit-eq-test_bit i x = ground (arith, bit_and-pow i x)

-- The four updates of the source, bit by bit.
pub has_bit-zero : (i : ℕ) → has_bit 0 i ≡ false
has_bit-zero i = has_bit-eq-test_bit i 0 ∙ test_bit-zero i

pub has_bit-or : (i a b : ℕ) → has_bit (bit_or a b) i ≡ (has_bit a i || has_bit b i)
has_bit-or i a b = simp (has_bit-eq-test_bit, test_bit-or)

pub has_bit-and : (i a b : ℕ) → has_bit (bit_and a b) i ≡ (has_bit a i && has_bit b i)
has_bit-and i a b = simp (has_bit-eq-test_bit, test_bit-and)

pub has_bit-set : (i j x : ℕ) → has_bit (bit_or x (2 ^ j)) i ≡ (has_bit x i || j == i)
has_bit-set i j x = simp (has_bit-or, has_bit-eq-test_bit, test_bit-pow)

pub has_bit-not32 : (i x : ℕ) → i < 32 → x < 2 ^ 32 → has_bit (not32 x) i ≡ not (has_bit x i)
has_bit-not32 i x h k = simp has_bit-eq-test_bit (test_bit-not32 i x h k)

pub has_bit-mask :
    (i a b : ℕ)
    → i < 32
    → b < 2 ^ 32
    → has_bit (bit_and a (not32 b)) i ≡ (has_bit a i && not (has_bit b i))
has_bit-mask i a b h k =
    has_bit-and i a (not32 b) ∙ ap (λ t. has_bit a i && t) (has_bit-not32 i b h k)

pub pow-lt-32 : (j : ℕ) → j < 32 → 2 ^ j < 2 ^ 32
pow-lt-32 j h = omega (arith, pow-le-pow_right {n = 2} (omega arith) {i = j} {j = 31} (omega arith))

pub has_bit-clear :
    (i j x : ℕ)
    → i < 32
    → j < 32
    → has_bit (bit_and x (not32 (2 ^ j))) i ≡ (has_bit x i && not (j == i))
has_bit-clear i j x h k =
    has_bit-mask i x (2 ^ j) h (pow-lt-32 j k)
    ∙ ap (λ t. has_bit x i && not t) (has_bit-eq-test_bit i (2 ^ j) ∙ test_bit-pow i j)

pub has_bit_ext :
    (a b : ℕ) → a < 2 ^ 32 → b < 2 ^ 32 → ((i : ℕ) → i < 32 → has_bit a i ≡ has_bit b i) → a ≡ b
has_bit_ext a b p q h =
    bits_ext 32 a b p q (λ i k. rw (← has_bit-eq-test_bit i a, ← has_bit-eq-test_bit i b) (h i k))

-- The results stay within the width.
pub bit_or-lt : (w a b : ℕ) → a < 2 ^ w → b < 2 ^ w → bit_or a b < 2 ^ w
bit_or-lt zero zero zero p q = omega arith
bit_or-lt zero zero (suc b) p q = absurd (omega arith)
bit_or-lt zero (suc a) b p q = absurd (omega arith)
bit_or-lt (suc w) a b p q = omega (
  arith,
  pow-suc 2 w,
  bit_or_step a b,
  bit_or-lt w (a / 2) (b / 2) (omega (arith, pow-suc 2 w)) (omega (arith, pow-suc 2 w)),
)

pub bit_xor-lt : (w a b : ℕ) → a < 2 ^ w → b < 2 ^ w → bit_xor a b < 2 ^ w
bit_xor-lt zero zero zero p q = omega arith
bit_xor-lt zero zero (suc b) p q = absurd (omega arith)
bit_xor-lt zero (suc a) b p q = absurd (omega arith)
bit_xor-lt (suc w) a b p q = omega (
  arith,
  pow-suc 2 w,
  bit_xor_step a b,
  bit_xor-lt w (a / 2) (b / 2) (omega (arith, pow-suc 2 w)) (omega (arith, pow-suc 2 w)),
)

pub bit_and-lt : (w a b : ℕ) → a < 2 ^ w → bit_and a b < 2 ^ w
bit_and-lt zero zero b p = rw (bit_and-bitwise 0 b) p
bit_and-lt zero (suc a) b p = absurd (omega arith)
bit_and-lt (suc w) a b p = omega (
  arith,
  pow-suc 2 w,
  bit_and_step a b,
  bit_and-lt w (a / 2) (b / 2) (omega (arith, pow-suc 2 w)),
)

-- A number below `2 ^ i` has no bit from `i` on, and a shift to the right moves the bits down.
pub test_bit_high : (i x k : ℕ) → x < 2 ^ i → test_bit x (i + k) ≡ false
unfolding test_bit
test_bit_high zero x k h =
    ap (λ t. test_bit t (0 + k)) (let e : x ≡ 0 = omega arith in e) ∙ test_bit-zero (0 + k)
test_bit_high (suc i) x k h =
    ap (test_bit x) (add.suc i k) ∙ test_bit_high i (x / 2) k (omega (arith, pow-suc 2 i))

pub has_bit_high : (i j x : ℕ) → x / 2 ^ i ≡ 0 → i ≤ j → has_bit x j ≡ false
has_bit_high i j x e h =
    let below : x < 2 ^ i = ground (arith, one-le-pow i 2, div-add-mod x (2 ^ i), e) in
    let d : i + (j - i) ≡ j = omega arith in
    has_bit-eq-test_bit j x ∙ rw d at (test_bit_high i x (j - i) below)

-- The mask `2 ^ n - 1` has the bits below `n`.
test_bit-low_mask : (n j : ℕ) → test_bit (2 ^ n - 1) j ≡ ltb j n
unfolding test_bit
test_bit-low_mask zero j = test_bit-zero j ∙ ground arith
test_bit-low_mask (suc n) zero = ground (arith, pow-suc 2 n, one-le-pow n 2)
test_bit-low_mask (suc n) (suc j) =
    ap (λ t. test_bit t j) (omega (arith, pow-suc 2 n, one-le-pow n 2))
    ∙ test_bit-low_mask n j
    ∙ ground arith

pub has_bit-low_mask : (n j : ℕ) → has_bit (2 ^ n - 1) j ≡ ltb j n
has_bit-low_mask n j = has_bit-eq-test_bit j (2 ^ n - 1) ∙ test_bit-low_mask n j
