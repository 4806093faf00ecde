-- ===== src/Lowcar/Params/Transfer.antt =====
-- The loops of the firmware over a bitmap, against the payloads of dev_handler.
pub mod Reading
pub mod DeviceData
pub mod Writing
use c_runtime.Prelude.{
  ℕ, zero, suc, ◌+◌, ◌*◌, ◌/◌, ◌^◌, ◌≤◌, ◌<◌, ◌≡◌, arith, refl, true, false, List, ◌++◌, Outcome,
  done, length, length-append,
}
use c_runtime.Prelude.{◌≢◌, ltb, ◌==◌}
use c_runtime.Prelude.Bits.{has_bit}
use c_runtime.Prelude.SignBit.{sign_bit}
use c_runtime.RuntimeUtil.Types.{Device, ParamType, ParamVal}
use c_runtime.RuntimeUtil.Devices.{param_at}
use c_runtime.Message.Build.{value_bytes}
use c_runtime.Message.Build.Write.{encoded}
use c_runtime.Lowcar.Params.{is_subscribed}
use native.Mathlib.Nat.{pow-le-pow_right, div-eq_of_lt}

-- A shift that leaves something is within the width of the number.
pub shift-lt : (w i p : ℕ) → p < 2 ^ w → p / 2 ^ i ≢ 0 → i < w
shift-lt w i p small e = ground (
  arith,
  pow-le-pow_right {n = 2} (omega arith) {i = w} {j = i},
  div-eq_of_lt {n = p} {m = 2 ^ i},
)

pub is_subscribed_lem :
    (w p i : ℕ) → w ≤ 32 → p < 2 ^ w → p / 2 ^ i ≢ 0 → is_subscribed w p i ≡ done (has_bit p i)
unfolding is_subscribed
is_subscribed_lem w p i fits small e = ground (arith, shift-lt w i p small e, sign_bit i p)

length-value_bytes : (t : ParamType) (v : ParamVal) → length (value_bytes t v) ≤ 4
length-value_bytes ParamType.int v = omega arith
length-value_bytes ParamType.float v = omega arith
length-value_bytes ParamType.bool v = omega arith

pub length-encoded_bound :
    (dev : Device) (values : ℕ → ParamVal) (p left i : ℕ)
    → length (encoded dev values p left i) ≤ 4 * left
unfolding encoded
length-encoded_bound dev values p zero i = omega arith
length-encoded_bound dev values p (suc left) i = ground (
  arith,
  length-append (value_bytes (param_at dev i).type (values i)) (encoded dev values p left (i + 1)),
  length-value_bytes (param_at dev i).type (values i),
  length-encoded_bound dev values p left (i + 1),
)

module _ (dev : Device) (values : ℕ → ParamVal) (p left i : ℕ) (more : p / 2 ^ i == 0 ≡ false) where
  pub encoded-on :
      has_bit p i ≡ true
      → encoded dev values p (suc left) i
        ≡ value_bytes (param_at dev i).type (values i) ++ encoded dev values p left (i + 1)
  unfolding encoded
  encoded-on f = rw (more, f) refl

  pub encoded-off :
      has_bit p i ≡ false → encoded dev values p (suc left) i ≡ encoded dev values p left (i + 1)
  unfolding encoded
  encoded-off f = rw (more, f) refl
