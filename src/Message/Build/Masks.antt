-- ===== src/Message/Build/Masks.antt =====
-- Which parameters remain in the bitmap of a message.
use c_runtime.Prelude.{ℕ, zero, suc, ◌+◌, ◌-◌, ◌/◌, ◌^◌, ◌≤◌, ◌<◌, ◌≡◌, refl, ap, ◌∙◌, arith}
use c_runtime.Prelude.{true, not, ◌&&◌, ltb, leb, ◌==◌, bit_and, not32}
use c_runtime.Prelude.{==_iff, all_below, all_below_sound}
use c_runtime.Prelude.Bits.{
  has_bit, has_bit-clear, has_bit-and, has_bit-low_mask, has_bit_high, bit_and-lt,
}
use c_runtime.RuntimeUtil.Types.{Device}
use c_runtime.RuntimeUtil.Devices.{param_at}
use c_runtime.Message.Build.{existing_params, readable_params, writeable_params}

mask_table : all_below 33 (λ n. (2 ^ 32 - 1) / 2 ^ (32 - n) == 2 ^ n - 1) ≡ true
unfolding all_below
mask_table = refl

pub has_bit-existing_params :
    (dev : Device) (pmap j : ℕ)
    → dev.num_params ≤ 32
    → has_bit (existing_params dev pmap) j ≡ (has_bit pmap j && ltb j dev.num_params)
unfolding existing_params
has_bit-existing_params dev pmap j h =
    has_bit-and j pmap _
    ∙ ap (λ t. has_bit pmap j && has_bit t j)
        ((==_iff _ _).0 (
          all_below_sound 33 (λ n. (2 ^ 32 - 1) / 2 ^ (32 - n) == 2 ^ n - 1) dev.num_params
            mask_table (omega arith)))
    ∙ ap (λ t. has_bit pmap j && t) (has_bit-low_mask dev.num_params j)

pub has_bit-readable_params :
    (dev : Device) (left i pmap j : ℕ)
    → i + left ≤ 32
    → j < 32
    → has_bit (readable_params dev left i pmap) j
      ≡ (has_bit pmap j && not (leb i j && (ltb j (i + left) && ((param_at dev j).read == 0))))
unfolding readable_params
has_bit-readable_params dev zero i pmap j h k = ground arith
has_bit-readable_params dev (suc left) i pmap j h k = ground (
  arith,
  has_bit-clear j i pmap k,
  has_bit-readable_params dev left (i + 1) pmap j (omega arith) k,
  has_bit-readable_params dev left (i + 1) (bit_and pmap (not32 (2 ^ i))) j (omega arith) k,
)

pub has_bit-writeable_params :
    (dev : Device) (left i pmap j : ℕ)
    → i + left ≤ 32
    → j < 32
    → has_bit (writeable_params dev left i pmap) j
      ≡ (has_bit pmap j && not (leb i j && (ltb j (i + left) && ((param_at dev j).write == 0))))
unfolding writeable_params
has_bit-writeable_params dev zero i pmap j h k = ground arith
has_bit-writeable_params dev (suc left) i pmap j h k = ground (
  arith,
  has_bit-clear j i pmap k,
  has_bit_high i j pmap,
  has_bit-writeable_params dev left (i + 1) pmap j (omega arith) k,
  has_bit-writeable_params dev left (i + 1) (bit_and pmap (not32 (2 ^ i))) j (omega arith) k,
)

-- The masks keep the bitmap within 32 bits.
pub readable_params-lt :
    (dev : Device) (left i pmap : ℕ) → pmap < 2 ^ 32 → readable_params dev left i pmap < 2 ^ 32
unfolding readable_params
readable_params-lt dev zero i pmap h = h
readable_params-lt dev (suc left) i pmap h =
    readable_params-lt dev left (i + 1) _ (ground (arith, bit_and-lt 32 pmap (not32 (2 ^ i)) h))

pub writeable_params-lt :
    (dev : Device) (left i pmap : ℕ) → pmap < 2 ^ 32 → writeable_params dev left i pmap < 2 ^ 32
unfolding writeable_params
writeable_params-lt dev zero i pmap h = h
writeable_params-lt dev (suc left) i pmap h = ground (
  arith,
  bit_and-lt 32 pmap (not32 (2 ^ i)) h,
  writeable_params-lt dev left (i + 1) pmap h,
  writeable_params-lt dev left (i + 1) (bit_and pmap (not32 (2 ^ i))),
)

pub existing_params-lt :
    (dev : Device) (pmap : ℕ) → pmap < 2 ^ 32 → existing_params dev pmap < 2 ^ 32
unfolding existing_params
existing_params-lt dev pmap h = bit_and-lt 32 pmap _ h
