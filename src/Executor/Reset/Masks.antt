-- ===== src/Executor/Reset/Masks.antt =====
-- Which parameters reset_params resets, for each type of device.
use c_runtime.Prelude.{ℕ, ◌≡◌, refl, arith, inl, inr}
use c_runtime.Prelude.{
  Bool, true, false, ◌&&◌, Option, none, some, ◌==◌, if◌then◌else◌, ltb, Bool-cases, Option-cases,
  all_below, all_below_sound,
}
use c_runtime.RuntimeUtil.Types.{DevId, Process, devices_length}
use c_runtime.RuntimeUtil.Lookup.{get_device}
use c_runtime.Shm.Types.{Shm, command_stream}
use c_runtime.Shm.Params.{device_write_uid}
use c_runtime.Executor.Reset.{velocity_mask, zero_params, reset_device}
use text.Mathlib.Text.{◌==◌ as str_eq}

-- Of the device types only 6 has the name that is looked for; its velocities are 0 and 8.
pub reset_mask : ℕ → Option ℕ
reset_mask t = elim (get_device t) [
  | none ↦ none
  | some device ↦
      if str_eq device.name "KoalaBear"
      then some (velocity_mask device.num_params 0 device 0)
      else none
]

expects : Option ℕ → ℕ → Bool
expects none t = elim (t == 6) [ true ↦ false | false ↦ true ]
expects (some mask) t = t == 6 && mask == 257

reset_mask_table : all_below 64 (λ t. expects (reset_mask t) t) ≡ true
unfolding all_below expects reset_mask get_device velocity_mask
reset_mask_table = refl

expects_inv : (o : Option ℕ) (t : ℕ) → expects o t ≡ true → o ≡ (if t == 6 then some 257 else none)
unfolding expects
expects_inv none t h = ground (arith, h)
expects_inv (some mask) t h = ground (arith, h)

reset_mask_high :
    (t : ℕ) → ltb t devices_length ≡ false → reset_mask t ≡ (if t == 6 then some 257 else none)
unfolding reset_mask get_device
reset_mask_high t e = rw (reset_mask, get_device, e) (ground (arith, e))

pub reset_mask_lem : (t : ℕ) → reset_mask t ≡ (if t == 6 then some 257 else none)
reset_mask_lem t = elim (Bool-cases (ltb t devices_length)) [
  | inl e ↦
      expects_inv (reset_mask t) t
        (all_below_sound 64 (λ t. expects (reset_mask t) t) t reset_mask_table (ground (arith, e)))
  | inr e ↦ reset_mask_high t e
]

-- A command of zeros through the parameters of the mask, if there is one.
unfoldable pub write_zeros : ℕ → Shm → Option ℕ → Shm
write_zeros uid m none = m
write_zeros uid m (some mask) =
    (device_write_uid uid Process.executor command_stream mask zero_params m).0

pub reset_device-mask :
    (dev_id : DevId) (m : Shm)
    → reset_device dev_id m ≡ write_zeros dev_id.uid m (reset_mask dev_id.type)
unfolding reset_device reset_mask write_zeros
reset_device-mask dev_id m = elim (Option-cases (get_device dev_id.type)) [
  | inl e ↦ rw (reset_device, reset_mask, e) refl
  | inr (device, e) ↦ elim (Bool-cases (str_eq device.name "KoalaBear")) [
    | inl f ↦ rw (reset_device, reset_mask, e, f) refl
    | inr f ↦ rw (reset_device, reset_mask, e, f) refl
  ]
]
