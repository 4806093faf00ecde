-- ===== src/Executor/Reset.antt =====
-- The reset of the parameters when the student's code is stopped, of executor/executor.c.
pub mod Masks
pub mod Koalas
pub mod Valid
use c_runtime.Prelude.{ℕ, zero, suc, ◌+◌, ◌^◌, Option, none, some, ◌||◌}
use c_runtime.Prelude.{if◌then◌else◌, bit_or}
use c_runtime.Prelude.Bits.{has_bit}
use c_runtime.RuntimeUtil.Types.{DevId, Device, ParamVal, Process, max_devices}
use c_runtime.RuntimeUtil.Devices.{param_at}
use c_runtime.RuntimeUtil.Lookup.{get_device}
use c_runtime.Shm.Types.{Shm, command_stream}
use c_runtime.Shm.Devices.{get_catalog, get_device_identifiers}
use c_runtime.Shm.Params.{device_write_uid}
use text.Mathlib.Text.{◌==◌ as str_eq}

-- The loop over the parameters of a KoalaBear, from `j` on.
unfoldable pub velocity_mask : ℕ → ℕ → Device → ℕ → ℕ
velocity_mask zero j device params_to_reset = params_to_reset
velocity_mask (suc left) j device params_to_reset = velocity_mask left (j + 1) device (
    if str_eq (param_at device j).name "velocity_a" || str_eq (param_at device j).name "velocity_b"
    then bit_or params_to_reset (2 ^ j)
    else params_to_reset)

abbrev pub zero_params : ℕ → ParamVal
zero_params j = 0

-- One device of the catalog; a type without a table is only logged.
unfoldable pub reset_device : DevId → Shm → Shm
reset_device dev_id m = elim (get_device dev_id.type) [
  | none ↦ m
  | some device ↦
      if str_eq device.name "KoalaBear"
      then (device_write_uid dev_id.uid Process.executor command_stream
          (velocity_mask device.num_params 0 device 0) zero_params m).0
      else m
]

-- The loop over the places, from `i` on, with the copies that were taken before it.
unfoldable pub reset_loop : ℕ → ℕ → ℕ → (ℕ → DevId) → Shm → Shm
reset_loop zero i catalog dev_ids m = m
reset_loop (suc left) i catalog dev_ids m =
    reset_loop left (i + 1) catalog dev_ids
      (if has_bit catalog i then reset_device (dev_ids i) m else m)

unfoldable pub reset_params : Shm → Shm
reset_params m =
    let (m1, catalog) = get_catalog m in
    let (m2, dev_ids) = get_device_identifiers m1 in reset_loop max_devices 0 catalog dev_ids m2
