-- ===== src/Executor/Reset/Valid.antt =====
-- The reset keeps the invariant of the block of the devices.
use c_runtime.Prelude.{ℕ, zero, suc, ◌+◌, arith, inl, inr}
use c_runtime.Prelude.{◌==◌, if◌then◌else◌, Bool-cases}
use c_runtime.Prelude.Bits.{has_bit}
use c_runtime.RuntimeUtil.Types.{DevId, Process}
use c_runtime.Shm.Types.{Shm, command_stream}
use c_runtime.Shm.Devices.{get_catalog, get_device_identifiers}
use c_runtime.Shm.Valid.{IsDevShm}
use c_runtime.Shm.Steps.{Step-IsDevShm, write_uid}
use c_runtime.Executor.Reset.{zero_params, reset_device, reset_loop, reset_params}
use c_runtime.Executor.Reset.Masks.{reset_mask_lem, write_zeros, reset_device-mask}

-- Whatever uids there are.
reset_device-IsDevShm :
    (dev_id : DevId) (m : Shm) → IsDevShm m.dev → IsDevShm (reset_device dev_id m).dev
reset_device-IsDevShm dev_id m v = elim (Bool-cases (dev_id.type == 6)) [
  | inl e ↦
      rw (reset_device-mask dev_id m, reset_mask_lem dev_id.type, e)
        (unfold write_zeros in
          Step-IsDevShm
            (write_uid dev_id.uid Process.executor command_stream 257 zero_params (omega arith)) v)
  | inr e ↦ rw (reset_device-mask dev_id m, reset_mask_lem dev_id.type, e) (unfold write_zeros in v)
]

reset_place-IsDevShm :
    (i catalog : ℕ) (dev_ids : ℕ → DevId) (m : Shm)
    → IsDevShm m.dev
    → IsDevShm (if has_bit catalog i then reset_device (dev_ids i) m else m).dev
reset_place-IsDevShm i catalog dev_ids m v = elim (Bool-cases (has_bit catalog i)) [
  | inl e ↦ rw e (reset_device-IsDevShm (dev_ids i) m v)
  | inr e ↦ rw e v
]

reset_loop-IsDevShm :
    (left i catalog : ℕ) (dev_ids : ℕ → DevId) (m : Shm)
    → IsDevShm m.dev
    → IsDevShm (reset_loop left i catalog dev_ids m).dev
unfolding reset_loop
reset_loop-IsDevShm zero i catalog dev_ids m v = v
reset_loop-IsDevShm (suc left) i catalog dev_ids m v =
    reset_loop-IsDevShm left (i + 1) catalog dev_ids _ (reset_place-IsDevShm i catalog dev_ids m v)

pub reset_params-IsDevShm : (m : Shm) → IsDevShm m.dev → IsDevShm (reset_params m).dev
unfolding reset_params get_catalog get_device_identifiers
reset_params-IsDevShm m v = reset_loop-IsDevShm 32 0 m.dev.catalog m.dev.dev_ids _ v
