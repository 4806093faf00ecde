-- ===== src/Shm/Params.antt =====
-- Reading and writing the parameters of devices, of shm_wrapper/shm_wrapper.c.
pub mod Commands
pub mod Late
use c_runtime.Prelude.{ℕ, zero, suc, ◌+◌, ◌-◌, ◌^◌, Bool, true, false, ◌&&◌, Option, none, some}
use c_runtime.Prelude.{◌==◌, if◌then◌else◌, update, bit_and, bit_or, not32}
use c_runtime.Prelude.Bits.{has_bit}
use c_runtime.RuntimeUtil.Types.{
  Process, is_dev_handler, is_executor, ParamVal, max_devices, max_params,
}
use c_runtime.Shm.Types.{
  DevShm, Shm, Stream, data_stream, command_stream, same_stream, put_row, my_sem_wait, my_sem_post,
  on_dev, stream_sem, cmd_map_sem,
}
use c_runtime.Shm.Devices.{get_dev_ix_from_uid}

-- The loop `if (bitmap & (1 << i)) target[i] = source[i]` from `i` on.
unfoldable pub copy_on : ℕ → ℕ → ℕ → (ℕ → ParamVal) → (ℕ → ParamVal) → ℕ → ParamVal
copy_on zero i bitmap source target = target
copy_on (suc left) i bitmap source target =
    copy_on left (i + 1) bitmap source
      (if has_bit bitmap i then update target i (source i) else target)

-- The flags that dev_handler turns off once it has read a command.
unfoldable pub clear_command : ℕ → ℕ → DevShm → DevShm
clear_command ix bitmap d =
    let map' = update d.cmd_map 0 (bit_and (d.cmd_map 0) (not32 (2 ^ ix))) in
    record d { cmd_map = update map' (ix + 1) (bit_and (map' (ix + 1)) (not32 bitmap)) }

-- The flags that executor turns on when it has written a command.
unfoldable pub flag_command : ℕ → ℕ → DevShm → DevShm
flag_command ix bitmap d =
    let map' = update d.cmd_map 0 (bit_or (d.cmd_map 0) (2 ^ ix)) in
    record d { cmd_map = update map' (ix + 1) (bit_or (map' (ix + 1)) bitmap) }

unfoldable pub device_read_helper :
    ℕ → Process → Stream → ℕ → (ℕ → ParamVal) → Shm → Shm × (ℕ → ParamVal)
device_read_helper ix process stream bitmap params m =
    let m1 = my_sem_wait (stream_sem stream ix) m in
    let params' = copy_on max_params 0 bitmap (m.dev.params stream ix) params in
    let m2 =
      if is_dev_handler process && same_stream stream command_stream
      then my_sem_post cmd_map_sem (on_dev (clear_command ix bitmap) (my_sem_wait cmd_map_sem m1))
      else m1 in
    (my_sem_post (stream_sem stream ix) m2, params')

unfoldable pub write_row : Stream → ℕ → ℕ → (ℕ → ParamVal) → DevShm → DevShm
write_row stream ix bitmap params d = record d {
  params = put_row stream ix (copy_on max_params 0 bitmap params (d.params stream ix)) d.params;
}

unfoldable pub device_write_helper : ℕ → Process → Stream → ℕ → (ℕ → ParamVal) → Shm → Shm
device_write_helper ix process stream bitmap params m =
    let m1 = on_dev (write_row stream ix bitmap params) (my_sem_wait (stream_sem stream ix) m) in
    let m2 =
      if is_executor process && same_stream stream command_stream
      then my_sem_post cmd_map_sem (on_dev (flag_command ix bitmap) (my_sem_wait cmd_map_sem m1))
      else m1 in
    my_sem_post (stream_sem stream ix) m2

-- The test of the catalog here, and the searches by uid below, hold no semaphore: what can happen
-- between them and the helper is in Shm.Steps. `none` is the result -1, which leaves the array of
-- the caller as it is.
unfoldable pub device_read :
    ℕ → Process → Stream → ℕ → (ℕ → ParamVal) → Shm → Shm × Option (ℕ → ParamVal)
device_read ix process stream bitmap params m =
    if has_bit m.dev.catalog ix
    then (let (m', params') = device_read_helper ix process stream bitmap params m in
        (m', some params'))
    else (m, none)

unfoldable pub device_read_uid :
    ℕ → Process → Stream → ℕ → (ℕ → ParamVal) → Shm → Shm × Option (ℕ → ParamVal)
device_read_uid uid process stream bitmap params m = elim (get_dev_ix_from_uid uid m) [
  | none ↦ (m, none)
  | some ix ↦
      let (m', params') = device_read_helper ix process stream bitmap params m in (m', some params')
]

-- The Boolean is `true` for the result 0.
unfoldable pub device_write : ℕ → Process → Stream → ℕ → (ℕ → ParamVal) → Shm → Shm × Bool
device_write ix process stream bitmap params m =
    if has_bit m.dev.catalog ix
    then (device_write_helper ix process stream bitmap params m, true)
    else (m, false)

unfoldable pub device_write_uid : ℕ → Process → Stream → ℕ → (ℕ → ParamVal) → Shm → Shm × Bool
device_write_uid uid process stream bitmap params m = elim (get_dev_ix_from_uid uid m) [
  | none ↦ (m, false)
  | some ix ↦ (device_write_helper ix process stream bitmap params m, true)
]

unfoldable pub get_cmd_map : Shm → Shm × (ℕ → ℕ)
get_cmd_map m = (my_sem_post cmd_map_sem (my_sem_wait cmd_map_sem m), m.dev.cmd_map)
