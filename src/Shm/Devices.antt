-- ===== src/Shm/Devices.antt =====
-- Connecting and disconnecting devices, and looking them up, of shm_wrapper/shm_wrapper.c.
pub mod Places
use c_runtime.Prelude.{ℕ, zero, suc, ◌+◌, ◌-◌, ◌^◌, Bool, true, false, ◌&&◌, Option, none, some}
use c_runtime.Prelude.{◌==◌, if◌then◌else◌, update, bit_and, bit_or, not32}
use c_runtime.Prelude.Bits.{has_bit}
use c_runtime.RuntimeUtil.Types.{DevId, ParamVal, max_devices, max_params}
use c_runtime.Shm.Types.{
  DevShm, Shm, Stream, data_stream, command_stream, put_row, my_sem_wait, my_sem_post, on_dev,
  catalog_sem, data_sem, command_sem, sub_map_sem, cmd_map_sem,
}

-- The search for a free place, with `left` places to go from `i` on; 32 if there is none.
unfoldable pub find_free : ℕ → ℕ → ℕ → ℕ
find_free zero i catalog = i
find_free (suc left) i catalog =
    let rest = find_free left (i + 1) catalog in if has_bit catalog i then rest else i

-- The loop that resets the parameters of one stream.
unfoldable pub reset_row : ℕ → ℕ → (ℕ → ParamVal) → ℕ → ParamVal
reset_row zero i row = row
reset_row (suc left) i row = reset_row left (i + 1) (update row i 0)

-- The writes of `device_connect` into the block of the devices.
unfoldable pub connect_at : DevId → ℕ → DevShm → DevShm
connect_at dev_id ix d = record {
  catalog = bit_or d.catalog (2 ^ ix);
  cmd_map = d.cmd_map;
  net_sub_map =
      update (update d.net_sub_map 0 (bit_or (d.net_sub_map 0) (2 ^ ix))) (ix + 1) (2 ^ 32 - 1);
  exec_sub_map =
      update (update d.exec_sub_map 0 (bit_and (d.exec_sub_map 0) (not32 (2 ^ ix)))) (ix + 1) 0;
  params =
      put_row command_stream ix (reset_row max_params 0 (d.params command_stream ix))
        (put_row data_stream ix (reset_row max_params 0 (d.params data_stream ix)) d.params);
  dev_ids = update d.dev_ids ix dev_id;
}

-- `none` is the index -1.
unfoldable pub device_connect : DevId → Shm → Shm × Option ℕ
device_connect dev_id m =
    let m1 = my_sem_wait catalog_sem m in
    let ix = find_free max_devices 0 m.dev.catalog in
    if ix == max_devices
    then (my_sem_post catalog_sem m1, none)
    else let m2 =
        my_sem_wait sub_map_sem (my_sem_wait (command_sem ix) (my_sem_wait (data_sem ix) m1)) in
      let m3 = on_dev (connect_at dev_id ix) m2 in
      let m4 =
        my_sem_post (command_sem ix) (my_sem_post (data_sem ix) (my_sem_post sub_map_sem m3)) in
      (my_sem_post catalog_sem m4, some ix)

unfoldable pub disconnect_at : ℕ → DevShm → DevShm
disconnect_at ix d = record d {
  catalog = bit_and d.catalog (not32 (2 ^ ix));
  cmd_map = update (update d.cmd_map 0 (bit_and (d.cmd_map 0) (not32 (2 ^ ix)))) (ix + 1) 0;
}

unfoldable pub device_disconnect : ℕ → Shm → Shm
device_disconnect ix m =
    let m1 = my_sem_wait (data_sem ix) (my_sem_wait catalog_sem m) in
    let m2 = my_sem_wait cmd_map_sem (my_sem_wait (command_sem ix) m1) in
    let m3 = on_dev (disconnect_at ix) m2 in
    let m4 = my_sem_post (data_sem ix) (my_sem_post cmd_map_sem m3) in
    my_sem_post catalog_sem (my_sem_post (command_sem ix) m4)

-- The loop of `get_dev_ix_from_uid`; `none` is -1.
unfoldable pub find_uid : ℕ → ℕ → ℕ → DevShm → Option ℕ
find_uid zero i uid d = none
find_uid (suc left) i uid d =
    let rest = find_uid left (i + 1) uid d in
    if has_bit d.catalog i && ((d.dev_ids i).uid == uid) then some i else rest

unfoldable pub get_dev_ix_from_uid : ℕ → Shm → Option ℕ
get_dev_ix_from_uid uid m = find_uid max_devices 0 uid m.dev

unfoldable pub get_device_identifiers : Shm → Shm × (ℕ → DevId)
get_device_identifiers m = (my_sem_post catalog_sem (my_sem_wait catalog_sem m), m.dev.dev_ids)

unfoldable pub get_catalog : Shm → Shm × ℕ
get_catalog m = (my_sem_post catalog_sem (my_sem_wait catalog_sem m), m.dev.catalog)
