-- ===== src/Shm/Subscriptions.antt =====
-- Subscriptions to device data, of shm_wrapper/shm_wrapper.c.
pub mod Polls
use c_runtime.Prelude.{
  ℕ, zero, suc, ◌+◌, ◌-◌, ◌^◌, Bool, true, false, not, ◌&&◌, ◌||◌, Option, none, some,
}
use c_runtime.Prelude.{◌==◌, if◌then◌else◌, update, bit_and, bit_or, not32}
use c_runtime.Prelude.Bits.{has_bit}
use c_runtime.RuntimeUtil.Types.{Process, is_dev_handler, is_executor, is_net_handler, max_devices}
use c_runtime.Shm.Types.{DevShm, Shm, my_sem_wait, my_sem_post, on_dev, sub_map_sem}
use c_runtime.Shm.Devices.{get_dev_ix_from_uid}

-- The write into one of the two maps, made only if the request differs from what is there.
unfoldable pub request_in : ℕ → ℕ → (ℕ → ℕ) → ℕ → ℕ
request_in ix params_to_sub map =
    if map (ix + 1) == params_to_sub
    then map
    else (let map' = update map (ix + 1) params_to_sub in update map' 0 (bit_or (map' 0) (2 ^ ix)))

-- The part of `place_sub_request` that holds the semaphore.
abbrev pub put_request : Process → ℕ → ℕ → Shm → Shm
put_request process ix params_to_sub m =
    let m1 = my_sem_wait sub_map_sem m in
    let m2 =
      if is_net_handler process
      then on_dev (λ d. record d { net_sub_map = request_in ix params_to_sub d.net_sub_map }) m1
      else on_dev (λ d. record d { exec_sub_map = request_in ix params_to_sub d.exec_sub_map })
          m1 in
    my_sem_post sub_map_sem m2

-- The place is looked up without a semaphore.
unfoldable pub place_sub_request : ℕ → Process → ℕ → Shm → Shm × Bool
place_sub_request uid process params_to_sub m =
    if not (is_net_handler process) && not (is_executor process)
    then (m, false)
    else elim (get_dev_ix_from_uid uid m) [
      | none ↦ (m, false)
      | some ix ↦ (put_request process ix params_to_sub m, true)
    ]

-- The entry that a process is given for index `i`.
abbrev pub sub_entry : Process → DevShm → ℕ → ℕ
sub_entry process d i =
    if is_net_handler process
    then d.net_sub_map i
    else if is_executor process
    then d.exec_sub_map i
    else bit_or (d.net_sub_map i) (d.exec_sub_map i)

-- The loop over the devices from index `i` (of the device, one below the one of the map) on.
unfoldable pub fill_sub_map : Process → DevShm → ℕ → ℕ → (ℕ → ℕ) → ℕ → ℕ
fill_sub_map process d zero i sub_map = sub_map
fill_sub_map process d (suc left) i sub_map = fill_sub_map process d left (i + 1) (
    if has_bit d.catalog i
    then update sub_map (i + 1) (sub_entry process d (i + 1))
    else update (update sub_map 0 (bit_and (sub_map 0) (not32 (2 ^ i)))) (i + 1) 0)

-- `sub_map` is the array of the caller; the early return leaves all but its first entry alone.
unfoldable pub get_sub_requests : Process → (ℕ → ℕ) → Shm → Shm × (ℕ → ℕ)
get_sub_requests process sub_map m =
    let m1 = my_sem_wait sub_map_sem m in
    let sub_map' = update sub_map 0 (sub_entry process m.dev 0) in
    if sub_map' 0 == 0 && is_dev_handler process
    then (my_sem_post sub_map_sem m1, sub_map')
    else let result = fill_sub_map process m.dev max_devices 0 sub_map' in
      let m2 =
        if is_dev_handler process
        then on_dev
            (λ d. record d {
              net_sub_map = update d.net_sub_map 0 0;
              exec_sub_map = update d.exec_sub_map 0 0;
            })
            m1
        else m1 in
      (my_sem_post sub_map_sem m2, result)
