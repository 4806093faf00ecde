-- ===== src/Relay/Relayer.antt =====
-- The thread `relayer` of dev_handler/dev_handler.c: it verifies the device of a port, connects it,
-- and watches it until it is lost. Starting the two other threads and logging are left out.
pub mod Starts
use c_runtime.Prelude.{ℕ, ◌-◌, ◌^◌, List, Bool, true, false, Option, none, some}
use c_runtime.Prelude.{Outcome, done, if◌then◌else◌}
use c_runtime.RuntimeUtil.Types.{DevId}
use c_runtime.RuntimeUtil.FileIo.{ReadResult, WriteResult}
use c_runtime.Shm.Types.{Shm}
use c_runtime.Shm.Devices.{device_connect}
use c_runtime.Relay.{
  ◌then◌, VerifyResult, verified, ping_failed, no_ack, options_failed, verify_device,
}
use c_runtime.Relay.Threads.{Relay}
use c_runtime.Relay.Ports.{UsedPorts, relay_clean_up, is_lost}

-- The thread after its start or a round: it watches the device of a relay, or it has returned.
pub data Relayer : Type 0 where
  watching : Relay → Relayer
  returned : Relayer

module _ (is_virtual : Bool) (port_num : ℕ) where
  -- The end of the thread; `none` is the place -1 of a device that is not connected.
  unfoldable pub end_relayer : Option ℕ → UsedPorts → Shm → Relayer × UsedPorts × Shm
  end_relayer shm_dev_idx ports m =
      let (ports', m') = relay_clean_up true is_virtual port_num shm_dev_idx ports m in
      (returned, ports', m')

  -- What is done with the place that `device_connect` gives; `none` is -1.
  unfoldable pub watch_place : DevId → ℕ → Option ℕ → UsedPorts → Shm → Relayer × UsedPorts × Shm
  watch_place dev_id millis none ports m = end_relayer none ports m
  watch_place dev_id millis (some ix) ports m =
      let relay : Relay = record {
        shm_dev_idx = ix;
        dev_id = dev_id;
        last_received_msg_time = millis;
      } in
      (watching relay, ports, m)

  unfoldable pub after_verify : VerifyResult → UsedPorts → Shm → Relayer × UsedPorts × Shm
  after_verify (verified dev_id millis) ports m =
      let (m1, shm_dev_idx) = device_connect dev_id m in
      watch_place dev_id millis shm_dev_idx ports m1
  after_verify ping_failed ports m = end_relayer none ports m
  after_verify no_ack ports m = end_relayer none ports m
  after_verify options_failed ports m = end_relayer none ports m

  -- The thread up to its loop; the id that the device starts with is -1.
  unfoldable pub start_relayer :
      {Fd : Type 0} (malloc : ℕ → List ℕ) (read_call : Fd → ℕ → ReadResult × Fd)
      (write_call : Fd → List ℕ → WriteResult × Fd) (set_options : Fd → Bool × Fd) (millis fuel : ℕ)
      → Fd
      → UsedPorts
      → Shm
      → Outcome (Option ((Relayer × UsedPorts × Shm) × Fd))
  start_relayer malloc read_call write_call set_options millis fuel fd ports m =
      verify_device malloc read_call write_call set_options millis fuel (2 ^ 64 - 1) is_virtual fd
      then (λ r. done (some (after_verify r.0 ports m, r.1)))

  -- A round of the loop.
  unfoldable pub relayer_round :
      (exists : ℕ → Bool) (now : ℕ) → Relayer → UsedPorts → Shm → Relayer × UsedPorts × Shm
  relayer_round exists now (watching relay) ports m =
      if is_lost exists port_num now relay.last_received_msg_time
      then end_relayer (some relay.shm_dev_idx) ports m
      else (watching relay, ports, m)
  relayer_round exists now returned ports m = (returned, ports, m)
