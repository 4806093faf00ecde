-- ===== src/Relay/Tests.antt =====
-- The properties of the threads of dev_handler/dev_handler.c at a concrete run.
use c_runtime.Prelude.{ℕ, ◌≡◌, refl, arith, some, Bool, true, false, not, ◌==◌}
use c_runtime.Prelude.Bits.{has_bit}
use c_runtime.Shm.Start.{start_shm}
use c_runtime.RuntimeUtil.Types.{DevId}
use c_runtime.Relay.{verified}
use c_runtime.Relay.Relayer.{after_verify}
use c_runtime.Relay.Relayer.Starts.{IsStarted, after_verify-IsStarted}
use c_runtime.Relay.Ports.{UsedPorts, get_new_devices_helper, relay_clean_up}
use c_runtime.Relay.Ports.Scans.{get_new_devices_helper_once}

-- A port in use, and whether the file of port 3 exists.
abbrev ports : UsedPorts
ports = record { virtual_ports = 0; lowcar_ports = 1 }

abbrev only_three : Bool → ℕ → Bool
only_three is_virtual i = i == 3

get_new_devices_helper_once_example :
    let r = get_new_devices_helper only_three false 0 ports in
    let s = get_new_devices_helper only_three false 0 r.2 in
    let t =
      get_new_devices_helper only_three false 0
        (relay_clean_up true false 3 (some 0) s.2 start_shm).0 in
    (has_bit r.1 3 ≡ not (has_bit 1 3)) × (has_bit s.1 3 ≡ false) × (has_bit t.1 3 ≡ true)
get_new_devices_helper_once_example =
    get_new_devices_helper_once only_three only_three true false 3 (some 0) ports start_shm
      (omega arith) refl

-- A device at port 3 that was verified.
abbrev servo : DevId
servo = record { type = 7; year = 2; uid = 77 }

after_verify-IsStarted_example :
    IsStarted false 3 ports start_shm
      (verified servo 5)
      (after_verify false 3 (verified servo 5) ports start_shm)
after_verify-IsStarted_example =
    after_verify-IsStarted false 3 ports start_shm (omega arith) (verified servo 5)
