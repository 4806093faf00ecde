-- ===== src/Relay/Ports.antt =====
-- The ports that dev_handler/dev_handler.c has taken care of: looking for new devices, watching a
-- device, and cleaning up after it.
pub mod Scans
use c_runtime.Prelude.{
  ℕ, zero, suc, ◌+◌, ◌-◌, ◌*◌, ◌%◌, ◌^◌, ◌≤◌, ◌<◌, ◌≡◌, refl, arith, Bool, true, false, not, ◌&&◌,
  ◌||◌, Option, none, some,
}
use c_runtime.Prelude.{bit_and, bit_or, not32, leb, ltb, ◌==◌, if◌then◌else◌}
use c_runtime.Prelude.Bits.{has_bit, has_bit-or, has_bit-clear}
use c_runtime.RuntimeUtil.Types.{max_devices}
use c_runtime.Message.Types.{timeout}
use c_runtime.Shm.Types.{Shm}
use c_runtime.Shm.Devices.{device_disconnect}

-- The bitmaps `used_virtual_ports` and `used_lowcar_ports`.
pub record UsedPorts : Type 0 where
  pub virtual_ports : ℕ
  pub lowcar_ports : ℕ

abbrev pub used_ports : Bool → UsedPorts → ℕ
used_ports is_virtual ports = if is_virtual then ports.virtual_ports else ports.lowcar_ports

abbrev pub put_ports : Bool → ℕ → UsedPorts → UsedPorts
put_ports is_virtual bitmap ports =
    if is_virtual
    then record ports { virtual_ports = bitmap }
    else record ports { lowcar_ports = bitmap }

-- The loop from port `i` on; `exists` is whether `access` finds the file of a port. The result
-- are the found devices, the used ports and the number of devices found.
unfoldable pub scan_ports : (ℕ → Bool) → ℕ → ℕ → ℕ → ℕ → ℕ → ℕ × ℕ × ℕ
scan_ports exists zero i found used count = (found, used, count)
scan_ports exists (suc left) i found used count =
    if not (has_bit used i) && exists i
    then scan_ports exists left (i + 1) (bit_or found (2 ^ i)) (bit_or used (2 ^ i)) (count + 1)
    else scan_ports exists left (i + 1) found used count

-- `exists` is asked for a port of the kind that is looked for.
unfoldable pub get_new_devices_helper : (Bool → ℕ → Bool) → Bool → ℕ → UsedPorts → ℕ × ℕ × UsedPorts
get_new_devices_helper exists is_virtual found ports =
    let r = scan_ports (exists is_virtual) max_devices 0 found (used_ports is_virtual ports) 0 in
    (r.2, r.0, put_ports is_virtual r.1 ports)

-- The count, the bitmap of new lowcar devices and that of new virtual devices.
unfoldable pub get_new_devices : (Bool → ℕ → Bool) → ℕ → ℕ → UsedPorts → ℕ × ℕ × ℕ × UsedPorts
get_new_devices exists lowcar_bitmap virtual_bitmap ports =
    let r = get_new_devices_helper exists false lowcar_bitmap ports in
    let s = get_new_devices_helper exists true virtual_bitmap r.2 in
    ((r.0 + s.0) % 256, r.1, s.1, s.2)

-- What the relayer sees in a round: the file of the port is gone, or no message came in time.
unfoldable pub is_lost : (ℕ → Bool) → ℕ → ℕ → ℕ → Bool
is_lost exists port_num now last_received_msg_time =
    not (exists port_num) || leb timeout ((now + 2 ^ 64 - last_received_msg_time) % 2 ^ 64)

abbrev pub free_port : Bool → ℕ → UsedPorts → UsedPorts
free_port is_virtual port_num ports =
    put_ports is_virtual (bit_and (used_ports is_virtual ports) (not32 (2 ^ port_num))) ports

-- `none` is the place -1. Ending the threads and closing the file do not change this state.
unfoldable pub relay_clean_up :
    (is_open : Bool) → Bool → ℕ → Option ℕ → UsedPorts → Shm → UsedPorts × Shm
relay_clean_up is_open is_virtual port_num shm_dev_idx ports m =
    let m' : Shm = elim shm_dev_idx [ none ↦ m | some ix ↦ device_disconnect ix m ] in
    (free_port is_virtual port_num ports, if is_open then m' else m)
