-- ===== src/Relay/Ports/Scans.antt =====
-- When dev_handler finds a device at a port.
use c_runtime.Prelude.{
  ℕ, zero, suc, ◌+◌, ◌^◌, ◌≤◌, ◌<◌, ◌≡◌, ap, arith, Bool, true, false, not, ◌&&◌, ◌||◌, Option,
}
use c_runtime.Prelude.{bit_or, leb, ltb}
use c_runtime.Prelude.Bits.{has_bit, has_bit-set, has_bit-clear, has_bit-zero}
use c_runtime.Shm.Types.{Shm}
use c_runtime.Relay.Ports.{
  UsedPorts, used_ports, scan_ports, get_new_devices_helper, relay_clean_up,
}

-- The bits after the loop.
scan_ports_lem :
    (exists : ℕ → Bool) (left i found used count j : ℕ)
    → i + left ≤ 32
    → j < 32
    → let r = scan_ports exists left i found used count in
      let here = leb i j && ltb j (i + left) in
      (has_bit r.0 j ≡ (has_bit found j || (here && (not (has_bit used j) && exists j))))
      × (has_bit r.1 j ≡ (has_bit used j || (here && exists j)))
unfolding scan_ports
scan_ports_lem exists zero i found used count j h k = (ground arith, ground arith)
scan_ports_lem exists (suc left) i found used count j h k =
    let same : i ≡ j → exists i ≡ exists j = λ e. ap exists e in
    let same' : i ≡ j → has_bit used i ≡ has_bit used j = λ e. ap (has_bit used) e in
    ground (
      arith,
      same,
      same',
      has_bit-set j i found,
      has_bit-set j i used,
      scan_ports_lem exists left (i + 1) (bit_or found (2 ^ i)) (bit_or used (2 ^ i)) (count + 1) j,
      scan_ports_lem exists left (i + 1) found used count j,
    )

get_new_devices_helper_lem :
    (exists : Bool → ℕ → Bool) (is_virtual : Bool) (found j : ℕ) (ports : UsedPorts)
    → j < 32
    → let r = get_new_devices_helper exists is_virtual found ports in
      (has_bit r.1 j ≡ (
        has_bit found j || (not (has_bit (used_ports is_virtual ports) j) && exists is_virtual j)))
      × (has_bit (used_ports is_virtual r.2) j
          ≡ (has_bit (used_ports is_virtual ports) j || exists is_virtual j))
unfolding get_new_devices_helper
get_new_devices_helper_lem exists true found j ports k =
    let r = scan_ports_lem (exists true) 32 0 found ports.virtual_ports 0 j (omega arith) k in
    (ground (arith, r.0), ground (arith, r.1))
get_new_devices_helper_lem exists false found j ports k =
    let r = scan_ports_lem (exists false) 32 0 found ports.lowcar_ports 0 j (omega arith) k in
    (ground (arith, r.0), ground (arith, r.1))

pub used_after_clean_up :
    (is_open is_virtual : Bool) (j : ℕ) (ix : Option ℕ) (ports : UsedPorts) (m : Shm)
    → j < 32
    → has_bit (used_ports is_virtual (relay_clean_up is_open is_virtual j ix ports m).0) j ≡ false
unfolding relay_clean_up
used_after_clean_up is_open true j ix ports m k =
    ground (arith, has_bit-clear j j ports.virtual_ports k k)
used_after_clean_up is_open false j ix ports m k =
    ground (arith, has_bit-clear j j ports.lowcar_ports k k)

-- A port below 32 whose file exists is taken care of once. A scan finds it if it was not in use;
-- the next scan of its kind does not find it, whatever files exist then; and once dev_handler has
-- cleaned up after it, a scan finds it if and only if its file exists.
pub get_new_devices_helper_once :
    (exists exists' : Bool → ℕ → Bool) (is_open is_virtual : Bool) (j : ℕ) (ix : Option ℕ)
    (ports : UsedPorts) (m : Shm)
    → j < 32
    → exists is_virtual j ≡ true
    → let r = get_new_devices_helper exists is_virtual 0 ports in
      let s = get_new_devices_helper exists' is_virtual 0 r.2 in
      let t =
        get_new_devices_helper exists' is_virtual 0
          (relay_clean_up is_open is_virtual j ix s.2 m).0 in
      (has_bit r.1 j ≡ not (has_bit (used_ports is_virtual ports) j))
      × (has_bit s.1 j ≡ false)
      × (has_bit t.1 j ≡ exists' is_virtual j)
get_new_devices_helper_once exists exists' is_open is_virtual j ix ports m k there =
    let r = get_new_devices_helper exists is_virtual 0 ports in
    let s = get_new_devices_helper exists' is_virtual 0 r.2 in
    let c = (relay_clean_up is_open is_virtual j ix s.2 m).0 in
    let a = get_new_devices_helper_lem exists is_virtual 0 j ports k in
    let b = get_new_devices_helper_lem exists' is_virtual 0 j r.2 k in
    let d = get_new_devices_helper_lem exists' is_virtual 0 j c k in
    let u = used_after_clean_up is_open is_virtual j ix s.2 m k in
    (
      ground (arith, a.0, there, has_bit-zero j),
      ground (arith, b.0, a.1, there, has_bit-zero j),
      ground (arith, d.0, u, has_bit-zero j),
    )
