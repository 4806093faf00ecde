-- ===== src/Relay/Relayer/Starts.antt =====
-- What the thread `relayer` of dev_handler/dev_handler.c does to the shared memory and the ports.
use c_runtime.Prelude.{ℕ, ◌<◌, ◌≡◌, refl, arith, Bool, true, false, Option, none, some}
use c_runtime.Prelude.{inl, inr, ◌⊎◌, ◌≢◌, if◌then◌else◌, Bool-cases, not}
use c_runtime.Prelude.Bits.{has_bit, has_bit-clear}
use c_runtime.RuntimeUtil.Types.{DevId}
use c_runtime.Shm.Types.{Shm}
use c_runtime.Shm.Devices.{device_connect, device_disconnect, disconnect_at}
use c_runtime.Shm.Devices.Places.{IsConnected, device_connect_cases}
use c_runtime.Relay.{VerifyResult, verified, ping_failed, no_ack, options_failed}
use c_runtime.Relay.Threads.{Relay}
use c_runtime.Relay.Ports.{UsedPorts, used_ports, free_port, relay_clean_up, is_lost}
use c_runtime.Relay.Ports.Scans.{used_after_clean_up}
use c_runtime.Relay.Relayer.{
  Relayer, watching, returned, end_relayer, watch_place, after_verify, relayer_round,
}

-- The thread has returned: no device changed, and of the ports just this one is now free.
pub record IsReturned (is_virtual : Bool) (port_num : ℕ) (ports : UsedPorts) (m : Shm)
    (r : Relayer × UsedPorts × Shm) : Type 0 where
  pub ended : r.0 ≡ returned
  pub same_devices : r.2.dev ≡ m.dev
  pub port_free : has_bit (used_ports is_virtual r.1) port_num ≡ false
  pub same_ports :
      (j : ℕ)
      → j < 32
      → j ≢ port_num
      → has_bit (used_ports is_virtual r.1) j ≡ has_bit (used_ports is_virtual ports) j
  pub same_kind : used_ports (not is_virtual) r.1 ≡ used_ports (not is_virtual) ports

-- The thread watches the device that was verified, in a place that was free, and no port changed.
pub record IsWatching (dev_id : DevId) (millis : ℕ) (ports : UsedPorts) (m : Shm)
    (r : Relayer × UsedPorts × Shm) : Type 0 where
  pub taken : ℕ
  pub below : taken < 32
  pub watched :
      r.0
      ≡ watching (record { shm_dev_idx = taken; dev_id = dev_id; last_received_msg_time = millis })
  pub was_free : has_bit m.dev.catalog taken ≡ false
  pub now_connected : IsConnected dev_id taken m.dev r.2.dev
  pub same_ports : r.1 ≡ ports

-- What the start of a relayer leaves, for each result of the verification.
abbrev pub IsStarted :
    Bool → ℕ → UsedPorts → Shm → VerifyResult → Relayer × UsedPorts × Shm → Type 0
IsStarted is_virtual port_num ports m (verified dev_id millis) r =
    IsWatching dev_id millis ports m r
    ⊎ (((j : ℕ) → j < 32 → has_bit m.dev.catalog j ≡ true)
        × IsReturned is_virtual port_num ports m r)
IsStarted is_virtual port_num ports m ping_failed r = IsReturned is_virtual port_num ports m r
IsStarted is_virtual port_num ports m no_ack r = IsReturned is_virtual port_num ports m r
IsStarted is_virtual port_num ports m options_failed r = IsReturned is_virtual port_num ports m r

free_port_others :
    (is_virtual : Bool) (port_num : ℕ) (ports : UsedPorts) (j : ℕ)
    → port_num < 32
    → j < 32
    → j ≢ port_num
    → has_bit (used_ports is_virtual (free_port is_virtual port_num ports)) j
      ≡ has_bit (used_ports is_virtual ports) j
free_port_others true port_num ports j fits h ne =
    ground (arith, ne, has_bit-clear j port_num ports.virtual_ports h fits)
free_port_others false port_num ports j fits h ne =
    ground (arith, ne, has_bit-clear j port_num ports.lowcar_ports h fits)

free_port_kind :
    (is_virtual : Bool) (port_num : ℕ) (ports : UsedPorts)
    → used_ports (not is_virtual) (free_port is_virtual port_num ports)
      ≡ used_ports (not is_virtual) ports
free_port_kind true port_num ports = refl
free_port_kind false port_num ports = refl

module _ (is_virtual : Bool) (port_num : ℕ) (ports : UsedPorts) (m : Shm)
    (fits : port_num < 32) where
  end_relayer-IsReturned :
      (m1 : Shm)
      → m1.dev ≡ m.dev
      → IsReturned is_virtual port_num ports m (end_relayer is_virtual port_num none ports m1)
  unfolding end_relayer relay_clean_up
  end_relayer-IsReturned m1 e = record {
    ended = refl;
    same_devices = e;
    port_free = used_after_clean_up true is_virtual port_num none ports m1 fits;
    same_ports = λ j h ne. free_port_others is_virtual port_num ports j fits h ne;
    same_kind = free_port_kind is_virtual port_num ports;
  }

  watch_place-IsStarted :
      (dev_id : DevId) (millis : ℕ) (o : Option ℕ) (m1 : Shm)
      → ((o ≡ none) × (m1.dev ≡ m.dev) × ((j : ℕ) → j < 32 → has_bit m.dev.catalog j ≡ true))
        ⊎ ((ix : ℕ) × (ix < 32)
            × (o ≡ some ix)
            × (has_bit m.dev.catalog ix ≡ false)
            × IsConnected dev_id ix m.dev m1.dev)
      → IsStarted is_virtual port_num ports m
          (verified dev_id millis)
          (watch_place is_virtual port_num dev_id millis o ports m1)
  unfolding watch_place
  watch_place-IsStarted dev_id millis o m1 (inl (e, same, taken)) =
      rw (watch_place, e) (inr (taken, end_relayer-IsReturned m1 same))
  watch_place-IsStarted dev_id millis o m1 (inr (ix, h, e, free, c)) =
      rw (watch_place, e)
        (inl (record {
          taken = ix;
          below = h;
          watched = refl;
          was_free = free;
          now_connected = c;
          same_ports = refl;
        }))

  -- A relayer on a port below 32 watches its device exactly when it was verified and there is a
  -- free place: the device is then connected in that place, under its id, with the other places
  -- as before and no port changed. In every other case the thread returns with no device changed
  -- and its port, and no other, free for the next scan.
  pub after_verify-IsStarted :
      (v : VerifyResult)
      → IsStarted is_virtual port_num ports m v (after_verify is_virtual port_num v ports m)
  unfolding after_verify
  after_verify-IsStarted (verified dev_id millis) =
      let r = device_connect dev_id m in
      watch_place-IsStarted dev_id millis r.1 r.0 (elim (device_connect_cases dev_id m) [
        | inl (e, same, all) ↦ inl (e, same, all)
        | inr (ix, h, e, free, first, d, c) ↦ inr (ix, h, e, free, c)
      ])
  after_verify-IsStarted ping_failed = end_relayer-IsReturned m refl
  after_verify-IsStarted no_ack = end_relayer-IsReturned m refl
  after_verify-IsStarted options_failed = end_relayer-IsReturned m refl

-- A round of a relayer that watches a device: if the file of the port is gone or no message came in
-- time, the thread returns, the place of the device and the port are free, and the other places
-- are as before; otherwise nothing changes.
pub relayer_round_cases :
    (is_virtual : Bool) (port_num : ℕ) (exists : ℕ → Bool) (now : ℕ) (relay : Relay)
    (ports : UsedPorts) (m : Shm)
    → port_num < 32
    → relay.shm_dev_idx < 32
    → let r = relayer_round is_virtual port_num exists now (watching relay) ports m in
      if is_lost exists port_num now relay.last_received_msg_time
      then (r.0 ≡ returned)
        × (has_bit (used_ports is_virtual r.1) port_num ≡ false)
        × (has_bit r.2.dev.catalog relay.shm_dev_idx ≡ false)
        × ((j : ℕ)
            → j < 32
            → j ≢ relay.shm_dev_idx
            → has_bit r.2.dev.catalog j ≡ has_bit m.dev.catalog j)
      else (r ≡ (watching relay, ports, m))
unfolding relayer_round end_relayer relay_clean_up device_disconnect disconnect_at
relayer_round_cases is_virtual port_num exists now relay ports m h k =
    let ix = relay.shm_dev_idx in
    elim (Bool-cases (is_lost exists port_num now relay.last_received_msg_time)) [
      | inl e ↦ rw e (
        refl,
        used_after_clean_up true is_virtual port_num (some ix) ports m h,
        ground (arith, has_bit-clear ix ix m.dev.catalog k k),
        λ j l ne. ground (arith, ne, has_bit-clear j ix m.dev.catalog l k),
      )
      | inr e ↦ rw e refl
    ]
