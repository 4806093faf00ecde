-- ===== src/Lowcar/Device/Timeout.antt =====
-- What holds of a device after each iteration of its loop.
use c_runtime.Prelude.{
  ℕ, ◌+◌, ◌*◌, ◌≤◌, ◌≡◌, ◌⊎◌, inr, arith, true, false, List, done, ◌>>=◌, read, Option, some, none,
}
use c_runtime.Prelude.Blocks.{>>=-eq-done}
use Prim.Native.String.{String}
use c_runtime.Lowcar.Types.{
  Status, success, process_error, malformed_data, no_data, LowcarMessage, Port,
}
use c_runtime.Lowcar.Params.{Methods}
use c_runtime.Lowcar.Logs.{print_all}
use c_runtime.Lowcar.Messenger.{read_message}
use c_runtime.Lowcar.Device.{
  DeviceState, clamp_interval, subscribe, is_timed_out, handle_ping, handle_message, handle_status,
  check_timeout, send_data, act, after_read, loop,
}

-- No subscription, or an interval within the bounds.
abbrev pub HasInterval : {D : Type 0} → DeviceState D → Type 0
HasInterval self = (self.sub_interval ≡ 0) ⊎ ((40 ≤ self.sub_interval) × (self.sub_interval ≤ 500))

clamp_interval_lem : (n : ℕ) → (40 ≤ clamp_interval n) × (clamp_interval n ≤ 500)
unfolding clamp_interval
clamp_interval_lem n = (ground arith, ground arith)

module _ (w : ℕ) (vsprintf : String → List ℕ → List ℕ) {S : Type 0} (port : Port S)
    (garbage : ℕ → List ℕ) {D : Type 0} (methods : Methods D) where
  check_timeout_lem :
      (self self' : DeviceState D) (now : ℕ)
      → check_timeout w vsprintf port garbage methods self now ≡ done self'
      → (self'.sub_interval ≡ self.sub_interval)
        × ((self'.enabled ≡ true) → (is_timed_out self' now ≡ false))
  unfolding check_timeout is_timed_out
  check_timeout_lem self self' now e = ground arith

  send_data_lem :
      (self self' : DeviceState D) (now : ℕ) (s s' : S)
      → send_data w vsprintf port garbage methods self now s ≡ done (self', s')
      → (self'.sub_interval ≡ self.sub_interval)
        × (self'.enabled ≡ self.enabled)
        × (is_timed_out self' now ≡ is_timed_out self now)
  unfolding send_data is_timed_out
  send_data_lem self self' now s s' e = ground arith

  act_lem :
      (self self' : DeviceState D) (now : ℕ) (s s' : S)
      → act w vsprintf port garbage methods self now s ≡ done (self', s')
      → (self'.sub_interval ≡ self.sub_interval)
        × (self'.enabled ≡ self.enabled)
        × (is_timed_out self' now ≡ is_timed_out self now)
  unfolding act is_timed_out
  act_lem self self' now s s' e =
      let a = methods.device_actions self.own in
      let h = >>=-eq-done (print_all self.logs a.0) _ e in
      let k =
        >>=-eq-done
          (send_data w vsprintf port garbage methods (record self { logs = h.0; own = a.1 }) now s)
          _ h.2 in
      let m = send_data_lem (record self { logs = h.0; own = a.1 }) k.0.0 now s k.0.1 k.1 in
      ground (arith, k.2, m)

  handle_ping_lem :
      (self self' : DeviceState D) (now : ℕ) (s s' : S)
      → handle_ping w vsprintf port garbage methods self now s ≡ done (self', s')
      → self'.sub_interval ≡ self.sub_interval
  unfolding handle_ping
  handle_ping_lem self self' now s s' e = ground arith

  subscribe_lem : (self self' : DeviceState D) → subscribe self ≡ done self' → HasInterval self'
  unfolding subscribe
  subscribe_lem self self' e =
      let a = >>=-eq-done (read self.curr_msg.payload 0) _ e in
      let b = >>=-eq-done (read self.curr_msg.payload 1) _ a.2 in
      let c = >>=-eq-done (read self.curr_msg.payload 2) _ b.2 in
      let d = >>=-eq-done (read self.curr_msg.payload 3) _ c.2 in
      let l = >>=-eq-done (read self.curr_msg.payload 4) _ d.2 in
      let h = >>=-eq-done (read self.curr_msg.payload 5) _ l.2 in
      inr (ground (arith, h.2, clamp_interval_lem (l.0 + 256 * h.0)))

  handle_message_lem :
      (self self' : DeviceState D) (now : ℕ) (s s' : S)
      → handle_message w vsprintf port garbage methods self now s ≡ done (self', s')
      → HasInterval self
      → HasInterval self'
  unfolding handle_message
  handle_message_lem self self' now s s' e h =
      ground (arith, handle_ping_lem self self' now s s', subscribe_lem self self')

  handle_status_lem :
      (sts : Status) (self self' : DeviceState D) (now : ℕ) (s s' : S)
      → handle_status w vsprintf port garbage methods sts self now s ≡ done (self', s')
      → HasInterval self
      → HasInterval self'
  unfolding handle_status
  handle_status_lem success self self' now s s' e h = handle_message_lem self self' now s s' e h
  handle_status_lem no_data self self' now s s' e h = ground arith
  handle_status_lem process_error self self' now s s' e h = ground arith
  handle_status_lem malformed_data self self' now s s' e h = ground arith

  after_read_lem :
      (sts : Status) (self self' : DeviceState D) (now : ℕ) (s s' : S)
      → after_read w vsprintf port garbage methods sts self now s ≡ done (self', s')
      → HasInterval self
      → HasInterval self' × ((self'.enabled ≡ true) → (is_timed_out self' now ≡ false))
  unfolding after_read
  after_read_lem sts self self' now s s' e h =
      let r = >>=-eq-done (handle_status w vsprintf port garbage methods sts self now s) _ e in
      let t = >>=-eq-done (check_timeout w vsprintf port garbage methods r.0.0 now) _ r.2 in
      let kept = handle_status_lem sts self r.0.0 now s r.0.1 r.1 h in
      let checked = check_timeout_lem r.0.0 t.0 now t.1 in
      ground (arith, t.2, kept, checked, act_lem t.0 self' now r.0.1 s')

  pub loop_lem :
      (fuel : ℕ) (self self' : DeviceState D) (now : ℕ) (s s' : S)
      → loop w vsprintf port garbage methods fuel self now s ≡ done (some (self', s'))
      → HasInterval self
      → HasInterval self' × ((self'.enabled ≡ true) → (is_timed_out self' now ≡ false))
  unfolding loop
  loop_lem fuel self self' now s s' e h =
      let r = >>=-eq-done (read_message port garbage fuel self.curr_msg s) _ e in go r.0 r.2
    where
      go :
          (t : Option (Status × LowcarMessage × S))
          → (elim t [
            | none ↦ done none
            | some q ↦
                after_read w vsprintf port garbage methods q.0
                  (record self { curr_msg = q.1 })
                  now
                  q.2
                >>= (λ u. done (some u))
          ])
            ≡ done (some (self', s'))
          → HasInterval self' × ((self'.enabled ≡ true) → (is_timed_out self' now ≡ false))
      go none k = absurd (ground (arith, k))
      go (some q) k =
          let v =
            >>=-eq-done
              (after_read w vsprintf port garbage methods q.0 (record self { curr_msg = q.1 }) now
                q.2)
              _ k in
          after_read_lem q.0 (record self { curr_msg = q.1 }) self' now q.2 s'
            (ground (arith, v.1, v.2)) h
