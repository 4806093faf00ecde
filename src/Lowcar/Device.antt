-- ===== src/Lowcar/Device.antt =====
-- The class `Device` of lowcar/devices/Device/Device.cpp.
pub mod Timeout
pub mod Runs
pub mod Contact
use c_runtime.Prelude.{
  ℕ, zero, suc, ◌+◌, ◌-◌, ◌*◌, ◌%◌, ◌^◌, Bool, true, false, ◌&&◌, not, List, [], ◌∷◌,
}
use c_runtime.Prelude.{
  Option, none, some, Outcome, done, fault, ◌>>=◌, read, ltb, leb, ◌==◌, if◌then◌else◌,
}
use Prim.Native.String.{String}
use c_runtime.RuntimeUtil.Types.{DevId}
use c_runtime.Message.Types.{u32_of_bytes}
use c_runtime.Lowcar.Types.{
  Status, success, process_error, malformed_data, no_data, LowcarMessage, Port, id_device_ping,
  id_acknowledgement, id_subscription_request, id_device_write, id_device_data,
}
use c_runtime.Lowcar.Messenger.{send_message, read_message, cleared}
use c_runtime.Lowcar.Logs.{LogQueue, new_queue, lowcar_printf, print_all, lowcar_flush}
use c_runtime.Lowcar.Params.{Methods, device_read_params, device_write_params}

abbrev pub max_sub_interval_ms : ℕ
max_sub_interval_ms = 500

abbrev pub min_sub_interval_ms : ℕ
min_sub_interval_ms = 40

-- The fields of `Device`; `own` are those of the class that derives from it.
pub record DeviceState (D : Type 0) : Type 0 where
  pub dev_id : DevId
  pub params : ℕ
  pub sub_interval : ℕ
  pub timeout : ℕ
  pub enabled : Bool
  pub last_sent_data_time : ℕ
  pub last_received_ping_time : ℕ
  pub curr_msg : LowcarMessage
  pub logs : LogQueue
  pub own : D

-- The constructor; `now` is what `millis` returns, and `curr_msg` what the memory of it holds.
unfoldable pub new_device : {D : Type 0} → ℕ → ℕ → ℕ → LowcarMessage → ℕ → D → DeviceState D
new_device dev_id dev_year timeout curr_msg now own = record {
  dev_id = record { type = dev_id; year = dev_year; uid = 0 };
  params = 0;
  sub_interval = 0;
  timeout = timeout;
  enabled = false;
  last_sent_data_time = now;
  last_received_ping_time = now;
  curr_msg = curr_msg;
  logs = new_queue;
  own = own;
}

unfoldable pub set_uid : {D : Type 0} → DeviceState D → ℕ → DeviceState D
set_uid self uid = record self {
  dev_id = record { type = self.dev_id.type; year = self.dev_id.year; uid = uid };
}

-- The difference of two times in 64 bits.
abbrev pub elapsed : ℕ → ℕ → ℕ
elapsed now since = (now + 2 ^ 64 - since) % 2 ^ 64

-- The bounds that a subscription's interval is brought into.
unfoldable pub clamp_interval : ℕ → ℕ
clamp_interval interval =
    let at_most = if ltb interval max_sub_interval_ms then interval else max_sub_interval_ms in
    if ltb min_sub_interval_ms at_most then at_most else min_sub_interval_ms

-- The message `curr_msg` of the case SUBSCRIPTION_REQUEST.
unfoldable pub subscribe : {D : Type 0} → DeviceState D → Outcome (DeviceState D)
subscribe self = do
  a ← read self.curr_msg.payload 0
  b ← read self.curr_msg.payload 1
  c ← read self.curr_msg.payload 2
  d ← read self.curr_msg.payload 3
  e ← read self.curr_msg.payload 4
  f ← read self.curr_msg.payload 5
  done (record self { params = u32_of_bytes a b c d; sub_interval = clamp_interval (e + 256 * f) })

-- Does a time-out end the connection?
unfoldable pub is_timed_out : {D : Type 0} → DeviceState D → ℕ → Bool
is_timed_out self now =
    ltb 0 self.timeout && leb self.timeout (elapsed now self.last_received_ping_time)

-- `w` is the number of bits of an `int`, and `vsprintf` the text of a format and its arguments.
module _ (w : ℕ) (vsprintf : String → List ℕ → List ℕ) {S : Type 0} (port : Port S)
    (garbage : ℕ → List ℕ) {D : Type 0} (methods : Methods D) where
  -- The case DEVICE_PING.
  unfoldable pub handle_ping : DeviceState D → ℕ → S → Outcome (DeviceState D × S)
  handle_ping self now s =
      let pinged = record self { last_received_ping_time = now } in
      if self.enabled then done (pinged, s) else (do
        r ← send_message port garbage id_acknowledgement self.curr_msg (some self.dev_id) s
        logs ← lowcar_printf self.logs (
            vsprintf "Device type %d with UID ending in %X contacted; sent ACK"
              (self.dev_id.type ∷ self.dev_id.uid ∷ []))
        let q = methods.device_enable self.own
        logs' ← print_all logs q.0
        done (record pinged { curr_msg = r.1; enabled = true; logs = logs'; own = q.1 }, r.2))

  -- The switch over the message ids.
  unfoldable pub handle_message : DeviceState D → ℕ → S → Outcome (DeviceState D × S)
  handle_message self now s =
      let id = self.curr_msg.message_id in
      if id == id_device_ping
      then handle_ping self now s
      else if id == id_subscription_request
      then subscribe self >>= (λ self'. done (self', s))
      else if id == id_device_write
      then device_write_params w methods self.curr_msg self.own
        >>= (λ own. done (record self { own = own }, s))
      else lowcar_printf self.logs (vsprintf "Unrecognized message received by lowcar device" [])
        >>= (λ logs. done (record self { logs = logs }, s))

  -- What is made of the status of `read_message`.
  unfoldable pub handle_status : Status → DeviceState D → ℕ → S → Outcome (DeviceState D × S)
  handle_status success self now s = handle_message self now s
  handle_status no_data self now s = done (self, s)
  handle_status process_error self now s =
      lowcar_printf self.logs (vsprintf "Error when reading message by lowcar device" [])
      >>= (λ logs. done (record self { logs = logs }, s))
  handle_status malformed_data self now s =
      lowcar_printf self.logs (vsprintf "Error when reading message by lowcar device" [])
      >>= (λ logs. done (record self { logs = logs }, s))

  unfoldable pub check_timeout : DeviceState D → ℕ → Outcome (DeviceState D)
  check_timeout self now =
      if is_timed_out self now
      then print_all self.logs (methods.device_reset self.own).0 >>= (λ logs.
        done
          (record self { logs = logs; own = (methods.device_reset self.own).1; enabled = false }))
      else done self

  unfoldable pub send_data : DeviceState D → ℕ → S → Outcome (DeviceState D × S)
  send_data self now s =
      if ltb 0 self.sub_interval && leb self.sub_interval (elapsed now self.last_sent_data_time)
      then device_read_params w methods self.params self.own >>= (λ r.
        send_message port garbage id_device_data r.1 none s
        >>= (λ t. done (record self { last_sent_data_time = now; own = r.0; curr_msg = t.1 }, t.2)))
      else done (self, s)

  -- What an enabled device does in each iteration.
  unfoldable pub act : DeviceState D → ℕ → S → Outcome (DeviceState D × S)
  act self now s = do
    let a = methods.device_actions self.own
    logs ← print_all self.logs a.0
    r ← send_data (record self { logs = logs; own = a.1 }) now s
    t ← lowcar_flush port garbage r.0.logs r.1
    done (record r.0 { logs = t.0 }, t.1)

  -- From the message that was read on.
  unfoldable pub after_read : Status → DeviceState D → ℕ → S → Outcome (DeviceState D × S)
  after_read sts self now s = do
    r ← handle_status sts self now s
    self' ← check_timeout r.0 now
    if self'.enabled then act self' now r.1 else done (self', r.1)

  -- One call of `loop`, at the time `now`; `none` means that the fuel of the reading ran out.
  unfoldable pub loop : ℕ → DeviceState D → ℕ → S → Outcome (Option (DeviceState D × S))
  loop fuel self now s = read_message port garbage fuel self.curr_msg s >>= (λ r. elim r [
    | none ↦ done none
    | some t ↦ after_read t.0 (record self { curr_msg = t.1 }) now t.2 >>= (λ u. done (some u))
  ])
