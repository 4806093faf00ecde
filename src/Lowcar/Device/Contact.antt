-- ===== src/Lowcar/Device/Contact.antt =====
-- The first contact of dev_handler with a device.
use c_runtime.Prelude.{
  ℕ, ◌≤◌, ◌<◌, ◌≡◌, ◌^◌, refl, arith, true, false, List, [], ◌∷◌, ◌++◌, done, some, length, take,
  All,
}
use Prim.Native.String.{String}
use c_runtime.Relay.{read_dev_id}
use c_runtime.Message.Types.{Message, max_payload_size}
use c_runtime.Message.Build.{make_ping}
use c_runtime.Message.Cobs.Blocks.{IsNonzero}
use c_runtime.Message.Serial.{calc_max_cobs_msg_length, message_to_bytes, parse_message, parsed}
use c_runtime.Lowcar.Types.{LowcarMessage, Port, success, id_acknowledgement, id_device_ping}
use c_runtime.Lowcar.Messenger.{read_message, cleared}
use c_runtime.Lowcar.Messenger.Ports.{IsPort}
use c_runtime.Lowcar.Messenger.Reading.{read_message-message_to_bytes}
use c_runtime.Lowcar.Messenger.Sending.{read_dev_id-send_message}
use c_runtime.Lowcar.Params.{Methods}
use c_runtime.Lowcar.Logs.{LogQueue, lowcar_printf, print_all}
use c_runtime.Lowcar.Device.{DeviceState, is_timed_out, handle_ping, handle_message, check_timeout}

module _ (w : ℕ) (vsprintf : String → List ℕ → List ℕ) {S : Type 0} (port : Port S)
    (pending sent : S → List ℕ) (law : IsPort port pending sent) (garbage malloc : ℕ → List ℕ)
    (sizes : (n : ℕ) → length (garbage n) ≡ n) (sizes' : (n : ℕ) → length (malloc n) ≡ n)
    {D : Type 0} (methods : Methods D) where
  handle_ping_lem :
      (self : DeviceState D) (now id : ℕ) (j more : List ℕ) (logs logs' : LogQueue)
      (target : Message) (s : S)
      → self.enabled ≡ false
      → self.curr_msg ≡ record { message_id = id; payload_length = 0; payload = j }
      → length j ≡ max_payload_size
      → self.dev_id.type < 256
      → self.dev_id.year < 256
      → self.dev_id.uid < 2 ^ 64
      → lowcar_printf self.logs (
          vsprintf "Device type %d with UID ending in %X contacted; sent ACK"
            (self.dev_id.type ∷ self.dev_id.uid ∷ []))
        ≡ done logs
      → print_all logs (methods.device_enable self.own).0 ≡ done logs'
      → length target.payload ≡ max_payload_size
      → (self' : DeviceState D) × (bytes : List ℕ) × (s' : S) × (msg' : Message) × (handle_ping w
            vsprintf port garbage methods self now s
          ≡ done (self', s'))
        × (check_timeout w vsprintf port garbage methods self' now ≡ done self')
        × (self'.enabled ≡ true)
        × (sent s' ≡ sent s ++ bytes)
        × (parse_message malloc (bytes ++ more) target ≡ done (parsed, msg'))
        × (msg'.message_id ≡ id_acknowledgement)
        × (read_dev_id msg' ≡ done self.dev_id)
  unfolding handle_ping check_timeout is_timed_out
  handle_ping_lem self now id j more logs logs' target s off m full t y u printed printed' room =
      let r =
        read_dev_id-send_message port pending sent law garbage sizes malloc sizes' self.dev_id id j
          more target s t y u full room in
      (
        record self {
          last_received_ping_time = now;
          curr_msg = cleared;
          enabled = true;
          logs = logs';
          own = (methods.device_enable self.own).1;
        },
        r.0,
        r.1,
        r.2,
        rw (off, m, r.3, printed, printed') refl,
        ground arith,
        refl,
        r.4,
        r.5,
        r.6,
        r.7,
      )

  -- First contact. The bytes that dev_handler makes of a DEVICE_PING arrive at a device that is not
  -- enabled, behind bytes other than the delimiter; its device id fits its bytes, and there is
  -- room for the logs of the contact. Then the device reads the ping, handles it, is enabled and
  -- is not timed out; and from what it has written, `parse_message` gives dev_handler an
  -- ACKNOWLEDGEMENT in which `read_dev_id` finds the device id.
  pub read_dev_id-make_ping :
      (self : DeviceState D) (now n fuel : ℕ) (buf ping junk rest more : List ℕ)
      (logs logs' : LogQueue) (target : Message) (s : S)
      → message_to_bytes (make_ping malloc) buf ≡ done (some (ping, n))
      → calc_max_cobs_msg_length (make_ping malloc) ≤ length buf
      → pending s ≡ junk ++ (take n ping ++ rest)
      → All IsNonzero junk
      → length junk < fuel
      → self.enabled ≡ false
      → length self.curr_msg.payload ≡ max_payload_size
      → self.dev_id.type < 256
      → self.dev_id.year < 256
      → self.dev_id.uid < 2 ^ 64
      → lowcar_printf self.logs (
          vsprintf "Device type %d with UID ending in %X contacted; sent ACK"
            (self.dev_id.type ∷ self.dev_id.uid ∷ []))
        ≡ done logs
      → print_all logs (methods.device_enable self.own).0 ≡ done logs'
      → length target.payload ≡ max_payload_size
      → (msg : LowcarMessage) × (s₁ : S) × (self' : DeviceState D) × (bytes : List ℕ) × (s₂ : S)
        × (msg' : Message) × (read_message port garbage fuel self.curr_msg s
            ≡ done (some (success, msg, s₁)))
        × (handle_message w vsprintf port garbage methods (record self { curr_msg = msg }) now s₁
            ≡ done (self', s₂))
        × (check_timeout w vsprintf port garbage methods self' now ≡ done self')
        × (self'.enabled ≡ true)
        × (sent s₂ ≡ sent s₁ ++ bytes)
        × (parse_message malloc (bytes ++ more) target ≡ done (parsed, msg'))
        × (msg'.message_id ≡ id_acknowledgement)
        × (read_dev_id msg' ≡ done self.dev_id)
  unfolding handle_message make_ping
  read_dev_id-make_ping self now n fuel buf ping junk rest more logs logs' target s wire room
        arrived nz f off full t y u printed printed' there =
      let msg : LowcarMessage = record {
        message_id = id_device_ping;
        payload_length = 0;
        payload = self.curr_msg.payload;
      } in
      let r =
        read_message-message_to_bytes port pending sent law garbage sizes fuel (make_ping malloc)
          buf ping n junk rest self.curr_msg s wire room (omega arith) (omega arith) (omega arith)
          (omega arith) f nz arrived in
      let q =
        handle_ping_lem (record self { curr_msg = msg }) now id_device_ping self.curr_msg.payload
          more logs logs' target r.0 off refl full t y u printed printed' there in
      (msg, r.0, q.0, q.1, q.2, q.3, r.1, q.4, q.5, q.6, q.7, q.8, q.9, q.10)
