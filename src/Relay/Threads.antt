-- ===== src/Relay/Threads.antt =====
-- One round of the threads `sender` and `receiver` of dev_handler/dev_handler.c.
-- Logging and the points at which a thread is cancelled have no effect on the state and are left
-- out; waiting for the start and the lock around the time of the last message order the threads.
pub mod Valid
use c_runtime.Prelude.{
  ℕ, ◌+◌, ◌-◌, ◌*◌, ◌%◌, ◌^◌, List, [], ◌∷◌, Bool, true, false, not, ◌||◌, Option, none, some,
}
use c_runtime.Prelude.{
  Outcome, done, fault, ◌>>=◌, from_option, read, memcpy, leb, ◌==◌, if◌then◌else◌, replicate,
}
use c_runtime.Prelude.Bits.{has_bit}
use c_runtime.RuntimeUtil.Types.{DevId, ParamVal, Process}
use c_runtime.RuntimeUtil.FileIo.{ReadResult, WriteResult}
use c_runtime.Message.Types.{Message, max_payload_size, ping_freq}
use c_runtime.Message.MessageId
use c_runtime.Message.Build.{make_ping, make_device_write, make_subscription_request}
use c_runtime.Message.Serial.{payload_bitmap, parse_device_data}
use c_runtime.Shm.Types.{Shm, data_stream, command_stream}
use c_runtime.Shm.Params
use c_runtime.Shm.Subscriptions.{get_sub_requests}
use c_runtime.Relay.{◌then◌, is_received, send_message, receive_message}

abbrev pub sub_interval : ℕ
sub_interval = 1

-- The fields of a relay that the two threads use after the device is verified.
pub record Relay : Type 0 where
  pub shm_dev_idx : ℕ
  pub dev_id : DevId
  pub last_received_msg_time : ℕ

-- What `sender` keeps from round to round, with the shared memory and the state of the device's
-- file.
pub record Sender (Fd : Type 0) : Type 0 where
  pub shm : Shm
  pub fd : Fd
  pub params : ℕ → ParamVal
  pub sub_map : ℕ → ℕ
  pub last_sent_ping_time : ℕ

pub record Receiver (Fd : Type 0) : Type 0 where
  pub shm : Shm
  pub fd : Fd
  pub relay : Relay
  pub msg : Message
  pub vals : ℕ → ParamVal

-- The array after `device_read`, which leaves it as it is where it fails.
abbrev pub read_params : Option (ℕ → ParamVal) → (ℕ → ParamVal) → ℕ → ParamVal
read_params none params = params
read_params (some params') params = params'

module _ {Fd : Type 0} (malloc : ℕ → List ℕ) (read_call : Fd → ℕ → ReadResult × Fd)
    (write_call : Fd → List ℕ → WriteResult × Fd) (fuel : ℕ) where
  -- Sending what a constructor made; `none` is NULL, which `send_message` follows.
  unfoldable pub send_made : Outcome (Option Message) → Fd → Outcome (Option (Bool × Fd))
  send_made made fd =
      made
      >>= (λ o. from_option o >>= (λ msg. send_message malloc read_call write_call fuel fd msg))

  -- `Write to device if needed via a DEVICE_WRITE message`.
  unfoldable pub send_write : Relay → Sender Fd → Outcome (Option (Sender Fd))
  send_write relay self =
      let (m1, pmap) = Params.get_cmd_map self.shm in
      if has_bit (pmap 0) relay.shm_dev_idx
      then (let bitmap = pmap (1 + relay.shm_dev_idx) in
          let (m2, found) =
            Params.device_read relay.shm_dev_idx Process.dev_handler command_stream bitmap
              self.params m1 in
          let params = read_params found self.params in
          send_made (make_device_write malloc relay.dev_id.type bitmap params) self.fd
          then (λ r. done (some (record self { shm = m2; params = params; fd = r.1 }))))
      else done (some (record self { shm = m1 }))

  -- `Send another DEVICE_PING every PING_FREQ milliseconds`; `now` and `after` are what `millis`
  -- returns before and after it.
  unfoldable pub send_ping : ℕ → ℕ → Sender Fd → Outcome (Option (Sender Fd))
  send_ping now after self =
      if leb ping_freq ((now + 2 ^ 64 - self.last_sent_ping_time) % 2 ^ 64)
      then send_message malloc read_call write_call fuel self.fd (make_ping malloc)
      then (λ r. done (some (record self { fd = r.1; last_sent_ping_time = after })))
      else done (some self)

  -- `Send another SUBSCRIPTION_REQUEST if requested`.
  unfoldable pub send_request : Relay → Sender Fd → Outcome (Option (Sender Fd))
  send_request relay self =
      let (m1, sub_map) = get_sub_requests Process.dev_handler self.sub_map self.shm in
      let polled = record self { shm = m1; sub_map = sub_map } in
      if has_bit (sub_map 0) relay.shm_dev_idx
      then send_made
          (make_subscription_request malloc relay.dev_id.type (sub_map (1 + relay.shm_dev_idx))
            sub_interval)
          self.fd
      then (λ r. done (some (record polled { fd = r.1 })))
      else done (some polled)

  unfoldable pub sender_round : Relay → ℕ → ℕ → Sender Fd → Outcome (Option (Sender Fd))
  sender_round relay now after self =
      send_write relay self then (λ s. send_ping now after s then (λ t. send_request relay t))

  -- The message is cleared for the next one.
  unfoldable pub clear_message : Message → Outcome Message
  clear_message msg = memcpy msg.payload 0 (replicate max_payload_size 0) >>= (λ block.
      done (record {
        message_id = 0;
        payload = block;
        payload_length = 0;
        max_payload_length = max_payload_size;
      }))

  -- What is done with a message that was received; a LOG goes to the logger, and any other message
  -- than the three is dropped.
  unfoldable pub handle_received : ℕ → Receiver Fd → Outcome (Receiver Fd)
  handle_received now self =
      let id = self.msg.message_id in
      let seen = record self {
        relay = record {
          shm_dev_idx = self.relay.shm_dev_idx;
          dev_id = self.relay.dev_id;
          last_received_msg_time = now;
        };
      } in
      if id == MessageId.device_data
      then parse_device_data self.relay.dev_id.type self.msg self.vals >>= (λ vals.
        payload_bitmap self.msg >>= (λ bitmap. done (record seen {
          vals = vals;
          shm =
              (Params.device_write self.relay.shm_dev_idx Process.dev_handler data_stream bitmap
                vals self.shm).0;
        })))
      else if id == MessageId.log || id == MessageId.device_ping
      then done seen
      else done self

  -- A message that is not received whole is left as it is, and the round ends.
  unfoldable pub receiver_round : ℕ → Receiver Fd → Outcome (Option (Receiver Fd))
  receiver_round now self =
      receive_message malloc read_call write_call fuel self.relay.dev_id.uid self.fd self.msg
      then (λ r.
          let got = record self { msg = r.1; fd = r.2 } in
          if not (is_received r.0)
          then done (some got)
          else handle_received now got >>= (λ handled.
            clear_message handled.msg >>= (λ msg. done (some (record handled { msg = msg })))))
