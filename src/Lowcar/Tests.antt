-- ===== src/Lowcar/Tests.antt =====
-- The properties of the firmware at concrete devices, messages and serial lines.
mod Serial
use c_runtime.Prelude.{
  ◌∙◌, ℕ, ◌+◌, ◌-◌, ◌*◌, ◌/◌, ◌^◌, ltb, leb, ◌<◌, ◌⊎◌, inl, ◌≡◌, refl, arith, true, false, List, [],
  ◌∷◌, ◌++◌, Outcome, done, Option, none, some, length, replicate, take, drop, All,
}
use c_runtime.Prelude.{length-replicate}
use Prim.Native.String.{String}
use c_runtime.RuntimeUtil.Types.{DevId}
use c_runtime.Message.Types.{Message}
use c_runtime.Lowcar.Types.{LowcarMessage, Port, success}
use c_runtime.Message.Payload.{xor_all}
use c_runtime.Lowcar.Cobs.{
  close_block, write_byte, write_loop, cobs_encode, cobs_decode, decode_loop, copy_code,
  restore_zero,
}
use c_runtime.Lowcar.Messenger.{
  send_built, send_message, read_message, read_packet, check_packet, find_delimiter,
  lowcar_checksum, append_payload, append_dev_id, message_to_byte,
}
use c_runtime.Lowcar.Params.{Methods, default_methods}
use c_runtime.Lowcar.Logs.{
  LogQueue, new_queue, grow_queue, lowcar_printf, print_all, lowcar_flush, flush_loop,
}
use c_runtime.Lowcar.Device.{
  DeviceState, new_device, set_uid, handle_ping, handle_message, handle_status, check_timeout,
  is_timed_out, act, send_data, after_read, loop,
}
use c_runtime.Lowcar.Device.{elapsed}
use c_runtime.Lowcar.Device.Timeout.{HasInterval}
use c_runtime.Lowcar.Device.Runs.{
  Reachable, constructed, iterated, Reachable-HasInterval, loop-Reachable,
}
use c_runtime.Message.Cobs
use c_runtime.Message.Serial.{calc_max_cobs_msg_length, message_to_bytes, parse_message, parsed}
use c_runtime.Message.Serial.RoundTrip.{parse_message-message_to_bytes}
use c_runtime.Lowcar.Cobs.RoundTrip.{cobs_encode-eq-cobs_encode, cobs_decode-cobs_encode}
use c_runtime.Lowcar.Messenger.{cleared}
use c_runtime.Lowcar.Messenger.Reading.{read_message-message_to_bytes}
use c_runtime.Lowcar.Messenger.Sending.{parse_message-send_message}
use c_runtime.RuntimeUtil.Types.{ParamVal, max_params}
use c_runtime.RuntimeUtil.Devices.{dummy_device}
use c_runtime.RuntimeUtil.Lookup.{get_device}
use c_runtime.Message.Types.{bytes_of_u32}
use c_runtime.Message.Build.{
  existing_params, readable_params, writeable_params, make_device_write, make_ping,
}
use c_runtime.Message.Build.Write.{
  encoded, subscribed_params, written_params, is_written, has_bit-written_params,
  make_device_write_lem,
}
use c_runtime.Message.Serial.{parse_device_data}
use c_runtime.Message.Serial.DeviceData.{Received}
use c_runtime.Lowcar.Params.{device_read_params, device_write_params}
use c_runtime.Lowcar.Params.Transfer.DeviceData.{parse_device_data-device_read_params}
use c_runtime.Lowcar.Devices.{Floats}
use c_runtime.Lowcar.Devices.Dummy.{DummyDevice, new_dummy, dummy_read, dummy_write, dummy_methods}
use c_runtime.Lowcar.Devices.Tables.{
  dummy_get, dummy_set, dummy_device_lem, dummy_read_lem, dummy_write_lem,
}
use c_runtime.Relay.{read_dev_id}
use c_runtime.Lowcar.Params.Transfer.Writing.{set_where, device_write_params-make_device_write}
use c_runtime.Lowcar.Device.Contact.{read_dev_id-make_ping}
use c_runtime.Lowcar.Logs.Flush.{IsQueue, log_bytes, lowcar_printf-IsQueue, lowcar_flush-IsQueue}
use c_runtime.Prelude.Bits.{has_bit}
use Serial.{Line, line_port, line_port-IsPort}

abbrev zeros : ℕ → List ℕ
zeros n = replicate n 0

length-zeros : (n : ℕ) → length (zeros n) ≡ n
length-zeros n = length-replicate n 0

abbrev args_only : String → List ℕ → List ℕ
args_only format args = args

abbrev blank : LowcarMessage
blank = record { message_id = 0; payload_length = 0; payload = zeros 132 }

abbrev fresh : DeviceState ℕ
fresh = new_device 4 1 1000 blank 0 0

abbrev pinged : Line
pinged = record { pending = 0 ∷ 4 ∷ 2 ∷ 1 ∷ 2 ∷ 1 ∷ []; sent = [] }

abbrev answered : Line
answered = record {
  pending = [];
  sent =
      0 ∷ 14 ∷ 5 ∷ 2 ∷ 10 ∷ 4 ∷ 1 ∷ 1 ∷ 1 ∷ 1 ∷ 1 ∷ 1 ∷ 1 ∷ 1 ∷ 2 ∷ 13 ∷ 0 ∷ 7 ∷ 4 ∷ 6 ∷ 3 ∷ 4 ∷ 1
      ∷ 2 ∷ 1 ∷ [];
}

abbrev contacted : DeviceState ℕ
contacted = record {
  dev_id = record { type = 4; year = 1; uid = 0 };
  params = 0;
  sub_interval = 0;
  timeout = 1000;
  enabled = true;
  last_sent_data_time = 0;
  last_received_ping_time = 5;
  curr_msg = blank;
  logs = record { max_size = 10; strings = 10; texts = [] };
  own = 0;
}

-- A device that is pinged answers with its id and the log of the contact.
loop_run :
    loop 16 args_only line_port zeros default_methods 9 fresh 5 pinged
    ≡ done (some (contacted, answered))
unfolding cobs_encode close_block write_byte write_loop cobs_decode xor_all send_built send_message
    read_message read_packet check_packet find_delimiter lowcar_checksum append_payload
    append_dev_id message_to_byte default_methods new_queue grow_queue lowcar_printf print_all
    lowcar_flush flush_loop new_device handle_ping handle_message handle_status check_timeout
    is_timed_out act send_data after_read loop line_port decode_loop copy_code restore_zero
loop_run = refl

loop-Reachable_example :
    (contacted.timeout ≡ 0) ⊎ (elapsed 5 contacted.last_received_ping_time < contacted.timeout)
loop-Reachable_example =
    loop-Reachable 16 args_only line_port zeros default_methods 9 5 fresh contacted pinged answered
      (constructed 4 1 1000 0 blank 0 pinged) loop_run refl

Reachable-HasInterval_example : HasInterval contacted
Reachable-HasInterval_example =
    Reachable-HasInterval 16 args_only line_port zeros default_methods {self = contacted}
      {s = answered}
      (iterated {self = fresh} {s = pinged} 9 5 (constructed 4 1 1000 0 blank 0 pinged) loop_run)

cobs_encode-eq-cobs_encode_example :
    cobs_encode (1 ∷ 0 ∷ 2 ∷ []) ≡ Cobs.cobs_encode (1 ∷ 0 ∷ 2 ∷ [])
cobs_encode-eq-cobs_encode_example = cobs_encode-eq-cobs_encode (1 ∷ 0 ∷ 2 ∷ [])

cobs_decode-cobs_encode_example :
    cobs_decode (Cobs.cobs_encode (1 ∷ 0 ∷ 2 ∷ [])).0 ≡ some (1 ∷ 0 ∷ 2 ∷ [])
cobs_decode-cobs_encode_example = cobs_decode-cobs_encode (1 ∷ 0 ∷ 2 ∷ [])

-- A message with a zero in its payload.
abbrev hello : Message
hello = record {
  message_id = 4;
  payload = 7 ∷ 0 ∷ 9 ∷ [];
  payload_length = 3;
  max_payload_length = 3;
}

abbrev receiver : Message
receiver = record {
  message_id = 0;
  payload = zeros 132;
  payload_length = 0;
  max_payload_length = 132;
}

hello_sent : (bytes : List ℕ) × (message_to_bytes hello (zeros 12) ≡ done (some (bytes, 9)))
unfolding calc_max_cobs_msg_length
hello_sent =
    let r =
      parse_message-message_to_bytes zeros length-zeros hello receiver (zeros 12) (omega arith)
        (omega arith) (omega arith) (omega arith) (omega arith) in
    (r.0, r.1)

abbrev hello_line : Line
hello_line = record { pending = 3 ∷ (take 9 hello_sent.0 ++ (5 ∷ [])); sent = [] }

read_message-message_to_bytes_example :
    (s' : Line) × (read_message line_port zeros 2 blank hello_line
      ≡ done (
          some (
            success,
            record { message_id = 4; payload_length = 3; payload = 7 ∷ 0 ∷ 9 ∷ zeros 129 },
            s',
          )))
    × (s'.pending ≡ 5 ∷ [])
unfolding calc_max_cobs_msg_length
read_message-message_to_bytes_example =
    read_message-message_to_bytes line_port (λ line. line.pending) (λ line. line.sent)
      line_port-IsPort zeros length-zeros 2 hello (zeros 12) hello_sent.0 9 (3 ∷ []) (5 ∷ []) blank
      hello_line hello_sent.1 (omega arith) (omega arith) (omega arith) (omega arith) (omega arith)
      (omega arith) (omega arith, tt) refl

abbrev quiet : Line
quiet = record { pending = []; sent = [] }

-- Whole numbers in place of floats.
abbrev wholes : Floats ℕ
wholes = record {
  literal = λ text. 0;
  of_float = λ x. x;
  to_float = λ x. x;
  of_int = λ x. x;
  to_int = λ x. x;
  add = ◌+◌;
  sub = ◌-◌;
  mul = ◌*◌;
  div = ◌/◌;
  lt = ltb;
  le = leb;
}

abbrev dummy : Methods DummyDevice
dummy = dummy_methods wholes args_only

abbrev dummy_start : DummyDevice
dummy_start = new_dummy wholes 0

get_device_dummy : get_device 0 ≡ some dummy_device
unfolding get_device
get_device_dummy = refl

dummy_device_lem_example :
    (dummy_read wholes 6 dummy_start ≡ done ([], dummy_start))
    × (dummy_write wholes 6 (1 ∷ 2 ∷ 0 ∷ 0 ∷ 9 ∷ []) dummy_start
        ≡ done (4, dummy_set 6 513 dummy_start))
    × (bytes_of_u32 (dummy_get 6 (dummy_set 6 513 dummy_start)) ≡ 1 ∷ 2 ∷ 0 ∷ 0 ∷ [])
dummy_device_lem_example =
    dummy_device_lem wholes dummy_start 513 (9 ∷ []) 6 (omega arith) (omega arith)

-- RUNTIME, DAWN and DUSK.
abbrev asked : ℕ
asked = 32773

asked_lem : subscribed_params dummy_device asked ≡ asked
unfolding existing_params readable_params
asked_lem = refl

dummy_get-lt : (j : ℕ) → dummy_get j dummy_start < 2 ^ 32
unfolding new_dummy
dummy_get-lt j = ground arith

parse_device_data-device_read_params_example :
    (msg : LowcarMessage) × (bytes : List ℕ) × (s' : Line) × (msg' : Message) × (result : ℕ
      → ParamVal)
    × (device_read_params 16 dummy asked dummy_start ≡ done (dummy_start, msg))
    × (send_message line_port zeros 5 msg none quiet ≡ done (success, cleared, s'))
    × (s'.sent ≡ [] ++ bytes)
    × (parse_message zeros (bytes ++ []) receiver ≡ done (parsed, msg'))
    × (parse_device_data 0 msg' (λ j. 0) ≡ done result)
    × Received dummy_device (λ j. dummy_get j dummy_start) asked (λ j. 0) result
unfolding dummy_methods
parse_device_data-device_read_params_example =
    parse_device_data-device_read_params line_port (λ line. line.pending) (λ line. line.sent)
      line_port-IsPort zeros zeros length-zeros length-zeros 16 dummy (omega arith) 0 asked
      dummy_device (λ j. dummy_get j dummy_start) (λ j. 0) dummy_start [] receiver quiet
      get_device_dummy (omega arith) (omega arith) dummy_get-lt
      (λ i below on. dummy_read_lem wholes asked i dummy_start below (rw asked_lem on)) refl

-- SENS and MECH.
abbrev named : ℕ
named = 320

named_lem : written_params dummy_device named ≡ named
unfolding existing_params writeable_params
named_lem = refl

abbrev named_msg : Message
named_msg = record {
  message_id = 4;
  payload = 64 ∷ 1 ∷ 0 ∷ 0 ∷ 1 ∷ 2 ∷ 0 ∷ 0 ∷ 1 ∷ [];
  payload_length = 9;
  max_payload_length = 9;
}

named_write : make_device_write zeros 0 named (λ j. 513) ≡ done (some named_msg)
unfolding encoded existing_params writeable_params has_bit
named_write =
    (make_device_write_lem zeros length-zeros 0 named (λ j. 513) dummy_device get_device_dummy).0

named_sent : (bytes : List ℕ) × (message_to_bytes named_msg (zeros 16) ≡ done (some (bytes, 15)))
unfolding calc_max_cobs_msg_length
named_sent =
    let r =
      parse_message-message_to_bytes zeros length-zeros named_msg receiver (zeros 16) (omega arith)
        (omega arith) (omega arith) (omega arith) (omega arith) in
    (r.0, r.1)

abbrev named_line : Line
named_line = record { pending = take 15 named_sent.0 ++ []; sent = [] }

device_write_params-make_device_write_example :
    (msg' : LowcarMessage) × (s' : Line) × (read_message line_port zeros 1 blank named_line
      ≡ done (some (success, msg', s')))
    × (s'.pending ≡ [])
    × (device_write_params 16 dummy msg' dummy_start
        ≡ done (
            set_where dummy_set
              (λ j. 513)
              (is_written dummy_device named)
              max_params
              0
              dummy_start))
unfolding calc_max_cobs_msg_length dummy_methods
device_write_params-make_device_write_example =
    device_write_params-make_device_write line_port (λ line. line.pending) (λ line. line.sent)
      line_port-IsPort zeros zeros length-zeros length-zeros 16 dummy dummy_set (omega arith) 0
      named dummy_device (λ j. 513) named_msg (zeros 16) named_sent.0 15 1 [] [] blank named_line
      dummy_start get_device_dummy (omega (arith, named_lem)) (omega (arith, named_lem))
      (λ i rest own below on.
        dummy_write_lem wholes named (λ j. 513) i rest own (λ j. omega arith) below
          (has_bit-written_params dummy_device named i (omega arith) below ∙ on))
      named_write named_sent.1 (omega arith) refl (omega arith) tt refl

ping_sent :
    (bytes : List ℕ) × (message_to_bytes (make_ping zeros) (zeros 6) ≡ done (some (bytes, 6)))
unfolding calc_max_cobs_msg_length make_ping
ping_sent =
    let r =
      parse_message-message_to_bytes zeros length-zeros (make_ping zeros) receiver (zeros 6)
        (omega arith) (omega arith) (omega arith) (omega arith) (omega arith) in
    (r.0, r.1)

abbrev ping_line : Line
ping_line = record { pending = take 6 ping_sent.0 ++ []; sent = [] }

abbrev one_log : LogQueue
one_log = record { max_size = 10; strings = 10; texts = (4 ∷ 0 ∷ []) ∷ [] }

read_dev_id-make_ping_example :
    (msg : LowcarMessage) × (s₁ : Line) × (self' : DeviceState ℕ) × (bytes : List ℕ) × (s₂ : Line)
    × (msg' : Message) × (read_message line_port zeros 1 blank ping_line
        ≡ done (some (success, msg, s₁)))
    × (handle_message 16 args_only line_port zeros default_methods
          (record fresh { curr_msg = msg })
          5
          s₁
        ≡ done (self', s₂))
    × (check_timeout 16 args_only line_port zeros default_methods self' 5 ≡ done self')
    × (self'.enabled ≡ true)
    × (s₂.sent ≡ s₁.sent ++ bytes)
    × (parse_message zeros (bytes ++ []) receiver ≡ done (parsed, msg'))
    × (msg'.message_id ≡ 2)
    × (read_dev_id msg' ≡ done (record { type = 4; year = 1; uid = 0 }))
unfolding calc_max_cobs_msg_length make_ping new_device grow_queue lowcar_printf print_all new_queue
    default_methods
read_dev_id-make_ping_example =
    read_dev_id-make_ping 16 args_only line_port (λ line. line.pending) (λ line. line.sent)
      line_port-IsPort zeros zeros length-zeros length-zeros default_methods fresh 5 6 1 (zeros 6)
      ping_sent.0 [] [] [] one_log one_log receiver ping_line ping_sent.1 (omega arith) refl tt
      (omega arith) refl refl (omega arith) (omega arith) (omega arith) refl refl refl

lowcar_printf-IsQueue_example :
    (queue' : LogQueue) × (lowcar_printf one_log (7 ∷ []) ≡ done queue')
    × (queue'.texts ≡ (4 ∷ 0 ∷ []) ∷ (7 ∷ []) ∷ [])
    × IsQueue queue'
lowcar_printf-IsQueue_example =
    lowcar_printf-IsQueue one_log (7 ∷ []) (inl refl, refl, omega arith, (omega arith, tt))
      (omega arith) (omega arith)

lowcar_flush-IsQueue_example :
    (s' : Line) × (lowcar_flush line_port zeros one_log quiet
      ≡ done (record { max_size = 10; strings = 10; texts = [] }, s'))
    × (s'.sent ≡ [] ++ log_bytes one_log.texts)
    × IsQueue (record { max_size = 10; strings = 10; texts = [] })
lowcar_flush-IsQueue_example =
    lowcar_flush-IsQueue line_port (λ line. line.pending) (λ line. line.sent) line_port-IsPort zeros
      length-zeros one_log quiet (inl refl, refl, omega arith, (omega arith, tt))
