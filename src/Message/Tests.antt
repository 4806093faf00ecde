-- ===== src/Message/Tests.antt =====
-- The properties of dev_handler/message.c at concrete messages.
use c_runtime.Prelude.{ℕ, ◌+◌, ◌*◌, ◌≤◌, ◌≡◌, ◌↔◌, refl, arith}
use c_runtime.Prelude.{List, [], ◌∷◌, ◌++◌, some, done, fault, length, length-replicate, replicate}
use c_runtime.RuntimeUtil.Types.{ParamVal}
use c_runtime.RuntimeUtil.Devices.{servo_control}
use c_runtime.RuntimeUtil.Lookup.{get_device}
use c_runtime.Message.Types.{Message}
use c_runtime.Message.Cobs.{cobs_encode, cobs_decode, decoded, stuck}
use c_runtime.Message.Cobs.RoundTrip.{full_blocks, cobs_round_trip_iff, length-cobs_encode}
use c_runtime.Message.Cobs.Bounds.{cobs_decode_total}
use c_runtime.Message.Payload.Checksum.{checksum_detects}
use c_runtime.Message.Build.{make_device_write}
use c_runtime.Message.Serial.{
  message_to_bytes, parse_message, parse_device_data, parsed, calc_max_cobs_msg_length,
}
use c_runtime.Message.Serial.RoundTrip.{parse_message-message_to_bytes}
use c_runtime.Message.Serial.DeviceData.{Written, parse_device_data-make_device_write}
use c_runtime.Message.Serial.Status.{Returned, parse_message_status, parse_message_overrun}

abbrev zeros : ℕ → List ℕ
zeros n = replicate n 0

length-zeros : (n : ℕ) → length (zeros n) ≡ n
length-zeros n = length-replicate n 0

-- A message with a zero in its payload.
abbrev hello : Message
hello = record {
  message_id = 1;
  payload = 7 ∷ 0 ∷ 9 ∷ [];
  payload_length = 3;
  max_payload_length = 3;
}

abbrev blank : Message
blank = record {
  message_id = 0;
  payload = 5 ∷ 5 ∷ 5 ∷ 5 ∷ [];
  payload_length = 0;
  max_payload_length = 4;
}

parse_message-message_to_bytes_example :
    (bytes : List ℕ) × (message_to_bytes hello (zeros 12) ≡ done (some (bytes, 9)))
    × (parse_message zeros bytes blank
        ≡ done (
          parsed,
          record {
            message_id = 1;
            payload = 7 ∷ 0 ∷ 9 ∷ 5 ∷ [];
            payload_length = 3;
            max_payload_length = 3;
          },
        ))
unfolding calc_max_cobs_msg_length
parse_message-message_to_bytes_example =
    parse_message-message_to_bytes zeros length-zeros hello blank (zeros 12) (omega arith)
      (omega arith) (omega arith) (omega arith) (omega arith)

get_device_servo : get_device 4 ≡ some servo_control
unfolding get_device
get_device_servo = refl

parse_device_data-make_device_write_example :
    (msg : Message) × (result : ℕ → ParamVal) × (make_device_write zeros 4 3 (λ j. 1000)
      ≡ done (some msg))
    × (parse_device_data 4 msg (λ j. 0) ≡ done result)
    × Written servo_control (λ j. 1000) 3 (λ j. 0) result
parse_device_data-make_device_write_example =
    parse_device_data-make_device_write zeros length-zeros 4 3 (λ j. 1000) (λ j. 0) servo_control
      get_device_servo (omega arith) (λ j. omega arith)

cobs_round_trip_iff_example :
    (cobs_decode (cobs_encode (1 ∷ 0 ∷ 2 ∷ [])).0 ≡ decoded (1 ∷ 0 ∷ 2 ∷ []))
    ↔ (full_blocks 0 (1 ∷ 0 ∷ 2 ∷ []) ≡ 0)
cobs_round_trip_iff_example = cobs_round_trip_iff (1 ∷ 0 ∷ 2 ∷ [])

abbrev pair : List ℕ
pair = 1 ∷ 0 ∷ []

length-cobs_encode_example :
    ((cobs_encode pair).1 ≡ length (cobs_encode pair).0)
    × (length (cobs_encode pair).0 ≡ length pair + 1 + full_blocks 0 pair)
    × (254 * full_blocks 0 pair ≤ length pair)
length-cobs_encode_example = length-cobs_encode pair

cobs_decode_total_example : ¬ (cobs_decode (9 ∷ 1 ∷ 2 ∷ []) ≡ stuck)
cobs_decode_total_example = cobs_decode_total (9 ∷ 1 ∷ 2 ∷ [])

checksum_detects_example : ◌≡◌ {A = ℕ} 6 6
checksum_detects_example =
    checksum_detects (1 ∷ 2 ∷ []) (9 ∷ []) 6 6 (omega arith) (omega arith)
      (omega arith, (omega arith, tt)) (omega arith, tt) refl

-- The bytes that `hello` is sent as, and what they are parsed to.
hello_received :
    (bytes : List ℕ) × (message_to_bytes hello (zeros 12) ≡ done (some (bytes, 9)))
    × (parse_message zeros bytes blank
        ≡ done (
          parsed,
          record {
            message_id = 1;
            payload = 7 ∷ 0 ∷ 9 ∷ 5 ∷ [];
            payload_length = 3;
            max_payload_length = 3;
          },
        ))
unfolding calc_max_cobs_msg_length
hello_received =
    parse_message-message_to_bytes zeros length-zeros hello blank (zeros 12) (omega arith)
      (omega arith) (omega arith) (omega arith) (omega arith)

parse_message_status_example : Returned blank parsed (record {
  message_id = 1;
  payload = 7 ∷ 0 ∷ 9 ∷ 5 ∷ [];
  payload_length = 3;
  max_payload_length = 3;
})
parse_message_status_example =
    parse_message_status zeros hello_received.0 blank parsed _ hello_received.2

parse_message_overrun_example :
    parse_message zeros
      (0 ∷ (cobs_encode (2 ∷ 5 ∷ 1 ∷ [])).1 ∷ ((cobs_encode (2 ∷ 5 ∷ 1 ∷ [])).0 ++ []))
      blank
    ≡ fault
parse_message_overrun_example =
    parse_message_overrun zeros length-zeros 2 5 (1 ∷ []) [] blank (omega arith) (omega arith)
      (omega arith)
