-- ===== src/Lowcar/Messenger.antt =====
-- `send_message` and `read_message` of lowcar/devices/Device/Messenger.cpp.
pub mod Ports
pub mod Reading
pub mod Sending
use c_runtime.Prelude.{
  ℕ, zero, suc, ◌+◌, ◌/◌, ◌%◌, ◌^◌, Bool, true, false, ◌&&◌, ◌||◌, not, List, [], ◌∷◌, ◌++◌,
}
use c_runtime.Prelude.{
  Option, none, some, Outcome, done, fault, ◌>>=◌, from_option, read, slice, memcpy,
}
use c_runtime.Prelude.{ltb, ◌==◌, if◌then◌else◌, u8, length, replicate}
use c_runtime.RuntimeUtil.Types.{DevId}
use c_runtime.Message.Payload.{xor_all}
use c_runtime.Lowcar.Types.{
  Status, success, process_error, malformed_data, no_data, LowcarMessage, Port,
  lowcar_max_payload_size, id_nop, id_acknowledgement,
}
use c_runtime.Lowcar.Cobs.{cobs_encode, cobs_decode}

-- The `n` bytes of a number in memory, the lowest first.
abbrev pub bytes_of : ℕ → ℕ → List ℕ
bytes_of zero w = []
bytes_of (suc n) w = w % 256 ∷ bytes_of n (w / 256)

-- The Boolean is `true` for the result 0; nothing is copied where the bytes do not fit.
unfoldable pub append_payload : LowcarMessage → List ℕ → Outcome (Bool × LowcarMessage)
append_payload msg bytes =
    if ltb lowcar_max_payload_size (msg.payload_length + length bytes)
    then done (false, msg)
    else memcpy msg.payload msg.payload_length bytes >>= (λ block.
      done
        (true, record msg { payload = block; payload_length = msg.payload_length + length bytes }))

unfoldable pub lowcar_checksum : List ℕ → Outcome ℕ
lowcar_checksum [] = fault
lowcar_checksum (b ∷ bytes) = done (xor_all b bytes)

-- The bytes of the message that are filled in before the checksum.
unfoldable pub message_to_byte : LowcarMessage → Outcome (List ℕ)
message_to_byte msg =
    slice msg.payload 0 msg.payload_length
    >>= (λ payload. done (u8 msg.message_id ∷ u8 msg.payload_length ∷ payload))

-- The payload of an ACKNOWLEDGEMENT; the type and the year take a byte each, the uid eight.
unfoldable pub append_dev_id : LowcarMessage → DevId → Outcome (Bool × LowcarMessage)
append_dev_id msg dev_id = do
  r ← append_payload msg (bytes_of 1 dev_id.type)
  s ← append_payload r.1 (bytes_of 1 dev_id.year)
  t ← append_payload s.1 (bytes_of 8 dev_id.uid)
  done (r.0 && (s.0 && t.0), t.1)

-- `Clear the message for the next send`.
abbrev pub cleared : LowcarMessage
cleared = record {
  message_id = id_nop;
  payload_length = 0;
  payload = replicate lowcar_max_payload_size 0;
}

-- `garbage n` is what an array of `n` bytes on the stack holds at first.
module _ {S : Type 0} (port : Port S) (garbage : ℕ → List ℕ) where
  -- From the serialising of the message on.
  unfoldable pub send_built : LowcarMessage → S → Outcome (Status × LowcarMessage × S)
  send_built msg s = do
    front ← message_to_byte msg
    chk ← lowcar_checksum front
    let packet = front ++ (chk ∷ [])
    let (enc, cobs_len) = cobs_encode packet
    buf ← memcpy (garbage (2 + length packet + 1)) 0 (0 ∷ [])
    buf' ← memcpy buf 2 enc
    buf'' ← memcpy buf' 1 (u8 cobs_len ∷ [])
    bytes ← slice buf'' 0 (2 + cobs_len)
    let r = port.write_bytes s bytes
    done ((if u8 r.0 == 2 + cobs_len then success else process_error), cleared, r.1)

  -- `none` is the NULL that stands for no device id.
  unfoldable pub send_message :
      ℕ → LowcarMessage → Option DevId → S → Outcome (Status × LowcarMessage × S)
  send_message msg_id msg dev_id s =
      let msg' = record msg { message_id = msg_id } in
      if msg_id == id_acknowledgement
      then from_option dev_id >>= (λ id.
        append_dev_id msg' id
        >>= (λ r. if r.0 then send_built r.1 s else done (process_error, r.1, s)))
      else send_built msg' s

  -- The loop that looks for the delimiter, on fuel; the Boolean tells whether it was found.
  unfoldable pub find_delimiter : ℕ → S → Option (Bool × S)
  find_delimiter zero s = none
  find_delimiter (suc fuel) s = elim (port.available s == 0) [
    | true ↦ some (false, s)
    | false ↦ elim ((port.read_byte s).0 == 0) [
      | true ↦ some (true, (port.read_byte s).1)
      | false ↦ find_delimiter fuel (port.read_byte s).1
    ]
  ]

  -- The tests of the decoded array `block`, and the copy into the message.
  unfoldable pub check_packet : List ℕ → LowcarMessage → Outcome (Status × LowcarMessage)
  check_packet block msg = do
    message_id ← read block 0
    payload_length ← read block 1
    covered ← slice block 0 (2 + payload_length)
    expected_chk ← lowcar_checksum covered
    received_chk ← read block (2 + payload_length)
    if received_chk == expected_chk
        then slice block 2 payload_length >>= (λ bytes. memcpy msg.payload 0 bytes >>= (λ payload.
          done (
            success,
            record { message_id = message_id; payload_length = payload_length; payload = payload },
          )))
        else done (malformed_data, msg)

  -- From the length byte on.
  unfoldable pub read_packet : LowcarMessage → S → Outcome (Status × LowcarMessage × S)
  read_packet msg s =
      let cobs_len = (port.read_byte s).0 in
      let r = port.read_bytes_until (port.read_byte s).1 0 cobs_len in
      if not (length r.0 == cobs_len)
      then done (process_error, msg, r.1)
      else from_option (cobs_decode r.0) >>= (λ out.
        memcpy (garbage cobs_len) 0 out
        >>= (λ block. check_packet block msg >>= (λ t. done (t.0, t.1, r.1))))

  -- `none` means that the fuel ran out.
  unfoldable pub read_message :
      ℕ → LowcarMessage → S → Outcome (Option (Status × LowcarMessage × S))
  read_message fuel msg s =
      if port.available s == 0
      then done (some (no_data, msg, s))
      else elim (find_delimiter fuel s) [
        | none ↦ done none
        | some (found, s') ↦
            if not found
            then done (some (malformed_data, msg, s'))
            else if port.available s' == 0 || port.peek s' == 0
            then done (some (malformed_data, msg, s'))
            else read_packet msg s' >>= (λ r. done (some r))
      ]
