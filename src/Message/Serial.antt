-- ===== src/Message/Serial.antt =====
-- `calc_max_cobs_msg_length`, `message_to_bytes`, `parse_message` and `parse_device_data` of
-- dev_handler/message.c.
pub mod RoundTrip
pub mod DeviceData
pub mod Status
use c_runtime.Prelude.{ℕ, zero, suc, ◌+◌, ◌*◌, ◌/◌, ◌%◌, ◌^◌, List, [], ◌∷◌, ◌++◌}
use c_runtime.Prelude.{
  Option, none, some, Outcome, done, fault, ◌>>=◌, from_option, read, slice, memcpy,
}
use c_runtime.Prelude.{ltb, ◌==◌, if◌then◌else◌, length, drop, update, u8}
use c_runtime.Prelude.Bits.{has_bit}
use c_runtime.RuntimeUtil.Types.{Device, ParamType, ParamVal, max_params}
use c_runtime.RuntimeUtil.Devices.{param_at}
use c_runtime.RuntimeUtil.Lookup.{get_device}
use c_runtime.Message.Types.{
  Message, delimiter_size, cobs_length_size, message_id_size, payload_length_size, bitmap_size,
  checksum_size, max_payload_size, u32_of_bytes,
}
use c_runtime.Message.Payload.{append_payload, checksum}
use c_runtime.Message.Cobs.{cobs_encode, cobs_decode, decoded, bad_packet, stuck}

unfoldable pub calc_max_cobs_msg_length : Message → ℕ
calc_max_cobs_msg_length msg =
    let required_packet_length =
      message_id_size + payload_length_size + msg.payload_length + checksum_size in
    let cobs_length = required_packet_length + required_packet_length / 254 + 1 in
    delimiter_size + cobs_length_size + cobs_length

-- The intermediate array `data`: id, length, payload and checksum, each stored in a byte.
pub packet : Message → Outcome (List ℕ)
packet msg = do
  payload ← slice msg.payload 0 msg.payload_length
  let head = u8 msg.message_id ∷ u8 msg.payload_length ∷ payload
  chk ← checksum head
  done (head ++ (chk ∷ []))

-- The delimiter, the encoded bytes and then the length byte are written into the buffer.
unfoldable pub frame : List ℕ → ℕ → List ℕ → Outcome (List ℕ)
frame buf n enc = do
  buf' ← memcpy buf 0 (0 ∷ [])
  buf'' ← memcpy buf' 2 enc
  memcpy buf'' 1 (n ∷ [])

-- `none` is the -1 for a buffer that is too short. Else the buffer and the number of its bytes
-- that are in use.
pub message_to_bytes : Message → List ℕ → Outcome (Option (List ℕ × ℕ))
message_to_bytes msg cobs_encoded =
    if ltb (length cobs_encoded) (calc_max_cobs_msg_length msg) then done none else (do
      src ← packet msg
      let (enc, cobs_len) = cobs_encode src
      buf ← frame cobs_encoded (u8 cobs_len) enc
      done (some (buf, delimiter_size + cobs_length_size + cobs_len)))

-- The status codes that `parse_message` returns.
pub data ParseStatus : Type 0 where
  parsed : ParseStatus
  bad_checksum : ParseStatus
  payload_too_small : ParseStatus
  invalid_length : ParseStatus

pub verify_checksum : List ℕ → Message → Outcome (ParseStatus × Message)
verify_checksum block msg = do
  covered ← slice block 0 (message_id_size + payload_length_size + msg.payload_length)
  expected ← checksum covered
  received ← read block (message_id_size + payload_length_size + msg.payload_length)
  done ((if expected == received then parsed else bad_checksum), msg)

-- What follows the length tests, on the array `block` whose first bytes are the decoded message.
pub fill_message : List ℕ → Message → Outcome (ParseStatus × Message)
fill_message block msg = do
  id ← read block 0
  max_len ← read block message_id_size
  payload ← slice block (message_id_size + payload_length_size) max_len
  r ←
      append_payload
        (record msg { message_id = id; payload_length = 0; max_payload_length = max_len }) payload
  if r.0 then verify_checksum block r.1 else done (payload_too_small, r.1)

-- `malloc n` is the contents of a new block of `n` bytes. `input` is the whole message, with its
-- delimiter and its length byte.
module _ (malloc : ℕ → List ℕ) where
  -- The number of decoded bytes is tested before anything is read.
  pub parse_decoded : ℕ → List ℕ → Message → Outcome (ParseStatus × Message)
  parse_decoded cobs_len out msg =
      if ltb (length out) (message_id_size + payload_length_size + checksum_size)
      then done (invalid_length, msg)
      else if ltb (message_id_size + payload_length_size + max_payload_size + checksum_size)
          (length out)
      then done (invalid_length, msg)
      else memcpy (malloc cobs_len) 0 out >>= λ block. fill_message block msg

  pub parse_message : List ℕ → Message → Outcome (ParseStatus × Message)
  parse_message input msg = do
    cobs_len ← read input 1
    src ← slice input 2 cobs_len
    elim (cobs_decode src) [
      | decoded out ↦ parse_decoded cobs_len out msg
      | bad_packet ↦ parse_decoded cobs_len [] msg
      | stuck ↦ fault
    ]

-- Reading one value at the payload pointer; the bytes from the pointer on are a list.
pub read_value : ParamType → List ℕ → ParamVal → Outcome (ParamVal × List ℕ)
read_value ParamType.int (a ∷ b ∷ c ∷ d ∷ rest) v = done (u32_of_bytes a b c d, rest)
read_value ParamType.float (a ∷ b ∷ c ∷ d ∷ rest) v = done (u32_of_bytes a b c d, rest)
read_value ParamType.bool (a ∷ rest) v = done (v / 256 * 256 + a, rest)
read_value _ _ v = fault

pub read_values : Device → ℕ → ℕ → ℕ → List ℕ → (ℕ → ParamVal) → Outcome (ℕ → ParamVal)
read_values dev bitmap zero i bytes vals = done vals
read_values dev bitmap (suc left) i bytes vals =
    let skip = read_values dev bitmap left (i + 1) bytes vals in
    if bitmap / 2 ^ i == 0
    then done vals
    else if has_bit bitmap i
    then read_value (param_at dev i).type bytes (vals i)
      >>= (λ r. read_values dev bitmap left (i + 1) r.1 (update vals i r.0))
    else skip

-- The bitmap in the first four bytes of a payload.
pub payload_bitmap : Message → Outcome ℕ
payload_bitmap msg = do
  a ← read msg.payload 0
  b ← read msg.payload 1
  c ← read msg.payload 2
  d ← read msg.payload 3
  done (u32_of_bytes a b c d)

pub parse_device_data : ℕ → Message → (ℕ → ParamVal) → Outcome (ℕ → ParamVal)
parse_device_data dev_type dev_data vals = do
  dev ← from_option (get_device dev_type)
  bitmap ← payload_bitmap dev_data
  read_values dev bitmap max_params 0 (drop bitmap_size dev_data.payload) vals
