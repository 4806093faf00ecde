-- ===== src/Lowcar/Messenger/Sending.antt =====
-- What dev_handler makes of a message that the firmware sends.
use c_runtime.Prelude.{ℕ, zero, suc, ◌+◌, ◌≤◌, ◌<◌, ◌≡◌, refl, arith}
use c_runtime.Prelude.{
  List, [], ◌∷◌, ◌++◌, Option, some, done, true, drop, length, length-append, length-drop, ◌≢◌, ◌^◌,
  ◌/◌,
}
use c_runtime.Prelude.Blocks.{memcpy_at, slice_at}
use c_runtime.RuntimeUtil.Types.{DevId}
use c_runtime.Relay.{read_dev_id, u64_of_bytes}
use c_runtime.Message.Payload.{xor_all}
use c_runtime.Message.Types.{Message, max_payload_size}
use c_runtime.Message.Cobs
use c_runtime.Message.Cobs.RoundTrip.{length-cobs_encode}
use c_runtime.Message.Serial.{frame, parse_message, parsed}
use c_runtime.Message.Serial.RoundTrip.{frame_lem, parse_message_frame, fill_message_lem}
use c_runtime.Lowcar.Types.{LowcarMessage, Port, success, id_acknowledgement}
use c_runtime.Lowcar.Cobs.RoundTrip.{cobs_encode-eq-cobs_encode}
use c_runtime.Lowcar.Messenger.{
  bytes_of, append_payload, append_dev_id, lowcar_checksum, message_to_byte, cleared, send_built,
  send_message,
}
use c_runtime.Lowcar.Messenger.Ports.{IsPort}
use mathlib.Core.List.{append_assoc}
use native.Mathlib.Nat.{pow-suc}

-- The packet of an id and a payload, and the bytes of it on the wire.
abbrev pub packet_of : ℕ → List ℕ → List ℕ
packet_of id payload =
    id ∷ length payload ∷ (payload ++ (xor_all id (length payload ∷ payload) ∷ []))

abbrev pub wire_of : ℕ → List ℕ → List ℕ
wire_of id payload = let enc = (Cobs.cobs_encode (packet_of id payload)).0 in 0 ∷ length enc ∷ enc

length-packet_of : (id : ℕ) (payload : List ℕ) → length (packet_of id payload) ≡ length payload + 3
length-packet_of id payload =
    omega (arith, length-append payload (xor_all id (length payload ∷ payload) ∷ []))

-- dev_handler parses what stands on the wire for an id and a payload.
pub parse_message-wire_of :
    (malloc : ℕ → List ℕ)
    → ((n : ℕ) → length (malloc n) ≡ n)
    → (id : ℕ) (payload junk : List ℕ) (target : Message) → length payload ≤ max_payload_size
    → length payload ≤ length target.payload
    → parse_message malloc (wire_of id payload ++ junk) target
      ≡ done (
        parsed,
        record {
          message_id = id;
          payload = payload ++ drop (length payload) target.payload;
          payload_length = length payload;
          max_payload_length = length payload;
        },
      )
parse_message-wire_of malloc sizes id payload junk target small there =
    let src : List ℕ = packet_of id payload in
    let enc = (Cobs.cobs_encode src).0 in
    let rest : List ℕ = drop (length src) (malloc (length enc)) in
    let len = length-packet_of id payload in
    ground (
      arith,
      parse_message_frame malloc sizes src junk (length enc) target refl (omega (arith, len))
          (omega (arith, len)),
      append_assoc payload (xor_all id (length payload ∷ payload) ∷ []) rest,
      fill_message_lem id (xor_all id (length payload ∷ payload)) payload rest target there,
    )

u64_of_bytes-bytes_of : (n w : ℕ) → w < 256 ^ n → u64_of_bytes (bytes_of n w) ≡ w
u64_of_bytes-bytes_of zero w h = omega arith
u64_of_bytes-bytes_of (suc n) w h =
    omega (arith, u64_of_bytes-bytes_of n (w / 256) (omega (arith, pow-suc 256 n)))

-- Appending behind `w`, the bytes in use.
append_payload_lem :
    (id : ℕ) (w j bytes : List ℕ)
    → length w + length bytes ≤ 132
    → length bytes ≤ length j
    → append_payload (record { message_id = id; payload_length = length w; payload = w ++ j }) bytes
      ≡ done (
        true,
        record {
          message_id = id;
          payload_length = length (w ++ bytes);
          payload = (w ++ bytes) ++ drop (length bytes) j;
        },
      )
unfolding append_payload
append_payload_lem id w j bytes small room = ground (
  arith,
  memcpy_at w j bytes (length w) refl room,
  append_assoc w bytes (drop (length bytes) j),
  length-append w bytes,
)

-- The payload of an ACKNOWLEDGEMENT.
abbrev pub ack_payload : DevId → List ℕ
ack_payload d = bytes_of 1 d.type ++ (bytes_of 1 d.year ++ bytes_of 8 d.uid)

append_dev_id_lem :
    (id : ℕ) (d : DevId) (j : List ℕ)
    → length j ≡ 132
    → append_dev_id (record { message_id = id; payload_length = 0; payload = j }) d
      ≡ done (
        true,
        record {
          message_id = id;
          payload_length = 10;
          payload = ack_payload d ++ drop 8 (drop 1 (drop 1 j));
        },
      )
unfolding append_dev_id
append_dev_id_lem id d j full =
    let type : List ℕ = bytes_of 1 d.type in
    let year : List ℕ = bytes_of 1 d.year in
    let uid : List ℕ = bytes_of 8 d.uid in
    ground (
      arith,
      full,
      append_payload_lem id [] j type,
      append_payload_lem id type (drop 1 j) year,
      append_payload_lem id (type ++ year) (drop 1 (drop 1 j)) uid,
      length-drop 1 j,
      length-drop 1 (drop 1 j),
    )

module _ {S : Type 0} (port : Port S) (pending sent : S → List ℕ) (law : IsPort port pending sent)
    (garbage : ℕ → List ℕ) (sizes : (n : ℕ) → length (garbage n) ≡ n) where
  pub send_built_lem :
      (msg : LowcarMessage) (payload junk : List ℕ) (s : S)
      → msg.message_id < 256
      → length payload ≤ max_payload_size
      → msg.payload ≡ payload ++ junk
      → msg.payload_length ≡ length payload
      → (s' : S) × (send_built port garbage msg s ≡ done (success, cleared, s'))
        × (sent s' ≡ sent s ++ wire_of msg.message_id payload)
  unfolding send_built lowcar_checksum message_to_byte frame
  send_built_lem msg payload junk s id small e n =
      let src : List ℕ = packet_of msg.message_id payload in
      let enc = (Cobs.cobs_encode src).0 in
      let len = length-packet_of msg.message_id payload in
      let sized : length enc ≡ length payload + 4 = omega (arith, len, length-cobs_encode src) in
      let f =
        frame_lem (garbage (2 + length src + 1)) enc (length enc)
          (omega (arith, sizes (2 + length src + 1), len, sized)) in
      let w = law.write_bytes_lem s (wire_of msg.message_id payload) in
      (
        (port.write_bytes s (wire_of msg.message_id payload)).1,
        ground (
          arith,
          slice_at [] payload junk 0 msg.payload_length refl n,
          cobs_encode-eq-cobs_encode src,
          length-cobs_encode src,
          f.1,
          slice_at [] (0 ∷ length enc ∷ enc) f.0 0 (2 + length enc) refl (omega arith),
          w.0,
          len,
        ),
        w.1,
      )

  -- dev_handler parses what the firmware sends: a message other than an ACKNOWLEDGEMENT, with an id
  -- of one byte and a payload that fits its own block and the target, is written to the port, and
  -- `parse_message` gives its id and payload back from the bytes written, whatever follows them.
  -- The message of the firmware is cleared.
  pub parse_message-send_message :
      (malloc : ℕ → List ℕ)
      → ((n : ℕ) → length (malloc n) ≡ n)
      → (id : ℕ) (payload junk more : List ℕ) (msg : LowcarMessage) (dev_id : Option DevId)
        (target : Message) (s : S)
      → id < 256
      → id ≢ id_acknowledgement
      → length payload ≤ max_payload_size
      → length payload ≤ length target.payload
      → msg.payload ≡ payload ++ junk
      → msg.payload_length ≡ length payload
      → (bytes : List ℕ) × (s' : S) × (send_message port garbage id msg dev_id s
          ≡ done (success, cleared, s'))
        × (sent s' ≡ sent s ++ bytes)
        × (parse_message malloc (bytes ++ more) target
            ≡ done (
              parsed,
              record {
                message_id = id;
                payload = payload ++ drop (length payload) target.payload;
                payload_length = length payload;
                max_payload_length = length payload;
              },
            ))
  unfolding send_message
  parse_message-send_message malloc sizes' id payload junk more msg dev_id target s byte other small
        there e n =
      let r = send_built_lem (record msg { message_id = id }) payload junk s byte small e n in
      (
        wire_of id payload,
        r.0,
        ground (arith, r.1),
        r.2,
        parse_message-wire_of malloc sizes' id payload more target small there,
      )

  -- An ACKNOWLEDGEMENT, of a message whose payload is empty, carries the device id to dev_handler:
  -- `parse_message` makes a message of it whose payload starts with the type, the year and the uid,
  -- which `read_dev_id` gives back, for a device id that fits its bytes.
  pub read_dev_id-send_message :
      (malloc : ℕ → List ℕ)
      → ((n : ℕ) → length (malloc n) ≡ n)
      → (d : DevId) (id : ℕ) (j more : List ℕ) (target : Message) (s : S) → d.type < 256
      → d.year < 256
      → d.uid < 2 ^ 64
      → length j ≡ max_payload_size
      → length target.payload ≡ max_payload_size
      → (bytes : List ℕ) × (s' : S) × (msg' : Message) × (send_message port garbage
            id_acknowledgement
            (record { message_id = id; payload_length = 0; payload = j })
            (some d)
            s
          ≡ done (success, cleared, s'))
        × (sent s' ≡ sent s ++ bytes)
        × (parse_message malloc (bytes ++ more) target ≡ done (parsed, msg'))
        × (msg'.message_id ≡ id_acknowledgement)
        × (read_dev_id msg' ≡ done d)
  unfolding send_message read_dev_id
  read_dev_id-send_message malloc sizes' d id j more target s t y u full room =
      let p : List ℕ = ack_payload d in
      let junk : List ℕ = drop 8 (drop 1 (drop 1 j)) in
      let r =
        send_built_lem
          (record { message_id = id_acknowledgement; payload_length = 10; payload = p ++ junk }) p
          junk s (omega arith) (omega arith) refl refl in
      (
        wire_of id_acknowledgement p,
        r.0,
        record {
          message_id = id_acknowledgement;
          payload = p ++ drop 10 target.payload;
          payload_length = 10;
          max_payload_length = 10;
        },
        ground (arith, append_dev_id_lem id_acknowledgement d j full, r.1),
        r.2,
        parse_message-wire_of malloc sizes' id_acknowledgement p more target (omega arith)
            (omega arith),
        refl,
        ground (
          arith,
          slice_at (d.type ∷ d.year ∷ []) (bytes_of 8 d.uid) (drop 10 target.payload) 2 8 refl refl,
          u64_of_bytes-bytes_of 8 d.uid,
        ),
      )
