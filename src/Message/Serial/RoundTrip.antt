-- ===== src/Message/Serial/RoundTrip.antt =====
-- A message that is serialised is parsed back.
use c_runtime.Prelude.{ℕ, ◌+◌, ◌≤◌, ◌<◌, ◌≡◌, refl, ap, ◌∙◌, arith}
use c_runtime.Prelude.{List, [], ◌∷◌, ◌++◌, some, done, ◌>>=◌}
use c_runtime.Prelude.{memcpy, length, length-append, take, drop, u8}
use c_runtime.Prelude.{length-take}
use c_runtime.Prelude.Blocks.{memcpy_at, slice_at, read_at}
use c_runtime.Message.Types.{Message, max_payload_size}
use mathlib.Core.List.{append_assoc}
use c_runtime.Message.Payload.{append_payload, checksum, xor_all}
use c_runtime.Message.Cobs.{cobs_encode}
use c_runtime.Message.Cobs.RoundTrip.{cobs_round_trip, length-cobs_encode}
use c_runtime.Message.Serial.{
  calc_max_cobs_msg_length, frame, packet, message_to_bytes, parsed, verify_checksum, fill_message,
  parse_decoded, parse_message,
}

pub frame_lem :
    (buf enc : List ℕ) (n : ℕ)
    → length enc + 2 ≤ length buf
    → (junk : List ℕ) × (frame buf n enc ≡ done (0 ∷ n ∷ (enc ++ junk)))
unfolding frame
frame_lem [] enc n h = absurd (omega arith)
frame_lem (x ∷ []) enc n h = absurd (omega arith)
frame_lem (x ∷ y ∷ rest) enc n h =
    let e0 : memcpy (x ∷ y ∷ rest) 0 (0 ∷ []) ≡ done (0 ∷ y ∷ rest) =
      memcpy_at [] (x ∷ y ∷ rest) (0 ∷ []) 0 refl (omega arith) in
    let e1 : memcpy (0 ∷ y ∷ rest) 2 enc ≡ done (0 ∷ y ∷ (enc ++ drop (length enc) rest)) =
      memcpy_at (0 ∷ y ∷ []) rest enc 2 refl (omega arith) in
    let e2 : memcpy (0 ∷ y ∷ (enc ++ drop (length enc) rest)) 1 (n ∷ [])
        ≡ done (0 ∷ n ∷ (enc ++ drop (length enc) rest)) =
      memcpy_at (0 ∷ []) (y ∷ (enc ++ drop (length enc) rest)) (n ∷ []) 1 refl (omega arith) in
    (
      drop (length enc) rest,
      ap (λ t. t >>= (λ b. memcpy b 2 enc >>= (λ c. memcpy c 1 (n ∷ [])))) e0
          ∙ ap (λ t. t >>= (λ c. memcpy c 1 (n ∷ []))) e1
          ∙ e2,
    )

-- The packet of a message whose payload fits its block.
module _ (msg : Message) where
  abbrev pub in_use : List ℕ
  in_use = take msg.payload_length msg.payload

  abbrev pub head : List ℕ
  head = u8 msg.message_id ∷ u8 msg.payload_length ∷ in_use

  abbrev pub chk : ℕ
  chk = xor_all (u8 msg.message_id) (u8 msg.payload_length ∷ in_use)

  packet_lem : msg.payload_length ≤ length msg.payload → packet msg ≡ done (head ++ (chk ∷ []))
  unfolding packet checksum
  packet_lem h = ground arith

  pub length-packet :
      msg.payload_length ≤ length msg.payload → length (head ++ (chk ∷ [])) ≡ msg.payload_length + 3
  length-packet h =
      omega (arith, length-append in_use (chk ∷ []), length-take msg.payload_length msg.payload)

-- `fill_message` on a block that starts with a packet.
pub fill_message_lem :
    (id chk : ℕ) (payload junk : List ℕ) (target : Message)
    → length payload ≤ length target.payload
    → chk ≡ xor_all id (length payload ∷ payload)
    → fill_message (id ∷ length payload ∷ (payload ++ (chk ∷ junk))) target
      ≡ done (
        parsed,
        record {
          message_id = id;
          payload = payload ++ drop (length payload) target.payload;
          payload_length = length payload;
          max_payload_length = length payload;
        },
      )
unfolding fill_message verify_checksum append_payload checksum
fill_message_lem id chk payload junk target h e = ground (
  arith,
  slice_at (id ∷ length payload ∷ []) payload (chk ∷ junk) 2 (length payload) refl refl,
  memcpy_at [] target.payload payload 0 refl h,
  slice_at [] (id ∷ length payload ∷ payload) (chk ∷ junk) 0 (2 + length payload) refl
      (omega arith),
  read_at (id ∷ length payload ∷ payload) junk chk (2 + length payload) (omega arith),
)

-- What `parse_message` makes of a message `src` in its wire form.
pub parse_message_frame :
    (malloc : ℕ → List ℕ)
    → ((n : ℕ) → length (malloc n) ≡ n)
    → (src junk : List ℕ) (n : ℕ) (target : Message) → n ≡ length (cobs_encode src).0
    → 3 ≤ length src
    → length src ≤ 135
    → parse_message malloc (0 ∷ n ∷ ((cobs_encode src).0 ++ junk)) target
      ≡ fill_message (src ++ drop (length src) (malloc n)) target
unfolding parse_message parse_decoded
parse_message_frame malloc sizes src junk n target e lo hi = ground (
  arith,
  sizes n,
  slice_at (0 ∷ n ∷ []) (cobs_encode src).0 junk 2 n refl e,
  cobs_round_trip src (omega arith),
  length-cobs_encode src,
  memcpy_at [] (malloc n) src 0 refl,
)

pub message_to_bytes_lem :
    (msg : Message) (buf : List ℕ)
    → msg.payload_length ≤ 132
    → msg.payload_length ≤ length msg.payload
    → calc_max_cobs_msg_length msg ≤ length buf
    → let src = head msg ++ (chk msg ∷ []) in
      (junk : List ℕ) × (message_to_bytes msg buf
        ≡ done (
            some (
              0 ∷ (msg.payload_length + 4) ∷ ((cobs_encode src).0 ++ junk),
              msg.payload_length + 6,
            )))
unfolding calc_max_cobs_msg_length message_to_bytes
message_to_bytes_lem msg buf small h room =
    let src : List ℕ = head msg ++ (chk msg ∷ []) in
    let n : length src ≡ msg.payload_length + 3 = length-packet msg h in
    let enc : (cobs_encode src).1 ≡ msg.payload_length + 4 =
      omega (arith, length-cobs_encode src) in
    let f =
      frame_lem buf (cobs_encode src).0 (u8 (cobs_encode src).1)
        (omega (arith, length-cobs_encode src)) in
    (f.0, ground (arith, packet_lem msg h, enc, f.1))

-- A message with an id of one byte and a payload that fits, in itself, in the block of the target
-- and in the largest payload allowed, serialises into any buffer of the size that
-- `calc_max_cobs_msg_length` asks for, and `parse_message` then reports success and fills in the
-- same id and payload, whatever a fresh block of memory held.
pub parse_message-message_to_bytes :
    (malloc : ℕ → List ℕ)
    → ((n : ℕ) → length (malloc n) ≡ n)
    → (msg target : Message) (buf : List ℕ) → msg.message_id < 256
    → msg.payload_length ≤ max_payload_size
    → msg.payload_length ≤ length msg.payload
    → msg.payload_length ≤ length target.payload
    → calc_max_cobs_msg_length msg ≤ length buf
    → (bytes : List ℕ) × (message_to_bytes msg buf ≡ done (some (bytes, msg.payload_length + 6)))
      × (parse_message malloc bytes target
          ≡ done (
            parsed,
            record {
              message_id = msg.message_id;
              payload =
                  take msg.payload_length msg.payload ++ drop msg.payload_length target.payload;
              payload_length = msg.payload_length;
              max_payload_length = msg.payload_length;
            },
          ))
parse_message-message_to_bytes malloc sizes msg target buf id small own there room =
    let src : List ℕ = head msg ++ (chk msg ∷ []) in
    let w = message_to_bytes_lem msg buf small own room in
    let n : length src ≡ msg.payload_length + 3 = length-packet msg own in
    let m : length (in_use msg) ≡ msg.payload_length =
      omega (arith, length-take msg.payload_length msg.payload) in
    let rest : List ℕ = drop (length src) (malloc (msg.payload_length + 4)) in
    (
      0 ∷ (msg.payload_length + 4) ∷ ((cobs_encode src).0 ++ w.0),
      w.1,
      ground (
        arith,
        parse_message_frame malloc sizes src w.0 (msg.payload_length + 4) target
            (omega (arith, length-cobs_encode src)) (omega arith) (omega arith),
        append_assoc (in_use msg) (chk msg ∷ []) rest,
        m,
        fill_message_lem msg.message_id (chk msg) (in_use msg) rest target (omega arith),
      ),
    )
