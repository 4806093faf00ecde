-- ===== src/Lowcar/Messenger/Reading.antt =====
-- What the firmware reads of a message that arrives.
use c_runtime.Prelude.{ℕ, zero, suc, ◌+◌, ◌≤◌, ◌<◌, ◌≡◌, refl, ap, ◌∙◌, arith}
use c_runtime.Prelude.{
  List, [], ◌∷◌, ◌++◌, some, done, ◌>>=◌, true, take, drop, length, length-append, length-take, All,
}
use c_runtime.Prelude.Blocks.{memcpy_at, slice_at, read_at, take-append}
use c_runtime.Message.Payload.{xor_all}
use c_runtime.Message.Types.{Message, max_payload_size}
use c_runtime.Message.Cobs
use c_runtime.Message.Cobs.Blocks.{IsNonzero}
use c_runtime.Message.Cobs.Bounds.{cobs_encode-IsNonzero}
use c_runtime.Message.Cobs.RoundTrip.{length-cobs_encode}
use c_runtime.Message.Serial.{calc_max_cobs_msg_length, message_to_bytes}
use c_runtime.Message.Serial.RoundTrip.{head, chk, in_use, length-packet, message_to_bytes_lem}
use c_runtime.Lowcar.Types.{LowcarMessage, Port, success}
use c_runtime.Lowcar.Cobs.RoundTrip.{cobs_decode-cobs_encode}
use c_runtime.Lowcar.Messenger.{
  lowcar_checksum, find_delimiter, check_packet, read_packet, read_message,
}
use c_runtime.Lowcar.Messenger.Ports.{IsPort}
use mathlib.Core.List.{append_assoc}

check_packet_lem :
    {S : Type 0} (port : Port S) (garbage : ℕ → List ℕ) (id chk : ℕ) (payload junk : List ℕ)
    (msg : LowcarMessage)
    → length payload ≤ length msg.payload
    → chk ≡ xor_all id (length payload ∷ payload)
    → check_packet port garbage (id ∷ length payload ∷ (payload ++ (chk ∷ junk))) msg
      ≡ done (
        success,
        record {
          message_id = id;
          payload_length = length payload;
          payload = payload ++ drop (length payload) msg.payload;
        },
      )
unfolding check_packet lowcar_checksum
check_packet_lem port garbage id chk payload junk msg h e = ground (
  arith,
  slice_at [] (id ∷ length payload ∷ payload) (chk ∷ junk) 0 (2 + length payload) refl
      (omega arith),
  read_at (id ∷ length payload ∷ payload) junk chk (2 + length payload) (omega arith),
  slice_at (id ∷ length payload ∷ []) payload (chk ∷ junk) 2 (length payload) refl refl,
  memcpy_at [] msg.payload payload 0 refl h,
)

module _ {S : Type 0} (port : Port S) (pending sent : S → List ℕ) (law : IsPort port pending sent)
    (garbage : ℕ → List ℕ) (sizes : (n : ℕ) → length (garbage n) ≡ n) where
  find_delimiter_lem :
      (fuel : ℕ) (junk rest : List ℕ) (s : S)
      → length junk < fuel
      → All IsNonzero junk
      → pending s ≡ junk ++ (0 ∷ rest)
      → (s' : S) × (find_delimiter port garbage fuel s ≡ some (true, s')) × (pending s' ≡ rest)
  unfolding find_delimiter
  find_delimiter_lem zero junk rest s f nz e = absurd (omega arith)
  find_delimiter_lem (suc fuel) [] rest s f nz e =
      let r = law.read_byte_lem s 0 rest e in
      ((port.read_byte s).1, ground (arith, law.available_lem s, ap length e, r.0), r.1)
  find_delimiter_lem (suc fuel) (b ∷ junk) rest s f nz e =
      let r = law.read_byte_lem s b (junk ++ (0 ∷ rest)) e in
      let more = find_delimiter_lem fuel junk rest (port.read_byte s).1 (omega arith) nz.1 r.1 in
      (more.0, ground (arith, law.available_lem s, ap length e, r.0, nz.0, more.1), more.2)

  read_packet_lem :
      (src rest : List ℕ) (msg : LowcarMessage) (s : S)
      → length src ≤ 135
      → pending s ≡ length (Cobs.cobs_encode src).0 ∷ ((Cobs.cobs_encode src).0 ++ rest)
      → (s' : S) × (read_packet port garbage msg s
          ≡ check_packet port garbage
              (src ++ drop (length src) (garbage (length (Cobs.cobs_encode src).0)))
              msg
            >>= (λ t. done (t.0, t.1, s')))
        × (pending s' ≡ rest)
  unfolding read_packet
  read_packet_lem src rest msg s h e =
      let enc = (Cobs.cobs_encode src).0 in
      let n = length enc in
      let r = law.read_byte_lem s n (enc ++ rest) e in
      let u =
        law.read_bytes_until_lem (port.read_byte s).1 enc rest r.1 (cobs_encode-IsNonzero src) in
      let fits =
        memcpy_at [] (garbage n) src 0 refl (omega (arith, sizes n, length-cobs_encode src)) in
      (
        (port.read_bytes_until (port.read_byte s).1 0 n).1,
        ground (arith, r.0, u.0, cobs_decode-cobs_encode src, fits),
        u.1,
      )

  -- A packet in its wire form, with other bytes before and after it.
  pub read_message_frame :
      (fuel : ℕ) (src junk more : List ℕ) (target : LowcarMessage) (s : S)
      → length junk < fuel
      → All IsNonzero junk
      → length src ≤ 135
      → pending s
        ≡ junk ++ (0 ∷ length (Cobs.cobs_encode src).0 ∷ ((Cobs.cobs_encode src).0 ++ more))
      → (s' : S) × (read_message port garbage fuel target s
          ≡ check_packet port garbage
              (src ++ drop (length src) (garbage (length (Cobs.cobs_encode src).0)))
              target
            >>= (λ t. done (some (t.0, t.1, s'))))
        × (pending s' ≡ more)
  unfolding read_message
  read_message_frame fuel src junk more target s f nz small e =
      let enc = (Cobs.cobs_encode src).0 in
      let d = find_delimiter_lem fuel junk (length enc ∷ (enc ++ more)) s f nz e in
      let r = read_packet_lem src more target d.0 small d.2 in
      (
        r.0,
        ground (
          arith,
          law.available_lem s,
          ap length e,
          length-append junk (0 ∷ length enc ∷ (enc ++ more)),
          law.available_lem d.0,
          ap length d.2,
          law.peek_lem d.0 (length enc) (enc ++ more) d.2,
          length-cobs_encode src,
          d.1,
          r.1,
        ),
        r.2,
      )

  -- The firmware reads what dev_handler sends: for a message with an id of one byte and a payload
  -- that fits its own block, the largest payload and the target, once `message_to_bytes` has given
  -- `n` bytes for it, and those arrive on the port behind any bytes other than the delimiter,
  -- `read_message` succeeds, with the same id and payload, and leaves what came after. The fuel is
  -- above the number of bytes before the delimiter.
  pub read_message-message_to_bytes :
      (fuel : ℕ) (msg : Message) (buf bytes : List ℕ) (n : ℕ) (junk more : List ℕ)
      (target : LowcarMessage) (s : S)
      → message_to_bytes msg buf ≡ done (some (bytes, n))
      → calc_max_cobs_msg_length msg ≤ length buf
      → msg.message_id < 256
      → msg.payload_length ≤ max_payload_size
      → msg.payload_length ≤ length msg.payload
      → msg.payload_length ≤ length target.payload
      → length junk < fuel
      → All IsNonzero junk
      → pending s ≡ junk ++ (take n bytes ++ more)
      → (s' : S) × (read_message port garbage fuel target s
          ≡ done (
              some (
                success,
                record {
                  message_id = msg.message_id;
                  payload_length = msg.payload_length;
                  payload =
                      take msg.payload_length msg.payload ++ drop msg.payload_length target.payload;
                },
                s',
              )))
        × (pending s' ≡ more)
  read_message-message_to_bytes fuel msg buf bytes n junk more target s w room id small own there f
        nz e =
      let src : List ℕ = head msg ++ (chk msg ∷ []) in
      let enc = (Cobs.cobs_encode src).0 in
      let len : length src ≡ msg.payload_length + 3 = length-packet msg own in
      let size : length enc ≡ msg.payload_length + 4 = omega (arith, len, length-cobs_encode src) in
      let m : length (in_use msg) ≡ msg.payload_length =
        omega (arith, length-take msg.payload_length msg.payload) in
      let lem = message_to_bytes_lem msg buf small own room in
      let bytes_eq : bytes ≡ 0 ∷ (msg.payload_length + 4) ∷ (enc ++ lem.0) =
        ground (arith, w, lem.1) in
      let n_eq : n ≡ suc (suc (length enc)) = ground (arith, w, lem.1, size) in
      let wire : take n bytes ≡ 0 ∷ length enc ∷ enc =
        rw (bytes_eq, n_eq) (ground (arith, take-append enc lem.0, size)) in
      let r =
        read_message_frame fuel src junk more target s f nz (omega (arith, len)) (e ∙ rw wire) in
      let rest : List ℕ = drop (length src) (garbage (length enc)) in
      (
        r.0,
        ground (
          arith,
          r.1,
          append_assoc (in_use msg) (chk msg ∷ []) rest,
          m,
          check_packet_lem port garbage msg.message_id (chk msg) (in_use msg) rest target
              (omega arith),
        ),
        r.2,
      )
