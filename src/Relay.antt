-- ===== src/Relay.antt =====
-- `send_message`, `receive_message` and `verify_device` of dev_handler/dev_handler.c.
pub mod Inversion
pub mod Threads
pub mod Ports
pub mod Relayer
mod Tests
use c_runtime.Prelude.{
  ℕ, zero, suc, ◌+◌, ◌-◌, ◌*◌, ◌^◌, List, [], ◌∷◌, Bool, true, false, not, Option, none, some,
}
use c_runtime.Prelude.{
  Outcome, done, fault, ◌>>=◌, read, slice, memcpy, ltb, ◌==◌, if◌then◌else◌, u16,
}
use c_runtime.RuntimeUtil.Types.{DevId}
use c_runtime.RuntimeUtil.FileIo.{ReadResult, got, read_error, WriteResult, readn, writen}
use c_runtime.Message.Types.{Message, max_payload_size}
use c_runtime.Message.MessageId
use c_runtime.Message.Build.{make_empty, make_ping}
use c_runtime.Message.Serial.{
  calc_max_cobs_msg_length, message_to_bytes, parse_message, ParseStatus, parsed,
}

-- The results 0, 1, 2 and 3 of `receive_message`.
pub data ReceiveStatus : Type 0 where
  received broken incorrect_checksum timed_out : ReceiveStatus

abbrev pub is_received : ReceiveStatus → Bool
is_received received = true
is_received _ = false

abbrev pub is_parsed : ParseStatus → Bool
is_parsed parsed = true
is_parsed _ = false

-- The results 0, 1, 2 and -1 of `verify_device`, with what it sets in the relay.
pub data VerifyResult : Type 0 where
  verified : DevId → ℕ → VerifyResult
  ping_failed no_ack options_failed : VerifyResult

-- The eight bytes of `uid`, the lowest first.
abbrev pub u64_of_bytes : List ℕ → ℕ
u64_of_bytes [] = 0
u64_of_bytes (b ∷ bs) = b + 2 ^ 8 * u64_of_bytes bs

-- The device id at the start of the payload of an ACKNOWLEDGEMENT.
unfoldable pub read_dev_id : Message → Outcome DevId
read_dev_id ack = do
  type ← read ack.payload 0
  year ← read ack.payload 1
  uid ← slice ack.payload 2 8
  done (record { type = type; year = year; uid = u64_of_bytes uid })

-- A step that may fault or run out of fuel.
infixl 5 ◌then◌
abbrev pub ◌then◌ {ℓ κ} :
    {A : Type ℓ} {B : Type κ} → Outcome (Option A) → (A → Outcome (Option B)) → Outcome (Option B)
done (some a) then f = f a
done none then f = done none
fault then f = fault

module _ {Fd : Type 0} (malloc : ℕ → List ℕ) (read_call : Fd → ℕ → ReadResult × Fd)
    (write_call : Fd → List ℕ → WriteResult × Fd) where
  -- `true` is the result 0. The result -1 of `message_to_bytes` would make `writen` read 65535
  -- bytes of a shorter buffer.
  pub send_message : ℕ → Fd → Message → Outcome (Option (Bool × Fd))
  send_message fuel fd msg =
      let len = calc_max_cobs_msg_length msg in
      message_to_bytes msg (malloc len) >>= (λ o. elim o [
        | none ↦ fault
        | some (bytes, n) ↦ writen write_call fuel fd bytes (u16 n) then (λ r. elim r.0 [
          | none ↦ done (some (false, r.1))
          | some transferred ↦ done (some (transferred == n, r.1))
        ])
      ])

  -- From the length byte on.
  pub receive_body : ℕ → Fd → Message → Outcome (Option (ReceiveStatus × Message × Fd))
  receive_body fuel fd msg = readn read_call fuel fd (malloc 1) 0 1 then (λ r.
      if not (r.0 == 1)
      then done (some (broken, msg, r.2))
      else read r.1 0 >>= (λ cobs_len.
        if ltb (1 + 1 + max_payload_size + 1 + 1) cobs_len
        then done (some (broken, msg, r.2))
        else if ltb cobs_len (1 + 1 + 1 + 1)
        then done (some (broken, msg, r.2))
        else memcpy (malloc (1 + 1 + cobs_len)) 0 (0 ∷ cobs_len ∷ []) >>= (λ data'.
          readn read_call fuel r.2 data' 2 cobs_len then (λ s.
            if not (s.0 == cobs_len)
            then done (some (broken, msg, s.2))
            else parse_message malloc s.1 msg >>= (λ p.
              done (some ((if is_parsed p.0 then received else incorrect_checksum), p.1, s.2)))))))

  -- The loop of a verified device, which skips bytes until the delimiter.
  pub receive_verified : ℕ → Fd → Message → Outcome (Option (ReceiveStatus × Message × Fd))
  receive_verified zero fd msg = done none
  receive_verified (suc fuel) fd msg = readn read_call fuel fd (0 ∷ []) 0 1 then (λ r.
      elim (r.0 == 0) [
        | true ↦ done (some (broken, msg, r.2))
        | false ↦ read r.1 0 >>= (λ last_byte_read. elim (last_byte_read == 0) [
          | true ↦ receive_body fuel r.2 msg
          | false ↦ receive_verified fuel r.2 msg
        ])
      ])

  -- A `uid` of -1 stands for a device that is not verified: its first byte must come in time
  -- and be the delimiter.
  pub receive_message : ℕ → ℕ → Fd → Message → Outcome (Option (ReceiveStatus × Message × Fd))
  receive_message fuel uid fd msg =
      if uid == 2 ^ 64 - 1
      then (let fd' = (read_call fd 1).1 in
          elim (read_call fd 1).0 [
            | read_error ↦ done (some (timed_out, msg, fd'))
            | got [] ↦ done (some (timed_out, msg, fd'))
            | got (b ∷ bs) ↦
                if b == 0 then receive_body fuel fd' msg else done (some (broken, msg, fd'))
          ])
      else receive_verified fuel fd msg

  -- `set_options` is the change of the options of the serial port, and tells whether it worked.
  pub verify_device :
      (Fd → Bool × Fd)
      → (millis : ℕ) (fuel uid : ℕ) (is_virtual : Bool) → Fd
      → Outcome (Option (VerifyResult × Fd))
  verify_device set_options millis fuel uid is_virtual fd =
      send_message fuel fd (make_ping malloc) then (λ sent.
        if not sent.0
        then done (some (ping_failed, sent.1))
        else receive_message fuel uid sent.1 (make_empty malloc max_payload_size) then (λ r.
          if not (is_received r.0)
          then done (some (no_ack, r.2))
          else if not (r.1.message_id == MessageId.acknowledgement)
          then done (some (no_ack, r.2))
          else (let (ok, fd') = if is_virtual then (true, r.2) else set_options r.2 in
              if not ok
              then done (some (options_failed, fd'))
              else read_dev_id r.1 >>= (λ dev_id. done (some (verified dev_id millis, fd'))))))
