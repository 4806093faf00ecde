-- ===== src/NetUtil.antt =====
-- The framing of messages over TCP: net_handler/net_util.c, and the two relays of
-- net_handler/udp_tcp_converter.c.
pub mod Frames
mod Tests
use c_runtime.Prelude.{ℕ, ◌+◌, ◌-◌, ◌*◌, ◌^◌, List, ◌∷◌, Option, none, some}
use c_runtime.Prelude.{
  Outcome, done, ◌>>=◌, read, memcpy, slice, ◌==◌, if◌then◌else◌, u8, u16, length,
}
use c_runtime.RuntimeUtil.FileIo.{ReadResult, WriteResult, readn, writen}
use c_runtime.Message.Types.{bytes_of_u16}
use c_runtime.Relay.{◌then◌}

-- `DEVICE_DATA_MSG` of `net_msg_t`, and `BUFFER_OFFSET`.
abbrev pub device_data_msg : ℕ
device_data_msg = 4

abbrev pub buffer_offset : ℕ
buffer_offset = 3

-- The buffer of `len_pb + 3` bytes, with its first three filled in.
unfoldable pub make_buf : (ℕ → List ℕ) → (msg_type len_pb : ℕ) → Outcome (List ℕ)
make_buf malloc msg_type len_pb = memcpy (malloc (len_pb + 3)) 0 (u8 msg_type ∷ bytes_of_u16 len_pb)

-- The results of `parse_msg`: at the end of the file 0, which the last read does not report, and
-- 1 with the type and the bytes.
pub data MsgResult : Type 0 where
  end_of_file : MsgResult
  message : (msg_type len_pb : ℕ) → List ℕ → MsgResult

pub data RelayResult : Type 0 where
  relayed too_long no_message not_sent disconnected_client : RelayResult

module _ {Fd : Type 0} (malloc : ℕ → List ℕ) (read_call : Fd → ℕ → ReadResult × Fd)
    (write_call : Fd → List ℕ → WriteResult × Fd) where
  unfoldable pub parse_msg : ℕ → Fd → Outcome (Option (MsgResult × Fd))
  parse_msg fuel fd = readn read_call fuel fd (malloc 1) 0 1 then (λ r.
      if r.0 == 0
      then done (some (end_of_file, r.2))
      else readn read_call fuel r.2 (malloc 2) 0 2 then (λ s.
        if s.0 == 0
        then done (some (end_of_file, s.2))
        else read r.1 0 >>= (λ type. read s.1 0 >>= (λ low. read s.1 1 >>= (λ high.
          let len_pb = low + 2 ^ 8 * high in
          readn read_call fuel s.2 (malloc len_pb) 0 len_pb
          then (λ t. done (some (message type len_pb t.1, t.2))))))))

  -- `recv_call` gives the bytes of one packet, cut off at the given length, or `none` for -1;
  -- `buffer` is the stack array of 1024 bytes, and 3 bytes are kept for the header.
  unfoldable pub udp_to_tcp :
      {Udp : Type 0}
      → (Udp → ℕ → Option (List ℕ) × Udp)
      → (fuel : ℕ) → List ℕ
      → Udp
      → Fd
      → Outcome (Option (RelayResult × Udp × Fd))
  udp_to_tcp recv_call fuel buffer udp tcp =
      let udp' = (recv_call udp (1024 - buffer_offset)).1 in
      elim (recv_call udp (1024 - buffer_offset)).0 [
        | none ↦ done (some (no_message, udp', tcp))
        | some bytes ↦ memcpy buffer buffer_offset bytes >>= (λ buf.
            if length bytes == 1024 - buffer_offset
            then done (some (too_long, udp', tcp))
            else memcpy buf 0 (u8 device_data_msg ∷ bytes_of_u16 (length bytes)) >>= (λ buf'.
              writen write_call fuel tcp buf' (u16 (length bytes + buffer_offset)) then (λ r.
                elim r.0 [
                  | none ↦ done (some (not_sent, udp', r.1))
                  | some n ↦ done (some (relayed, udp', r.1))
                ])))
      ]

  -- `send_call` gives the number of bytes sent, or `none` for -1.
  unfoldable pub tcp_to_udp :
      {Udp : Type 0}
      → (Udp → List ℕ → Option ℕ × Udp)
      → ℕ
      → Udp
      → Fd
      → Outcome (Option (RelayResult × Udp × Fd))
  tcp_to_udp send_call fuel udp tcp = parse_msg fuel tcp then (λ r. elim r.0 [
    | end_of_file ↦ done (some (disconnected_client, udp, r.1))
    | message msg_type len_pb buf ↦ slice buf 0 len_pb >>= (λ bytes.
        let udp' = (send_call udp bytes).1 in
        elim (send_call udp bytes).0 [
          | none ↦ done (some (not_sent, udp', r.1))
          | some sent ↦
              if sent == len_pb
              then done (some (relayed, udp', r.1))
              else done (some (not_sent, udp', r.1))
        ])
  ])
