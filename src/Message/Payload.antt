-- ===== src/Message/Payload.antt =====
-- Appending to a payload, its size for a DEVICE_WRITE, and the checksum, of dev_handler/message.c.
pub mod Checksum
use c_runtime.Prelude.{ℕ, zero, suc, ◌+◌, ◌/◌, ◌^◌, Bool, true, false, List, [], ◌∷◌, ◌++◌}
use c_runtime.Prelude.{
  Outcome, done, fault, ◌>>=◌, from_option, memcpy, ltb, ◌==◌, if◌then◌else◌, length, get_elem?,
}
use c_runtime.Prelude.{bit_xor}
use c_runtime.Prelude.Bits.{has_bit}
use c_runtime.RuntimeUtil.Types.{Device, max_params}
use c_runtime.RuntimeUtil.Devices.{param_at}
use c_runtime.Message.Types.{Message, bitmap_size, type_size}

-- The bytes are copied first and the length is tested after. The status is `true` for 0 and
-- `false` for -1; `fault` is a copy past the end of the allocated block.
unfoldable pub append_payload : Message → List ℕ → Outcome (Bool × Message)
append_payload msg bytes = do
  block ← memcpy msg.payload msg.payload_length bytes
  let n = msg.payload_length + length bytes
  done (
    if ltb msg.max_payload_length n then false else true,
    record msg { payload = block; payload_length = n },
  )

-- The loop from parameter `i` on, with `left` parameters to go.
unfoldable pub payload_size_loop : Device → ℕ → ℕ → ℕ → ℕ
payload_size_loop dev pmap zero i = 0
payload_size_loop dev pmap (suc left) i =
    let rest = payload_size_loop dev pmap left (i + 1) in
    if pmap / 2 ^ i == 0
    then 0
    else if has_bit pmap i
    then type_size (param_at dev i).type + rest
    else rest

unfoldable pub device_write_payload_size : Device → ℕ → ℕ
device_write_payload_size dev pmap = bitmap_size + payload_size_loop dev pmap max_params 0

-- The loop of `checksum` over the bytes after the first.
unfoldable pub xor_all : ℕ → List ℕ → ℕ
xor_all chk [] = chk
xor_all chk (b ∷ bytes) = xor_all (bit_xor chk b) bytes

-- The checksum of the bytes given; the caller takes the first `len` of its array.
unfoldable pub checksum : List ℕ → Outcome ℕ
checksum [] = fault
checksum (b ∷ bytes) = done (xor_all b bytes)
