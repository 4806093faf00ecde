-- ===== src/Lowcar/Params.antt =====
-- The methods that a device overrides, and the loops of lowcar/devices/Device/Device.cpp over the
-- bits of a bitmap of parameters.
pub mod Transfer
use c_runtime.Prelude.{ℕ, zero, suc, ◌+◌, ◌-◌, ◌/◌, ◌^◌, Bool, true, false, not, List, [], ◌∷◌}
use c_runtime.Prelude.{
  Outcome, done, fault, ◌>>=◌, read, memcpy, ltb, ◌==◌, if◌then◌else◌, bit_and, length, drop,
  replicate,
}
use c_runtime.Prelude.Bits.{has_bit}
use c_runtime.Message.Types.{bytes_of_u32, u32_of_bytes}
use c_runtime.Lowcar.Types.{
  LowcarMessage, lowcar_max_params, param_bitmap_bytes, lowcar_max_payload_size, id_device_write,
  id_device_data,
}

-- `D` is the state of the class that derives from `Device`, and of the pins it reads and writes.
-- `device_read` gives the bytes that it stores at its pointer, whose number is the size that it
-- returns. `device_write` takes the bytes from its pointer to the end of the payload, and gives
-- the size that it returns. The other three also give the logs that they queue.
pub record Methods (D : Type 0) : Type 0 where
  pub device_read : ℕ → D → Outcome (List ℕ × D)
  pub device_write : ℕ → List ℕ → D → Outcome (ℕ × D)
  pub device_enable : D → List (List ℕ) × D
  pub device_reset : D → List (List ℕ) × D
  pub device_actions : D → List (List ℕ) × D

-- The methods of the class `Device` itself.
unfoldable pub default_methods : {D : Type 0} → Methods D
default_methods = record {
  device_read = λ param own. done ([], own);
  device_write = λ param data_buf own. done (0, own);
  device_enable = λ own. ([], own);
  device_reset = λ own. ([], own);
  device_actions = λ own. ([], own);
}

-- `params & (1 << i)`, where `int` has `w` bits (16 on an AVR board): the sign bit is extended
-- to the 32 bits of `params`, and a shift by more than that is undefined.
unfoldable pub is_subscribed : ℕ → ℕ → ℕ → Outcome Bool
is_subscribed w params i =
    if ltb (suc i) w
    then done (has_bit params i)
    else if suc i == w
    then done (not (bit_and params (2 ^ 32 - 2 ^ i) == 0))
    else fault

-- `w` is the number of bits of an `int` of the board.
module _ (w : ℕ) {D : Type 0} (methods : Methods D) where
  -- The loop from parameter `i` on, with `left` to go before the shift by 32, which is undefined.
  unfoldable pub read_loop : ℕ → ℕ → ℕ → D → LowcarMessage → Outcome (D × LowcarMessage)
  read_loop params zero i own msg = fault
  read_loop params (suc left) i own msg = elim (params / 2 ^ i == 0) [
    | true ↦ done (own, msg)
    | false ↦ is_subscribed w params i >>= (λ on. elim on [
      | true ↦ methods.device_read i own >>= (λ r.
          memcpy msg.payload msg.payload_length r.0 >>= (λ block.
            read_loop params left (i + 1) r.1
              (record msg { payload = block; payload_length = msg.payload_length + length r.0 })))
      | false ↦ read_loop params left (i + 1) own msg
    ])
  ]

  unfoldable pub device_read_params : ℕ → D → Outcome (D × LowcarMessage)
  device_read_params params own =
      memcpy (replicate lowcar_max_payload_size 0) 0 (bytes_of_u32 params) >>= (λ block.
        read_loop params lowcar_max_params 0 own (record {
          message_id = id_device_data;
          payload_length = param_bitmap_bytes;
          payload = block;
        }))

  -- `bytes` is the payload from `payload_ptr` on.
  unfoldable pub write_loop : ℕ → ℕ → ℕ → List ℕ → D → Outcome D
  write_loop params zero i bytes own = fault
  write_loop params (suc left) i bytes own = elim (params / 2 ^ i == 0) [
    | true ↦ done own
    | false ↦ is_subscribed w params i >>= (λ on. elim on [
      | true ↦
          methods.device_write i bytes own
          >>= (λ r. write_loop params left (i + 1) (drop r.0 bytes) r.1)
      | false ↦ write_loop params left (i + 1) bytes own
    ])
  ]

  unfoldable pub device_write_params : LowcarMessage → D → Outcome D
  device_write_params msg own = if not (msg.message_id == id_device_write) then done own else (do
    a ← read msg.payload 0
    b ← read msg.payload 1
    c ← read msg.payload 2
    d ← read msg.payload 3
    write_loop (u32_of_bytes a b c d) lowcar_max_params 0 (drop param_bitmap_bytes msg.payload) own)
