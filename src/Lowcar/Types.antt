-- ===== src/Lowcar/Types.antt =====
-- The types of lowcar/devices/Device/defs.h, and the serial port.
use c_runtime.Prelude.{ℕ, List, ◌+◌, ◌*◌, ◌/◌}

-- `MAX_PARAMS`, `PARAM_BITMAP_BYTES` and `MAX_PAYLOAD_SIZE`.
abbrev pub lowcar_max_params : ℕ
lowcar_max_params = 32

abbrev pub param_bitmap_bytes : ℕ
param_bitmap_bytes = lowcar_max_params / 8

abbrev pub lowcar_max_payload_size : ℕ
lowcar_max_payload_size = param_bitmap_bytes + lowcar_max_params * 4

-- The numbers of the enum `MessageID`.
abbrev pub id_nop : ℕ
id_nop = 0

abbrev pub id_device_ping : ℕ
id_device_ping = 1

abbrev pub id_acknowledgement : ℕ
id_acknowledgement = 2

abbrev pub id_subscription_request : ℕ
id_subscription_request = 3

abbrev pub id_device_write : ℕ
id_device_write = 4

abbrev pub id_device_data : ℕ
id_device_data = 5

abbrev pub id_log : ℕ
id_log = 6

pub data Status : Type 0 where
  success process_error malformed_data no_data : Status

-- `payload` is an array of `MAX_PAYLOAD_SIZE` bytes.
pub record LowcarMessage : Type 0 where
  pub message_id : ℕ
  pub payload_length : ℕ
  pub payload : List ℕ

-- The calls of `Serial` that the firmware makes, on a state of what the port stands for.
pub record Port (S : Type 0) : Type 0 where
  pub available : S → ℕ
  pub read_byte : S → ℕ × S
  pub peek : S → ℕ
  pub read_bytes_until : S → ℕ → ℕ → List ℕ × S
  pub write_bytes : S → List ℕ → ℕ × S
