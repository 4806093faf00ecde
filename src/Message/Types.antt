-- ===== src/Message/Types.antt =====
-- The message struct and the sizes of dev_handler/message.h, and words as little-endian bytes.
use c_runtime.Prelude.{ℕ, ◌+◌, ◌*◌, ◌/◌, ◌%◌, List, [], ◌∷◌}
use c_runtime.RuntimeUtil.Types.{ParamType, max_params}

-- `payload` is the whole allocated block; the first `payload_length` bytes of it are in use.
pub record Message : Type 0 where
  pub message_id : ℕ
  pub payload : List ℕ
  pub payload_length : ℕ
  pub max_payload_length : ℕ

abbrev pub timeout : ℕ
timeout = 1000

abbrev pub ping_freq : ℕ
ping_freq = 250

abbrev pub delimiter_size : ℕ
delimiter_size = 1

abbrev pub cobs_length_size : ℕ
cobs_length_size = 1

abbrev pub message_id_size : ℕ
message_id_size = 1

abbrev pub payload_length_size : ℕ
payload_length_size = 1

abbrev pub bitmap_size : ℕ
bitmap_size = max_params / 8

abbrev pub interval_size : ℕ
interval_size = 2

abbrev pub checksum_size : ℕ
checksum_size = 1

abbrev pub max_payload_size : ℕ
max_payload_size = bitmap_size + max_params * 4

-- `sizeof` of the member of `param_val_t` that a type selects.
abbrev pub type_size : ParamType → ℕ
type_size ParamType.int = 4
type_size ParamType.float = 4
type_size ParamType.bool = 1

-- The bytes of a `uint16_t` and of a `uint32_t` in memory, lowest first.
abbrev pub bytes_of_u16 : ℕ → List ℕ
bytes_of_u16 w = w % 256 ∷ w / 256 % 256 ∷ []

abbrev pub bytes_of_u32 : ℕ → List ℕ
bytes_of_u32 w = w % 256 ∷ w / 256 % 256 ∷ w / 65536 % 256 ∷ w / 16777216 % 256 ∷ []

abbrev pub u32_of_bytes : ℕ → ℕ → ℕ → ℕ → ℕ
u32_of_bytes a b c d = a + 256 * b + 65536 * c + 16777216 * d
