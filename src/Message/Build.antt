-- ===== src/Message/Build.antt =====
-- The message constructors of dev_handler/message.c.
-- `malloc n` stands for the contents of the block of `n` bytes that the allocator returns; a
-- failing allocation ends the process and is not modelled. The result `none` is NULL.
pub mod Masks
pub mod Write
use c_runtime.Prelude.{
  ℕ, zero, suc, ◌+◌, ◌-◌, ◌/◌, ◌%◌, ◌^◌, Bool, true, false, ◌&&◌, List, [], ◌∷◌,
}
use c_runtime.Prelude.{Option, none, some, Outcome, done, fault, ◌>>=◌, from_option}
use c_runtime.Prelude.{◌==◌, if◌then◌else◌, bit_and, not32, length}
use c_runtime.Prelude.Bits.{has_bit}
use c_runtime.RuntimeUtil.Types.{Device, ParamType, ParamVal, max_params}
use c_runtime.RuntimeUtil.Devices.{param_at}
use c_runtime.RuntimeUtil.Lookup.{get_device}
use c_runtime.Message.Types.{Message, bitmap_size, interval_size, bytes_of_u16, bytes_of_u32}
use c_runtime.Message.MessageId
use c_runtime.Message.Payload.{append_payload, device_write_payload_size}

-- Turn off the bits of parameters that the device does not have.
unfoldable pub existing_params : Device → ℕ → ℕ
existing_params dev pmap = bit_and pmap ((2 ^ 32 - 1) / 2 ^ (max_params - dev.num_params))

-- Turn off the bits of parameters that cannot be read.
unfoldable pub readable_params : Device → ℕ → ℕ → ℕ → ℕ
readable_params dev zero i pmap = pmap
readable_params dev (suc left) i pmap =
    readable_params dev left (i + 1)
      (if (param_at dev i).read == 0 then bit_and pmap (not32 (2 ^ i)) else pmap)

-- Turn off the bits of parameters that cannot be written; the loop ends with the last bit.
unfoldable pub writeable_params : Device → ℕ → ℕ → ℕ → ℕ
writeable_params dev zero i pmap = pmap
writeable_params dev (suc left) i pmap =
    let rest =
      writeable_params dev left (i + 1)
        (if (param_at dev i).write == 0 then bit_and pmap (not32 (2 ^ i)) else pmap) in
    if pmap / 2 ^ i == 0 then pmap else rest

-- The bytes that are appended for a value.
abbrev pub value_bytes : ParamType → ParamVal → List ℕ
value_bytes ParamType.int v = bytes_of_u32 v
value_bytes ParamType.float v = bytes_of_u32 v
value_bytes ParamType.bool v = v % 256 ∷ []

-- The loop of `make_device_write` over the values; the Boolean is `status == 0` so far.
pub append_values : Device → (ℕ → ParamVal) → ℕ → ℕ → ℕ → Bool → Message → Outcome (Bool × Message)
append_values dev values pmap zero i status msg = done (status, msg)
append_values dev values pmap (suc left) i status msg =
    let skip = append_values dev values pmap left (i + 1) status msg in
    if pmap / 2 ^ i == 0
    then done (status, msg)
    else if has_bit pmap i
    then append_payload msg (value_bytes (param_at dev i).type (values i))
      >>= (λ r. append_values dev values pmap left (i + 1) (status && r.0) r.1)
    else skip

module _ (malloc : ℕ → List ℕ) where
  pub make_empty : ℕ → Message
  make_empty payload_size = record {
    message_id = MessageId.nop;
    payload = malloc payload_size;
    payload_length = 0;
    max_payload_length = payload_size;
  }

  unfoldable pub make_ping : Message
  make_ping = record {
    message_id = MessageId.device_ping;
    payload = [];
    payload_length = 0;
    max_payload_length = 0;
  }

  pub make_subscription_request : ℕ → ℕ → ℕ → Outcome (Option Message)
  make_subscription_request dev_type pmap interval = do
    dev ← from_option (get_device dev_type)
    let pmap' = readable_params dev max_params 0 (existing_params dev pmap)
    let sub_request : Message = record {
      message_id = MessageId.subscription_request;
      payload = malloc (bitmap_size + interval_size);
      payload_length = 0;
      max_payload_length = bitmap_size + interval_size;
    }
    r ← append_payload sub_request (bytes_of_u32 pmap')
    s ← append_payload r.1 (bytes_of_u16 interval)
    done (if r.0 && s.0 then some s.1 else none)

  pub make_device_write : ℕ → ℕ → (ℕ → ParamVal) → Outcome (Option Message)
  make_device_write dev_type pmap values = do
    dev ← from_option (get_device dev_type)
    let pmap' = writeable_params dev max_params 0 (existing_params dev pmap)
    let size = device_write_payload_size dev pmap'
    let dev_write : Message = record {
      message_id = MessageId.device_write;
      payload = malloc size;
      payload_length = 0;
      max_payload_length = size;
    }
    r ← append_payload dev_write (bytes_of_u32 pmap')
    s ← append_values dev values pmap' max_params 0 r.0 r.1
    done (if s.0 then some s.1 else none)
