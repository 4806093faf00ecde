-- ===== src/Lowcar/Params/Transfer/DeviceData.antt =====
-- A DEVICE_DATA from the firmware to the values that dev_handler keeps.
use c_runtime.Prelude.{
  ℕ, ◌^◌, ◌≤◌, ◌<◌, ◌≡◌, refl, arith, List, ◌++◌, none, some, done, true, length, drop,
}
use c_runtime.Prelude.Bits.{has_bit}
use c_runtime.RuntimeUtil.Types.{Device, ParamVal, max_params}
use c_runtime.RuntimeUtil.Devices.{param_at}
use c_runtime.RuntimeUtil.Lookup.{get_device}
use c_runtime.Message.Types.{Message, max_payload_size, bytes_of_u32}
use c_runtime.Message.Build.{value_bytes}
use c_runtime.Message.Build.Write.{encoded}
use c_runtime.Message.Serial.{parse_message, parsed, parse_device_data}
use c_runtime.Message.Serial.DeviceData.{parse_device_data_lem, Received}
use c_runtime.Lowcar.Types.{LowcarMessage, Port, success, id_device_data}
use c_runtime.Lowcar.Messenger.{cleared, send_message}
use c_runtime.Lowcar.Messenger.Ports.{IsPort}
use c_runtime.Lowcar.Messenger.Sending.{parse_message-send_message}
use c_runtime.Lowcar.Params.{Methods, device_read_params}
use c_runtime.Lowcar.Params.Transfer.{length-encoded_bound}
use c_runtime.Lowcar.Params.Transfer.Reading.{device_data_bytes, device_read_params_lem}
use mathlib.Core.List.{append_assoc}

module _ {S : Type 0} (port : Port S) (pending sent : S → List ℕ) (law : IsPort port pending sent)
    (garbage malloc : ℕ → List ℕ) (sizes : (n : ℕ) → length (garbage n) ≡ n)
    (sizes' : (n : ℕ) → length (malloc n) ≡ n) (w : ℕ) {D : Type 0} (methods : Methods D)
    (fits : w ≤ 32) where
  -- For a device whose `device_read` gives the bytes of a 32-bit word for each parameter
  -- subscribed, in the type that the table of the runtime has for it, and a bitmap that fits the
  -- `int` of the board and leaves the highest bit off: `device_read_params` gives a message,
  -- which is sent, and of the bytes written `parse_message` and `parse_device_data` of
  -- dev_handler make an array that holds those words for the parameters of the bitmap (a Boolean
  -- in the lowest byte of its union) and is unchanged elsewhere.
  pub parse_device_data-device_read_params :
      (dev_type p : ℕ) (dev : Device) (values vals : ℕ → ParamVal) (own : D) (more : List ℕ)
      (target : Message) (s : S)
      → get_device dev_type ≡ some dev
      → p < 2 ^ w
      → p < 2 ^ 31
      → ((j : ℕ) → values j < 2 ^ 32)
      → ((i : ℕ)
          → i < 32
          → has_bit p i ≡ true
          → methods.device_read i own ≡ done (value_bytes (param_at dev i).type (values i), own))
      → length target.payload ≡ max_payload_size
      → (msg : LowcarMessage) × (bytes : List ℕ) × (s' : S) × (msg' : Message) × (result : ℕ
          → ParamVal)
        × (device_read_params w methods p own ≡ done (own, msg))
        × (send_message port garbage id_device_data msg none s ≡ done (success, cleared, s'))
        × (sent s' ≡ sent s ++ bytes)
        × (parse_message malloc (bytes ++ more) target ≡ done (parsed, msg'))
        × (parse_device_data dev_type msg' vals ≡ done result)
        × Received dev values p vals result
  parse_device_data-device_read_params dev_type p dev values vals own more target s e small low
        words reads room =
      let payload : List ℕ = device_data_bytes w methods dev values p own fits small low reads in
      let bound : length payload ≤ 132 = omega (arith, length-encoded_bound dev values p 32 0) in
      let made = device_read_params_lem w methods dev values p own fits small low reads in
      let msg : LowcarMessage = record {
        message_id = id_device_data;
        payload_length = length payload;
        payload = payload ++ made.0;
      } in
      let r =
        parse_message-send_message port pending sent law garbage sizes malloc sizes' id_device_data
          payload made.0 more msg none target s (omega arith) (ground arith) (omega arith)
          (omega arith) refl refl in
      let rest : List ℕ = drop (length payload) target.payload in
      let msg' : Message = record {
        message_id = id_device_data;
        payload = payload ++ rest;
        payload_length = length payload;
        max_payload_length = length payload;
      } in
      let q =
        parse_device_data_lem dev_type p dev values vals msg' rest e (omega arith) words
          (append_assoc (bytes_of_u32 p) (encoded dev values p max_params 0) rest) in
      (msg, r.0, r.1, msg', q.0, made.1, r.2, r.3, r.4, q.1, q.2)
