-- ===== src/NetHandler/UdpConn.antt =====
-- Device data and user inputs over UDP, of net_handler/udp_conn.c. The socket and the protobuf code
-- are parameters: a round of `send_device_data` gives the message that it packs.
pub mod Reports
pub mod Inputs
use c_runtime.Prelude.{
  ℕ, zero, suc, ◌+◌, ◌-◌, ◌*◌, ◌%◌, ◌^◌, Bool, true, false, not, ◌&&◌, ◌||◌, List, [], ◌∷◌, ◌++◌,
  Option, none, some,
}
use c_runtime.Prelude.{Outcome, done, fault, ◌>>=◌, ◌==◌, ltb, if◌then◌else◌, length, get_or, set}
use c_runtime.Prelude.Bits.{has_bit}
use c_runtime.RuntimeUtil.Types.{
  DevId, Device, ParamDesc, ParamType, ParamVal, Process, RobotDescField, max_devices, uchar_max,
  dawn, gamepad, keyboard, connected, disconnected,
}
use c_runtime.RuntimeUtil.Devices.{param_at}
use c_runtime.RuntimeUtil.Lookup.{get_device}
use c_runtime.Shm.Types.{Shm, LogData, data_stream}
use c_runtime.Shm.Devices.{get_catalog, get_device_identifiers}
use c_runtime.Shm.Params.{device_read_uid}
use c_runtime.Shm.Subscriptions.{get_sub_requests}
use c_runtime.Shm.LogData.{log_data_read}
use c_runtime.Shm.Inputs.{
  robot_desc_read, robot_desc_write, input_write, is_disconnected, is_gamepad,
}
use c_runtime.NetHandler.Protocol.{
  Val, ival, fval, bval, Name, literal, bytes, Param, NetDevice, Source, source_gamepad, UserInput,
  Protobuf,
}

-- The places of the catalog, from `i` on.
unfoldable pub valid_dev_idxs : ℕ → ℕ → ℕ → List ℕ
valid_dev_idxs zero i catalog = []
valid_dev_idxs (suc left) i catalog =
    let rest = valid_dev_idxs left (i + 1) catalog in if has_bit catalog i then i ∷ rest else rest

-- The switch on the type; a Boolean is the lowest byte.
abbrev pub val_of : ParamType → ParamVal → Val
val_of ParamType.int v = ival v
val_of ParamType.float v = fval v
val_of ParamType.bool v = bval (v % 2 ^ 8)

abbrev pub device_param : ParamDesc → ParamVal → Param
device_param desc v = record {
  name = literal desc.name;
  val = val_of desc.type v;
  readonly = if desc.write == 0 then 1 else 0;
}

-- The loop over the parameters of a device, from `j` on.
unfoldable pub device_params : ℕ → ℕ → ℕ → Device → (ℕ → ParamVal) → List Param
device_params zero j mask device_info param_data = []
device_params (suc left) j mask device_info param_data =
    let rest = device_params left (j + 1) mask device_info param_data in
    if has_bit mask j then device_param (param_at device_info j) (param_data j) ∷ rest else rest

-- The array after a read, which leaves it as it is where it fails.
abbrev pub read_data : Option (ℕ → ParamVal) → (ℕ → ParamVal) → ℕ → ParamVal
read_data none param_data = param_data
read_data (some found) param_data = found

-- One device; `junk` is what the array on the stack holds before the read.
unfoldable pub report_device : Device → DevId → ℕ → (ℕ → ParamVal) → Shm → Shm × NetDevice
report_device device_info dev_id mask junk m =
    let (m1, found) = device_read_uid dev_id.uid Process.net_handler data_stream mask junk m in
    (
      m1,
      record {
        name = device_info.name;
        type = dev_id.type;
        uid = dev_id.uid;
        params = device_params device_info.num_params 0 mask device_info (read_data found junk);
      },
    )

-- The loop over the places; a device of a type without a table is only logged.
unfoldable pub report_devices :
    List ℕ → (ℕ → DevId) → (ℕ → ℕ) → (ℕ → ParamVal) → Shm → Shm × List NetDevice
report_devices [] dev_ids sub_map junk m = (m, [])
report_devices (idx ∷ idxs) dev_ids sub_map junk m = elim (get_device (dev_ids idx).type) [
  | none ↦ report_devices idxs dev_ids sub_map junk m
  | some device_info ↦
      let (m1, device) = report_device device_info (dev_ids idx) (sub_map (idx + 1)) junk m in
      let (m2, devices) = report_devices idxs dev_ids sub_map junk m1 in (m2, device ∷ devices)
]

-- The loop over the entries of the log data, one more than there are; the arrays have 255.
unfoldable pub custom_params : ℕ → ℕ → LogData → Outcome (List Param)
custom_params zero i l = done []
custom_params (suc left) i l =
    if ltb i uchar_max
    then custom_params left (i + 1) l >>= (λ rest. done (
        record { name = bytes (l.names i); val = val_of (l.types i) (l.params i); readonly = 0 }
        ∷ rest))
    else fault

-- `time` is the number of milliseconds since the start, as the 32 bits of an int.
abbrev pub time_param : ℕ → Param
time_param time = record { name = literal "time_ms"; val = ival time; readonly = 1 }

unfoldable pub custom_device : ℕ → LogData → Outcome NetDevice
custom_device time l = custom_params (l.num_params + 1) 0 l >>= (λ params. done (record {
  name = "CustomData";
  type = max_devices;
  uid = 2020;
  params = set params l.num_params (time_param time);
}))

-- The message, from the copies that are taken at the start of a round. `stale` is what the arrays
-- for the log data hold from before.
unfoldable pub report_all :
    ℕ → (ℕ → DevId) → (ℕ → ℕ) → (ℕ → ParamVal) → LogData → ℕ → Shm → Outcome (Shm × List NetDevice)
report_all catalog dev_ids sub_map junk stale time m =
    let (m1, devices) =
      report_devices (valid_dev_idxs max_devices 0 catalog) dev_ids sub_map junk m in
    let (m2, l) = log_data_read stale m1 in
    custom_device time l >>= (λ custom. done (m2, devices ++ (custom ∷ [])))

-- One round of `send_device_data`: `none` when Dawn is not connected.
unfoldable pub send_round :
    (ℕ → ℕ)
    → (ℕ → ParamVal)
    → LogData
    → (now start_time : ℕ) → Shm
    → Outcome (Shm × Option (List NetDevice))
send_round sub_map junk stale now start_time m =
    let (m1, val) = robot_desc_read dawn m in
    if is_disconnected val
    then done (m1, none)
    else (let (m2, catalog) = get_catalog m1 in
        let (m3, sub_map') = get_sub_requests Process.net_handler sub_map m2 in
        let (m4, dev_ids) = get_device_identifiers m3 in
        report_all catalog dev_ids sub_map' junk stale ((now + 2 ^ 64 - start_time) % 2 ^ 32) m4
        >>= (λ r. done (r.0, some r.1)))

-- Any source but the gamepad is taken for the keyboard.
abbrev pub source_field : Source → RobotDescField
source_field source_gamepad = gamepad
source_field _ = keyboard

-- One input of a message.
unfoldable pub update_input : UserInput → Shm → Shm
update_input input m =
    let source = source_field input.source in
    if input.connected == 0
    then robot_desc_write source disconnected m
    else (let m1 = robot_desc_write source connected m in
        if is_gamepad source && not (length input.axes == 4)
        then m1
        else (input_write input.buttons (λ i. get_or input.axes i 0) source m1).0)

unfoldable pub update_all : List UserInput → Shm → Shm
update_all [] m = m
update_all (input ∷ inputs) m = update_all inputs (update_input input m)

-- One round of `update_inputs`; `received` is what `recvfrom` gives, `none` for -1.
unfoldable pub inputs_round : Protobuf → Option (List ℕ) → Shm → Shm
inputs_round protobuf none m = m
inputs_round protobuf (some buffer) m = elim (protobuf.user_inputs_unpack buffer) [
  | none ↦ m
  | some inputs ↦ update_all inputs m
]
