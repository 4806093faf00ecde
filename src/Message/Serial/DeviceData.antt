-- ===== src/Message/Serial/DeviceData.antt =====
-- `parse_device_data` reads back the values of a payload.
use c_runtime.Prelude.{ℕ, zero, suc, ◌+◌, ◌*◌, ◌/◌, ◌%◌, ◌^◌, ◌<◌, ◌≡◌, refl, arith}
use c_runtime.Prelude.{◌&&◌, List, [], ◌++◌, some, done}
use c_runtime.Prelude.{ltb, leb, ◌==◌, if◌then◌else◌, length, update, Bool-cases, inl, inr}
use c_runtime.Prelude.Bits.{has_bit, has_bit_high}
use c_runtime.RuntimeUtil.Types.{Device, ParamType, ParamVal, max_params}
use c_runtime.RuntimeUtil.Devices.{param_at}
use c_runtime.RuntimeUtil.Lookup.{get_device}
use c_runtime.RuntimeUtil.Lookup.Tables.{get_device-IsDevice}
use c_runtime.Message.Types.{Message, bytes_of_u32, u32_of_bytes}
use c_runtime.Message.MessageId
use c_runtime.Message.Build.{value_bytes, make_device_write}
use c_runtime.Message.Build.Masks.{existing_params-lt, writeable_params-lt}
use c_runtime.Message.Build.Write.{
  encoded, holding, is_written, has_bit-written_params, written_params, make_device_write_lem,
}
use c_runtime.Message.Serial.{read_value, read_values, payload_bitmap, parse_device_data}
use mathlib.Core.List.{append_assoc}

-- What a union holds after its member is written: a byte is written over the lowest of four.
abbrev pub stored : ParamType → ParamVal → ParamVal → ParamVal
stored ParamType.int old v = v
stored ParamType.float old v = v
stored ParamType.bool old v = old / 256 * 256 + v % 256

pub read_value_lem :
    (t : ParamType) (v old : ParamVal) (rest : List ℕ)
    → v < 2 ^ 32
    → read_value t (value_bytes t v ++ rest) old ≡ done (stored t old v, rest)
unfolding read_value
read_value_lem ParamType.int v old rest h = ground arith
read_value_lem ParamType.float v old rest h = ground arith
read_value_lem ParamType.bool v old rest h = refl

-- The arrays that agree with `values` where the bitmap has a bit and with `vals` elsewhere.
abbrev pub Received : Device → (ℕ → ParamVal) → ℕ → (ℕ → ParamVal) → (ℕ → ParamVal) → Type 0
Received dev values bitmap vals result =
    (j : ℕ)
    → j < 32
    → result j
      ≡ (if has_bit bitmap j then stored (param_at dev j).type (vals j) (values j) else vals j)

-- The arrays that agree with `values` at each parameter that exists, can be written and is asked for,
-- and with `vals` elsewhere.
abbrev pub Written : Device → (ℕ → ParamVal) → ℕ → (ℕ → ParamVal) → (ℕ → ParamVal) → Type 0
Written dev values pmap vals result =
    (j : ℕ)
    → j < 32
    → result j
      ≡ (if is_written dev pmap j then stored (param_at dev j).type (vals j) (values j) else vals j)

module _ (dev : Device) (values : ℕ → ParamVal) (bitmap : ℕ)
    (words : (j : ℕ) → values j < 2 ^ 32) where
  abbrev pub Loaded : ℕ → ℕ → (ℕ → ParamVal) → (ℕ → ParamVal) → Type 0
  Loaded left i vals result =
      (j : ℕ)
      → result j ≡ (
          if leb i j && (ltb j (i + left) && has_bit bitmap j)
          then stored (param_at dev j).type (vals j) (values j)
          else vals j)

  pub read_values_lem :
      (left i : ℕ) (junk : List ℕ) (vals : ℕ → ParamVal)
      → (result : ℕ → ParamVal) × (read_values dev bitmap left i
            (encoded dev values bitmap left i ++ junk)
            vals
          ≡ done result)
        × Loaded left i vals result
  unfolding read_values encoded
  read_values_lem zero i junk vals = (vals, refl, λ j. ground arith)
  read_values_lem (suc left) i junk vals = elim (Bool-cases (bitmap / 2 ^ i == 0)) [
    | inl e ↦ (vals, rw e, λ j. ground (arith, e, has_bit_high i j bitmap))
    | inr e ↦ elim (Bool-cases (has_bit bitmap i)) [
      | inl f ↦
          let v : ParamVal = stored (param_at dev i).type (vals i) (values i) in
          let r = read_values_lem left (i + 1) junk (update vals i v) in
          (
            r.0,
            rw
                (
                  e,
                  f,
                  append_assoc,
                  read_value_lem (param_at dev i).type (values i) (vals i) _ (words i),
                )
                r.1,
            λ j. ground (arith, f, r.2 j),
          )
      | inr f ↦
          let r = read_values_lem left (i + 1) junk vals in
          (r.0, rw (e, f) r.1, λ j. ground (arith, f, r.2 j))
    ]
  ]

pub payload_bitmap_lem :
    (id m p : ℕ) (out : List ℕ)
    → p < 2 ^ 32
    → payload_bitmap (holding id m (bytes_of_u32 p ++ out) []) ≡ done p
unfolding payload_bitmap
payload_bitmap_lem id m p out h = ground arith

-- A payload that starts with a bitmap and the values of its parameters.
pub parse_device_data_lem :
    (dev_type p : ℕ) (dev : Device) (values vals : ℕ → ParamVal) (msg : Message) (junk : List ℕ)
    → get_device dev_type ≡ some dev
    → p < 2 ^ 32
    → ((j : ℕ) → values j < 2 ^ 32)
    → msg.payload ≡ bytes_of_u32 p ++ (encoded dev values p max_params 0 ++ junk)
    → (result : ℕ → ParamVal) × (parse_device_data dev_type msg vals ≡ done result)
      × Received dev values p vals result
unfolding parse_device_data payload_bitmap
parse_device_data_lem dev_type p dev values vals msg junk e small words at_front =
    let r = read_values_lem dev values p words max_params 0 junk vals in
    let word : u32_of_bytes (p % 256) (p / 256 % 256) (p / 65536 % 256) (p / 16777216 % 256) ≡ p =
      omega arith in
    (r.0, rw (at_front, e, word) r.1, λ j h. ground (arith, r.2 j))

-- For a device type that exists, a bitmap and values that are 32-bit words, and blocks of the
-- size asked for: what `make_device_write` packs, `parse_device_data` unpacks: the array
-- afterwards holds the values given for the parameters that exist, can be written and were asked
-- for (a Boolean in the lowest byte of its union), and is unchanged elsewhere.
pub parse_device_data-make_device_write :
    (malloc : ℕ → List ℕ)
    → ((n : ℕ) → length (malloc n) ≡ n)
    → (dev_type pmap : ℕ) (values vals : ℕ → ParamVal) (dev : Device)
    → get_device dev_type ≡ some dev
    → pmap < 2 ^ 32
    → ((j : ℕ) → values j < 2 ^ 32)
    → (msg : Message) × (result : ℕ → ParamVal) × (make_device_write malloc dev_type pmap values
        ≡ done (some msg))
      × (parse_device_data dev_type msg vals ≡ done result)
      × Written dev values pmap vals result
unfolding parse_device_data
parse_device_data-make_device_write malloc sizes dev_type pmap values vals dev e small words =
    let p : ℕ = written_params dev pmap in
    let out : List ℕ = encoded dev values p max_params 0 in
    let made = make_device_write_lem malloc sizes dev_type pmap values dev e in
    let fits = writeable_params-lt dev max_params 0 _ (existing_params-lt dev pmap small) in
    let r = read_values_lem dev values p words max_params 0 [] vals in
    let m : ℕ = length (bytes_of_u32 p ++ out) in
    (
      holding MessageId.device_write m (bytes_of_u32 p ++ out) [],
      r.0,
      made.0,
      rw (e, payload_bitmap_lem MessageId.device_write m p out fits) r.1,
      λ j h. ground (
        arith,
        r.2 j,
        has_bit-written_params dev pmap j (get_device-IsDevice dev_type dev e).few_params h,
      ),
    )
