-- ===== src/RuntimeUtil/Lookup.antt =====
-- The lookups of runtime_util/runtime_util.c: devices by type and name, parameters, buttons and
-- keys.
pub mod Tables
use c_runtime.Prelude.{ℕ, zero, suc, ◌+◌, ◌-◌, ◌^◌, List, [], ◌∷◌, Option, none, some}
use c_runtime.Prelude.{if◌then◌else◌, ltb, ◌==◌, get_or, update}
use c_runtime.RuntimeUtil.Types.{Device, ParamDesc, devices_length, max_devices}
use c_runtime.RuntimeUtil.Devices.{
  param_at, dummy_device, limit_switch, line_follower, battery_buzzer, servo_control, polar_bear,
  koala_bear, custom_device, sound_device, time_test_device, unstable_test_device,
  simple_test_device, general_test_device,
}
use Prim.Native.String.{String}
use text.Mathlib.Text.{◌==◌ as str_eq}

abbrev place : Device → (ℕ → Option Device) → ℕ → Option Device
place dev = λ table. update table dev.type (some dev)

-- `DEVICES` after `devices_arr_init`; `none` is NULL.
unfoldable pub devices : ℕ → Option Device
devices = place general_test_device (
    place simple_test_device (
      place unstable_test_device (
        place time_test_device (
          place sound_device (
            place custom_device (
              place koala_bear (
                place polar_bear (
                  place servo_control (
                    place battery_buzzer (
                      place line_follower
                        (place limit_switch (place dummy_device (λ i. none)))))))))))))

-- `dev_type` is a `uint8_t`.
unfoldable pub get_device : ℕ → Option Device
unfolding devices
get_device dev_type = if ltb dev_type devices_length then devices dev_type else none

-- The index of the first entry with this name, from `i` on with `left` entries to go.
unfoldable pub find_device : ℕ → ℕ → String → Option ℕ
find_device zero i name = none
find_device (suc left) i name =
    let rest = find_device left (i + 1) name in
    elim (devices i) [ none ↦ rest | some dev ↦ if str_eq dev.name name then some i else rest ]

-- The -1 that is returned as a `uint8_t` is 255.
unfoldable pub device_name_to_type : String → ℕ
unfolding find_device devices
device_name_to_type name = elim (find_device devices_length 0 name) [ none ↦ 255 | some i ↦ i ]

pub get_device_name : ℕ → Option String
get_device_name dev_type = elim (get_device dev_type) [ none ↦ none | some dev ↦ some dev.name ]

unfoldable pub find_param : ℕ → ℕ → Device → String → Option ℕ
find_param zero i dev name = none
find_param (suc left) i dev name =
    let rest = find_param left (i + 1) dev name in
    if str_eq name (param_at dev i).name then some i else rest

pub get_param_desc : ℕ → String → Option ParamDesc
get_param_desc dev_type name = elim (get_device dev_type) [
  | none ↦ none
  | some dev ↦ elim (find_param dev.num_params 0 dev name) [
    | none ↦ none
    | some i ↦ some (param_at dev i)
  ]
]

-- `none` is -1.
pub get_param_idx : ℕ → String → Option ℕ
get_param_idx dev_type name = elim (get_device dev_type) [
  | none ↦ none
  | some dev ↦ find_param dev.num_params 0 dev name
]
