-- ===== src/Shm/Inputs.antt =====
-- The robot description and the user inputs, of shm_wrapper/shm_wrapper.c.
use c_runtime.Prelude.{ℕ, zero, suc, ◌+◌, Bool, true, false, Option, none, some}
use c_runtime.Prelude.{◌==◌, if◌then◌else◌, update}
use c_runtime.RuntimeUtil.Types.{RobotDescField, gamepad, keyboard, RobotDescVal, disconnected}
use c_runtime.Shm.Types.{Shm, Input, my_sem_wait, my_sem_post, rd_sem, input_sem}

-- Fields are compared by their numbers in the enum.
abbrev pub field_index : RobotDescField → ℕ
field_index RobotDescField.run_mode = 0
field_index RobotDescField.dawn = 1
field_index RobotDescField.shepherd = 2
field_index gamepad = 3
field_index keyboard = 4
field_index RobotDescField.start_pos = 5
field_index RobotDescField.hypothermia = 6
field_index RobotDescField.poison_ivy = 7
field_index RobotDescField.dehydration = 8

abbrev pub is_disconnected : RobotDescVal → Bool
is_disconnected disconnected = true
is_disconnected _ = false

unfoldable pub robot_desc_read : RobotDescField → Shm → Shm × RobotDescVal
robot_desc_read field m = (my_sem_post rd_sem (my_sem_wait rd_sem m), m.fields field)

unfoldable pub robot_desc_write : RobotDescField → RobotDescVal → Shm → Shm
robot_desc_write field val m =
    let m1 = my_sem_wait rd_sem m in
    my_sem_post rd_sem
      (record m1 { fields = λ f. if field_index f == field_index field then val else m1.fields f })

-- `exits` is the end of the process on a wrong `source`, and `failed` the result -1.
pub data InputResult {ℓ} (A : Type ℓ) : Type ℓ where
  ok : A → InputResult A
  failed : InputResult A
  exits : InputResult A

-- The index of an input, for the two sources that have one.
abbrev pub input_index : RobotDescField → Option ℕ
input_index gamepad = some 0
input_index keyboard = some 1
input_index _ = none

-- The loop over the four joysticks.
unfoldable pub copy_axes : ℕ → ℕ → (ℕ → ℕ) → (ℕ → ℕ) → ℕ → ℕ
copy_axes zero i source target = target
copy_axes (suc left) i source target = copy_axes left (i + 1) source (update target i (source i))

abbrev pub is_gamepad : RobotDescField → Bool
is_gamepad gamepad = true
is_gamepad _ = false

-- The buttons and the joysticks; for the keyboard the array of the caller comes back unchanged.
unfoldable pub input_read : (ℕ → ℕ) → RobotDescField → Shm → Shm × InputResult (ℕ × (ℕ → ℕ))
input_read joystick_vals source m = elim (input_index source) [
  | none ↦ (m, exits)
  | some index ↦
      let m1 = my_sem_wait rd_sem m in
      if is_disconnected (m.fields source)
      then (my_sem_post rd_sem m1, failed)
      else let m2 = my_sem_wait input_sem (my_sem_post rd_sem m1) in
        let input = m.inputs index in
        let axes =
          if is_gamepad source
          then copy_axes 4 0 input.joysticks joystick_vals
          else joystick_vals in
        (my_sem_post input_sem m2, ok (input.buttons, axes))
]

unfoldable pub write_input : RobotDescField → ℕ → (ℕ → ℕ) → Input → Input
write_input source pressed_buttons joystick_vals input = record input {
  buttons = pressed_buttons;
  joysticks =
      if is_gamepad source then copy_axes 4 0 joystick_vals input.joysticks else input.joysticks;
}

unfoldable pub input_write : ℕ → (ℕ → ℕ) → RobotDescField → Shm → Shm × InputResult (Unit {0})
input_write pressed_buttons joystick_vals source m = elim (input_index source) [
  | none ↦ (m, exits)
  | some index ↦
      let m1 = my_sem_wait rd_sem m in
      if is_disconnected (m.fields source)
      then (my_sem_post rd_sem m1, failed)
      else let m2 = my_sem_wait input_sem (my_sem_post rd_sem m1) in
        let input = write_input source pressed_buttons joystick_vals (m.inputs index) in
        (my_sem_post input_sem (record m2 { inputs = update m.inputs index input }), ok tt)
]
