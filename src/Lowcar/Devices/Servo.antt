-- ===== src/Lowcar/Devices/Servo.antt =====
-- lowcar/devices/ServoControl/ServoControl.cpp.
use c_runtime.Prelude.{
  ℕ, Bool, true, false, ◌||◌, List, [], Outcome, done, fault, ◌>>=◌, ltb, ◌==◌, if◌then◌else◌,
}
use c_runtime.Prelude.{update}
use c_runtime.Message.Types.{bytes_of_u32}
use c_runtime.Lowcar.Params.{Methods}
use c_runtime.Lowcar.Devices.{Floats, word_at}

-- `positions`, and of the two servos whether they are attached and the last pulse written.
pub record ServoControl : Type 0 where
  pub positions : ℕ → ℕ
  pub attached : ℕ → Bool
  pub pulse : ℕ → ℕ

unfoldable pub disable_all : ServoControl → ServoControl
disable_all self = record self { attached = λ i. if ltb i 2 then false else self.attached i }

module _ {F : Type 0} (floats : Floats F) where
  -- The constructor, on servos that stand anyhow.
  unfoldable pub new_servo : ServoControl → ServoControl
  new_servo self = disable_all (record self {
    positions = λ i. if ltb i 2 then floats.to_float (floats.literal "0.0") else self.positions i;
  })

  -- A parameter past the two servos is a fault.
  unfoldable pub servo_read : ℕ → ServoControl → Outcome (List ℕ × ServoControl)
  servo_read param self =
      if ltb param 2 then done (bytes_of_u32 (self.positions param), self) else fault

  -- The range that a position is tested for.
  unfoldable pub is_out_of_range : ℕ → Bool
  is_out_of_range value =
      floats.lt (floats.of_float value) (floats.literal "-1")
      || floats.lt (floats.literal "1") (floats.of_float value)

  -- The argument of `writeMicroseconds`.
  unfoldable pub servo_pulse : ℕ → ℕ
  servo_pulse value = floats.to_int (
      floats.add (floats.literal "1500") (
        floats.div
          (floats.of_float
            (floats.to_float (floats.mul (floats.of_float value) (floats.literal "1000"))))
          (floats.literal "2.0")))

  unfoldable pub servo_write : ℕ → List ℕ → ServoControl → Outcome (ℕ × ServoControl)
  servo_write param data_buf self = word_at data_buf >>= (λ value.
      if is_out_of_range value
      then done (0, self)
      else if ltb param 2
      then done (
        4,
        record {
          positions = update self.positions param value;
          attached = λ i. if i == param then true else self.attached i;
          pulse = update self.pulse param (servo_pulse value);
        },
      )
      else fault)

  unfoldable pub servo_methods : Methods ServoControl
  servo_methods = record {
    device_read = servo_read;
    device_write = servo_write;
    device_enable = λ self. ([], self);
    device_reset = λ self. ([], disable_all self);
    device_actions = λ self. ([], self);
  }
