-- ===== src/Lowcar/Devices/PolarBear.antt =====
-- The parameters of lowcar/devices/PolarBear/PolarBear.cpp.
use c_runtime.Prelude.{ℕ, Bool, not, ◌&&◌, List, [], Outcome, done, ◌>>=◌, ◌==◌, if◌then◌else◌}
use c_runtime.Message.Types.{bytes_of_u32}
use c_runtime.Lowcar.Devices.{Floats, word_at}

-- `feedback` is `analogRead` of the pin that measures the current.
pub record PolarBear : Type 0 where
  pub duty_cycle : ℕ
  pub deadband : ℕ
  pub feedback : ℕ

module _ {F : Type 0} (floats : Floats F) where
  unfoldable pub new_polar_bear : ℕ → PolarBear
  new_polar_bear feedback = record {
    duty_cycle = floats.to_float (floats.literal "0.0");
    deadband = floats.to_float (floats.literal "0.05");
    feedback = feedback;
  }

  -- The word of `analogRead(FEEDBACK) / 0.0024`.
  unfoldable pub motor_current : ℕ → ℕ
  motor_current reading =
      floats.to_float
        (floats.div (floats.of_float (floats.of_int reading)) (floats.literal "0.0024"))

  unfoldable pub polar_bear_read : ℕ → PolarBear → Outcome (List ℕ × PolarBear)
  polar_bear_read param self =
      if param == 0
      then done (bytes_of_u32 self.duty_cycle, self)
      else if param == 1
      then done (bytes_of_u32 (motor_current self.feedback), self)
      else if param == 2
      then done (bytes_of_u32 self.deadband, self)
      else done ([], self)

  -- `x >= -1.0 * deadband && x <= deadband`.
  unfoldable pub is_within : ℕ → ℕ → Bool
  is_within x deadband =
      floats.le (floats.mul (floats.literal "-1.0") (floats.of_float deadband)) (floats.of_float x)
      && floats.le (floats.of_float x) (floats.of_float deadband)

  -- The duty cycle that is kept for the one that is asked for.
  unfoldable pub kept_duty : ℕ → ℕ → ℕ
  kept_duty x deadband =
      if not (is_within x deadband) then x else floats.to_float (floats.literal "0.0")

  unfoldable pub polar_bear_write : ℕ → List ℕ → PolarBear → Outcome (ℕ × PolarBear)
  polar_bear_write param data_buf self =
      if param == 0
      then word_at data_buf
        >>= (λ x. done (4, record self { duty_cycle = kept_duty x self.deadband }))
      else if param == 2
      then word_at data_buf >>= (λ x. done (4, record self { deadband = x }))
      else done (0, self)
