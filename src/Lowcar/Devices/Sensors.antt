-- ===== src/Lowcar/Devices/Sensors.antt =====
-- lowcar/devices/LimitSwitch/LimitSwitch.cpp and lowcar/devices/LineFollower/LineFollower.cpp.
use c_runtime.Prelude.{ℕ, List, [], ◌∷◌, Outcome, done, fault, ltb, ◌==◌, if◌then◌else◌}
use c_runtime.Message.Types.{bytes_of_u32}
use c_runtime.Lowcar.Params.{Methods}
use c_runtime.Lowcar.Devices.{Floats}

-- The state are the pins: `digitalRead` of each of the three, where 0 is LOW, and whether they
-- are inputs. A parameter past the array of pins is a fault.
pub record Switches : Type 0 where
  pub levels : ℕ → ℕ
  pub inputs : ℕ → ℕ

unfoldable pub switch_read : ℕ → Switches → Outcome (List ℕ × Switches)
switch_read param self =
    if ltb param 3 then done ((if self.levels param == 0 then 1 else 0) ∷ [], self) else fault

-- 1 is a pin in the mode INPUT.
unfoldable pub switch_enable : Switches → List (List ℕ) × Switches
switch_enable self = ([], record self { inputs = λ pin. if ltb pin 3 then 1 else self.inputs pin })

unfoldable pub switch_methods : Methods Switches
switch_methods = record {
  device_read = switch_read;
  device_write = λ param data_buf self. done (0, self);
  device_enable = switch_enable;
  device_reset = λ self. ([], self);
  device_actions = λ self. ([], self);
}

-- `analogRead` of the pins.
pub record Reflectance : Type 0 where
  pub readings : ℕ → ℕ
  pub modes : ℕ → ℕ

module _ {F : Type 0} (floats : Floats F) where
  -- The word of `1.0 - ((float) analogRead(pin)) / 1023.0`.
  unfoldable pub brightness : ℕ → ℕ
  brightness reading = floats.to_float (
      floats.sub (floats.literal "1.0")
        (floats.div (floats.of_float (floats.of_int reading)) (floats.literal "1023.0")))

  unfoldable pub follower_read : ℕ → Reflectance → Outcome (List ℕ × Reflectance)
  follower_read param self =
      if ltb param 3 then done (bytes_of_u32 (brightness (self.readings param)), self) else fault

  unfoldable pub follower_enable : Reflectance → List (List ℕ) × Reflectance
  follower_enable self =
      ([], record self { modes = λ pin. if ltb pin 3 then 1 else self.modes pin })

  unfoldable pub follower_methods : Methods Reflectance
  follower_methods = record {
    device_read = follower_read;
    device_write = λ param data_buf self. done (0, self);
    device_enable = follower_enable;
    device_reset = λ self. ([], self);
    device_actions = λ self. ([], self);
  }
