-- ===== src/Lowcar/Devices/Koala.antt =====
-- The parameters of lowcar/devices/KoalaBear/KoalaBear.cpp, its reset and the pulses of its motors.
use c_runtime.Prelude.{
  ℕ, ◌-◌, ◌≤◌, ◌≡◌, ◌⊎◌, arith, Bool, List, [], ◌∷◌, Outcome, done, ◌>>=◌, ltb, ◌==◌, if◌then◌else◌,
}
use c_runtime.Message.Types.{bytes_of_u32}
use c_runtime.Lowcar.Devices.{Floats, word_at, byte_at}

-- The coefficients and the state of a PID controller.
pub record Pid : Type 0 where
  pub kp : ℕ
  pub ki : ℕ
  pub kd : ℕ
  pub prev_pos : ℕ
  pub prev_desired_pos : ℕ
  pub integral : ℕ
  pub prev_error : ℕ → ℕ
  pub prev_time : ℕ → ℕ

-- The fields of the source that end in `_a` or in `_b`.
pub record Motor : Type 0 where
  pub velocity : ℕ
  pub deadband : ℕ
  pub invert : ℕ
  pub pid_enabled : ℕ
  pub curr_velocity : ℕ
  pub pid : Pid
  pub enc : ℕ

pub record KoalaBear : Type 0 where
  pub motor_a : Motor
  pub motor_b : Motor
  pub online : ℕ

-- `bool_buf[0] = x`.
abbrev bool_byte : ℕ → List ℕ
bool_byte x = (if x == 0 then 0 else 1) ∷ []

-- A parameter of a motor, counted from its first; the second motor has them from 8 on.
unfoldable pub motor_read : ℕ → Motor → List ℕ
motor_read param m =
    if param == 0
    then bytes_of_u32 m.velocity
    else if param == 1
    then bytes_of_u32 m.deadband
    else if param == 2
    then bool_byte m.invert
    else if param == 3
    then bool_byte m.pid_enabled
    else if param == 4
    then bytes_of_u32 m.pid.kp
    else if param == 5
    then bytes_of_u32 m.pid.ki
    else if param == 6
    then bytes_of_u32 m.pid.kd
    else bytes_of_u32 m.enc

unfoldable pub koala_read : ℕ → KoalaBear → Outcome (List ℕ × KoalaBear)
koala_read param self =
    if ltb param 8
    then done (motor_read param self.motor_a, self)
    else if ltb param 16
    then done (motor_read (param - 8) self.motor_b, self)
    else done ([], self)

-- `double_at` reads a `double` of the board from memory, `of_int32` is the `float` of an
-- `int32_t`, and `micros` what the function of that name returns.
module _ {F : Type 0} (floats : Floats F) (double_at : List ℕ → Outcome F) (of_int32 : ℕ → ℕ)
    (micros : ℕ) where
  unfoldable pub set_coefficients : ℕ → ℕ → ℕ → Pid → Pid
  set_coefficients kp ki kd pid = record pid { kp = kp; ki = ki; kd = kd }

  -- The loop leaves out the last sample.
  unfoldable pub set_position : ℕ → Pid → Pid
  set_position curr_pos pid =
      let zero_word = floats.to_float (floats.literal "0.0") in
      let time =
        floats.to_float
          (floats.div (floats.of_float (floats.of_int micros)) (floats.literal "1000000.0")) in
      record pid {
        prev_pos = curr_pos;
        prev_desired_pos = curr_pos;
        integral = zero_word;
        prev_error = λ i. if ltb i 4 then zero_word else pid.prev_error i;
        prev_time = λ i. if ltb i 4 then time else pid.prev_time i;
      }

  -- `limit to range [-1.0, 1.0]`.
  unfoldable pub limited : ℕ → ℕ
  limited v =
      let one_word = floats.to_float (floats.literal "1.0") in
      let v' = if floats.lt (floats.literal "1.0") (floats.of_float v) then one_word else v in
      if floats.lt (floats.of_float v') (floats.literal "-1.0")
      then floats.to_float (floats.literal "-1.0")
      else v'

  unfoldable pub motor_write : ℕ → List ℕ → Motor → Outcome (ℕ × Motor)
  motor_write param data_buf m =
      if param == 0
      then word_at data_buf >>= (λ v. done (4, record m { velocity = limited v }))
      else if param == 1
      then word_at data_buf >>= (λ v. done (4, record m { deadband = v }))
      else if param == 2
      then byte_at data_buf >>= (λ v. done (1, record m { invert = v }))
      else if param == 3
      then byte_at data_buf >>= (λ v. done (1, record m { pid_enabled = v }))
      else if param == 4
      then double_at data_buf >>= (λ x.
        done (4, record m { pid = set_coefficients (floats.to_float x) m.pid.ki m.pid.kd m.pid }))
      else if param == 5
      then double_at data_buf >>= (λ x.
        done (4, record m { pid = set_coefficients m.pid.kp (floats.to_float x) m.pid.kd m.pid }))
      else if param == 6
      then double_at data_buf >>= (λ x.
        done (4, record m { pid = set_coefficients m.pid.kp m.pid.ki (floats.to_float x) m.pid }))
      else word_at data_buf
        >>= (λ v. done (4, record m { enc = v; pid = set_position (of_int32 v) m.pid }))

  unfoldable pub koala_write : ℕ → List ℕ → KoalaBear → Outcome (ℕ × KoalaBear)
  koala_write param data_buf self =
      if ltb param 8
      then motor_write param data_buf self.motor_a
        >>= (λ r. done (r.0, record self { motor_a = r.1 }))
      else if ltb param 16
      then motor_write (param - 8) data_buf self.motor_b
        >>= (λ r. done (r.0, record self { motor_b = r.1 }))
      else done (0, self)

  unfoldable pub reset_motor : Motor → Motor
  reset_motor m = record m {
    pid =
        set_coefficients (floats.to_float (floats.literal "0.045"))
          (floats.to_float (floats.literal "0.35")) (floats.to_float (floats.literal "0.001"))
          m.pid;
    velocity = floats.to_float (floats.literal "0.0");
    curr_velocity = floats.to_float (floats.literal "0.0");
    pid_enabled = 1;
  }

  unfoldable pub koala_reset : KoalaBear → KoalaBear
  koala_reset self = record {
    motor_a = reset_motor self.motor_a;
    motor_b = reset_motor self.motor_b;
    online = 0;
  }

-- What `drive` writes to the two pins of a motor, for whether the target is above zero and the
-- integer of `target * direction * 255.0`, of which a negative one is held at 0.
unfoldable pub drive_pins : Bool → ℕ → ℕ × ℕ
drive_pins forwards difference =
    let pwm_difference = if ltb 255 difference then 255 else difference in
    if forwards then (255 - pwm_difference, 255) else (255, 255 - pwm_difference)

-- Both pins get a byte, and one of them always the 255 that stops it.
drive_pins_lem :
    (forwards : Bool) (difference : ℕ)
    → ((drive_pins forwards difference).0 ≤ 255)
      × ((drive_pins forwards difference).1 ≤ 255)
      × (((drive_pins forwards difference).0 ≡ 255) ⊎ ((drive_pins forwards difference).1 ≡ 255))
unfolding drive_pins
drive_pins_lem forwards difference = (ground arith, ground arith, ground arith)
