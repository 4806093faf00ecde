-- ===== src/Gamestate.antt =====
-- executor/gamestate_filter.c: the effects of the states of the game on what executor writes.
use c_runtime.Prelude.{
  ℕ, ◌+◌, ◌-◌, ◌%◌, ◌^◌, Bool, true, false, not, ltb, ◌==◌, if◌then◌else◌, update,
}
use c_runtime.RuntimeUtil.Types.{
  Process, ParamVal, RobotDescField, hypothermia, poison_ivy, dehydration, RobotDescVal, active,
  inactive,
}
use c_runtime.Shm.Types.{Shm, Stream}
use c_runtime.Shm.Inputs.{robot_desc_read, robot_desc_write}
use c_runtime.Shm.Params.{device_write_uid}

abbrev pub debuff_duration : ℕ
debuff_duration = 10000

-- The type number of the KoalaBear, and the indices of its velocities.
abbrev pub koalabear : ℕ
koalabear = 6

abbrev pub idx_velocity_a : ℕ
idx_velocity_a = 0

abbrev pub idx_velocity_b : ℕ
idx_velocity_b = 8

pub record Gamestate : Type 0 where
  pub hypothermia : Bool
  pub poison_ivy : Bool
  pub dehydration : Bool

abbrev pub is_active : RobotDescVal → Bool
is_active active = true
is_active _ = false

-- One effect that ends by itself, with its time of start. The field is read only while the
-- effect is off.
unfoldable pub poll_debuff : RobotDescField → ℕ → Bool → ℕ → Shm → Bool × ℕ × Shm
poll_debuff field curr_time on start_time m =
    if not on
    then (let (m', val) = robot_desc_read field m in
        if is_active val then (true, curr_time, m') else (false, start_time, m'))
    else if ltb debuff_duration ((curr_time + 2 ^ 64 - start_time) % 2 ^ 64)
    then (false, 0, robot_desc_write field inactive m)
    else (on, start_time, m)

-- What the thread keeps: the states, and the times at which the two effects started.
pub record Handler : Type 0 where
  pub gamestate : Gamestate
  pub poison_ivy_start : ℕ
  pub dehydration_start : ℕ

-- One round of the thread, at the time `curr_time`.
unfoldable pub gamestate_handler : ℕ → Handler → Shm → Handler × Shm
gamestate_handler curr_time h m =
    let (m1, val) = robot_desc_read hypothermia m in
    let (on, start_time, m2) =
      poll_debuff poison_ivy curr_time h.gamestate.poison_ivy h.poison_ivy_start m1 in
    let (on', start_time', m3) =
      poll_debuff dehydration curr_time h.gamestate.dehydration h.dehydration_start m2 in
    (
      record {
        gamestate = record { hypothermia = is_active val; poison_ivy = on; dehydration = on' };
        poison_ivy_start = start_time;
        dehydration_start = start_time';
      },
      m3,
    )

-- Floats are kept as words: `mul` is their product, `gt` their order, and the other arguments are
-- the words of 1.0, -1.0, 0.2 and 0.
module _ (mul : ParamVal → ParamVal → ParamVal) (gt : ParamVal → ParamVal → Bool)
    (plus_one minus_one slow_scalar no_speed : ParamVal) where
  unfoldable pub scale_velocity : ParamVal → (ℕ → ParamVal) → ℕ → ParamVal
  scale_velocity scalar params =
      let params' = update params idx_velocity_a (mul (params idx_velocity_a) scalar) in
      update params' idx_velocity_b (mul (params' idx_velocity_b) scalar)

  unfoldable pub bound : ParamVal → ParamVal
  bound v = if gt v plus_one then plus_one else if gt minus_one v then minus_one else v

  unfoldable pub bound_velocity : (ℕ → ParamVal) → ℕ → ParamVal
  bound_velocity params =
      let params' = update params idx_velocity_a (bound (params idx_velocity_a)) in
      update params' idx_velocity_b (bound (params' idx_velocity_b))

  -- The parameters that are written: the array of the caller is changed in place.
  unfoldable pub filtered : Gamestate → ℕ → (ℕ → ParamVal) → ℕ → ParamVal
  filtered g dev_type params =
      if dev_type == koalabear
      then (let p0 = bound_velocity params in
          let p1 = if g.hypothermia then scale_velocity slow_scalar p0 else p0 in
          let p2 = if g.poison_ivy then scale_velocity minus_one p1 else p1 in
          if g.dehydration then scale_velocity no_speed p2 else p2)
      else params

  unfoldable pub filter_device_write_uid :
      Gamestate
      → ℕ
      → ℕ
      → Process
      → Stream
      → ℕ
      → (ℕ → ParamVal)
      → Shm
      → (Shm × Bool) × (ℕ → ParamVal)
  filter_device_write_uid g dev_type dev_uid process stream bitmap params m =
      let params' = filtered g dev_type params in
      (device_write_uid dev_uid process stream bitmap params' m, params')
