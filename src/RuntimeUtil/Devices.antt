-- ===== src/RuntimeUtil/Devices.antt =====
-- The device tables of runtime_util/runtime_util.c. A table of C has 32 entries; the list has the
-- ones that are filled in, and `no_param` (all bytes zero) stands for the others.
use c_runtime.Prelude.{ℕ, [], ◌∷◌, get_or}
use c_runtime.RuntimeUtil.Types.{ParamType, ParamDesc, Device, max_devices}
use Prim.Native.String.{String}

abbrev param : String → ParamType → ℕ → ℕ → ParamDesc
param name type read write = record { name = name; type = type; read = read; write = write }

abbrev pub no_param : ParamDesc
no_param = param "" ParamType.int 0 0

-- `device->params[i]`, for an index below 32.
abbrev pub param_at : Device → ℕ → ParamDesc
param_at dev i = get_or dev.params i no_param

abbrev pub dummy_device : Device
dummy_device = record {
  type = 0;
  name = "DummyDevice";
  num_params = 16;
  params =
      param "RUNTIME" ParamType.int 1 0
      ∷ param "SHEPHERD" ParamType.float 1 0
      ∷ param "DAWN" ParamType.bool 1 0
      ∷ param "DEVOPS" ParamType.int 1 0
      ∷ param "ATLAS" ParamType.float 1 0
      ∷ param "INFRA" ParamType.bool 1 0
      ∷ param "SENS" ParamType.int 0 1
      ∷ param "PDB" ParamType.float 0 1
      ∷ param "MECH" ParamType.bool 0 1
      ∷ param "CPR" ParamType.int 0 1
      ∷ param "EDU" ParamType.float 0 1
      ∷ param "EXEC" ParamType.bool 0 1
      ∷ param "PIEF" ParamType.int 1 1
      ∷ param "FUNTIME" ParamType.float 1 1
      ∷ param "SHEEP" ParamType.bool 1 1
      ∷ param "DUSK" ParamType.int 1 1
      ∷ [];
}

abbrev pub limit_switch : Device
limit_switch = record {
  type = 1;
  name = "LimitSwitch";
  num_params = 3;
  params =
      param "switch0" ParamType.bool 1 0
      ∷ param "switch1" ParamType.bool 1 0
      ∷ param "switch2" ParamType.bool 1 0
      ∷ [];
}

abbrev pub line_follower : Device
line_follower = record {
  type = 2;
  name = "LineFollower";
  num_params = 3;
  params =
      param "left" ParamType.float 1 0
      ∷ param "center" ParamType.float 1 0
      ∷ param "right" ParamType.float 1 0
      ∷ [];
}

abbrev pub battery_buzzer : Device
battery_buzzer = record {
  type = 3;
  name = "BatteryBuzzer";
  num_params = 8;
  params =
      param "is_unsafe" ParamType.bool 1 0
      ∷ param "calibrated" ParamType.bool 1 0
      ∷ param "v_cell1" ParamType.float 1 0
      ∷ param "v_cell2" ParamType.float 1 0
      ∷ param "v_cell3" ParamType.float 1 0
      ∷ param "v_batt" ParamType.float 1 0
      ∷ param "dv_cell2" ParamType.float 1 0
      ∷ param "dv_cell3" ParamType.float 1 0
      ∷ [];
}

abbrev pub servo_control : Device
servo_control = record {
  type = 4;
  name = "ServoControl";
  num_params = 2;
  params = param "servo0" ParamType.float 1 1 ∷ param "servo1" ParamType.float 1 1 ∷ [];
}

abbrev pub polar_bear : Device
polar_bear = record {
  type = 5;
  name = "PolarBear";
  num_params = 3;
  params =
      param "duty_cycle" ParamType.float 1 1
      ∷ param "motor_current" ParamType.float 1 0
      ∷ param "deadband" ParamType.float 1 1
      ∷ [];
}

abbrev pub koala_bear : Device
koala_bear = record {
  type = 6;
  name = "KoalaBear";
  num_params = 16;
  params =
      param "velocity_a" ParamType.float 1 1
      ∷ param "deadband_a" ParamType.float 1 1
      ∷ param "invert_a" ParamType.bool 1 1
      ∷ param "pid_enabled_a" ParamType.bool 1 1
      ∷ param "pid_kp_a" ParamType.float 1 1
      ∷ param "pid_ki_a" ParamType.float 1 1
      ∷ param "pid_kd_a" ParamType.float 1 1
      ∷ param "enc_a" ParamType.int 1 1
      ∷ param "velocity_b" ParamType.float 1 1
      ∷ param "deadband_b" ParamType.float 1 1
      ∷ param "invert_b" ParamType.bool 1 1
      ∷ param "pid_enabled_b" ParamType.bool 1 1
      ∷ param "pid_kp_b" ParamType.float 1 1
      ∷ param "pid_ki_b" ParamType.float 1 1
      ∷ param "pid_kd_b" ParamType.float 1 1
      ∷ param "enc_b" ParamType.int 1 1
      ∷ [];
}

abbrev pub custom_device : Device
custom_device = record {
  type = max_devices;
  name = "CustomDevice";
  num_params = 1;
  params = param "time_ms" ParamType.int 1 0 ∷ [];
}

abbrev pub sound_device : Device
sound_device = record {
  type = 59;
  name = "SoundDevice";
  num_params = 2;
  params = param "SOCK_FD" ParamType.int 0 0 ∷ param "PITCH" ParamType.float 1 1 ∷ [];
}

abbrev pub time_test_device : Device
time_test_device = record {
  type = 60;
  name = "TimeTestDevice";
  num_params = 2;
  params = param "GET_TIME" ParamType.bool 1 1 ∷ param "TIMESTAMP" ParamType.int 1 0 ∷ [];
}

abbrev pub unstable_test_device : Device
unstable_test_device = record {
  type = 61;
  name = "UnstableTestDevice";
  num_params = 1;
  params = param "NUM_ACTIONS" ParamType.int 1 0 ∷ [];
}

abbrev pub simple_test_device : Device
simple_test_device = record {
  type = 62;
  name = "SimpleTestDevice";
  num_params = 4;
  params =
      param "INCREASING" ParamType.int 1 0
      ∷ param "DOUBLING" ParamType.float 1 0
      ∷ param "FLIP_FLOP" ParamType.bool 1 0
      ∷ param "MY_INT" ParamType.int 1 1
      ∷ [];
}

abbrev pub general_test_device : Device
general_test_device = record {
  type = 63;
  name = "GeneralTestDevice";
  num_params = 32;
  params =
      param "INCREASING_ODD" ParamType.int 1 0
      ∷ param "DECREASING_ODD" ParamType.int 1 0
      ∷ param "INCREASING_EVEN" ParamType.int 1 0
      ∷ param "DECREASING_EVEN" ParamType.int 1 0
      ∷ param "INCREASING_FLIP" ParamType.int 1 0
      ∷ param "ALWAYS_LEET" ParamType.int 1 0
      ∷ param "DOUBLING" ParamType.float 1 0
      ∷ param "DOUBLING_NEG" ParamType.float 1 0
      ∷ param "HALFING" ParamType.float 1 0
      ∷ param "HALFING_NEG" ParamType.float 1 0
      ∷ param "EXP_ONE_PT_ONE" ParamType.float 1 0
      ∷ param "EXP_ONE_PT_TWO" ParamType.float 1 0
      ∷ param "ALWAYS_PI" ParamType.float 1 0
      ∷ param "FLIP_FLOP" ParamType.bool 1 0
      ∷ param "ALWAYS_TRUE" ParamType.bool 1 0
      ∷ param "ALWAYS_FALSE" ParamType.bool 1 0
      ∷ param "RED_INT" ParamType.int 1 1
      ∷ param "ORANGE_INT" ParamType.int 1 1
      ∷ param "GREEN_INT" ParamType.int 1 1
      ∷ param "BLUE_INT" ParamType.int 1 1
      ∷ param "PURPLE_INT" ParamType.int 1 1
      ∷ param "RED_FLOAT" ParamType.float 1 1
      ∷ param "ORANGE_FLOAT" ParamType.float 1 1
      ∷ param "GREEN_FLOAT" ParamType.float 1 1
      ∷ param "BLUE_FLOAT" ParamType.float 1 1
      ∷ param "PURPLE_FLOAT" ParamType.float 1 1
      ∷ param "RED_BOOL" ParamType.bool 1 1
      ∷ param "ORANGE_BOOL" ParamType.bool 1 1
      ∷ param "GREEN_BOOL" ParamType.bool 1 1
      ∷ param "BLUE_BOOL" ParamType.bool 1 1
      ∷ param "PURPLE_BOOL" ParamType.bool 1 1
      ∷ param "YELLOW_BOOL" ParamType.bool 1 1
      ∷ [];
}
