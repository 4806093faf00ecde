-- ===== src/Shm/Start.antt =====
-- The state that shm_wrapper/shm_start.c leaves behind.
use c_runtime.Prelude.{◌-◌, ◌^◌, [], ◌==◌, if◌then◌else◌}
use c_runtime.RuntimeUtil.Types.{
  DevId, ParamType, RobotDescField, gamepad, keyboard, start_pos, dawn, shepherd, run_mode,
  RobotDescVal, idle, disconnected, left,
}
use c_runtime.Shm.Types.{Shm, DevShm}

-- A fresh shared memory block is filled with zeros.
abbrev no_device : DevId
no_device = record { type = 0; year = 0; uid = 0 }

unfoldable pub start_devices : DevShm
start_devices = record {
  catalog = 0;
  cmd_map = λ i. 0;
  net_sub_map = λ i. 2 ^ 32 - 1;
  exec_sub_map = λ i. 0;
  params = λ s ix i. 0;
  dev_ids = λ ix. no_device;
}

-- The fields that are not set stay 0, which is `IDLE`.
unfoldable pub start_fields : RobotDescField → RobotDescVal
start_fields run_mode = idle
start_fields dawn = disconnected
start_fields shepherd = disconnected
start_fields gamepad = disconnected
start_fields keyboard = disconnected
start_fields start_pos = left
start_fields _ = idle

unfoldable pub start_shm : Shm
start_shm = record {
  dev = start_devices;
  inputs = λ i. record {
    buttons = 0;
    joysticks = λ j. 0;
    source = if i == 0 then gamepad else keyboard;
  };
  fields = start_fields;
  log_data = record {
    num_params = 0;
    names = λ i. [];
    types = λ i. ParamType.int;
    params = λ i. 0;
  };
  events = [];
}
