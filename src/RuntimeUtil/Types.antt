-- ===== src/RuntimeUtil/Types.antt =====
-- The types and constants of runtime_util/runtime_util.h.
use c_runtime.Prelude.{ℕ, List, Bool, true, false}
use Prim.Native.String.{String}

abbrev pub max_devices : ℕ
max_devices = 32

abbrev pub max_params : ℕ
max_params = 32

abbrev pub log_key_length : ℕ
log_key_length = 64

abbrev pub uchar_max : ℕ
uchar_max = 255

abbrev pub devices_length : ℕ
devices_length = 64

pub data Process : Type 0 where
  dev_handler executor net_handler shm test : Process

pub data ParamType : Type 0 where
  int float bool : ParamType

-- `param_val_t` is a union of four bytes, read as one little-endian 32-bit word: `p_i` and `p_f`
-- are the whole word, `p_b` is its lowest byte.
abbrev pub ParamVal : Type 0
ParamVal = ℕ

pub record DevId : Type 0 where
  pub type : ℕ
  pub year : ℕ
  pub uid : ℕ

pub record ParamDesc : Type 0 where
  pub name : String
  pub type : ParamType
  pub read : ℕ
  pub write : ℕ

pub record Device : Type 0 where
  pub type : ℕ
  pub name : String
  pub num_params : ℕ
  pub params : List ParamDesc

-- `robot_desc_field_t`.
pub data RobotDescField : Type 0 where
  run_mode dawn shepherd gamepad keyboard start_pos : RobotDescField
  hypothermia poison_ivy dehydration : RobotDescField

-- `robot_desc_val_t`.
pub data RobotDescVal : Type 0 where
  idle auto teleop challenge : RobotDescVal
  connected disconnected : RobotDescVal
  left right : RobotDescVal
  active inactive : RobotDescVal

abbrev pub is_dev_handler : Process → Bool
is_dev_handler dev_handler = true
is_dev_handler _ = false

abbrev pub is_executor : Process → Bool
is_executor executor = true
is_executor _ = false

abbrev pub is_net_handler : Process → Bool
is_net_handler net_handler = true
is_net_handler _ = false
