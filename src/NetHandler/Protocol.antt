-- ===== src/NetHandler/Protocol.antt =====
-- The messages of net_handler once they are unpacked. The protobuf code is generated: unpacking and
-- packing are parameters, and each message is what the code of net_handler uses of it.
use c_runtime.Prelude.{ℕ, List, Option}
use Prim.Native.String.{String}

-- `net_msg_t` of net_handler/net_util.h.
abbrev pub run_mode_msg : ℕ
run_mode_msg = 0

abbrev pub start_pos_msg : ℕ
start_pos_msg = 1

abbrev pub challenge_data_msg : ℕ
challenge_data_msg = 2

abbrev pub log_msg : ℕ
log_msg = 3

abbrev pub device_data_msg : ℕ
device_data_msg = 4

abbrev pub game_state_msg : ℕ
game_state_msg = 5

abbrev pub time_stamp_msg : ℕ
time_stamp_msg = 7

-- The values that the code tests for, and one for all others.
pub data Mode : Type 0 where
  mode_idle mode_auto mode_teleop mode_estop mode_other : Mode

pub data Pos : Type 0 where
  pos_left pos_right pos_other : Pos

pub data State : Type 0 where
  state_poison_ivy state_dehydration : State
  state_hypothermia_start state_hypothermia_end state_other : State

-- The value of a parameter with its case; a float is the word that holds it.
pub data Val : Type 0 where
  no_val : Val
  ival : ℕ → Val
  fval : ℕ → Val
  bval : ℕ → Val

-- A name of the device tables, or the bytes of a name that the student's code logs.
pub data Name : Type 0 where
  literal : String → Name
  bytes : List ℕ → Name

pub record Param : Type 0 where
  pub name : Name
  pub val : Val
  pub readonly : ℕ

pub record NetDevice : Type 0 where
  pub name : String
  pub type : ℕ
  pub uid : ℕ
  pub params : List Param

pub record TimeStamps : Type 0 where
  pub dawn_timestamp : ℕ
  pub runtime_timestamp : ℕ

pub data Source : Type 0 where
  source_gamepad source_keyboard source_other : Source

pub record UserInput : Type 0 where
  pub source : Source
  pub connected : ℕ
  pub buttons : ℕ
  pub axes : List ℕ

-- The generated functions; `none` is NULL.
pub record Protobuf : Type 0 where
  pub run_mode_unpack : List ℕ → Option Mode
  pub start_pos_unpack : List ℕ → Option Pos
  pub dev_data_unpack : List ℕ → Option (List NetDevice)
  pub game_state_unpack : List ℕ → Option State
  pub time_stamps_unpack : List ℕ → Option TimeStamps
  pub time_stamps_pack : TimeStamps → List ℕ
  pub text_pack : List (List ℕ) → List ℕ
  pub user_inputs_unpack : List ℕ → Option (List UserInput)
