-- ===== src/Executor/Modes.antt =====
-- The parent process of executor/executor.c: it keeps one child for the current mode. The calls of
-- the system are recorded; the result of fork is an argument, and the results of kill and waitpid
-- are only logged.
pub mod Runs
use c_runtime.Prelude.{ℕ, Bool, true, false, Option, none, some, List, [], ◌∷◌}
use c_runtime.Prelude.{◌==◌, if◌then◌else◌}
use c_runtime.RuntimeUtil.Types.{
  RobotDescVal, idle, auto, teleop, challenge, connected, disconnected, left, right, active,
  inactive, run_mode,
}
use c_runtime.Shm.Types.{Shm}
use c_runtime.Shm.Inputs.{robot_desc_read, robot_desc_write}
use c_runtime.Executor.Reset.{reset_params}
use Prim.Native.String.{String}

-- Values are compared by their numbers in the enum.
abbrev pub val_index : RobotDescVal → ℕ
val_index idle = 0
val_index auto = 1
val_index teleop = 2
val_index challenge = 3
val_index connected = 4
val_index disconnected = 5
val_index left = 6
val_index right = 7
val_index active = 8
val_index inactive = 9

abbrev pub same_val : RobotDescVal → RobotDescVal → Bool
same_val a b = val_index a == val_index b

-- `none` is NULL.
unfoldable pub get_mode_str : RobotDescVal → Option String
get_mode_str mode =
    if same_val mode auto
    then some "autonomous"
    else if same_val mode teleop
    then some "teleop"
    else if same_val mode idle
    then some "idle"
    else none

-- A process id, where `none` is -1.
abbrev pub Pid : Type 0
Pid = Option ℕ

pub data Call : Type 0 where
  fork : Pid → Call
  kill : Pid → Call
  waitpid : Pid → Call

-- The global variables, the calls so far with the last one first, and the shared memory.
pub record Executor : Type 0 where
  pub mode : RobotDescVal
  pub pid : Pid
  pub calls : List Call
  pub shm : Shm

-- The global variables at the start of the process.
unfoldable pub start_executor : Shm → Executor
start_executor m = record { mode = idle; pid = some 0; calls = []; shm = m }

unfoldable pub kill_subprocess : Executor → Executor
kill_subprocess s = record {
  mode = idle;
  pid = s.pid;
  calls = waitpid s.pid ∷ kill s.pid ∷ s.calls;
  shm = if same_val s.mode challenge then s.shm else reset_params s.shm;
}

-- The parent's side of `start_mode_subprocess` and what `main` does with the result.
unfoldable pub start_mode_subprocess : RobotDescVal → Pid → Executor → Executor
start_mode_subprocess new_mode forked s = record {
  mode = elim forked [ none ↦ idle | some child ↦ new_mode ];
  pid = forked;
  calls = fork forked ∷ s.calls;
  shm = s.shm;
}

-- One round of the loop of `main`.
unfoldable pub main_round : Pid → Executor → Executor
main_round forked s =
    let (m1, new_mode) = robot_desc_read run_mode s.shm in
    let s1 = record s { shm = m1 } in
    if same_val new_mode s.mode
    then s1
    else let s2 = if same_val s.mode idle then s1 else kill_subprocess s1 in
      if same_val new_mode idle then s2 else start_mode_subprocess new_mode forked s2

-- The handler of SIGINT, after which the process ends.
unfoldable pub exit_handler : Executor → Executor
exit_handler s = if same_val s.mode idle then s else kill_subprocess s

-- The end of the child that runs the challenges, when it is not stopped by its alarm.
unfoldable pub end_challenges : Shm → Shm
end_challenges m = robot_desc_write run_mode idle m
