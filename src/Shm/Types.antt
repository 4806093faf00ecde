-- ===== src/Shm/Types.antt =====
-- The shared memory of shm_wrapper/shm_wrapper.h as one state, and its semaphores.
use c_runtime.Prelude.{ℕ, Bool, true, false, List, ◌∷◌, update}
use c_runtime.Prelude.{if◌then◌else◌}
use c_runtime.RuntimeUtil.Types.{DevId, ParamType, ParamVal, RobotDescField, RobotDescVal}

-- `stream_t`.
pub data Stream : Type 0 where
  data_stream : Stream
  command_stream : Stream

-- The arrays are total; the code keeps their indices below 33, 32 and 32.
pub record DevShm : Type 0 where
  pub catalog : ℕ
  pub cmd_map : ℕ → ℕ
  pub net_sub_map : ℕ → ℕ
  pub exec_sub_map : ℕ → ℕ
  pub params : Stream → ℕ → ℕ → ParamVal
  pub dev_ids : ℕ → DevId

-- Floats are kept as the words that hold them.
pub record Input : Type 0 where
  pub buttons : ℕ
  pub joysticks : ℕ → ℕ
  pub source : RobotDescField

-- A name is its bytes before the closing zero.
pub record LogData : Type 0 where
  pub num_params : ℕ
  pub names : ℕ → List ℕ
  pub types : ℕ → ParamType
  pub params : ℕ → ParamVal

pub data Sem : Type 0 where
  catalog_sem : Sem
  cmd_map_sem : Sem
  sub_map_sem : Sem
  input_sem : Sem
  rd_sem : Sem
  log_data_sem : Sem
  data_sem : ℕ → Sem
  command_sem : ℕ → Sem

pub data SemEvent : Type 0 where
  wait : Sem → SemEvent
  post : Sem → SemEvent

-- The four blocks, and the calls on semaphores so far, the last one first.
pub record Shm : Type 0 where
  pub dev : DevShm
  pub inputs : ℕ → Input
  pub fields : RobotDescField → RobotDescVal
  pub log_data : LogData
  pub events : List SemEvent

-- A call that fails is only logged, and is not modelled.
abbrev pub my_sem_wait : Sem → Shm → Shm
my_sem_wait s m = record m { events = wait s ∷ m.events }

abbrev pub my_sem_post : Sem → Shm → Shm
my_sem_post s m = record m { events = post s ∷ m.events }

-- The semaphore of a stream of a device.
abbrev pub stream_sem : Stream → ℕ → Sem
stream_sem data_stream dev_ix = data_sem dev_ix
stream_sem command_stream dev_ix = command_sem dev_ix

abbrev pub on_dev : (DevShm → DevShm) → Shm → Shm
on_dev f m = record m { dev = f m.dev }

abbrev pub same_stream : Stream → Stream → Bool
same_stream data_stream data_stream = true
same_stream data_stream command_stream = false
same_stream command_stream data_stream = false
same_stream command_stream command_stream = true

-- `params[stream][dev_ix] = row`.
abbrev pub put_row :
    Stream → ℕ → (ℕ → ParamVal) → (Stream → ℕ → ℕ → ParamVal) → Stream → ℕ → ℕ → ParamVal
put_row stream dev_ix row params s =
    if same_stream stream s then update (params s) dev_ix row else params s
