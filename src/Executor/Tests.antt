-- ===== src/Executor/Tests.antt =====
-- The properties of the executor at concrete states.
use c_runtime.Prelude.{ℕ, suc, ◌<◌, ◌≡◌, ◌⊎◌, refl, sym, ◌∙◌, arith}
use c_runtime.Prelude.{
  true, false, ◌||◌, Option, none, some, List, [], ◌∷◌, done, fault, if◌then◌else◌, leb,
}
use c_runtime.Prelude.Bits.{has_bit, has_bit-set, has_bit-zero}
use c_runtime.RuntimeUtil.Types.{DevId, idle, auto, teleop, challenge, run_mode}
use c_runtime.Shm.Types.{Shm}
use c_runtime.Shm.Start.{start_shm, start_devices}
use c_runtime.Shm.Inputs.{robot_desc_write}
use c_runtime.Shm.Devices.Places.{HasUniqueUids}
use c_runtime.Executor.Reset.Koalas.{IsReset}
use c_runtime.Executor.Modes.{get_mode_str, Executor, fork, start_executor, main_round, same_val}
use c_runtime.Executor.Modes.Runs.{
  IsExecutor, here, next, round, main_round_cases, next_mode, Runs-IsExecutor,
}
use c_runtime.Executor.Python.{
  Interpreter, Globals, returned, exited, run_py_function, run_loop, run_turn,
}
use c_runtime.Executor.Python.Runs.{ModeRun}
use c_runtime.Executor.Child.{run_child}
use c_runtime.Executor.Child.Modes.{IsInit, run_child_cases}
use c_runtime.Executor.Challenges.{
  Objects, sent_texts, run_challenge, times_out, answer_from, convert_answer,
}
use c_runtime.Executor.Challenges.Outputs.{
  Gives, result, finished, IsReceived, sent_texts-times_out,
}
use Prim.Native.String.{String}

-- A KoalaBear at place 3.
abbrev koala : DevId
koala = record { type = 6; year = 2; uid = 77 }

abbrev one_koala : Shm
one_koala = record start_shm { dev = record start_devices { catalog = 8; dev_ids = λ i. koala } }

one_place : (i : ℕ) → i < 32 → has_bit 8 i ≡ true → i ≡ 3
one_place i h e = ground (arith, e, has_bit-set i 3 0, has_bit-zero i)

one_koala-HasUniqueUids : HasUniqueUids one_koala.dev
one_koala-HasUniqueUids i j h k a b e = one_place i h a ∙ sym (one_place j k b)

-- The executor runs TELEOP and finds IDLE.
abbrev in_teleop : Executor
in_teleop = record {
  mode = teleop;
  pid = some 41;
  calls = fork (some 41) ∷ [];
  shm = robot_desc_write run_mode idle one_koala;
}

main_round_cases_example :
    let new_mode = in_teleop.shm.fields run_mode in
    let t = main_round none in_teleop in
    if same_val new_mode in_teleop.mode
    then (t.mode ≡ in_teleop.mode)
      × (t.pid ≡ in_teleop.pid)
      × (t.calls ≡ in_teleop.calls)
      × (t.shm.dev ≡ in_teleop.shm.dev)
    else (t.mode ≡ next_mode new_mode none)
      × (if same_val in_teleop.mode idle || same_val in_teleop.mode challenge
          then t.shm.dev ≡ in_teleop.shm.dev
          else IsReset 0 32 in_teleop.shm.dev t.shm.dev)
main_round_cases_example =
    main_round_cases none in_teleop (unfold robot_desc_write in one_koala-HasUniqueUids)

-- The executor starts a mode and is told to stop it.
abbrev wants_auto : Shm
wants_auto = robot_desc_write run_mode auto start_shm

abbrev started : Executor
started = main_round (some 41) (start_executor wants_auto)

Runs-IsExecutor_example : IsExecutor (main_round none started)
Runs-IsExecutor_example =
    Runs-IsExecutor wants_auto (next (next here (round (some 41))) (round none))

-- An interpreter that counts calls, in which the third call leaves an error in an action.
abbrev counting : Interpreter ℕ ℕ
counting = record {
  import_module = λ name py. (some 0, py);
  get_attr = λ v name py. (some 1, py);
  set_attr = λ v name w py. (true, py);
  is_callable = λ v py. true;
  call_object = λ v args py. (some 7, suc py);
  call_method = λ v name args py. (some 2, py);
  is_true = λ v py. leb 6 py;
  is_timeout_error = λ py. false;
}

auto_name : get_mode_str auto ≡ some "autonomous"
unfolding get_mode_str
auto_name = refl

run_child_cases_example :
    let result = run_child counting 9 auto "studentcode" 0 in
    ((student : ℕ) × (robot : ℕ) × (py1 : ℕ) × IsInit counting "studentcode" student robot 0 py1
      × ModeRun counting 9 auto
          (record { student = student; robot = some robot })
          robot
          "autonomous"
          py1
          result)
    ⊎ (((student robot : ℕ) (py1 : ℕ) → ¬ IsInit counting "studentcode" student robot 0 py1)
        × ((py1 : ℕ) × (result ≡ done (exited 1 py1))))
run_child_cases_example = run_child_cases counting 8 auto "studentcode" "autonomous" 0 auto_name

abbrev objects : Objects ℕ ℕ
objects = record {
  list_size = λ v py. (some 2, py);
  get_item = λ v i py. (some 5, py);
  as_utf8 = λ v py. (some "seven", py);
  build_long = λ n py. (some n, py);
  to_str = λ v py. (some 6, py);
  released = λ v c py. (some c, py);
}

abbrev globals : Globals ℕ
globals = record { student = 0; robot = none }

abbrev two_inputs : List ℕ → Option (List String)
two_inputs bytes = some ("1" ∷ "2" ∷ [])

one_call :
    (py : ℕ)
    → run_py_function counting 3 challenge globals "seven" false (some 0) py
      ≡ done (returned 0 (some 7) (suc py))
unfolding run_py_function run_loop run_turn
one_call py = refl

abbrev seven_given :
    (i py : ℕ) (input : String)
    → Gives counting objects (λ t. 0) 3 globals 1 i input py "seven" (suc py)
seven_given i py input =
    result 5 0 6 "seven" "seven" "seven" py py py (suc py) (suc py) (suc py) (suc py) 0 (some 7)
      refl refl refl (one_call py) (λ e. omega (arith, e)) refl refl refl

-- The same where every call raises a TimeoutError.
abbrev late : Interpreter ℕ ℕ
late = record counting { call_object = λ v args py. (none, suc py); is_timeout_error = λ py. true }

late-IsReceived :
    IsReceived late objects (λ t. 0) 3 globals 1 two_inputs (9 ∷ []) ("1" ∷ "2" ∷ []) 0 0
late-IsReceived = record {
  listed = refl;
  sized = (2, refl, omega arith);
  not_empty = λ e. omega (arith, e);
  unpacked = refl;
  state = refl;
}

late_first : run_challenge late objects (λ t. 0) 3 globals 1 0 "1" 0 ≡ done (times_out 1)
unfolding run_challenge run_py_function run_loop run_turn answer_from convert_answer
late_first = refl

sent_texts-times_out_example :
    sent_texts late objects (λ t. 0) two_inputs 3 globals (some (9 ∷ [])) 0 ≡ fault
sent_texts-times_out_example =
    sent_texts-times_out late objects (λ t. 0) 3 globals 1 two_inputs (9 ∷ []) [] "1" "2" [] 0 0 0 1
      [] late-IsReceived (finished 0 0) late_first
