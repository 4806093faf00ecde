-- ===== src/Executor/Child.antt =====
-- The start of the child process, `executor_init` and the child's side of `start_mode_subprocess`
-- in executor/executor.c. References are not counted.
pub mod Modes
use c_runtime.Prelude.{ℕ, Bool, true, false, ◌&&◌, Option, none, some, Outcome, done, fault, ◌>>=◌}
use c_runtime.Prelude.{if◌then◌else◌}
use c_runtime.RuntimeUtil.Types.{RobotDescVal, challenge}
use c_runtime.Executor.Modes.{same_val}
use c_runtime.Executor.Python.{Interpreter, Globals, End, exited, run_mode}
use Prim.Native.String.{String}

-- `exit(1)` on NULL, here as `none` with the state at that point.
infixl 5 ◌or_exit◌
abbrev pub ◌or_exit◌ {ℓ κ} :
    {Py : Type 0} {A : Type ℓ} {B : Type κ}
    → Option A × Py
    → (A → Py → Option B × Py)
    → Option B × Py
(none, py) or_exit next = (none, py)
(some a, py) or_exit next = next a py

module _ {Py Value : Type 0} (python : Interpreter Py Value) where
  -- Finding a class of the API and making an instance of it.
  unfoldable pub make_instance : Value → String → Py → Option Value × Py
  make_instance api name py =
      python.get_attr api name py or_exit (λ made py1. python.call_object made none py1)

  -- The three errors are joined, so each attribute is set even when one before it failed.
  unfoldable pub insert_api : Value → Value → Value → Value → Py → Bool × Py
  insert_api student robot gamepad keyboard py =
      let (ok1, py1) = python.set_attr student "Robot" robot py in
      let (ok2, py2) = python.set_attr student "Gamepad" gamepad py1 in
      let (ok3, py3) = python.set_attr student "Keyboard" keyboard py2 in (ok1 && (ok2 && ok3), py3)

  -- The end of `executor_init`, from the insertion of the API into the student's code on.
  unfoldable pub connect_api :
      String → Value → Value → Value → Value → Value → Py → Option (Globals Value) × Py
  connect_api student_code api student robot gamepad keyboard py =
      let (ok, py1) = insert_api student robot gamepad keyboard py in
      if ok
      then python.call_method api "make_device_subs" (some student_code) py1
        or_exit (λ ret py2. (some (record { student = student; robot = some robot }), py2))
      else (none, py1)

  -- The instances of the three classes, for the modes other than CHALLENGE.
  unfoldable pub make_robot : String → Value → Value → Py → Option (Globals Value) × Py
  make_robot student_code api student py = make_instance api "Robot" py or_exit (λ robot py1.
      make_instance api "Gamepad" py1 or_exit (λ gamepad py2.
        make_instance api "Keyboard" py2
        or_exit (λ keyboard py3. connect_api student_code api student robot gamepad keyboard py3)))

  unfoldable pub init_student :
      RobotDescVal → String → Value → Value → Py → Option (Globals Value) × Py
  init_student mode student_code api student py =
      if same_val mode challenge
      then (some (record { student = student; robot = none }), py)
      else make_robot student_code api student py

  unfoldable pub executor_init : RobotDescVal → String → Py → Option (Globals Value) × Py
  executor_init mode student_code py = python.import_module "studentapi" py or_exit (λ api py1.
      python.import_module student_code py1
      or_exit (λ student py2. init_student mode student_code api student py2))

  -- The child's side, for a mode other than CHALLENGE.
  unfoldable pub run_child : ℕ → RobotDescVal → String → Py → Outcome (End Py Value)
  run_child fuel mode student_code py =
      let (globals, py1) = executor_init mode student_code py in
      elim globals [ none ↦ done (exited 1 py1) | some g ↦ run_mode python fuel mode g py1 ]
