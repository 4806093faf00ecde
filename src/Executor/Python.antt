-- ===== src/Executor/Python.antt =====
-- The student's code under the embedded interpreter, of executor/executor.c. The interpreter is a
-- parameter: a state with its calls. Logging, the clock and the sleep that slows a fast function
-- down have no effect on the results and are left out.
pub mod Runs
use c_runtime.Prelude.{
  ℕ, zero, suc, Bool, true, false, not, ◌||◌, ◌&&◌, Option, none, some, List, [], ◌∷◌,
}
use c_runtime.Prelude.{Outcome, done, fault, ◌>>=◌, from_option, ◌==◌, if◌then◌else◌}
use c_runtime.RuntimeUtil.Types.{RobotDescVal, challenge}
use c_runtime.Executor.Modes.{same_val, get_mode_str}
use Prim.Native.String.{String, ◌++◌}

-- The calls of the interpreter; `none` is NULL.
pub record Interpreter (Py Value : Type 0) : Type 0 where
  pub import_module : String → Py → Option Value × Py
  pub get_attr : Value → String → Py → Option Value × Py
  pub set_attr : Value → String → Value → Py → Bool × Py
  pub is_callable : Value → Py → Bool
  pub call_object : Value → Option Value → Py → Option Value × Py
  pub call_method : Value → String → Option String → Py → Option Value × Py
  pub is_true : Value → Py → Bool
  pub is_timeout_error : Py → Bool

-- What `executor_init` leaves in the global variables of the child.
pub record Globals (Value : Type 0) : Type 0 where
  pub student : Value
  pub robot : Option Value

-- How a function of the child ends: with a code, by `exit`, or not within the fuel.
pub data End (Py Value : Type 0) : Type 0 where
  returned : ℕ → Option Value → Py → End Py Value
  exited : ℕ → Py → End Py Value
  running : Py → End Py Value

-- One call of the student's function: `again` when nothing is wrong.
pub data Turn (Py Value : Type 0) : Type 0 where
  again : Option Value → Py → Turn Py Value
  stop : ℕ → Option Value → Py → Turn Py Value
  leave : ℕ → Py → Turn Py Value

module _ {Py Value : Type 0} (python : Interpreter Py Value) where
  -- The test of the event that an action sets on an error.
  unfoldable pub check_event : Value → Option Value → Py → Turn Py Value
  check_event robot value py =
      let (event, py1) = python.get_attr robot "error_event" py in
      elim event [
        | none ↦ leave 2 py1
        | some e ↦
            let (event_set, py2) = python.call_method e "is_set" none py1 in
            elim event_set [
              | none ↦ if not (python.is_timeout_error py2) then leave 2 py2 else stop 3 value py2
              | some b ↦ if python.is_true b py2 then stop 1 value py2 else again value py2
            ]
      ]

  -- The body of the loop of `run_py_function`; `none` for `pRobot` is NULL, which the interpreter
  -- would follow.
  unfoldable pub run_turn :
      RobotDescVal → Option Value → Value → Option Value → Py → Outcome (Turn Py Value)
  run_turn mode robot func args py =
      let (value, py1) = python.call_object func args py in
      elim value [
        | none ↦ done (stop (if not (python.is_timeout_error py1) then 2 else 3) none py1)
        | some v ↦
            if not (same_val mode challenge)
            then from_option robot >>= (λ r. done (check_event r (some v) py1))
            else done (again (some v) py1)
      ]

  -- The loop of `run_py_function`.
  unfoldable pub run_loop :
      ℕ → Bool → RobotDescVal → Option Value → Value → Option Value → Py → Outcome (End Py Value)
  run_loop zero loop mode robot func args py = done (running py)
  run_loop (suc fuel) loop mode robot func args py = run_turn mode robot func args py >>= (λ turn.
      elim turn [
        | stop code value py1 ↦ done (returned code value py1)
        | leave code py1 ↦ done (exited code py1)
        | again value py1 ↦ elim loop [
          | false ↦ done (returned 0 value py1)
          | true ↦ run_loop fuel true mode robot func args py1
        ]
      ])

  unfoldable pub run_py_function :
      ℕ → RobotDescVal → Globals Value → String → Bool → Option Value → Py → Outcome (End Py Value)
  run_py_function fuel mode globals func_name loop args py =
      let (found, py1) = python.get_attr globals.student func_name py in
      elim found [
        | none ↦ done (returned 4 none py1)
        | some func ↦
            if python.is_callable func py1
            then run_loop fuel loop mode globals.robot func args py1
            else done (returned 4 none py1)
      ]

  -- Whether the function is to be run on, by the code that the first one returned.
  unfoldable pub run_mode_from :
      ℕ → RobotDescVal → Globals Value → String → End Py Value → Outcome (End Py Value)
  run_mode_from fuel mode globals main_str (returned code value py) =
      if code == 0
      then run_py_function fuel mode globals main_str true none py
      else done (returned code value py)
  run_mode_from fuel mode globals main_str (exited code py) = done (exited code py)
  run_mode_from fuel mode globals main_str (running py) = done (running py)

  -- `sprintf` would follow the NULL of an invalid mode.
  unfoldable pub run_mode : ℕ → RobotDescVal → Globals Value → Py → Outcome (End Py Value)
  run_mode fuel mode globals py = from_option (get_mode_str mode) >>= (λ mode_str.
      run_py_function fuel mode globals (mode_str ++ "_setup") false none py
      >>= run_mode_from fuel mode globals (mode_str ++ "_main"))
