-- ===== src/Executor/Python/Runs.antt =====
-- Which functions of the student's code run_mode calls, and how long.
use c_runtime.Prelude.{ℕ, zero, suc, ◌<◌, ◌≡◌, ◌≢◌, ◌⊎◌, inl, inr, refl, ap, ◌∙◌, arith}
use c_runtime.Prelude.{
  Bool, true, false, Option, none, some, Outcome, done, Bool-cases, Option-cases,
}
use c_runtime.RuntimeUtil.Types.{RobotDescVal, challenge}
use c_runtime.Executor.Modes.{same_val, get_mode_str}
use c_runtime.Executor.Python.{
  Interpreter, Globals, End, Turn, returned, exited, running, again, stop, leave, run_turn,
  run_loop, run_py_function, run_mode_from, run_mode, check_event,
}
use Prim.Native.String.{String, ◌++◌}

module _ {Py Value : Type 0} (python : Interpreter Py Value) (mode : RobotDescVal) (robot : Value)
    (func : Value) (args : Option Value) where
  -- The states after the call of the function, after the event of the robot is looked up, and
  -- after it is asked whether it is set.
  abbrev pub after_call : Py → Py
  after_call py = (python.call_object func args py).1

  abbrev pub after_event : Py → Py
  after_event py = (python.get_attr robot "error_event" (after_call py)).1

  abbrev pub after_asked : Value → Py → Py
  after_asked event py = (python.call_method event "is_set" none (after_event py)).1

  -- The call gave a value, in a mode with a robot, and the robot has an event.
  abbrev pub HasEvent : Value → Value → Py → Type 0
  HasEvent v event py =
      ((python.call_object func args py).0 ≡ some v)
      × (same_val mode challenge ≡ false)
      × ((python.get_attr robot "error_event" (after_call py)).0 ≡ some event)

  -- A call of the function, and what is to become of it: it is good if it gives a value and no action
  -- set the event of the robot.
  pub data Called (py : Py) : Turn Py Value → Type 0 where
    good :
        (v event flag : Value)
        → HasEvent v event py
        → (python.call_method event "is_set" none (after_event py)).0 ≡ some flag
        → python.is_true flag (after_asked event py) ≡ false
        → Called py (again (some v) (after_asked event py))
    good_challenge :
        (v : Value)
        → (python.call_object func args py).0 ≡ some v
        → same_val mode challenge ≡ true
        → Called py (again (some v) (after_call py))
    raised :
        (python.call_object func args py).0 ≡ none
        → python.is_timeout_error (after_call py) ≡ false
        → Called py (stop 2 none (after_call py))
    timed_out :
        (python.call_object func args py).0 ≡ none
        → python.is_timeout_error (after_call py) ≡ true
        → Called py (stop 3 none (after_call py))
    no_event :
        (v : Value)
        → (python.call_object func args py).0 ≡ some v
        → same_val mode challenge ≡ false
        → (python.get_attr robot "error_event" (after_call py)).0 ≡ none
        → Called py (leave 2 (after_event py))
    no_flag :
        (v event : Value)
        → HasEvent v event py
        → (python.call_method event "is_set" none (after_event py)).0 ≡ none
        → python.is_timeout_error (after_asked event py) ≡ false
        → Called py (leave 2 (after_asked event py))
    flag_timed_out :
        (v event : Value)
        → HasEvent v event py
        → (python.call_method event "is_set" none (after_event py)).0 ≡ none
        → python.is_timeout_error (after_asked event py) ≡ true
        → Called py (stop 3 (some v) (after_asked event py))
    set_by_action :
        (v event flag : Value)
        → HasEvent v event py
        → (python.call_method event "is_set" none (after_event py)).0 ≡ some flag
        → python.is_true flag (after_asked event py) ≡ true
        → Called py (stop 1 (some v) (after_asked event py))

  -- Calls of the function with nothing wrong, one after the other.
  pub data GoodCalls : Py → ℕ → Py → Type 0 where
    no_more : (py : Py) → GoodCalls py 0 py
    one_more :
        (n : ℕ) (py py1 py2 : Py) (value : Option Value)
        → Called py (again value py1)
        → GoodCalls py1 n py2
        → GoodCalls py (suc n) py2

  -- The last call of the function, and the end that the loop has with it.
  pub data LastCall (py : Py) : End Py Value → Type 0 where
    stopped :
        (code : ℕ) (value : Option Value) (py1 : Py)
        → code ≢ 0
        → Called py (stop code value py1)
        → LastCall py (returned code value py1)
    left : (code : ℕ) (py1 : Py) → Called py (leave code py1) → LastCall py (exited code py1)

  -- The three results of a call.
  data TurnCase (py : Py) : Type 0 where
    goes_on :
        (value : Option Value) (py1 : Py)
        → run_turn python mode (some robot) func args py ≡ done (again value py1)
        → Called py (again value py1)
        → TurnCase py
    stops :
        (code : ℕ) (value : Option Value) (py1 : Py)
        → code ≢ 0
        → run_turn python mode (some robot) func args py ≡ done (stop code value py1)
        → Called py (stop code value py1)
        → TurnCase py
    leaves :
        (code : ℕ) (py1 : Py)
        → run_turn python mode (some robot) func args py ≡ done (leave code py1)
        → Called py (leave code py1)
        → TurnCase py

  -- Either every call within the fuel is good, or the first call that is not ends the loop.
  abbrev pub Ran : ℕ → Py → Outcome (End Py Value) → Type 0
  Ran fuel py result =
      ((py1 : Py) × GoodCalls py fuel py1 × (result ≡ done (running py1)))
      ⊎ ((n : ℕ) × (py1 : Py) × (end : End Py Value) × (n < fuel)
          × GoodCalls py n py1
          × LastCall py1 end
          × (result ≡ done end))

  Ran-more :
      (fuel : ℕ) (py py1 : Py) (value : Option Value) (result : Outcome (End Py Value))
      → Called py (again value py1)
      → Ran fuel py1 result
      → Ran (suc fuel) py result
  Ran-more fuel py py1 value result e (inl (py2, g, r)) =
      inl (py2, one_more _ py py1 py2 value e g, r)
  Ran-more fuel py py1 value result e (inr (n, py2, end, below, g, l, r)) =
      inr (suc n, py2, end, omega (arith, below), one_more _ py py1 py2 value e g, l, r)

  module _ (turns : (py : Py) → TurnCase py) where
    run_loop-Ran :
        (fuel : ℕ) (py : Py)
        → Ran fuel py (run_loop python fuel true mode (some robot) func args py)
    unfolding run_loop
    run_loop-Ran zero py = inl (py, no_more py, refl)
    run_loop-Ran (suc fuel) py = elim (turns py) [
      | goes_on value py1 e k ↦ rw e (Ran-more fuel py py1 value _ k (run_loop-Ran fuel py1))
      | stops code value py1 bad e k ↦ rw e (
          inr (
            0,
            py,
            returned code value py1,
            omega arith,
            no_more py,
            stopped code value py1 bad k,
            refl,
          ))
      | leaves code py1 e k ↦
          rw e (inr (0, py, exited code py1, omega arith, no_more py, left code py1 k, refl))
    ]

-- A call whose result is known, by what it is.
module _ {Py Value : Type 0} (python : Interpreter Py Value) where
  check_event_lem :
      (mode : RobotDescVal) (robot func : Value) (args : Option Value) (py : Py) (v : Value)
      → (python.call_object func args py).0 ≡ some v
      → same_val mode challenge ≡ false
      → run_turn python mode (some robot) func args py
        ≡ done (check_event python robot (some v) (python.call_object func args py).1)
      → TurnCase python mode robot func args py
  unfolding check_event
  check_event_lem mode robot func args py v called other e =
      let event : Option Value × Py =
        python.get_attr robot "error_event" (python.call_object func args py).1 in
      elim (Option-cases event.0) [
        | inl f ↦ leaves 2 event.1 (e ∙ rw (check_event, f) refl) (no_event v called other f)
        | inr (w, f) ↦
            let event_set : Option Value × Py = python.call_method w "is_set" none event.1 in
            elim (Option-cases event_set.0) [
              | inl g ↦ elim (Bool-cases (python.is_timeout_error event_set.1)) [
                | inl h ↦
                    stops 3 (some v) event_set.1 (λ z. omega (arith, z))
                      (e ∙ rw (check_event, f, g, h) refl)
                      (flag_timed_out v w (called, other, f) g h)
                | inr h ↦
                    leaves 2 event_set.1 (e ∙ rw (check_event, f, g, h) refl)
                      (no_flag v w (called, other, f) g h)
              ]
              | inr (b, g) ↦ elim (Bool-cases (python.is_true b event_set.1)) [
                | inl h ↦
                    stops 1 (some v) event_set.1 (λ z. omega (arith, z))
                      (e ∙ rw (check_event, f, g, h) refl)
                      (set_by_action v w b (called, other, f) g h)
                | inr h ↦
                    goes_on (some v) event_set.1 (e ∙ rw (check_event, f, g, h) refl)
                      (good v w b (called, other, f) g h)
              ]
            ]
      ]

  run_turn_cases :
      (mode : RobotDescVal) (robot func : Value) (args : Option Value) (py : Py)
      → TurnCase python mode robot func args py
  unfolding run_turn
  run_turn_cases mode robot func args py =
      let value : Option Value × Py = python.call_object func args py in
      elim (Option-cases value.0) [
        | inl f ↦ elim (Bool-cases (python.is_timeout_error value.1)) [
          | inl h ↦
              stops 3 none value.1 (λ z. omega (arith, z)) (rw (run_turn, f, h) refl)
                (timed_out f h)
          | inr h ↦
              stops 2 none value.1 (λ z. omega (arith, z)) (rw (run_turn, f, h) refl) (raised f h)
        ]
        | inr (v, f) ↦ elim (Bool-cases (same_val mode challenge)) [
          | inl h ↦ goes_on (some v) value.1 (rw (run_turn, f, h) refl) (good_challenge v f h)
          | inr h ↦ check_event_lem mode robot func args py v f h (rw (run_turn, f, h) refl)
        ]
      ]

  -- The state after a function was looked up.
  abbrev pub looked : Globals Value → String → Py → Py
  looked globals name py = (python.get_attr globals.student name py).1

  -- Whether the student's code has a function of this name.
  pub data Found (globals : Globals Value) (name : String) (py : Py) : Option Value → Type 0 where
    found :
        (func : Value)
        → (python.get_attr globals.student name py).0 ≡ some func
        → python.is_callable func (looked globals name py) ≡ true
        → Found globals name py (some func)
    missing : (python.get_attr globals.student name py).0 ≡ none → Found globals name py none
    not_callable :
        (func : Value)
        → (python.get_attr globals.student name py).0 ≡ some func
        → python.is_callable func (looked globals name py) ≡ false
        → Found globals name py none

  Found-cases :
      (globals : Globals Value) (name : String) (py : Py)
      → Found globals name py none ⊎ ((func : Value) × Found globals name py (some func))
  Found-cases globals name py =
      let got : Option Value × Py = python.get_attr globals.student name py in
      elim (Option-cases got.0) [
        | inl e ↦ inl (missing e)
        | inr (func, e) ↦ elim (Bool-cases (python.is_callable func got.1)) [
          | inl f ↦ inr (func, found func e f)
          | inr f ↦ inl (not_callable func e f)
        ]
      ]

  -- A run of a mode with setup and main functions of these names: what is called, and what it
  -- comes to.
  pub data ModeRun (fuel : ℕ) (mode : RobotDescVal) (globals : Globals Value) (robot : Value)
      (name : String) (py : Py) : Outcome (End Py Value) → Type 0 where
    no_setup :
        Found globals (name ++ "_setup") py none
        → ModeRun fuel mode globals robot name py
            (done (returned 4 none (looked globals (name ++ "_setup") py)))
    bad_setup :
        (setup : Value) (end : End Py Value)
        → Found globals (name ++ "_setup") py (some setup)
        → LastCall python mode robot setup none (looked globals (name ++ "_setup") py) end
        → ModeRun fuel mode globals robot name py (done end)
    no_main :
        (setup : Value) (py1 : Py) (value : Option Value)
        → Found globals (name ++ "_setup") py (some setup)
        → Called python mode robot setup none
            (looked globals (name ++ "_setup") py)
            (again value py1)
        → Found globals (name ++ "_main") py1 none
        → ModeRun fuel mode globals robot name py
            (done (returned 4 none (looked globals (name ++ "_main") py1)))
    main_runs :
        (setup main : Value) (py1 : Py) (value : Option Value) (result : Outcome (End Py Value))
        → Found globals (name ++ "_setup") py (some setup)
        → Called python mode robot setup none
            (looked globals (name ++ "_setup") py)
            (again value py1)
        → Found globals (name ++ "_main") py1 (some main)
        → Ran python mode robot main none fuel (looked globals (name ++ "_main") py1) result
        → ModeRun fuel mode globals robot name py result

  run_py_function-missing :
      (fuel : ℕ) (mode : RobotDescVal) (globals : Globals Value) (name : String) (loop : Bool)
      (args : Option Value) (py : Py)
      → Found globals name py none
      → run_py_function python fuel mode globals name loop args py
        ≡ done (returned 4 none (looked globals name py))
  unfolding run_py_function
  run_py_function-missing fuel mode globals name loop args py (missing e) =
      rw (run_py_function, e) refl
  run_py_function-missing fuel mode globals name loop args py (not_callable func e f) =
      rw (run_py_function, e, f) refl

  run_py_function-Found :
      (fuel : ℕ) (mode : RobotDescVal) (globals : Globals Value) (name : String) (loop : Bool)
      (args : Option Value) (py : Py) (func robot : Value)
      → globals.robot ≡ some robot
      → Found globals name py (some func)
      → run_py_function python fuel mode globals name loop args py
        ≡ run_loop python fuel loop mode (some robot) func args (looked globals name py)
  unfolding run_py_function
  run_py_function-Found fuel mode globals name loop args py func robot r (found _ e f) =
      let py1 : Py = looked globals name py in
      let step : run_py_function python fuel mode globals name loop args py
          ≡ run_loop python fuel loop mode globals.robot func args py1 =
        rw (run_py_function, e, f) refl in
      step ∙ ap (λ o. run_loop python fuel loop mode o func args py1) r

  run_mode_from-stopped :
      (fuel : ℕ) (mode : RobotDescVal) (globals : Globals Value) (main_str : String) (code : ℕ)
      (value : Option Value) (py : Py)
      → code ≢ 0
      → run_mode_from python fuel mode globals main_str (returned code value py)
        ≡ done (returned code value py)
  unfolding run_mode_from
  run_mode_from-stopped fuel mode globals main_str code value py bad = ground (arith, bad)

  run_main-ModeRun :
      (fuel : ℕ) (mode : RobotDescVal) (globals : Globals Value) (robot : Value) (name : String)
      (py py1 : Py) (setup : Value) (value : Option Value)
      → globals.robot ≡ some robot
      → Found globals (name ++ "_setup") py (some setup)
      → Called python mode robot setup none (looked globals (name ++ "_setup") py) (again value py1)
      → ModeRun fuel mode globals robot name py
          (run_py_function python fuel mode globals (name ++ "_main") true none py1)
  run_main-ModeRun fuel mode globals robot name py py1 setup value r f e =
      elim (Found-cases globals (name ++ "_main") py1) [
        | inl g ↦
            rw (run_py_function-missing fuel mode globals (name ++ "_main") true none py1 g)
              (no_main setup py1 value f e g)
        | inr (main, g) ↦
            rw
              (run_py_function-Found fuel mode globals (name ++ "_main") true none py1 main robot r
                g)
              (main_runs setup main py1 value _ f e g (
                run_loop-Ran python mode robot main none (run_turn_cases mode robot main none) fuel
                  (looked globals (name ++ "_main") py1)))
      ]

  -- In autonomous and in teleop, with the robot that executor_init made and some fuel, run_mode
  -- calls the setup function once and then the main function over and over. It ends when a
  -- function is missing or at the first call that is not good, whose code is not 0; after a setup
  -- that is not good the main function is not called. As long as the calls of the main function
  -- are good, it goes on.
  pub run_mode-ModeRun :
      (fuel : ℕ) (mode : RobotDescVal) (globals : Globals Value) (robot : Value) (name : String)
      (py : Py)
      → get_mode_str mode ≡ some name
      → globals.robot ≡ some robot
      → ModeRun (suc fuel) mode globals robot name py (run_mode python (suc fuel) mode globals py)
  unfolding run_mode run_loop
  run_mode-ModeRun fuel mode globals robot name py n r =
      elim (Found-cases globals (name ++ "_setup") py) [
        | inl g ↦
            rw
              (
                n,
                run_py_function-missing (suc fuel) mode globals (name ++ "_setup") false none py g,
                run_mode_from-stopped (suc fuel) mode globals (name ++ "_main") 4 none _
                    (λ z. omega (arith, z)),
              )
              (no_setup g)
        | inr (setup, g) ↦
            let py1 : Py = looked globals (name ++ "_setup") py in
            let enter =
              run_py_function-Found (suc fuel) mode globals (name ++ "_setup") false none py setup
                robot r g in
            elim (run_turn_cases mode robot setup none py1) [
              | goes_on value py2 e k ↦
                  rw (n, enter, e)
                    (unfold run_mode_from in
                      run_main-ModeRun (suc fuel) mode globals robot name py py2 setup value r g k)
              | stops code value py2 bad e k ↦
                  rw
                    (
                      n,
                      enter,
                      e,
                      run_mode_from-stopped (suc fuel) mode globals (name ++ "_main") code value py2
                          bad,
                    )
                    (bad_setup setup (returned code value py2) g (stopped code value py2 bad k))
              | leaves code py2 e k ↦
                  rw (n, enter, e)
                    (unfold run_mode_from in bad_setup setup (exited code py2) g (left code py2 k))
            ]
      ]
