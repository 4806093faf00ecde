-- ===== src/Executor/Child/Modes.antt =====
-- What a child process does in autonomous and in teleop, from its start on.
use c_runtime.Prelude.{ℕ, suc, ◌≡◌, ◌⊎◌, inl, inr, refl, sym, ap, ◌∙◌, arith}
use c_runtime.Prelude.{Bool, true, false, Option, none, some, done, Bool-cases, Option-cases}
use c_runtime.RuntimeUtil.Types.{RobotDescVal, challenge}
use c_runtime.Executor.Modes.{same_val, get_mode_str}
use c_runtime.Executor.Python.{Interpreter, Globals, exited}
use c_runtime.Executor.Python.Runs.{ModeRun, run_mode-ModeRun}
use c_runtime.Executor.Child.{
  ◌or_exit◌, make_instance, insert_api, connect_api, make_robot, init_student, executor_init,
  run_child,
}
use Prim.Native.String.{String}

module _ {Py Value : Type 0} (python : Interpreter Py Value) where
  -- A class of the API and an instance of it.
  pub record IsInstance (api : Value) (name : String) (made : Value) (py py2 : Py) : Type 0 where
    pub class : Value
    pub between : Py
    pub looked_up : python.get_attr api name py ≡ (some class, between)
    pub called : python.call_object class none between ≡ (some made, py2)

  -- The states after the attributes of the student's code are set, one after the other.
  abbrev pub with_robot : Value → Value → Py → Py
  with_robot student robot py = (python.set_attr student "Robot" robot py).1

  abbrev pub with_gamepad : Value → Value → Value → Py → Py
  with_gamepad student robot gamepad py =
      (python.set_attr student "Gamepad" gamepad (with_robot student robot py)).1

  abbrev pub with_keyboard : Value → Value → Value → Value → Py → Py
  with_keyboard student robot gamepad keyboard py =
      (python.set_attr student "Keyboard" keyboard (with_gamepad student robot gamepad py)).1

  -- The start of a child that runs the student's code, with every step on the way: both modules are
  -- there, the three classes have instances, all of them are set in the student's code, and the
  -- subscriptions are made.
  pub record IsInit (student_code : String) (student robot : Value) (py py' : Py) : Type 0 where
    pub api : Value
    pub gamepad : Value
    pub keyboard : Value
    pub ret : Value
    pub py1 : Py
    pub py2 : Py
    pub py3 : Py
    pub py4 : Py
    pub py5 : Py
    pub has_api : python.import_module "studentapi" py ≡ (some api, py1)
    pub has_student : python.import_module student_code py1 ≡ (some student, py2)
    pub has_robot : IsInstance api "Robot" robot py2 py3
    pub has_gamepad : IsInstance api "Gamepad" gamepad py3 py4
    pub has_keyboard : IsInstance api "Keyboard" keyboard py4 py5
    pub robot_set : (python.set_attr student "Robot" robot py5).0 ≡ true
    pub gamepad_set :
        (python.set_attr student "Gamepad" gamepad (with_robot student robot py5)).0 ≡ true
    pub keyboard_set :
        (python.set_attr student "Keyboard" keyboard (with_gamepad student robot gamepad py5)).0
        ≡ true
    pub subscribed :
        python.call_method api "make_device_subs"
          (some student_code)
          (with_keyboard student robot gamepad keyboard py5)
        ≡ (some ret, py')

  -- Inversion of a step that does not exit.
  or_exit-eq-some {ℓ κ} :
      {A : Type ℓ} {B : Type κ} (m : Option A × Py) (next : A → Py → Option B × Py) {b : B}
      {py' : Py}
      → (m or_exit next) ≡ (some b, py')
      → (a : A) × (py : Py) × (m ≡ (some a, py)) × (next a py ≡ (some b, py'))
  or_exit-eq-some (none, py) next e = absurd (cc (ap (λ r. r.0) e))
  or_exit-eq-some (some a, py) next e = (a, py, refl, e)

  make_instance-IsInstance :
      (api : Value) (name : String) (made : Value) (py py2 : Py)
      → make_instance python api name py ≡ (some made, py2)
      → IsInstance api name made py py2
  unfolding make_instance
  make_instance-IsInstance api name made py py2 e =
      let c = or_exit-eq-some (python.get_attr api name py) _ e in
      record { class = c.0; between = c.1; looked_up = c.2; called = c.3 }

  IsInstance-make_instance :
      (api : Value) (name : String) (made : Value) (py py2 : Py)
      → IsInstance api name made py py2
      → make_instance python api name py ≡ (some made, py2)
  unfolding make_instance
  IsInstance-make_instance api name made py py2 i = rw i.looked_up i.called

  IsInit-executor_init :
      (mode : RobotDescVal) (student_code : String) (student robot : Value) (py py' : Py)
      → same_val mode challenge ≡ false
      → IsInit student_code student robot py py'
      → executor_init python mode student_code py
        ≡ (some (record { student = student; robot = some robot }), py')
  unfolding executor_init init_student make_robot connect_api insert_api
  IsInit-executor_init mode student_code student robot py py' other i =
      let made_robot = IsInstance-make_instance i.api "Robot" robot i.py2 i.py3 i.has_robot in
      let made_gamepad =
        IsInstance-make_instance i.api "Gamepad" i.gamepad i.py3 i.py4 i.has_gamepad in
      let made_keyboard =
        IsInstance-make_instance i.api "Keyboard" i.keyboard i.py4 i.py5 i.has_keyboard in
      rw
        (
          i.has_api, i.has_student, other, made_robot, made_gamepad, made_keyboard, i.robot_set,
          i.gamepad_set, i.keyboard_set, i.subscribed,
        )
        refl

  connect_api_inv :
      (student_code : String) (api student robot gamepad keyboard : Value) (py py' : Py)
      (globals : Globals Value)
      → connect_api python student_code api student robot gamepad keyboard py ≡ (some globals, py')
      → ((python.set_attr student "Robot" robot py).0 ≡ true)
        × ((python.set_attr student "Gamepad" gamepad (with_robot student robot py)).0 ≡ true)
        × ((python.set_attr student "Keyboard" keyboard (with_gamepad student robot gamepad py)).0
            ≡ true)
        × ((ret : Value) × (python.call_method api "make_device_subs"
                (some student_code)
                (with_keyboard student robot gamepad keyboard py)
              ≡ (some ret, py')))
        × (globals ≡ record { student = student; robot = some robot })
  unfolding connect_api insert_api
  connect_api_inv student_code api student robot gamepad keyboard py py' globals e =
      let set : Bool × Py = insert_api python student robot gamepad keyboard py in
      elim (Bool-cases set.0) [
        | inl f ↦
            let made =
              or_exit-eq-some (python.call_method api "make_device_subs" (some student_code) set.1)
                (λ ret py2. (some (record { student = student; robot = some robot }), py2))
                (rw f at e) in
            let last : made.1 ≡ py' = ap (λ r. r.1) made.3 in
            let here : some (record { student = student; robot = some robot }) ≡ some globals =
              ap (λ r. r.0) made.3 in
            (
              ground (arith, f),
              ground (arith, f),
              ground (arith, f),
              (made.0, made.2 ∙ ap (λ q. (some made.0, q)) last),
              cc here,
            )
        | inr f ↦ absurd (cc (ap (λ r. r.0) (rw f at e)))
      ]

  executor_init_inv :
      (mode : RobotDescVal) (student_code : String) (py py' : Py) (globals : Globals Value)
      → same_val mode challenge ≡ false
      → executor_init python mode student_code py ≡ (some globals, py')
      → (student : Value) × (robot : Value) × IsInit student_code student robot py py'
        × (globals ≡ record { student = student; robot = some robot })
  unfolding executor_init init_student make_robot
  executor_init_inv mode student_code py py' globals other e =
      let api = or_exit-eq-some (python.import_module "studentapi" py) _ e in
      let student = or_exit-eq-some (python.import_module student_code api.1) _ api.3 in
      let made : make_robot python student_code api.0 student.0 student.1 ≡ (some globals, py') =
        rw other at student.3 in
      let robot = or_exit-eq-some (make_instance python api.0 "Robot" student.1) _ made in
      let gamepad = or_exit-eq-some (make_instance python api.0 "Gamepad" robot.1) _ robot.3 in
      let keyboard =
        or_exit-eq-some (make_instance python api.0 "Keyboard" gamepad.1) _ gamepad.3 in
      let c =
        connect_api_inv student_code api.0 student.0 robot.0 gamepad.0 keyboard.0 keyboard.1 py'
          globals keyboard.3 in
      (
        student.0,
        robot.0,
        record {
          api = api.0;
          gamepad = gamepad.0;
          keyboard = keyboard.0;
          ret = c.3.0;
          py1 = api.1;
          py2 = student.1;
          py3 = robot.1;
          py4 = gamepad.1;
          py5 = keyboard.1;
          has_api = api.2;
          has_student = student.2;
          has_robot = make_instance-IsInstance api.0 "Robot" robot.0 student.1 robot.1 robot.2;
          has_gamepad =
              make_instance-IsInstance api.0 "Gamepad" gamepad.0 robot.1 gamepad.1 gamepad.2;
          has_keyboard =
              make_instance-IsInstance api.0 "Keyboard" keyboard.0 gamepad.1 keyboard.1 keyboard.2;
          robot_set = c.0;
          gamepad_set = c.1;
          keyboard_set = c.2;
          subscribed = c.3.1;
        },
        c.4,
      )

  get_mode_str-challenge :
      (mode : RobotDescVal) (name : String)
      → get_mode_str mode ≡ some name
      → same_val mode challenge ≡ false
  unfolding get_mode_str
  get_mode_str-challenge mode name e = ground (arith, e)

  -- A child of the executor in a mode with a name, with some fuel. Either every step of its start
  -- succeeds: the two modules, the three instances, the three attributes and the subscriptions;
  -- then it calls the setup function once and the main function over and over, and it ends when a
  -- function is missing or at the first call that is not good, whose code is not 0; after a setup
  -- that is not good the main function is not called, and as long as the calls of the main function
  -- are good it goes on. Or its start cannot succeed, and it exits with 1 without such a call.
  pub run_child_cases :
      (fuel : ℕ) (mode : RobotDescVal) (student_code name : String) (py : Py)
      → get_mode_str mode ≡ some name
      → let result = run_child python (suc fuel) mode student_code py in
        ((student : Value) × (robot : Value) × (py1 : Py) × IsInit student_code student robot py py1
          × ModeRun python
              (suc fuel)
              mode
              (record { student = student; robot = some robot })
              robot
              name
              py1
              result)
        ⊎ (((student robot : Value) (py1 : Py) → ¬ IsInit student_code student robot py py1)
            × ((py1 : Py) × (result ≡ done (exited 1 py1))))
  unfolding run_child
  run_child_cases fuel mode student_code name py n =
      let init : Option (Globals Value) × Py = executor_init python mode student_code py in
      let other = get_mode_str-challenge mode name n in
      elim (Option-cases init.0) [
        | inl e ↦ inr (
          λ student robot py1 i. absurd (
              cc (
                sym e
                ∙ ap (λ r. r.0)
                    (IsInit-executor_init mode student_code student robot py py1 other i))),
          (init.1, rw (run_child, e) refl),
        )
        | inr (globals, e) ↦
            let i =
              executor_init_inv mode student_code py init.1 globals other
                (ap (λ o. (o, init.1)) e) in
            let g : Globals Value = record { student = i.0; robot = some i.1 } in
            let here : init.0 ≡ some g = e ∙ ap some i.3 in
            inl (
              i.0,
              i.1,
              init.1,
              i.2,
              rw (run_child, here) (run_mode-ModeRun python fuel mode g i.1 name init.1 n refl),
            )
      ]
