-- ===== src/Executor/Challenges.antt =====
-- The coding challenges, `run_challenges` in executor/executor.c. The interpreter, the protobuf
-- code and the socket are parameters; texts are strings.
pub mod Outputs
use c_runtime.Prelude.{
  ℕ, zero, suc, ◌+◌, ◌%◌, ◌^◌, Bool, true, false, Option, none, some, List, [], ◌∷◌,
}
use c_runtime.Prelude.{
  Outcome, done, fault, ◌>>=◌, from_option, ◌==◌, if◌then◌else◌, update, get_elem?, length, not, u8,
  u16, memcpy,
}
use c_runtime.RuntimeUtil.Types.{challenge}
use c_runtime.NetUtil.{make_buf, buffer_offset}
use c_runtime.Executor.Python.{
  Interpreter, Globals, End, returned, exited, running, run_py_function,
}
use Prim.Native.String.{String}

-- The calls of the interpreter on lists, numbers and strings; `none` is NULL or an error. `released`
-- drops the reference to a string whose text `as_utf8` gave, and is the text that is found in that
-- memory afterwards; `none` where it has no end within the block that is made for the copy.
pub record Objects (Py Value : Type 0) : Type 0 where
  pub list_size : Value → Py → Option ℕ × Py
  pub get_item : Value → ℕ → Py → Option Value × Py
  pub as_utf8 : Value → Py → Option String × Py
  pub build_long : ℕ → Py → Option Value × Py
  pub to_str : Option Value → Py → Option Value × Py
  pub released : Value → String → Py → Option String × Py

-- An entry of the array of outputs, which malloc leaves as it is.
pub data Output : Type 0 where
  unset : Output
  text : String → Output

-- What a challenge comes to.
pub data Answer (Py : Type 0) : Type 0 where
  gives : String → Py → Answer Py
  times_out : Py → Answer Py
  leaves : ℕ → Py → Answer Py
  runs_on : Py → Answer Py

-- What the loop over the challenges comes to.
pub data AllEnd (Py : Type 0) : Type 0 where
  answered : (ℕ → Output) → Py → AllEnd Py
  left : ℕ → Py → AllEnd Py
  runs_on : Py → AllEnd Py

-- The loop that is to set the outputs from `i` on, which sets the one at `i` again and again.
unfoldable pub set_rest : ℕ → ℕ → (ℕ → Output) → ℕ → Output
set_rest zero i outputs = outputs
set_rest (suc rest) i outputs = set_rest rest i (update outputs i (text "Timed out"))

-- What `text__get_packed_size` and `text__pack` read: each of the entries.
unfoldable pub packed_texts : ℕ → ℕ → (ℕ → Output) → Outcome (List String)
packed_texts zero i outputs = done []
packed_texts (suc rest) i outputs =
    packed_texts rest (i + 1) outputs
    >>= (λ texts. elim (outputs i) [ unset ↦ fault | text t ↦ done (t ∷ texts) ])

-- The texts that are packed after the loop, if it is left by its end.
unfoldable pub pack_answers : {Py : Type 0} → ℕ → AllEnd Py → Outcome (Option (List String))
pack_answers n (answered outputs py) = packed_texts n 0 outputs >>= (λ texts. done (some texts))
pack_answers n (left code py) = done none
pack_answers n (runs_on py) = done none

module _ {Py Value : Type 0} (python : Interpreter Py Value) (objects : Objects Py Value)
    (strtol : String → ℕ) where
  -- The answer from what the function returned: `strcpy` follows the NULL of `as_utf8`, and reads the
  -- text after the reference to its string is dropped.
  unfoldable pub convert_answer : Option Value → Py → Outcome (Answer Py)
  convert_answer ret py =
      let (ret_string, py1) = objects.to_str ret py in
      elim ret_string [
        | none ↦ done (gives "Fatal error" py1)
        | some s ↦
            let (c_ret, py2) = objects.as_utf8 s py1 in
            from_option c_ret >>= (λ c.
              let (copied, py3) = objects.released s c py2 in
              from_option copied >>= (λ t. done (gives t py3)))
      ]

  unfoldable pub answer_from : End Py Value → Outcome (Answer Py)
  answer_from (returned code ret py) =
      let converted = convert_answer ret py in if code == 3 then done (times_out py) else converted
  answer_from (exited code py) = done (leaves code py)
  answer_from (running py) = done (runs_on py)

  -- The body of the loop, with the input as a text.
  unfoldable pub run_challenge : ℕ → Globals Value → Value → ℕ → String → Py → Outcome (Answer Py)
  run_challenge fuel globals challenge_list i input py =
      let (name, py1) = objects.get_item challenge_list i py in
      elim name [
        | none ↦ done (gives "Fatal error" py1)
        | some n ↦
            let (func_name, py2) = objects.as_utf8 n py1 in
            elim func_name [
              | none ↦ done (gives "Fatal error" py2)
              | some f ↦
                  let (arg, py3) = objects.build_long (strtol input) py2 in
                  elim arg [
                    | none ↦ done (gives "Fatal error" py3)
                    | some a ↦
                        run_py_function python fuel challenge globals f false (some a) py3
                        >>= answer_from
                  ]
            ]
      ]

  -- The loop, with the inputs from `i` on.
  unfoldable pub run_all :
      ℕ → Globals Value → Value → ℕ → List String → (ℕ → Output) → Py → Outcome (AllEnd Py)
  run_all fuel globals challenge_list i [] outputs py = done (answered outputs py)
  run_all fuel globals challenge_list i (input ∷ inputs) outputs py =
      run_challenge fuel globals challenge_list i input py >>= (λ answer. elim answer [
        | gives t py1 ↦
            run_all fuel globals challenge_list (i + 1) inputs (update outputs i (text t)) py1
        | times_out py1 ↦ done (answered (set_rest (suc (length inputs)) i outputs) py1)
        | leaves code py1 ↦ done (left code py1)
        | runs_on py1 ↦ done (runs_on py1)
      ])

  -- The texts that `run_challenges` sends, from the bytes that it receives; `none` when it returns
  -- before it sends any. `unpack` is `text__unpack`.
  unfoldable pub sent_texts :
      (List ℕ → Option (List String))
      → ℕ
      → Globals Value
      → Option (List ℕ)
      → Py
      → Outcome (Option (List String))
  sent_texts unpack fuel globals received py =
      let (found, py1) = python.get_attr globals.student "CHALLENGES" py in
      elim found [
        | none ↦ done none
        | some challenge_list ↦
            let (size, py2) = objects.list_size challenge_list py1 in
            elim size [
              | none ↦ done none
              | some n ↦ elim received [
                | none ↦ done none
                | some bytes ↦ elim (if length bytes == 0 then none else unpack bytes) [
                  | none ↦ done none
                  | some inputs ↦
                      if not (u8 n == length inputs)
                      then done none
                      else run_all fuel globals challenge_list 0 inputs (λ i. unset) py2
                        >>= pack_answers (length inputs)
                ]
              ]
            ]
      ]

  -- The bytes sent to net_handler: `pack` is `text__pack`, and the length is cut to 16 bits.
  unfoldable pub challenge_message :
      (ℕ → List ℕ) → (List String → List ℕ) → ℕ → List String → Outcome (List ℕ)
  challenge_message malloc pack challenge_data_msg texts =
      let bytes = pack texts in
      make_buf malloc challenge_data_msg (u16 (length bytes))
      >>= (λ buf. memcpy buf buffer_offset bytes)
