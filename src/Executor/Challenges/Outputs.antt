-- ===== src/Executor/Challenges/Outputs.antt =====
-- What run_challenges sends: the answer of each challenge, unless one before the last times out.
use c_runtime.Prelude.{ℕ, zero, suc, ◌+◌, ◌<◌, ◌≤◌, ◌≡◌, ◌≢◌, refl, ap, ◌∙◌, arith, inl, inr}
use c_runtime.Prelude.{
  false, Option, none, some, List, [], ◌∷◌, ◌++◌, Outcome, done, fault, ◌>>=◌, update, length,
  length-append, Bool-cases, ◌==◌, u8, not,
}
use c_runtime.RuntimeUtil.Types.{challenge}
use c_runtime.Executor.Python.{Interpreter, Globals, returned, run_py_function}
use c_runtime.Executor.Challenges.{
  Objects, Output, unset, text, gives, times_out, set_rest, packed_texts, run_challenge,
  answer_from, convert_answer, run_all, sent_texts, pack_answers,
}
use Prim.Native.String.{String}

-- The array after the texts are stored from `i` on.
store : ℕ → List String → (ℕ → Output) → ℕ → Output
store i [] outputs = outputs
store i (t ∷ texts) outputs = store (i + 1) texts (update outputs i (text t))

store_high :
    (i : ℕ) (texts : List String) (outputs : ℕ → Output) (j : ℕ)
    → i + length texts ≤ j
    → store i texts outputs j ≡ outputs j
unfolding store
store_high i [] outputs j h = refl
store_high i (t ∷ texts) outputs j h =
    ground (arith, h, store_high (i + 1) texts (update outputs i (text t)) j)

>>=-fault {ℓ κ} :
    {A : Type ℓ} {B : Type κ} (m : Outcome A) (f : A → Outcome B)
    → ((a : A) → f a ≡ fault)
    → (m >>= f) ≡ fault
>>=-fault (done a) f h = h a
>>=-fault fault f h = refl

packed_texts-unset :
    (rest i : ℕ) (outputs : ℕ → Output) (j : ℕ)
    → i ≤ j
    → j < i + rest
    → outputs j ≡ unset
    → packed_texts rest i outputs ≡ fault
unfolding packed_texts
packed_texts-unset zero i outputs j h k e = absurd (omega arith)
packed_texts-unset (suc rest) i outputs j h k e = elim (Bool-cases (i == j)) [
  | inl f ↦
      let here : outputs i ≡ unset = ground (arith, e, f) in
      >>=-fault (packed_texts rest (i + 1) outputs) _ (λ texts. rw here refl)
  | inr f ↦ rw (packed_texts-unset rest (i + 1) outputs j (ground (arith, f)) (omega arith) e) refl
]

set_rest_other :
    (rest i : ℕ) (outputs : ℕ → Output) (j : ℕ) → j ≢ i → set_rest rest i outputs j ≡ outputs j
unfolding set_rest
set_rest_other zero i outputs j h = refl
set_rest_other (suc rest) i outputs j h =
    ground (arith, h, set_rest_other rest i (update outputs i (text "Timed out")) j)

-- Both results of a call.
both {ℓ κ} :
    {A : Type ℓ} {B : Type κ} (p : A × B) {a : A} {b : B} → p ≡ (a, b) → (p.0 ≡ a) × (p.1 ≡ b)
both p e = (ap (λ r. r.0) e, ap (λ r. r.1) e)

module _ {Py Value : Type 0} (python : Interpreter Py Value) (objects : Objects Py Value)
    (strtol : String → ℕ) (fuel : ℕ) (globals : Globals Value) (challenge_list : Value) where
  -- What the challenge at index `i` of the list gives for its input: the name at `i` is looked up
  -- and run once with the number of the input, and the text of its result is copied; a step that
  -- fails gives "Fatal error".
  pub data Gives (i : ℕ) (input : String) (py : Py) : String → Py → Type 0 where
    no_name :
        (py1 : Py)
        → objects.get_item challenge_list i py ≡ (none, py1)
        → Gives i input py "Fatal error" py1
    no_text :
        (name : Value) (py1 py2 : Py)
        → objects.get_item challenge_list i py ≡ (some name, py1)
        → objects.as_utf8 name py1 ≡ (none, py2)
        → Gives i input py "Fatal error" py2
    no_number :
        (name : Value) (func_name : String) (py1 py2 py3 : Py)
        → objects.get_item challenge_list i py ≡ (some name, py1)
        → objects.as_utf8 name py1 ≡ (some func_name, py2)
        → objects.build_long (strtol input) py2 ≡ (none, py3)
        → Gives i input py "Fatal error" py3
    no_result :
        (name arg : Value) (func_name : String) (py1 py2 py3 py4 py5 : Py) (code : ℕ)
        (ret : Option Value)
        → objects.get_item challenge_list i py ≡ (some name, py1)
        → objects.as_utf8 name py1 ≡ (some func_name, py2)
        → objects.build_long (strtol input) py2 ≡ (some arg, py3)
        → run_py_function python fuel challenge globals func_name false (some arg) py3
          ≡ done (returned code ret py4)
        → code ≢ 3
        → objects.to_str ret py4 ≡ (none, py5)
        → Gives i input py "Fatal error" py5
    result :
        (name arg s : Value) (func_name c t : String) (py1 py2 py3 py4 py5 py6 py7 : Py) (code : ℕ)
        (ret : Option Value)
        → objects.get_item challenge_list i py ≡ (some name, py1)
        → objects.as_utf8 name py1 ≡ (some func_name, py2)
        → objects.build_long (strtol input) py2 ≡ (some arg, py3)
        → run_py_function python fuel challenge globals func_name false (some arg) py3
          ≡ done (returned code ret py4)
        → code ≢ 3
        → objects.to_str ret py4 ≡ (some s, py5)
        → objects.as_utf8 s py5 ≡ (some c, py6)
        → objects.released s c py6 ≡ (some t, py7)
        → Gives i input py t py7

  run_challenge-Gives :
      (i : ℕ) (input t : String) (py py' : Py)
      → Gives i input py t py'
      → run_challenge python objects strtol fuel globals challenge_list i input py
        ≡ done (gives t py')
  unfolding run_challenge answer_from convert_answer
  run_challenge-Gives i input _ py _ (no_name py1 e) =
      let e' = both _ e in rw (run_challenge, e'.0, e'.1) refl
  run_challenge-Gives i input _ py _ (no_text name py1 py2 e f) =
      let e' = both _ e in
      let f' = both _ f in rw (run_challenge, e'.0, e'.1, f'.0, e'.1, f'.1) refl
  run_challenge-Gives i input _ py _ (no_number name func_name py1 py2 py3 e f g) =
      let e' = both _ e in
      let f' = both _ f in
      let g' = both _ g in
      rw (run_challenge, e'.0, e'.1, f'.0, e'.1, f'.1, g'.0, e'.1, f'.1, g'.1) refl
  run_challenge-Gives i input _ py _
        (no_result name arg func_name py1 py2 py3 py4 py5 code ret e f g h ne k) =
      let other : (code == 3) ≡ false = ground (arith, ne) in
      let e' = both _ e in
      let f' = both _ f in
      let g' = both _ g in
      let k' = both _ k in
      rw
        (
          run_challenge, e'.0, e'.1, f'.0, e'.1, f'.1, g'.0, e'.1, f'.1, g'.1, h, other,
          convert_answer, k'.0, k'.1,
        )
        refl
  run_challenge-Gives i input _ py _
        (result name arg s func_name c t py1 py2 py3 py4 py5 py6 py7 code ret e f g h ne k l n) =
      let other : (code == 3) ≡ false = ground (arith, ne) in
      let e' = both _ e in
      let f' = both _ f in
      let g' = both _ g in
      let k' = both _ k in
      let l' = both _ l in
      let n' = both _ n in
      rw
        (
          run_challenge, e'.0, e'.1, f'.0, e'.1, f'.1, g'.0, e'.1, f'.1, g'.1, h, other,
          convert_answer, k'.0, k'.1, l'.0, l'.1, n'.0, n'.1,
        )
        refl

  -- The challenges from `i` on give these texts for these inputs.
  pub data Answers : ℕ → List String → Py → List String → Py → Type 0 where
    finished : (i : ℕ) (py : Py) → Answers i [] py [] py
    answer :
        (i : ℕ) (input : String) (inputs : List String) (py py1 py2 : Py) (t : String)
        (texts : List String)
        → Gives i input py t py1
        → Answers (i + 1) inputs py1 texts py2
        → Answers i (input ∷ inputs) py (t ∷ texts) py2

  run_all-append :
      (i : ℕ) (inputs more : List String) (outputs : ℕ → Output) (py py1 : Py) (texts : List String)
      → Answers i inputs py texts py1
      → run_all python objects strtol fuel globals challenge_list i (inputs ++ more) outputs py
        ≡ run_all python objects strtol fuel globals challenge_list
            (i + length inputs)
            more
            (store i texts outputs)
            py1
  unfolding run_all store
  run_all-append i _ more outputs py py1 _ (finished _ _) =
      ap (λ k. run_all python objects strtol fuel globals challenge_list k more outputs py)
        (omega arith)
  run_all-append i _ more outputs py py1 _ (answer _ input inputs _ py2 _ t texts g rest) =
      let e = run_challenge-Gives i input t py py2 g in
      rw (run_all, e)
        (run_all-append (i + 1) inputs more (update outputs i (text t)) py2 py1 texts rest
          ∙ ap
              (λ k.
                run_all python objects strtol fuel globals challenge_list k more
                  (store (i + 1) texts (update outputs i (text t))) py1)
              (omega arith))

  Answers-length :
      (i : ℕ) (inputs : List String) (py py1 : Py) (texts : List String)
      → Answers i inputs py texts py1
      → length texts ≡ length inputs
  Answers-length i _ py py1 _ (finished _ _) = refl
  Answers-length i _ py py1 _ (answer _ input inputs _ py2 _ t texts e rest) =
      ap suc (Answers-length (i + 1) inputs py2 py1 texts rest)

  -- The list of challenges, its length and the inputs that net_handler sent for it.
  pub record IsReceived (unpack : List ℕ → Option (List String)) (bytes : List ℕ)
      (inputs : List String) (py py1 : Py) : Type 0 where
    pub listed : (python.get_attr globals.student "CHALLENGES" py).0 ≡ some challenge_list
    pub sized :
        (n : ℕ) × ((objects.list_size challenge_list
            (python.get_attr globals.student "CHALLENGES" py).1).0
          ≡ some n)
        × (u8 n ≡ length inputs)
    pub not_empty : length bytes ≢ 0
    pub unpacked : unpack bytes ≡ some inputs
    pub state :
        (objects.list_size challenge_list (python.get_attr globals.student "CHALLENGES" py).1).1
        ≡ py1

  sent_texts-run_all :
      (unpack : List ℕ → Option (List String)) (bytes : List ℕ) (inputs : List String) (py py1 : Py)
      → IsReceived unpack bytes inputs py py1
      → sent_texts python objects strtol unpack fuel globals (some bytes) py ≡ (
          run_all python objects strtol fuel globals challenge_list 0 inputs (λ i. unset) py1
          >>= pack_answers (length inputs))
  unfolding sent_texts
  sent_texts-run_all unpack bytes inputs py py1 r =
      let nonempty : (length bytes == 0) ≡ false = ground (arith, r.not_empty) in
      let counted : not (u8 r.sized.0 == length inputs) ≡ false = ground (arith, r.sized.2) in
      rw (sent_texts, r.listed, r.sized.1, nonempty, r.unpacked, counted, r.state) refl

  -- What is packed when the challenges before `more` gave their texts.
  packed_after :
      (before more : List String) (py py1 : Py) (texts : List String)
      → Answers 0 before py texts py1
      → (run_all python objects strtol fuel globals challenge_list 0
            (before ++ more)
            (λ i. unset)
            py
          >>= pack_answers (length (before ++ more)))
        ≡ (run_all python objects strtol fuel globals challenge_list
              (length before)
              more
              (store 0 texts (λ i. unset))
              py1
            >>= pack_answers (length before + length more))
  packed_after before more py py1 texts a =
      rw (run_all-append 0 before more (λ i. unset) py py1 texts a, length-append before more)
        (ap
          (λ k.
            run_all python objects strtol fuel globals challenge_list k more
              (store 0 texts (λ i. unset)) py1
            >>= pack_answers (length before + length more))
          (omega arith))

  -- Where a challenge times out and another one comes after it, run_challenges packs the texts
  -- through pointers that it never set: the rest of the outputs is not filled in.
  pub sent_texts-times_out :
      (unpack : List ℕ → Option (List String)) (bytes : List ℕ) (before : List String)
      (late next : String) (rest : List String) (py py1 py2 py3 : Py) (texts : List String)
      → IsReceived unpack bytes (before ++ (late ∷ next ∷ rest)) py py1
      → Answers 0 before py1 texts py2
      → run_challenge python objects strtol fuel globals challenge_list (length before) late py2
        ≡ done (times_out py3)
      → sent_texts python objects strtol unpack fuel globals (some bytes) py ≡ fault
  unfolding run_all pack_answers
  sent_texts-times_out unpack bytes before late next rest py py1 py2 py3 texts r a e =
      let outputs : ℕ → Output =
        set_rest (suc (length (next ∷ rest))) (length before) (store 0 texts (λ i. unset)) in
      let l = Answers-length 0 before py1 py2 texts a in
      let hole : outputs (length before + 1) ≡ unset =
        set_rest_other (suc (length (next ∷ rest))) (length before) (store 0 texts (λ i. unset))
          (length before + 1) (λ z. omega (arith, z))
        ∙ store_high 0 texts (λ i. unset) (length before + 1) (omega (arith, l)) in
      sent_texts-run_all unpack bytes (before ++ (late ∷ next ∷ rest)) py py1 r
      ∙ packed_after before (late ∷ next ∷ rest) py1 py2 texts a
      ∙ rw
          (
            run_all,
            e,
            packed_texts-unset (length before + length (late ∷ next ∷ rest)) 0 outputs
                (length before + 1) (omega arith) (omega arith) hole,
          )
          refl
