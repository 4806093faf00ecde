-- ===== src/Logger/Bounds.antt =====
-- A message fits its buffer and ends in a newline.
use c_runtime.Prelude.{ℕ, ◌+◌, ◌-◌, ◌≤◌, ◌<◌, ◌≡◌, ◌⊎◌, refl, ◌∙◌, arith, inl, inr}
use c_runtime.Prelude.{
  Bool, true, false, List, [], ◌∷◌, ◌++◌, done, ◌==◌, if◌then◌else◌, length, length-append,
  length-take, take, Bool-cases,
}
use c_runtime.RuntimeUtil.Types.{Process}
use c_runtime.Logger.{
  LogLevel, debug, info, warn, python, error, fatal, level_index, level_str, process_str,
  ends_in_newline, trim_newline, header, build_msg,
}

ends_in_newline_total : (cs : List ℕ) → 1 ≤ length cs → (e : Bool) × (ends_in_newline cs ≡ done e)
unfolding ends_in_newline
ends_in_newline_total [] h = absurd (omega arith)
ends_in_newline_total (c ∷ []) h = (c == 10, refl)
ends_in_newline_total (c ∷ d ∷ cs) h = ends_in_newline_total (d ∷ cs) (omega arith)

ends_in_newline-append :
    (xs ys : List ℕ) → 1 ≤ length ys → ends_in_newline (xs ++ ys) ≡ ends_in_newline ys
unfolding ends_in_newline
ends_in_newline-append [] ys h = refl
ends_in_newline-append (x ∷ []) [] h = absurd (omega arith)
ends_in_newline-append (x ∷ []) (y ∷ ys) h = refl
ends_in_newline-append (x ∷ z ∷ xs) ys h = ends_in_newline-append (z ∷ xs) ys h

trim_newline_lem :
    (cs : List ℕ)
    → 1 ≤ length cs
    → (r : List ℕ) × (trim_newline cs ≡ done r) × (length r ≤ length cs)
unfolding trim_newline
trim_newline_lem cs h =
    let e = ends_in_newline_total cs h in
    elim (Bool-cases e.0) [
      | inl f ↦
          (take (length cs - 1) cs, rw (e.1, f) refl, omega (arith, length-take (length cs - 1) cs))
      | inr f ↦ (cs, rw (e.1, f) refl, omega arith)
    ]

length-level_str : (level : LogLevel) → length (level_str level) ≤ 6
length-level_str debug = omega arith
length-level_str info = omega arith
length-level_str warn = omega arith
length-level_str python = omega arith
length-level_str error = omega arith
length-level_str fatal = omega arith

length-process_str : (process : Process) → length (process_str process) ≤ 11
length-process_str Process.dev_handler = omega arith
length-process_str Process.executor = omega arith
length-process_str Process.net_handler = omega arith
length-process_str Process.shm = omega arith
length-process_str Process.test = omega arith

length-header :
    (level : LogLevel) (process : Process) (time_str : List ℕ)
    → length (header level process time_str) ≤ length time_str + 24
unfolding header
length-header level process time_str = omega (
  arith,
  length-level_str level,
  length-process_str process,
  length-append (level_str level)
      (32 ∷ 64 ∷ 32 ∷ process_str process ++ (9 ∷ 40 ∷ time_str ++ (41 ∷ 32 ∷ []))),
  length-append (process_str process) (9 ∷ 40 ∷ time_str ++ (41 ∷ 32 ∷ [])),
  length-append time_str (41 ∷ 32 ∷ []),
)

-- The text with a newline behind it if it has none.
closed_by_newline :
    (msg : List ℕ) (e : Bool)
    → ends_in_newline msg ≡ done e
    → 1 ≤ length msg
    → (ends_in_newline (if e then msg else msg ++ (10 ∷ [])) ≡ done true)
      × (1 ≤ length (if e then msg else msg ++ (10 ∷ [])))
      × (length (if e then msg else msg ++ (10 ∷ [])) ≤ length msg + 1)
unfolding ends_in_newline
closed_by_newline msg true h n = (h, n, omega arith)
closed_by_newline msg false h n = (
  ends_in_newline-append msg (10 ∷ []) (omega arith),
  omega (arith, length-append msg (10 ∷ [])),
  omega (arith, length-append msg (10 ∷ [])),
)

-- With a time of 1 to 25 bytes, any text that is not empty makes a message: it fits its
-- buffer of 512 bytes with the closing zero, and ends in a newline unless the level is PYTHON.
pub build_msg_bounds :
    (level : LogLevel) (process : Process) (now formatted : List ℕ)
    → 1 ≤ length now
    → length now ≤ 25
    → 1 ≤ length formatted
    → (message : List ℕ) × (build_msg level process now formatted ≡ done message)
      × (length message < 512)
      × ((level_index level ≡ 3) ⊎ (ends_in_newline message ≡ done true))
unfolding build_msg
build_msg_bounds level process now formatted a b h =
    let msg : List ℕ = take 411 formatted in
    let cut = length-take 411 formatted in
    let some_msg : 1 ≤ length msg = omega (arith, cut, h) in
    elim (Bool-cases (level_index level == 3)) [
      | inl e ↦ (msg, rw e refl, omega (arith, cut), inl (ground (arith, e)))
      | inr e ↦
          let t = trim_newline_lem now a in
          let n = ends_in_newline_total msg some_msg in
          let c = closed_by_newline msg n.0 n.1 some_msg in
          let text : List ℕ = if n.0 then msg else msg ++ (10 ∷ []) in
          (
            header level process t.0 ++ text,
            rw (e, t.1, n.1) refl,
            omega (
              arith,
              length-append (header level process t.0) text,
              length-header level process t.0,
              t.2,
              c.2,
              cut,
              b,
            ),
            inr (ends_in_newline-append (header level process t.0) text c.1 ∙ c.0),
          )
    ]
