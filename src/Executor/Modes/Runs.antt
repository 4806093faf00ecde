-- ===== src/Executor/Modes/Runs.antt =====
-- Runs of the executor: it has at most one child, and signals and waits for no other process.
use c_runtime.Prelude.{ℕ, ◌≡◌, refl, arith, inl, inr}
use c_runtime.Prelude.{
  true, false, ◌||◌, Option, none, some, List, [], ◌∷◌, if◌then◌else◌, Bool-cases,
}
use c_runtime.RuntimeUtil.Types.{RobotDescVal, idle, challenge, run_mode}
use c_runtime.Shm.Types.{Shm}
use c_runtime.Shm.Inputs.{robot_desc_read}
use c_runtime.Shm.Valid.{IsDevShm}
use c_runtime.Shm.Steps.{Step}
use c_runtime.Executor.Modes.{
  same_val, Pid, Call, fork, kill, waitpid, Executor, start_executor, kill_subprocess,
  start_mode_subprocess, main_round, exit_handler, end_challenges,
}
use c_runtime.Shm.Devices.Places.{HasUniqueUids}
use c_runtime.Executor.Reset.Koalas.{IsReset, reset_params-IsReset}
use c_runtime.Executor.Reset.Valid.{reset_params-IsDevShm}

-- The child that the calls so far have left, running or not yet waited for.
unfoldable pub child : List Call → Option ℕ
child [] = none
child (fork none ∷ calls) = child calls
child (fork (some p) ∷ calls) = some p
child (kill p ∷ calls) = child calls
child (waitpid p ∷ calls) = none

-- Each fork finds no child, and each kill and waitpid names the child that is left.
unfoldable pub IsOrderly : List Call → Type 0
IsOrderly [] = Unit
IsOrderly (fork p ∷ calls) = (child calls ≡ none) × IsOrderly calls
IsOrderly (kill p ∷ calls) = ((c : ℕ) × (child calls ≡ some c) × (p ≡ some c)) × IsOrderly calls
IsOrderly (waitpid p ∷ calls) = ((c : ℕ) × (child calls ≡ some c) × (p ≡ some c)) × IsOrderly calls

-- The executor has a child exactly when it is not idle, and knows its process id.
pub record IsExecutor (s : Executor) : Type 0 where
  pub orderly : IsOrderly s.calls
  pub childless : same_val s.mode idle ≡ true → child s.calls ≡ none
  pub parent : same_val s.mode idle ≡ false → (c : ℕ) × (child s.calls ≡ some c) × (s.pid ≡ some c)

start_executor-IsExecutor : (m : Shm) → IsExecutor (start_executor m)
unfolding start_executor child IsOrderly
start_executor-IsExecutor m = record {
  orderly = tt;
  childless = λ e. refl;
  parent = λ e. absurd (ground (arith, e));
}

same_shm : (s : Executor) (m : Shm) → IsExecutor s → IsExecutor (record s { shm = m })
same_shm s m v = record { orderly = v.orderly; childless = v.childless; parent = v.parent }

kill_subprocess-IsExecutor :
    (s : Executor) → same_val s.mode idle ≡ false → IsExecutor s → IsExecutor (kill_subprocess s)
unfolding kill_subprocess child IsOrderly
kill_subprocess-IsExecutor s busy v = record {
  orderly = (v.parent busy, (v.parent busy, v.orderly));
  childless = λ e. refl;
  parent = λ e. absurd (ground (arith, e));
}

start_mode_subprocess-IsExecutor :
    (new_mode : RobotDescVal) (forked : Pid) (s : Executor)
    → same_val new_mode idle ≡ false
    → child s.calls ≡ none
    → IsExecutor s
    → IsExecutor (start_mode_subprocess new_mode forked s)
unfolding start_mode_subprocess child IsOrderly
start_mode_subprocess-IsExecutor new_mode none s busy free v = record {
  orderly = (free, v.orderly);
  childless = λ e. free;
  parent = λ e. absurd (ground (arith, e));
}
start_mode_subprocess-IsExecutor new_mode (some p) s busy free v = record {
  orderly = (free, v.orderly);
  childless = λ e. absurd (ground (arith, e, busy));
  parent = λ e. (p, refl, refl);
}

-- What `main` has before it starts a mode.
to_idle : Executor → Executor
to_idle s = if same_val s.mode idle then s else kill_subprocess s

to_idle-IsExecutor :
    (s : Executor) → IsExecutor s → IsExecutor (to_idle s) × (child (to_idle s).calls ≡ none)
unfolding to_idle kill_subprocess child
to_idle-IsExecutor s v = elim (Bool-cases (same_val s.mode idle)) [
  | inl e ↦ rw e (v, v.childless e)
  | inr e ↦ rw e (unfold kill_subprocess in kill_subprocess-IsExecutor s e v, refl)
]

main_round-IsExecutor :
    (forked : Pid) (s : Executor) → IsExecutor s → IsExecutor (main_round forked s)
unfolding main_round robot_desc_read to_idle
main_round-IsExecutor forked s v =
    let m1 : Shm = (robot_desc_read run_mode s.shm).0 in
    let new_mode : RobotDescVal = s.shm.fields run_mode in
    let s1 : Executor = record s { shm = m1 } in
    let c = to_idle-IsExecutor s1 (same_shm s m1 v) in
    elim (Bool-cases (same_val new_mode s.mode)) [
      | inl e ↦ rw e (same_shm s m1 v)
      | inr e ↦ elim (Bool-cases (same_val new_mode idle)) [
        | inl f ↦ rw (e, f) c.0
        | inr f ↦ rw (e, f) (start_mode_subprocess-IsExecutor new_mode forked _ f c.1 c.0)
      ]
    ]

-- The rounds of the executor among the calls of the other processes, its child's among them, and
-- the end of a child that ran the challenges.
pub data Turn (s : Executor) : Executor → Type 0 where
  round : (forked : Pid) → Turn s (main_round forked s)
  called : {m : Shm} → Step s.shm m → Turn s (record s { shm = m })
  answered : Turn s (record s { shm = end_challenges s.shm })

pub data Runs (s : Executor) : Executor → Type 0 where
  here : Runs s s
  next : {t u : Executor} → Runs s t → Turn t u → Runs s u

Turn-IsExecutor : {s t : Executor} → Turn s t → IsExecutor s → IsExecutor t
Turn-IsExecutor {s} (round forked) v = main_round-IsExecutor forked s v
Turn-IsExecutor {s} (called {m} step) v = same_shm s m v
Turn-IsExecutor {s} answered v = same_shm s (end_challenges s.shm) v

-- In every state that the executor reaches from its start, whatever fork returns and whatever the
-- other processes do to the shared memory: it has a child exactly when it is not idle, and pid is
-- the process id of that child; every fork so far was made without a child left, and every kill
-- and waitpid named the child that was left at the time.
pub Runs-IsExecutor : (m : Shm) {s : Executor} → Runs (start_executor m) s → IsExecutor s
Runs-IsExecutor m here = start_executor-IsExecutor m
Runs-IsExecutor m (next r t) = Turn-IsExecutor t (Runs-IsExecutor m r)

-- A signal to stop leaves no child either, and is sent to no other process.
pub exit_handler-IsExecutor :
    (m : Shm) {s : Executor}
    → Runs (start_executor m) s
    → IsOrderly (exit_handler s).calls × (child (exit_handler s).calls ≡ none)
unfolding exit_handler to_idle
exit_handler-IsExecutor m {s} r =
    let c = to_idle-IsExecutor s (Runs-IsExecutor m r) in (c.0.orderly, c.1)

to_idle_shm :
    (s : Executor)
    → HasUniqueUids s.shm.dev
    → if same_val s.mode idle || same_val s.mode challenge
      then (to_idle s).shm.dev ≡ s.shm.dev
      else IsReset 0 32 s.shm.dev (to_idle s).shm.dev
unfolding to_idle kill_subprocess
to_idle_shm s unique = elim (Bool-cases (same_val s.mode idle)) [
  | inl e ↦ rw e refl
  | inr e ↦ elim (Bool-cases (same_val s.mode challenge)) [
    | inl f ↦ rw (e, f) refl
    | inr f ↦ rw (e, f) (reset_params-IsReset s.shm unique)
  ]
]

-- The mode after a round that finds a new mode.
abbrev pub next_mode : RobotDescVal → Pid → RobotDescVal
next_mode new_mode none = idle
next_mode new_mode (some p) = if same_val new_mode idle then idle else new_mode

idle_val : (v : RobotDescVal) → same_val v idle ≡ true → v ≡ idle
idle_val idle e = refl
idle_val _ e = absurd (ground (arith, e))

to_idle_mode : (s : Executor) → (to_idle s).mode ≡ idle
unfolding to_idle kill_subprocess
to_idle_mode s = elim (Bool-cases (same_val s.mode idle)) [
  | inl e ↦ rw e (idle_val s.mode e)
  | inr e ↦ rw e refl
]

next_mode-idle :
    (new_mode : RobotDescVal) (forked : Pid)
    → same_val new_mode idle ≡ true
    → next_mode new_mode forked ≡ idle
next_mode-idle new_mode none e = refl
next_mode-idle new_mode (some p) e = rw e refl

next_mode-start :
    (new_mode : RobotDescVal) (forked : Pid) (s : Executor)
    → same_val new_mode idle ≡ false
    → (start_mode_subprocess new_mode forked s).mode ≡ next_mode new_mode forked
unfolding start_mode_subprocess
next_mode-start new_mode none s e = refl
next_mode-start new_mode (some p) s e = rw e refl

-- The round of the executor on every branch, where no two connected devices share a uid. Without
-- a new mode nothing happens but a read of the mode. With one, the executor is idle if that is
-- the new mode or fork fails, and else in the new mode; and the block of the devices is as before
-- if the executor was idle or ran challenges, and otherwise every connected KoalaBear is told to
-- stop.
pub main_round_cases :
    (forked : Pid) (s : Executor)
    → HasUniqueUids s.shm.dev
    → let new_mode = s.shm.fields run_mode in
      let t = main_round forked s in
      if same_val new_mode s.mode
      then (t.mode ≡ s.mode) × (t.pid ≡ s.pid) × (t.calls ≡ s.calls) × (t.shm.dev ≡ s.shm.dev)
      else (t.mode ≡ next_mode new_mode forked)
        × (if same_val s.mode idle || same_val s.mode challenge
            then t.shm.dev ≡ s.shm.dev
            else IsReset 0 32 s.shm.dev t.shm.dev)
unfolding main_round robot_desc_read start_mode_subprocess to_idle
main_round_cases forked s unique =
    let m1 : Shm = (robot_desc_read run_mode s.shm).0 in
    let new_mode : RobotDescVal = s.shm.fields run_mode in
    let c = to_idle_shm (record s { shm = m1 }) unique in
    elim (Bool-cases (same_val new_mode s.mode)) [
      | inl e ↦ rw e (refl, refl, refl, refl)
      | inr e ↦ elim (Bool-cases (same_val new_mode idle)) [
        | inl f ↦
            rw (e, f)
              (rw (next_mode-idle new_mode forked f) (to_idle_mode (record s { shm = m1 })), c)
        | inr f ↦ rw (e, f) (next_mode-start new_mode forked (to_idle (record s { shm = m1 })) f, c)
      ]
    ]

-- A round keeps the invariant of the block of the devices.
to_idle-IsDevShm : (s : Executor) → IsDevShm s.shm.dev → IsDevShm (to_idle s).shm.dev
unfolding to_idle kill_subprocess
to_idle-IsDevShm s v = elim (Bool-cases (same_val s.mode idle)) [
  | inl e ↦ rw e v
  | inr e ↦ elim (Bool-cases (same_val s.mode challenge)) [
    | inl f ↦ rw (e, f) v
    | inr f ↦ rw (e, f) (reset_params-IsDevShm s.shm v)
  ]
]

pub main_round-IsDevShm :
    (forked : Pid) (s : Executor) → IsDevShm s.shm.dev → IsDevShm (main_round forked s).shm.dev
unfolding main_round robot_desc_read start_mode_subprocess to_idle
main_round-IsDevShm forked s v =
    let m1 : Shm = (robot_desc_read run_mode s.shm).0 in
    let c = to_idle-IsDevShm (record s { shm = m1 }) v in
    elim (Bool-cases (same_val (s.shm.fields run_mode) s.mode)) [
      | inl e ↦ rw e v
      | inr e ↦ elim (Bool-cases (same_val (s.shm.fields run_mode) idle)) [
        | inl f ↦ rw (e, f) c
        | inr f ↦ rw (e, f) c
      ]
    ]
