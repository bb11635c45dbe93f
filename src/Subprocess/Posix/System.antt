-- ===== src/Subprocess/Posix/System.antt =====
-- A parent's Subprocess of src/Posix/SubprocessPosix.cpp with its worker thread, over every order of the calls
-- and the thread's steps, and what a log of their effects tells.

use system_abstractions.Base.{
  ℕ, ◌≡◌, Bool, true, false, List, [], ◌∷◌, Option, none, some, ◌==◌, if◌then◌else◌,
}
use system_abstractions.Subprocess.Posix.{
  Effect, opened, closed, forked, handler_set, handler_restored, called, waited, wrote, ReadAnswer,
  Worker, no_worker, starting, reading, reaping, ended, Subprocess, new, monitor_child, can_join,
  start_child,
}

-- A step: a call of `StartChild`, with its functions and the answers of `pipe` and `fork`, or the
-- worker's next step.
pub data Action : Type 0 where
  starts : ℕ → ℕ → Option (ℕ × ℕ) → Option ℕ → Action
  monitors : ReadAnswer → Action

-- The state, and the effects so far, the newest first.
pub record System : Type 0 where
  pub process : Subprocess
  pub log : List Effect

abbrev pub push : List Effect → List Effect → List Effect
push [] log = log
push (e ∷ es) log = push es (e ∷ log)

-- A call of `StartChild` that would wait is not taken yet.
unfoldable pub act : System → Action → System
act y (starts exited crashed ends pid) =
    if can_join y.process.worker
    then (let (s, es, result) = start_child y.process exited crashed ends pid in
        record { process = s; log = push es y.log })
    else y
act y (monitors answer) =
    let (s, es) = monitor_child y.process answer in record { process = s; log = push es y.log }

unfoldable pub run : System → List Action → System
run y [] = y
run y (a ∷ actions) = run (act y a) actions

abbrev pub first : System
first = record { process = new; log = [] }

-- One descriptor less.
unfoldable pub without : ℕ → List ℕ → List ℕ
without fd [] = []
without fd (g ∷ gs) = if fd == g then gs else g ∷ without fd gs

-- The descriptors that a log leaves open.
unfoldable pub still_open : List Effect → List ℕ
still_open [] = []
still_open (opened fd ∷ log) = fd ∷ still_open log
still_open (closed fd ∷ log) = without fd (still_open log)
still_open (forked pid exited crashed ∷ log) = still_open log
still_open (handler_set ∷ log) = still_open log
still_open (handler_restored ∷ log) = still_open log
still_open (called f ∷ log) = still_open log
still_open (waited pid ∷ log) = still_open log
still_open (wrote fd ∷ log) = still_open log

abbrev pub to_list : Option ℕ → List ℕ
to_list none = []
to_list (some n) = n ∷ []

-- Where a log stands in the lives of the children it speaks of.
pub data Stage : Type 0 where
  no_child : Stage
  born watched : ℕ → ℕ → ℕ → Stage
  told gone : ℕ → Stage
  wrong : Stage

unfoldable pub next_stage : Effect → Stage → Stage
next_stage (opened fd) st = st
next_stage (closed fd) st = st
next_stage (wrote fd) st = st
next_stage (forked pid e c) no_child = born pid e c
next_stage handler_set (born pid e c) = watched pid e c
next_stage (called f) (watched pid e c) =
    if f == e then told pid else if f == c then told pid else wrong
next_stage (waited (some q)) (told pid) = if q == pid then gone pid else wrong
next_stage handler_restored (gone pid) = no_child
next_stage _ st = wrong

-- Each child is followed by the change of SIGINT's handler, the call of one of its two functions, the
-- wait for it and the handler's change back, ahead of the next child.
unfoldable pub stage : List Effect → Stage
stage [] = no_child
stage (e ∷ log) = next_stage e (stage log)

unfoldable pub stage_at : Worker → Option ℕ → ℕ → ℕ → Stage
stage_at no_worker child e c = no_child
stage_at ended child e c = no_child
stage_at starting (some pid) e c = born pid e c
stage_at reading (some pid) e c = watched pid e c
stage_at reaping (some pid) e c = told pid
stage_at _ none e c = wrong

abbrev pub stage_of : Subprocess → Stage
stage_of s = stage_at s.worker s.child s.child_exited s.child_crashed

abbrev pub pipe_idle : Worker → Option ℕ → Bool
pipe_idle no_worker (some fd) = false
pipe_idle _ _ = true

abbrev pub child_known : Worker → Option ℕ → Bool
child_known no_worker p = true
child_known ended p = true
child_known _ (some pid) = true
child_known _ none = false

-- The log and the state agree.
pub record Follows (s : Subprocess) (log : List Effect) : Type 0 where
  pub opens : still_open log ≡ to_list s.pipe
  pub stages : stage log ≡ stage_of s
  pub idle : pipe_idle s.worker s.pipe ≡ true
  pub known : child_known s.worker s.child ≡ true
