-- ===== src/Subprocess/Windows/Handles.antt =====
-- A parent's Subprocess of src/Win32/SubprocessWin32.cpp with its worker thread: every order of the
-- calls and the thread's steps, and the handles that a log of their effects leaves open.
use system_abstractions.Base.{
  ℕ, suc, ◌+◌, ◌≡◌, Bool, true, false, List, [], ◌∷◌, ◌++◌, Option, some, if◌then◌else◌,
}
use system_abstractions.Subprocess.Posix.System.{without, to_list}
use system_abstractions.Subprocess.Windows.{
  Effect, opened, closed, created, handler_set, handler_restored, called, waited, wrote, terminated,
  Worker, no_worker, starting, reading, reaping, ended, Subprocess, new, monitor_at, can_join,
  start_child,
}

-- A call of `StartChild`, with its functions and the answers of `CreatePipe` and `CreateProcessA`, or
-- the worker's next step.
pub data Action : Type 0 where
  starts : ℕ → ℕ → Option (ℕ × ℕ) → Option (ℕ × ℕ) → Action
  monitors : Bool → Action

-- The state, and the effects so far, the newest first.
pub record System : Type 0 where
  pub process : Subprocess
  pub log : List Effect

abbrev pub push : List Effect → List Effect → List Effect
push [] log = log
push (e ∷ es) log = push es (e ∷ log)

-- A call of `StartChild` that would wait is not taken yet.
unfoldable pub act : System → Action → System
act y (starts exited crashed ends process) =
    if can_join y.process.worker
    then (let (s, es, result) = start_child y.process exited crashed ends process in
        record { process = s; log = push es y.log })
    else y
act y (monitors got) =
    let (s, es) = monitor_at y.process.worker y.process got in
    record { process = s; log = push es y.log }

unfoldable pub run : System → List Action → System
run y [] = y
run y (a ∷ actions) = run (act y a) actions

abbrev pub first : System
first = record { process = new; log = [] }

-- The handles that a log leaves open.
unfoldable pub still_open : List Effect → List ℕ
still_open [] = []
still_open (opened h ∷ log) = h ∷ still_open log
still_open (closed h ∷ log) = without h (still_open log)
still_open (created id e c ∷ log) = still_open log
still_open (handler_set ∷ log) = still_open log
still_open (handler_restored ∷ log) = still_open log
still_open (called f ∷ log) = still_open log
still_open (waited process ∷ log) = still_open log
still_open (wrote h ∷ log) = still_open log
still_open (terminated process ∷ log) = still_open log

-- How many processes were created, and how many functions called.
unfoldable pub creations : List Effect → ℕ
creations [] = 0
creations (created id e c ∷ log) = suc (creations log)
creations (opened h ∷ log) = creations log
creations (closed h ∷ log) = creations log
creations (handler_set ∷ log) = creations log
creations (handler_restored ∷ log) = creations log
creations (called f ∷ log) = creations log
creations (waited process ∷ log) = creations log
creations (wrote h ∷ log) = creations log
creations (terminated process ∷ log) = creations log

unfoldable pub reports : List Effect → ℕ
reports [] = 0
reports (called f ∷ log) = suc (reports log)
reports (created id e c ∷ log) = reports log
reports (opened h ∷ log) = reports log
reports (closed h ∷ log) = reports log
reports (handler_set ∷ log) = reports log
reports (handler_restored ∷ log) = reports log
reports (waited process ∷ log) = reports log
reports (wrote h ∷ log) = reports log
reports (terminated process ∷ log) = reports log

-- The handles that the object holds while the worker is there.
unfoldable pub held : Worker → Subprocess → List ℕ
held no_worker s = []
held _ s = to_list s.child ++ to_list s.pipe

-- The process has not been reported yet.
unfoldable pub pending : Worker → ℕ
pending no_worker = 0
pending starting = 1
pending reading = 1
pending reaping = 0
pending ended = 0

abbrev pub pipe_idle : Worker → Option ℕ → Bool
pipe_idle no_worker (some h) = false
pipe_idle _ _ = true

-- The log and the state agree, in the worker's phase `w`.
pub record Balances (w : Worker) (s : Subprocess) (log : List Effect) : Type 0 where
  pub opens : still_open log ≡ held w s
  pub counts : creations log ≡ reports log + pending w
  pub idle : pipe_idle w s.pipe ≡ true
