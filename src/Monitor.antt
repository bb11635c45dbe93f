-- ===== src/Monitor.antt =====
-- src/Linux/DirectoryMonitorLinux.cpp: a thread that waits for changes of a directory. The answers of
-- the operating system are arguments, and what the code does to the rest of the system is a list of
-- effects, the newest first.
pub mod Stopping
pub mod Windows
mod Tests
use system_abstractions.Base.{
  ℕ, zero, suc, Bool, true, false, ◌&&◌, not, List, [], ◌∷◌, ◌++◌, Option, none, some,
  if◌then◌else◌,
}

-- Queues opened and closed, and calls of the owner's function.
pub data Effect : Type 0 where
  opened closed called : ℕ → Effect

-- The thread: not there, in `select`, behind it with a change to tell, and ended but not joined.
pub data Worker : Type 0 where
  no_worker waiting calling ended : Worker

-- `DirectoryMonitor::Impl` with the effects so far. A number of -1 is `none`; of the stop signal only
-- whether it is set counts.
pub record Monitor : Type 0 where
  pub worker : Worker
  pub callback : ℕ
  pub queue : Option ℕ
  pub watch : Option ℕ
  pub stop_signal : Bool
  pub log : List Effect

unfoldable pub new : Monitor
new = record {
  worker = no_worker;
  callback = 0;
  queue = none;
  watch = none;
  stop_signal = false;
  log = [];
}

-- `select` returns, with the stop signal or for the queue, whose events are then read away.
unfoldable pub round : Monitor → Bool → Monitor
round m changed =
    if m.stop_signal
    then record m { worker = ended }
    else if changed
    then record m { worker = calling }
    else m

-- The call of the owner's function, whatever was set since `select` returned.
unfoldable pub call_back : Monitor → Monitor
call_back m = record m { worker = waiting; log = called m.callback ∷ m.log }

unfoldable pub round_at : Worker → Monitor → Bool → Monitor
round_at waiting m changed = round m changed
round_at calling m changed = call_back m
round_at no_worker m changed = m
round_at ended m changed = m

abbrev pub close_queue : Option ℕ → List Effect → List Effect
close_queue none log = log
close_queue (some fd) log = closed fd ∷ log

-- `Stop` up to the `join`.
unfoldable pub stop_signalled : Worker → Monitor → Monitor
stop_signalled no_worker m = m
stop_signalled waiting m = record m { stop_signal = true }
stop_signalled calling m = record m { stop_signal = true }
stop_signalled ended m = record m { stop_signal = true }

-- `Stop` from the `join` on, which waits while the thread runs.
unfoldable pub stop_joined : Worker → Monitor → Monitor
stop_joined no_worker m = m
stop_joined waiting m = m
stop_joined calling m = m
stop_joined ended m = record m {
  worker = no_worker;
  watch = none;
  queue = none;
  log = close_queue m.queue m.log;
}

-- What the operating system answers to `Start`: whether the stop signal can be made, the queue,
-- whether its flags can be read and set, and the watch.
pub record Answers : Type 0 where
  pub signal_made : Bool
  pub queue : Option ℕ
  pub flags_read : Bool
  pub flags_set : Bool
  pub watch : Option ℕ

-- A failure behind `inotify_init`.
unfoldable pub give_up : Monitor → ℕ → Monitor × Bool
give_up m fd = (record m { queue = none; log = closed fd ∷ opened fd ∷ m.log }, false)

unfoldable pub with_watch : Monitor → ℕ → Option ℕ → Monitor × Bool
with_watch m fd none = let (m', result) = give_up m fd in (record m' { watch = none }, result)
with_watch m fd (some w) =
    (record m { queue = some fd; watch = some w; worker = waiting; log = opened fd ∷ m.log }, true)

unfoldable pub with_queue : Monitor → Answers → Option ℕ → Monitor × Bool
with_queue m a none = (record m { queue = none }, false)
with_queue m a (some fd) =
    if not a.flags_read
    then give_up m fd
    else if not a.flags_set
    then give_up m fd
    else with_watch m fd a.watch

-- `Start` behind its `Stop`.
unfoldable pub start : Monitor → ℕ → Answers → Monitor × Bool
start m callback a =
    if not a.signal_made
    then (m, false)
    else with_queue (record m { stop_signal = false; callback = callback }) a a.queue

-- The calls' parts and the steps of the thread, in any order. `Start` goes on behind its `Stop` once
-- there is no thread.
pub data Action : Type 0 where
  signals joins : Action
  starts : ℕ → Answers → Action
  goes_on : Bool → Action

unfoldable pub start_at : Worker → Monitor → ℕ → Answers → Monitor
start_at no_worker m callback a = (start m callback a).0
start_at waiting m callback a = m
start_at calling m callback a = m
start_at ended m callback a = m

unfoldable pub act : Monitor → Action → Monitor
act m signals = stop_signalled m.worker m
act m joins = stop_joined m.worker m
act m (starts callback a) = start_at m.worker m callback a
act m (goes_on changed) = round_at m.worker m changed

unfoldable pub run : Monitor → List Action → Monitor
run m [] = m
run m (a ∷ actions) = run (act m a) actions

-- `Stop` as a whole, with two steps of the thread in between.
abbrev pub stop : Monitor → Bool → Bool → Monitor
stop m changed changed_again =
    run m (signals ∷ goes_on changed ∷ goes_on changed_again ∷ joins ∷ [])
