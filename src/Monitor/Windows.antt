-- ===== src/Monitor/Windows.antt =====
-- src/Win32/DirectoryMonitorWin32.cpp: a thread that waits for changes of a directory. What is opened
-- and closed is the handle for the directory's changes.
pub mod Handles
mod Tests
use mathlib.Core.Path.{subst}
use system_abstractions.Base.{
  ℕ, ◌≡◌, refl, sym, ap, ◌∙◌, inl, inr, Bool, true, false, List, [], ◌∷◌, Option, none, some,
  if◌then◌else◌, Bool-cases, Option-cases,
}
use system_abstractions.Subprocess.Posix.System.{to_list}
use system_abstractions.Monitor.{
  Effect, opened, closed, called, Worker, no_worker, waiting, calling, ended, close_queue,
}
use system_abstractions.Monitor.Stopping.{
  still_open, closes_open, close_queue_lem, close_queue_sound,
}

-- `DirectoryMonitor::Impl` with the effects so far, the newest first. INVALID_HANDLE_VALUE and NULL
-- are `none`; of the stop event only whether it is set counts.
pub record Monitor : Type 0 where
  pub worker : Worker
  pub callback : ℕ
  pub change_event : Option ℕ
  pub stop_event : Option Bool
  pub log : List Effect

unfoldable pub new : Monitor
new = record { worker = no_worker; callback = 0; change_event = none; stop_event = none; log = [] }

abbrev pub is_set : Option Bool → Bool
is_set none = false
is_set (some b) = b

-- The wait returns once an event is set, of which the stop event comes first.
unfoldable pub round : Monitor → Monitor
round m = if is_set m.stop_event then record m { worker = ended } else record m { worker = calling }

-- The call of the owner's function, whatever was set since the wait returned; then the handle is set
-- up for the next change or not.
unfoldable pub call_back : Monitor → Bool → Monitor
call_back m set_up = record m {
  worker = if set_up then waiting else ended;
  log = called m.callback ∷ m.log;
}

unfoldable pub round_at : Worker → Monitor → Bool → Monitor
round_at waiting m set_up = round m
round_at calling m set_up = call_back m set_up
round_at no_worker m set_up = m
round_at ended m set_up = m

-- `Stop` up to the `join`.
unfoldable pub stop_signalled : Worker → Monitor → Monitor
stop_signalled no_worker m = m
stop_signalled calling m = record m { stop_event = some true }
stop_signalled waiting m = record m { stop_event = some true }
stop_signalled ended m = record m { stop_event = some true }

-- `Stop` from the `join` on, which waits while the thread runs. The handle keeps its number.
unfoldable pub stop_joined : Worker → Monitor → Monitor
stop_joined no_worker m = m
stop_joined waiting m = m
stop_joined calling m = m
stop_joined ended m = record m { worker = no_worker; log = close_queue m.change_event m.log }

unfoldable pub with_change_event : Monitor → Option ℕ → Monitor × Bool
with_change_event m none = (record m { change_event = none }, false)
with_change_event m (some h) =
    (record m { change_event = some h; worker = waiting; log = opened h ∷ m.log }, true)

-- `Start` behind its `Stop`, by whether the stop event can be made where there is none, and the
-- handle for changes.
unfoldable pub start : Monitor → ℕ → Bool → Option ℕ → Monitor × Bool
start m callback event_made change_event = elim m.stop_event [
  | none ↦
      if event_made
      then with_change_event (record m { stop_event = some false; callback = callback })
          change_event
      else (m, false)
  | some b ↦
      with_change_event (record m { stop_event = some false; callback = callback }) change_event
]

-- The calls' parts and the steps of the thread, in any order. `Start` goes on behind its `Stop` once
-- there is no thread.
pub data Action : Type 0 where
  signals joins : Action
  starts : ℕ → Bool → Option ℕ → Action
  goes_on : Bool → Action

unfoldable pub start_at : Worker → Monitor → ℕ → Bool → Option ℕ → Monitor
start_at no_worker m callback event_made change_event = (start m callback event_made change_event).0
start_at waiting m callback event_made change_event = m
start_at calling m callback event_made change_event = m
start_at ended m callback event_made change_event = m

unfoldable pub act : Monitor → Action → Monitor
act m signals = stop_signalled m.worker m
act m joins = stop_joined m.worker m
act m (starts callback event_made change_event) =
    start_at m.worker m callback event_made change_event
act m (goes_on set_up) = round_at m.worker m set_up

unfoldable pub run : Monitor → List Action → Monitor
run m [] = m
run m (a ∷ actions) = run (act m a) actions
