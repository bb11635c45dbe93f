-- ===== src/Service.antt =====
-- src/Linux/ServiceLinux.cpp: `Main` runs the service beside a thread that waits for SIGTERM. `Run` and
-- `Stop` are the service's own; when `Run` returns is an event.
pub mod Stopping
mod Tests
use system_abstractions.Base.{
  ℕ, zero, suc, Bool, true, false, List, [], ◌∷◌, if◌then◌else◌, Option, none, some,
}

-- The thread: in its loop, and ended.
pub data Worker : Type 0 where
  polling ended : Worker

-- `Main`: in `Run`, at the `join`, and returned.
pub data Main : Type 0 where
  running joining returned : Main

-- `handler` tells that InterruptHandler is the handler of SIGTERM; `told` that the promise
-- `stopWorker` has its value; `stops` counts the calls of `Stop`, and `result` is what `Run` gave.
pub record Service : Type 0 where
  pub shut_down : Bool
  pub handler : Bool
  pub told : Bool
  pub worker : Worker
  pub main : Main
  pub stops : ℕ
  pub result : ℕ

-- `Main` up to its call of `Run`; `shutDown` is a global that keeps its value.
unfoldable pub begin : Bool → Service
begin shut_down = record {
  shut_down = shut_down;
  handler = true;
  told = false;
  worker = polling;
  main = running;
  stops = 0;
  result = 0;
}

-- The end of `PollShutDown`
abbrev pub stop : Service → Service
stop s = record s { worker = ended; stops = suc s.stops }

-- A round of `PollShutDown`: the flag, and then up to 100 ms for the promise.
unfoldable pub poll : Worker → Service → Service
poll ended s = s
poll polling s = if s.shut_down then stop s else if s.told then stop s else s

-- `InterruptHandler`, while it is SIGTERM's handler.
unfoldable pub interrupt : Service → Service
interrupt s = if s.handler then record s { shut_down = true } else s

-- `Run` returns, and the promise gets its value.
unfoldable pub run_returns : Main → Service → ℕ → Service
run_returns running s result = record s { main = joining; told = true; result = result }
run_returns joining s result = s
run_returns returned s result = s

-- The `join`, which waits for the thread, and the rest of `Main`.
unfoldable pub join_at : Main → Worker → Service → Service
join_at joining ended s = record s { main = returned; handler = false }
join_at joining polling s = s
join_at running worker s = s
join_at returned worker s = s

pub data Action : Type 0 where
  interrupts polls joins : Action
  returns : ℕ → Action

unfoldable pub act : Service → Action → Service
act s interrupts = interrupt s
act s polls = poll s.worker s
act s joins = join_at s.main s.worker s
act s (returns result) = run_returns s.main s result

unfoldable pub run : Service → List Action → Service
run s [] = s
run s (a ∷ actions) = run (act s a) actions
