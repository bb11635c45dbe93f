-- ===== src/Monitor/Tests.antt =====
-- A directory that changes twice, and a monitor that is stopped ahead of its second call.
use system_abstractions.Base.{◌≡◌, refl, true, false, List, [], ◌∷◌, some, map}
use system_abstractions.Monitor.{
  Action, Answers, no_worker, new, opened, closed, called, starts, goes_on, round_at, round,
  call_back, with_watch, with_queue, start, start_at, act, run, stop,
}
use system_abstractions.Monitor.Stopping.{
  still_open, closes_open, HoldsQueue, run-HoldsQueue, stop_lem,
}

abbrev answers : Answers
answers = record {
  signal_made = true;
  queue = some 5;
  flags_read = true;
  flags_set = true;
  watch = some 1;
}

abbrev two_changes : List Action
two_changes = starts 7 answers ∷ goes_on true ∷ goes_on false ∷ goes_on false ∷ goes_on true ∷ []

new-HoldsQueue : HoldsQueue new
unfolding new still_open closes_open
new-HoldsQueue = record { sound = refl; opens = refl; held = refl }

run-HoldsQueue_example : HoldsQueue (run new two_changes)
run-HoldsQueue_example = run-HoldsQueue new two_changes new-HoldsQueue

stop_lem_example :
    (still_open (run (stop (run new two_changes) true true) (map goes_on (true ∷ []))).log ≡ [])
    × ((run (stop (run new two_changes) true true) (map goes_on (true ∷ []))).worker ≡ no_worker)
    × ((run (stop (run new two_changes) true true) (map goes_on (true ∷ []))).log
        ≡ closed 5 ∷ called 7 ∷ called 7 ∷ opened 5 ∷ [])
unfolding run act start_at start with_queue with_watch round_at round call_back new
stop_lem_example =
    stop_lem (run new two_changes) true true (true ∷ []) refl
      (run-HoldsQueue new two_changes new-HoldsQueue)
