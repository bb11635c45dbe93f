-- ===== src/Service/Tests.antt =====
-- A service that SIGTERM ends.
use system_abstractions.Base.{◌≡◌, refl, false, List, [], ◌∷◌, ◌++◌}
use system_abstractions.Service.{
  Action, interrupts, polls, joins, returns, begin, interrupt, poll, run_returns, join_at, act, run,
}
use system_abstractions.Service.Stopping.{main_stops_once, interrupt_stops}

abbrev terminated : List Action
terminated = polls ∷ interrupts ∷ polls ∷ polls ∷ joins ∷ returns 3 ∷ joins ∷ []

main_stops_once_example :
    ((run (begin false) terminated).stops ≡ 1) × ((run (begin false) terminated).handler ≡ false)
unfolding begin run act interrupt poll run_returns join_at
main_stops_once_example = main_stops_once false terminated refl

interrupt_stops_example :
    (run (begin false) ((polls ∷ polls ∷ []) ++ interrupts ∷ polls ∷ [])).stops ≡ 1
unfolding begin run act poll
interrupt_stops_example = interrupt_stops false (polls ∷ polls ∷ []) refl refl
