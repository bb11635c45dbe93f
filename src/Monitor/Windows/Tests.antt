-- ===== src/Monitor/Windows/Tests.antt =====
-- A directory that changes twice, the second time for the last time, and a monitor that starts again.
use system_abstractions.Base.{◌≡◌, refl, true, false, List, [], ◌∷◌, some, none}
use system_abstractions.Monitor.{opened, closed, called}
use system_abstractions.Monitor.Windows.{
  Action, new, round, round_at, call_back, stop_signalled, stop_joined, with_change_event, start,
  signals, joins, starts, goes_on, start_at, act, run,
}

abbrev two_starts : List Action
two_starts =
    starts 7 true (some 5)
    ∷ goes_on true
    ∷ goes_on true
    ∷ goes_on true
    ∷ goes_on false
    ∷ signals
    ∷ joins
    ∷ starts 8 false none
    ∷ starts 8 false (some 5)
    ∷ []

started_again : (run new two_starts).log ≡ opened 5 ∷ closed 5 ∷ called 7 ∷ called 7 ∷ opened 5 ∷ []
unfolding run act start_at start with_change_event round_at round call_back stop_signalled
    stop_joined new
started_again = refl
