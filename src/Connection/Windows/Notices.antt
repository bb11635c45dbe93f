-- ===== src/Connection/Windows/Notices.antt =====
-- A connection of src/Win32/NetworkConnectionWin32.cpp closes its socket once, and tells its owner
-- once.
use mathlib.Core.Path.{subst}
use mathlib.Core.Option.{some-injective}
use system_abstractions.Base.{
  Bool, ◌+◌, ◌<◌, ◌≡◌, inl, inr, List, [], ◌∷◌, some, arith, length, length-append, size_mod,
  Option-cases,
}
use system_abstractions.DataQueue.{Buffer}
use system_abstractions.Connection.State.{Connection}
use system_abstractions.Connection.Processor.{Received, bytes, end_of_stream}
use system_abstractions.Connection.System
use system_abstractions.Connection.System.{
  Action, heads, selects, receives, sends_part, returns, enqueues, stops, closes, given, given_by,
  when-eq,
}
use system_abstractions.Connection.System.Stream.{Streams}
use system_abstractions.Connection.System.Notices
use system_abstractions.Connection.System.Notices.{Told}
use system_abstractions.Connection.Windows.{wait_returns, receive, step, run}
use system_abstractions.Connection.Windows.Stream.{step-Streams}

wait_returns-Told : {c : Connection} (signalled : Bool) → Told c → Told (wait_returns c signalled)
unfolding wait_returns
wait_returns-Told signalled v = ground arith

receive-Told : {c : Connection} (answer : Received) → Told c → Told (receive c answer)
unfolding receive
receive-Told (bytes b) v = ground arith
receive-Told end_of_stream v = ground arith
receive-Told Received.would_block v = ground arith
receive-Told Received.failed v = ground arith

step-Told :
    (a : Action) {g : Buffer} {c c' : Connection}
    → Streams g c
    → Told c
    → step c a ≡ some c'
    → Told c'
unfolding step System.step
step-Told (selects signalled) w v e = subst Told (when-eq e).1 (wait_returns-Told signalled v)
step-Told (receives answer) w v e = subst Told (when-eq e).1 (receive-Told answer v)
step-Told heads w v e = Notices.step-Told heads w v e
step-Told (sends_part answer) w v e = Notices.step-Told (sends_part answer) w v e
step-Told returns w v e = Notices.step-Told returns w v e
step-Told (enqueues message) w v e = Notices.step-Told (enqueues message) w v e
step-Told stops w v e = Notices.step-Told stops w v e
step-Told (closes clean) w v e = Notices.step-Told (closes clean) w v e

-- On Windows, for a connection with both delegates, whatever the processor thread, the clients and
-- the operating system do: the socket is closed once at most, the owner is told of the loss
-- exactly as often, is told of the peer's end of the stream exactly once where the peer ended it,
-- the socket is shut down once at most, no unset delegate is called and the queue is not read past
-- its end.
pub run_tells_once :
    (actions : List Action) {g : Buffer} {c c' : Connection}
    → Streams g c
    → Told c
    → length g + length (given_by actions) < size_mod
    → run c actions ≡ some c'
    → Told c'
unfolding run
run_tells_once [] w v h e = subst Told (some-injective _ _ e) v
run_tells_once (a ∷ rest) {g} {c} {c'} w v h e = elim (Option-cases (step c a)) [
  | inl f ↦ let z = rw (f, run) at e in cc (z)
  | inr (c₁, f) ↦
      run_tells_once rest
        (step-Streams a w (omega (arith, length-append (given a) (given_by rest))) f)
        (step-Told a w v f)
        (omega (arith, length-append g (given a), length-append (given a) (given_by rest)))
        (rw (f, run) at e)
]
