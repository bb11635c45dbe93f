-- ===== src/Connection/Windows/Stream.antt =====
-- The bytes that a connection sends with src/Win32/NetworkConnectionWin32.cpp are those that its
-- clients gave it, in order.
use mathlib.Core.Path.{subst}
use mathlib.Core.Option.{some-injective}
use system_abstractions.Base.{
  Bool, ◌+◌, ◌<◌, ◌≡◌, inl, inr, List, [], ◌∷◌, ◌++◌, some, arith, length, length-append,
  append_assoc, size_mod, Option-cases,
}
use system_abstractions.DataQueue.{Buffer}
use system_abstractions.Connection.State.{Connection}
use system_abstractions.Connection.Processor.{Received, bytes, end_of_stream}
use system_abstractions.Connection.System.{
  Action, heads, selects, receives, sends_part, returns, enqueues, stops, closes, given, given_by,
  when-eq,
}
use system_abstractions.Connection.System
use system_abstractions.Connection.System.Stream.{Same, Same-Streams, Streams, unchanged}
use system_abstractions.Connection.System.Stream
use system_abstractions.Connection.Windows.{wait_returns, receive, step, run}

wait_returns-Same : (c : Connection) (signalled : Bool) → Same c (wait_returns c signalled)
unfolding wait_returns
wait_returns-Same c signalled = ground arith

receive-Same : (c : Connection) (answer : Received) → Same c (receive c answer)
unfolding receive
receive-Same c (bytes b) = ground arith
receive-Same c end_of_stream = ground arith
receive-Same c Received.would_block = ground arith
receive-Same c Received.failed = ground arith

pub step-Streams :
    (a : Action) {g : Buffer} {c c' : Connection}
    → Streams g c
    → length g + length (given a) < size_mod
    → step c a ≡ some c'
    → Streams (g ++ given a) c'
unfolding step System.step
step-Streams (selects signalled) v h e =
    unchanged (when-eq e).1 (Same-Streams (wait_returns-Same _ signalled) v)
step-Streams (receives answer) v h e =
    unchanged (when-eq e).1 (Same-Streams (receive-Same _ answer) v)
step-Streams heads v h e = Stream.step-Streams heads v h e
step-Streams (sends_part answer) v h e = Stream.step-Streams (sends_part answer) v h e
step-Streams returns v h e = Stream.step-Streams returns v h e
step-Streams (enqueues message) v h e = Stream.step-Streams (enqueues message) v h e
step-Streams stops v h e = Stream.step-Streams stops v h e
step-Streams (closes clean) v h e = Stream.step-Streams (closes clean) v h e

-- On Windows, from a state in which the bytes sent, followed by those in the output queue, are the
-- bytes given so far, whatever the processor thread, the clients and the operating system then do,
-- the bytes sent followed by those in the queue are all the bytes given to `SendMessage` in their
-- order. The bytes given are fewer than a `size_t` can count.
pub run_in_order :
    (actions : List Action) {g : Buffer} {c c' : Connection}
    → Streams g c
    → length g + length (given_by actions) < size_mod
    → run c actions ≡ some c'
    → Streams (g ++ given_by actions) c'
unfolding run
run_in_order [] v h e = unchanged (some-injective _ _ e) v
run_in_order (a ∷ rest) {g} {c} {c'} v h e = elim (Option-cases (step c a)) [
  | inl f ↦ let z = rw (f, run) at e in cc (z)
  | inr (c₁, f) ↦
      subst (λ xs. Streams xs c') (append_assoc g (given a) (given_by rest))
        (run_in_order rest
          (step-Streams a v (omega (arith, length-append (given a) (given_by rest))) f)
          (omega (arith, length-append g (given a), length-append (given a) (given_by rest)))
          (rw (f, run) at e))
]
