-- ===== src/Connection/Windows/Stopping.antt =====
-- The thread of src/Win32/NetworkConnectionWin32.cpp that is asked to stop ends.
use mathlib.Core.Path.{subst}
use mathlib.Core.Option.{some-injective}
use system_abstractions.Base.{
  ℕ, ◌+◌, ◌-◌, ◌≤◌, ◌≡◌, ◌≢◌, refl, ap, ◌⊎◌, inl, inr, Bool, true, List, [], ◌∷◌, some, arith,
  length, Option-cases,
}
use system_abstractions.DataQueue.{Buffer}
use system_abstractions.Connection.State.{
  Place, not_started, at_top, selecting, receiving, sending, in_message, in_broken_eof,
  in_broken_last, in_broken_close, finished, crashed, Connection, joinable,
}
use system_abstractions.Connection.Processor.{
  Received, bytes, end_of_stream, Sent, loop_head, send_part, delegate_returns,
}
use system_abstractions.Connection.System
use system_abstractions.Connection.System.{
  Action, heads, selects, receives, sends_part, returns, enqueues, stops, closes, given_by, when-eq,
  is_at_top, is_selecting, is_receiving, is_sending, is_in_delegate, recv_can, send_can, select_can,
}
use system_abstractions.Connection.System.Stream.{Streams, and_right}
use system_abstractions.Connection.System.Notices.{Told}
use system_abstractions.Connection.System.Distance.{
  is_own, is_unaided, all_own, distance, Within, Within-more, and_left,
}
use system_abstractions.Connection.System.Stopping
use system_abstractions.Connection.System.Stopping.{
  far, nearer, finished-cases, asked-Within, given_by-own,
}
use system_abstractions.Connection.Windows.{wait_returns, receive, step, run}
use system_abstractions.Connection.Windows.Notices.{run_tells_once}

wait_returns-Within :
    (c : Connection) (signalled : Bool)
    → c.processor_stop ≡ true
    → Within 5 (wait_returns c signalled)
unfolding wait_returns distance joinable is_selecting
wait_returns-Within c signalled h = ground arith

receive-Within :
    (c : Connection) (answer : Received) → c.processor_stop ≡ true → Within 4 (receive c answer)
unfolding receive distance joinable is_selecting
receive-Within c (bytes b) h = ground arith
receive-Within c end_of_stream h = ground arith
receive-Within c Received.would_block h = ground arith
receive-Within c Received.failed h = ground arith

step-Within :
    (a : Action) {n : ℕ} {c c' : Connection}
    → is_own a ≡ true
    → Within n c
    → step c a ≡ some c'
    → (1 ≤ n) × Within (n - 1) c'
unfolding step System.step
step-Within (selects signalled) {n} {c} o v e =
    nearer v ((far c.place).1 (and_left _ _ (when-eq e).0)) (omega arith)
      (wait_returns-Within c signalled v.asked) (when-eq e).1
step-Within (receives answer) {n} {c} o v e =
    nearer v ((far c.place).2 (and_left _ _ (when-eq e).0)) (omega arith)
      (receive-Within c answer v.asked) (when-eq e).1
step-Within heads o v e = Stopping.step-Within heads o v e
step-Within (sends_part answer) o v e = Stopping.step-Within (sends_part answer) o v e
step-Within returns o v e = Stopping.step-Within returns o v e
step-Within (enqueues message) o v e = cc
step-Within stops o v e = cc
step-Within (closes clean) o v e = cc

-- The thread can do some piece of work without the help of the peer.
abbrev pub CanGo : Connection → Type 0
CanGo c = (a : Action) × (c' : Connection) × (is_unaided a ≡ true) × (step c a ≡ some c')

can_go : {n : ℕ} (c : Connection) → c.place ≢ finished → c.place ≢ crashed → Within n c → CanGo c
unfolding step is_at_top is_selecting is_receiving is_sending is_in_delegate recv_can send_can
    joinable select_can
can_go c f x v = go_on c.place refl
  where
    go_on : (p : Place) → c.place ≡ p → CanGo c
    go_on not_started e = absurd (ground (arith, v.there))
    go_on at_top e = (heads, loop_head c, refl, ground arith)
    go_on selecting e = (selects true, wait_returns c true, refl, ground (arith, v.awake))
    go_on receiving e = (receives Received.failed, receive c Received.failed, refl, ground arith)
    go_on sending e = (sends_part Sent.failed, send_part c Sent.failed, refl, ground arith)
    go_on in_message e = (returns, delegate_returns c, refl, ground arith)
    go_on in_broken_eof e = (returns, delegate_returns c, refl, ground arith)
    go_on in_broken_last e = (returns, delegate_returns c, refl, ground arith)
    go_on in_broken_close e = (returns, delegate_returns c, refl, ground arith)
    go_on finished e = absurd (f e)
    go_on crashed e = absurd (x e)

run-Within :
    (actions : List Action) {n : ℕ} {c c' : Connection}
    → all_own actions ≡ true
    → Within n c
    → run c actions ≡ some c'
    → (length actions + distance c'.place ≤ n) × Within n c'
unfolding run
run-Within [] {n} o v e =
    let w = subst (Within n) (some-injective _ _ e) v in (omega (arith, w.near), w)
run-Within (a ∷ rest) {n} {c} o v e = elim (Option-cases (step c a)) [
  | inl f ↦ let z = rw (f, run) at e in cc (z)
  | inr (c₁, f) ↦
      let (l, w) = step-Within a (and_left _ _ o) v f in
      let (k, j) = run-Within rest (and_right _ _ o) w (rw (f, run) at e) in
      (omega (arith, k, l), Within-more (omega arith) j)
]

-- On Windows, once an immediate `Close` has asked the started thread of a connection to stop (with
-- both delegates, in a state that `run_in_order` and `run_tells_once` describe), the thread does
-- at most six more pieces of work of its own with no client between, wherever it stands and
-- whatever the operating system answers; and until it has ended there is one that it can do with
-- no help of the peer, where delegates return: it does not wait in `WaitForMultipleObjects` with
-- its event not set.
pub stopped_processor_ends :
    {g : Buffer} (c : Connection) (actions : List Action) {c' : Connection}
    → Streams g c
    → Told c
    → joinable c.place ≡ true
    → all_own actions ≡ true
    → run c (stops ∷ actions) ≡ some c'
    → (length actions ≤ 6) × ((c'.place ≡ finished) ⊎ CanGo c')
unfolding run step
stopped_processor_ends c actions {c'} w v j o e =
    let (l, t) = run-Within actions o (asked-Within c j) e in
    let told =
      run_tells_once (stops ∷ actions) w v
        (omega (arith, w.small, ap length (given_by-own actions o))) e in
    (
      omega (arith, l),
      elim (finished-cases c'.place) [ inl f ↦ inl f | inr f ↦ inr (can_go c' f told.alive t) ],
    )
