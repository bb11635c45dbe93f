-- ===== src/Connection/System/Outcomes.antt =====
-- How connections begin and end: what `Connect` and `Process` make, and what is left of a connection
-- whose thread has ended.
use mathlib.Core.Path.{subst}
use mathlib.Core.Option.{some-injective}
use system_abstractions.Base.{
  ℕ, ◌+◌, ◌≡◌, inl, inr, Bool, true, false, ◌&&◌, List, [], ◌∷◌, Option, none, some, arith,
  Option-cases, if◌then◌else◌,
}
use system_abstractions.DataQueue.Bytes.{new-IsValid, contents-new}
use system_abstractions.Connection.State.{
  Effect, finished, Connection, make_connection_from_existing_socket, joinable,
}
use system_abstractions.Connection.Calls.{
  ConnectAnswers, connect, process, close_by_client, close_stop, send_message,
}
use system_abstractions.Connection.Processor.{delegate_returns}
use system_abstractions.Connection.System.{
  Action, heads, selects, receives, sends_part, returns, enqueues, stops, closes, step, run,
  sent_bytes, is_at_top, is_in_delegate, is_selecting, is_receiving, is_sending,
}
use system_abstractions.Connection.System.Stream.{Streams}
use system_abstractions.Connection.System.Notices.{Told, closes_in, lost_in, one_if}

-- An accepted connection whose owner has called `Process`.
abbrev pub accepted : ℕ → ℕ → ℕ → ℕ → ℕ → Connection
accepted s bound_address bound_port peer_address peer_port =
    (process
      (make_connection_from_existing_socket s bound_address bound_port peer_address peer_port) true
      true true).0

pub accepted-Streams : (s a p a' p' : ℕ) → Streams [] (accepted s a p a' p')
unfolding process make_connection_from_existing_socket joinable
accepted-Streams s a p a' p' = record {
  valid = new-IsValid;
  all = contents-new;
  small = omega arith;
}

pub accepted-Told : (s a p a' p' : ℕ) → Told (accepted s a p a' p')
unfolding process make_connection_from_existing_socket joinable
accepted-Told s a p a' p' = ground arith

-- The answers with which `Connect` succeeds.
abbrev pub connects : ConnectAnswers → Bool
connects os = elim os.socket [ none ↦ false | some s ↦ os.bind_succeeds && os.connect_succeeds ]

abbrev pub is_open : Option ℕ → Bool
is_open none = false
is_open (some s) = true

-- `Connect` succeeds exactly where the operating system makes a socket, binds and connects it;
-- then that socket is the connection's, and otherwise it has none. A socket open before is closed
-- and its owner told if it has a broken delegate, and a useless new socket is closed too.
pub connect_lem :
    (c : Connection) (address port : ℕ) (os : ConnectAnswers)
    → let (c', done) = connect c address port os in
      (done ≡ connects os)
      × (c'.sock ≡ (if connects os then os.socket else none))
      × (lost_in c'.trace ≡ one_if (is_open c.sock && c.has_broken_delegate) + lost_in c.trace)
      × (closes_in c'.trace
          ≡ one_if (is_open c.sock)
            + (one_if (is_open os.socket && (if connects os then false else true))
                + closes_in c.trace))
      × (c'.peer_address ≡ address)
      × (c'.peer_port ≡ port)
unfolding connect joinable
connect_lem c address port os =
    (ground arith, ground arith, ground arith, ground arith, ground arith, ground arith)

-- `Connect`, whatever its outcome, leaves the flags of a graceful close (closing, closed by the
-- peer, shut down) and the output queue as they were.
pub connect_keeps_flags :
    (c : Connection) (address port : ℕ) (os : ConnectAnswers)
    → let c' = (connect c address port os).0 in
      (c'.closing ≡ c.closing)
      × (c'.peer_closed ≡ c.peer_closed)
      × (c'.shutdown_sent ≡ c.shutdown_sent)
      × (c'.output_queue ≡ c.output_queue)
unfolding connect joinable
connect_keeps_flags c address port os = ground arith

-- The thread has ended: nothing sends or receives for the connection any more.
pub record HasEnded (t : List Effect) (c : Connection) : Type 0 where
  pub ended : c.place ≡ finished
  pub nothing_sent : sent_bytes c.trace ≡ sent_bytes t

step-HasEnded :
    (t : List Effect) (a : Action) {c c' : Connection}
    → HasEnded t c
    → step c a ≡ some c'
    → HasEnded t c'
unfolding step is_in_delegate is_at_top is_selecting is_receiving is_sending delegate_returns
    send_message close_stop close_by_client joinable
step-HasEnded t heads v e = ground arith
step-HasEnded t (selects signalled) v e = ground arith
step-HasEnded t (receives answer) v e = ground arith
step-HasEnded t (sends_part answer) v e = ground arith
step-HasEnded t returns v e = ground arith
step-HasEnded t (enqueues message) v e = ground arith
step-HasEnded t stops v e = ground arith
step-HasEnded t (closes true) v e = ground arith
step-HasEnded t (closes false) v e = ground arith

run-HasEnded :
    (t : List Effect) (actions : List Action) {c c' : Connection}
    → HasEnded t c
    → run c actions ≡ some c'
    → HasEnded t c'
unfolding run
run-HasEnded t [] v e = subst (HasEnded t) (some-injective _ _ e) v
run-HasEnded t (a ∷ rest) {c} v e = elim (Option-cases (step c a)) [
  | inl f ↦ let z = rw (f, run) at e in cc (z)
  | inr (c₁, f) ↦ run-HasEnded t rest (step-HasEnded t a v f) (rw (f, run) at e)
]

begins :
    (c : Connection) (s : ℕ) (has_message has_broken signal_works : Bool)
    → c.sock ≡ some s
    → c.place ≡ finished
    → ((process c has_message has_broken signal_works).1 ≡ true)
      × HasEnded c.trace (process c has_message has_broken signal_works).0
unfolding process joinable
begins c s has_message has_broken signal_works o p = (ground arith, ground arith)

-- `Process` on a connection with a socket whose processor thread has ended returns true and starts
-- no thread: whatever is done with the connection afterwards, no byte is sent on it any more.
process_again_is_dead :
    (c : Connection) (s : ℕ) (has_message has_broken signal_works : Bool) (actions : List Action)
    {c' : Connection}
    → c.sock ≡ some s
    → c.place ≡ finished
    → run (process c has_message has_broken signal_works).0 actions ≡ some c'
    → ((process c has_message has_broken signal_works).1 ≡ true)
      × (c'.place ≡ finished)
      × (sent_bytes c'.trace ≡ sent_bytes c.trace)
process_again_is_dead c s has_message has_broken signal_works actions open_sock over e =
    let v =
      run-HasEnded c.trace actions (begins c s has_message has_broken signal_works open_sock over).1
        e in
    ((begins c s has_message has_broken signal_works open_sock over).0, v.ended, v.nothing_sent)
