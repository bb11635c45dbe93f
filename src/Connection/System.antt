-- ===== src/Connection/System.antt =====
-- A connection whose thread runs beside its clients: every order in which their pieces of work can
-- follow one another, under the mutex of src/Posix/NetworkConnectionPosix.cpp.
pub mod Stream
pub mod Notices
pub mod Outcomes
pub mod Shutdown
pub mod Distance
pub mod Stopping
use mathlib.Core.Option.{some-injective}
use system_abstractions.Base.{
  ℕ, ◌+◌, Bool, true, false, ◌&&◌, List, [], ◌∷◌, ◌++◌, ◌≡◌, refl, Option, none, some, ltb, leb,
  length, if◌then◌else◌,
}
use system_abstractions.DataQueue.{Buffer}
use system_abstractions.Connection.State.{
  Effect, calls_recv, calls_close, calls_shutdown, sends, signal_set, signal_clear, reports,
  message_received, broken, Place, at_top, selecting, receiving, sending, not_started, in_message,
  in_broken_eof, in_broken_last, in_broken_close, finished, crashed, Connection, is_connected,
}
use system_abstractions.Connection.Calls.{
  close_stop, immediate_and_stop_processor, close_by_client, send_message,
}
use system_abstractions.Connection.Processor.{
  Received, bytes, end_of_stream, would_block, failed, Sent, taken, loop_head, select_returns,
  receive, send_part, delegate_returns, write_size, maximum_read_size,
}

-- A piece of work of the thread, with what the operating system answers to it, or of a client (a
-- delegate that calls a method is a client too).
pub data Action : Type 0 where
  heads : Action
  selects : Bool → Action
  receives : Received → Action
  sends_part : Sent → Action
  returns : Action
  -- `SendMessage`
  enqueues : Buffer → Action
  -- the part of an immediate `Close` ahead of the lock, and a whole `Close`
  stops : Action
  closes : Bool → Action

-- The thread does not hold the mutex.
unfoldable pub mutex_free : Place → Bool
mutex_free at_top = false
mutex_free receiving = false
mutex_free sending = false
mutex_free _ = true

-- What the operating system can answer: a call on -1 fails, `recv` gives no more bytes than asked
-- for, and `send` takes no more than it is given.
unfoldable pub recv_can : Connection → Received → Bool
unfolding is_connected
recv_can c (bytes b) = is_connected c && (ltb 0 (length b) && leb (length b) maximum_read_size)
recv_can c end_of_stream = is_connected c
recv_can c Received.would_block = is_connected c
recv_can c Received.failed = true

unfoldable pub send_can : Connection → Sent → Bool
send_can c (taken n) = leb n (write_size c)
send_can c Sent.would_block = true
send_can c Sent.failed = true

-- `select` returns once the signal is set, or the socket is ready for what the thread waits for, which
-- the peer and the operating system decide. It is not interrupted.
unfoldable pub select_can : Connection → Bool → Bool
select_can c true = ltb 0 c.signals
select_can c false = true

abbrev pub when : Bool → Connection → Option Connection
when true c = some c
when false c = none

unfoldable pub is_at_top : Place → Bool
is_at_top at_top = true
is_at_top _ = false

unfoldable pub is_selecting : Place → Bool
is_selecting selecting = true
is_selecting _ = false

unfoldable pub is_receiving : Place → Bool
is_receiving receiving = true
is_receiving _ = false

unfoldable pub is_sending : Place → Bool
is_sending sending = true
is_sending _ = false

unfoldable pub is_in_delegate : Place → Bool
is_in_delegate in_message = true
is_in_delegate in_broken_eof = true
is_in_delegate in_broken_last = true
is_in_delegate in_broken_close = true
is_in_delegate _ = false

-- One action, `none` where it cannot happen.
unfoldable pub step : Connection → Action → Option Connection
step c heads = when (is_at_top c.place) (loop_head c)
step c (selects signalled) =
    when (is_selecting c.place && select_can c signalled) (select_returns c signalled)
step c (receives answer) = when (is_receiving c.place && recv_can c answer) (receive c answer)
step c (sends_part answer) = when (is_sending c.place && send_can c answer) (send_part c answer)
step c returns = when (is_in_delegate c.place) (delegate_returns c)
step c (enqueues message) = when (mutex_free c.place) (send_message c message)
step c stops = some (close_stop c immediate_and_stop_processor)
step c (closes clean) = when (mutex_free c.place) (close_by_client c clean)

pub when-eq : {b : Bool} {c c' : Connection} → when b c ≡ some c' → (b ≡ true) × (c ≡ c')
when-eq {b = true} {c} {c'} e = (refl, some-injective c c' e)
when-eq {b = false} e = cc

unfoldable pub run : Connection → List Action → Option Connection
run c [] = some c
run c (a ∷ rest) = elim (step c a) [ none ↦ none | some c' ↦ run c' rest ]

-- The bytes that clients gave to `SendMessage`, in order.
abbrev pub given : Action → Buffer
given (enqueues message) = message
given heads = []
given (selects signalled) = []
given (receives answer) = []
given (sends_part answer) = []
given returns = []
given stops = []
given (closes clean) = []

abbrev pub given_by : List Action → Buffer
given_by [] = []
given_by (a ∷ rest) = given a ++ given_by rest

-- The bytes that the operating system took, in order.
abbrev pub sent_bytes : List Effect → Buffer
sent_bytes [] = []
sent_bytes (sends s b ∷ t) = sent_bytes t ++ b
sent_bytes (calls_recv s ∷ t) = sent_bytes t
sent_bytes (calls_close s ∷ t) = sent_bytes t
sent_bytes (calls_shutdown s ∷ t) = sent_bytes t
sent_bytes (signal_set ∷ t) = sent_bytes t
sent_bytes (signal_clear ∷ t) = sent_bytes t
sent_bytes (reports level m ∷ t) = sent_bytes t
sent_bytes (message_received b ∷ t) = sent_bytes t
sent_bytes (broken graceful ∷ t) = sent_bytes t
