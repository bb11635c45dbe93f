-- ===== src/Connection/Windows.antt =====
-- Connections on Windows: src/Win32/NetworkConnectionWin32.cpp. Where that file has the code of
-- src/Posix/NetworkConnectionPosix.cpp over other system calls, the definitions for POSIX are used:
-- for the head of the loop, its sending part and its end, and for `Connect`, `Close` and
-- `SendMessage`, in which setting the signal stands for `SetEvent`.
pub mod Stream
pub mod Notices
pub mod Stopping
mod Tests
use system_abstractions.Base.{
  ℕ, Bool, true, false, ◌&&◌, List, [], ◌∷◌, Option, none, some, if◌then◌else◌,
}
use system_abstractions.DataQueue.{Buffer}
use system_abstractions.Connection.State.{
  signal_failed, closed_abruptly, closed_gracefully, not_connected, already_processing, calls_recv,
  reports, message_received, broken, at_top, receiving, sending, in_message, in_broken_eof, crashed,
  Connection, note, joinable,
}
use system_abstractions.Connection.Calls.{
  ConnectAnswers, CloseProcedure, immediate_and_stop_processor,
}
use system_abstractions.Connection.Calls
use system_abstractions.Connection.Processor.{
  Received, bytes, end_of_stream, would_block, failed, go, loop_head, close_and_leave, send_part,
  delegate_returns,
}
use system_abstractions.Connection.System.{
  Action, heads, selects, receives, sends_part, returns, enqueues, stops, closes, when, is_at_top,
  is_selecting, is_receiving, is_sending, is_in_delegate, mutex_free, recv_can, send_can,
  select_can,
}

-- Behind `WaitForMultipleObjects`, with the mutex taken again: whether it returned for the event of the
-- state, which then resets itself, or for that of the socket.
unfoldable pub wait_returns : Connection → Bool → Connection
wait_returns c signalled =
    if signalled then record c { signals = 0; place = receiving } else go receiving c

-- What `recv` answers: here `wait` is set where the call would block, and otherwise keeps its value.
unfoldable pub after_recv : Connection → Received → Connection
unfolding close_and_leave
after_recv c (bytes b) =
    if c.has_message_delegate
    then note (message_received b) (record c { wait = false; place = in_message })
    else record c { wait = false; place = crashed }
after_recv c end_of_stream =
    let told = note (reports 1 closed_gracefully) (record c { peer_closed = true }) in
    if c.has_broken_delegate then note (broken true) (go in_broken_eof told) else go crashed told
after_recv c would_block = record c { wait = true; place = sending }
after_recv c failed = close_and_leave (note (reports 1 closed_abruptly) c)

-- The receiving part of the loop's body.
unfoldable pub receive : Connection → Received → Connection
unfolding after_recv
receive c answer =
    if c.peer_closed
    then record c { wait = true; place = sending }
    else after_recv (note (calls_recv c.sock) c) answer

-- `Impl::SendMessage`, `Impl::Close` with what its callers do, and `Impl::Connect`.
abbrev pub send_message : Connection → Buffer → Connection
send_message c message = Calls.send_message c message

abbrev pub close : Connection → CloseProcedure → Connection × Bool
close c procedure = Calls.close c procedure

abbrev pub connect_impl : Connection → ConnectAnswers → Connection × Bool
connect_impl c os = Calls.connect_impl c os

-- One piece of work of the thread in `Processor`, or of a client, `none` where it cannot happen.
unfoldable pub step : Connection → Action → Option Connection
step c heads = when (is_at_top c.place) (loop_head c)
step c (selects signalled) =
    when (is_selecting c.place && select_can c signalled) (wait_returns c signalled)
step c (receives answer) = when (is_receiving c.place && recv_can c answer) (receive c answer)
step c (sends_part answer) = when (is_sending c.place && send_can c answer) (send_part c answer)
step c returns = when (is_in_delegate c.place) (delegate_returns c)
step c (enqueues message) = when (mutex_free c.place) (send_message c message)
step c stops = some (Calls.close_stop c immediate_and_stop_processor)
step c (closes clean) = when (mutex_free c.place) (Calls.close_by_client c clean)

unfoldable pub run : Connection → List Action → Option Connection
run c [] = some c
run c (a ∷ rest) = elim (step c a) [ none ↦ none | some c' ↦ run c' rest ]

-- `processorStateChangeEvent` and `socketEvent`; NULL is `none`.
pub record Events : Type 0 where
  pub state_change : Option ℕ
  pub socket : Option ℕ

-- What `CreateEvent` gives for each, and whether `WSAEventSelect` succeeds.
pub record ProcessAnswers : Type 0 where
  pub state_change : Option ℕ
  pub socket : Option ℕ
  pub selected : Bool

-- An event that is there is kept, and otherwise made.
abbrev pub or_made : Option ℕ → Option ℕ → Option ℕ
or_made (some event) made = some event
or_made none made = made

-- An event that is made is not set.
abbrev pub signals_of : Option ℕ → Connection → ℕ
signals_of (some event) c = c.signals
signals_of none c = 0

abbrev pub start_failed : Connection → Connection
start_failed c = note (reports 10 signal_failed) c

-- `Impl::Process` once the thread is not there: `processorStop` is reset, the events are made in their
-- order, and the thread is started.
unfoldable pub start_thread : Connection → Events → ProcessAnswers → Connection × Events × Bool
start_thread c events os = elim (or_made events.state_change os.state_change) [
  | none ↦ (start_failed c, events, false)
  | some e ↦ elim (or_made events.socket os.socket) [
    | none ↦ (start_failed c, record events { state_change = some e }, false)
    | some f ↦
        if os.selected
        then (
          record c { place = at_top; wait = true; signals = signals_of events.state_change c },
          record { state_change = some e; socket = some f },
          true,
        )
        else (start_failed c, record { state_change = some e; socket = some f }, false)
  ]
]

-- `Impl::Process`
unfoldable pub process : Connection → Events → ProcessAnswers → Connection × Events × Bool
process c events os = elim c.sock [
  | none ↦ (note (reports 10 not_connected) c, events, false)
  | some s ↦
      if joinable c.place
      then (note (reports 5 already_processing) c, events, true)
      else start_thread (record c { processor_stop = false }) events os
]
