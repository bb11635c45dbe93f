-- ===== src/Connection/Calls.antt =====
-- The methods that a client calls: `Connect`, `Process`, `SendMessage` and `Close` of
-- src/NetworkConnection.cpp and src/Posix/NetworkConnectionPosix.cpp.
use system_abstractions.Base.{ℕ, Bool, true, false, Option, none, some, if◌then◌else◌}
use system_abstractions.DataQueue
use system_abstractions.DataQueue.{Buffer, DataQueue}
use system_abstractions.Connection.State.{
  Message, create_socket_failed, bind_failed, connect_failed, signal_failed, not_connected,
  already_processing, closing_connection, closed_connection, calls_close, set_signal, clear_signal,
  reports, broken, at_top, Connection, note, joinable,
}

-- `Impl::CloseImmediately`
unfoldable pub close_immediately : Connection → Connection
close_immediately c =
    note (reports 1 closed_connection) (note (calls_close c.sock) (record c { sock = none }))

pub data CloseProcedure : Type 0 where
  immediate_do_not_stop_processor immediate_and_stop_processor graceful : CloseProcedure

-- `Impl::Close` up to the lock.
unfoldable pub close_stop : Connection → CloseProcedure → Connection
close_stop c immediate_and_stop_processor =
    if joinable c.place then set_signal (record c { processor_stop = true }) else c
close_stop c immediate_do_not_stop_processor = c
close_stop c graceful = c

unfoldable pub close_open : Connection → CloseProcedure → Connection × Bool
unfolding close_immediately
close_open c graceful =
    (set_signal (note (reports 1 closing_connection) (record c { closing = true })), false)
close_open c immediate_do_not_stop_processor = (close_immediately c, c.has_broken_delegate)
close_open c immediate_and_stop_processor = (close_immediately c, c.has_broken_delegate)

-- `Impl::Close` under the lock. The result: the caller is to call the broken delegate.
unfoldable pub close_locked : Connection → CloseProcedure → Connection × Bool
unfolding close_open
close_locked c procedure = elim c.sock [ none ↦ (c, false) | some s ↦ close_open c procedure ]

unfoldable pub close : Connection → CloseProcedure → Connection × Bool
unfolding close_stop close_locked
close c procedure = close_locked (close_stop c procedure) procedure

-- What the callers of `Impl::Close` do with its result.
abbrev pub then_broken : Connection × Bool → Connection
then_broken (c, tell) = if tell then note (broken false) c else c

abbrev pub procedure_of : Bool → CloseProcedure
procedure_of clean = if clean then graceful else immediate_and_stop_processor

-- `NetworkConnection::Close`
unfoldable pub close_by_client : Connection → Bool → Connection
unfolding close
close_by_client c clean = then_broken (close c (procedure_of clean))

-- `Impl::SendMessage`
unfoldable pub send_message : Connection → Buffer → Connection
send_message c message =
    set_signal (record c { output_queue = DataQueue.enqueue c.output_queue message })

-- What the operating system answers in `Impl::Connect`: the socket, whether `bind` and `connect`
-- succeed, and the address and port of `getsockname`.
pub record ConnectAnswers : Type 0 where
  pub socket : Option ℕ
  pub bind_succeeds : Bool
  pub connect_succeeds : Bool
  pub bound : Option (ℕ × ℕ)

-- A failure after the socket was made: the result of `Close` is ignored.
abbrev pub give_up : Message → Connection → Connection × Bool
give_up m c = ((close (note (reports 10 m) c) immediate_do_not_stop_processor).0, false)

abbrev pub set_bound : Option (ℕ × ℕ) → Connection → Connection
set_bound none c = c
set_bound (some (address, port)) c = record c { bound_address = address; bound_port = port }

-- `Impl::Connect` behind the creation of the socket.
unfoldable pub connect_socket : Connection → ConnectAnswers → Connection × Bool
unfolding close
connect_socket c os =
    if os.bind_succeeds
    then if os.connect_succeeds then (set_bound os.bound c, true) else give_up connect_failed c
    else give_up bind_failed c

unfoldable pub connect_impl : Connection → ConnectAnswers → Connection × Bool
unfolding close connect_socket
connect_impl c os =
    let c' = then_broken (close c immediate_and_stop_processor) in
    elim os.socket [
      | none ↦ (note (reports 10 create_socket_failed) (record c' { sock = none }), false)
      | some s ↦ connect_socket (record c' { sock = some s }) os
    ]

-- `NetworkConnection::Connect`
unfoldable pub connect : Connection → ℕ → ℕ → ConnectAnswers → Connection × Bool
unfolding connect_impl
connect c peer_address peer_port os =
    connect_impl (record c { peer_address = peer_address; peer_port = peer_port }) os

-- `Impl::Process` where there is a socket. `signal_works`: `Initialize` of the signal succeeds, which
-- makes a signal that is not set.
unfoldable pub start_processor : Connection → Bool → Connection × Bool
start_processor c signal_works =
    if joinable c.place
    then (note (reports 5 already_processing) c, true)
    else if signal_works
    then (
      clear_signal (record c { processor_stop = false; place = at_top; wait = true; signals = 0 }),
      true,
    )
    else (note (reports 10 signal_failed) (record c { processor_stop = false }), false)

-- `NetworkConnection::Process` with `Impl::Process`.
unfoldable pub process : Connection → Bool → Bool → Bool → Connection × Bool
unfolding start_processor
process c has_message has_broken signal_works =
    let c' : Connection = record c {
      has_message_delegate = has_message;
      has_broken_delegate = has_broken;
    } in
    elim c.sock [
      | none ↦ (note (reports 10 not_connected) c', false)
      | some s ↦ start_processor c' signal_works
    ]
