-- ===== src/Endpoint/Processor.antt =====
-- The thread of an endpoint: `Impl::Processor` of src/Posix/NetworkEndpointPosix.cpp, cut where it
-- gives up the mutex, calls the operating system or runs a delegate.
use system_abstractions.Base.{
  ℕ, Bool, true, false, List, [], ◌∷◌, Option, none, some, ◌==◌, length, if◌then◌else◌,
}
use system_abstractions.DataQueue.{Buffer}
use system_abstractions.Connection.State.{Connection, make_connection_from_existing_socket}
use system_abstractions.Endpoint.State.{
  connection, multicast_send, Packet, accept_failed, recvfrom_failed, sendto_failed, send_truncated,
  calls_accept, calls_recvfrom, sends, signal_clear, reports, new_connection, packet_received,
  at_top, selecting, receiving, in_delegate, sending, finished, Endpoint, note, go, close_socket,
}

-- What `accept` answers: a client, with its address and port and what `getsockname` says of it;
-- EWOULDBLOCK; another error.
pub data Accepted : Type 0 where
  accepted : ℕ → ℕ → ℕ → Option (ℕ × ℕ) → Accepted
  would_block failed : Accepted

-- What `recvfrom` answers: the sender's address and port and the bytes, EWOULDBLOCK, or an error.
pub data Arrived : Type 0 where
  arrived : ℕ → ℕ → Buffer → Arrived
  would_block failed : Arrived

-- What `sendto` answers: a number of bytes taken, EWOULDBLOCK, or another error.
pub data Sent : Type 0 where
  taken : ℕ → Sent
  would_block failed : Sent

-- The head of the loop.
unfoldable pub loop_head : Endpoint → Endpoint
loop_head e =
    if e.processor_stop then go finished e else if e.wait then go selecting e else go receiving e

-- Behind `select`, with the mutex taken again.
unfoldable pub select_returns : Endpoint → Bool → Bool → Endpoint
select_returns e signalled readable =
    if signalled
    then note signal_clear (record e { place = receiving; readable = readable })
    else record e { place = receiving; readable = readable }

-- The connection object for an accepted client: zeros stand for what `getsockname` does not say.
unfoldable pub connection_of : ℕ → ℕ → ℕ → Option (ℕ × ℕ) → Connection
connection_of client address port none =
    make_connection_from_existing_socket client 0 0 address port
connection_of client address port (some (bound_address, bound_port)) =
    make_connection_from_existing_socket client bound_address bound_port address port

unfoldable pub after_accept : Endpoint → Accepted → Endpoint
after_accept e (accepted client address port bound) =
    note (new_connection (connection_of client address port bound)) (go in_delegate e)
after_accept e Accepted.would_block = go sending e
after_accept e Accepted.failed = note (reports 5 accept_failed) (go sending e)

unfoldable pub after_recvfrom : Endpoint → Arrived → Endpoint
after_recvfrom e (arrived address port []) = go sending e
after_recvfrom e (arrived address port (x ∷ xs)) =
    note (packet_received address port (x ∷ xs)) (go in_delegate e)
after_recvfrom e Arrived.would_block = go sending e
after_recvfrom e Arrived.failed = go finished (close_socket (note (reports 10 recvfrom_failed) e))

unfoldable pub receive_by_mode : Endpoint → Accepted → Arrived → Endpoint
receive_by_mode e from_accept from_recvfrom = elim e.mode [
  | connection ↦ after_accept (note (calls_accept e.sock) e) from_accept
  | multicast_send ↦ go sending e
  | _ ↦ after_recvfrom (note (calls_recvfrom e.sock) e) from_recvfrom
]

-- The receiving part of the loop's body.
unfoldable pub receive : Endpoint → Accepted → Arrived → Endpoint
receive e from_accept from_recvfrom =
    if e.readable
    then receive_by_mode (record e { wait = true }) from_accept from_recvfrom
    else record e { wait = true; place = sending }

unfoldable pub is_empty : List Packet → Bool
is_empty [] = true
is_empty (p ∷ ps) = false

-- `n` bytes of the packet in front were taken, with `ps` behind it.
unfoldable pub pop_sent : Endpoint → Packet → List Packet → ℕ → Endpoint
pop_sent e p ps n =
    let noted = note (sends e.sock p n) e in
    record (if n == length p.body then noted else note (reports 10 send_truncated) noted) {
      output_queue = ps;
      wait = if is_empty ps then e.wait else false;
      place = at_top;
    }

unfoldable pub after_sendto : Endpoint → Packet → List Packet → Sent → Endpoint
after_sendto e p ps (taken n) = pop_sent e p ps n
after_sendto e p ps Sent.would_block = go at_top e
after_sendto e p ps Sent.failed = go finished (close_socket (note (reports 10 sendto_failed) e))

-- The sending part of the loop's body.
unfoldable pub send_part : Endpoint → Sent → Endpoint
send_part e answer = elim e.output_queue [ [] ↦ go at_top e | p ∷ ps ↦ after_sendto e p ps answer ]

-- A delegate returns.
unfoldable pub delegate_returns : Endpoint → Endpoint
delegate_returns e = elim e.place [ in_delegate ↦ go sending e | _ ↦ e ]
