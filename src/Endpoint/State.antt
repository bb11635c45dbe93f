-- ===== src/Endpoint/State.antt =====
-- The state of an endpoint, and how it is closed: `NetworkEndpoint::Impl` of
-- src/NetworkEndpointImpl.hpp and `NetworkEndpoint::Platform` of src/Posix/NetworkEndpointPosix.hpp.
use system_abstractions.Base.{
  ℕ, Bool, true, false, List, [], ◌∷◌, ◌++◌, Option, none, some, if◌then◌else◌,
}
use system_abstractions.DataQueue.{Buffer}
use system_abstractions.Connection.State.{Connection}

-- NetworkEndpoint::Mode
pub data Mode : Type 0 where
  datagram connection multicast_send multicast_receive : Mode

pub record Packet : Type 0 where
  pub address : ℕ
  pub port : ℕ
  pub body : Buffer

-- The diagnostic messages, without numbers and without the operating system's text for an error.
pub data Message : Type 0 where
  create_socket_failed interface_failed reuse_failed bind_failed membership_failed : Message
  getsockname_failed signal_failed listen_failed opened closing : Message
  accept_failed recvfrom_failed sendto_failed send_truncated : Message

-- What the code does to the outside. `none` for a socket is -1.
pub data Effect : Type 0 where
  calls_bind : ℕ → ℕ → Effect
  adds_membership : ℕ → ℕ → Effect
  calls_accept : Option ℕ → Effect
  calls_recvfrom : Option ℕ → Effect
  -- a packet that `sendto` took, and the number of bytes that it took of it
  sends : Option ℕ → Packet → ℕ → Effect
  calls_close : Option ℕ → Effect
  signal_set signal_clear : Effect
  reports : ℕ → Message → Effect
  new_connection : Connection → Effect
  packet_received : ℕ → ℕ → Buffer → Effect

-- Where the thread of `Processor` stands: it is not there, or it holds the mutex, also while a
-- delegate runs, or waits in `select`, or has ended and was not joined.
pub data Place : Type 0 where
  not_started : Place
  at_top selecting receiving in_delegate sending : Place
  finished : Place

pub record Endpoint : Type 0 where
  pub mode : Mode
  pub local_address : ℕ
  pub group_address : ℕ
  pub port : ℕ
  pub sock : Option ℕ
  pub processor_stop : Bool
  pub output_queue : List Packet
  -- the thread, its variable `wait`, and whether its `readfds` has the socket
  pub place : Place
  pub wait : Bool
  pub readable : Bool
  -- the newest effect first
  pub trace : List Effect

unfoldable pub new : Endpoint
new = record {
  mode = datagram;
  local_address = 0;
  group_address = 0;
  port = 0;
  sock = none;
  processor_stop = false;
  output_queue = [];
  place = not_started;
  wait = true;
  readable = false;
  trace = [];
}

abbrev pub note : Effect → Endpoint → Endpoint
note x e = record e { trace = x ∷ e.trace }

abbrev pub go : Place → Endpoint → Endpoint
go p e = record e { place = p }

-- `processor.joinable()`
unfoldable pub joinable : Place → Bool
joinable not_started = false
joinable _ = true

-- `Impl::SendPacket`
unfoldable pub send_packet : Endpoint → Packet → Endpoint
send_packet e packet = note signal_set (record e { output_queue = e.output_queue ++ (packet ∷ []) })

-- `Impl::Close` up to the join.
unfoldable pub close_stop : Endpoint → Endpoint
close_stop e = if joinable e.place then note signal_set (record e { processor_stop = true }) else e

-- `processor.join()`: `none` where the thread has not ended.
unfoldable pub join : Endpoint → Option Endpoint
join e = elim e.place [ not_started ↦ some e | finished ↦ some (go not_started e) | _ ↦ none ]

-- `Impl::Close` behind the join.
unfoldable pub close_socket : Endpoint → Endpoint
close_socket e = elim e.sock [
  | none ↦ e
  | some s ↦ record (note (calls_close (some s)) (note (reports 0 closing) e)) { sock = none }
]

-- `Impl::Close(true)`
unfoldable pub close : Endpoint → Option Endpoint
close e = elim (join (close_stop e)) [ none ↦ none | some e' ↦ some (close_socket e') ]
