-- ===== src/Endpoint/Windows.antt =====
-- Endpoints on Windows: src/Win32/NetworkEndpointWin32.cpp. Where that file has the code of
-- src/Posix/NetworkEndpointPosix.cpp over other system calls, the definitions for POSIX are used: for
-- the head of the loop, what follows `accept`, `recvfrom` and `sendto`, and the set-up of the socket,
-- in which setting the signal stands for `SetEvent`, and clearing it for `ResetEvent`.
pub mod Packets
pub mod Sockets
pub mod Opening
mod Tests
use system_abstractions.Base.{
  ℕ, Bool, true, false, ◌&&◌, List, [], ◌∷◌, ◌++◌, map, Option, none, some, if◌then◌else◌,
}
use system_abstractions.Endpoint.State.{
  Mode, connection, create_socket_failed, listen_failed, signal_failed, opened, signal_clear,
  reports, not_started, receiving, finished, at_top, Packet, Endpoint, note, go, send_packet,
  close_stop, close_socket,
}
use system_abstractions.Endpoint.Open.{Interface, OpenAnswers, fail, configure, start_processor}
use system_abstractions.Endpoint.Processor.{
  Accepted, Arrived, loop_head, receive_by_mode, send_part, delegate_returns,
}
use system_abstractions.Endpoint.System.{
  Action, heads, selects, receives, returns, sends_packet, enqueues, stops, joins, when, can_lock,
  is_at_top, is_selecting, is_receiving, is_sending,
}

-- Behind `WaitForMultipleObjects`, with the mutex taken again; the events reset themselves.
unfoldable pub wait_returns : Endpoint → Endpoint
wait_returns e = go receiving e

-- The receiving part of the loop's body, which tries to receive whatever event came.
unfoldable pub receive : Endpoint → Accepted → Arrived → Endpoint
receive e from_accept from_recvfrom =
    receive_by_mode (record e { wait = true }) from_accept from_recvfrom

-- `Impl::Close(true)` from the join on: `none` where the thread has not ended. Packets that wait are
-- thrown away with the thread.
unfoldable pub join_and_close : Endpoint → Option Endpoint
join_and_close e = elim e.place [
  | not_started ↦ some (close_socket e)
  | finished ↦ some (close_socket (record e { place = not_started; output_queue = [] }))
  | _ ↦ none
]

-- One piece of work of the thread in `Processor`, or of a client, `none` where it cannot happen.
unfoldable pub step : Endpoint → Action → Option Endpoint
step e heads = when (is_at_top e.place) (loop_head e)
step e (selects signalled readable) = when (is_selecting e.place) (wait_returns e)
step e (receives from_accept from_recvfrom) =
    when (is_receiving e.place) (receive e from_accept from_recvfrom)
step e returns = some (delegate_returns e)
step e (sends_packet answer) = when (is_sending e.place) (send_part e answer)
step e (enqueues packet) = when (can_lock e.place) (send_packet e packet)
step e stops = some (close_stop e)
step e joins = join_and_close e

unfoldable pub run : Endpoint → List Action → Option Endpoint
run e [] = some e
run e (a ∷ rest) = elim (step e a) [ none ↦ none | some e' ↦ run e' rest ]

-- `GetInterfaceAddresses`, where `GetAdaptersAddresses` succeeds: of each adapter whether it is up,
-- and its addresses.
unfoldable pub adapter_addresses : List (Bool × List ℕ) → List ℕ
adapter_addresses [] = []
adapter_addresses ((is_up, addresses) ∷ rest) =
    if is_up then addresses ++ adapter_addresses rest else adapter_addresses rest

unfoldable pub get_interface_addresses : Option (List (Bool × List ℕ)) → List ℕ
get_interface_addresses none = []
get_interface_addresses (some adapters) = adapter_addresses adapters

-- `processorStateChangeEvent` and `socketEvent`; NULL is `none`.
pub record Events : Type 0 where
  pub state_change : Option ℕ
  pub socket : Option ℕ

-- What the operating system answers in `Impl::Open`: for the socket, and its `listen`; the adapters;
-- the events that `CreateEvent` gives, and whether `WSAEventSelect` succeeds.
pub record WindowsAnswers : Type 0 where
  pub posix : OpenAnswers
  pub adapters : Option (List (Bool × List ℕ))
  pub state_change : Option ℕ
  pub socket : Option ℕ
  pub selected : Bool

-- An address as the entry of an interface that is up, for the set-up of the socket.
abbrev pub interface_of : ℕ → Interface
interface_of a = record { is_up = true; interface_address = some (true, a) }

abbrev pub with_adapters : WindowsAnswers → OpenAnswers
with_adapters os = record os.posix {
  interfaces = some (map interface_of (get_interface_addresses os.adapters));
}

-- The end of `Impl::Open`: a failure closes the socket.
unfoldable pub listen_or_close : OpenAnswers → Endpoint → Endpoint × Bool
listen_or_close os e = elim e.mode [
  | connection ↦ if os.listen_succeeds then (start_processor e, true) else fail e listen_failed
  | _ ↦ (start_processor e, true)
]

abbrev pub with_events : Events → Endpoint × Bool → Events × Endpoint × Bool
with_events events (e, done) = (events, e, done)

-- `socketEvent` and `WSAEventSelect`, once the other event is there.
unfoldable pub with_socket_event :
    WindowsAnswers → Events → Endpoint → Option ℕ → Events × Endpoint × Bool
with_socket_event os events e none = with_events events (fail e signal_failed)
with_socket_event os events e (some f) =
    let kept : Events = record events { socket = some f } in
    with_events kept (if os.selected then listen_or_close os.posix e else fail e signal_failed)

abbrev pub or_made : Option ℕ → Option ℕ → Option ℕ
or_made (some event) made = some event
or_made none made = made

-- From the events on.
unfoldable pub activate : WindowsAnswers → Events → Endpoint → Events × Endpoint × Bool
activate os events e = elim events.state_change [
  | some f ↦
      with_socket_event os events (note signal_clear (record e { processor_stop = false }))
        (or_made events.socket os.socket)
  | none ↦ elim os.state_change [
    | none ↦ with_events events (fail e signal_failed)
    | some f ↦
        with_socket_event os (record events { state_change = some f })
          (record e { processor_stop = false }) (or_made events.socket os.socket)
  ]
]

-- `Impl::Open` behind its call of `Close`.
unfoldable pub open_socket : WindowsAnswers → Events → Endpoint → Events × Endpoint × Bool
open_socket os events e = elim os.posix.socket [
  | none ↦ (events, note (reports 10 create_socket_failed) (record e { sock = none }), false)
  | some s ↦
      let (e', done) = configure (with_adapters os) (record e { sock = some s }) in
      if done then activate os events e' else (events, e', false)
]
