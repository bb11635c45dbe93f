-- ===== src/Endpoint/System.antt =====
-- An endpoint whose thread runs beside its clients, in every order that the mutex of
-- src/Posix/NetworkEndpointPosix.cpp allows.
pub mod Packets
pub mod Sockets
pub mod Opening
pub mod Stopping
use mathlib.Core.Option.{some-injective}
use system_abstractions.Base.{
  ℕ, ◌+◌, Bool, true, false, ◌&&◌, List, [], ◌∷◌, ◌++◌, ◌≡◌, refl, Option, none, some, length,
}
use system_abstractions.Endpoint.State.{
  Packet, Place, not_started, at_top, selecting, receiving, in_delegate, sending, finished,
  Endpoint, send_packet, close_stop, join, close_socket,
}
use system_abstractions.Endpoint.Processor.{
  Accepted, Arrived, Sent, loop_head, select_returns, receive, send_part, delegate_returns,
}

-- A piece of work of the thread, with what the operating system answers to it, or of a client.
pub data Action : Type 0 where
  heads : Action
  selects : Bool → Bool → Action
  receives : Accepted → Arrived → Action
  returns : Action
  sends_packet : Sent → Action
  -- `SendPacket`
  enqueues : Packet → Action
  -- `Close`: up to the join, and from the join on
  stops : Action
  joins : Action

-- A client can take the mutex: the thread waits or is not there. A delegate has the mutex of the
-- thread that it runs in, so it can call `SendPacket` too.
unfoldable pub can_lock : Place → Bool
can_lock at_top = false
can_lock receiving = false
can_lock sending = false
can_lock _ = true

unfoldable pub is_at_top : Place → Bool
is_at_top at_top = true
is_at_top _ = false

unfoldable pub is_selecting : Place → Bool
is_selecting selecting = true
is_selecting _ = false

unfoldable pub is_receiving : Place → Bool
is_receiving receiving = true
is_receiving _ = false

unfoldable pub is_sending : Place → Bool
is_sending sending = true
is_sending _ = false

abbrev pub when : Bool → Endpoint → Option Endpoint
when true e = some e
when false e = none

abbrev pub then_close : Option Endpoint → Option Endpoint
then_close none = none
then_close (some e) = some (close_socket e)

-- One action, `none` where it cannot happen.
unfoldable pub step : Endpoint → Action → Option Endpoint
step e heads = when (is_at_top e.place) (loop_head e)
step e (selects signalled readable) =
    when (is_selecting e.place) (select_returns e signalled readable)
step e (receives from_accept from_recvfrom) =
    when (is_receiving e.place) (receive e from_accept from_recvfrom)
step e returns = some (delegate_returns e)
step e (sends_packet answer) = when (is_sending e.place) (send_part e answer)
step e (enqueues packet) = when (can_lock e.place) (send_packet e packet)
step e stops = some (close_stop e)
step e joins = then_close (join e)

unfoldable pub run : Endpoint → List Action → Option Endpoint
run e [] = some e
run e (a ∷ rest) = elim (step e a) [ none ↦ none | some e' ↦ run e' rest ]

pub when-eq : {b : Bool} {e e' : Endpoint} → when b e ≡ some e' → (b ≡ true) × (e ≡ e')
when-eq {b = true} {e} {e'} h = (refl, some-injective e e' h)
when-eq {b = false} h = cc
