-- ===== src/Endpoint/Windows/Opening.antt =====
-- How an endpoint of src/Win32/NetworkEndpointWin32.cpp is opened.
use system_abstractions.Base.{
  ℕ, ◌+◌, ◌≡◌, refl, ap, ◌∙◌, inl, inr, Bool, true, false, ◌&&◌, List, [], ◌∷◌, map, Option, none,
  some, arith, Option-cases, Bool-cases, if◌then◌else◌,
}
use system_abstractions.Endpoint.State.{
  Mode, datagram, connection, multicast_send, multicast_receive, at_top, signal_clear, Endpoint,
  note, close_socket,
}
use system_abstractions.Endpoint.Open.{OpenAnswers, configure, start_processor, addresses_of}
use system_abstractions.Endpoint.System.Sockets.{is_open, closes_in}
use system_abstractions.Endpoint.System.Opening.{one_if, sets_up, configure-SetUp}
use system_abstractions.Endpoint.Windows.{
  Events, WindowsAnswers, interface_of, with_adapters, listen_or_close, with_socket_event, or_made,
  activate, open_socket,
}

-- The addresses that the set-up of a socket takes from the adapters are theirs.
addresses_of-interface_of :
    (addresses : List ℕ) → addresses_of (map interface_of addresses) ≡ addresses
unfolding addresses_of
addresses_of-interface_of [] = refl
addresses_of-interface_of (a ∷ rest) = ap (◌∷◌ a) (addresses_of-interface_of rest)

abbrev listens : Mode → OpenAnswers → Bool
listens connection os = os.listen_succeeds
listens datagram os = true
listens multicast_send os = true
listens multicast_receive os = true

-- The answers with which a socket that is set up is put to work.
abbrev pub begins : Mode → WindowsAnswers → Events → Bool
begins mode os events =
    is_open (or_made events.state_change os.state_change)
    && (is_open (or_made events.socket os.socket) && (os.selected && listens mode os.posix))

-- What the end of `Open` leaves behind.
record Begun (ok : Bool) (s : ℕ) (e e' : Endpoint) (done : Bool) : Type 0 where
  result : done ≡ ok
  kept : e'.sock ≡ (if ok then some s else none)
  at : e'.place ≡ (if ok then at_top else e.place)
  closes : closes_in e'.trace ≡ one_if (if ok then false else true) + closes_in e.trace

listen_or_close-Begun :
    (os : OpenAnswers) (e : Endpoint) (s : ℕ)
    → e.sock ≡ some s
    → Begun (listens e.mode os) s e (listen_or_close os e).0 (listen_or_close os e).1
unfolding listen_or_close start_processor close_socket
listen_or_close-Begun os e s h = ground arith

with_socket_event-Begun :
    (os : WindowsAnswers) (events : Events) (e : Endpoint) (s : ℕ) (event : Option ℕ)
    → e.sock ≡ some s
    → Begun
        (is_open event && (os.selected && listens e.mode os.posix))
        s
        e
        (with_socket_event os events e event).1
        (with_socket_event os events e event).2
unfolding with_socket_event close_socket is_open
with_socket_event-Begun os events e s none h = ground arith
with_socket_event-Begun os events e s (some f) h =
    let l = listen_or_close-Begun os.posix e s h in ground (arith, l)

activate-Begun :
    (os : WindowsAnswers) (events : Events) (e : Endpoint) (s : ℕ)
    → e.sock ≡ some s
    → Begun (begins e.mode os events) s e (activate os events e).1 (activate os events e).2
unfolding activate close_socket is_open
activate-Begun os events e s h =
    let event : Option ℕ = or_made events.socket os.socket in
    let reset : Endpoint = note signal_clear (record e { processor_stop = false }) in
    let running : Endpoint = record e { processor_stop = false } in
    elim (Option-cases events.state_change) [
      | inr (f, q) ↦ let w = with_socket_event-Begun os events reset s event h in ground (arith, w)
      | inl q ↦ elim (Option-cases os.state_change) [
        | inl r ↦ ground arith
        | inr (f, r) ↦
            let w =
              with_socket_event-Begun os (record events { state_change = some f }) running s event
                h in
            ground (arith, w)
      ]
    ]

-- On Windows, `Open` behind its call of `Close` succeeds exactly where the operating system gives
-- a socket, sets it up for the mode, has or makes both events, selects them and, for connections,
-- listens; on success the endpoint has that socket and a running thread, and on every failure it
-- has no socket, and one that was made is closed once.
pub open_socket_lem :
    (os : WindowsAnswers) (events : Events) (e : Endpoint)
    → let done =
        is_open os.posix.socket && (sets_up e.mode (with_adapters os) && begins e.mode os events) in
      ((open_socket os events e).2 ≡ done)
      × ((open_socket os events e).1.sock ≡ (if done then os.posix.socket else none))
      × ((open_socket os events e).1.place ≡ (if done then at_top else e.place))
      × (closes_in (open_socket os events e).1.trace
          ≡ one_if (is_open os.posix.socket && (if done then false else true)) + closes_in e.trace)
unfolding open_socket is_open
open_socket_lem os events e = elim (Option-cases os.posix.socket) [
  | inl n ↦ (ground arith, ground arith, ground arith, ground arith)
  | inr (s, n) ↦
      let e₀ : Endpoint = record e { sock = some s } in
      let r = configure-SetUp (with_adapters os) e₀ s refl in
      elim (Bool-cases (sets_up e.mode (with_adapters os))) [
        | inl u ↦
            let a =
              activate-Begun os events (configure (with_adapters os) e₀).0 s
                (r.kept ∙ ap (λ b. if b then some s else none) u) in
            (ground (arith, r, a), ground (arith, r, a), ground (arith, r, a), ground (arith, r, a))
        | inr u ↦ (ground (arith, r), ground (arith, r), ground (arith, r), ground (arith, r))
      ]
]
