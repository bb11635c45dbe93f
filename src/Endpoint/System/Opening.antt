-- ===== src/Endpoint/System/Opening.antt =====
-- How an endpoint is opened and closed.
use mathlib.Core.Path.{subst}
use system_abstractions.Base.{
  ℕ, ◌+◌, ◌≡◌, refl, inl, inr, Bool, true, false, ◌&&◌, List, [], ◌∷◌, none, some, arith,
  Option-cases, if◌then◌else◌,
}
use system_abstractions.Endpoint.State.{
  Mode, datagram, connection, multicast_send, multicast_receive, calls_bind, adds_membership,
  not_started, at_top, Endpoint, note, joinable, close_stop, join, close_socket, close,
}
use system_abstractions.Endpoint.Open.{
  OpenAnswers, get_interface_addresses, address_to_bind, add_memberships, learn_port, after_bind,
  bind_local, configure, start_processor, listen_or_not, activate, open_socket, open_endpoint,
}
use system_abstractions.Endpoint.System.Sockets.{is_running, is_open, closes_in}

abbrev pub one_if : Bool → ℕ
one_if true = 1
one_if false = 0

abbrev pub all_added : OpenAnswers → List ℕ → Bool
all_added os [] = true
all_added os (a ∷ rest) = os.membership_added a && all_added os rest

-- The answers with which a socket is set up for a mode, and with which it is then put to work.
abbrev pub sets_up : Mode → OpenAnswers → Bool
sets_up multicast_send os = os.interface_set
sets_up multicast_receive os =
    os.reuse_set && (os.bind_succeeds && all_added os (get_interface_addresses os.interfaces))
sets_up datagram os = os.bind_succeeds && is_open os.bound_port
sets_up connection os = os.bind_succeeds && is_open os.bound_port

abbrev pub starts : Mode → OpenAnswers → Bool
starts connection os = os.signal_works && os.listen_succeeds
starts datagram os = os.signal_works
starts multicast_send os = os.signal_works
starts multicast_receive os = os.signal_works

-- What setting up the socket `s` leaves behind, `ok` for success.
pub record SetUp (ok : Bool) (s : ℕ) (e : Endpoint) (r : Endpoint × Bool) : Type 0 where
  pub done : r.1 ≡ ok
  pub kept : r.0.sock ≡ (if ok then some s else none)
  pub same_place : r.0.place ≡ e.place
  pub same_mode : r.0.mode ≡ e.mode
  pub closes : closes_in r.0.trace ≡ one_if (if ok then false else true) + closes_in e.trace

add_memberships-SetUp :
    (os : OpenAnswers) (addresses : List ℕ) (e : Endpoint) (s : ℕ)
    → e.sock ≡ some s
    → SetUp (all_added os addresses) s e (add_memberships os addresses e)
unfolding add_memberships close_socket
add_memberships-SetUp os [] e s h = ground arith
add_memberships-SetUp os (a ∷ rest) e s h =
    let r = add_memberships-SetUp os rest (note (adds_membership e.group_address a) e) s h in
    ground (arith, r)

pub configure-SetUp :
    (os : OpenAnswers) (e : Endpoint) (s : ℕ)
    → e.sock ≡ some s
    → SetUp (sets_up e.mode os) s e (configure os e)
unfolding configure bind_local after_bind learn_port close_socket is_open
configure-SetUp os e s h =
    let bound : Endpoint = note (calls_bind (address_to_bind e) e.port) e in
    let r = add_memberships-SetUp os (get_interface_addresses os.interfaces) bound s h in
    ground (arith, r)

-- What `Impl::Open` behind its call of `Close` leaves behind.
record Opened (mode : Mode) (os : OpenAnswers) (e : Endpoint) (r : Endpoint × Bool) : Type 0 where
  done : r.1 ≡ (is_open os.socket && (sets_up mode os && starts mode os))
  kept : r.0.sock ≡ (if sets_up mode os then os.socket else none)
  at :
      r.0.place
      ≡ (if is_open os.socket && (sets_up mode os && starts mode os) then at_top else e.place)
  closes :
      closes_in r.0.trace
      ≡ one_if (is_open os.socket && (if sets_up mode os then false else true)) + closes_in e.trace

activate-place :
    (os : OpenAnswers) (e : Endpoint)
    → let (e', done) = activate os e in
      (done ≡ starts e.mode os)
      × (e'.sock ≡ e.sock)
      × (e'.place ≡ (if starts e.mode os then at_top else e.place))
      × (closes_in e'.trace ≡ closes_in e.trace)
unfolding activate listen_or_not start_processor
activate-place os e = (ground arith, ground arith, ground arith, ground arith)

open_socket-Opened : (os : OpenAnswers) (e : Endpoint) → Opened e.mode os e (open_socket os e)
unfolding open_socket is_open
open_socket-Opened os e = elim (Option-cases os.socket) [
  | inl n ↦ rw (n, open_socket) (ground arith)
  | inr (s, n) ↦
      let r = configure-SetUp os (record e { sock = some s }) s refl in
      let a = activate-place os (configure os (record e { sock = some s })).0 in
      ground (arith, r, a)
]

-- `Close` of an endpoint whose thread is not in its loop leaves it without socket and thread,
-- closes an open socket, keeps the packets, and closing once more does nothing.
pub close_lem :
    (e : Endpoint)
    → is_running e.place ≡ false
    → (e' : Endpoint) × (close e ≡ some e')
      × (e'.sock ≡ none)
      × (e'.place ≡ not_started)
      × (e'.output_queue ≡ e.output_queue)
      × (closes_in e'.trace ≡ one_if (is_open e.sock) + closes_in e.trace)
      × (close e' ≡ some e')
unfolding close close_stop join close_socket joinable is_running is_open
close_lem e h = elim (Option-cases (close e)) [
  | inl n ↦ absurd (ground arith)
  | inr (e', n) ↦ (e', n, ground arith, ground arith, ground arith, ground arith, ground arith)
]

close-mode : (e : Endpoint) {e' : Endpoint} → close e ≡ some e' → e'.mode ≡ e.mode
unfolding close close_stop join close_socket joinable
close-mode e h = ground arith

-- `Open` on an endpoint whose thread is not in its loop succeeds exactly where the operating
-- system gives a socket, sets it up for the mode and then makes the signal and, for connections,
-- listens; on success the endpoint has that socket and a running thread. A socket that cannot be
-- set up is closed again, one for which only the last two fail stays open with no thread, and the
-- socket of before is closed.
pub open_lem :
    (e : Endpoint) (mode : Mode) (local_address group_address port : ℕ) (os : OpenAnswers)
    → is_running e.place ≡ false
    → let done = is_open os.socket && (sets_up mode os && starts mode os) in
      (e' : Endpoint) × (open_endpoint e mode local_address group_address port os ≡ some (e', done))
      × (e'.sock ≡ (if sets_up mode os then os.socket else none))
      × (e'.place ≡ (if done then at_top else not_started))
      × (closes_in e'.trace
          ≡ one_if (is_open os.socket && (if sets_up mode os then false else true))
            + (one_if (is_open e.sock) + closes_in e.trace))
unfolding open_endpoint
open_lem e mode local_address group_address port os h =
    let e₀ : Endpoint = record e {
      mode = mode;
      local_address = local_address;
      group_address = group_address;
      port = port;
    } in
    let (e₁, c, _, p, _, k, _) = close_lem e₀ h in
    let m : e₁.mode ≡ mode = close-mode e₀ c in
    let r : Opened mode os e₁ (open_socket os e₁) =
      subst (λ x. Opened x os e₁ (open_socket os e₁)) m (open_socket-Opened os e₁) in
    (
      (open_socket os e₁).0,
      rw (c, open_endpoint) (λ i. some ((open_socket os e₁).0, r.done i)),
      r.kept,
      ground (arith, r, p),
      omega (arith, r.closes, k),
    )
