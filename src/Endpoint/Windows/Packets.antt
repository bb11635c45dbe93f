-- ===== src/Endpoint/Windows/Packets.antt =====
-- The packets that an endpoint of src/Win32/NetworkEndpointWin32.cpp sends are those that its clients
-- gave it, in order.
use mathlib.Core.Path.{subst}
use mathlib.Core.Option.{some-injective}
use system_abstractions.Base.{
  ◌≡◌, refl, inl, inr, Bool, true, false, List, [], ◌∷◌, ◌++◌, append_assoc, some, arith,
  Option-cases,
}
use system_abstractions.Endpoint.State.{Packet, calls_accept, calls_recvfrom, Endpoint, note}
use system_abstractions.Endpoint.Processor.{Accepted, Arrived, receive_by_mode}
use system_abstractions.Endpoint.System
use system_abstractions.Endpoint.System.{
  Action, heads, selects, receives, returns, sends_packet, enqueues, stops, joins, when-eq,
}
use system_abstractions.Endpoint.System.Packets
use system_abstractions.Endpoint.System.Packets.{
  Delivers, Same, given, given_by, quiet_step, after_accept-Same, after_recvfrom-Same,
}
use system_abstractions.Endpoint.Windows.{wait_returns, receive, step, run}

-- Everything but the end of `Close`, which throws away the packets that wait.
abbrev pub no_joins : List Action → Bool
no_joins [] = true
no_joins (joins ∷ rest) = false
no_joins (_ ∷ rest) = no_joins rest

wait_returns-Same : (e : Endpoint) → Same e (wait_returns e)
unfolding wait_returns
wait_returns-Same e = record { sent = refl; queue = refl }

receive-Same :
    (e : Endpoint) (from_accept : Accepted) (from_recvfrom : Arrived)
    → Same e (receive e from_accept from_recvfrom)
unfolding receive receive_by_mode
receive-Same e from_accept from_recvfrom =
    let a = after_accept-Same (note (calls_accept e.sock) (record e { wait = true })) from_accept in
    let r =
      after_recvfrom-Same (note (calls_recvfrom e.sock) (record e { wait = true })) from_recvfrom in
    ground (arith, a, r)

step-Delivers :
    (a : Action) {g : List Packet} {e e' : Endpoint}
    → no_joins (a ∷ []) ≡ true
    → Delivers g e
    → step e a ≡ some e'
    → Delivers (g ++ given a) e'
unfolding step System.step
step-Delivers (selects signalled readable) n v h = quiet_step (wait_returns-Same _) (when-eq h).1 v
step-Delivers (receives from_accept from_recvfrom) n v h =
    quiet_step (receive-Same _ from_accept from_recvfrom) (when-eq h).1 v
step-Delivers heads n v h = Packets.step-Delivers heads v h
step-Delivers returns n v h = Packets.step-Delivers returns v h
step-Delivers (sends_packet answer) n v h = Packets.step-Delivers (sends_packet answer) v h
step-Delivers (enqueues packet) n v h = Packets.step-Delivers (enqueues packet) v h
step-Delivers stops n v h = Packets.step-Delivers stops v h
step-Delivers joins n v h = cc

no_joins-head :
    (a : Action) (rest : List Action)
    → no_joins (a ∷ rest) ≡ true
    → (no_joins (a ∷ []) ≡ true) × (no_joins rest ≡ true)
no_joins-head heads rest h = (refl, h)
no_joins-head (selects signalled readable) rest h = (refl, h)
no_joins-head (receives from_accept from_recvfrom) rest h = (refl, h)
no_joins-head returns rest h = (refl, h)
no_joins-head (sends_packet answer) rest h = (refl, h)
no_joins-head (enqueues packet) rest h = (refl, h)
no_joins-head stops rest h = (refl, h)
no_joins-head joins rest h = cc

-- On Windows, from a state in which the packets sent, followed by those that wait, are the packets
-- given so far, whatever the thread of an endpoint, its clients and the operating system then do
-- up to the end of `Close`, the packets sent followed by those that wait are all packets given to
-- `SendPacket` in their order.
pub run-Delivers_in_order :
    (actions : List Action) {g : List Packet} {e e' : Endpoint}
    → no_joins actions ≡ true
    → Delivers g e
    → run e actions ≡ some e'
    → Delivers (g ++ given_by actions) e'
unfolding run
run-Delivers_in_order [] {g} n v h =
    quiet_step (record { sent = refl; queue = refl }) (some-injective _ _ h) v
run-Delivers_in_order (a ∷ rest) {g} {e} {e'} n v h = elim (Option-cases (step e a)) [
  | inl f ↦ let z = rw (f, run) at h in cc (z)
  | inr (e₁, f) ↦
      let (one, others) = no_joins-head a rest n in
      subst (λ xs. Delivers xs e') (append_assoc g (given a) (given_by rest))
        (run-Delivers_in_order rest others (step-Delivers a one v f) (rw (f, run) at h))
]
