-- ===== src/Endpoint/Windows/Sockets.antt =====
-- An endpoint of src/Win32/NetworkEndpointWin32.cpp uses its socket only while it is open, and closes
-- it once.
use mathlib.Core.Path.{subst}
use mathlib.Core.Option.{some-injective}
use system_abstractions.Base.{ℕ, ◌≡◌, inl, inr, true, List, [], ◌∷◌, some, arith, Option-cases}
use system_abstractions.Endpoint.State.{Endpoint, close_socket}
use system_abstractions.Endpoint.Processor.{Accepted, Arrived, receive_by_mode}
use system_abstractions.Endpoint.System
use system_abstractions.Endpoint.System.{
  Action, heads, selects, receives, returns, sends_packet, enqueues, stops, joins, when-eq,
  is_selecting, is_receiving,
}
use system_abstractions.Endpoint.System.Sockets
use system_abstractions.Endpoint.System.Sockets.{
  Owns, is_running, is_open, after_accept-Owns, after_recvfrom-Owns,
}
use system_abstractions.Endpoint.Windows.{wait_returns, receive, join_and_close, step, run}

wait_returns-Owns :
    {n : ℕ} {e : Endpoint} → is_selecting e.place ≡ true → Owns n e → Owns n (wait_returns e)
unfolding wait_returns is_running is_selecting
wait_returns-Owns h v = ground (arith, v.has_socket)

receive-Owns :
    {n : ℕ} {e : Endpoint} (from_accept : Accepted) (from_recvfrom : Arrived)
    → is_receiving e.place ≡ true
    → Owns n e
    → Owns n (receive e from_accept from_recvfrom)
unfolding receive receive_by_mode is_running is_receiving
receive-Owns {n} {e} from_accept from_recvfrom h v =
    let w : Endpoint = record e { wait = true } in
    let o : is_open e.sock ≡ true = v.has_socket (ground arith) in
    let u : Owns n w = record {
      has_socket = v.has_socket;
      closed_once = v.closed_once;
      sound = v.sound;
    } in
    ground (
      arith,
      o,
      u,
      after_accept-Owns {e = w} from_accept o u,
      after_recvfrom-Owns {e = w} from_recvfrom o u,
    )

join_and_close-Owns : {n : ℕ} {e e' : Endpoint} → join_and_close e ≡ some e' → Owns n e → Owns n e'
unfolding join_and_close close_socket is_running is_open
join_and_close-Owns h v = ground (arith, v.has_socket)

step-Owns : (a : Action) {n : ℕ} {e e' : Endpoint} → Owns n e → step e a ≡ some e' → Owns n e'
unfolding step System.step
step-Owns (selects signalled readable) {n} v h =
    subst (Owns n) (when-eq h).1 (wait_returns-Owns (when-eq h).0 v)
step-Owns (receives from_accept from_recvfrom) {n} v h =
    subst (Owns n) (when-eq h).1 (receive-Owns from_accept from_recvfrom (when-eq h).0 v)
step-Owns joins v h = join_and_close-Owns h v
step-Owns heads v h = Sockets.step-Owns heads v h
step-Owns returns v h = Sockets.step-Owns returns v h
step-Owns (sends_packet answer) v h = Sockets.step-Owns (sends_packet answer) v h
step-Owns (enqueues packet) v h = Sockets.step-Owns (enqueues packet) v h
step-Owns stops v h = Sockets.step-Owns stops v h

-- On Windows, for an endpoint that was opened, whatever its thread, its clients and the operating
-- system do: while the thread runs the endpoint has its socket, the socket is closed once at most,
-- by whoever comes first, and no call is made on an invalid socket.
pub run-Owns_its_socket :
    (actions : List Action) {n : ℕ} {e e' : Endpoint}
    → Owns n e
    → run e actions ≡ some e'
    → Owns n e'
unfolding run
run-Owns_its_socket [] {n} v h = subst (Owns n) (some-injective _ _ h) v
run-Owns_its_socket (a ∷ rest) {n} {e} v h = elim (Option-cases (step e a)) [
  | inl f ↦ let z = rw (f, run) at h in cc (z)
  | inr (e₁, f) ↦ run-Owns_its_socket rest (step-Owns a v f) (rw (f, run) at h)
]
