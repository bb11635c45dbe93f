-- ===== src/Endpoint/System/Sockets.antt =====
-- An endpoint uses its socket only while it is open, and closes it once.
use mathlib.Core.Path.{subst}
use mathlib.Core.Option.{some-injective}
use system_abstractions.Base.{
  ℕ, ◌+◌, ◌≡◌, inl, inr, Bool, true, false, List, [], ◌∷◌, Option, none, some, arith, Option-cases,
  List-cases,
}
use system_abstractions.Endpoint.State.{
  Packet, Effect, sends, calls_accept, calls_recvfrom, calls_close, Place, not_started, finished,
  Endpoint, note, send_packet, close_stop, join, close_socket,
}
use system_abstractions.Endpoint.Processor.{
  Accepted, accepted, Arrived, arrived, Sent, taken, loop_head, select_returns, receive,
  receive_by_mode, after_accept, after_recvfrom, pop_sent, after_sendto, send_part,
  delegate_returns,
}
use system_abstractions.Endpoint.System.{
  Action, heads, selects, receives, returns, sends_packet, enqueues, stops, joins, step, run,
  when-eq, then_close, is_at_top, is_selecting, is_receiving, is_sending,
}

-- The thread is in its loop.
unfoldable pub is_running : Place → Bool
is_running not_started = false
is_running finished = false
is_running _ = true

unfoldable pub is_open : Option ℕ → Bool
is_open none = false
is_open (some s) = true

abbrev pub closed_count : Option ℕ → ℕ
closed_count none = 1
closed_count (some s) = 0

-- How often the socket was closed, and how often a call was made on -1.
abbrev pub closes_in : List Effect → ℕ
closes_in [] = 0
closes_in (calls_close s ∷ t) = 1 + closes_in t
closes_in (_ ∷ t) = closes_in t

abbrev pub calls_on_none : List Effect → ℕ
calls_on_none [] = 0
calls_on_none (calls_accept none ∷ t) = 1 + calls_on_none t
calls_on_none (calls_recvfrom none ∷ t) = 1 + calls_on_none t
calls_on_none (sends none p n ∷ t) = 1 + calls_on_none t
calls_on_none (calls_close none ∷ t) = 1 + calls_on_none t
calls_on_none (_ ∷ t) = calls_on_none t

-- For an endpoint that had closed `n` sockets before it was opened: while its thread runs it has a
-- socket, the socket is closed once at most, and no call is made on -1.
pub record Owns (n : ℕ) (e : Endpoint) : Type 0 where
  pub has_socket : is_running e.place ≡ true → is_open e.sock ≡ true
  pub closed_once : closes_in e.trace ≡ n + closed_count e.sock
  pub sound : calls_on_none e.trace ≡ 0

loop_head-Owns : {n : ℕ} {e : Endpoint} → is_at_top e.place ≡ true → Owns n e → Owns n (loop_head e)
unfolding loop_head is_running is_at_top
loop_head-Owns h v = ground (arith, v.has_socket)

select_returns-Owns :
    {n : ℕ} {e : Endpoint} (signalled readable : Bool)
    → is_selecting e.place ≡ true
    → Owns n e
    → Owns n (select_returns e signalled readable)
unfolding select_returns is_running is_selecting
select_returns-Owns signalled readable h v = ground (arith, v.has_socket)

pub after_accept-Owns :
    {n : ℕ} {e : Endpoint} (answer : Accepted)
    → is_open e.sock ≡ true
    → Owns n e
    → Owns n (after_accept (note (calls_accept e.sock) e) answer)
unfolding after_accept is_running is_open
after_accept-Owns (accepted client address port bound) h v = ground (arith, v.has_socket)
after_accept-Owns Accepted.would_block h v = ground (arith, v.has_socket)
after_accept-Owns Accepted.failed h v = ground (arith, v.has_socket)

pub after_recvfrom-Owns :
    {n : ℕ} {e : Endpoint} (answer : Arrived)
    → is_open e.sock ≡ true
    → Owns n e
    → Owns n (after_recvfrom (note (calls_recvfrom e.sock) e) answer)
unfolding after_recvfrom close_socket is_running is_open
after_recvfrom-Owns (arrived address port []) h v = ground (arith, v.has_socket)
after_recvfrom-Owns (arrived address port (x ∷ xs)) h v = ground (arith, v.has_socket)
after_recvfrom-Owns Arrived.would_block h v = ground (arith, v.has_socket)
after_recvfrom-Owns Arrived.failed h v = ground (arith, v.has_socket)

receive-Owns :
    {n : ℕ} {e : Endpoint} (from_accept : Accepted) (from_recvfrom : Arrived)
    → is_receiving e.place ≡ true
    → Owns n e
    → Owns n (receive e from_accept from_recvfrom)
unfolding receive receive_by_mode is_running is_receiving
receive-Owns {n} {e} from_accept from_recvfrom h v =
    let w : Endpoint = record e { wait = true } in
    let o : is_open e.sock ≡ true = v.has_socket (ground arith) in
    let u : Owns n w = record {
      has_socket = v.has_socket;
      closed_once = v.closed_once;
      sound = v.sound;
    } in
    ground (
      arith,
      o,
      u,
      after_accept-Owns {e = w} from_accept o u,
      after_recvfrom-Owns {e = w} from_recvfrom o u,
    )

after_sendto-Owns :
    {n : ℕ} {e : Endpoint} (p : Packet) (ps : List Packet) (answer : Sent)
    → is_open e.sock ≡ true
    → Owns n e
    → Owns n (after_sendto e p ps answer)
unfolding after_sendto pop_sent close_socket is_running is_open
after_sendto-Owns p ps (taken k) h v = ground (arith, v.has_socket)
after_sendto-Owns p ps Sent.would_block h v = ground (arith, v.has_socket)
after_sendto-Owns p ps Sent.failed h v = ground (arith, v.has_socket)

send_part-Owns :
    {n : ℕ} {e : Endpoint} (answer : Sent)
    → is_sending e.place ≡ true
    → Owns n e
    → Owns n (send_part e answer)
unfolding send_part is_running is_sending
send_part-Owns {n} {e} answer h v =
    let o : is_open e.sock ≡ true = v.has_socket (ground arith) in
    elim (List-cases e.output_queue) [
      | inl q ↦
          rw (q, send_part)
            (record { has_socket = λ r. o; closed_once = v.closed_once; sound = v.sound })
      | inr (p, ps, q) ↦ rw (q, send_part) (after_sendto-Owns p ps answer o v)
    ]

delegate_returns-Owns : {n : ℕ} {e : Endpoint} → Owns n e → Owns n (delegate_returns e)
unfolding delegate_returns is_running
delegate_returns-Owns v = ground (arith, v.has_socket)

send_packet-Owns :
    {n : ℕ} {e : Endpoint} (packet : Packet) → Owns n e → Owns n (send_packet e packet)
unfolding send_packet
send_packet-Owns packet v = ground (arith, v.has_socket)

close_stop-Owns : {n : ℕ} {e : Endpoint} → Owns n e → Owns n (close_stop e)
unfolding close_stop
close_stop-Owns v = ground (arith, v.has_socket)

join-Owns : {n : ℕ} {e e' : Endpoint} → then_close (join e) ≡ some e' → Owns n e → Owns n e'
unfolding join close_socket is_running is_open
join-Owns h v = ground (arith, v.has_socket)

pub step-Owns : (a : Action) {n : ℕ} {e e' : Endpoint} → Owns n e → step e a ≡ some e' → Owns n e'
unfolding step
step-Owns heads {n} v h = subst (Owns n) (when-eq h).1 (loop_head-Owns (when-eq h).0 v)
step-Owns (selects signalled readable) {n} v h =
    subst (Owns n) (when-eq h).1 (select_returns-Owns signalled readable (when-eq h).0 v)
step-Owns (receives from_accept from_recvfrom) {n} v h =
    subst (Owns n) (when-eq h).1 (receive-Owns from_accept from_recvfrom (when-eq h).0 v)
step-Owns returns {n} v h = subst (Owns n) (some-injective _ _ h) (delegate_returns-Owns v)
step-Owns (sends_packet answer) {n} v h =
    subst (Owns n) (when-eq h).1 (send_part-Owns answer (when-eq h).0 v)
step-Owns (enqueues packet) {n} v h = subst (Owns n) (when-eq h).1 (send_packet-Owns packet v)
step-Owns stops {n} v h = subst (Owns n) (some-injective _ _ h) (close_stop-Owns v)
step-Owns joins v h = join-Owns h v

-- For an endpoint that was opened, whatever its thread, its clients and the operating system do:
-- while the thread runs the endpoint has its socket, the socket is closed once at most, by whoever
-- comes first, and no call is made on -1.
pub run-Owns :
    (actions : List Action) {n : ℕ} {e e' : Endpoint}
    → Owns n e
    → run e actions ≡ some e'
    → Owns n e'
unfolding run
run-Owns [] {n} v h = subst (Owns n) (some-injective _ _ h) v
run-Owns (a ∷ rest) {n} {e} v h = elim (Option-cases (step e a)) [
  | inl f ↦ let z = rw (f, run) at h in cc (z)
  | inr (e₁, f) ↦ run-Owns rest (step-Owns a v f) (rw (f, run) at h)
]
