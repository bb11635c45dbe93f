-- ===== src/Endpoint/System/Packets.antt =====
-- The packets that an endpoint sends are those that its clients gave it, in order.
use mathlib.Core.Path.{subst}
use mathlib.Core.Option.{some-injective}
use system_abstractions.Base.{
  ◌≡◌, refl, sym, ap, ◌∙◌, inl, inr, Bool, true, List, [], ◌∷◌, ◌++◌, append-nil, append_assoc,
  some, arith, Option-cases, List-cases, Bool-cases, length, ◌==◌,
}
use system_abstractions.Endpoint.State.{
  Packet, Effect, sends, calls_accept, calls_recvfrom, reports, sendto_failed, Endpoint, note,
  send_packet, close_stop, join, close_socket,
}
use system_abstractions.Endpoint.Processor.{
  Accepted, accepted, Arrived, arrived, Sent, taken, loop_head, select_returns, receive,
  receive_by_mode, after_accept, after_recvfrom, pop_sent, after_sendto, send_part,
  delegate_returns,
}
use system_abstractions.Endpoint.System.{
  Action, heads, selects, receives, returns, sends_packet, enqueues, stops, joins, step, run,
  when-eq, then_close,
}

abbrev pub given : Action → List Packet
given (enqueues packet) = packet ∷ []
given _ = []

-- The packets that clients gave to `SendPacket`, in order.
abbrev pub given_by : List Action → List Packet
given_by [] = []
given_by (a ∷ rest) = given a ++ given_by rest

-- The packets that the operating system took, in order.
abbrev pub sent_packets : List Effect → List Packet
sent_packets [] = []
sent_packets (sends s p n ∷ t) = sent_packets t ++ (p ∷ [])
sent_packets (_ ∷ t) = sent_packets t

-- The packets sent, followed by those that wait, are the packets given, `g`.
pub record Delivers (g : List Packet) (e : Endpoint) : Type 0 where
  pub all : sent_packets e.trace ++ e.output_queue ≡ g

pub record Same (e e' : Endpoint) : Type 0 where
  pub sent : sent_packets e'.trace ≡ sent_packets e.trace
  pub queue : e'.output_queue ≡ e.output_queue

Same-Delivers : {g : List Packet} {e e' : Endpoint} → Same e e' → Delivers g e → Delivers g e'
Same-Delivers h v = record { all = rw (h.sent, h.queue) v.all }

loop_head-Same : (e : Endpoint) → Same e (loop_head e)
unfolding loop_head
loop_head-Same e = ground arith

select_returns-Same :
    (e : Endpoint) (signalled readable : Bool) → Same e (select_returns e signalled readable)
unfolding select_returns
select_returns-Same e signalled readable = ground arith

close_socket-Same : (e : Endpoint) → Same e (close_socket e)
unfolding close_socket
close_socket-Same e = ground arith

pub after_accept-Same : (e : Endpoint) (answer : Accepted) → Same e (after_accept e answer)
unfolding after_accept
after_accept-Same e (accepted client address port bound) = ground arith
after_accept-Same e Accepted.would_block = ground arith
after_accept-Same e Accepted.failed = ground arith

pub after_recvfrom-Same : (e : Endpoint) (answer : Arrived) → Same e (after_recvfrom e answer)
unfolding after_recvfrom close_socket
after_recvfrom-Same e (arrived address port []) = ground arith
after_recvfrom-Same e (arrived address port (x ∷ xs)) = ground arith
after_recvfrom-Same e Arrived.would_block = ground arith
after_recvfrom-Same e Arrived.failed = ground arith

receive-Same :
    (e : Endpoint) (from_accept : Accepted) (from_recvfrom : Arrived)
    → Same e (receive e from_accept from_recvfrom)
unfolding receive receive_by_mode
receive-Same e from_accept from_recvfrom =
    let a = after_accept-Same (note (calls_accept e.sock) (record e { wait = true })) from_accept in
    let r =
      after_recvfrom-Same (note (calls_recvfrom e.sock) (record e { wait = true })) from_recvfrom in
    ground (arith, a, r)

delegate_returns-Same : (e : Endpoint) → Same e (delegate_returns e)
unfolding delegate_returns
delegate_returns-Same e = ground arith

close_stop-Same : (e : Endpoint) → Same e (close_stop e)
unfolding close_stop
close_stop-Same e = ground arith

join-Same : (e : Endpoint) {e' : Endpoint} → then_close (join e) ≡ some e' → Same e e'
unfolding join close_socket
join-Same e h = ground arith

-- A packet that is sent moves from the front of the queue to the end of what was sent.
after_sendto-Delivers :
    {g : List Packet} (e : Endpoint) (p : Packet) (ps : List Packet) (answer : Sent)
    → e.output_queue ≡ p ∷ ps
    → Delivers g e
    → Delivers g (after_sendto e p ps answer)
unfolding after_sendto pop_sent close_socket
after_sendto-Delivers e p ps (taken n) h v =
    let moved : (sent_packets e.trace ++ (p ∷ [])) ++ ps ≡ _ =
      append_assoc (sent_packets e.trace) (p ∷ []) ps
      ∙ ap (λ xs. sent_packets e.trace ++ xs) (sym h)
      ∙ v.all in
    elim (Bool-cases (n == length p.body)) [
      | inl b ↦ rw (b, after_sendto, pop_sent) (record { all = moved })
      | inr b ↦ rw (b, after_sendto, pop_sent) (record { all = moved })
    ]
after_sendto-Delivers e p ps Sent.would_block h v = record { all = v.all }
after_sendto-Delivers e p ps Sent.failed h v =
    Same-Delivers {e = note (reports 10 sendto_failed) e}
      (record { sent = ground arith; queue = ground arith }) (record { all = v.all })

send_part-Delivers :
    {g : List Packet} (e : Endpoint) (answer : Sent)
    → Delivers g e
    → Delivers g (send_part e answer)
unfolding send_part
send_part-Delivers e answer v = elim (List-cases e.output_queue) [
  | inl h ↦ rw (h, send_part) (record { all = v.all })
  | inr (p, ps, h) ↦ rw (h, send_part) (after_sendto-Delivers e p ps answer h v)
]

send_packet-Delivers :
    {g : List Packet} (e : Endpoint) (packet : Packet)
    → Delivers g e
    → Delivers (g ++ (packet ∷ [])) (send_packet e packet)
unfolding send_packet
send_packet-Delivers e packet v = record {
  all =
      sym (append_assoc (sent_packets e.trace) e.output_queue (packet ∷ []))
      ∙ ap (λ xs. xs ++ (packet ∷ [])) v.all;
}

pub quiet_step :
    {g : List Packet} {e e₁ e' : Endpoint}
    → Same e e₁
    → e₁ ≡ e'
    → Delivers g e
    → Delivers (g ++ []) e'
quiet_step {g} {e} {e₁} {e'} s h v = rw append-nil (subst (Delivers g) h (Same-Delivers s v))

pub step-Delivers :
    (a : Action) {g : List Packet} {e e' : Endpoint}
    → Delivers g e
    → step e a ≡ some e'
    → Delivers (g ++ given a) e'
unfolding step
step-Delivers heads v h = quiet_step (loop_head-Same _) (when-eq h).1 v
step-Delivers (selects signalled readable) v h =
    quiet_step (select_returns-Same _ signalled readable) (when-eq h).1 v
step-Delivers (receives from_accept from_recvfrom) v h =
    quiet_step (receive-Same _ from_accept from_recvfrom) (when-eq h).1 v
step-Delivers returns v h = quiet_step (delegate_returns-Same _) (some-injective _ _ h) v
step-Delivers (sends_packet answer) {g} {e} {e'} v h =
    rw append-nil (subst (Delivers g) (when-eq h).1 (send_part-Delivers _ answer v))
step-Delivers (enqueues packet) {g} v h =
    subst (Delivers (g ++ (packet ∷ []))) (when-eq h).1 (send_packet-Delivers _ packet v)
step-Delivers stops v h = quiet_step (close_stop-Same _) (some-injective _ _ h) v
step-Delivers joins v h = quiet_step (join-Same _ h) refl v

-- From a state in which the packets sent, followed by those that wait, are the packets given so
-- far, whatever the thread of an endpoint, its clients and the operating system then do, closing
-- included, the packets sent followed by those that wait are all packets given to `SendPacket` in
-- their order: none is lost, sent twice or overtaken.
pub run-Delivers :
    (actions : List Action) {g : List Packet} {e e' : Endpoint}
    → Delivers g e
    → run e actions ≡ some e'
    → Delivers (g ++ given_by actions) e'
unfolding run
run-Delivers [] {g} v h = quiet_step (record { sent = refl; queue = refl }) (some-injective _ _ h) v
run-Delivers (a ∷ rest) {g} {e} {e'} v h = elim (Option-cases (step e a)) [
  | inl f ↦ let z = rw (f, run) at h in cc (z)
  | inr (e₁, f) ↦
      subst (λ xs. Delivers xs e') (append_assoc g (given a) (given_by rest))
        (run-Delivers rest (step-Delivers a v f) (rw (f, run) at h))
]
