-- ===== src/Connection/System/Shutdown.antt =====
-- A graceful close shuts the socket down once everything is sent.
use mathlib.Core.Path.{subst}
use mathlib.Core.Option.{some-injective}
use system_abstractions.Base.{
  ℕ, ◌+◌, ◌<◌, ◌≡◌, ◌≢◌, refl, sym, ap, ◌∙◌, inl, inr, Bool, true, false, List, ◌++◌, append-nil,
  some, arith, length, length-append, size_mod, Bool-cases, Option-cases, List-cases, ltb, ◌==◌,
  take,
}
use system_abstractions.DataQueue
use system_abstractions.DataQueue.{Buffer, DataQueue, get_bytes_queued}
use system_abstractions.DataQueue.Bytes.{contents}
use system_abstractions.DataQueue.Refine.{peek_lem, remove_lem}
use system_abstractions.Connection.State.{reports, closed_abruptly, finished, Connection, note}
use system_abstractions.Connection.Calls.{
  close_stop, close_by_client, send_message, immediate_and_stop_processor,
}
use system_abstractions.Connection.Processor.{
  Received, bytes, end_of_stream, Sent, taken, loop_head, select_returns, receive, close_and_leave,
  send_part, send_bytes, after_send, drop_sent, settle, delegate_returns, write_size, go,
}
use system_abstractions.Connection.System.{
  Action, heads, selects, receives, sends_part, returns, enqueues, stops, closes, step, run, given,
  given_by, sent_bytes, when-eq,
}
use system_abstractions.Connection.System.Stream.{Streams, step-Streams, run-Streams}
use system_abstractions.Connection.System.Notices.{shutdowns_in}

-- A socket that was shut down on the way from `c` to `c'` was so for a graceful close, with nothing
-- left to send.
record Shuts (c c' : Connection) : Type 0 where
  drained :
      shutdowns_in c'.trace ≢ shutdowns_in c.trace
      → (c'.output_queue.total_bytes ≡ 0) × (c'.closing ≡ true)

-- Nothing is shut down.
none_shut : {c c' : Connection} → shutdowns_in c'.trace ≡ shutdowns_in c.trace → Shuts c c'
none_shut e = record { drained = λ d. absurd (d e) }

-- What came ahead shut nothing down.
Shuts-later :
    {c c₁ c' : Connection} → shutdowns_in c₁.trace ≡ shutdowns_in c.trace → Shuts c₁ c' → Shuts c c'
Shuts-later e s = record { drained = λ d. s.drained (λ e'. d (e' ∙ e)) }

loop_head-Shuts : (c : Connection) → Shuts c (loop_head c)
unfolding loop_head
loop_head-Shuts c = none_shut (ground arith)

select_returns-Shuts : (c : Connection) (signalled : Bool) → Shuts c (select_returns c signalled)
unfolding select_returns
select_returns-Shuts c signalled = none_shut (ground arith)

receive-Shuts : (c : Connection) (answer : Received) → Shuts c (receive c answer)
unfolding receive
receive-Shuts c (bytes b) = none_shut (ground arith)
receive-Shuts c end_of_stream = none_shut (ground arith)
receive-Shuts c Received.would_block = none_shut (ground arith)
receive-Shuts c Received.failed = none_shut (ground arith)

close_and_leave-Shuts : (c : Connection) → Shuts c (close_and_leave c)
unfolding close_and_leave
close_and_leave-Shuts c = none_shut (ground arith)

delegate_returns-Shuts : (c : Connection) → Shuts c (delegate_returns c)
unfolding delegate_returns
delegate_returns-Shuts c = none_shut (ground arith)

close_by_client-Shuts : (c : Connection) (clean : Bool) → Shuts c (close_by_client c clean)
unfolding close_by_client
close_by_client-Shuts c true = none_shut (ground arith)
close_by_client-Shuts c false = none_shut (ground arith)

close_stop-Shuts : (c : Connection) → Shuts c (close_stop c immediate_and_stop_processor)
unfolding close_stop
close_stop-Shuts c = none_shut (ground arith)

settle-Shuts : (c : Connection) → Shuts c (settle c)
unfolding settle get_bytes_queued
settle-Shuts c = elim (Bool-cases (c.output_queue.total_bytes == 0)) [
  | inl b ↦ ground arith
  | inr b ↦ none_shut (ground arith)
]

drop_sent-Shuts :
    {g : Buffer} {c : Connection} (b : Buffer) (n : ℕ) → Streams g c → Shuts c (drop_sent c b n)
unfolding drop_sent
drop_sent-Shuts b n v =
    let (q, e, _, _) = remove_lem n v.valid in
    rw (e, drop_sent) (Shuts-later (omega arith) (settle-Shuts _))

after_send-Shuts :
    {g : Buffer} {c : Connection} (b : Buffer) (answer : Sent)
    → Streams g c
    → Shuts c (after_send c b answer)
unfolding after_send
after_send-Shuts {g} {c} b Sent.would_block v = settle-Shuts c
after_send-Shuts {g} {c} b Sent.failed v =
    Shuts-later (omega arith) (close_and_leave-Shuts (note (reports 1 closed_abruptly) c))
after_send-Shuts {g} {c} b (taken n) v = elim (Bool-cases (ltb 0 n)) [
  | inl p ↦ rw p (drop_sent-Shuts b n v)
  | inr p ↦ rw p (close_and_leave-Shuts c)
]

send_bytes-eq :
    {g : Buffer} {c : Connection} (answer : Sent)
    → Streams g c
    → send_bytes c answer ≡ after_send c (take (write_size c) (contents c.output_queue)) answer
unfolding send_bytes
send_bytes-eq {g} {c} answer v = rw (peek_lem (write_size c) v.valid, send_bytes)

send_part-Shuts :
    {g : Buffer} {c : Connection} (answer : Sent) → Streams g c → Shuts c (send_part c answer)
unfolding send_part
send_part-Shuts {g} {c} answer v = elim (Option-cases c.sock) [
  | inl e ↦
      let q : send_part c answer ≡ go finished c = ground arith in
      subst (Shuts c) (sym q) (none_shut refl)
  | inr (s, e) ↦ elim (Bool-cases (ltb 0 (DataQueue.get_bytes_queued c.output_queue))) [
    | inl b ↦
        let q : send_part c answer ≡ send_bytes c answer = ground arith in
        subst (Shuts c) (sym (q ∙ send_bytes-eq answer v))
          (after_send-Shuts (take (write_size c) (contents c.output_queue)) answer v)
    | inr b ↦
        let q : send_part c answer ≡ settle c = ground arith in
        subst (Shuts c) (sym q) (settle-Shuts c)
  ]
]

send_message-Shuts : (c : Connection) (message : Buffer) → Shuts c (send_message c message)
unfolding send_message
send_message-Shuts c message = none_shut (omega arith)

step-Shuts :
    (a : Action) {g : Buffer} {c c' : Connection} → Streams g c → step c a ≡ some c' → Shuts c c'
unfolding step
step-Shuts heads {g} {c} v e = subst (Shuts c) (when-eq e).1 (loop_head-Shuts c)
step-Shuts (selects signalled) {g} {c} v e =
    subst (Shuts c) (when-eq e).1 (select_returns-Shuts c signalled)
step-Shuts (receives answer) {g} {c} v e = subst (Shuts c) (when-eq e).1 (receive-Shuts c answer)
step-Shuts (sends_part answer) {g} {c} v e =
    subst (Shuts c) (when-eq e).1 (send_part-Shuts answer v)
step-Shuts returns {g} {c} v e = subst (Shuts c) (when-eq e).1 (delegate_returns-Shuts c)
step-Shuts (enqueues message) {g} {c} v e =
    subst (Shuts c) (when-eq e).1 (send_message-Shuts c message)
step-Shuts stops {g} {c} v e = subst (Shuts c) (some-injective _ _ e) (close_stop-Shuts c)
step-Shuts (closes clean) {g} {c} v e =
    subst (Shuts c) (when-eq e).1 (close_by_client-Shuts c clean)

-- With no byte in the queue, all that was given is sent.
all_sent :
    {g : Buffer} {c : Connection}
    → Streams g c
    → c.output_queue.total_bytes ≡ 0
    → sent_bytes c.trace ≡ g
all_sent {g} {c} v z = elim (List-cases (contents c.output_queue)) [
  | inl e ↦
      sym (append-nil (sent_bytes c.trace)) ∙ ap (λ xs. sent_bytes c.trace ++ xs) (sym e) ∙ v.all
  | inr (x, rest, e) ↦ absurd (omega (arith, v.valid.counted, ap length e))
]

-- Whatever has happened to a connection, from a state in which the bytes sent and those queued are
-- the bytes given, a piece of work that shuts its socket down does so for a graceful close, and at
-- that time all bytes given to `SendMessage` were sent. The bytes given are fewer than a `size_t`
-- can count.
pub shuts_down_after_all :
    (actions : List Action) (a : Action) {g : Buffer} {c c₁ c' : Connection}
    → Streams g c
    → length g + length (given_by actions ++ given a) < size_mod
    → run c actions ≡ some c₁
    → step c₁ a ≡ some c'
    → shutdowns_in c'.trace ≢ shutdowns_in c₁.trace
    → (sent_bytes c'.trace ≡ (g ++ given_by actions) ++ given a) × (c'.closing ≡ true)
shuts_down_after_all actions a {g} v h e f d =
    let n = length-append (given_by actions) (given a) in
    let w = run-Streams actions v (omega (arith, n)) e in
    let u = step-Streams a w (omega (arith, n, length-append g (given_by actions))) f in
    let (z, c) = (step-Shuts a w f).drained d in (all_sent u z, c)
