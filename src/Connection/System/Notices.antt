-- ===== src/Connection/System/Notices.antt =====
-- A connection closes its socket once, and tells its owner once.
use mathlib.Core.Path.{subst}
use mathlib.Core.Option.{some-injective}
use system_abstractions.Base.{
  ℕ, ◌+◌, ◌<◌, ◌≡◌, ◌≢◌, inl, inr, Bool, true, false, List, [], ◌∷◌, Option, none, some, arith,
  length, length-append, size_mod, Bool-cases, Option-cases, ltb,
}
use system_abstractions.DataQueue
use system_abstractions.DataQueue.{Buffer, DataQueue}
use system_abstractions.DataQueue.Refine.{peek_lem, remove_lem}
use system_abstractions.Connection.State.{
  Effect, calls_close, calls_shutdown, broken, reports, closed_abruptly, crashed, Connection, note,
}
use system_abstractions.Connection.Calls.{
  close_stop, close_by_client, send_message, immediate_and_stop_processor,
}
use system_abstractions.Connection.Processor.{
  Received, bytes, end_of_stream, Sent, taken, loop_head, select_returns, receive, close_and_leave,
  send_part, send_bytes, after_send, drop_sent, settle, delegate_returns, write_size,
}
use system_abstractions.Connection.System.{
  Action, heads, selects, receives, sends_part, returns, enqueues, stops, closes, step, run, given,
  given_by, when-eq,
}
use system_abstractions.Connection.System.Stream.{Streams, step-Streams}

abbrev closes_of : Effect → ℕ
closes_of (calls_close s) = 1
closes_of _ = 0

abbrev lost_of : Effect → ℕ
lost_of (broken false) = 1
lost_of _ = 0

abbrev ended_of : Effect → ℕ
ended_of (broken true) = 1
ended_of _ = 0

abbrev shutdowns_of : Effect → ℕ
shutdowns_of (calls_shutdown s) = 1
shutdowns_of _ = 0

-- How often an effect stands in a trace: the socket is closed, the broken delegate is called for a
-- lost connection and for one that the peer ended, the socket is shut down.
abbrev pub closes_in : List Effect → ℕ
closes_in [] = 0
closes_in (e ∷ t) = closes_of e + closes_in t

abbrev pub lost_in : List Effect → ℕ
lost_in [] = 0
lost_in (e ∷ t) = lost_of e + lost_in t

abbrev pub ended_in : List Effect → ℕ
ended_in [] = 0
ended_in (e ∷ t) = ended_of e + ended_in t

abbrev pub shutdowns_in : List Effect → ℕ
shutdowns_in [] = 0
shutdowns_in (e ∷ t) = shutdowns_of e + shutdowns_in t

abbrev pub closed_count : Option ℕ → ℕ
closed_count none = 1
closed_count (some s) = 0

abbrev pub one_if : Bool → ℕ
one_if true = 1
one_if false = 0

-- For a connection that has both delegates.
pub record Told (c : Connection) : Type 0 where
  pub delegate : c.has_broken_delegate ≡ true
  pub message_delegate : c.has_message_delegate ≡ true
  pub closed_once : closes_in c.trace ≡ closed_count c.sock
  pub told_once : lost_in c.trace ≡ closed_count c.sock
  pub ended_once : ended_in c.trace ≡ one_if c.peer_closed
  pub shut_once : shutdowns_in c.trace ≡ one_if c.shutdown_sent
  pub alive : c.place ≢ crashed

close_stop-Told : {c : Connection} → Told c → Told (close_stop c immediate_and_stop_processor)
unfolding close_stop
close_stop-Told v = ground arith

close_by_client-Told : {c : Connection} (clean : Bool) → Told c → Told (close_by_client c clean)
unfolding close_by_client
close_by_client-Told true v = ground arith
close_by_client-Told false v = ground arith

send_message-Told : {c : Connection} (message : Buffer) → Told c → Told (send_message c message)
unfolding send_message
send_message-Told message v = ground arith

loop_head-Told : {c : Connection} → Told c → Told (loop_head c)
unfolding loop_head
loop_head-Told v = ground arith

select_returns-Told :
    {c : Connection} (signalled : Bool) → Told c → Told (select_returns c signalled)
unfolding select_returns
select_returns-Told signalled v = ground arith

close_and_leave-Told : {c : Connection} → Told c → Told (close_and_leave c)
unfolding close_and_leave
close_and_leave-Told v = ground arith

receive-Told : {c : Connection} (answer : Received) → Told c → Told (receive c answer)
unfolding receive
receive-Told (bytes b) v = ground arith
receive-Told end_of_stream v = ground arith
receive-Told Received.would_block v = ground arith
receive-Told Received.failed v = ground arith

delegate_returns-Told : {c : Connection} → Told c → Told (delegate_returns c)
unfolding delegate_returns
delegate_returns-Told v = ground arith

settle-Told : {c : Connection} (s : ℕ) → c.sock ≡ some s → Told c → Told (settle c)
unfolding settle
settle-Told s e v = ground arith

drop_sent-Told :
    {g : Buffer} {c : Connection} (b : Buffer) (n s : ℕ)
    → c.sock ≡ some s
    → Streams g c
    → Told c
    → Told (drop_sent c b n)
unfolding drop_sent
drop_sent-Told {g} {c} b n s e w v =
    let (q, f, _, _) = remove_lem n w.valid in rw (f, drop_sent) (settle-Told s e (ground arith))

after_send-Told :
    {g : Buffer} {c : Connection} (b : Buffer) (answer : Sent) (s : ℕ)
    → c.sock ≡ some s
    → Streams g c
    → Told c
    → Told (after_send c b answer)
unfolding after_send
after_send-Told b Sent.would_block s e w v = settle-Told s e v
after_send-Told {c} b Sent.failed s e w v =
    close_and_leave-Told {c = note (reports 1 closed_abruptly) c} (ground arith)
after_send-Told b (taken n) s e w v = elim (Bool-cases (ltb 0 n)) [
  | inl p ↦ rw p (drop_sent-Told b n s e w v)
  | inr p ↦ rw p (close_and_leave-Told v)
]

send_bytes-Told :
    {g : Buffer} {c : Connection} (answer : Sent) (s : ℕ)
    → c.sock ≡ some s
    → Streams g c
    → Told c
    → Told (send_bytes c answer)
unfolding send_bytes
send_bytes-Told {g} {c} answer s e w v =
    rw (peek_lem (write_size c) w.valid, send_bytes) (after_send-Told _ answer s e w v)

send_part-Told :
    {g : Buffer} {c : Connection} (answer : Sent) → Streams g c → Told c → Told (send_part c answer)
unfolding send_part
send_part-Told {g} {c} answer w v = elim (Option-cases c.sock) [
  | inl e ↦ rw (e, send_part) (ground arith)
  | inr (s, e) ↦ elim (Bool-cases (ltb 0 (DataQueue.get_bytes_queued c.output_queue))) [
    | inl b ↦ rw (e, b, send_part) (send_bytes-Told answer s e w v)
    | inr b ↦ rw (e, b, send_part) (settle-Told s e v)
  ]
]

pub step-Told :
    (a : Action) {g : Buffer} {c c' : Connection}
    → Streams g c
    → Told c
    → step c a ≡ some c'
    → Told c'
unfolding step
step-Told heads w v e = subst Told (when-eq e).1 (loop_head-Told v)
step-Told (selects signalled) w v e = subst Told (when-eq e).1 (select_returns-Told signalled v)
step-Told (receives answer) w v e = subst Told (when-eq e).1 (receive-Told answer v)
step-Told (sends_part answer) w v e = subst Told (when-eq e).1 (send_part-Told answer w v)
step-Told returns w v e = subst Told (when-eq e).1 (delegate_returns-Told v)
step-Told (enqueues message) w v e = subst Told (when-eq e).1 (send_message-Told message v)
step-Told stops w v e = subst Told (some-injective _ _ e) (close_stop-Told v)
step-Told (closes clean) w v e = subst Told (when-eq e).1 (close_by_client-Told clean v)

-- For a connection with both delegates, whatever the processor thread, the clients and the
-- operating system do: the socket is closed once at most, the owner is told of the loss exactly as
-- often, is told of the peer's end of the stream exactly once where the peer ended it, the socket
-- is shut down once at most, no unset delegate is called and the queue is not read past its end.
pub run-Told :
    (actions : List Action) {g : Buffer} {c c' : Connection}
    → Streams g c
    → Told c
    → length g + length (given_by actions) < size_mod
    → run c actions ≡ some c'
    → Told c'
unfolding run
run-Told [] w v h e = subst Told (some-injective _ _ e) v
run-Told (a ∷ rest) {g} {c} {c'} w v h e = elim (Option-cases (step c a)) [
  | inl f ↦ let z = rw (f, run) at e in cc (z)
  | inr (c₁, f) ↦
      run-Told rest (step-Streams a w (omega (arith, length-append (given a) (given_by rest))) f)
        (step-Told a w v f)
        (omega (arith, length-append g (given a), length-append (given a) (given_by rest)))
        (rw (f, run) at e)
]
