-- ===== src/Connection/System/Stream.antt =====
-- The bytes that a connection sends are those that its clients gave it, in order.
use mathlib.Core.Path.{subst}
use mathlib.Core.Option.{some-injective}
use system_abstractions.Base.{
  ℕ, zero, suc, ◌+◌, ◌≤◌, ◌<◌, ◌≡◌, refl, sym, ap, ◌∙◌, inl, inr, Bool, true, false, ◌&&◌, List, [],
  ◌∷◌, ◌++◌, some, arith, length, length-append, append_assoc, append-nil, take, drop,
  take-append-drop, size_mod, Bool-cases, Option-cases, ltb, leb→le,
}
use system_abstractions.DataQueue
use system_abstractions.DataQueue.{Buffer, DataQueue}
use system_abstractions.DataQueue.Bytes.{contents, IsValid, contents-enqueue, enqueue-IsValid}
use system_abstractions.DataQueue.Refine.{peek_lem, remove_lem}
use system_abstractions.Connection.State.{Connection}
use system_abstractions.Connection.Calls.{
  close_stop, close_by_client, send_message, immediate_and_stop_processor,
}
use system_abstractions.Connection.Processor.{
  Received, bytes, end_of_stream, Sent, taken, loop_head, select_returns, receive, close_and_leave,
  send_part, send_bytes, after_send, drop_sent, settle, delegate_returns, write_size,
}
use system_abstractions.Connection.System.{
  Action, heads, selects, receives, sends_part, returns, enqueues, stops, closes, step, run, given,
  given_by, when-eq, sent_bytes, send_can,
}

-- What the stream depends on.
pub record Same (c c' : Connection) : Type 0 where
  pub sent : sent_bytes c'.trace ≡ sent_bytes c.trace
  pub queue : c'.output_queue ≡ c.output_queue

close_stop-Same : (c : Connection) → Same c (close_stop c immediate_and_stop_processor)
unfolding close_stop
close_stop-Same c = ground arith

close_by_client-Same : (c : Connection) (clean : Bool) → Same c (close_by_client c clean)
unfolding close_by_client
close_by_client-Same c true = ground arith
close_by_client-Same c false = ground arith

loop_head-Same : (c : Connection) → Same c (loop_head c)
unfolding loop_head
loop_head-Same c = ground arith

select_returns-Same : (c : Connection) (signalled : Bool) → Same c (select_returns c signalled)
unfolding select_returns
select_returns-Same c signalled = ground arith

close_and_leave-Same : (c : Connection) → Same c (close_and_leave c)
unfolding close_and_leave
close_and_leave-Same c = ground arith

receive-Same : (c : Connection) (answer : Received) → Same c (receive c answer)
unfolding receive
receive-Same c (bytes b) = ground arith
receive-Same c end_of_stream = ground arith
receive-Same c Received.would_block = ground arith
receive-Same c Received.failed = ground arith

settle-Same : (c : Connection) → Same c (settle c)
unfolding settle
settle-Same c = ground arith

delegate_returns-Same : (c : Connection) → Same c (delegate_returns c)
unfolding delegate_returns
delegate_returns-Same c = ground arith

-- The bytes sent and the bytes still in the queue are the bytes given, `g`.
pub record Streams (g : Buffer) (c : Connection) : Type 0 where
  pub valid : IsValid c.output_queue
  pub all : sent_bytes c.trace ++ contents c.output_queue ≡ g
  pub small : length g < size_mod

pub Same-Streams : {g : Buffer} {c c' : Connection} → Same c c' → Streams g c → Streams g c'
Same-Streams {g} {c} {c'} e v = record {
  valid = rw e.queue v.valid;
  all = rw (e.sent, e.queue) v.all;
  small = v.small;
}

take-take : (n w : ℕ) (xs : Buffer) → n ≤ w → take n (take w xs) ≡ take n xs
take-take zero w xs h = refl
take-take (suc n) zero xs h = absurd (omega arith)
take-take (suc n) (suc w) [] h = refl
take-take (suc n) (suc w) (x ∷ xs) h = ap (◌∷◌ x) (take-take n w xs (omega arith))

-- The bytes that are dropped from the queue are those that were sent.
moved : (n w : ℕ) (s xs : Buffer) → n ≤ w → (s ++ take n (take w xs)) ++ drop n xs ≡ s ++ xs
moved n w s xs h =
    rw (take-take n w xs h, append_assoc s (take n xs) (drop n xs), take-append-drop n xs)

drop_sent-Streams :
    {g : Buffer} {c : Connection} (n : ℕ)
    → n ≤ write_size c
    → Streams g c
    → Streams g (drop_sent c (take (write_size c) (contents c.output_queue)) n)
unfolding drop_sent
drop_sent-Streams {g} {c} n h v =
    let (q, e, d, u) = remove_lem n v.valid in
    rw (e, drop_sent)
      (Same-Streams (settle-Same _) (record {
        valid = u;
        all =
            ap
              (λ xs.
                (sent_bytes c.trace ++ take n (take (write_size c) (contents c.output_queue)))
                ++ xs)
              d
            ∙ moved n (write_size c) (sent_bytes c.trace) (contents c.output_queue) h
            ∙ v.all;
        small = v.small;
      }))

after_send-Streams :
    {g : Buffer} {c : Connection} (answer : Sent)
    → send_can c answer ≡ true
    → Streams g c
    → Streams g (after_send c (take (write_size c) (contents c.output_queue)) answer)
unfolding after_send send_can
after_send-Streams {g} {c} Sent.would_block h v = Same-Streams (settle-Same c) v
after_send-Streams {g} {c} Sent.failed h v =
    Same-Streams (close_and_leave-Same _) (record { valid = v.valid; all = v.all; small = v.small })
after_send-Streams {g} {c} (taken n) h v = elim (Bool-cases (ltb 0 n)) [
  | inl b ↦ rw b (drop_sent-Streams n (leb→le n (write_size c) h) v)
  | inr b ↦ rw b (Same-Streams (close_and_leave-Same c) v)
]

send_bytes-Streams :
    {g : Buffer} {c : Connection} (answer : Sent)
    → send_can c answer ≡ true
    → Streams g c
    → Streams g (send_bytes c answer)
unfolding send_bytes
send_bytes-Streams {g} {c} answer h v =
    rw (peek_lem (write_size c) v.valid, send_bytes) (after_send-Streams answer h v)

send_part-Streams :
    {g : Buffer} {c : Connection} (answer : Sent)
    → send_can c answer ≡ true
    → Streams g c
    → Streams g (send_part c answer)
unfolding send_part
send_part-Streams {g} {c} answer h v = elim (Option-cases c.sock) [
  | inl e ↦ rw (e, send_part) (record { valid = v.valid; all = v.all; small = v.small })
  | inr (s, e) ↦ elim (Bool-cases (ltb 0 (DataQueue.get_bytes_queued c.output_queue))) [
    | inl b ↦ rw (e, b, send_part) (send_bytes-Streams answer h v)
    | inr b ↦ rw (e, b, send_part) (Same-Streams (settle-Same c) v)
  ]
]

send_message-Streams :
    {g : Buffer} {c : Connection} (message : Buffer)
    → Streams g c
    → length g + length message < size_mod
    → Streams (g ++ message) (send_message c message)
unfolding send_message
send_message-Streams {g} {c} message v h =
    let held : length (contents c.output_queue) ≤ length g =
      omega
        (arith, ap length v.all, length-append (sent_bytes c.trace) (contents c.output_queue)) in
    record {
      valid = enqueue-IsValid message v.valid (omega (arith, v.valid.counted));
      all =
          ap (λ xs. sent_bytes c.trace ++ xs) (contents-enqueue c.output_queue message)
          ∙ sym (append_assoc (sent_bytes c.trace) (contents c.output_queue) message)
          ∙ ap (λ xs. xs ++ message) v.all;
      small = omega (arith, length-append g message);
    }

pub and_right : (a b : Bool) → (a && b) ≡ true → b ≡ true
and_right true b h = h
and_right false b h = cc

pub unchanged : {g : Buffer} {c c' : Connection} → c ≡ c' → Streams g c → Streams (g ++ []) c'
unchanged {g} {c} {c'} e v = rw append-nil (subst (Streams g) e v)

pub step-Streams :
    (a : Action) {g : Buffer} {c c' : Connection}
    → Streams g c
    → length g + length (given a) < size_mod
    → step c a ≡ some c'
    → Streams (g ++ given a) c'
unfolding step
step-Streams heads v h e = unchanged (when-eq e).1 (Same-Streams (loop_head-Same _) v)
step-Streams (selects signalled) v h e =
    unchanged (when-eq e).1 (Same-Streams (select_returns-Same _ signalled) v)
step-Streams (receives answer) v h e =
    unchanged (when-eq e).1 (Same-Streams (receive-Same _ answer) v)
step-Streams (sends_part answer) v h e =
    unchanged (when-eq e).1 (send_part-Streams answer (and_right _ _ (when-eq e).0) v)
step-Streams returns v h e = unchanged (when-eq e).1 (Same-Streams (delegate_returns-Same _) v)
step-Streams (enqueues message) {g} v h e =
    subst (Streams (g ++ message)) (when-eq e).1 (send_message-Streams message v h)
step-Streams stops v h e = unchanged (some-injective _ _ e) (Same-Streams (close_stop-Same _) v)
step-Streams (closes clean) v h e =
    unchanged (when-eq e).1 (Same-Streams (close_by_client-Same _ clean) v)

-- From a state in which the bytes sent, followed by those in the output queue, are the bytes given
-- so far, whatever the processor thread, the clients and the operating system then do, the bytes
-- sent followed by those in the queue are all the bytes given to `SendMessage` in their order:
-- none is lost, sent twice or overtaken. The bytes given are fewer than a `size_t` can count.
pub run-Streams :
    (actions : List Action) {g : Buffer} {c c' : Connection}
    → Streams g c
    → length g + length (given_by actions) < size_mod
    → run c actions ≡ some c'
    → Streams (g ++ given_by actions) c'
unfolding run
run-Streams [] v h e = unchanged (some-injective _ _ e) v
run-Streams (a ∷ rest) {g} {c} {c'} v h e = elim (Option-cases (step c a)) [
  | inl f ↦ let z = rw (f, run) at e in cc (z)
  | inr (c₁, f) ↦
      subst (λ xs. Streams xs c') (append_assoc g (given a) (given_by rest))
        (run-Streams rest
          (step-Streams a v (omega (arith, length-append (given a) (given_by rest))) f)
          (omega (arith, length-append g (given a), length-append (given a) (given_by rest)))
          (rw (f, run) at e))
]
