-- ===== src/Endpoint/System/Stopping.antt =====
-- How the thread of an endpoint ends.

use system_abstractions.Base.{
  ℕ, zero, suc, ◌≤◌, ◌≡◌, Bool, true, List, [], ◌∷◌, none, some, arith, length,
}
use system_abstractions.Endpoint.State.{
  Place, not_started, at_top, finished, selecting, receiving, in_delegate, sending, Endpoint, go,
  joinable, close_stop, join, close_socket,
}
use system_abstractions.Endpoint.Processor.{
  Accepted, accepted, Arrived, arrived, Sent, taken, loop_head, select_returns, receive,
  receive_by_mode, after_accept, after_recvfrom, pop_sent, after_sendto, send_part,
  delegate_returns,
}
use system_abstractions.Endpoint.System.{then_close}

-- What the operating system answers to the pieces of work of one round of the loop.
pub record Answers : Type 0 where
  pub signalled : Bool
  pub readable : Bool
  pub from_accept : Accepted
  pub from_recvfrom : Arrived
  pub from_sendto : Sent

-- The next piece of work of the thread, wherever it stands.
unfoldable pub thread_step : Endpoint → Answers → Endpoint
thread_step e answers = elim e.place [
  | at_top ↦ loop_head e
  | selecting ↦ select_returns e answers.signalled answers.readable
  | receiving ↦ receive e answers.from_accept answers.from_recvfrom
  | in_delegate ↦ delegate_returns e
  | sending ↦ send_part e answers.from_sendto
  | _ ↦ e
]

unfoldable pub thread_steps : Endpoint → List Answers → Endpoint
thread_steps e [] = e
thread_steps e (a ∷ rest) = thread_steps (thread_step e a) rest

-- How many pieces of work are left at most once the thread is to stop.
abbrev distance : Place → ℕ
distance not_started = 0
distance finished = 0
distance at_top = 1
distance sending = 2
distance in_delegate = 3
distance receiving = 4
distance selecting = 5

record Stops (k : ℕ) (e : Endpoint) : Type 0 where
  asked : e.processor_stop ≡ true
  near : distance e.place ≤ k
  there : joinable e.place ≡ true

receive-Stops :
    (e : Endpoint) (from_accept : Accepted) (from_recvfrom : Arrived)
    → e.processor_stop ≡ true
    → Stops 3 (receive e from_accept from_recvfrom)
unfolding receive receive_by_mode after_accept after_recvfrom close_socket joinable
receive-Stops e (accepted client address port bound) (arrived a p []) h = ground arith
receive-Stops e (accepted client address port bound) (arrived a p (x ∷ xs)) h = ground arith
receive-Stops e (accepted client address port bound) Arrived.would_block h = ground arith
receive-Stops e (accepted client address port bound) Arrived.failed h = ground arith
receive-Stops e Accepted.would_block (arrived a p []) h = ground arith
receive-Stops e Accepted.would_block (arrived a p (x ∷ xs)) h = ground arith
receive-Stops e Accepted.would_block Arrived.would_block h = ground arith
receive-Stops e Accepted.would_block Arrived.failed h = ground arith
receive-Stops e Accepted.failed (arrived a p []) h = ground arith
receive-Stops e Accepted.failed (arrived a p (x ∷ xs)) h = ground arith
receive-Stops e Accepted.failed Arrived.would_block h = ground arith
receive-Stops e Accepted.failed Arrived.failed h = ground arith

send_part-Stops :
    (e : Endpoint) (answer : Sent) → e.processor_stop ≡ true → Stops 1 (send_part e answer)
unfolding send_part after_sendto pop_sent close_socket joinable
send_part-Stops e (taken n) h = ground arith
send_part-Stops e Sent.would_block h = ground arith
send_part-Stops e Sent.failed h = ground arith

thread_step-Stops :
    {k : ℕ} (e : Endpoint) (a : Answers) → Stops (suc k) e → Stops k (thread_step e a)
unfolding thread_step loop_head select_returns delegate_returns joinable
thread_step-Stops e a v = ground (
  arith,
  v,
  receive-Stops e a.from_accept a.from_recvfrom v.asked,
  send_part-Stops e a.from_sendto v.asked,
)

steps-Stops :
    (k : ℕ) (e : Endpoint) (answers : List Answers)
    → Stops k e
    → k ≤ length answers
    → Stops 0 (thread_steps e answers)
unfolding thread_steps
steps-Stops zero e [] v h = v
steps-Stops (suc k) e [] v h = absurd (omega arith)
steps-Stops zero e (a ∷ rest) v h =
    steps-Stops zero (thread_step e a) rest
      (thread_step-Stops e a
        (record { asked = v.asked; near = omega (arith, v.near); there = v.there }))
      (omega arith)
steps-Stops (suc k) e (a ∷ rest) v h =
    steps-Stops k (thread_step e a) rest (thread_step-Stops e a v) (omega arith)

asked-Stops : (e : Endpoint) → joinable e.place ≡ true → Stops 5 (close_stop e)
unfolding close_stop
asked-Stops e h = ground arith

ended : (e : Endpoint) → Stops 0 e → e.place ≡ finished
unfolding joinable
ended e v = ground (arith, v)

rest_of_close :
    (e : Endpoint)
    → e.place ≡ finished
    → (e' : Endpoint) × (then_close (join e) ≡ some e')
      × (e'.sock ≡ none)
      × (e'.place ≡ not_started)
unfolding join close_socket
rest_of_close e p = (close_socket (go not_started e), ground arith, ground arith, ground arith)

-- Once `Close` has asked the thread of an endpoint to stop, the thread ends, wherever it stands,
-- within five pieces of work, whatever the operating system answers to them, as long as `select`
-- and the delegates return; the rest of `Close` then goes through and leaves the endpoint without
-- a socket.
pub stopped_thread_ends :
    (e : Endpoint) (answers : List Answers)
    → joinable e.place ≡ true
    → 5 ≤ length answers
    → let last = thread_steps (close_stop e) answers in
      (last.place ≡ finished)
      × ((e' : Endpoint) × (then_close (join last) ≡ some e')
          × (e'.sock ≡ none)
          × (e'.place ≡ not_started))
stopped_thread_ends e answers h l =
    let p = ended _ (steps-Stops 5 (close_stop e) answers (asked-Stops e h) l) in
    (p, rest_of_close _ p)
