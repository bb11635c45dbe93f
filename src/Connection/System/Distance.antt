-- ===== src/Connection/System/Distance.antt =====
-- How far the thread of a connection is from its end once it is asked to stop.

use system_abstractions.Base.{
  ℕ, ◌-◌, ◌≤◌, ◌≡◌, refl, inl, inr, Bool, true, false, ◌&&◌, ◌==◌, List, [], ◌∷◌, arith, Bool-cases,
  Option-cases, ltb,
}
use system_abstractions.DataQueue
use system_abstractions.DataQueue.{Buffer, DataQueue}
use system_abstractions.Connection.State.{
  Place, not_started, at_top, selecting, receiving, sending, in_message, in_broken_eof,
  in_broken_last, in_broken_close, finished, crashed, Connection, joinable,
}
use system_abstractions.Connection.Processor.{
  Received, bytes, end_of_stream, Sent, taken, loop_head, select_returns, receive, close_and_leave,
  send_part, send_bytes, after_send, drop_sent, settle, delegate_returns, write_size,
}
use system_abstractions.Connection.System.{
  Action, heads, selects, receives, sends_part, returns, enqueues, stops, closes, is_in_delegate,
  is_selecting,
}

-- The pieces of work of the thread itself.
abbrev pub is_own : Action → Bool
is_own heads = true
is_own (selects signalled) = true
is_own (receives answer) = true
is_own (sends_part answer) = true
is_own returns = true
is_own (enqueues message) = false
is_own stops = false
is_own (closes clean) = false

-- The pieces of work that wait for nothing: `recv` and `send` do not block, the signal is set for
-- `select`, and delegates return.
abbrev pub is_unaided : Action → Bool
is_unaided (selects signalled) = signalled
is_unaided a = is_own a

abbrev pub all_own : List Action → Bool
all_own [] = true
all_own (a ∷ rest) = is_own a && all_own rest

-- How many pieces of work are left at most to a thread that is to stop.
unfoldable pub distance : Place → ℕ
distance not_started = 0
distance finished = 0
distance crashed = 0
distance at_top = 1
distance in_broken_last = 1
distance in_broken_close = 2
distance sending = 3
distance in_message = 4
distance in_broken_eof = 4
distance receiving = 5
distance selecting = 6

pub and_left : (a b : Bool) → (a && b) ≡ true → a ≡ true
and_left true b h = refl
and_left false b h = cc

-- The thread is asked to stop, and is at most `n` pieces of work from its end.
pub record Within (n : ℕ) (c : Connection) : Type 0 where
  pub asked : c.processor_stop ≡ true
  pub near : distance c.place ≤ n
  pub there : joinable c.place ≡ true
  -- where it waits in `select`, the signal is set
  pub awake : is_selecting c.place && (c.signals == 0) ≡ false

pub loop_head-Within : (c : Connection) → c.processor_stop ≡ true → Within 0 (loop_head c)
unfolding loop_head distance joinable is_selecting
loop_head-Within c h = ground arith

pub select_returns-Within :
    (c : Connection) (signalled : Bool)
    → c.processor_stop ≡ true
    → Within 5 (select_returns c signalled)
unfolding select_returns distance joinable is_selecting
select_returns-Within c signalled h = ground arith

close_and_leave-Within : (c : Connection) → c.processor_stop ≡ true → Within 1 (close_and_leave c)
unfolding close_and_leave distance joinable is_selecting
close_and_leave-Within c h = ground arith

pub receive-Within :
    (c : Connection) (answer : Received) → c.processor_stop ≡ true → Within 4 (receive c answer)
unfolding receive distance joinable is_selecting
receive-Within c (bytes b) h = ground arith
receive-Within c end_of_stream h = ground arith
receive-Within c Received.would_block h = ground arith
receive-Within c Received.failed h = ground arith

settle-Within : (c : Connection) → c.processor_stop ≡ true → Within 2 (settle c)
unfolding settle distance joinable is_selecting
settle-Within c h = ground arith

drop_sent-Within :
    (c : Connection) (b : Buffer) (n : ℕ) → c.processor_stop ≡ true → Within 2 (drop_sent c b n)
unfolding drop_sent distance joinable is_selecting
drop_sent-Within c b n h = elim (Option-cases (DataQueue.remove c.output_queue n)) [
  | inl e ↦ rw (e, drop_sent) (record { asked = h; near = omega arith; there = refl; awake = refl })
  | inr (q, e) ↦ rw (e, drop_sent) (settle-Within _ h)
]

pub Within-more : {n m : ℕ} {c : Connection} → n ≤ m → Within n c → Within m c
Within-more l v = record {
  asked = v.asked;
  near = omega (arith, v.near);
  there = v.there;
  awake = v.awake;
}

after_send-Within :
    (c : Connection) (b : Buffer) (answer : Sent)
    → c.processor_stop ≡ true
    → Within 2 (after_send c b answer)
unfolding after_send
after_send-Within c b Sent.would_block h = settle-Within c h
after_send-Within c b Sent.failed h = Within-more (omega arith) (close_and_leave-Within _ h)
after_send-Within c b (taken n) h = elim (Bool-cases (ltb 0 n)) [
  | inl p ↦ rw p (drop_sent-Within c b n h)
  | inr p ↦ rw p (Within-more (omega arith) (close_and_leave-Within c h))
]

pub send_part-Within :
    (c : Connection) (answer : Sent) → c.processor_stop ≡ true → Within 2 (send_part c answer)
unfolding send_part send_bytes distance joinable is_selecting
send_part-Within c answer h = elim (Option-cases c.sock) [
  | inl e ↦ rw (e, send_part) (record { asked = h; near = omega arith; there = refl; awake = refl })
  | inr (s, e) ↦ elim (Bool-cases (ltb 0 (DataQueue.get_bytes_queued c.output_queue))) [
    | inl b ↦ elim (Option-cases (DataQueue.peek c.output_queue (write_size c))) [
      | inl n ↦
          rw (e, b, n, send_part, send_bytes)
            (record { asked = h; near = omega arith; there = refl; awake = refl })
      | inr (r, n) ↦ rw (e, b, n, send_part, send_bytes) (after_send-Within _ r.0 answer h)
    ]
    | inr b ↦ rw (e, b, send_part) (settle-Within c h)
  ]
]

pub delegate_returns-Within :
    (c : Connection) (n : ℕ)
    → is_in_delegate c.place ≡ true
    → Within n c
    → (1 ≤ n) × Within (n - 1) (delegate_returns c)
unfolding delegate_returns is_in_delegate distance joinable is_selecting
delegate_returns-Within c n d v = (ground (arith, v), ground (arith, v))
