-- ===== src/Connection/System/Stopping.antt =====
-- The thread of a connection that is asked to stop ends.
use mathlib.Core.Path.{subst}
use mathlib.Core.Option.{some-injective}
use system_abstractions.Base.{
  ℕ, ◌+◌, ◌-◌, ◌≤◌, ◌<◌, ◌≡◌, ◌≢◌, refl, ap, ◌⊎◌, inl, inr, true, List, [], ◌∷◌, some, arith,
  length, Option-cases,
}
use system_abstractions.DataQueue.{Buffer}
use system_abstractions.Connection.State.{
  Place, not_started, at_top, selecting, receiving, sending, in_message, in_broken_eof,
  in_broken_last, in_broken_close, finished, crashed, Connection, joinable,
}
use system_abstractions.Connection.Calls.{close_stop, immediate_and_stop_processor}
use system_abstractions.Connection.Processor.{
  Received, Sent, loop_head, select_returns, receive, send_part, delegate_returns,
}
use system_abstractions.Connection.System.Stream.{Streams, and_right}
use system_abstractions.Connection.System.Notices.{Told, run-Told}
use system_abstractions.Connection.System.{
  Action, heads, selects, receives, sends_part, returns, enqueues, stops, closes, step, run,
  given_by, when-eq, is_at_top, is_selecting, is_receiving, is_sending, is_in_delegate, recv_can,
  send_can, select_can,
}
use system_abstractions.Connection.System.Distance.{
  is_own, is_unaided, all_own, distance, Within, and_left, loop_head-Within, select_returns-Within,
  receive-Within, send_part-Within, delegate_returns-Within, Within-more,
}

-- The places by their distances.
pub far :
    (p : Place)
    → (is_at_top p ≡ true → distance p ≡ 1)
      × (is_selecting p ≡ true → distance p ≡ 6)
      × (is_receiving p ≡ true → distance p ≡ 5)
      × (is_sending p ≡ true → distance p ≡ 3)
unfolding distance is_at_top is_selecting is_receiving is_sending
far p = (ground arith, ground arith, ground arith, ground arith)

pub nearer :
    {n m d : ℕ} {c c' c₁ : Connection}
    → Within n c
    → distance c.place ≡ d
    → m < d
    → Within m c₁
    → c₁ ≡ c'
    → (1 ≤ n) × Within (n - 1) c'
nearer {n} {m} v e l w q =
    (omega (arith, v.near), subst (Within (n - 1)) q (Within-more (omega (arith, v.near)) w))

pub step-Within :
    (a : Action) {n : ℕ} {c c' : Connection}
    → is_own a ≡ true
    → Within n c
    → step c a ≡ some c'
    → (1 ≤ n) × Within (n - 1) c'
unfolding step
step-Within heads {n} {c} o v e =
    nearer v ((far c.place).0 (when-eq e).0) (omega arith) (loop_head-Within c v.asked)
      (when-eq e).1
step-Within (selects signalled) {n} {c} o v e =
    nearer v ((far c.place).1 (and_left _ _ (when-eq e).0)) (omega arith)
      (select_returns-Within c signalled v.asked) (when-eq e).1
step-Within (receives answer) {n} {c} o v e =
    nearer v ((far c.place).2 (and_left _ _ (when-eq e).0)) (omega arith)
      (receive-Within c answer v.asked) (when-eq e).1
step-Within (sends_part answer) {n} {c} o v e =
    nearer v ((far c.place).3 (and_left _ _ (when-eq e).0)) (omega arith)
      (send_part-Within c answer v.asked) (when-eq e).1
step-Within returns {n} {c} o v e =
    let (l, w) = delegate_returns-Within c n (when-eq e).0 v in
    (l, subst (Within (n - 1)) (when-eq e).1 w)
step-Within (enqueues message) o v e = cc
step-Within stops o v e = cc
step-Within (closes clean) o v e = cc

pub finished-cases : (p : Place) → (p ≡ finished) ⊎ (p ≢ finished)
finished-cases finished = inl refl
finished-cases not_started = inr (λ e. cc)
finished-cases at_top = inr (λ e. cc)
finished-cases selecting = inr (λ e. cc)
finished-cases receiving = inr (λ e. cc)
finished-cases sending = inr (λ e. cc)
finished-cases in_message = inr (λ e. cc)
finished-cases in_broken_eof = inr (λ e. cc)
finished-cases in_broken_last = inr (λ e. cc)
finished-cases in_broken_close = inr (λ e. cc)
finished-cases crashed = inr (λ e. cc)

-- The thread can do some piece of work without the help of the peer.
abbrev pub CanGo : Connection → Type 0
CanGo c = (a : Action) × (c' : Connection) × (is_unaided a ≡ true) × (step c a ≡ some c')

can_go : {n : ℕ} (c : Connection) → c.place ≢ finished → c.place ≢ crashed → Within n c → CanGo c
unfolding step is_at_top is_selecting is_receiving is_sending is_in_delegate recv_can send_can
    joinable select_can
can_go c f x v = go_on c.place refl
  where
    go_on : (p : Place) → c.place ≡ p → CanGo c
    go_on not_started e = absurd (ground (arith, v.there))
    go_on at_top e = (heads, loop_head c, refl, ground arith)
    go_on selecting e = (selects true, select_returns c true, refl, ground (arith, v.awake))
    go_on receiving e = (receives Received.failed, receive c Received.failed, refl, ground arith)
    go_on sending e = (sends_part Sent.failed, send_part c Sent.failed, refl, ground arith)
    go_on in_message e = (returns, delegate_returns c, refl, ground arith)
    go_on in_broken_eof e = (returns, delegate_returns c, refl, ground arith)
    go_on in_broken_last e = (returns, delegate_returns c, refl, ground arith)
    go_on in_broken_close e = (returns, delegate_returns c, refl, ground arith)
    go_on finished e = absurd (f e)
    go_on crashed e = absurd (x e)

run-Within :
    (actions : List Action) {n : ℕ} {c c' : Connection}
    → all_own actions ≡ true
    → Within n c
    → run c actions ≡ some c'
    → (length actions + distance c'.place ≤ n) × Within n c'
unfolding run
run-Within [] {n} o v e =
    let w = subst (Within n) (some-injective _ _ e) v in (omega (arith, w.near), w)
run-Within (a ∷ rest) {n} {c} o v e = elim (Option-cases (step c a)) [
  | inl f ↦ let z = rw (f, run) at e in cc (z)
  | inr (c₁, f) ↦
      let (l, w) = step-Within a (and_left _ _ o) v f in
      let (k, j) = run-Within rest (and_right _ _ o) w (rw (f, run) at e) in
      (omega (arith, k, l), Within-more (omega arith) j)
]

pub asked-Within :
    (c : Connection)
    → joinable c.place ≡ true
    → Within 6 (close_stop c immediate_and_stop_processor)
unfolding close_stop distance joinable is_selecting
asked-Within c j = ground arith

pub given_by-own : (actions : List Action) → all_own actions ≡ true → given_by actions ≡ []
given_by-own [] o = refl
given_by-own (heads ∷ rest) o = given_by-own rest o
given_by-own (selects signalled ∷ rest) o = given_by-own rest o
given_by-own (receives answer ∷ rest) o = given_by-own rest o
given_by-own (sends_part answer ∷ rest) o = given_by-own rest o
given_by-own (returns ∷ rest) o = given_by-own rest o
given_by-own (enqueues message ∷ rest) o = cc
given_by-own (stops ∷ rest) o = cc
given_by-own (closes clean ∷ rest) o = cc

-- Once an immediate `Close` has asked the started thread of a connection to stop (with both
-- delegates, in a state that `run-Streams` and `run-Told` describe), the thread does at most six
-- more pieces of work of its own with no client between, wherever it stands and whatever the
-- operating system answers; and until it has ended there is one that it can do with no help of the
-- peer, where delegates return: it does not wait in `select` with its signal not set.
pub stopped_thread_goes_to_its_end :
    {g : Buffer} (c : Connection) (actions : List Action) {c' : Connection}
    → Streams g c
    → Told c
    → joinable c.place ≡ true
    → all_own actions ≡ true
    → run c (stops ∷ actions) ≡ some c'
    → (length actions ≤ 6) × ((c'.place ≡ finished) ⊎ CanGo c')
unfolding run step
stopped_thread_goes_to_its_end c actions {c'} w v j o e =
    let (l, t) = run-Within actions o (asked-Within c j) e in
    let told =
      run-Told (stops ∷ actions) w v (omega (arith, w.small, ap length (given_by-own actions o)))
        e in
    (
      omega (arith, l),
      elim (finished-cases c'.place) [ inl f ↦ inl f | inr f ↦ inr (can_go c' f told.alive t) ],
    )
