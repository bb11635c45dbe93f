-- ===== src/Diagnostics/Sender/Invariant.antt =====
-- What holds of a sender of src/DiagnosticsSender.cpp after any history of calls.
use mathlib.Core.Path.{subst}
use mathlib.Core.Option.{some-injective}
use system_abstractions.Base.{
  ℕ, ◌+◌, ◌^◌, ◌≤◌, ◌<◌, ◌≡◌, refl, ap, ◌∙◌, inl, inr, Bool-cases, Option-cases, List, [], ◌∷◌,
  ◌++◌, Option, none, some, arith, ◌==◌, ==_iff, if◌then◌else◌, size_max, add_uint,
}
use system_abstractions.Diagnostics.Sender.{
  Text, Subscription, Subscribers, Sender, new, subscribe, unsubscribe, push_context, pop_context,
  find, erase,
}
use system_abstractions.Diagnostics.Sender.Subscribers.{
  Rising, AllBelow, least, least_from-least, assign_last, Rising-append, AllBelow-append,
  least-append, least-le, erase-Rising, erase-AllBelow, least-erase, find-erase,
}

-- The map is in order, every token in it was given out before, and `minLevel` is the least level
-- that a subscriber asks for.
pub record IsValid (s : Sender) : Type 0 where
  pub rising : Rising 0 s.subscribers
  pub given_out : AllBelow s.next_subscription_token s.subscribers
  pub least_right : s.min_level ≡ least s.subscribers

pub new-IsValid : (name : Text) → IsValid (new name)
unfolding new
new-IsValid name = record { rising = tt; given_out = tt; least_right = refl }

-- Until the tokens run out, a subscription is a new entry behind the others.
pub subscribers-subscribe :
    {s : Sender} (delegate level : ℕ)
    → IsValid s
    → (subscribe s delegate level).0.subscribers
      ≡ s.subscribers
        ++ ((s.next_subscription_token, record { delegate = delegate; min_level = level }) ∷ [])
unfolding subscribe
subscribers-subscribe {s} delegate level v =
    assign_last s.next_subscription_token _ s.subscribers v.given_out

-- `SubscribeToDiagnostics` keeps the invariant, as long as a token is left.
pub subscribe-IsValid :
    {s : Sender} (delegate level : ℕ)
    → IsValid s
    → level ≤ size_max
    → s.next_subscription_token + 1 < 2 ^ 32
    → IsValid (subscribe s delegate level).0
unfolding subscribe
subscribe-IsValid {s} delegate level v l r =
    let entry : Subscription = record { delegate = delegate; min_level = level } in
    let t : ℕ = s.next_subscription_token in
    let e : add_uint t 1 ≡ t + 1 = omega arith in
    let same = assign_last t entry s.subscribers v.given_out in
    record {
      rising = rw same (Rising-append 0 t entry s.subscribers (omega arith) v.rising v.given_out);
      given_out =
          rw (same, e) (AllBelow-append (t + 1) t entry s.subscribers (omega arith) v.given_out);
      least_right = rw same (omega (arith, v.least_right, least-append t entry s.subscribers l));
    }

-- The function that ends a subscription keeps the invariant of a sender for any token, so called
-- once or more often.
pub unsubscribe-IsValid : {s : Sender} (token : ℕ) → IsValid s → IsValid (unsubscribe s token)
unfolding unsubscribe
unsubscribe-IsValid {s} token v = elim (Option-cases (find token s.subscribers)) [
  | inl e ↦ rw (e, unsubscribe) v
  | inr (old, e) ↦ elim (Bool-cases (old.min_level == s.min_level)) [
    | inl b ↦
        rw (e, unsubscribe)
          (rw b (record {
            rising = erase-Rising token 0 s.subscribers v.rising;
            given_out = erase-AllBelow token s.next_subscription_token s.subscribers v.given_out;
            least_right = omega (
              arith,
              least_from-least size_max (erase token s.subscribers),
              least-le (erase token s.subscribers),
            );
          }))
    | inr b ↦
        rw (e, unsubscribe)
          (rw b (record {
            rising = erase-Rising token 0 s.subscribers v.rising;
            given_out = erase-AllBelow token s.next_subscription_token s.subscribers v.given_out;
            least_right = ground (arith, v.least_right, least-erase token s.subscribers old e);
          }))
  ]
]

find_missing :
    (t u : ℕ) (m : Subscribers) → find t m ≡ none → find u m ≡ (if u == t then none else find u m)
find_missing t u m e = elim (Bool-cases (u == t)) [
  | inl b ↦ rw b (ap (λ k. find k m) ((==_iff u t).0 b) ∙ e)
  | inr b ↦ rw b
]

-- Ending a subscription of a valid sender takes away its own entry and no other, whatever the
-- levels are.
pub find-unsubscribe :
    {s : Sender} (token u : ℕ)
    → IsValid s
    → find u (unsubscribe s token).subscribers ≡ (if u == token then none else find u s.subscribers)
unfolding unsubscribe
find-unsubscribe {s} token u v = elim (Option-cases (find token s.subscribers)) [
  | inl e ↦ rw (e, unsubscribe) (find_missing token u s.subscribers e)
  | inr (old, e) ↦ elim (Bool-cases (old.min_level == s.min_level)) [
    | inl b ↦ rw (e, unsubscribe) (rw b (find-erase token u 0 s.subscribers v.rising))
    | inr b ↦ rw (e, unsubscribe) (rw b (find-erase token u 0 s.subscribers v.rising))
  ]
]

-- The calls that change a sender.
pub data Call : Type 0 where
  subscribes : ℕ → ℕ → Call
  unsubscribes : ℕ → Call
  pushes : Text → Call
  pops : Call

-- `none`: a context is popped that was not pushed.
unfoldable pub step : Sender → Call → Option Sender
step s (subscribes delegate level) = some (subscribe s delegate level).0
step s (unsubscribes token) = some (unsubscribe s token)
step s (pushes context) = some (push_context s context)
step s pops = pop_context s

unfoldable pub run : Sender → List Call → Option Sender
run s [] = some s
run s (c ∷ cs) = elim (step s c) [ none ↦ none | some s' ↦ run s' cs ]

-- The number of subscriptions made.
abbrev pub subscriptions : List Call → ℕ
subscriptions [] = 0
subscriptions (subscribes delegate level ∷ cs) = subscriptions cs + 1
subscriptions (unsubscribes token ∷ cs) = subscriptions cs
subscriptions (pushes context ∷ cs) = subscriptions cs
subscriptions (pops ∷ cs) = subscriptions cs

-- Every level asked for is a value of a `size_t`.
abbrev pub LevelsFit : List Call → Type 0
LevelsFit [] = Unit {0}
LevelsFit (subscribes delegate level ∷ cs) = (level ≤ size_max) × LevelsFit cs
LevelsFit (unsubscribes token ∷ cs) = LevelsFit cs
LevelsFit (pushes context ∷ cs) = LevelsFit cs
LevelsFit (pops ∷ cs) = LevelsFit cs

-- What one call leaves: a valid sender, with a token used for each subscription.
record Kept (cs : List Call) (s : Sender) : Type 0 where
  valid : IsValid s
  tokens : s.next_subscription_token + subscriptions cs < 2 ^ 32
  levels : LevelsFit cs

pop-Kept :
    (cs : List Call) {s s' : Sender} → Kept (pops ∷ cs) s → pop_context s ≡ some s' → Kept cs s'
unfolding pop_context
pop-Kept cs {s} k e = ground (arith, k.valid)

subscribe-tokens :
    (s : Sender) (delegate level n : ℕ)
    → s.next_subscription_token + (n + 1) < 2 ^ 32
    → (subscribe s delegate level).0.next_subscription_token + n < 2 ^ 32
unfolding subscribe
subscribe-tokens s delegate level n h = omega arith

unsubscribe-tokens :
    (s : Sender) (token : ℕ)
    → (unsubscribe s token).next_subscription_token ≡ s.next_subscription_token
unfolding unsubscribe
unsubscribe-tokens s token = ground arith

step-Kept :
    (c : Call) (cs : List Call) {s s' : Sender} → Kept (c ∷ cs) s → step s c ≡ some s' → Kept cs s'
unfolding step push_context
step-Kept (subscribes delegate level) cs {s} k e = subst (Kept cs) (some-injective _ _ e) (record {
  valid = subscribe-IsValid delegate level k.valid k.levels.0 (omega arith);
  tokens = subscribe-tokens s delegate level (subscriptions cs) k.tokens;
  levels = k.levels.1;
})
step-Kept (unsubscribes token) cs {s} k e = subst (Kept cs) (some-injective _ _ e) (record {
  valid = unsubscribe-IsValid token k.valid;
  tokens = omega (arith, unsubscribe-tokens s token, k.tokens);
  levels = k.levels;
})
step-Kept (pushes context) cs {s} k e = subst (Kept cs) (some-injective _ _ e) (record {
  valid = record {
    rising = k.valid.rising;
    given_out = k.valid.given_out;
    least_right = k.valid.least_right;
  };
  tokens = k.tokens;
  levels = k.levels;
})
step-Kept pops cs k e = pop-Kept cs k e

run-Kept : (cs : List Call) {s s' : Sender} → Kept cs s → run s cs ≡ some s' → IsValid s'
unfolding run
run-Kept [] {s} k e = subst IsValid (some-injective _ _ e) k.valid
run-Kept (c ∷ cs) {s} k e = elim (Option-cases (step s c)) [
  | inl f ↦ let z = rw (f, run) at e in cc (z)
  | inr (s₁, f) ↦ run-Kept cs (step-Kept c cs k f) (rw (f, run) at e)
]

-- No history of subscriptions, ends of subscriptions and contexts breaks the invariant of a sender
-- (tokens rising and given out before, `minLevel` the least level asked for), as long as fewer
-- subscriptions are made than there are tokens and levels are `size_t` values.
pub run-IsValid :
    (cs : List Call) {s s' : Sender}
    → IsValid s
    → s.next_subscription_token + subscriptions cs < 2 ^ 32
    → LevelsFit cs
    → run s cs ≡ some s'
    → IsValid s'
run-IsValid cs v t l e = run-Kept cs (record { valid = v; tokens = t; levels = l }) e
