-- ===== src/Diagnostics/Sender.antt =====
-- src/DiagnosticsSender.cpp. Each method locks the sender's mutex for all of its work, so a call is
-- one step; texts are lists of bytes, and a delegate is the number of the function to call.
pub mod Subscribers
pub mod Invariant
pub mod Sending
pub use system_abstractions.Base.{Text, text}
use system_abstractions.Base.{
  ℕ, suc, ◌+◌, min, Bool, true, false, List, [], ◌∷◌, ◌++◌, Option, none, some, ltb, leb, ◌==◌,
  if◌then◌else◌, add_uint, size_max,
}

pub record Subscription : Type 0 where
  pub delegate : ℕ
  pub min_level : ℕ

-- `std::map< SubscriptionToken, Subscription >`: the entries in the order of their tokens.
abbrev pub Subscribers : Type 0
Subscribers = List (ℕ × Subscription)

-- `subscribers[token] = subscription`
unfoldable pub assign : ℕ → Subscription → Subscribers → Subscribers
assign t s [] = (t, s) ∷ []
assign t s ((u, r) ∷ m) =
    if t == u then (t, s) ∷ m else if ltb t u then (t, s) ∷ (u, r) ∷ m else (u, r) ∷ assign t s m

unfoldable pub find : ℕ → Subscribers → Option Subscription
find t [] = none
find t ((u, r) ∷ m) = if t == u then some r else find t m

unfoldable pub erase : ℕ → Subscribers → Subscribers
erase t [] = []
erase t ((u, r) ∷ m) = if t == u then m else (u, r) ∷ erase t m

-- `DiagnosticsSender::Impl`
pub record Sender : Type 0 where
  pub name : Text
  pub subscribers : Subscribers
  pub next_subscription_token : ℕ
  pub min_level : ℕ
  pub context_stack : List Text

-- A call of a delegate.
pub record Delivery : Type 0 where
  pub delegate : ℕ
  pub sender_name : Text
  pub level : ℕ
  pub message : Text

unfoldable pub new : Text → Sender
new name = record {
  name = name;
  subscribers = [];
  next_subscription_token = 1;
  min_level = size_max;
  context_stack = [];
}

-- The new subscription's token stands for the function that ends it.
unfoldable pub subscribe : Sender → ℕ → ℕ → Sender × ℕ
subscribe s delegate min_level = (
  record s {
    subscribers =
        assign s.next_subscription_token (record { delegate = delegate; min_level = min_level })
          s.subscribers;
    next_subscription_token = add_uint s.next_subscription_token 1;
    min_level = min s.min_level min_level;
  },
  s.next_subscription_token,
)

-- The loop that takes the minimum over the subscribers that are left.
unfoldable pub least_from : ℕ → Subscribers → ℕ
least_from acc [] = acc
least_from acc ((t, s) ∷ m) = least_from (min acc s.min_level) m

-- The function that `SubscribeToDiagnostics` returns, while the sender lives.
unfoldable pub unsubscribe : Sender → ℕ → Sender
unsubscribe s token = elim (find token s.subscribers) [
  | none ↦ s
  | some old ↦
      if old.min_level == s.min_level
      then record s {
        subscribers = erase token s.subscribers;
        min_level = least_from size_max (erase token s.subscribers);
      }
      else record s { subscribers = erase token s.subscribers }
]

-- The same behind the weak pointer: `none` is a sender that was destroyed.
unfoldable pub unsubscribe_weak : Option Sender → ℕ → Option Sender
unsubscribe_weak none token = none
unsubscribe_weak (some s) token = some (unsubscribe s token)

-- `contextChain`
unfoldable pub chain_from : Text → List Text → Text
chain_from acc [] = acc
chain_from acc (c ∷ cs) = chain_from (acc ++ (c ++ text ": ")) cs

unfoldable pub with_context : List Text → Text → Text
with_context [] message = message
with_context (c ∷ cs) message = chain_from [] (c ∷ cs) ++ message

-- The loop that calls the delegates.
unfoldable pub deliver : Text → ℕ → Text → Subscribers → List Delivery
deliver name level message [] = []
deliver name level message ((t, s) ∷ m) =
    if leb s.min_level level
    then record { delegate = s.delegate; sender_name = name; level = level; message = message }
      ∷ deliver name level message m
    else deliver name level message m

-- `SendDiagnosticInformationString`, by the calls that it makes.
unfoldable pub send : Sender → ℕ → Text → List Delivery
send s level message =
    if ltb level s.min_level
    then []
    else deliver s.name level (with_context s.context_stack message) s.subscribers

-- `SendDiagnosticInformationFormatted`: the text is made by `vsprintf` of StringExtensions, from
-- what the caller gave, and only where somebody listens.
unfoldable pub send_formatted {ℓ} : {A : Type ℓ} → (A → Text) → Sender → ℕ → A → List Delivery
send_formatted vsprintf s level args =
    if ltb level s.min_level then [] else send s level (vsprintf args)

-- The delegate that `Chain` returns, called for a message of another sender.
unfoldable pub chain : Option Sender → Text → ℕ → Text → List Delivery
chain none sender_name level message = []
chain (some s) sender_name level message = send s level (sender_name ++ (text ": " ++ message))

unfoldable pub get_min_level : Sender → ℕ
get_min_level s = s.min_level

unfoldable pub push_context : Sender → Text → Sender
push_context s context = record s { context_stack = s.context_stack ++ (context ∷ []) }

-- `pop_back()`, which is undefined on an empty stack.
unfoldable pub drop_last : List Text → Option (List Text)
drop_last [] = none
drop_last (c ∷ []) = some []
drop_last (c ∷ d ∷ cs) = elim (drop_last (d ∷ cs)) [ none ↦ none | some r ↦ some (c ∷ r) ]

unfoldable pub pop_context : Sender → Option Sender
pop_context s = elim (drop_last s.context_stack) [
  | none ↦ none
  | some cs ↦ some (record s { context_stack = cs })
]
