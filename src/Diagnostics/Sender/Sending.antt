-- ===== src/Diagnostics/Sender/Sending.antt =====
-- Who gets a message of src/DiagnosticsSender.cpp, and with what text.
use system_abstractions.Base.{
  ℕ, ◌<◌, ◌≡◌, refl, sym, ap, ◌∙◌, inl, inr, Bool-cases, ltb→lt, List, [], ◌∷◌, ◌++◌, map, some,
  arith, ltb, leb, if◌then◌else◌, append_assoc, append-nil,
}
use system_abstractions.Diagnostics.Sender.{
  Text, text, Subscription, Subscribers, Sender, Delivery, deliver, send, send_formatted, chain,
  chain_from, with_context,
}
use system_abstractions.Diagnostics.Sender.Subscribers.{least}
use system_abstractions.Diagnostics.Sender.Invariant.{IsValid}

-- The subscribers that ask for messages of a level, in the order of their tokens.
unfoldable pub receivers : ℕ → Subscribers → List Subscription
receivers level [] = []
receivers level ((t, s) ∷ m) =
    if leb s.min_level level then s ∷ receivers level m else receivers level m

-- The contexts from the outermost on, each with its colon.
unfoldable pub prefix : List Text → Text
prefix [] = []
prefix (c ∷ cs) = c ++ (text ": " ++ prefix cs)

-- The call of one subscriber.
abbrev pub delivery : Sender → ℕ → Text → Subscription → Delivery
delivery s level message r = record {
  delegate = r.delegate;
  sender_name = s.name;
  level = level;
  message = message;
}

chain_from-prefix : (acc : Text) (cs : List Text) → chain_from acc cs ≡ acc ++ prefix cs
unfolding chain_from prefix
chain_from-prefix acc [] = sym (append-nil acc)
chain_from-prefix acc (c ∷ cs) =
    chain_from-prefix (acc ++ (c ++ text ": ")) cs
    ∙ append_assoc acc (c ++ text ": ") (prefix cs)
    ∙ ap (λ xs. acc ++ xs) (append_assoc c (text ": ") (prefix cs))

pub with_context-prefix :
    (cs : List Text) (message : Text) → with_context cs message ≡ prefix cs ++ message
unfolding with_context prefix
with_context-prefix [] message = refl
with_context-prefix (c ∷ cs) message = ap (λ xs. xs ++ message) (chain_from-prefix [] (c ∷ cs))

deliver-receivers :
    (s : Sender) (level : ℕ) (message : Text) (m : Subscribers)
    → deliver s.name level message m ≡ map (delivery s level message) (receivers level m)
unfolding deliver receivers
deliver-receivers s level message [] = refl
deliver-receivers s level message ((t, r) ∷ m) = ground (arith, deliver-receivers s level message m)

-- Nobody asks for a message below the least level.
receivers-below : (level : ℕ) (m : Subscribers) → level < least m → receivers level m ≡ []
unfolding receivers
receivers-below level [] h = refl
receivers-below level ((t, r) ∷ m) h = ground (arith, receivers-below level m)

-- A valid sender calls exactly the subscribers that ask for the level of a message, in the order
-- of their subscriptions, each once, with its own name and all contexts in front of the message;
-- the early test of the least level changes nothing.
pub send_lem :
    {s : Sender} (level : ℕ) (message : Text)
    → IsValid s
    → send s level message
      ≡ map (delivery s level (prefix s.context_stack ++ message)) (receivers level s.subscribers)
unfolding send
send_lem {s} level message v = elim (Bool-cases (ltb level s.min_level)) [
  | inl b ↦ rw (b, receivers-below level s.subscribers (omega (arith, ltb→lt level s.min_level b)))
  | inr b ↦
      rw (b, with_context-prefix s.context_stack message)
        (deliver-receivers s level (prefix s.context_stack ++ message) s.subscribers)
]

-- The formatted call makes the deliveries of the plain call with the formatted text: its early
-- test of the level changes nothing.
pub send_formatted_lem {ℓ} :
    {A : Type ℓ} (vsprintf : A → Text) (s : Sender) (level : ℕ) (args : A)
    → send_formatted vsprintf s level args ≡ send s level (vsprintf args)
unfolding send_formatted send
send_formatted_lem vsprintf s level args = ground arith

-- A valid chained sender passes a message on to its own subscribers of that level, with its own
-- name and contexts, and the name of the sender that the message came from in front of the
-- message.
pub chain_lem :
    {s : Sender} (sender_name : Text) (level : ℕ) (message : Text)
    → IsValid s
    → chain (some s) sender_name level message
      ≡ map
          (delivery s level (prefix s.context_stack ++ (sender_name ++ (text ": " ++ message))))
          (receivers level s.subscribers)
unfolding chain
chain_lem sender_name level message v = send_lem level (sender_name ++ (text ": " ++ message)) v
