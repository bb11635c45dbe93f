-- ===== src/Diagnostics/Context.antt =====
-- src/DiagnosticsContext.cpp: a context stands on its sender from the construction of a
-- DiagnosticsContext to its destruction, which C++ nests.
use system_abstractions.Base.{
  ℕ, ◌≡◌, refl, ap, ap₂, ◌∙◌, List, [], ◌∷◌, ◌++◌, map, Option, none, some,
}
use system_abstractions.Diagnostics.Sender.{
  Text, Sender, Delivery, send, push_context, pop_context, drop_last,
}
use system_abstractions.Diagnostics.Sender.Sending.{prefix, receivers, delivery, send_lem}
use system_abstractions.Diagnostics.Sender.Invariant.{IsValid}

-- The constructor and the destructor.
unfoldable pub construct : Sender → Text → Sender
construct diagnostics_sender context = push_context diagnostics_sender context

unfoldable pub destruct : Sender → Option Sender
destruct diagnostics_sender = pop_context diagnostics_sender

-- A block of code: messages, and inner blocks that begin with a context.
pub data Block : Type 0 where
  finish : Block
  sends : ℕ → Text → Block → Block
  nested : Text → Block → Block → Block

-- The deliveries made so far go in front of those to come.
abbrev pub before :
    List Delivery → Option (List Delivery × Sender) → Option (List Delivery × Sender)
before ds none = none
before ds (some (es, s)) = some (ds ++ es, s)

-- Run a block, with the destructor at the end of each inner one.
unfoldable pub run : Sender → Block → Option (List Delivery × Sender)
run s finish = some ([], s)
run s (sends level message rest) = before (send s level message) (run s rest)
run s (nested context body rest) = elim (run (construct s context) body) [
  | none ↦ none
  | some (ds, s₁) ↦ elim (destruct s₁) [ none ↦ none | some s₂ ↦ before ds (run s₂ rest) ]
]

-- What a reader of the block expects: each message goes out with the contexts around it, `path`.
unfoldable pub expected : Sender → List Text → Block → List Delivery
expected s path finish = []
expected s path (sends level message rest) =
    map (delivery s level (prefix path ++ message)) (receivers level s.subscribers)
    ++ expected s path rest
expected s path (nested context body rest) =
    expected s (path ++ (context ∷ [])) body ++ expected s path rest

drop_last-append : (cs : List Text) (c : Text) → drop_last (cs ++ (c ∷ [])) ≡ some cs
unfolding drop_last
drop_last-append [] c = refl
drop_last-append (d ∷ []) c = refl
drop_last-append (d ∷ e ∷ cs) c = rw (drop_last-append (e ∷ cs) c)

-- A context that is taken away again leaves the sender as it was.
pub destruct-construct : (s : Sender) (context : Text) → destruct (construct s context) ≡ some s
unfolding destruct construct push_context pop_context
destruct-construct s context =
    rw (drop_last-append s.context_stack context, destruct, construct, push_context, pop_context)

construct-IsValid : {s : Sender} (context : Text) → IsValid s → IsValid (construct s context)
unfolding construct push_context
construct-IsValid context v = record {
  rising = v.rising;
  given_out = v.given_out;
  least_right = v.least_right;
}

expected-construct :
    (s : Sender) (context : Text) (path : List Text) (b : Block)
    → expected (construct s context) path b ≡ expected s path b
unfolding expected construct push_context
expected-construct s context path finish = refl
expected-construct s context path (sends level message rest) =
    ap (λ ds. map (delivery s level (prefix path ++ message)) (receivers level s.subscribers) ++ ds)
      (expected-construct s context path rest)
expected-construct s context path (nested c body rest) =
    ap₂ ◌++◌ (expected-construct s context (path ++ (c ∷ [])) body)
      (expected-construct s context path rest)

stack-construct :
    (s : Sender) (context : Text)
    → (construct s context).context_stack ≡ s.context_stack ++ (context ∷ [])
unfolding construct push_context
stack-construct s context = refl

run_nested :
    {s : Sender} (context : Text) (body rest : Block)
    → run (construct s context) body
      ≡ some (
        expected (construct s context) (construct s context).context_stack body,
        construct s context,
      )
    → run s rest ≡ some (expected s s.context_stack rest, s)
    → run s (nested context body rest)
      ≡ some (expected s s.context_stack (nested context body rest), s)
unfolding run expected
run_nested {s} context body rest inner outer =
    rw (inner, run, destruct-construct s context, outer)
      (ap (λ ds. some (ds ++ expected s s.context_stack rest, s))
        (expected-construct s context (construct s context).context_stack body
          ∙ ap (λ path. expected s path body) (stack-construct s context)))

-- A block of code with nested contexts never pops a context that it did not push, sends each
-- message with exactly the contexts around it, outermost first, and leaves a valid sender as it
-- found it.
pub run_lem :
    (b : Block) {s : Sender} → IsValid s → run s b ≡ some (expected s s.context_stack b, s)
unfolding run expected
run_lem finish v = refl
run_lem (sends level message rest) {s} v = rw (send_lem level message v, run_lem rest v)
run_lem (nested context body rest) {s} v =
    run_nested context body rest (run_lem body (construct-IsValid context v)) (run_lem rest v)
