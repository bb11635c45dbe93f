-- ===== src/Diagnostics/Tests.antt =====
-- Runs of the diagnostics at concrete inputs.

use system_abstractions.Base.{◌≡◌, refl, List, [], ◌∷◌, ◌++◌, map, some, arith}
use system_abstractions.Diagnostics.Sender.{
  text, Sender, subscribe, unsubscribe, send, assign, find, erase, deliver, with_context,
  chain_from, least_from, push_context, pop_context, drop_last,
}
use system_abstractions.Diagnostics.Sender.Invariant.{
  IsValid, Call, subscribes, unsubscribes, pushes, pops, run, step, run-IsValid,
}
use system_abstractions.Diagnostics.Sender.Sending.{receivers, prefix, delivery, send_lem}
use system_abstractions.Diagnostics.Context
use system_abstractions.Diagnostics.Context.{Block, finish, sends, nested, run_lem}
use system_abstractions.Diagnostics.Reporter.{report, digits, decimal, c_str, prefix_of}

-- Two subscribers: one for all messages, one for errors; a context is on.
abbrev busy : Sender
busy = record {
  name = text "foo";
  subscribers =
      (1, record { delegate = 7; min_level = 0 })
      ∷ (2, record { delegate = 8; min_level = 10 })
      ∷ [];
  next_subscription_token = 3;
  min_level = 0;
  context_stack = text "bar" ∷ [];
}

busy-IsValid : IsValid busy
busy-IsValid = omega arith

abbrev calls : List Call
calls = subscribes 9 5 ∷ unsubscribes 1 ∷ pushes (text "spam") ∷ pops ∷ unsubscribes 1 ∷ []

send-busy :
    send busy 3 (text "hi")
    ≡ record { delegate = 7; sender_name = text "foo"; level = 3; message = text "bar: hi" } ∷ []
unfolding send deliver with_context chain_from
send-busy = refl

after_calls : Sender
after_calls = record busy {
  subscribers =
      (2, record { delegate = 8; min_level = 10 })
      ∷ (3, record { delegate = 9; min_level = 5 })
      ∷ [];
  next_subscription_token = 4;
  min_level = 5;
}

run-calls : run busy calls ≡ some after_calls
unfolding run step subscribe unsubscribe assign find erase least_from push_context pop_context
    drop_last after_calls
run-calls = refl

run-IsValid_example : IsValid after_calls
run-IsValid_example =
    run-IsValid calls {s = busy} {s' = after_calls} busy-IsValid (omega arith) (omega arith)
      run-calls

send_lem_example :
    send busy 3 (text "hi")
    ≡ map (delivery busy 3 (prefix busy.context_stack ++ text "hi")) (receivers 3 busy.subscribers)
send_lem_example = send_lem {s = busy} 3 (text "hi") busy-IsValid

abbrev block : Block
block =
    sends 3 (text "a") (nested (text "in") (sends 10 (text "b") finish) (sends 0 (text "c") finish))

run_lem_example :
    Context.run busy block ≡ some (Context.expected busy (text "bar" ∷ []) block, busy)
run_lem_example = run_lem block {s = busy} busy-IsValid

report-warning :
    (report (text "0.500000") (text "foo") 5 (text "hi")).line
    ≡ text "[0.500000 foo:5] warning: hi" ++ (10 ∷ [])
unfolding report decimal digits c_str prefix_of
report-warning = refl
