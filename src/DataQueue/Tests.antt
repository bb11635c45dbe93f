-- ===== src/DataQueue/Tests.antt =====
-- Runs of the queue of src/DataQueue.cpp at concrete inputs.
use system_abstractions.Base.{◌≡◌, refl, List, [], ◌∷◌, some, arith}
use system_abstractions.DataQueue.{
  DataQueue, dequeue, peek, remove, enqueue, dequeue_impl, start, dequeue_loop, round_at, round,
  take_whole, take_part, is_whole, bytes_to_consume, get_bytes_queued,
}
use system_abstractions.DataQueue.Bytes.{IsValid}
use system_abstractions.DataQueue.Run.{
  Op, enqueues, dequeues, peeks, drops, counts, done, bytes_of, size_of, run, spec_run, run_refines,
}

-- One element that is partly consumed, an empty one, and a whole one.
abbrev mixed : DataQueue
mixed = record {
  elements =
      record { buf = 1 ∷ 2 ∷ 3 ∷ []; consumed = 1 }
      ∷ record { buf = []; consumed = 0 }
      ∷ record { buf = 4 ∷ 5 ∷ []; consumed = 0 }
      ∷ [];
  total_bytes = 4;
}

mixed-IsValid : IsValid mixed
mixed-IsValid = record { fits = omega arith; counted = refl; small = omega arith }

abbrev script : List Op
script = peeks 3 ∷ dequeues 1 ∷ enqueues (6 ∷ []) ∷ dequeues 3 ∷ counts ∷ drops 1 ∷ dequeues 9 ∷ []

dequeue-mixed :
    dequeue mixed 3
    ≡ some (
      2 ∷ 3 ∷ 4 ∷ [],
      record { elements = record { buf = 4 ∷ 5 ∷ []; consumed = 1 } ∷ []; total_bytes = 1 },
    )
unfolding dequeue dequeue_impl start dequeue_loop round_at round take_whole take_part is_whole
    bytes_to_consume
dequeue-mixed = refl

run-mixed :
    run mixed script
    ≡ some (
        bytes_of (2 ∷ 3 ∷ 4 ∷ [])
        ∷ bytes_of (2 ∷ [])
        ∷ done
        ∷ bytes_of (3 ∷ 4 ∷ 5 ∷ [])
        ∷ size_of 1
        ∷ done
        ∷ bytes_of []
        ∷ [])
unfolding run dequeue peek remove enqueue dequeue_impl start dequeue_loop round_at round take_whole
    take_part is_whole bytes_to_consume get_bytes_queued
run-mixed = refl

run_refines_example : run mixed script ≡ some (spec_run (2 ∷ 3 ∷ 4 ∷ 5 ∷ []) script)
run_refines_example = run_refines script {q = mixed} mixed-IsValid (omega arith)
