-- ===== src/DataQueue/Run.antt =====
-- A client's calls of `src/DataQueue.cpp` in order, beside the same calls of a plain byte sequence.
use system_abstractions.Base.{
  ℕ, ◌+◌, ◌<◌, ◌≡◌, refl, ap, ap₂, ◌∙◌, List, [], ◌∷◌, ◌++◌, Option, none, some, arith, length,
  length-drop, take, drop, size_mod,
}
use system_abstractions.DataQueue.{
  Buffer, DataQueue, enqueue, dequeue, peek, remove, get_bytes_queued,
}
use system_abstractions.DataQueue.Bytes.{contents, IsValid, contents-enqueue, enqueue-IsValid}
use system_abstractions.DataQueue.Refine.{dequeue_lem, peek_lem, remove_lem}

pub data Op : Type 0 where
  enqueues : Buffer → Op
  dequeues peeks drops : ℕ → Op
  counts : Op

pub data Reply : Type 0 where
  done : Reply
  bytes_of : Buffer → Reply
  size_of : ℕ → Reply

abbrev pub also : Reply → Option (List Reply) → Option (List Reply)
also r none = none
also r (some rs) = some (r ∷ rs)

-- The replies to the calls, `none` where one of them is undefined.
unfoldable pub run : DataQueue → List Op → Option (List Reply)
run q [] = some []
run q (enqueues b ∷ ops) = also done (run (enqueue q b) ops)
run q (dequeues n ∷ ops) = elim (dequeue q n) [
  | none ↦ none
  | some (b, q') ↦ also (bytes_of b) (run q' ops)
]
run q (peeks n ∷ ops) = elim (peek q n) [
  | none ↦ none
  | some (b, q') ↦ also (bytes_of b) (run q' ops)
]
run q (drops n ∷ ops) = elim (remove q n) [ none ↦ none | some q' ↦ also done (run q' ops) ]
run q (counts ∷ ops) = also (size_of (get_bytes_queued q)) (run q ops)

-- What a byte sequence answers.
unfoldable pub spec_run : Buffer → List Op → List Reply
spec_run bs [] = []
spec_run bs (enqueues b ∷ ops) = done ∷ spec_run (bs ++ b) ops
spec_run bs (dequeues n ∷ ops) = bytes_of (take n bs) ∷ spec_run (drop n bs) ops
spec_run bs (peeks n ∷ ops) = bytes_of (take n bs) ∷ spec_run bs ops
spec_run bs (drops n ∷ ops) = done ∷ spec_run (drop n bs) ops
spec_run bs (counts ∷ ops) = size_of (length bs) ∷ spec_run bs ops

-- The number of bytes that the calls enqueue.
abbrev pub enqueued : List Op → ℕ
enqueued [] = 0
enqueued (enqueues b ∷ ops) = length b + enqueued ops
enqueued (dequeues n ∷ ops) = enqueued ops
enqueued (peeks n ∷ ops) = enqueued ops
enqueued (drops n ∷ ops) = enqueued ops
enqueued (counts ∷ ops) = enqueued ops

total-enqueue :
    (q : DataQueue) (b : Buffer) (m : ℕ)
    → q.total_bytes + (length b + m) < size_mod
    → (enqueue q b).total_bytes + m < size_mod
unfolding enqueue
total-enqueue q b m h = omega arith

total-drop :
    {q q' : DataQueue} (n m : ℕ)
    → IsValid q
    → IsValid q'
    → contents q' ≡ drop n (contents q)
    → q.total_bytes + m < size_mod
    → q'.total_bytes + m < size_mod
total-drop {q} n m v v' e h = omega (arith, ap length e, length-drop n (contents q))

-- No sequence of calls of the queue (`Enqueue`, `Dequeue`, `Peek`, `Drop`, `GetBytesQueued`) tells
-- a valid queue from the plain sequence of its bytes, as long as the bytes held and still to be
-- enqueued are fewer than a `size_t` can count; no call is undefined.
pub run_refines :
    (ops : List Op) {q : DataQueue}
    → IsValid q
    → q.total_bytes + enqueued ops < size_mod
    → run q ops ≡ some (spec_run (contents q) ops)
unfolding run spec_run get_bytes_queued
run_refines [] v h = refl
run_refines (enqueues b ∷ ops) {q} v h = ap (also done) (
    run_refines ops (enqueue-IsValid b v (omega arith)) (total-enqueue q b (enqueued ops) h)
    ∙ ap (λ bs. some (spec_run bs ops)) (contents-enqueue q b))
run_refines (dequeues n ∷ ops) {q} v h =
    let (q', e, c, v') = dequeue_lem n v in
    rw (e, run)
      (ap (also (bytes_of (take n (contents q)))) (
        run_refines ops v' (total-drop n (enqueued ops) v v' c h)
        ∙ ap (λ bs. some (spec_run bs ops)) c))
run_refines (peeks n ∷ ops) {q} v h =
    rw (peek_lem n v, run) (ap (also (bytes_of (take n (contents q)))) (run_refines ops v h))
run_refines (drops n ∷ ops) {q} v h =
    let (q', e, c, v') = remove_lem n v in
    rw (e, run)
      (ap (also done) (
        run_refines ops v' (total-drop n (enqueued ops) v v' c h)
        ∙ ap (λ bs. some (spec_run bs ops)) c))
run_refines (counts ∷ ops) {q} v h = ap₂ (λ k. also (size_of k)) v.counted (run_refines ops v h)
