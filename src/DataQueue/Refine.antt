-- ===== src/DataQueue/Refine.antt =====
-- The queue of `src/DataQueue.cpp` behaves as the plain sequence of the bytes that it holds.
use system_abstractions.Base.{
  ℕ, ◌+◌, ◌≡◌, ap, ap₂, ◌∙◌, Bool, true, false, [], some, min, arith, length, length-drop, take,
  drop, take-min, drop-min,
}
use system_abstractions.DataQueue.{
  DataQueue, Cursor, start, rest_of, dequeue_impl, dequeue, peek, remove,
}
use system_abstractions.DataQueue.Bytes.{contents, IsValid}
use system_abstractions.DataQueue.Loop.{Ready, Ends, collected}
use system_abstractions.DataQueue.Loop.Total.{Runs, loop-Runs}

module _ {q : DataQueue} (n : ℕ) (v : IsValid q) where
  start-Ready : Ready (start q n)
  unfolding start
  start-Ready = record {
    behind = tt;
    before = v.fits;
    enough = omega arith;
    within = omega arith;
    small = v.small;
  }

  start-Runs : (rd rm : Bool) → Runs (length q.elements + 1) rd rm (start q n)
  unfolding start
  start-Runs rd rm =
      loop-Runs rd rm q.elements (length q.elements + 1) [] [] (min n q.total_bytes) q.total_bytes
        (omega arith) start-Ready

  -- The run of `Impl::Dequeue`, by the cursor at which its loop ends.
  impl-Ends :
      (rd rm : Bool)
      → (r : Cursor) × (dequeue_impl q n rd rm ≡ some (r.buffer, rest_of r))
        × Ends rd rm (start q n) r
  unfolding dequeue_impl
  impl-Ends rd rm = let (r, e, ends) = start-Runs rd rm in (r, rw (e, dequeue_impl), ends)

  take-start : collected true (start q n) ≡ take n (contents q)
  unfolding start
  take-start = ap (λ k. take (min n k) (contents q)) v.counted ∙ take-min n (contents q)

  drop-start : drop (start q n).left (contents q) ≡ drop n (contents q)
  unfolding start
  drop-start = ap (λ k. drop (min n k) (contents q)) v.counted ∙ drop-min n (contents q)

  rest-IsValid : {r : Cursor} (rd : Bool) → Ends rd true (start q n) r → IsValid (rest_of r)
  unfolding start
  rest-IsValid rd e = record {
    fits = e.fits;
    counted =
        omega (arith, ap length (e.leaves.0 ∙ drop-start), length-drop n (contents q), e.leaves.1);
    small = omega arith;
  }

  -- `Dequeue` of a valid queue hands over its first `n` bytes, or all where there are fewer,
  -- removes exactly those, and leaves a valid queue; its loop ends and stays inside the queue.
  pub dequeue_lem :
      (q' : DataQueue) × (dequeue q n ≡ some (take n (contents q), q'))
      × (contents q' ≡ drop n (contents q))
      × IsValid q'
  unfolding dequeue start
  dequeue_lem =
      let (r, e, ends) = impl-Ends true true in
      (
        rest_of r,
        e ∙ ap (λ b. some (b, rest_of r)) (ends.collects ∙ take-start),
        ends.leaves.0 ∙ drop-start,
        rest-IsValid true ends,
      )

  -- `Peek` of a valid queue hands over a copy of the bytes that `Dequeue` would, and leaves the
  -- queue as it is.
  pub peek_lem : peek q n ≡ some (take n (contents q), q)
  unfolding peek start
  peek_lem =
      let (r, e, ends) = impl-Ends true false in
      e
      ∙ ap₂ (λ b r'. some (b, r')) (ends.collects ∙ take-start)
          (λ i. record { elements = ends.leaves.0 i; total_bytes = ends.leaves.1 i })

  -- `Drop` of a valid queue removes the bytes that `Dequeue` would hand over and leaves a valid
  -- queue.
  pub remove_lem :
      (q' : DataQueue) × (remove q n ≡ some q') × (contents q' ≡ drop n (contents q)) × IsValid q'
  unfolding remove start
  remove_lem =
      let (r, e, ends) = impl-Ends false true in
      (rest_of r, rw (e, remove), ends.leaves.0 ∙ drop-start, rest-IsValid false ends)
