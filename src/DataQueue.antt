-- ===== src/DataQueue.antt =====
-- src/DataQueue.cpp: a queue of byte buffers, filled and emptied in pieces of any size.
pub mod Bytes
pub mod Loop
pub mod Refine
pub mod Run
mod Tests
use system_abstractions.Base.{
  ℕ, zero, suc, ◌+◌, min, Bool, true, false, ◌&&◌, List, [], ◌∷◌, ◌++◌, Option, none, some, length,
  take, drop, ◌==◌, leb, ltb, if◌then◌else◌, add_size, sub_size,
}

-- `Buffer`: bytes are only moved, never computed with, so a byte is any number.
abbrev pub Buffer : Type 0
Buffer = List ℕ

pub record Element : Type 0 where
  pub buf : Buffer
  pub consumed : ℕ

-- `DataQueue::Impl`
pub record DataQueue : Type 0 where
  pub elements : List Element
  pub total_bytes : ℕ

-- The variables of the loop of `Impl::Dequeue`. The iterator `nextElement` stands between the
-- elements that it has passed and those ahead of it.
pub record Cursor : Type 0 where
  pub passed : List Element
  pub ahead : List Element
  pub buffer : Buffer
  pub left : ℕ
  pub total : ℕ

unfoldable pub is_empty : Buffer → Bool
is_empty [] = true
is_empty (x ∷ xs) = false

-- The test of the loop's first branch: the element is whole, and is all that is still wanted.
unfoldable pub is_whole : Element → Cursor → Bool
unfolding is_empty
is_whole e c = e.consumed == 0 && length e.buf == c.left && is_empty c.buffer

-- The first branch, which ends the loop. What is moved out of an element is erased with it.
unfoldable pub take_whole : Bool → Bool → Element → List Element → Cursor → Cursor
take_whole return_data remove_data e es c = record c {
  buffer = if return_data then e.buf else c.buffer;
  ahead = if remove_data then es else e ∷ es;
  total = if remove_data then sub_size c.total c.left else c.total;
}

-- The rest of the loop's body, with `n` for `bytesToConsume`.
unfoldable pub take_part : Bool → Bool → Element → List Element → ℕ → Cursor → Cursor
take_part return_data true e es n c = record c {
  buffer = if return_data then c.buffer ++ take n (drop e.consumed e.buf) else c.buffer;
  left = sub_size c.left n;
  total = sub_size c.total n;
  ahead =
      if leb (length e.buf) (add_size e.consumed n)
      then es
      else record e { consumed = add_size e.consumed n } ∷ es;
}
take_part return_data false e es n c = record c {
  buffer = if return_data then c.buffer ++ take n (drop e.consumed e.buf) else c.buffer;
  left = sub_size c.left n;
  passed = if leb (length e.buf) (add_size e.consumed n) then c.passed ++ (e ∷ []) else c.passed;
  ahead = if leb (length e.buf) (add_size e.consumed n) then es else e ∷ es;
}

unfoldable pub bytes_to_consume : Element → Cursor → ℕ
bytes_to_consume e c = min c.left (sub_size (length e.buf) e.consumed)

-- One round at the element `e`: the cursor, and whether the loop goes on.
unfoldable pub round : Bool → Bool → Element → List Element → Cursor → Cursor × Bool
round return_data remove_data e es c =
    if is_whole e c
    then (take_whole return_data remove_data e es c, false)
    else (take_part return_data remove_data e es (bytes_to_consume e c) c, true)

-- The round at the iterator. `none`: the iterator is at the end of the queue.
unfoldable pub round_at : Bool → Bool → List Element → Cursor → Option (Cursor × Bool)
round_at return_data remove_data [] c = none
round_at return_data remove_data (e ∷ es) c = some (round return_data remove_data e es c)

-- `while (bytesLeftFromQueue > 0)`, on fuel. `none` is fuel that ran out, or a round at the end of
-- the queue.
unfoldable pub dequeue_loop : ℕ → Bool → Bool → Cursor → Option Cursor
dequeue_loop zero return_data remove_data c = none
dequeue_loop (suc fuel) return_data remove_data c = elim (ltb 0 c.left) [
  | false ↦ some c
  | true ↦ elim (round_at return_data remove_data c.ahead c) [
    | none ↦ none
    | some (c', more) ↦ elim more [
      | true ↦ dequeue_loop fuel return_data remove_data c'
      | false ↦ some c'
    ]
  ]
]

-- `begin()`, and `std::min(numBytesRequested, totalBytes)`
unfoldable pub start : DataQueue → ℕ → Cursor
start q n = record {
  passed = [];
  ahead = q.elements;
  buffer = [];
  left = min n q.total_bytes;
  total = q.total_bytes;
}

-- The queue that the loop leaves behind.
abbrev pub rest_of : Cursor → DataQueue
rest_of c = record { elements = c.passed ++ c.ahead; total_bytes = c.total }

-- `Impl::Dequeue`. Each round passes an element or is the last, so the fuel is a round for each
-- element and the test that ends the loop.
unfoldable pub dequeue_impl : DataQueue → ℕ → Bool → Bool → Option (Buffer × DataQueue)
dequeue_impl q n return_data remove_data =
    elim (dequeue_loop (length q.elements + 1) return_data remove_data (start q n)) [
      | none ↦ none
      | some c ↦ some (c.buffer, rest_of c)
    ]

unfoldable pub new : DataQueue
new = record { elements = []; total_bytes = 0 }

-- Both overloads: the element holds a copy of the bytes, or the bytes themselves.
unfoldable pub enqueue : DataQueue → Buffer → DataQueue
enqueue q bytes = record {
  total_bytes = add_size q.total_bytes (length bytes);
  elements = q.elements ++ (record { buf = bytes; consumed = 0 } ∷ []);
}

unfoldable pub dequeue : DataQueue → ℕ → Option (Buffer × DataQueue)
dequeue q n = dequeue_impl q n true true

unfoldable pub peek : DataQueue → ℕ → Option (Buffer × DataQueue)
peek q n = dequeue_impl q n true false

unfoldable pub remove : DataQueue → ℕ → Option DataQueue
remove q n = elim (dequeue_impl q n false true) [ none ↦ none | some (b, q') ↦ some q' ]

unfoldable pub get_buffers_queued : DataQueue → ℕ
get_buffers_queued q = length q.elements

unfoldable pub get_bytes_queued : DataQueue → ℕ
get_bytes_queued q = q.total_bytes
