-- ===== src/DataQueue/Loop.antt =====
-- The loop of `Impl::Dequeue`: what a round does, and what the whole loop is to do.
pub mod Rounds
pub mod Total
use native.Mathlib.Decide.{dec_lt}
use system_abstractions.Base.{
  ℕ, zero, suc, ◌+◌, ◌-◌, ◌≤◌, ◌<◌, ◌≡◌, refl, sym, ap, ap₂, ◌∙◌, inl, inr, Bool, true, false, List,
  [], ◌∷◌, ◌++◌, Option, some, append-nil, append_assoc, arith, length, length-append, take, drop,
  if◌then◌else◌, ltb, Bool-cases, size_mod, take-append_le, drop-append_le, take-append_ge,
  drop-append_ge, drop-drop, take_of_length-le, drop_of_length-le,
}
use system_abstractions.DataQueue.{
  Buffer, Element, Cursor, is_whole, take_whole, take_part, bytes_to_consume, round, round_at,
  dequeue_loop,
}
use system_abstractions.DataQueue.Bytes.{
  element_bytes, bytes, AllFit, bytes-append, AllFit-append, length-element_bytes,
  length-bytes-cons,
}

abbrev pub cursor : List Element → List Element → Buffer → ℕ → ℕ → Cursor
cursor p a b l t = record { passed = p; ahead = a; buffer = b; left = l; total = t }

pub record Ready (c : Cursor) : Type 0 where
  pub behind : AllFit c.passed
  pub before : AllFit c.ahead
  pub enough : c.left ≤ length (bytes c.ahead)
  pub within : c.left ≤ c.total
  pub small : c.total < size_mod

-- What the loop does to the queue, from the cursor `c` to the cursor `r` at which it ends.
abbrev pub Leaves : Bool → Cursor → Cursor → Type 0
Leaves true c r =
    (bytes (r.passed ++ r.ahead) ≡ bytes c.passed ++ drop c.left (bytes c.ahead))
    × (r.total ≡ c.total - c.left)
Leaves false c r = (r.passed ++ r.ahead ≡ c.passed ++ c.ahead) × (r.total ≡ c.total)

abbrev pub collected : Bool → Cursor → Buffer
collected true c = c.buffer ++ take c.left (bytes c.ahead)
collected false c = c.buffer

pub record Ends (return_data remove_data : Bool) (c r : Cursor) : Type 0 where
  pub collects : r.buffer ≡ collected return_data c
  pub leaves : Leaves remove_data c r
  pub fits : AllFit (r.passed ++ r.ahead)

-- The buffer after `n` more bytes of `e`.
abbrev pub part_buffer : Bool → Buffer → Element → ℕ → Buffer
part_buffer return_data b e n = if return_data then b ++ take n (element_bytes e) else b

-- The cursor after a round that ends inside `e`, and after one that ends behind it.
abbrev pub inside : Bool → Bool → List Element → Element → List Element → Buffer → ℕ → ℕ → Cursor
inside rd true p e es b l t =
    cursor p (record e { consumed = e.consumed + l } ∷ es) (part_buffer rd b e l) 0 (t - l)
inside rd false p e es b l t = cursor p (e ∷ es) (part_buffer rd b e l) 0 t

abbrev pub beyond :
    Bool → Bool → List Element → Element → List Element → Buffer → ℕ → ℕ → ℕ → Cursor
beyond rd true p e es b l t k = cursor p es (part_buffer rd b e k) (l - k) (t - k)
beyond rd false p e es b l t k = cursor (p ++ e ∷ []) es (part_buffer rd b e k) (l - k) t

module _ (rd : Bool) (p : List Element) (e : Element) (es : List Element) (b : Buffer)
    (l t : ℕ) where
  pub part-inside :
      (rm : Bool)
      → Ready (cursor p (e ∷ es) b l t)
      → l < length e.buf - e.consumed
      → take_part rd rm e es
          (bytes_to_consume e (cursor p (e ∷ es) b l t))
          (cursor p (e ∷ es) b l t)
        ≡ inside rd rm p e es b l t
  unfolding take_part bytes_to_consume
  part-inside true v h = ground arith
  part-inside false v h = ground arith

  pub part-beyond :
      (rm : Bool)
      → Ready (cursor p (e ∷ es) b l t)
      → length e.buf - e.consumed ≤ l
      → take_part rd rm e es
          (bytes_to_consume e (cursor p (e ∷ es) b l t))
          (cursor p (e ∷ es) b l t)
        ≡ beyond rd rm p e es b l t (length e.buf - e.consumed)
  unfolding take_part bytes_to_consume
  part-beyond true v h = ground arith
  part-beyond false v h = ground arith

-- The first branch is taken where the round would end behind the element just as well.
pub whole-eq :
    (e : Element) (c : Cursor)
    → is_whole e c ≡ true
    → (e.consumed ≡ 0) × (length e.buf ≡ c.left) × (c.buffer ≡ [])
unfolding is_whole
whole-eq e c h = ground arith

-- The round's share of what is taken, and of what is left.
module _ (e : Element) (es : List Element) (l : ℕ) where
  pub take-within :
      l < length e.buf - e.consumed → take l (bytes (e ∷ es)) ≡ take l (element_bytes e)
  take-within h =
      take-append_le l (element_bytes e) (bytes es) (omega (arith, length-element_bytes e))

  pub drop-within :
      l < length e.buf - e.consumed
      → drop l (bytes (e ∷ es)) ≡ bytes (record e { consumed = e.consumed + l } ∷ es)
  drop-within h =
      drop-append_le l (element_bytes e) (bytes es) (omega (arith, length-element_bytes e))
      ∙ ap (λ xs. xs ++ bytes es) (drop-drop e.consumed l (e.consumed + l) e.buf refl)

  pub take-past :
      (k : ℕ)
      → k ≡ length e.buf - e.consumed
      → k ≤ l
      → take l (bytes (e ∷ es)) ≡ take k (element_bytes e) ++ take (l - k) (bytes es)
  take-past k d h =
      take-append_ge l (l - k) (element_bytes e) (bytes es) (omega (arith, length-element_bytes e))
      ∙ ap (λ xs. xs ++ take (l - k) (bytes es))
          (sym (take_of_length-le k (element_bytes e) (omega (arith, length-element_bytes e))))

  pub drop-past :
      (k : ℕ)
      → k ≡ length e.buf - e.consumed
      → k ≤ l
      → drop l (bytes (e ∷ es)) ≡ drop (l - k) (bytes es)
  drop-past k d h =
      drop-append_ge l (l - k) (element_bytes e) (bytes es) (omega (arith, length-element_bytes e))
