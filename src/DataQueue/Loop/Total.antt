-- ===== src/DataQueue/Loop/Total.antt =====
-- The loop of `Impl::Dequeue` ends within its fuel, and does what it is to do.
use native.Mathlib.Decide.{dec_lt}
use system_abstractions.Base.{
  ℕ, zero, suc, ◌-◌, ◌≤◌, ◌<◌, ◌≡◌, refl, ap, ◌∙◌, inl, inr, Bool, true, false, List, [], ◌∷◌, some,
  arith, length, lt→ltb, Bool-cases,
}
use system_abstractions.DataQueue.{
  Buffer, Element, Cursor, is_whole, take_whole, take_part, bytes_to_consume, round, round_at,
  dequeue_loop,
}
use system_abstractions.DataQueue.Loop.{
  cursor, Ready, Ends, inside, beyond, part-inside, part-beyond, whole-eq,
}
use system_abstractions.DataQueue.Loop.Rounds.{
  Ends-inside, Ends-beyond, Ready-beyond, Ends-whole, Ends-stop,
}

-- The loop stops where nothing is left to take.
loop-stop :
    (fuel : ℕ) (rd rm : Bool) (c : Cursor) → c.left ≡ 0 → dequeue_loop (suc fuel) rd rm c ≡ some c
unfolding dequeue_loop
loop-stop fuel rd rm c z = rw z

module _ (rd rm : Bool) (e : Element) (es : List Element) (c : Cursor) where
  round-whole : is_whole e c ≡ true → round rd rm e es c ≡ (take_whole rd rm e es c, false)
  unfolding round
  round-whole w = rw w

  round-part :
      is_whole e c ≡ false
      → round rd rm e es c ≡ (take_part rd rm e es (bytes_to_consume e c) c, true)
  unfolding round
  round-part w = rw w

module _ (fuel : ℕ) (rd rm : Bool) (p : List Element) (e : Element) (es : List Element) (b : Buffer)
    (l t : ℕ) (more : 0 < l) where
  abbrev at_e : Cursor
  at_e = cursor p (e ∷ es) b l t

  loop-whole :
      is_whole e at_e ≡ true
      → dequeue_loop (suc fuel) rd rm at_e ≡ some (take_whole rd rm e es at_e)
  unfolding dequeue_loop round_at
  loop-whole w =
      rw (lt→ltb 0 l more, round-whole rd rm e es at_e w, dequeue_loop, round_at)
        (ap (λ x. some x.0) (round-whole rd rm e es at_e w))

  loop-part :
      is_whole e at_e ≡ false
      → dequeue_loop (suc fuel) rd rm at_e
        ≡ dequeue_loop fuel rd rm (take_part rd rm e es (bytes_to_consume e at_e) at_e)
  unfolding dequeue_loop round_at
  loop-part w =
      rw (lt→ltb 0 l more, round-part rd rm e es at_e w, dequeue_loop, round_at)
        (ap (λ x. dequeue_loop fuel rd rm x.0) (round-part rd rm e es at_e w))

-- The run of the loop from a cursor, and what it has done at its end.
abbrev pub Runs : ℕ → Bool → Bool → Cursor → Type 0
Runs fuel rd rm c = (r : Cursor) × (dequeue_loop fuel rd rm c ≡ some r) × Ends rd rm c r

Runs-inside :
    (fuel : ℕ) (rd rm : Bool) (p : List Element) (e : Element) (es : List Element) (b : Buffer)
    (l t : ℕ)
    → 0 < l
    → is_whole e (cursor p (e ∷ es) b l t) ≡ false
    → Ready (cursor p (e ∷ es) b l t)
    → l < length e.buf - e.consumed
    → Runs (suc (suc fuel)) rd rm (cursor p (e ∷ es) b l t)
Runs-inside fuel rd rm p e es b l t more w v h = (
  inside rd rm p e es b l t,
  loop-part (suc fuel) rd rm p e es b l t more w
      ∙ ap (dequeue_loop (suc fuel) rd rm) (part-inside rd p e es b l t rm v h)
      ∙ loop-stop fuel rd rm _ (left-inside rm),
  Ends-inside p e es b l t rd rm v h,
)
  where
    left-inside : (m : Bool) → (inside rd m p e es b l t).left ≡ 0
    left-inside true = refl
    left-inside false = refl

Runs-beyond :
    (fuel : ℕ) (rd rm : Bool) (p : List Element) (e : Element) (es : List Element) (b : Buffer)
    (l t : ℕ)
    → 0 < l
    → is_whole e (cursor p (e ∷ es) b l t) ≡ false
    → Ready (cursor p (e ∷ es) b l t)
    → length e.buf - e.consumed ≤ l
    → Runs fuel rd rm (beyond rd rm p e es b l t (length e.buf - e.consumed))
    → Runs (suc fuel) rd rm (cursor p (e ∷ es) b l t)
Runs-beyond fuel rd rm p e es b l t more w v h (r, runs, ends) = (
  r,
  loop-part fuel rd rm p e es b l t more w
      ∙ ap (dequeue_loop fuel rd rm) (part-beyond rd p e es b l t rm v h)
      ∙ runs,
  Ends-beyond p e es b l t _ refl h rd rm r (omega arith) ends,
)

-- Where the rounds behind `e` run from every cursor, they run from the one that it leaves.
Runs-next :
    (fuel : ℕ) (rd rm : Bool) (p : List Element) (e : Element) (es : List Element) (b : Buffer)
    (l t k : ℕ)
    → ((p' : List Element) (b' : Buffer) (l' t' : ℕ)
        → Ready (cursor p' es b' l' t')
        → Runs fuel rd rm (cursor p' es b' l' t'))
    → Ready (beyond rd rm p e es b l t k)
    → Runs fuel rd rm (beyond rd rm p e es b l t k)
Runs-next fuel rd true p e es b l t k rec v = rec _ _ _ _ v
Runs-next fuel rd false p e es b l t k rec v = rec _ _ _ _ v

-- A round for each element ahead, and one more for the last test, are enough.
pub loop-Runs :
    (rd rm : Bool) (es : List Element) (fuel : ℕ) (p : List Element) (b : Buffer) (l t : ℕ)
    → length es < fuel
    → Ready (cursor p es b l t)
    → Runs fuel rd rm (cursor p es b l t)
loop-Runs rd rm es zero p b l t f v = absurd (omega arith)
loop-Runs rd rm [] (suc fuel) p b l t f v =
    let z : l ≡ 0 = omega arith in
    (cursor p [] b l t, loop-stop fuel rd rm _ z, Ends-stop rd rm _ z v)
loop-Runs rd rm (e ∷ es) (suc zero) p b l t f v = absurd (omega arith)
loop-Runs rd rm (e ∷ es) (suc (suc fuel)) p b l t f v = elim (dec_lt 0 l) [
  | no z ↦ (
    cursor p (e ∷ es) b l t,
    loop-stop (suc fuel) rd rm _ (omega arith),
    Ends-stop rd rm _ (omega arith) v,
  )
  | yes more ↦ elim (Bool-cases (is_whole e (cursor p (e ∷ es) b l t))) [
    | inl w ↦ (
      take_whole rd rm e es (cursor p (e ∷ es) b l t),
      loop-whole (suc fuel) rd rm p e es b l t more w,
      Ends-whole p e es b l t rd rm v (whole-eq e _ w),
    )
    | inr w ↦ elim (dec_lt l (length e.buf - e.consumed)) [
      | yes h ↦ Runs-inside fuel rd rm p e es b l t more w v h
      | no h ↦ Runs-beyond (suc fuel) rd rm p e es b l t more w v (omega arith) (
          Runs-next (suc fuel) rd rm p e es b l t _
            (λ p' b' l' t' v'. loop-Runs rd rm es (suc fuel) p' b' l' t' (omega arith) v')
            (Ready-beyond p e es b l t _ refl (omega arith) rd rm v))
    ]
  ]
]
