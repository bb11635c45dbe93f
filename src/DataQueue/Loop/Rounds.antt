-- ===== src/DataQueue/Loop/Rounds.antt =====
-- Each round of the loop of `Impl::Dequeue` hands its bytes on, and leaves the rest of the work to
-- the rounds behind it.
use system_abstractions.Base.{
  ℕ, ◌+◌, ◌-◌, ◌≤◌, ◌<◌, ◌≡◌, refl, sym, ap, ◌∙◌, Bool, true, false, List, [], ◌∷◌, ◌++◌,
  append-nil, append_assoc, arith, length, take, take_of_length-le,
}
use system_abstractions.DataQueue.{Buffer, Element, Cursor, take_whole}
use system_abstractions.DataQueue.Bytes.{
  element_bytes, bytes, AllFit, bytes-append, AllFit-append, length-bytes-cons,
}
use system_abstractions.DataQueue.Loop.{
  cursor, Ready, Leaves, collected, Ends, inside, beyond, take-within, drop-within, take-past,
  drop-past,
}

module _ (p : List Element) (e : Element) (es : List Element) (b : Buffer) (l t : ℕ) where
  collected-inside :
      (rd rm : Bool)
      → l < length e.buf - e.consumed
      → (inside rd rm p e es b l t).buffer ≡ collected rd (cursor p (e ∷ es) b l t)
  collected-inside true true h = ap (λ xs. b ++ xs) (sym (take-within e es l h))
  collected-inside true false h = ap (λ xs. b ++ xs) (sym (take-within e es l h))
  collected-inside false true h = refl
  collected-inside false false h = refl

  Leaves-inside :
      (rd rm : Bool)
      → l < length e.buf - e.consumed
      → Leaves rm (cursor p (e ∷ es) b l t) (inside rd rm p e es b l t)
  Leaves-inside rd true h =
      (bytes-append p _ ∙ ap (λ xs. bytes p ++ xs) (sym (drop-within e es l h)), refl)
  Leaves-inside rd false h = (refl, refl)

  fits-inside :
      (rd rm : Bool)
      → Ready (cursor p (e ∷ es) b l t)
      → l < length e.buf - e.consumed
      → let r = inside rd rm p e es b l t in AllFit (r.passed ++ r.ahead)
  fits-inside rd true v h =
      AllFit-append p (record e { consumed = e.consumed + l } ∷ es) v.behind
        (omega arith, v.before.1, v.before.2)
  fits-inside rd false v h = AllFit-append p (e ∷ es) v.behind v.before

  pub Ends-inside :
      (rd rm : Bool)
      → Ready (cursor p (e ∷ es) b l t)
      → l < length e.buf - e.consumed
      → Ends rd rm (cursor p (e ∷ es) b l t) (inside rd rm p e es b l t)
  Ends-inside rd rm v h = record {
    collects = collected-inside rd rm h;
    leaves = Leaves-inside rd rm h;
    fits = fits-inside rd rm v h;
  }

module _ (p : List Element) (e : Element) (es : List Element) (b : Buffer) (l t k : ℕ)
    (d : k ≡ length e.buf - e.consumed) (h : k ≤ l) where
  collected-beyond :
      (rd rm : Bool)
      → collected rd (beyond rd rm p e es b l t k) ≡ collected rd (cursor p (e ∷ es) b l t)
  collected-beyond true true =
      append_assoc b (take k (element_bytes e)) (take (l - k) (bytes es))
      ∙ ap (λ xs. b ++ xs) (sym (take-past e es l k d h))
  collected-beyond true false =
      append_assoc b (take k (element_bytes e)) (take (l - k) (bytes es))
      ∙ ap (λ xs. b ++ xs) (sym (take-past e es l k d h))
  collected-beyond false true = refl
  collected-beyond false false = refl

  Leaves-beyond :
      (rd rm : Bool) (r : Cursor)
      → k ≤ t
      → Leaves rm (beyond rd rm p e es b l t k) r
      → Leaves rm (cursor p (e ∷ es) b l t) r
  Leaves-beyond rd true r w x =
      (x.0 ∙ ap (λ xs. bytes p ++ xs) (sym (drop-past e es l k d h)), omega arith)
  Leaves-beyond rd false r w x = (x.0 ∙ append_assoc p (e ∷ []) es, x.1)

  pub Ends-beyond :
      (rd rm : Bool) (r : Cursor)
      → k ≤ t
      → Ends rd rm (beyond rd rm p e es b l t k) r
      → Ends rd rm (cursor p (e ∷ es) b l t) r
  Ends-beyond rd rm r w x = record {
    collects = x.collects ∙ collected-beyond rd rm;
    leaves = Leaves-beyond rd rm r w x.leaves;
    fits = x.fits;
  }

  pub Ready-beyond :
      (rd rm : Bool) → Ready (cursor p (e ∷ es) b l t) → Ready (beyond rd rm p e es b l t k)
  Ready-beyond rd true v = record {
    behind = v.behind;
    before = v.before.2;
    enough = omega (arith, length-bytes-cons e es);
    within = omega arith;
    small = omega arith;
  }
  Ready-beyond rd false v = record {
    behind = AllFit-append p (e ∷ []) v.behind (v.before.0, v.before.1, tt);
    before = v.before.2;
    enough = omega (arith, length-bytes-cons e es);
    within = omega arith;
    small = omega arith;
  }

Ends-same :
    (rd rm : Bool) {c : Cursor} (r r' : Cursor)
    → r'.buffer ≡ r.buffer
    → r'.passed ++ r'.ahead ≡ r.passed ++ r.ahead
    → r'.total ≡ r.total
    → Ends rd rm c r
    → Ends rd rm c r'
Ends-same rd true r r' eb ep et x = record {
  collects = eb ∙ x.collects;
  leaves = rw ep (x.leaves.0, et ∙ x.leaves.1);
  fits = rw ep x.fits;
}
Ends-same rd false r r' eb ep et x = record {
  collects = eb ∙ x.collects;
  leaves = rw ep (x.leaves.0, et ∙ x.leaves.1);
  fits = rw ep x.fits;
}

-- A loop that has nothing left to take ends where it is.
pub Ends-stop : (rd rm : Bool) (c : Cursor) → c.left ≡ 0 → Ready c → Ends rd rm c c
Ends-stop true true c z v = record {
  collects = rw z (sym (append-nil c.buffer));
  leaves = (rw z (bytes-append c.passed c.ahead), omega arith);
  fits = AllFit-append c.passed c.ahead v.behind v.before;
}
Ends-stop true false c z v = record {
  collects = rw z (sym (append-nil c.buffer));
  leaves = (refl, refl);
  fits = AllFit-append c.passed c.ahead v.behind v.before;
}
Ends-stop false true c z v = record {
  collects = refl;
  leaves = (rw z (bytes-append c.passed c.ahead), omega arith);
  fits = AllFit-append c.passed c.ahead v.behind v.before;
}
Ends-stop false false c z v = record {
  collects = refl;
  leaves = (refl, refl);
  fits = AllFit-append c.passed c.ahead v.behind v.before;
}

module _ (p : List Element) (e : Element) (es : List Element) (b : Buffer) (l t : ℕ) where
  whole_bytes :
      (e.consumed ≡ 0) × (length e.buf ≡ l) × (b ≡ []) → e.buf ≡ b ++ take l (element_bytes e)
  whole_bytes h = rw (h.2, h.0) (sym (take_of_length-le l e.buf (omega arith)))

  whole_buffer :
      (rd rm : Bool)
      → (e.consumed ≡ 0) × (length e.buf ≡ l) × (b ≡ [])
      → (take_whole rd rm e es (cursor p (e ∷ es) b l t)).buffer
        ≡ (beyond rd rm p e es b l t l).buffer
  unfolding take_whole
  whole_buffer true true h = whole_bytes h
  whole_buffer true false h = whole_bytes h
  whole_buffer false true h = refl
  whole_buffer false false h = refl

  whole_rest :
      (rd rm : Bool)
      → let r = take_whole rd rm e es (cursor p (e ∷ es) b l t) in
        let r' = beyond rd rm p e es b l t l in r.passed ++ r.ahead ≡ r'.passed ++ r'.ahead
  unfolding take_whole
  whole_rest rd true = refl
  whole_rest rd false = sym (append_assoc p (e ∷ []) es)

  whole_total :
      (rd rm : Bool)
      → Ready (cursor p (e ∷ es) b l t)
      → (take_whole rd rm e es (cursor p (e ∷ es) b l t)).total
        ≡ (beyond rd rm p e es b l t l).total
  unfolding take_whole
  whole_total rd true v = omega arith
  whole_total rd false v = refl

  left-beyond : (rd rm : Bool) → (beyond rd rm p e es b l t l).left ≡ 0
  left-beyond rd true = omega arith
  left-beyond rd false = omega arith

  pub Ends-whole :
      (rd rm : Bool)
      → Ready (cursor p (e ∷ es) b l t)
      → (e.consumed ≡ 0) × (length e.buf ≡ l) × (b ≡ [])
      → Ends rd rm (cursor p (e ∷ es) b l t) (take_whole rd rm e es (cursor p (e ∷ es) b l t))
  Ends-whole rd rm v h =
      Ends-same rd rm (beyond rd rm p e es b l t l) _ (whole_buffer rd rm h) (whole_rest rd rm)
        (whole_total rd rm v)
        (Ends-beyond p e es b l t l (omega arith) (omega arith) rd rm _ v.within (
          Ends-stop rd rm _ (left-beyond rd rm)
            (Ready-beyond p e es b l t l (omega arith) (omega arith) rd rm v)))
