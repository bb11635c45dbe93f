-- ===== src/File/Windows/Outcomes.antt =====
-- Operations of src/Win32/FileWin32.cpp that call the operating system for each entry of a directory
-- and stop at the first failure: what they do and return as a whole.
use system_abstractions.Base.{
  ◌≡◌, refl, sym, ap, ap₂, ◌∙◌, Bool, true, false, ◌&&◌, List, [], ◌∷◌, ◌++◌, append_assoc,
  if◌then◌else◌,
}
use system_abstractions.File.Windows.{Call, unless_failed, after}

-- What a list of calls asks for, where `f` is what a call asks for.
unfoldable pub requests : {A : Type 0} → (Call → List A) → List Call → List A
requests f [] = []
requests f (c ∷ cs) = f c ++ requests f cs

-- An operation returns `ok`, and where that is true it asks for `asked`.
pub record Outcome {A : Type 0} (f : Call → List A) (asked : List A) (ok : Bool)
    (r : List Call × Bool) : Type 0 where
  pub result : r.1 ≡ ok
  pub done : r.1 ≡ true → requests f r.0 ≡ asked

module _ {A : Type 0} (f : Call → List A) where
  requests-append : (cs ds : List Call) → requests f (cs ++ ds) ≡ requests f cs ++ requests f ds
  unfolding requests
  requests-append [] ds = refl
  requests-append (c ∷ cs) ds =
      ap (λ ys. f c ++ ys) (requests-append cs ds)
      ∙ sym (append_assoc (f c) (requests f cs) (requests f ds))

  pub Outcome-unless_failed :
      (xs ys : List A) (a b : Bool) (r q : List Call × Bool)
      → Outcome f xs a r
      → Outcome f ys b q
      → Outcome f (xs ++ ys) (a && b) (unless_failed r q)
  unfolding unless_failed
  Outcome-unless_failed xs ys a b (cs, true) (ds, result) h k = record {
    result = ap₂ ◌&&◌ h.result k.result;
    done = λ e. requests-append cs ds ∙ ap₂ ◌++◌ (h.done refl) (k.done e);
  }
  Outcome-unless_failed xs ys a b (cs, false) (ds, result) h k = record {
    result = ap (λ x. x && b) h.result;
    done = λ e. cc;
  }

  pub Outcome-after :
      (c : Call) (xs : List A) (ok : Bool) (r : List Call × Bool)
      → f c ≡ []
      → Outcome f xs ok r
      → Outcome f xs ok (after c r)
  unfolding requests
  Outcome-after c xs ok (cs, result) n h = record {
    result = h.result;
    done = λ e. ap (λ ys. ys ++ requests f cs) n ∙ h.done e;
  }

  -- An entry ahead of others, which is looked at unless it is "." or "..".
  pub Outcome-entry :
      (dots : Bool) (xs ys : List A) (a b : Bool) (r q : List Call × Bool)
      → Outcome f xs a r
      → Outcome f ys b q
      → Outcome f
          (if dots then ys else xs ++ ys)
          (if dots then b else a && b)
          (if dots then q else unless_failed r q)
  Outcome-entry true xs ys a b r q h k = k
  Outcome-entry false xs ys a b r q h k = Outcome-unless_failed xs ys a b r q h k
