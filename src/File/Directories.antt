-- ===== src/File/Directories.antt =====
-- `CreatePath` of src/Posix/FilePosix.cpp makes the directories above a path.
use mathlib.Core.Path.{subst}
use mathlib.Core.Option.{some-injective}
use system_abstractions.Base.{
  ℕ, zero, suc, ◌<◌, ◌≡◌, refl, sym, ◌∙◌, ◌⊎◌, inl, inr, Bool, true, false, [], ◌∷◌, none, some,
  arith, length, Option-cases,
}
use system_abstractions.File.{
  Name, MkdirAnswer, created, already_there, no_entry, refused, Calls, parent, create_path,
  is_created, make_again,
}

-- What POSIX says of `mkdir` and of the names that exist: a name that was made, or that is refused
-- since it is there, exists, and no name goes away.
pub record DirectoryLaws {K : Type 0} (os : Calls K) (there : K → Name → Bool) : Type 0 where
  pub was_created :
      (k : K) (p : Name) → (os.mkdir k p).1 ≡ created → there (os.mkdir k p).0 p ≡ true
  pub was_there :
      (k : K) (p : Name) → (os.mkdir k p).1 ≡ already_there → there (os.mkdir k p).0 p ≡ true
  pub stays : (k : K) (p q : Name) → there k q ≡ true → there (os.mkdir k p).0 q ≡ true

pub parent-shorter : (p up : Name) → parent p ≡ some up → length up < length p
unfolding parent
parent-shorter [] up h = ground arith
parent-shorter (c ∷ cs) up h = elim (Option-cases (parent cs)) [
  | inl n ↦ ground arith
  | inr (q, n) ↦ ground (arith, parent-shorter cs q n)
]

answer-cases :
    (a : MkdirAnswer) → ((a ≡ created) ⊎ (a ≡ already_there)) ⊎ ((a ≡ refused) ⊎ (a ≡ no_entry))
answer-cases created = inl (inl refl)
answer-cases already_there = inl (inr refl)
answer-cases refused = inr (inl refl)
answer-cases no_entry = inr (inr refl)

module _ {K : Type 0} (os : Calls K) (there : K → Name → Bool) (laws : DirectoryLaws os there) where
  -- The result of making the directories above a path, from the state `k`.
  pub record Makes (k : K) (path : Name) (k' : K) (ok : Bool) : Type 0 where
    pub parent_there : (up : Name) → parent path ≡ some up → ok ≡ true → there k' up ≡ true
    pub no_parent : parent path ≡ none → ok ≡ false
    pub kept : (q : Name) → there k q ≡ true → there k' q ≡ true

  Makes-mkdir :
      (k : K) (path up : Name) (ok : Bool)
      → parent path ≡ some up
      → (ok ≡ true → there (os.mkdir k up).0 up ≡ true)
      → Makes k path (os.mkdir k up).0 ok
  Makes-mkdir k path up ok h t = record {
    parent_there = λ q e o.
        subst (λ x. there (os.mkdir k up).0 x ≡ true) (some-injective _ _ (sym h ∙ e)) (t o);
    no_parent = λ n. cc;
    kept = λ q e. laws.stays k up q e;
  }

  -- The second `mkdir`, from the state that the inner call left.
  Makes-again :
      (k k₁ : K) (path up : Name) (r : K × Bool)
      → parent path ≡ some up
      → ((q : Name) → there k q ≡ true → there r.0 q ≡ true)
      → Makes k path (make_again os up r).0 (make_again os up r).1
  Makes-again k k₁ path up (k₂, false) h kept = record {
    parent_there = λ q e o. cc;
    no_parent = λ n. refl;
    kept = kept;
  }
  Makes-again k k₁ path up (k₂, true) h kept = record {
    parent_there = λ q e o.
        subst (λ x. there (os.mkdir k₂ up).0 x ≡ true) (some-injective _ _ (sym h ∙ e))
          (laws.was_created k₂ up (made_again (os.mkdir k₂ up).1 o));
    no_parent = λ n. absurd (cc (sym h ∙ n));
    kept = λ q e. laws.stays k₂ up q (kept q e);
  }
    where
      made_again : (a : MkdirAnswer) → is_created os a ≡ true → a ≡ created
      made_again created e = refl
      made_again already_there e = cc
      made_again no_entry e = cc
      made_again refused e = cc

  -- Over an `mkdir` that behaves as POSIX says, `CreatePath` ends after at most one call of itself
  -- for each character of the path and one more; where it returns true the name above the path
  -- exists, be it a directory or another thing for which `mkdir` gives EEXIST, a path with no
  -- separator gives false, and no name that existed goes away.
  pub create_path_lem :
      (fuel : ℕ) (k : K) (path : Name)
      → length path < fuel
      → (k' : K) × (ok : Bool) × (create_path os fuel k path ≡ some (k', ok)) × Makes k path k' ok
  unfolding create_path
  create_path_lem zero k path l = absurd (omega arith)
  create_path_lem (suc fuel) k path l = elim (Option-cases (parent path)) [
    | inl n ↦ (
      k,
      false,
      rw (n, create_path),
      record { parent_there = λ q e o. cc; no_parent = λ m. refl; kept = λ q e. e },
    )
    | inr (up, h) ↦ elim (answer-cases (os.mkdir k up).1) [
      | inl (inl a) ↦ (
        _,
        true,
        rw (h, a, create_path),
        Makes-mkdir k path up true h (λ o. laws.was_created k up a),
      )
      | inl (inr a) ↦ (
        _,
        true,
        rw (h, a, create_path),
        Makes-mkdir k path up true h (λ o. laws.was_there k up a),
      )
      | inr (inl a) ↦ (_, false, rw (h, a, create_path), Makes-mkdir k path up false h (λ o. cc))
      | inr (inr a) ↦
          let (k₂, ok, e, m) =
            create_path_lem fuel (os.mkdir k up).0 up (omega (arith, parent-shorter path up h)) in
          (
            _,
            _,
            rw (h, a, create_path, e),
            Makes-again k (os.mkdir k up).0 path up (k₂, ok) h
                (λ q t. m.kept q (laws.stays k up q t)),
          )
    ]
  ]
