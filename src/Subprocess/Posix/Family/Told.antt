-- ===== src/Subprocess/Posix/Family/Told.antt =====
-- What a parent's Subprocess of src/Posix/SubprocessPosix.cpp tells of its child is true.
use mathlib.Core.Path.{subst}
use system_abstractions.Base.{
  ℕ, ◌+◌, ◌≡◌, refl, sym, ap, ◌∙◌, inl, inr, Bool, true, false, List, [], ◌∷◌, ◌++◌, append-nil,
  arith, Option, none, some, ◌==◌, Bool-cases, if◌then◌else◌,
}
use system_abstractions.Subprocess.Posix.{
  ReadAnswer, got_byte, end_of_file, interrupted, read_failed, Worker, no_worker, starting, reading,
  reaping, ended, Subprocess, new, after_read, monitor_at, join_at, after_fork, after_pipe,
  start_child, destruct,
}
use system_abstractions.Subprocess.Posix.Family.{
  calls, written, Family, Action, monitors, finishes, dies, read_answer, takes, monitors_with,
  monitors_at, after_answer, finished_child, act, run, begin,
}

-- The worker has not told anything yet.
abbrev pub is_pending : Worker → Bool
is_pending no_worker = true
is_pending starting = true
is_pending reading = true
is_pending reaping = false
is_pending ended = false

-- `e` and `c` are the functions for a child that exits and for one that crashes.
record Truthful (e c : ℕ) (f : Family) : Type 0 where
  exits : f.parent.child_exited ≡ e
  crashes : f.parent.child_crashed ≡ c
  child : f.child ≡ record new { pipe = some f.write_end }
  ends : f.said ≡ true → f.alive ≡ false
  silent : is_pending f.parent.worker ≡ true → f.told ≡ []
  kept : is_pending f.parent.worker ≡ true → f.buffer ≡ (if f.said then 1 else 0)
  settled : is_pending f.parent.worker ≡ false → f.alive ≡ false
  spoke : is_pending f.parent.worker ≡ false → f.told ≡ (if f.said then e else c) ∷ []

written-destruct : (w : ℕ) → written w (destruct (record new { pipe = some w })) ≡ 1
unfolding written destruct join_at new
written-destruct w = let e : (w == w) ≡ true = ground arith in rw (e, written) refl

got_byte_said :
    (f : Family) (signal : Bool)
    → f.buffer ≡ (if f.said then 1 else 0)
    → read_answer f signal ≡ some got_byte
    → f.said ≡ true
unfolding read_answer
got_byte_said f signal k r = ground arith

end_of_file_unsaid :
    (f : Family) (signal : Bool)
    → f.buffer ≡ (if f.said then 1 else 0)
    → read_answer f signal ≡ some end_of_file
    → (f.alive ≡ false) × (f.said ≡ false)
unfolding read_answer
end_of_file_unsaid f signal k r = (ground arith, ground arith)

module _ (e c : ℕ) where
  Truthful-finishes : (f : Family) → Truthful e c f → Truthful e c (act f finishes)
  unfolding act
  Truthful-finishes f t = elim (Bool-cases f.alive) [
    | inr a ↦ subst (Truthful e c) (sym (ap (λ b. if b then finished_child f else f) a)) t
    | inl a ↦
        let silence : f.said ≡ false = ground (arith, t.ends) in
        subst (Truthful e c) (sym (ap (λ b. if b then finished_child f else f) a)) (record {
          exits = t.exits;
          crashes = t.crashes;
          child = t.child;
          ends = λ s. refl;
          silent = t.silent;
          kept = λ p.
              ap (λ n. n + written f.write_end (destruct f.child))
                (t.kept p ∙ ap (λ b. if b then 1 else 0) silence)
              ∙ ap (λ x. 0 + written f.write_end (destruct x)) t.child
              ∙ ap (λ n. 0 + n) (written-destruct f.write_end);
          settled = λ p. refl;
          spoke = λ p. absurd (cc (sym a ∙ t.settled p));
        })
  ]

  -- A step of the worker that tells nothing.
  unspoken :
      (f : Family) (s : Subprocess)
      → Truthful e c f
      → s.child_exited ≡ f.parent.child_exited
      → s.child_crashed ≡ f.parent.child_crashed
      → is_pending s.worker ≡ is_pending f.parent.worker
      → Truthful e c (record f { parent = s; told = f.told ++ [] })
  unspoken f s t x y w = record {
    exits = x ∙ t.exits;
    crashes = y ∙ t.crashes;
    child = t.child;
    ends = t.ends;
    silent = λ p. append-nil f.told ∙ t.silent (sym w ∙ p);
    kept = λ p. t.kept (sym w ∙ p);
    settled = λ p. t.settled (sym w ∙ p);
    spoke = λ p. append-nil f.told ∙ t.spoke (sym w ∙ p);
  }

  Truthful-dies : (f : Family) → Truthful e c f → Truthful e c (act f dies)
  unfolding act
  Truthful-dies f t = record {
    exits = t.exits;
    crashes = t.crashes;
    child = t.child;
    ends = λ s. refl;
    silent = t.silent;
    kept = t.kept;
    settled = λ p. refl;
    spoke = t.spoke;
  }

  Truthful-after_answer :
      (f : Family) (signal : Bool) (o : Option ReadAnswer)
      → read_answer f signal ≡ o
      → f.parent.worker ≡ reading
      → Truthful e c f
      → Truthful e c (after_answer f o)
  unfolding after_answer monitors_with read_answer monitor_at after_read calls takes
  Truthful-after_answer f signal none r w t = t
  Truthful-after_answer f signal (some got_byte) r w t =
      let quiet : is_pending f.parent.worker ≡ true = ap is_pending w in
      let heard : f.said ≡ true = got_byte_said f signal (t.kept quiet) r in
      record {
        exits = t.exits;
        crashes = t.crashes;
        child = t.child;
        ends = t.ends;
        silent = λ p. absurd (cc p);
        kept = λ p. absurd (cc p);
        settled = λ p. t.ends heard;
        spoke = λ p.
            ap (λ l. l ++ f.parent.child_exited ∷ []) (t.silent quiet)
            ∙ ap (λ d. d ∷ []) (t.exits ∙ ap (λ b. if b then e else c) (sym heard));
      }
  Truthful-after_answer f signal (some end_of_file) r w t =
      let quiet : is_pending f.parent.worker ≡ true = ap is_pending w in
      let (gone, silence) = end_of_file_unsaid f signal (t.kept quiet) r in
      record {
        exits = t.exits;
        crashes = t.crashes;
        child = t.child;
        ends = t.ends;
        silent = λ p. absurd (cc p);
        kept = λ p. absurd (cc p);
        settled = λ p. gone;
        spoke = λ p.
            ap (λ l. l ++ f.parent.child_crashed ∷ []) (t.silent quiet)
            ∙ ap (λ d. d ∷ []) (t.crashes ∙ ap (λ b. if b then e else c) (sym silence));
      }
  Truthful-after_answer f signal (some interrupted) r w t = record {
    exits = t.exits;
    crashes = t.crashes;
    child = t.child;
    ends = t.ends;
    silent = λ p. append-nil f.told ∙ t.silent p;
    kept = t.kept;
    settled = t.settled;
    spoke = λ p. append-nil f.told ∙ t.spoke p;
  }
  Truthful-after_answer f signal (some read_failed) r w t = absurd (ground arith)

  Truthful-monitors_at :
      (w : Worker) (f : Family) (signal : Bool)
      → f.parent.worker ≡ w
      → Truthful e c f
      → Truthful e c (monitors_at w f signal)
  unfolding monitors_at monitors_with monitor_at calls takes
  Truthful-monitors_at no_worker f signal w t = unspoken f f.parent t refl refl refl
  Truthful-monitors_at starting f signal w t =
      unspoken f (record f.parent { worker = reading }) t refl refl (sym (ap is_pending w))
  Truthful-monitors_at reading f signal w t =
      Truthful-after_answer f signal (read_answer f signal) refl w t
  Truthful-monitors_at reaping f signal w t =
      unspoken f (record f.parent { worker = ended }) t refl refl (sym (ap is_pending w))
  Truthful-monitors_at ended f signal w t = unspoken f f.parent t refl refl refl

  Truthful-act : (f : Family) (a : Action) → Truthful e c f → Truthful e c (act f a)
  unfolding act
  Truthful-act f (monitors signal) t = Truthful-monitors_at f.parent.worker f signal refl t
  Truthful-act f finishes t = Truthful-finishes f t
  Truthful-act f dies t = Truthful-dies f t

  Truthful-run :
      (f : Family) (actions : List Action) → Truthful e c f → Truthful e c (run f actions)
  unfolding run
  Truthful-run f [] t = t
  Truthful-run f (a ∷ actions) t = Truthful-run (act f a) actions (Truthful-act f a t)

Truthful-begin : (s : Subprocess) (e c r w pid : ℕ) → Truthful e c (begin s e c r w pid)
unfolding start_child after_pipe after_fork
Truthful-begin s e c r w pid = record {
  exits = refl;
  crashes = refl;
  child = refl;
  ends = λ h. absurd (cc h);
  silent = λ p. refl;
  kept = λ p. refl;
  settled = λ p. absurd (cc p);
  spoke = λ p. absurd (cc p);
}

-- What a family has been told so far: nothing ahead of the end of the loop, and after it one call, of
-- the function for a child that exits if the child's object was destroyed, and of the function for a
-- child that crashes if not.
unfoldable pub IsTrueReport : ℕ → ℕ → Family → Type 0
IsTrueReport e c f =
    f.told ≡ (if is_pending f.parent.worker then [] else (if f.said then e else c) ∷ [])

-- After `StartChild` succeeded, with `ContactParent` called in the child, in every order of the
-- worker's steps, with reads that signals interrupt or not, and of the child's ways to end, the
-- parent is told at most once; and it is told that the child exited if the child's object was
-- destroyed ahead of its end, and that it crashed if not.
pub run-IsTrueReport :
    (s : Subprocess) (e c r w pid : ℕ) (actions : List Action)
    → IsTrueReport e c (run (begin s e c r w pid) actions)
unfolding IsTrueReport
run-IsTrueReport s e c r w pid actions =
    let f : Family = run (begin s e c r w pid) actions in
    let t = Truthful-run e c (begin s e c r w pid) actions (Truthful-begin s e c r w pid) in
    elim (Bool-cases (is_pending f.parent.worker)) [
      | inl p ↦ t.silent p ∙ ap (λ b. if b then [] else (if f.said then e else c) ∷ []) (sym p)
      | inr p ↦ t.spoke p ∙ ap (λ b. if b then [] else (if f.said then e else c) ∷ []) (sym p)
    ]
