-- ===== src/Subprocess/Posix/Joining.antt =====
-- `JoinChild` and `StartChild` of src/Posix/SubprocessPosix.cpp keep the log and the state together.
use mathlib.Core.Path.{subst}
use system_abstractions.Base.{
  ℕ, ◌≡◌, refl, sym, ap, ◌∙◌, inl, inr, true, List, [], ◌∷◌, ◌++◌, arith, Option, none, some, ◌==◌,
  Bool-cases,
}
use system_abstractions.Subprocess.Posix.{
  Effect, forked, Worker, no_worker, starting, reading, reaping, ended, Subprocess, close_pipe,
  can_join, join_at, join_child, after_fork, after_pipe, start_child,
}
use system_abstractions.Subprocess.Posix.System.{
  push, without, still_open, to_list, no_child, next_stage, stage, stage_at, pipe_idle, child_known,
  Follows,
}

pub without-head : (fd : ℕ) (gs : List ℕ) → without fd (fd ∷ gs) ≡ gs
unfolding without
without-head fd gs = let e : (fd == fd) ≡ true = ground arith in rw (e, without) refl

-- The two ends of a pipe closed in the order they were opened in.
pub without-both : (r w : ℕ) (gs : List ℕ) → without w (without r (w ∷ r ∷ gs)) ≡ gs
unfolding without
without-both r w gs = elim (Bool-cases (r == w)) [
  | inl e ↦
      rw (e, without)
        (let d : w ≡ r = ground arith in ap (λ x. without x (r ∷ gs)) d ∙ without-head r gs)
  | inr e ↦ rw (e, without) (ap (λ x. without w (w ∷ x)) (without-head r gs) ∙ without-head w gs)
]

pub close_pipe-still_open :
    (q : Option ℕ) (log : List Effect)
    → still_open log ≡ to_list q
    → still_open (push (close_pipe q) log) ≡ []
unfolding still_open
close_pipe-still_open none log o = o
close_pipe-still_open (some fd) log o = ap (without fd) o ∙ without-head fd []

close_pipe-stage : (q : Option ℕ) (log : List Effect) → stage (push (close_pipe q) log) ≡ stage log
unfolding stage next_stage
close_pipe-stage none log = refl
close_pipe-stage (some fd) log = refl

idle-none : (q : Option ℕ) → pipe_idle no_worker q ≡ true → q ≡ none
idle-none none i = refl
idle-none (some fd) i = absurd (cc i)

-- What `JoinChild` leaves behind.
pub record Joined (s : Subprocess) (log : List Effect) : Type 0 where
  pub all_closed : still_open log ≡ []
  pub no_stage : stage log ≡ no_child
  pub no_pipe : s.pipe ≡ none
  pub not_running : s.worker ≡ no_worker

Joined-join_at :
    (w : Worker) (s : Subprocess) (log : List Effect)
    → s.worker ≡ w
    → can_join w ≡ true
    → still_open log ≡ to_list s.pipe
    → stage log ≡ stage_at w s.child s.child_exited s.child_crashed
    → pipe_idle w s.pipe ≡ true
    → Joined (join_at w s).0 (push (join_at w s).1 log)
unfolding join_at stage_at
Joined-join_at no_worker s log e j o g i = record {
  all_closed = o ∙ ap to_list (idle-none s.pipe i);
  no_stage = g;
  no_pipe = idle-none s.pipe i;
  not_running = e;
}
Joined-join_at starting s log e j o g i = absurd (cc j)
Joined-join_at reading s log e j o g i = absurd (cc j)
Joined-join_at reaping s log e j o g i = absurd (cc j)
Joined-join_at ended s log e j o g i = record {
  all_closed = close_pipe-still_open s.pipe log o;
  no_stage = close_pipe-stage s.pipe log ∙ g;
  no_pipe = refl;
  not_running = refl;
}

pub Joined-join_child :
    (s : Subprocess) (log : List Effect)
    → can_join s.worker ≡ true
    → Follows s log
    → Joined (join_child s).0 (push (join_child s).1 log)
Joined-join_child s log j f = Joined-join_at s.worker s log refl j f.opens f.stages f.idle

Follows-after_pipe :
    (s : Subprocess) (log : List Effect) (ends : Option (ℕ × ℕ)) (pid : Option ℕ)
    → Joined s log
    → Follows (after_pipe s ends pid).0 (push (after_pipe s ends pid).1 log)
unfolding after_pipe after_fork still_open stage next_stage stage_at
Follows-after_pipe s log none pid j = record {
  opens = j.all_closed ∙ ap to_list (sym j.no_pipe);
  stages =
      j.no_stage ∙ ap (λ x. stage_at x s.child s.child_exited s.child_crashed) (sym j.not_running);
  idle = ap (λ x. pipe_idle x s.pipe) j.not_running ∙ ap (pipe_idle no_worker) j.no_pipe;
  known = ap (λ x. child_known x s.child) j.not_running;
}
Follows-after_pipe s log (some (r, w)) none j = record {
  opens = without-both r w (still_open log) ∙ j.all_closed ∙ ap to_list (sym j.no_pipe);
  stages =
      j.no_stage ∙ ap (λ x. stage_at x none s.child_exited s.child_crashed) (sym j.not_running);
  idle = ap (λ x. pipe_idle x s.pipe) j.not_running ∙ ap (pipe_idle no_worker) j.no_pipe;
  known = ap (λ x. child_known x none) j.not_running;
}
Follows-after_pipe s log (some (r, w)) (some pid) j = record {
  opens = without-head w (r ∷ still_open log) ∙ ap (◌∷◌ r) j.all_closed;
  stages = ap (next_stage (forked pid s.child_exited s.child_crashed)) j.no_stage;
  idle = refl;
  known = refl;
}

pub push-append : (es fs log : List Effect) → push (es ++ fs) log ≡ push fs (push es log)
push-append [] fs log = refl
push-append (e ∷ es) fs log = push-append es fs (e ∷ log)

pub Follows-start :
    (s : Subprocess) (log : List Effect) (e c : ℕ) (ends : Option (ℕ × ℕ)) (pid : Option ℕ)
    → can_join s.worker ≡ true
    → Follows s log
    → Follows (start_child s e c ends pid).0 (push (start_child s e c ends pid).1 log)
unfolding start_child
Follows-start s log e c ends pid j f =
    let s₁ : Subprocess = record (join_child s).0 { child_exited = e; child_crashed = c } in
    let joined = Joined-join_child s log j f in
    subst (λ l. Follows (after_pipe s₁ ends pid).0 l)
      (sym (push-append (join_child s).1 (after_pipe s₁ ends pid).1 log))
      (Follows-after_pipe s₁ (push (join_child s).1 log) ends pid (record {
        all_closed = joined.all_closed;
        no_stage = joined.no_stage;
        no_pipe = joined.no_pipe;
        not_running = joined.not_running;
      }))
