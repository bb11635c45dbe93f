-- ===== src/Subprocess/Windows/Lifecycle.antt =====
-- `StartChild`, `MonitorChild`, `JoinChild` and the destructor of src/Win32/SubprocessWin32.cpp: each
-- process is reported once, and the handles are closed.
use mathlib.Core.Path.{subst}
use system_abstractions.Base.{
  ℕ, ◌≡◌, refl, sym, ap, ◌∙◌, inl, inr, Bool, true, List, [], ◌∷◌, ◌++◌, append-nil, Option, none,
  some, ◌==◌, Bool-cases, arith,
}
use system_abstractions.Subprocess.Posix.System.{without, to_list}
use system_abstractions.Subprocess.Posix.Joining.{without-head, without-both}
use system_abstractions.Subprocess.Windows.{
  Effect, opened, closed, Worker, no_worker, starting, reading, reaping, ended, Subprocess, new,
  monitor_at, close_handle, can_join, join_at, join_child, after_create, after_pipe, start_child,
  say_goodbye, destruct,
}
use system_abstractions.Subprocess.Windows.Handles.{
  Action, starts, monitors, System, push, act, run, first, still_open, creations, reports, held,
  pending, pipe_idle, Balances,
}

push-append : (es fs log : List Effect) → push (es ++ fs) log ≡ push fs (push es log)
push-append [] fs log = refl
push-append (e ∷ es) fs log = push-append es fs (e ∷ log)

-- Closing what was held, in the order of `JoinChild`.
close-still_open :
    (p q : Option ℕ) (log : List Effect)
    → still_open log ≡ to_list p ++ to_list q
    → still_open (push (close_handle p ++ close_handle q) log) ≡ []
unfolding still_open
close-still_open none none log o = o
close-still_open none (some h) log o = ap (without h) o ∙ without-head h []
close-still_open (some g) none log o = ap (without g) o ∙ without-head g []
close-still_open (some g) (some h) log o =
    ap (λ l. without h (without g l)) o
    ∙ ap (without h) (without-head g (h ∷ []))
    ∙ without-head h []

close-counts :
    (p q : Option ℕ) (log : List Effect)
    → creations log ≡ reports log
    → creations (push (close_handle p ++ close_handle q) log)
      ≡ reports (push (close_handle p ++ close_handle q) log)
unfolding creations reports
close-counts none none log c = c
close-counts none (some h) log c = c
close-counts (some g) none log c = c
close-counts (some g) (some h) log c = c

idle-none : (q : Option ℕ) → pipe_idle no_worker q ≡ true → q ≡ none
idle-none none i = refl
idle-none (some h) i = absurd (cc i)

record Joined (s : Subprocess) (log : List Effect) : Type 0 where
  all_closed : still_open log ≡ []
  all_told : creations log ≡ reports log
  no_pipe : s.pipe ≡ none
  not_running : s.worker ≡ no_worker

Joined-join_at :
    (w : Worker) (s : Subprocess) (log : List Effect)
    → s.worker ≡ w
    → can_join w ≡ true
    → Balances w s log
    → Joined (join_at w s).0 (push (join_at w s).1 log)
unfolding join_at held pending
Joined-join_at no_worker s log e j b = record {
  all_closed = b.opens;
  all_told = omega (arith, b.counts);
  no_pipe = idle-none s.pipe b.idle;
  not_running = e;
}
Joined-join_at starting s log e j b = absurd (cc j)
Joined-join_at reading s log e j b = absurd (cc j)
Joined-join_at reaping s log e j b = absurd (cc j)
Joined-join_at ended s log e j b = record {
  all_closed = close-still_open s.child s.pipe log b.opens;
  all_told = close-counts s.child s.pipe log (omega (arith, b.counts));
  no_pipe = refl;
  not_running = refl;
}

-- The end that the child has got, closed behind two other handles.
without-second : (process w : ℕ) (gs : List ℕ) → without w (process ∷ w ∷ gs) ≡ process ∷ gs
unfolding without
without-second process w gs = elim (Bool-cases (w == process)) [
  | inl e ↦ rw (e, without) (ap (λ x. x ∷ gs) (let d : w ≡ process = ground arith in d))
  | inr e ↦ rw (e, without) (ap (◌∷◌ process) (without-head w gs))
]

Balances-after_pipe :
    (s : Subprocess) (log : List Effect) (ends process : Option (ℕ × ℕ))
    → Joined s log
    → Balances
        (after_pipe s ends process).0.worker
        (after_pipe s ends process).0
        (push (after_pipe s ends process).1 log)
unfolding after_pipe after_create still_open creations reports held pending
Balances-after_pipe s log none process j =
    subst (λ w. Balances w s log) (sym j.not_running)
      (record {
        opens = j.all_closed;
        counts = omega (arith, j.all_told);
        idle = ap (pipe_idle no_worker) j.no_pipe;
      })
Balances-after_pipe s log (some (r, w)) none j =
    subst
      (λ v. Balances v (record s { pipe = none }) (closed w ∷ closed r ∷ opened w ∷ opened r ∷ log))
      (sym j.not_running)
      (record {
        opens = without-both r w (still_open log) ∙ j.all_closed;
        counts = omega (arith, j.all_told);
        idle = refl;
      })
Balances-after_pipe s log (some (r, w)) (some (process, id)) j = record {
  opens = without-second process w (r ∷ still_open log) ∙ ap (λ l. process ∷ r ∷ l) j.all_closed;
  counts = omega (arith, j.all_told);
  idle = refl;
}

Balances-start :
    (s : Subprocess) (log : List Effect) (e c : ℕ) (ends process : Option (ℕ × ℕ))
    → can_join s.worker ≡ true
    → Balances s.worker s log
    → Balances
        (start_child s e c ends process).0.worker
        (start_child s e c ends process).0
        (push (start_child s e c ends process).1 log)
unfolding start_child
Balances-start s log e c ends process can b =
    let s₁ : Subprocess = record (join_child s).0 { child_exited = e; child_crashed = c } in
    let joined = Joined-join_at s.worker s log refl can b in
    subst (λ l. Balances (after_pipe s₁ ends process).0.worker (after_pipe s₁ ends process).0 l)
      (sym (push-append (join_child s).1 (after_pipe s₁ ends process).1 log))
      (Balances-after_pipe s₁ (push (join_child s).1 log) ends process (record {
        all_closed = joined.all_closed;
        all_told = joined.all_told;
        no_pipe = joined.no_pipe;
        not_running = joined.not_running;
      }))

Balances-monitor_at :
    (w : Worker) (s : Subprocess) (log : List Effect) (got : Bool)
    → s.worker ≡ w
    → Balances w s log
    → Balances
        (monitor_at w s got).0.worker
        (monitor_at w s got).0
        (push (monitor_at w s got).1 log)
unfolding monitor_at still_open creations reports held pending
Balances-monitor_at no_worker s log got e b = subst (λ w. Balances w s log) (sym e) b
Balances-monitor_at starting s log got e b = record {
  opens = b.opens;
  counts = b.counts;
  idle = refl;
}
Balances-monitor_at reading s log got e b = record {
  opens = b.opens;
  counts = omega (arith, b.counts);
  idle = refl;
}
Balances-monitor_at reaping s log got e b = record {
  opens = b.opens;
  counts = b.counts;
  idle = refl;
}
Balances-monitor_at ended s log got e b = subst (λ w. Balances w s log) (sym e) b

Balances-act :
    (y : System) (a : Action)
    → Balances y.process.worker y.process y.log
    → Balances (act y a).process.worker (act y a).process (act y a).log
unfolding act
Balances-act y (starts e c ends process) b = elim (Bool-cases (can_join y.process.worker)) [
  | inl j ↦ rw (j, act) (Balances-start y.process y.log e c ends process j b)
  | inr j ↦ rw (j, act) b
]
Balances-act y (monitors got) b = Balances-monitor_at y.process.worker y.process y.log got refl b

Balances-run :
    (y : System) (actions : List Action)
    → Balances y.process.worker y.process y.log
    → Balances (run y actions).process.worker (run y actions).process (run y actions).log
unfolding run
Balances-run y [] b = b
Balances-run y (a ∷ actions) b = Balances-run (act y a) actions (Balances-act y a b)

Balances-first : Balances first.process.worker first.process first.log
unfolding new still_open creations reports held pending
Balances-first = record { opens = refl; counts = refl; idle = refl }

-- After every order of calls of `StartChild` and steps of the worker, whatever the operating system
-- answers, the destructor, where it does not wait, leaves no handle open and as many reports as there
-- were processes.
pub destruct-run_lem :
    (actions : List Action)
    → can_join (run first actions).process.worker ≡ true
    → (still_open (push (destruct (run first actions).process) (run first actions).log) ≡ [])
      × (creations (push (destruct (run first actions).process) (run first actions).log)
          ≡ reports (push (destruct (run first actions).process) (run first actions).log))
unfolding destruct
destruct-run_lem actions j =
    let y : System = run first actions in
    let joined =
      Joined-join_at y.process.worker y.process y.log refl j
        (Balances-run first actions Balances-first) in
    let e : push (destruct y.process) y.log ≡ push (join_child y.process).1 y.log =
      ap (λ q. push ((join_child y.process).1 ++ say_goodbye q) y.log) joined.no_pipe
      ∙ ap (λ l. push l y.log) (append-nil (join_child y.process).1) in
    (ap still_open e ∙ joined.all_closed, ap creations e ∙ joined.all_told ∙ sym (ap reports e))
