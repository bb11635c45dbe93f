-- ===== src/Subprocess/Posix/Lifecycle.antt =====
-- Every order of the calls and the worker's steps of src/Posix/SubprocessPosix.cpp: what the log tells, and
-- the worker's end.

use system_abstractions.Base.{
  ℕ, suc, ◌+◌, ◌-◌, ◌≤◌, map, ◌≡◌, refl, sym, ap, ◌∙◌, inl, inr, true, List, [], ◌∷◌, ◌++◌,
  append-nil, arith, Option, none, some, ◌==◌, Bool-cases,
}
use system_abstractions.Subprocess.Posix.{
  Effect, handler_set, handler_restored, called, waited, ReadAnswer, got_byte, end_of_file,
  interrupted, read_failed, Worker, no_worker, starting, reading, reaping, ended, Subprocess, new,
  after_read, monitor_at, can_join, join_child, say_goodbye, destruct,
}
use system_abstractions.Subprocess.Posix.System.{
  Action, starts, monitors, System, push, act, run, first, still_open, no_child, next_stage, stage,
  stage_at, child_known, Follows,
}
use system_abstractions.Subprocess.Posix.Joining.{Follows-start, Joined-join_child}

stage-handler_set :
    (p : Option ℕ) (e c : ℕ)
    → next_stage handler_set (stage_at starting p e c) ≡ stage_at reading p e c
unfolding next_stage stage_at
stage-handler_set none e c = refl
stage-handler_set (some pid) e c = refl

stage-exited :
    (p : Option ℕ) (e c : ℕ)
    → next_stage (called e) (stage_at reading p e c) ≡ stage_at reaping p e c
unfolding next_stage stage_at
stage-exited none e c = refl
stage-exited (some pid) e c = let d : (e == e) ≡ true = ground arith in rw (d, next_stage) refl

stage-crashed :
    (p : Option ℕ) (e c : ℕ)
    → next_stage (called c) (stage_at reading p e c) ≡ stage_at reaping p e c
unfolding next_stage stage_at
stage-crashed none e c = refl
stage-crashed (some pid) e c =
    let d : (c == c) ≡ true = ground arith in
    elim (Bool-cases (c == e)) [
      | inl h ↦ rw (h, next_stage) refl
      | inr h ↦ rw (h, d, next_stage) refl
    ]

stage-waited :
    (p : Option ℕ) (e c : ℕ)
    → child_known reaping p ≡ true
    → next_stage handler_restored (next_stage (waited p) (stage_at reaping p e c)) ≡ no_child
unfolding next_stage stage_at
stage-waited none e c k = absurd (cc k)
stage-waited (some pid) e c k =
    let d : (pid == pid) ≡ true = ground arith in rw (d, next_stage) refl

-- The worker's phase is `w`, in the record and in its stage.
stages_at :
    (w : Worker) (s : Subprocess) (log : List Effect)
    → s.worker ≡ w
    → Follows s log
    → stage log ≡ stage_at w s.child s.child_exited s.child_crashed
stages_at w s log e f = f.stages ∙ ap (λ x. stage_at x s.child s.child_exited s.child_crashed) e

known_at :
    (w : Worker) (s : Subprocess) (log : List Effect)
    → s.worker ≡ w
    → Follows s log
    → child_known w s.child ≡ true
known_at w s log e f = sym (ap (λ x. child_known x s.child) e) ∙ f.known

Follows-monitor_at :
    (w : Worker) (s : Subprocess) (log : List Effect) (answer : ReadAnswer)
    → s.worker ≡ w
    → Follows s log
    → Follows (monitor_at w s answer).0 (push (monitor_at w s answer).1 log)
unfolding monitor_at after_read stage next_stage stage_at still_open
Follows-monitor_at no_worker s log answer e f = f
Follows-monitor_at starting s log answer e f = record {
  opens = f.opens;
  stages =
      ap (next_stage handler_set) (stages_at starting s log e f)
      ∙ stage-handler_set s.child s.child_exited s.child_crashed;
  idle = refl;
  known = known_at starting s log e f;
}
Follows-monitor_at reading s log got_byte e f = record {
  opens = f.opens;
  stages =
      ap (next_stage (called s.child_exited)) (stages_at reading s log e f)
      ∙ stage-exited s.child s.child_exited s.child_crashed;
  idle = refl;
  known = known_at reading s log e f;
}
Follows-monitor_at reading s log end_of_file e f = record {
  opens = f.opens;
  stages =
      ap (next_stage (called s.child_crashed)) (stages_at reading s log e f)
      ∙ stage-crashed s.child s.child_exited s.child_crashed;
  idle = refl;
  known = known_at reading s log e f;
}
Follows-monitor_at reading s log interrupted e f = f
Follows-monitor_at reading s log read_failed e f = record {
  opens = f.opens;
  stages =
      ap (next_stage (called s.child_crashed)) (stages_at reading s log e f)
      ∙ stage-crashed s.child s.child_exited s.child_crashed;
  idle = refl;
  known = known_at reading s log e f;
}
Follows-monitor_at reaping s log answer e f = record {
  opens = f.opens;
  stages =
      ap (λ st. next_stage handler_restored (next_stage (waited s.child) st))
        (stages_at reaping s log e f)
      ∙ stage-waited s.child s.child_exited s.child_crashed (known_at reaping s log e f);
  idle = refl;
  known = refl;
}
Follows-monitor_at ended s log answer e f = f

Follows-act :
    (y : System) (a : Action) → Follows y.process y.log → Follows (act y a).process (act y a).log
unfolding act
Follows-act y (starts e c ends pid) f = elim (Bool-cases (can_join y.process.worker)) [
  | inl j ↦ rw (j, act) (Follows-start y.process y.log e c ends pid j f)
  | inr j ↦ rw (j, act) f
]
Follows-act y (monitors answer) f =
    Follows-monitor_at y.process.worker y.process y.log answer refl f

-- In every order of calls of `StartChild` and steps of the worker, whatever the operating system
-- answers, a log tells of one child at a time: each is followed by a change of SIGINT's handler, a
-- call of one of the two functions given for it, a wait for it and the handler's change back, ahead of
-- the next child; and the descriptors left open are the one that the object holds.
pub run-Follows :
    (y : System) (actions : List Action)
    → Follows y.process y.log
    → Follows (run y actions).process (run y actions).log
unfolding run
run-Follows y [] f = f
run-Follows y (a ∷ actions) f = run-Follows (act y a) actions (Follows-act y a f)

destruct_lem :
    (y : System)
    → Follows y.process y.log
    → can_join y.process.worker ≡ true
    → (still_open (push (destruct y.process) y.log) ≡ [])
      × (stage (push (destruct y.process) y.log) ≡ no_child)
unfolding destruct
destruct_lem y f j =
    let joined = Joined-join_child y.process y.log j f in
    let e : push (destruct y.process) y.log ≡ push (join_child y.process).1 y.log =
      ap (λ q. push ((join_child y.process).1 ++ say_goodbye q) y.log) joined.no_pipe
      ∙ ap (λ l. push l y.log) (append-nil (join_child y.process).1) in
    (ap still_open e ∙ joined.all_closed, ap stage e ∙ joined.no_stage)

Follows-first : Follows first.process first.log
unfolding new still_open stage stage_at
Follows-first = record { opens = refl; stages = refl; idle = refl; known = refl }

-- After every order of calls of `StartChild` and steps of the worker, whatever the operating
-- system answers, the destructor, where it does not wait, leaves no descriptor open and no child
-- that was not waited for: each child was followed by a change of SIGINT's handler, a call of one
-- of the two functions given for it, a wait for it and the handler's change back, ahead of the
-- next child.
pub destruct-run :
    (actions : List Action)
    → can_join (run first actions).process.worker ≡ true
    → (still_open (push (destruct (run first actions).process) (run first actions).log) ≡ [])
      × (stage (push (destruct (run first actions).process) (run first actions).log) ≡ no_child)
destruct-run actions j =
    destruct_lem (run first actions) (run-Follows first actions Follows-first) j

-- The answers other than EINTR.
unfoldable pub others : List ReadAnswer → ℕ
others [] = 0
others (interrupted ∷ answers) = others answers
others (got_byte ∷ answers) = suc (others answers)
others (end_of_file ∷ answers) = suc (others answers)
others (read_failed ∷ answers) = suc (others answers)

-- The steps that the worker has left.
abbrev left : Worker → ℕ
left no_worker = 0
left starting = 3
left reading = 2
left reaping = 1
left ended = 0

left-can_join : (w : Worker) → left w ≡ 0 → can_join w ≡ true
left-can_join no_worker h = refl
left-can_join starting h = absurd (omega arith)
left-can_join reading h = absurd (omega arith)
left-can_join reaping h = absurd (omega arith)
left-can_join ended h = refl

others_cons :
    (a : ReadAnswer) (later : List ReadAnswer) → others (a ∷ later) ≡ others (a ∷ []) + others later
unfolding others
others_cons got_byte later = omega arith
others_cons end_of_file later = omega arith
others_cons interrupted later = omega arith
others_cons read_failed later = omega arith

left-monitor_at :
    (w : Worker) (s : Subprocess) (answer : ReadAnswer)
    → s.worker ≡ w
    → left (monitor_at w s answer).0.worker ≤ left w - others (answer ∷ [])
unfolding monitor_at after_read others
left-monitor_at no_worker s got_byte e = omega (arith, ap left e)
left-monitor_at no_worker s end_of_file e = omega (arith, ap left e)
left-monitor_at no_worker s interrupted e = omega (arith, ap left e)
left-monitor_at no_worker s read_failed e = omega (arith, ap left e)
left-monitor_at starting s got_byte e = omega arith
left-monitor_at starting s end_of_file e = omega arith
left-monitor_at starting s interrupted e = omega arith
left-monitor_at starting s read_failed e = omega arith
left-monitor_at reading s got_byte e = omega arith
left-monitor_at reading s end_of_file e = omega arith
left-monitor_at reading s interrupted e = omega (arith, ap left e)
left-monitor_at reading s read_failed e = omega arith
left-monitor_at reaping s got_byte e = omega arith
left-monitor_at reaping s end_of_file e = omega arith
left-monitor_at reaping s interrupted e = omega arith
left-monitor_at reaping s read_failed e = omega arith
left-monitor_at ended s got_byte e = omega (arith, ap left e)
left-monitor_at ended s end_of_file e = omega (arith, ap left e)
left-monitor_at ended s interrupted e = omega (arith, ap left e)
left-monitor_at ended s read_failed e = omega (arith, ap left e)

-- The worker's steps alone, with these answers.
unfoldable pub monitor_all : System → List ReadAnswer → System
monitor_all y answers = run y (map monitors answers)

-- From every state, `JoinChild` does not wait any more once the worker has gone on with as many
-- answers other than EINTR as it has steps left (three at most), however many answers EINTR come
-- between.
pub monitor_all_ends :
    (answers : List ReadAnswer) (y : System)
    → left y.process.worker ≤ others answers
    → can_join (monitor_all y answers).process.worker ≡ true
unfolding monitor_all run act others
monitor_all_ends [] y h = left-can_join y.process.worker (omega arith)
monitor_all_ends (answer ∷ answers) y h =
    let less : left (act y (monitors answer)).process.worker
        ≤ left y.process.worker - others (answer ∷ []) =
      left-monitor_at y.process.worker y.process answer refl in
    monitor_all_ends answers (act y (monitors answer))
      (omega (arith, less, others_cons answer answers, h))
