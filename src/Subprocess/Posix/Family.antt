-- ===== src/Subprocess/Posix/Family.antt =====
-- A parent and its child, each with a Subprocess of src/Posix/SubprocessPosix.cpp, and the pipe between
-- them: every order of the worker's steps and of what the child does.
pub mod Told
use system_abstractions.Base.{
  ℕ, zero, suc, ◌+◌, ◌-◌, ◌≡◌, refl, sym, ap, ◌∙◌, ◌⊎◌, inl, inr, Bool, true, false, List, [], ◌∷◌,
  ◌++◌, append-nil, arith, Option, none, some, ◌==◌, ltb, Bool-cases, if◌then◌else◌,
}
use system_abstractions.Subprocess.Posix.{
  Effect, opened, closed, forked, handler_set, handler_restored, called, waited, wrote, ReadAnswer,
  got_byte, end_of_file, interrupted, read_failed, Worker, no_worker, starting, reading, reaping,
  ended, Subprocess, new, after_read, monitor_at, monitor_child, close_pipe, can_join, join_at,
  join_child, after_fork, after_pipe, also, start_child, say_goodbye, destruct,
}

-- The functions that effects call.
unfoldable pub calls : List Effect → List ℕ
calls [] = []
calls (called f ∷ es) = f ∷ calls es
calls (opened fd ∷ es) = calls es
calls (closed fd ∷ es) = calls es
calls (forked pid e c ∷ es) = calls es
calls (handler_set ∷ es) = calls es
calls (handler_restored ∷ es) = calls es
calls (waited pid ∷ es) = calls es
calls (wrote fd ∷ es) = calls es

-- The bytes that effects write to a descriptor.
unfoldable pub written : ℕ → List Effect → ℕ
written w [] = 0
written w (wrote fd ∷ es) = (if fd == w then 1 else 0) + written w es
written w (called f ∷ es) = written w es
written w (opened fd ∷ es) = written w es
written w (closed fd ∷ es) = written w es
written w (forked pid e c ∷ es) = written w es
written w (handler_set ∷ es) = written w es
written w (handler_restored ∷ es) = written w es
written w (waited pid ∷ es) = written w es

-- `told` are the functions called so far, `buffer` the bytes in the pipe, `child` the child's object,
-- `write_end` the pipe's other end as the child knows it, and `said` whether the child's object was
-- destroyed. A child that is not alive has no descriptors.
pub record Family : Type 0 where
  pub parent : Subprocess
  pub told : List ℕ
  pub buffer : ℕ
  pub write_end : ℕ
  pub child : Subprocess
  pub alive : Bool
  pub said : Bool

-- The worker goes on, in a `read` with a signal or without; the child's object is destroyed, and its
-- process goes on to its end; or the process ends in any other way.
pub data Action : Type 0 where
  monitors : Bool → Action
  finishes dies : Action

-- What `read` answers: what is in the pipe, the end if it is empty and nobody can write to it, and
-- otherwise nothing yet, unless a signal comes.
unfoldable pub read_answer : Family → Bool → Option ReadAnswer
read_answer f signal =
    if ltb 0 f.buffer
    then some got_byte
    else if f.alive
    then if signal then some interrupted else none
    else some end_of_file

unfoldable pub takes : ReadAnswer → ℕ → ℕ
takes got_byte n = n - 1
takes end_of_file n = n
takes interrupted n = n
takes read_failed n = n

unfoldable pub monitors_with : Worker → Family → ReadAnswer → Family
monitors_with w f answer =
    let (s, es) = monitor_at w f.parent answer in
    record f { parent = s; told = f.told ++ calls es; buffer = takes answer f.buffer }

unfoldable pub after_answer : Family → Option ReadAnswer → Family
after_answer f none = f
after_answer f (some answer) = monitors_with reading f answer

-- The answer of `read` is for the step that reads.
unfoldable pub monitors_at : Worker → Family → Bool → Family
monitors_at reading f signal = after_answer f (read_answer f signal)
monitors_at no_worker f signal = monitors_with no_worker f interrupted
monitors_at starting f signal = monitors_with starting f interrupted
monitors_at reaping f signal = monitors_with reaping f interrupted
monitors_at ended f signal = monitors_with ended f interrupted

abbrev pub finished_child : Family → Family
finished_child f = record f {
  buffer = f.buffer + written f.write_end (destruct f.child);
  alive = false;
  said = true;
}

unfoldable pub act : Family → Action → Family
act f (monitors signal) = monitors_at f.parent.worker f signal
act f finishes = if f.alive then finished_child f else f
act f dies = record f { alive = false }

unfoldable pub run : Family → List Action → Family
run f [] = f
run f (a ∷ actions) = run (act f a) actions

-- After `StartChild` with the functions `e` and `c`, and `ContactParent` in the child.
abbrev pub begin : Subprocess → ℕ → ℕ → ℕ → ℕ → ℕ → Family
begin s e c r w pid = record {
  parent = (start_child s e c (some (r, w)) (some pid)).0;
  told = [];
  buffer = 0;
  write_end = w;
  child = record new { pipe = some w };
  alive = true;
  said = false;
}
