-- ===== src/Subprocess/Posix.antt =====
-- src/Posix/SubprocessPosix.cpp. The answers of the operating system are arguments of the operations,
-- and what an operation does to the rest of the system is a list of effects, in order.
pub mod System
pub mod Joining
pub mod Lifecycle
pub mod Arguments
pub mod Family
pub mod Detached
use system_abstractions.Base.{
  ℕ, zero, suc, ◌+◌, Bool, true, false, ◌&&◌, List, [], ◌∷◌, ◌++◌, map, Option, none, some, leb,
  length, if◌then◌else◌, Text, text,
}
use system_abstractions.Subprocess.CommandLine.{same_text}
use system_abstractions.Subprocess.Decimal.{scan_decimal}

-- What the operations do: descriptors opened and closed, a process forked with the functions to call
-- for it, SIGINT's handler set and set back, a function called, `waitpid`, and a byte written.
pub data Effect : Type 0 where
  opened closed : ℕ → Effect
  forked : ℕ → ℕ → ℕ → Effect
  handler_set handler_restored : Effect
  called : ℕ → Effect
  waited : Option ℕ → Effect
  wrote : ℕ → Effect

-- What `read` of one byte answers: a byte, zero, EINTR, or another error.
pub data ReadAnswer : Type 0 where
  got_byte end_of_file interrupted read_failed : ReadAnswer

-- The worker thread: not there, at the start of `MonitorChild`, in its loop, after the loop, and
-- ended but not joined.
pub data Worker : Type 0 where
  no_worker starting reading reaping ended : Worker

-- `Subprocess::Impl`. A negative number is `none`, and a function is a number.
pub record Subprocess : Type 0 where
  pub worker : Worker
  pub child_exited : ℕ
  pub child_crashed : ℕ
  pub child : Option ℕ
  pub pipe : Option ℕ

unfoldable pub new : Subprocess
new = record { worker = no_worker; child_exited = 0; child_crashed = 0; child = none; pipe = none }

-- `VectorFromString`
unfoldable pub vector_from_string : Text → Text
vector_from_string s = s ++ 0 ∷ []

-- The loop of `MonitorChild`, one `read` at a time.
unfoldable pub after_read : Subprocess → ReadAnswer → Subprocess × List Effect
after_read s got_byte = (record s { worker = reaping }, called s.child_exited ∷ [])
after_read s end_of_file = (record s { worker = reaping }, called s.child_crashed ∷ [])
after_read s read_failed = (record s { worker = reaping }, called s.child_crashed ∷ [])
after_read s interrupted = (s, [])

unfoldable pub monitor_at : Worker → Subprocess → ReadAnswer → Subprocess × List Effect
monitor_at no_worker s answer = (s, [])
monitor_at starting s answer = (record s { worker = reading }, handler_set ∷ [])
monitor_at reading s answer = after_read s answer
monitor_at reaping s answer = (record s { worker = ended }, waited s.child ∷ handler_restored ∷ [])
monitor_at ended s answer = (s, [])

-- The next step of `MonitorChild`; the answer is for a step that reads.
abbrev pub monitor_child : Subprocess → ReadAnswer → Subprocess × List Effect
monitor_child s answer = monitor_at s.worker s answer

abbrev pub close_pipe : Option ℕ → List Effect
close_pipe none = []
close_pipe (some fd) = closed fd ∷ []

-- `JoinChild` while the worker runs waits: `can_join` tells when it goes on.
abbrev pub can_join : Worker → Bool
can_join no_worker = true
can_join starting = false
can_join reading = false
can_join reaping = false
can_join ended = true

unfoldable pub join_at : Worker → Subprocess → Subprocess × List Effect
join_at no_worker s = (s, [])
join_at starting s = (s, [])
join_at reading s = (s, [])
join_at reaping s = (s, [])
join_at ended s = (record s { worker = no_worker; child = none; pipe = none }, close_pipe s.pipe)

-- `JoinChild`, when it goes on.
abbrev pub join_child : Subprocess → Subprocess × List Effect
join_child s = join_at s.worker s

-- `StartChild` from the answer of `fork` on, with the ends of the pipe.
unfoldable pub after_fork : Subprocess → ℕ → ℕ → Option ℕ → Subprocess × List Effect × ℕ
after_fork s r w none =
    (record s { child = none }, opened r ∷ opened w ∷ closed r ∷ closed w ∷ [], 0)
after_fork s r w (some pid) = (
  record s { child = some pid; pipe = some r; worker = starting },
  opened r ∷ opened w ∷ forked pid s.child_exited s.child_crashed ∷ closed w ∷ [],
  pid,
)

unfoldable pub after_pipe : Subprocess → Option (ℕ × ℕ) → Option ℕ → Subprocess × List Effect × ℕ
after_pipe s none pid = (s, [], 0)
after_pipe s (some (r, w)) pid = after_fork s r w pid

abbrev pub also : List Effect → Subprocess × List Effect × ℕ → Subprocess × List Effect × ℕ
also es (s, fs, result) = (s, es ++ fs, result)

-- `StartChild` in the parent, with the answers of `pipe` and `fork`. It returns the process's number.
unfoldable pub start_child :
    Subprocess → ℕ → ℕ → Option (ℕ × ℕ) → Option ℕ → Subprocess × List Effect × ℕ
start_child s exited crashed ends pid =
    let (s₁, es) = join_child s in
    also es (after_pipe (record s₁ { child_exited = exited; child_crashed = crashed }) ends pid)

-- The arguments that `StartChild` gives to `execv`; `print` is `StringExtensions::sprintf` with "%d".
unfoldable pub child_arguments : (ℕ → Text) → Text → ℕ → List Text → List Text
child_arguments print program w args =
    map vector_from_string (program ∷ text "child" ∷ print w ∷ args)

abbrev pub pipe_number : Bool × ℕ → Option ℕ
pipe_number (negative, zero) = some 0
pipe_number (negative, suc n) = if negative then none else some (suc n)

abbrev pub adopt :
    Subprocess → List Text → List Text → Option (Bool × ℕ) → Subprocess × List Text × Bool
adopt s args rest none = (s, args, false)
adopt s args rest (some number) = (record s { pipe = pipe_number number }, rest, true)

-- `ContactParent`
unfoldable pub contact_parent : Subprocess → List Text → Subprocess × List Text × Bool
contact_parent s [] = (s, [], false)
contact_parent s (a ∷ []) = (s, a ∷ [], false)
contact_parent s (a ∷ b ∷ args) =
    if same_text a (text "child")
    then adopt s (a ∷ b ∷ args) args (scan_decimal b)
    else (s, a ∷ b ∷ args, false)

abbrev pub say_goodbye : Option ℕ → List Effect
say_goodbye none = []
say_goodbye (some fd) = wrote fd ∷ closed fd ∷ []

-- The destructor, when `JoinChild` goes on.
unfoldable pub destruct : Subprocess → List Effect
destruct s = let (s₁, es) = join_child s in es ++ say_goodbye s₁.pipe
