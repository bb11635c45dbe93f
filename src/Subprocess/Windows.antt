-- ===== src/Subprocess/Windows.antt =====
-- src/Win32/SubprocessWin32.cpp, less its command lines. The answers of the operating system are
-- arguments of the operations, and what an operation does to the rest of the system is a list of
-- effects, in order.
pub mod Arguments
pub mod Handles
pub mod Lifecycle
pub mod Processes
use system_abstractions.Base.{
  ℕ, zero, suc, ◌+◌, Bool, true, false, ◌&&◌, List, [], ◌∷◌, ◌++◌, Option, none, some,
  if◌then◌else◌, Text, text,
}
use system_abstractions.Subprocess.CommandLine.{same_text, with_extension, make_command_line}
use system_abstractions.Subprocess.Decimal.{scan_decimal}

-- What the operations do: handles made and closed, a process created with a command line and the
-- functions to call for it, SIGINT's handler set and set back, a function called, a wait for a
-- process, a byte written, and a process terminated.
pub data Effect : Type 0 where
  opened closed : ℕ → Effect
  created : ℕ → ℕ → ℕ → Effect
  handler_set handler_restored : Effect
  called : ℕ → Effect
  waited : Option ℕ → Effect
  wrote terminated : ℕ → Effect

-- The worker thread: not there, at the start of `MonitorChild`, ahead of the read, after it, and ended
-- but not joined.
pub data Worker : Type 0 where
  no_worker starting reading reaping ended : Worker

-- `Subprocess::Impl`. INVALID_HANDLE_VALUE is `none`, and a function is a number.
pub record Subprocess : Type 0 where
  pub worker : Worker
  pub child_exited : ℕ
  pub child_crashed : ℕ
  pub child : Option ℕ
  pub pipe : Option ℕ

unfoldable pub new : Subprocess
new = record { worker = no_worker; child_exited = 0; child_crashed = 0; child = none; pipe = none }

-- The next step of `MonitorChild`, with what `ReadFile` returns for a step that reads.
unfoldable pub monitor_at : Worker → Subprocess → Bool → Subprocess × List Effect
monitor_at no_worker s got = (s, [])
monitor_at starting s got = (record s { worker = reading }, handler_set ∷ [])
monitor_at reading s got =
    (record s { worker = reaping }, called (if got then s.child_exited else s.child_crashed) ∷ [])
monitor_at reaping s got = (record s { worker = ended }, waited s.child ∷ handler_restored ∷ [])
monitor_at ended s got = (s, [])

abbrev pub close_handle : Option ℕ → List Effect
close_handle none = []
close_handle (some h) = closed h ∷ []

-- `JoinChild` while the worker runs waits.
abbrev pub can_join : Worker → Bool
can_join no_worker = true
can_join starting = false
can_join reading = false
can_join reaping = false
can_join ended = true

unfoldable pub join_at : Worker → Subprocess → Subprocess × List Effect
join_at no_worker s = (s, [])
join_at starting s = (s, [])
join_at reading s = (s, [])
join_at reaping s = (s, [])
join_at ended s = (
  record s { worker = no_worker; child = none; pipe = none },
  close_handle s.child ++ close_handle s.pipe,
)

-- `JoinChild`, when it goes on.
abbrev pub join_child : Subprocess → Subprocess × List Effect
join_child s = join_at s.worker s

-- `StartChild` from the answer of `CreateProcessA` on: the handle and the number of the process.
unfoldable pub after_create : Subprocess → ℕ → ℕ → Option (ℕ × ℕ) → Subprocess × List Effect × ℕ
after_create s r w none =
    (record s { pipe = none }, opened r ∷ opened w ∷ closed r ∷ closed w ∷ [], 0)
after_create s r w (some (process, id)) = (
  record s { child = some process; pipe = some r; worker = starting },
  opened r ∷ opened w ∷ opened process ∷ created id s.child_exited s.child_crashed ∷ closed w ∷ [],
  id,
)

unfoldable pub after_pipe :
    Subprocess → Option (ℕ × ℕ) → Option (ℕ × ℕ) → Subprocess × List Effect × ℕ
after_pipe s none process = (s, [], 0)
after_pipe s (some (r, w)) process = after_create s r w process

abbrev pub also : List Effect → Subprocess × List Effect × ℕ → Subprocess × List Effect × ℕ
also es (s, fs, result) = (s, es ++ fs, result)

-- `StartChild`, with the answers of `CreatePipe` and `CreateProcessA`. It returns the process's number.
unfoldable pub start_child :
    Subprocess → ℕ → ℕ → Option (ℕ × ℕ) → Option (ℕ × ℕ) → Subprocess × List Effect × ℕ
start_child s exited crashed ends process =
    let (s₁, es) = join_child s in
    also es (after_pipe (record s₁ { child_exited = exited; child_crashed = crashed }) ends process)

-- The command line of `StartChild`; `print` is `StringExtensions::sprintf` with "%" PRIu64.
unfoldable pub child_command_line : (ℕ → Text) → Text → ℕ → List Text → Text
child_command_line print program w args =
    make_command_line (with_extension program) (text "child" ∷ print w ∷ args)

-- The command line of `StartDetached`
unfoldable pub detached_command_line : Text → List Text → Text
detached_command_line program args = make_command_line (with_extension program) args

-- `StartDetached`, with the handle and the number of the process.
unfoldable pub start_detached : Option (ℕ × ℕ) → List Effect × ℕ
start_detached none = ([], 0)
start_detached (some (process, id)) = (opened process ∷ closed process ∷ [], id)

-- A number with a minus sign stands for a handle that this model does not name.
abbrev pub adopt :
    Subprocess → List Text → List Text → Option (Bool × ℕ) → Subprocess × List Text × Bool
adopt s args rest none = (s, args, false)
adopt s args rest (some (true, n)) = (record s { pipe = none }, rest, true)
adopt s args rest (some (false, n)) = (record s { pipe = some n }, rest, true)

-- `ContactParent`
unfoldable pub contact_parent : Subprocess → List Text → Subprocess × List Text × Bool
contact_parent s [] = (s, [], false)
contact_parent s (a ∷ []) = (s, a ∷ [], false)
contact_parent s (a ∷ b ∷ args) =
    if same_text a (text "child")
    then adopt s (a ∷ b ∷ args) args (scan_decimal b)
    else (s, a ∷ b ∷ args, false)

abbrev pub say_goodbye : Option ℕ → List Effect
say_goodbye none = []
say_goodbye (some h) = wrote h ∷ closed h ∷ []

-- The destructor, when `JoinChild` goes on.
unfoldable pub destruct : Subprocess → List Effect
destruct s = let (s₁, es) = join_child s in es ++ say_goodbye s₁.pipe

-- `Kill`, with the handle that `OpenProcess` gives.
unfoldable pub kill : Option ℕ → List Effect
kill none = []
kill (some process) = opened process ∷ terminated process ∷ closed process ∷ []
