-- ===== src/Subprocess/Posix/Detached.antt =====
-- `StartDetached` of src/Posix/SubprocessPosix.cpp: the process in between and its own child.
use system_abstractions.Base.{
  ℕ, ◌+◌, ◌*◌, ◌/◌, ◌%◌, ◌^◌, ◌<◌, ◌≡◌, refl, ap, ◌∙◌, List, [], ◌∷◌, map, Option, none, some,
  arith, ◌==◌, if◌then◌else◌, Text, length,
}
use system_abstractions.Subprocess.Posix.{Effect, opened, closed, waited, vector_from_string}
use system_abstractions.Subprocess.Posix.System.{still_open, without, push}
use system_abstractions.Subprocess.Posix.Joining.{without-head, without-both}

-- The bytes of an `unsigned int` of 32 bits in memory, and the number they stand for. Both processes
-- have the same order of bytes.
unfoldable pub to_bytes : ℕ → List ℕ
to_bytes n = n % 256 ∷ (n / 256) % 256 ∷ (n / 2 ^ 16) % 256 ∷ (n / 2 ^ 24) % 256 ∷ []

unfoldable pub from_bytes : List ℕ → ℕ
from_bytes [] = 0
from_bytes (b ∷ bs) = b + 256 * from_bytes bs

-- How the process in between ends, by what its own `fork` answers: its status, and the bytes it
-- wrote.
unfoldable pub between : Option ℕ → ℕ × List ℕ
between none = (255, [])
between (some grandchild) = (0, to_bytes grandchild)

-- The arguments for `execv`
unfoldable pub detached_arguments : Text → List Text → List Text
detached_arguments program args = map vector_from_string (program ∷ args)

-- After `waitpid`, with the status and what `read` gives.
unfoldable pub after_wait : ℕ → ℕ → List ℕ → List Effect × ℕ
after_wait r status bytes =
    if status == 0
    then (closed r ∷ [], if length bytes == 4 then from_bytes bytes else 0)
    else (closed r ∷ [], 0)

unfoldable pub after_fork : ℕ → ℕ → Option ℕ → ℕ × List ℕ → List Effect × ℕ
after_fork r w none end = (opened r ∷ opened w ∷ closed r ∷ closed w ∷ [], 0)
after_fork r w (some child) (status, bytes) =
    let (es, result) = after_wait r status bytes in
    (opened r ∷ opened w ∷ closed w ∷ waited (some child) ∷ es, result)

-- `StartDetached`, with the answers of `pipe` and `fork` and the end of the process in between.
unfoldable pub start_detached : Option (ℕ × ℕ) → Option ℕ → ℕ × List ℕ → List Effect × ℕ
start_detached none child end = ([], 0)
start_detached (some (r, w)) child end = after_fork r w child end

from_bytes-to_bytes : (n : ℕ) → n < 2 ^ 32 → from_bytes (to_bytes n) ≡ n
unfolding from_bytes to_bytes
from_bytes-to_bytes n h = omega arith

-- The number that `StartDetached` returns for what the operating system answered.
abbrev pub detached_result : Option (ℕ × ℕ) → Option ℕ → Option ℕ → ℕ
detached_result (some ends) (some child) (some grandchild) = grandchild
detached_result _ _ _ = 0

abbrev pub number_or_zero : Option ℕ → ℕ
number_or_zero none = 0
number_or_zero (some n) = n

-- `StartDetached` returns the number of the detached process if the pipe and both processes could be
-- made, and otherwise zero, and closes the descriptors that it opened, on every branch; a process
-- number has 32 bits.
pub start_detached_lem :
    (ends : Option (ℕ × ℕ)) (child grandchild : Option ℕ) (log : List Effect)
    → number_or_zero grandchild < 2 ^ 32
    → ((start_detached ends child (between grandchild)).1 ≡ detached_result ends child grandchild)
      × (still_open (push (start_detached ends child (between grandchild)).0 log) ≡ still_open log)
unfolding start_detached after_fork after_wait between still_open to_bytes from_bytes
start_detached_lem none child g log h = (refl, refl)
start_detached_lem (some (r, w)) none g log h = (refl, without-both r w (still_open log))
start_detached_lem (some (r, w)) (some p) none log h =
    (refl, ap (without r) (without-head w (r ∷ still_open log)) ∙ without-head r (still_open log))
start_detached_lem (some (r, w)) (some p) (some g) log h = (
  from_bytes-to_bytes g h,
  ap (without r) (without-head w (r ∷ still_open log)) ∙ without-head r (still_open log),
)
