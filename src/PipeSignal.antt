-- ===== src/PipeSignal.antt =====
-- src/Posix/PipeSignal.cpp: a signal that is kept in a pipe. The operating system's pipes are a
-- parameter.
pub mod Initialization
pub mod Counting
mod Tests
use system_abstractions.Base.{ℕ, Bool, true, false, List, [], Option, none, some, if◌then◌else◌}

-- What `pipe` answers: the ends to read from and to write to, or the text of an error.
pub data PipeAnswer : Type 0 where
  made : ℕ → ℕ → PipeAnswer
  pipe_failed : List ℕ → PipeAnswer

-- The calls of the operating system, on its state `K`. `none` for a descriptor is -1. The results of
-- `write` and `read` are not looked at.
pub record Calls (K : Type 0) : Type 0 where
  pub pipe : K → K × PipeAnswer
  -- `fcntl` with F_GETFL, and with F_SETFL for the flags and O_NONBLOCK: whether it succeeds
  pub get_flags : K → ℕ → K × Bool
  pub set_nonblocking : K → ℕ → K × Bool
  pub close_end : K → ℕ → K
  -- of one byte
  pub write : K → Option ℕ → K
  pub read : K → Option ℕ → K
  -- `select` with no timeout answers other than zero
  pub is_readable : K → Option ℕ → Bool

-- `PipeSignalImpl`
pub record PipeSignal : Type 0 where
  pub read_end : Option ℕ
  pub write_end : Option ℕ
  pub last_error : List ℕ

unfoldable pub new : PipeSignal
new = record { read_end = none; write_end = none; last_error = [] }

module _ {K : Type 0} (os : Calls K) where
  -- The loop's body for one end of the pipe.
  unfoldable pub set_up_end : K → ℕ → K × Bool
  set_up_end k fd =
      let (k₁, got) = os.get_flags k fd in if got then os.set_nonblocking k₁ fd else (k₁, false)

  -- A failure in the loop.
  unfoldable pub close_both : K → ℕ → ℕ → PipeSignal → K × PipeSignal
  close_both k r w s =
      (os.close_end (os.close_end k r) w, record s { read_end = none; write_end = none })

  abbrev pub with_result : K × PipeSignal → Bool → K × PipeSignal × Bool
  with_result (k, s) done = (k, s, done)

  -- `for (int i = 0; i < 2; ++i)`
  unfoldable pub set_up_ends : K → ℕ → ℕ → PipeSignal → K × PipeSignal × Bool
  set_up_ends k r w s =
      let (k₁, first) = set_up_end k r in
      let (k₂, second) = set_up_end k₁ w in
      if first
      then if second then (k₂, s, true) else with_result (close_both k₂ r w s) false
      else with_result (close_both k₁ r w s) false

  unfoldable pub after_pipe : K → PipeSignal → PipeAnswer → K × PipeSignal × Bool
  after_pipe k s (pipe_failed text) =
      (k, record { read_end = none; write_end = none; last_error = text }, false)
  after_pipe k s (made r w) = set_up_ends k r w (record s { read_end = some r; write_end = some w })

  unfoldable pub initialize : K → PipeSignal → K × PipeSignal × Bool
  initialize k s = elim s.read_end [
    | some r ↦ (k, s, true)
    | none ↦ let (k₁, answer) = os.pipe k in after_pipe k₁ s answer
  ]

  unfoldable pub set : PipeSignal → K → K
  set s k = os.write k s.write_end

  unfoldable pub clear : PipeSignal → K → K
  clear s k = os.read k s.read_end

  unfoldable pub is_set : PipeSignal → K → Bool
  is_set s k = os.is_readable k s.read_end

  abbrev pub close_open : K → Option ℕ → K
  close_open k none = k
  close_open k (some fd) = os.close_end k fd

  -- The destructor.
  unfoldable pub destruct : PipeSignal → K → K
  destruct s k = close_open (close_open k s.write_end) s.read_end

unfoldable pub get_last_error : PipeSignal → List ℕ
get_last_error s = s.last_error

unfoldable pub get_select_handle : PipeSignal → Option ℕ
get_select_handle s = s.read_end
