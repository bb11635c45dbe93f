-- ===== src/PipeSignal/Initialization.antt =====
-- `Initialize` of src/Posix/PipeSignal.cpp, whatever the operating system answers.
use system_abstractions.Base.{◌⊎◌, ℕ, ◌≡◌, Bool, true, false, Option, none, some, arith}
use system_abstractions.PipeSignal.{
  PipeAnswer, made, pipe_failed, Calls, PipeSignal, set_up_ends, close_both, after_pipe, initialize,
}

abbrev pub is_open : Option ℕ → Bool
is_open none = false
is_open (some fd) = true

-- A signal has both ends of its pipe, or none.
pub record IsPaired (s : PipeSignal) : Type 0 where
  pub paired : is_open s.read_end ≡ is_open s.write_end

module _ {K : Type 0} (os : Calls K) where
  after_pipe-ends :
      (k : K) (s : PipeSignal) (answer : PipeAnswer)
      → let (k', s', done) = after_pipe os k s answer in
        (is_open s'.read_end ≡ done) × (is_open s'.write_end ≡ done)
  unfolding after_pipe set_up_ends close_both
  after_pipe-ends k s (made r w) = ground arith
  after_pipe-ends k s (pipe_failed text) = ground arith

  -- Whatever the operating system answers, `Initialize` of a signal that has both ends of a pipe
  -- or none succeeds exactly where the signal then has both, and otherwise leaves it with neither;
  -- after a success a second call succeeds and does nothing.
  pub initialize_lem :
      (k : K) (s : PipeSignal)
      → IsPaired s
      → let (k', s', done) = initialize os k s in
        (is_open s'.read_end ≡ done)
        × (is_open s'.write_end ≡ done)
        × ((done ≡ false) ⊎ (initialize os k' s' ≡ (k', s', true)))
  unfolding initialize
  initialize_lem k s v =
      let a = after_pipe-ends (os.pipe k).0 s (os.pipe k).1 in
      (ground (arith, v, a), ground (arith, v, a), ground (arith, v, a))
