-- ===== src/PipeSignal/Tests.antt =====
-- A signal over a pipe that holds four bytes.
use system_abstractions.Base.{ℕ, ◌+◌, ◌-◌, ◌≡◌, refl, true, min, ltb, arith}
use system_abstractions.PipeSignal.{
  made, Calls, new, set_up_end, set_up_ends, after_pipe, initialize,
}
use system_abstractions.PipeSignal.Counting.{PipeLaws}

-- The state is the number of bytes in the pipe from 4 to 3.
abbrev small_pipe : Calls ℕ
small_pipe = record {
  pipe = λ k. (k, made 3 4);
  get_flags = λ k fd. (k, true);
  set_nonblocking = λ k fd. (k, true);
  close_end = λ k fd. k;
  write = λ k fd. min (k + 1) 4;
  read = λ k fd. k - 1;
  is_readable = λ k fd. ltb 0 k;
}

small_pipe-PipeLaws : PipeLaws small_pipe 3 4 4 (λ k. k)
small_pipe-PipeLaws = record {
  room = omega arith;
  written = λ k. refl;
  was_read = λ k. refl;
  readable = λ k. refl;
}

initialize-small_pipe : (initialize small_pipe 0 new).2 ≡ true
unfolding initialize after_pipe set_up_ends set_up_end new
initialize-small_pipe = refl
