-- ===== src/PipeSignal/Counting.antt =====
-- A signal of src/Posix/PipeSignal.cpp counts: a pipe holds a byte for each time that it was set.
use system_abstractions.Base.{
  ℕ, ◌+◌, ◌-◌, ◌<◌, ◌≡◌, refl, ap, ◌∙◌, true, List, [], ◌∷◌, some, min, ltb, arith,
}
use system_abstractions.PipeSignal.{Calls, PipeSignal, set, clear, is_set}

-- What POSIX says of a pipe from `w` to `r` that does not block: a write of a byte adds it, as long
-- as the pipe has room for `capacity` bytes; a read of a byte takes one, if there is one; `select`
-- finds it readable where it holds one. `held` is the number of bytes in it.
pub record PipeLaws {K : Type 0} (os : Calls K) (r w capacity : ℕ) (held : K → ℕ) : Type 0 where
  pub room : 0 < capacity
  pub written : (k : K) → held (os.write k (some w)) ≡ min (held k + 1) capacity
  pub was_read : (k : K) → held (os.read k (some r)) ≡ held k - 1
  pub readable : (k : K) → os.is_readable k (some r) ≡ ltb 0 (held k)

pub data SignalCall : Type 0 where
  sets clears : SignalCall

-- A number that is counted up to a capacity and down to zero.
abbrev pub count : ℕ → List SignalCall → ℕ → ℕ
count capacity [] n = n
count capacity (sets ∷ rest) n = count capacity rest (min (n + 1) capacity)
count capacity (clears ∷ rest) n = count capacity rest (n - 1)

module _ {K : Type 0} (os : Calls K) where
  unfoldable pub run : PipeSignal → List SignalCall → K → K
  run s [] k = k
  run s (sets ∷ rest) k = run s rest (set os s k)
  run s (clears ∷ rest) k = run s rest (clear os s k)

module _ {K : Type 0} (os : Calls K) (r w capacity : ℕ) (held : K → ℕ)
    (laws : PipeLaws os r w capacity held) (text : List ℕ) where
  abbrev pub signal : PipeSignal
  signal = record { read_end = some r; write_end = some w; last_error = text }

  held-run :
      (calls : List SignalCall) (k : K)
      → held (run os signal calls k) ≡ count capacity calls (held k)
  unfolding run set clear
  held-run [] k = refl
  held-run (sets ∷ rest) k =
      held-run rest (os.write k (some w)) ∙ ap (count capacity rest) (laws.written k)
  held-run (clears ∷ rest) k =
      held-run rest (os.read k (some r)) ∙ ap (count capacity rest) (laws.was_read k)

  -- Over a pipe that behaves as POSIX says, after any sequence of `Set` and `Clear` a signal is
  -- set exactly where the count of the sets, up to the capacity of the pipe, less the clears made
  -- while it was set, is above zero: a `Clear` takes back one `Set`.
  is_set-run :
      (calls : List SignalCall) (k : K)
      → is_set os signal (run os signal calls k) ≡ ltb 0 (count capacity calls (held k))
  unfolding is_set
  is_set-run calls k = laws.readable (run os signal calls k) ∙ ap (ltb 0) (held-run calls k)

  -- A signal that was just set is set, whatever went before, also where the pipe was full.
  pub is_set-set : (k : K) → is_set os signal (set os signal k) ≡ true
  unfolding is_set set
  is_set-set k = ground (arith, laws.room, laws.readable (os.write k (some w)), laws.written k)

  -- Where the pipe has room for two bytes and behaves as POSIX says, a signal that is set twice
  -- and then cleared is still set.
  pub clear_leaves_set :
      1 < capacity
      → (k : K) → is_set os signal (clear os signal (set os signal (set os signal k))) ≡ true
  unfolding is_set set clear
  clear_leaves_set h k =
      let k₁ = os.write k (some w) in
      let k₂ = os.write k₁ (some w) in
      ground (
        arith,
        h,
        laws.readable (os.read k₂ (some r)),
        laws.was_read k₂,
        laws.written k₁,
        laws.written k,
      )
