-- ===== src/StringFile/Access.antt =====
-- What `Peek`, `Read`, `Write`, `Remove` and `SetSize` of src/StringFile.cpp do to a file.
use system_abstractions.Base.{
  ℕ, ◌+◌, ◌-◌, ◌≤◌, ◌<◌, ◌≡◌, refl, sym, ap, ap₂, take-min, drop-drop, Bool-cases, ==_iff, inl, inr,
  ◌∙◌, List, ◌++◌, none, some, min, arith, length, length-take, length-drop, take, drop, ◌==◌,
  size_mod, add_size,
}
use native.Mathlib.Nat.{add-zero}
use system_abstractions.StringFile.{
  StringFile, copy_bytes, amount_copied, peek_raw, read_raw, or_size, peek, read,
}
use system_abstractions.StringFile.Copy.{splice, splice-nil, splice_parts, copy_lem, copy_overrun}

-- The size and the position of a file are values of a `size_t`.
pub record Fits (f : StringFile) : Type 0 where
  pub value_fits : length f.value < size_mod
  pub position_fits : f.position < size_mod

-- What is left of a file from its position on.
abbrev pub ahead : StringFile → List ℕ
ahead f = drop f.position f.value

amount-ahead : (f : StringFile) (n : ℕ) → amount_copied f n ≡ min n (length (ahead f))
amount-ahead f n = omega (arith, length-drop f.position f.value)

-- The memory after `k` bytes of the file are copied to its start.
abbrev pub over : StringFile → ℕ → List ℕ → List ℕ
over f k memory = take k (ahead f) ++ drop k memory

copy_ahead :
    (f : StringFile) (memory : List ℕ) (n : ℕ)
    → Fits f
    → amount_copied f n ≤ length memory
    → length memory < size_mod
    → copy_bytes (amount_copied f n) 0 f.value f.position memory 0
      ≡ some (over f (amount_copied f n) memory)
copy_ahead f memory n v h m =
    copy_lem (amount_copied f n) 0 f.value f.position memory 0 (omega arith) (omega arith)
      v.value_fits m
    ∙ ap some (rw add-zero (ap (λ k. take (amount_copied f n) (ahead f) ++ drop k memory) copied))
  where
    copied : length (take (amount_copied f n) (ahead f)) ≡ amount_copied f n
    copied =
        omega (arith, length-take (amount_copied f n) (ahead f), length-drop f.position f.value)

-- The amount that the file can give, taken from it, is the amount asked for, as far as it goes.
over-eq :
    (f : StringFile) (memory : List ℕ) (n : ℕ)
    → over f (amount_copied f n) memory ≡ take n (ahead f) ++ drop (min n (length (ahead f))) memory
over-eq f memory n =
    rw (amount-ahead f n)
      (ap (λ xs. xs ++ drop (min n (length (ahead f))) memory) (take-min n (ahead f)))

module _ (f : StringFile) (memory : List ℕ) (n : ℕ) where
  -- What the memory at a pointer holds after a read of `n` bytes.
  abbrev pub filled : List ℕ
  filled = take n (ahead f) ++ drop (min n (length (ahead f))) memory

  pub peek_raw_lem :
      Fits f
      → n ≤ length memory
      → length memory < size_mod
      → peek_raw f memory n ≡ some (filled, min n (length (ahead f)))
  unfolding peek_raw
  peek_raw_lem v h m =
      rw (copy_ahead f memory n v (omega arith) m, over-eq f memory n, peek_raw)
        (ap (λ k. some (filled, k)) (amount-ahead f n))

  pub read_raw_lem :
      Fits f
      → n ≤ length memory
      → length memory < size_mod
      → read_raw f memory n
        ≡ some (
          filled,
          min n (length (ahead f)),
          record f { position = f.position + min n (length (ahead f)) },
        )
  unfolding read_raw
  read_raw_lem v h m =
      rw (copy_ahead f memory n v (omega arith) m, over-eq f memory n, read_raw)
        (ap₂ (λ k p. some (filled, k, record f { position = p })) (amount-ahead f n) moved)
    where
      moved : add_size f.position (amount_copied f n) ≡ f.position + min n (length (ahead f))
      moved = omega (arith, amount-ahead f n)

-- A fill of the memory behind `offset` is a splice at `offset`.
filled-splice :
    (ys buffer : List ℕ) (offset k : ℕ)
    → offset ≤ length buffer
    → length ys ≡ k
    → take offset buffer ++ (ys ++ drop k (drop offset buffer)) ≡ splice offset ys buffer
filled-splice ys buffer offset k h e =
    rw (← e, drop-drop offset (length ys) (offset + length ys) buffer refl)
      (sym (splice_parts offset ys buffer h))

module _ (f : StringFile) (buffer : List ℕ) (n offset : ℕ) (v : Fits f)
    (room : offset + or_size n buffer ≤ length buffer) (small : length buffer < size_mod) where
  -- The number of bytes that the call gets.
  abbrev pub got : ℕ
  got = min (or_size n buffer) (length (ahead f))

  in_memory : or_size n buffer ≤ length (drop offset buffer)
  in_memory = omega (arith, length-drop offset buffer)

  memory_small : length (drop offset buffer) < size_mod
  memory_small = omega (arith, length-drop offset buffer)

  laid :
      take offset buffer ++ filled f (drop offset buffer) (or_size n buffer)
      ≡ splice offset (take (or_size n buffer) (ahead f)) buffer
  laid =
      filled-splice (take (or_size n buffer) (ahead f)) buffer offset got (omega arith)
        (length-take (or_size n buffer) (ahead f))

  nothing : or_size n buffer ≡ 0 → splice offset (take (or_size n buffer) (ahead f)) buffer ≡ buffer
  nothing z = rw z (splice-nil offset buffer)

  -- `Read` into a buffer that has room for the bytes asked for (its whole size for a zero) lays
  -- the next bytes of the file over it at the offset, as far as the file goes, returns their
  -- number, moves the position behind them and changes nothing else.
  pub read_lem :
      read f buffer n offset
      ≡ some (
        splice offset (take (or_size n buffer) (ahead f)) buffer,
        got,
        record f { position = f.position + got },
      )
  unfolding read
  read_lem = elim (Bool-cases (or_size n buffer == 0)) [
    | inl z ↦
        let e : or_size n buffer ≡ 0 = (==_iff (or_size n buffer) 0).0 z in
        let g : 0 ≡ got = omega arith in
        let p : f.position ≡ f.position + got = omega arith in
        rw (z, read) (λ i. some (sym (nothing e) i, g i, record f { position = p i }))
    | inr w ↦
        rw
          (w, read, read_raw_lem f (drop offset buffer) (or_size n buffer) v in_memory memory_small)
          (ap (λ b. some (b, got, record f { position = f.position + got })) laid)
  ]

  -- `Peek` into a buffer with room lays the next bytes of the file over it at the offset and
  -- returns their number.
  pub peek_ahead :
      peek f buffer n offset ≡ some (splice offset (take (or_size n buffer) (ahead f)) buffer, got)
  unfolding peek
  peek_ahead = elim (Bool-cases (or_size n buffer == 0)) [
    | inl z ↦
        let e : or_size n buffer ≡ 0 = (==_iff (or_size n buffer) 0).0 z in
        let g : 0 ≡ got = omega arith in rw (z, peek) (λ i. some (sym (nothing e) i, g i))
    | inr w ↦
        rw
          (w, peek, peek_raw_lem f (drop offset buffer) (or_size n buffer) v in_memory memory_small)
          (ap (λ b. some (b, got)) laid)
  ]

-- With a zero for the amount, both calls ask for the whole size of the buffer whatever
-- the offset is, and run past its end where the file goes on that far.
module _ (f : StringFile) (buffer : List ℕ) (offset : ℕ) (v : Fits f)
    (small : length buffer < size_mod) (at : offset ≤ length buffer)
    (more : length buffer - offset < min (length buffer) (length (ahead f))) where
  overruns :
      copy_bytes (amount_copied f (length buffer)) 0 f.value f.position (drop offset buffer) 0
      ≡ none
  overruns =
      copy_overrun (amount_copied f (length buffer)) 0 f.value f.position (drop offset buffer) 0
        (omega arith) (omega (arith, length-drop offset buffer, amount-ahead f (length buffer)))
        (omega (arith, length-drop offset buffer))

  -- `Read` and `Peek` with a zero for the amount, into a buffer from an offset inside it on, write
  -- past the end of the buffer where less is behind the offset than the buffer is long and than
  -- the file has bytes ahead; the file and the buffer are no longer than a `size_t` can count.
  pub default_amount_overruns : (read f buffer 0 offset ≡ none) × (peek f buffer 0 offset ≡ none)
  unfolding read peek read_raw peek_raw
  default_amount_overruns = (ground (arith, overruns), ground (arith, overruns))
