-- ===== src/StringFile/Write.antt =====
-- What `Write`, `Remove` and `SetSize` of src/StringFile.cpp do to the bytes of a file.

use system_abstractions.Base.{
  ℕ, zero, suc, ◌+◌, ◌-◌, ◌≤◌, ◌<◌, ◌≡◌, ◌≢◌, refl, sym, ap, ◌∙◌, true, ◌&&◌, List, [], ◌∷◌, Option,
  some, min, max, arith, length, length-take, length-drop, get_or, take, drop, leb, ltb, ◌==◌,
  Bool-cases, ==_iff, inl, inr, if◌then◌else◌, size_mod, add_size, drop-drop, drop-min,
}
use system_abstractions.StringFile.{
  StringFile, or_size, grow, write_from, write, write_raw, remove, set_size,
}
use system_abstractions.StringFile.Copy.{splice, length-splice, copy_lem}
use system_abstractions.StringFile.Bytes.{
  length-grow, get_or-grow, get_or-splice, get_or-take, get_or-resize, length-resize,
}
use system_abstractions.StringFile.Access.{Fits, ahead}

get_or-drop : (k : ℕ) (xs : List ℕ) (i : ℕ) → get_or (drop k xs) i 0 ≡ get_or xs (k + i) 0
get_or-drop zero xs i = ap (λ j. get_or xs j 0) (let e : i ≡ 0 + i = omega arith in e)
get_or-drop (suc k) [] i = refl
get_or-drop (suc k) (x ∷ xs) i =
    get_or-drop k xs i
    ∙ ap (λ j. get_or (x ∷ xs) j 0) (let e : suc (k + i) ≡ suc k + i = omega arith in e)

-- The bytes of a write, and the file behind it.
module _ (f : StringFile) (src : List ℕ) (n offset : ℕ) where
  abbrev pub run_of : List ℕ
  run_of = take n (drop offset src)

  abbrev pub written : StringFile
  written = record { value = splice f.position run_of (grow f n); position = f.position + n }

  module _ (v : Fits f) (room : f.position + n < size_mod) (enough : offset + n ≤ length src)
      (small : length src < size_mod) where
    pub length-run_of : length run_of ≡ n
    length-run_of = omega (arith, length-take n (drop offset src), length-drop offset src)

    pub length-written : length written.value ≡ max (length f.value) (f.position + n)
    length-written =
        length-splice f.position run_of (grow f n)
          (omega (arith, length-run_of, length-grow f n room))
        ∙ length-grow f n room

    pub written-Fits : Fits written
    written-Fits = record {
      value_fits = omega (arith, length-written);
      position_fits = omega arith;
    }

    written_bytes :
        (i : ℕ)
        → get_or written.value i 0 ≡ (
            if leb f.position i && ltb i (f.position + n)
            then get_or src (offset + (i - f.position)) 0
            else get_or f.value i 0)
    written_bytes i =
        get_or-splice f.position run_of (grow f n) i
          (omega (arith, length-run_of, length-grow f n room))
        ∙ ground (
          arith,
          length-run_of,
          get_or-take (drop offset src) n (i - f.position),
          get_or-drop offset src (i - f.position),
          get_or-grow f n i,
        )

    pub write_from_lem : write_from f src n offset ≡ some (n, written)
    unfolding write_from
    write_from_lem =
        let e : add_size f.position n ≡ f.position + n = omega arith in
        let p : f.position + 0 ≡ f.position = omega arith in
        let o : offset + 0 ≡ offset = omega arith in
        rw
          (
            copy_lem n 0 src offset (grow f n) f.position (omega arith)
                (omega (arith, length-grow f n room)) small (omega (arith, length-grow f n room)),
            write_from,
          )
          (λ i. some (
            n,
            record { value = splice (p i) (take n (drop (o i) src)) (grow f n); position = e i },
          ))

-- What a write of the `n` bytes of `src` from `offset` on makes of the file `f`.
pub record Wrote (f : StringFile) (src : List ℕ) (n offset : ℕ) (f' : StringFile) : Type 0 where
  pub moved : f'.position ≡ f.position + n
  pub size :
      length f'.value ≡ (if n == 0 then length f.value else max (length f.value) (f.position + n))
  pub bytes :
      (i : ℕ)
      → get_or f'.value i 0 ≡ (
          if leb f.position i && ltb i (f.position + n)
          then get_or src (offset + (i - f.position)) 0
          else get_or f.value i 0)
  pub still_fits : Fits f'

module _ (f : StringFile) (src : List ℕ) (n offset : ℕ) (v : Fits f) where
  Wrote-nothing : n ≡ 0 → Wrote f src n offset f
  Wrote-nothing z = record {
    moved = omega arith;
    size = ground arith;
    bytes = λ i. ground arith;
    still_fits = v;
  }

  written-Wrote :
      n ≢ 0
      → f.position + n < size_mod
      → offset + n ≤ length src
      → length src < size_mod
      → Wrote f src n offset (written f src n offset)
  written-Wrote z room enough small = record {
    moved = refl;
    size = ground (arith, length-written f src n offset v room enough small);
    bytes = written_bytes f src n offset v room enough small;
    still_fits = written-Fits f src n offset v room enough small;
  }

-- The outcome of a write.
abbrev pub Writes : StringFile → List ℕ → ℕ → ℕ → Option (ℕ × StringFile) → Type 0
Writes f src n offset r = (f' : StringFile) × (r ≡ some (n, f')) × Wrote f src n offset f'

module _ (f : StringFile) (buffer : List ℕ) (n offset : ℕ) (v : Fits f)
    (room : f.position + or_size n buffer < size_mod)
    (enough : offset + or_size n buffer ≤ length buffer) (small : length buffer < size_mod) where
  -- `Write` from a buffer that has the bytes asked for returns their number, moves the position
  -- behind them, and changes exactly the bytes of the file in that range, with zeros where the
  -- file had none before the position; the file is as long as it was, or reaches to the end of the
  -- write.
  pub write_lem : Writes f buffer (or_size n buffer) offset (write f buffer n offset)
  unfolding write
  write_lem = elim (Bool-cases (or_size n buffer == 0)) [
    | inl z ↦
        let e : or_size n buffer ≡ 0 = (==_iff (or_size n buffer) 0).0 z in
        (
          f,
          rw (z, write) (ap (λ k. some (k, f)) (sym e)),
          Wrote-nothing f buffer (or_size n buffer) offset v e,
        )
    | inr w ↦ (
      written f buffer (or_size n buffer) offset,
      rw (w, write) (write_from_lem f buffer (or_size n buffer) offset v room enough small),
      written-Wrote f buffer (or_size n buffer) offset v (ground arith) room enough small,
    )
  ]

-- `Write` from a pointer changes the file as the write from a buffer does, with the `n` bytes
-- behind the pointer.
pub write_raw_lem :
    (f : StringFile) (memory : List ℕ) (n : ℕ)
    → Fits f
    → f.position + n < size_mod
    → n ≤ length memory
    → length memory < size_mod
    → Writes f memory n 0 (write_raw f memory n)
unfolding write_raw
write_raw_lem f memory n v room enough small = elim (Bool-cases (n == 0)) [
  | inl z ↦
      let e : n ≡ 0 = (==_iff n 0).0 z in
      (f, rw (z, write_raw) (ap (λ k. some (k, f)) (sym e)), Wrote-nothing f memory n 0 v e)
  | inr w ↦ (
    written f memory n 0,
    rw (w, write_raw) (write_from_lem f memory n 0 v room (omega arith) small),
    written-Wrote f memory n 0 v (ground arith) room (omega arith) small,
  )
]

-- `Remove` cuts bytes off the front and moves the position with them: what was ahead of the
-- position still is, as far as it is not removed; the file is shorter by the bytes asked for, as
-- far as it had them.
pub remove_ahead :
    (f : StringFile) (n : ℕ)
    → (ahead (remove f n) ≡ drop (max n f.position) f.value)
      × (length (remove f n).value ≡ length f.value - n)
unfolding remove
remove_ahead f n = (
  ap (drop (max n f.position - n)) (drop-min n f.value)
      ∙ drop-drop n (max n f.position - n) (max n f.position) f.value (omega arith),
  omega (arith, length-drop (min n (length f.value)) f.value),
)

-- `SetSize` gives the file the size asked for, keeps the bytes below it, fills what is new with
-- zeros, leaves the position and succeeds.
pub set_size_lem :
    (f : StringFile) (n : ℕ)
    → let (f', done) = set_size f n in
      (length f'.value ≡ n)
      × ((i : ℕ) → get_or f'.value i 0 ≡ (if ltb i n then get_or f.value i 0 else 0))
      × (f'.position ≡ f.position)
      × (done ≡ true)
unfolding set_size
set_size_lem f n = (length-resize f.value n, get_or-resize f.value n, refl, refl)
