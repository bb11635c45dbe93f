-- ===== src/File/Copying.antt =====
-- `File::Copy` of src/Posix/FilePosix.cpp: the bytes that it moves from one file to another.
use system_abstractions.Base.{
  ◌⊎◌, ℕ, zero, suc, ◌<◌, ◌≡◌, sym, ap, ap₂, ◌∙◌, inl, inr, Bool, true, false, List, [], ◌∷◌, ◌++◌,
  append_assoc, Option, none, some, ◌==◌, length, length-append, take, take_of_length-le, arith,
  Bool-cases, Option-cases, List-cases, ==_iff,
}
use system_abstractions.File.{Name, Calls, File, new}
use system_abstractions.File.Handle.{
  close, open_read_only, open_read_write, set_position, read_raw, write_raw, or_nothing, or_zero,
}

abbrev pub max_block_copy_size : ℕ
max_block_copy_size = 65536

module _ {K : Type 0} (os : Calls K) where
  -- The loop, on fuel: `none` is fuel that ran out. `Read` fills a buffer of the block's size, and
  -- `Write` gets what was read.
  unfoldable pub copy_loop : ℕ → K → File → File → Option (K × Bool)
  copy_loop zero k f new_file = none
  copy_loop (suc fuel) k f new_file =
      let (k₁, block) = read_raw os k f max_block_copy_size in
      elim block [
        | [] ↦ some (k₁, true)
        | x ∷ rest ↦
            let (k₂, amount) = write_raw os k₁ new_file (x ∷ rest) in
            elim (amount == length (x ∷ rest)) [
              | true ↦ copy_loop fuel k₂ f new_file
              | false ↦ some (k₂, false)
            ]
      ]

  -- The source is opened, or set back to its start.
  unfoldable pub copy_source : K → File → K × File × Bool
  copy_source k f = elim f.handle [
    | none ↦ open_read_only os k f
    | some h ↦ (set_position os k f 0, f, true)
  ]

  abbrev pub close_new : File → File → Option (K × Bool) → Option (K × File × Bool)
  close_new f new_file none = none
  close_new f new_file (some (k, done)) = some ((close os k new_file).0, f, done)

  abbrev pub copy_to : ℕ → File → Option (K × File × Bool) → Option (K × File × Bool)
  copy_to fuel f none = none
  copy_to fuel f (some (k, new_file, false)) = some ((close os k new_file).0, f, false)
  copy_to fuel f (some (k, new_file, true)) = close_new f new_file (copy_loop fuel k f new_file)

  -- `File::Copy`, with the destructor of the new file at its end.
  unfoldable pub copy : ℕ → K → File → Name → Option (K × File × Bool)
  copy fuel k f destination =
      let (k₁, f₁, ready) = copy_source k f in
      elim ready [
        | false ↦ some (k₁, f₁, false)
        | true ↦ copy_to fuel f₁ (open_read_write os k₁ (new destination))
      ]

-- What POSIX says of `read` from the handle `h` and `write` to the handle `h'` of another file, where
-- `ahead` is what is to be read, and `laid` what was written: a read that succeeds gives a part of
-- what is ahead, and nothing only at the end; a write that succeeds takes a part of what it is given;
-- a call that fails moves nothing.
pub record CopyLaws {K : Type 0} (os : Calls K) (h h' : ℕ) (ahead laid : K → List ℕ) : Type 0 where
  pub reads :
      (k : K) (n : ℕ)
      → 0 < n
      → let (k₁, got) = os.read k h n in (or_nothing got ++ ahead k₁ ≡ ahead k) × (laid k₁ ≡ laid k)
  pub ends : (k : K) (n : ℕ) → 0 < n → (os.read k h n).1 ≡ some [] → ahead k ≡ []
  pub writes :
      (k : K) (b : List ℕ)
      → let (k₁, done) = os.write k h' b in
        (laid k₁ ≡ laid k ++ take (or_zero done) b) × (ahead k₁ ≡ ahead k)

module _ {K : Type 0} (os : Calls K) (h h' : ℕ) (ahead laid : K → List ℕ)
    (laws : CopyLaws os h h' ahead laid) (f new_file : File) (o : f.handle ≡ some h)
    (o' : new_file.handle ≡ some h') where
  -- The state was left by a read that failed.
  abbrev pub LastReadFailed : K → Type 0
  LastReadFailed k' =
      (j : K) × ((os.read j h max_block_copy_size).1 ≡ none)
      × ((os.read j h max_block_copy_size).0 ≡ k')

  -- What a copy promises that went from `k` to `k'`: where it reports success, what it has laid, with
  -- what is still ahead, is what it began with, and either nothing is ahead any more or its last read failed.
  abbrev pub Copied : K → K → Bool → Type 0
  Copied k k' false = Unit {0}
  Copied k k' true =
      (laid k' ++ ahead k' ≡ laid k ++ ahead k) × ((ahead k' ≡ []) ⊎ LastReadFailed k')

  reads_block :
      (k : K)
      → let (k₁, block) = read_raw os k f max_block_copy_size in
        (block ++ ahead k₁ ≡ ahead k) × (laid k₁ ≡ laid k)
  unfolding read_raw
  reads_block k = rw (o, read_raw) (laws.reads k max_block_copy_size (omega arith))

  writes_block :
      (k : K) (b : List ℕ)
      → let (k₁, amount) = write_raw os k new_file b in
        (laid k₁ ≡ laid k ++ take amount b) × (ahead k₁ ≡ ahead k)
  unfolding write_raw
  writes_block k b = rw (o', write_raw) (laws.writes k b)

  why_ended :
      (k : K)
      → (read_raw os k f max_block_copy_size).1 ≡ []
      → (ahead k ≡ []) ⊎ LastReadFailed (read_raw os k f max_block_copy_size).0
  unfolding read_raw
  why_ended k e = elim (Option-cases (os.read k h max_block_copy_size).1) [
    | inl n ↦ inr (k, n, rw (o, read_raw) (λ i. (os.read k h max_block_copy_size).0))
    | inr (b, n) ↦
        let z : b ≡ [] = rw (o, n, read_raw) at e in
        inl (laws.ends k max_block_copy_size (omega arith) (n ∙ ap some z))
  ]

  at_end :
      (k : K)
      → (read_raw os k f max_block_copy_size).1 ≡ []
      → Copied k (read_raw os k f max_block_copy_size).0 true
  at_end k e =
      let (a, l) = reads_block k in
      let a₁ : ahead (read_raw os k f max_block_copy_size).0 ≡ ahead k =
        ap (λ b. b ++ ahead (read_raw os k f max_block_copy_size).0) (sym e) ∙ a in
      (ap₂ ◌++◌ l a₁, elim (why_ended k e) [ inl z ↦ inl (a₁ ∙ z) | inr z ↦ inr z ])

  -- One block more.
  after_block :
      (k k₁ k₂ k' : K) (b : List ℕ) (amount : ℕ) (done : Bool)
      → b ++ ahead k₁ ≡ ahead k
      → laid k₁ ≡ laid k
      → laid k₂ ≡ laid k₁ ++ take amount b
      → ahead k₂ ≡ ahead k₁
      → amount ≡ length b
      → Copied k₂ k' done
      → Copied k k' done
  after_block k k₁ k₂ k' b amount false a l l₂ a₂ w v = tt
  after_block k k₁ k₂ k' b amount true a l l₂ a₂ w v = (
    v.0
        ∙ ap₂ ◌++◌ (l₂ ∙ ap₂ ◌++◌ l (take_of_length-le amount b (omega (arith, w)))) a₂
        ∙ append_assoc (laid k) b (ahead k₁)
        ∙ ap (λ xs. laid k ++ xs) a,
    v.1,
  )

  -- Over `read` and `write` that behave as POSIX says, the loop of `Copy` ends within a round for
  -- each byte ahead of the source and one more; where it reports success it has laid bytes of the
  -- source in their order and lost none, and has laid all of them or was ended by a read that
  -- failed, in the state which that read left.
  pub copy_loop_lem :
      (fuel : ℕ) (k : K)
      → length (ahead k) < fuel
      → (k' : K) × (done : Bool) × (copy_loop os fuel k f new_file ≡ some (k', done))
        × Copied k k' done
  unfolding copy_loop
  copy_loop_lem zero k l = absurd (omega arith)
  copy_loop_lem (suc fuel) k l = elim (List-cases (read_raw os k f max_block_copy_size).1) [
    | inl e ↦ (_, true, rw (e, copy_loop), at_end k e)
    | inr (x, rest, e) ↦
        let k₁ = (read_raw os k f max_block_copy_size).0 in
        let (k₂, amount) = write_raw os k₁ new_file (x ∷ rest) in
        let (a, m) = reads_block k in
        let a₁ : (x ∷ rest) ++ ahead k₁ ≡ ahead k = ap (λ b. b ++ ahead k₁) (sym e) ∙ a in
        let (m₂, a₂) = writes_block k₁ (x ∷ rest) in
        elim (Bool-cases (amount == length (x ∷ rest))) [
          | inl w ↦
              let (k', done, c, v) =
                copy_loop_lem fuel k₂ (
                  omega (arith, ap length a₁, ap length a₂, length-append (x ∷ rest) (ahead k₁))) in
              (
                k',
                done,
                rw (e, w, copy_loop, c),
                after_block k k₁ k₂ k' (x ∷ rest) amount done a₁ m m₂ a₂
                    ((==_iff amount (length (x ∷ rest))).0 w) v,
              )
          | inr w ↦ (k₂, false, rw (e, w, copy_loop), tt)
        ]
  ]
