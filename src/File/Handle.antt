-- ===== src/File/Handle.antt =====
-- An open file: the methods of src/File.cpp and src/Posix/FilePosix.cpp that go through its handle.
use system_abstractions.Base.{
  ℕ, ◌+◌, ◌≡◌, Bool, true, false, List, [], ◌++◌, Option, none, some, leb, ◌==◌, if◌then◌else◌,
  length, take, drop, sub_size, arith, Option-cases, inl, inr,
}
use system_abstractions.File.{Name, Calls, File, create_whole_path}

abbrev pub has_handle : Option ℕ → Bool
has_handle none = false
has_handle (some h) = true

abbrev pub or_nothing : Option (List ℕ) → List ℕ
or_nothing none = []
or_nothing (some b) = b

abbrev pub or_zero : Option ℕ → ℕ
or_zero none = 0
or_zero (some n) = n

-- The overloads of src/File.cpp: what a zero stands for in `Peek`, and in `Read` and `Write`.
abbrev pub or_size : ℕ → List ℕ → ℕ
or_size num_bytes buffer = if num_bytes == 0 then length buffer else num_bytes

abbrev pub or_rest : ℕ → List ℕ → ℕ → ℕ
or_rest num_bytes buffer offset =
    if num_bytes == 0 then sub_size (length buffer) offset else num_bytes

module _ {K : Type 0} (os : Calls K) where
  -- `File::Close`
  unfoldable pub close : K → File → K × File
  close k f = elim f.handle [
    | none ↦ (k, f)
    | some h ↦ (os.close_handle k h, record f { handle = none })
  ]

  unfoldable pub open_read_only : K → File → K × File × Bool
  open_read_only k f =
      let (k₁, f₁) = close k f in
      let (k₂, opened) = os.open_to_read k₁ f.path in
      (k₂, record f₁ { handle = opened; write_access = false }, has_handle opened)

  -- The second attempt of `OpenReadWrite`, once the directories are made.
  unfoldable pub open_again : K × Bool → File → K × File × Bool
  open_again (k, made) f =
      let (k₁, opened) = os.open_to_write k f.path in
      if made then (k₁, record f { handle = opened }, has_handle opened) else (k, f, false)

  -- `File::OpenReadWrite`, `none` where `CreatePath` runs out of fuel.
  unfoldable pub open_read_write : K → File → Option (K × File × Bool)
  open_read_write k f =
      let (k₁, f₁) = close k f in
      let (k₂, opened) = os.open_to_write k₁ f.path in
      let f₂ : File = record f₁ { write_access = true; handle = opened } in
      elim opened [
        | some h ↦ some (k₂, f₂, true)
        | none ↦ elim (create_whole_path os k₂ f.path) [
          | none ↦ none
          | some r ↦ some (open_again r f₂)
        ]
      ]

  -- `File::Destroy`
  unfoldable pub destroy : K → File → K × File
  destroy k f = let (k₁, f₁) = close k f in (os.remove_name k₁ f.path, f₁)

  -- `File::Move`
  unfoldable pub move : K → File → Name → K × File × Bool
  move k f new_path =
      let (k₁, done) = os.rename k f.path new_path in
      (k₁, (if done then record f { path = new_path } else f), done)

  -- `File::GetSize`
  unfoldable pub size_from : K → ℕ → ℕ → K × ℕ
  size_from k h original =
      let (k₁, done) = os.seek_end k h in
      let end_position = os.tell k₁ h in
      if done
      then (os.seek k₁ h original, elim end_position [ none ↦ 0 | some p ↦ p ])
      else (os.seek k₁ h original, 0)

  unfoldable pub get_size : K → File → K × ℕ
  get_size k f = elim f.handle [
    | none ↦ (k, 0)
    | some h ↦ elim (os.tell k h) [ none ↦ (k, 0) | some p ↦ size_from k h p ]
  ]

  -- `File::SetSize`, `File::GetPosition` and `File::SetPosition`
  unfoldable pub set_size : K → File → ℕ → K × Bool
  set_size k f size = os.truncate k f.handle size

  unfoldable pub get_position : K → File → ℕ
  get_position k f = elim f.handle [
    | none ↦ 0
    | some h ↦ elim (os.tell k h) [ none ↦ 0 | some p ↦ p ]
  ]

  unfoldable pub set_position : K → File → ℕ → K
  set_position k f position = elim f.handle [ none ↦ k | some h ↦ os.seek k h position ]

  -- `File::Read(void*, size_t)`, by the bytes that it gets, whose number is its result.
  unfoldable pub read_raw : K → File → ℕ → K × List ℕ
  read_raw k f num_bytes = elim f.handle [
    | none ↦ (k, [])
    | some h ↦ let (k₁, got) = os.read k h num_bytes in (k₁, or_nothing got)
  ]

  -- `File::Peek(void*, size_t)`
  unfoldable pub peek_raw : K → File → ℕ → K × List ℕ
  peek_raw k f num_bytes = elim f.handle [
    | none ↦ (k, [])
    | some h ↦ elim (os.tell k h) [
      | none ↦ (k, [])
      | some original ↦
          let (k₁, got) = os.read k h num_bytes in (os.seek k₁ h original, or_nothing got)
    ]
  ]

  -- `File::Write(const void*, size_t)`, for the bytes `b` behind the pointer.
  unfoldable pub write_raw : K → File → List ℕ → K × ℕ
  write_raw k f b = elim f.handle [
    | none ↦ (k, 0)
    | some h ↦ let (k₁, done) = os.write k h b in (k₁, or_zero done)
  ]

  -- The bytes `b` laid over a buffer at `offset`: `none` where they run past its end.
  abbrev pub lay : List ℕ → ℕ → K × List ℕ → Option (K × List ℕ × ℕ)
  lay buffer offset (k, b) =
      if leb (offset + length b) (length buffer)
      then some (k, take offset buffer ++ (b ++ drop (offset + length b) buffer), length b)
      else none

  unfoldable pub peek : K → File → List ℕ → ℕ → ℕ → Option (K × List ℕ × ℕ)
  peek k f buffer num_bytes offset = lay buffer offset (peek_raw k f (or_size num_bytes buffer))

  unfoldable pub read : K → File → List ℕ → ℕ → ℕ → Option (K × List ℕ × ℕ)
  read k f buffer num_bytes offset =
      if or_rest num_bytes buffer offset == 0
      then some (k, buffer, 0)
      else lay buffer offset (read_raw k f (or_rest num_bytes buffer offset))

  unfoldable pub write : K → File → List ℕ → ℕ → ℕ → K × ℕ
  write k f buffer num_bytes offset =
      if or_rest num_bytes buffer offset == 0
      then (k, 0)
      else write_raw k f (take (or_rest num_bytes buffer offset) (drop offset buffer))

  -- `File::Clone`, `none` for a null pointer
  unfoldable pub clone : K → File → K × Option File
  clone k f = elim f.handle [
    | none ↦ (k, some (record f { handle = none }))
    | some h ↦
        let (k₁, opened) =
          if f.write_access then os.open_to_write k f.path else os.open_to_read k f.path in
        (k₁, elim opened [ none ↦ none | some h' ↦ some (record f { handle = some h' }) ])
  ]

-- What POSIX says of `lseek`: the offset that it set is the position.
pub record SeekLaws {K : Type 0} (os : Calls K) : Type 0 where
  pub sought : (k : K) (h p : ℕ) → os.tell (os.seek k h p) h ≡ some p

-- Over an `lseek` that behaves as POSIX says, `Peek` and `GetSize` leave the position of a file
-- where it was, whether their calls of the operating system succeed or fail.
pub position_kept :
    {K : Type 0} (os : Calls K)
    → SeekLaws os
    → (k : K) (f : File) (n : ℕ)
    → (get_position os (peek_raw os k f n).0 f ≡ get_position os k f)
      × (get_position os (get_size os k f).0 f ≡ get_position os k f)
unfolding get_position peek_raw get_size size_from
position_kept os laws k f n = elim (Option-cases f.handle) [
  | inl e ↦ (rw (e, peek_raw), rw (e, get_size))
  | inr (h, e) ↦ elim (Option-cases (os.tell k h)) [
    | inl t ↦ (ground arith, ground arith)
    | inr (p, t) ↦ (
      ground (arith, laws.sought (os.read k h n).0 h p),
      ground (arith, laws.sought (os.seek_end k h).0 h p),
    )
  ]
]
