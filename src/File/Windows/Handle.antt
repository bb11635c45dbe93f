-- ===== src/File/Windows/Handle.antt =====
-- An open file: the methods of src/Win32/FileWin32.cpp that go through its handle, INVALID_HANDLE_VALUE
-- being `none`.
use system_abstractions.Base.{
  ℕ, zero, suc, ◌+◌, ◌≡◌, refl, Bool, true, false, List, [], Option, none, some, ◌==◌,
  if◌then◌else◌, length, arith, Option-cases, Bool-cases, inl, inr,
}
use system_abstractions.File.{Name, Calls, File, create_whole_path}
use system_abstractions.File.Directories.{DirectoryLaws, create_path_lem}
use system_abstractions.File.Handle.{has_handle, or_nothing, or_zero}

-- The calls of the operating system, on its state `K`. CreateDirectoryA, CreateFileA with
-- OPEN_EXISTING and with OPEN_ALWAYS, DeleteFileA and MoveFileA are those of `base` for mkdir, the
-- two ways to open, the removal and the renaming. The others get a handle that can be invalid.
pub record WindowsCalls (K : Type 0) : Type 0 where
  pub base : Calls K
  -- CreateFileA for a clone that reads, which shares less
  pub open_to_share : K → Name → K × Option ℕ
  pub close_handle : K → Option ℕ → K
  pub file_size : K → Option ℕ → Option ℕ
  -- SetFilePointerEx by zero from the position, and to an offset
  pub get_pointer : K → Option ℕ → Option ℕ
  pub set_pointer : K → Option ℕ → ℕ → K
  pub set_end_of_file : K → Option ℕ → K × Bool
  pub read_file : K → Option ℕ → ℕ → K × Option (List ℕ)
  pub write_file : K → Option ℕ → List ℕ → K × Option ℕ

module _ {K : Type 0} (os : WindowsCalls K) where
  -- `File::Close`
  unfoldable pub close : K → File → K × File
  close k f = (os.close_handle k f.handle, record f { handle = none })

  unfoldable pub open_read_only : K → File → K × File × Bool
  open_read_only k f =
      let (k₁, f₁) = close k f in
      let (k₂, opened) = os.base.open_to_read k₁ f.path in
      (k₂, record f₁ { handle = opened; write_access = false }, has_handle opened)

  -- The loop of `OpenReadWrite`, by whether `CreatePath` was tried, on fuel: `none` is fuel that ran
  -- out, or that of `CreatePath`.
  unfoldable pub open_loop : ℕ → Bool → K → File → Option (K × File × Bool)
  open_loop zero tried k f = none
  open_loop (suc fuel) tried k f =
      let (k₁, opened) = os.base.open_to_write k f.path in
      elim opened [
        | some h ↦ some (k₁, record f { handle = some h; write_access = true }, true)
        | none ↦ elim tried [
          | true ↦ some (k₁, record f { handle = none }, false)
          | false ↦ elim (create_whole_path os.base k₁ f.path) [
            | none ↦ none
            | some (k₂, made) ↦ elim made [
              | false ↦ some (k₂, record f { handle = none }, false)
              | true ↦ open_loop fuel true k₂ (record f { handle = none; write_access = true })
            ]
          ]
        ]
      ]

  -- `File::OpenReadWrite`, with two rounds.
  unfoldable pub open_read_write : K → File → Option (K × File × Bool)
  open_read_write k f = let (k₁, f₁) = close k f in open_loop 2 false k₁ f₁

  -- `File::Destroy`
  unfoldable pub destroy : K → File → K × File
  destroy k f = let (k₁, f₁) = close k f in (os.base.remove_name k₁ f.path, f₁)

  -- `File::Move`
  unfoldable pub move : K → File → Name → K × File × Bool
  move k f new_path =
      let (k₁, done) = os.base.rename k f.path new_path in
      (k₁, (if done then record f { path = new_path } else f), done)

  -- `File::GetSize`, `File::GetPosition` and `File::SetPosition`
  unfoldable pub get_size : K → File → ℕ
  get_size k f = or_zero (os.file_size k f.handle)

  unfoldable pub get_position : K → File → ℕ
  get_position k f = or_zero (os.get_pointer k f.handle)

  unfoldable pub set_position : K → File → ℕ → K
  set_position k f position = os.set_pointer k f.handle position

  -- `File::SetSize` moves the pointer, and moves it back.
  unfoldable pub set_size : K → File → ℕ → K × Bool
  set_size k f size =
      let position = get_position k f in
      let (k₁, success) = os.set_end_of_file (set_position k f size) f.handle in
      (set_position k₁ f position, success)

  -- `File::Peek(void*, size_t)` and `File::Read(void*, size_t)`, by the bytes that they get, whose
  -- number is the result.
  unfoldable pub peek_raw : K → File → ℕ → K × List ℕ
  peek_raw k f num_bytes =
      let position = get_position k f in
      let (k₁, got) = os.read_file k f.handle num_bytes in
      elim got [ none ↦ (k₁, []) | some bytes ↦ (set_position k₁ f position, bytes) ]

  unfoldable pub read_raw : K → File → ℕ → K × List ℕ
  read_raw k f num_bytes = elim (num_bytes == 0) [
    | true ↦ (k, [])
    | false ↦ let (k₁, got) = os.read_file k f.handle num_bytes in (k₁, or_nothing got)
  ]

  -- `File::Write(const void*, size_t)`
  unfoldable pub write_raw : K → File → List ℕ → K × ℕ
  write_raw k f bytes = let (k₁, written) = os.write_file k f.handle bytes in (k₁, or_zero written)

  -- `File::Clone`, `none` for a null pointer
  unfoldable pub clone : K → File → K × Option File
  clone k f = elim f.handle [
    | none ↦ (k, some (record f { handle = none }))
    | some h ↦
        let (k₁, opened) =
          if f.write_access then os.base.open_to_write k f.path else os.open_to_share k f.path in
        (k₁, elim opened [ none ↦ none | some h' ↦ some (record f { handle = some h' }) ])
  ]

-- What a call of `OpenReadWrite` leaves: the path is the same, a handle is there exactly where it
-- returns true, and then the file can be written.
pub record Opened (f f' : File) (ok : Bool) : Type 0 where
  pub same_path : f'.path ≡ f.path
  pub opened : has_handle f'.handle ≡ ok
  pub writes : ok ≡ true → f'.write_access ≡ true

module _ {K : Type 0} (os : WindowsCalls K) where
  path_made : (k : K) (path : Name) → (r : K × Bool) × (create_whole_path os.base k path ≡ some r)
  path_made k path =
      let (k', ok, e, _) =
        create_path_lem os.base (λ k p. true) any_laws (length path + 1) k path (omega arith) in
      ((k', ok), e)
    where
      any_laws : DirectoryLaws os.base (λ k p. true)
      any_laws = record {
        was_created = λ k p e. refl;
        was_there = λ k p e. refl;
        stays = λ k p q e. refl;
      }

  last_round :
      (k : K) (f : File)
      → (k' : K) × (f' : File) × (ok : Bool) × (open_loop os 1 true k f ≡ some (k', f', ok))
        × Opened f f' ok
  unfolding open_loop
  last_round k f = elim (Option-cases (os.base.open_to_write k f.path).1) [
    | inl n ↦ (
      (os.base.open_to_write k f.path).0,
      record f { handle = none },
      false,
      rw (n, open_loop),
      record { same_path = refl; opened = refl; writes = λ e. cc },
    )
    | inr (h, n) ↦ (
      (os.base.open_to_write k f.path).0,
      record f { handle = some h; write_access = true },
      true,
      rw (n, open_loop),
      record { same_path = refl; opened = refl; writes = λ e. refl },
    )
  ]

  -- On Windows, the loop of `OpenReadWrite` ends within two rounds, whatever the operating system
  -- answers: the path is the same, the file has a handle exactly where true is returned, and then
  -- it can be written.
  pub open_read_write_lem :
      (k : K) (f : File)
      → (k' : K) × (f' : File) × (ok : Bool) × (open_read_write os k f ≡ some (k', f', ok))
        × Opened f f' ok
  unfolding open_read_write open_loop close
  open_read_write_lem k f =
      let k₁ = os.close_handle k f.handle in
      elim (Option-cases (os.base.open_to_write k₁ f.path).1) [
        | inr (h, n) ↦ (
          (os.base.open_to_write k₁ f.path).0,
          record f { handle = some h; write_access = true },
          true,
          rw (n, open_loop),
          record { same_path = refl; opened = refl; writes = λ e. refl },
        )
        | inl n ↦
            let k₂ = (os.base.open_to_write k₁ f.path).0 in
            let ((k₃, made), p) = path_made k₂ f.path in
            elim (Bool-cases made) [
              | inr m ↦ (
                k₃,
                record f { handle = none },
                false,
                rw (n, p, m, open_loop),
                record { same_path = refl; opened = refl; writes = λ e. cc },
              )
              | inl m ↦
                  let (k₄, f', ok, e, o) =
                    last_round k₃ (record f { handle = none; write_access = true }) in
                  (
                    k₄,
                    f',
                    ok,
                    rw (n, p, m, open_loop, e),
                    record { same_path = o.same_path; opened = o.opened; writes = o.writes },
                  )
            ]
      ]
