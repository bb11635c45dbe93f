-- ===== src/File.antt =====
-- Files and directories: src/File.cpp over src/Posix/FilePosix.cpp. The operating system is a
-- parameter.
pub mod Handle
pub mod Directories
pub mod Copying
pub mod Tree
pub mod Windows
mod Tests
use system_abstractions.Base.{
  ℕ, zero, suc, ◌+◌, ◌-◌, Bool, true, false, ◌||◌, List, [], ◌∷◌, ◌++◌, Option, none, some, ltb,
  leb, ◌==◌, if◌then◌else◌, length, take, drop, sub_size,
}

-- A path, by the codes of its characters
abbrev pub Name : Type 0
Name = List ℕ

-- What `mkdir` answers: success, EEXIST, ENOENT, or another error.
pub data MkdirAnswer : Type 0 where
  created already_there no_entry refused : MkdirAnswer

-- The calls of the operating system, on its state `K`. A descriptor of -1 and a result of -1 are
-- `none`.
pub record Calls (K : Type 0) : Type 0 where
  pub mkdir : K → Name → K × MkdirAnswer
  -- `open` with O_RDONLY, and with O_RDWR | O_CREAT
  pub open_to_read : K → Name → K × Option ℕ
  pub open_to_write : K → Name → K × Option ℕ
  pub close_handle : K → ℕ → K
  pub remove_name : K → Name → K
  pub rename : K → Name → Name → K × Bool
  -- the bytes that `read` gives for a number asked for, and the number of bytes that `write` takes
  pub read : K → ℕ → ℕ → K × Option (List ℕ)
  pub write : K → ℕ → List ℕ → K × Option ℕ
  -- `lseek` by zero from the position, to an offset, and to the end
  pub tell : K → ℕ → Option ℕ
  pub seek : K → ℕ → ℕ → K
  pub seek_end : K → ℕ → K × Bool
  pub truncate : K → Option ℕ → ℕ → K × Bool

-- `File::Impl` with `File::Platform`
pub record File : Type 0 where
  pub path : Name
  pub handle : Option ℕ
  pub write_access : Bool

unfoldable pub new : Name → File
new path = record { path = path; handle = none; write_access = false }

abbrev pub slash : ℕ
slash = 47

abbrev pub backslash : ℕ
backslash = 92

-- `path.substr(0, path.find_last_of("/\\"))`
unfoldable pub parent : Name → Option Name
parent [] = none
parent (c ∷ cs) = elim (parent cs) [
  | some up ↦ some (c ∷ up)
  | none ↦ if (c == slash) || (c == backslash) then some [] else none
]

-- A path that ends with a separator, for `CreateDirectory`, which takes both.
unfoldable pub with_separator : Name → Name
with_separator [] = []
with_separator (c ∷ []) = if (c == backslash) || (c == slash) then c ∷ [] else c ∷ slash ∷ []
with_separator (c ∷ d ∷ cs) = c ∷ with_separator (d ∷ cs)

module _ {K : Type 0} (os : Calls K) where
  abbrev pub is_created : MkdirAnswer → Bool
  is_created created = true
  is_created already_there = false
  is_created no_entry = false
  is_created refused = false

  -- The second `mkdir` of `CreatePath`.
  abbrev pub make_again : Name → K × Bool → K × Bool
  make_again up (k, ok) =
      if ok then (let (k', answer) = os.mkdir k up in (k', is_created answer)) else (k, false)

  abbrev pub then_again : Name → Option (K × Bool) → Option (K × Bool)
  then_again up none = none
  then_again up (some r) = some (make_again up r)

  -- `Impl::CreatePath`, on fuel: `none` is fuel that ran out.
  unfoldable pub create_path : ℕ → K → Name → Option (K × Bool)
  create_path zero k path = none
  create_path (suc fuel) k path = elim (parent path) [
    | none ↦ some (k, false)
    | some up ↦ elim (os.mkdir k up).1 [
      | created ↦ some ((os.mkdir k up).0, true)
      | already_there ↦ some ((os.mkdir k up).0, true)
      | refused ↦ some ((os.mkdir k up).0, false)
      | no_entry ↦ then_again up (create_path fuel (os.mkdir k up).0 up)
    ]
  ]

  -- With a call for each character of the path at most, and one more.
  abbrev pub create_whole_path : K → Name → Option (K × Bool)
  create_whole_path k path = create_path (length path + 1) k path

  -- `File::CreateDirectory`
  unfoldable pub create_directory : K → Name → Option (K × Bool)
  create_directory k directory = create_whole_path k (with_separator directory)
