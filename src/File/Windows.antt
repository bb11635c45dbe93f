-- ===== src/File/Windows.antt =====
-- Whole directories and names in src/Win32/FileWin32.cpp: `ListDirectory`, `DeleteDirectory`,
-- `CopyDirectory` and `GetDirectoryRoots`. What the operating system answers about a directory is an
-- argument, and an operation's calls of it are a list, in order.
pub mod Outcomes
pub mod Directories
pub mod Roots
pub mod Handle
mod Tests
use system_abstractions.Base.{
  ℕ, zero, suc, ◌+◌, Bool, true, false, ◌||◌, List, [], ◌∷◌, ◌++◌, map, Option, none, some, ◌==◌,
  if◌then◌else◌, length,
}
use system_abstractions.File.{Name, slash, backslash}
use system_abstractions.File.Tree.{is_dots}

-- A directory in which `FindFirstFileA` finds nothing, or an entry and those that `FindNextFileA`
-- gives behind it. The Boolean is the answer of the call that removes, makes or copies the thing.
mutual
  pub data Directory : Type 0 where
    nothing_found : Bool → Directory
    found : Bool → Entries → Directory

  pub data Entries : Type 0 where
    end_of_entries : Entries
    entry : Name → Node → Entries → Entries

  -- A file, or what `PathIsDirectoryA` takes for a directory.
  pub data Node : Type 0 where
    file : Bool → Node
    sub : Directory → Node

-- The calls of the operating system, and `CreatePath`, with the paths that they get.
pub data Call : Type 0 where
  find_first_file find_close delete_file remove_directory create_path : Name → Call
  copy_file : Name → Name → Call

-- `FixPathDelimiters`
abbrev pub fix_delimiter : ℕ → ℕ
fix_delimiter c = if c == backslash then slash else c

unfoldable pub fix_path_delimiters : Name → Name
fix_path_delimiters path = map fix_delimiter path

abbrev pub is_separator : ℕ → Bool
is_separator c = (c == slash) || (c == backslash)

-- The name of a directory with a separator at its end.
unfoldable pub with_backslash : Name → Name
with_backslash [] = []
with_backslash (c ∷ []) = if is_separator c then c ∷ [] else c ∷ backslash ∷ []
with_backslash (c ∷ d ∷ cs) = c ∷ with_backslash (d ∷ cs)

-- All names in a directory: `*.*`
abbrev pub glob : Name → Name
glob path = path ++ (42 ∷ 46 ∷ 42 ∷ [])

unfoldable pub list_entries : Name → Entries → List Name
list_entries path end_of_entries = []
list_entries path (entry name node rest) =
    let later = list_entries path rest in
    if is_dots name then later else fix_path_delimiters (path ++ name) ∷ later

-- `ListDirectory`: its calls, and the list.
unfoldable pub list_directory : Name → Directory → List Call × List Name
list_directory directory (nothing_found ok) =
    (find_first_file (glob (with_backslash directory)) ∷ [], [])
list_directory directory (found ok entries) =
    let path = with_backslash directory in
    (find_first_file (glob path) ∷ find_close (glob path) ∷ [], list_entries path entries)

-- What follows in the loop, unless the function returns false.
unfoldable pub unless_failed : List Call × Bool → List Call × Bool → List Call × Bool
unless_failed (calls, true) (later, result) = (calls ++ later, result)
unless_failed (calls, false) (later, result) = (calls, false)

abbrev pub after : Call → List Call × Bool → List Call × Bool
after call (calls, result) = (call ∷ calls, result)

-- `DeleteDirectory`: its calls, and what it returns.
unfoldable mutual
  pub delete_directory : Name → Directory → List Call × Bool
  delete_directory directory (nothing_found ok) =
      (find_first_file (glob (with_backslash directory)) ∷ remove_directory directory ∷ [], ok)
  delete_directory directory (found ok entries) =
      after (find_first_file (glob (with_backslash directory)))
        (delete_entries directory (with_backslash directory) ok entries)

  pub delete_entries : Name → Name → Bool → Entries → List Call × Bool
  delete_entries directory path ok end_of_entries =
      (find_close (glob path) ∷ remove_directory directory ∷ [], ok)
  delete_entries directory path ok (entry name node rest) =
      let later = delete_entries directory path ok rest in
      if is_dots name then later else unless_failed (delete_node (path ++ name) node) later

  pub delete_node : Name → Node → List Call × Bool
  delete_node path (file ok) = (delete_file path ∷ [], ok)
  delete_node path (sub directory) = delete_directory path directory

-- `CopyDirectory`: its calls, and what it returns.
unfoldable mutual
  pub copy_directory : Name → Name → Directory → List Call × Bool
  copy_directory from to (nothing_found made) =
      unless_failed (create_path (with_backslash to) ∷ [], made)
        (find_first_file (glob (with_backslash from)) ∷ [], true)
  copy_directory from to (found made entries) =
      unless_failed (create_path (with_backslash to) ∷ [], made)
        (after (find_first_file (glob (with_backslash from)))
          (copy_entries (with_backslash from) (with_backslash to) entries))

  pub copy_entries : Name → Name → Entries → List Call × Bool
  copy_entries path new_path end_of_entries = (find_close (glob path) ∷ [], true)
  copy_entries path new_path (entry name node rest) =
      let later = copy_entries path new_path rest in
      if is_dots name
      then later
      else unless_failed (copy_node (path ++ name) (new_path ++ name) node) later

  pub copy_node : Name → Name → Node → List Call × Bool
  copy_node from to (file ok) = (copy_file from to ∷ [], ok)
  copy_node from to (sub directory) = copy_directory from to directory

-- The characters ahead of the first zero, and those behind it.
abbrev pub with_character : ℕ → Option (Name × List ℕ) → Option (Name × List ℕ)
with_character c none = none
with_character c (some (name, rest)) = some (c ∷ name, rest)

unfoldable pub up_to_zero : List ℕ → Option (Name × List ℕ)
up_to_zero [] = none
up_to_zero (c ∷ cs) = elim (c == 0) [
  | true ↦ some ([], cs)
  | false ↦ with_character c (up_to_zero cs)
]

-- A drive without the separators at its end.
unfoldable pub trim : Name → Name
trim [] = []
trim (c ∷ cs) = elim (trim cs) [ [] ↦ if is_separator c then [] else c ∷ [] | d ∷ ds ↦ c ∷ d ∷ ds ]

abbrev pub with_root : Name → Option (List Name) → Option (List Name)
with_root root none = none
with_root root (some roots) = some (root ∷ roots)

-- The loop of `GetDirectoryRoots`, on fuel. `none` is a read behind the buffer, or fuel that ran out.
unfoldable pub directory_roots : ℕ → List ℕ → Option (List Name)
directory_roots zero buffer = none
directory_roots (suc fuel) buffer = elim (up_to_zero buffer) [
  | none ↦ none
  | some (drive, rest) ↦ elim drive [
    | [] ↦ some []
    | c ∷ cs ↦ with_root (trim (c ∷ cs)) (directory_roots fuel rest)
  ]
]

-- `GetDirectoryRoots`, by whether `GetLogicalDriveStringsA` succeeds, and the buffer.
unfoldable pub get_directory_roots : Bool → List ℕ → Option (List Name)
get_directory_roots succeeded buffer =
    if succeeded then directory_roots (length buffer) buffer else some []
