-- ===== src/File/Tree.antt =====
-- Whole directories in src/Posix/FilePosix.cpp: `ListDirectory`, `DeleteDirectory` and
-- `CopyDirectory`. What the operating system answers about a directory is an argument, and an
-- operation's calls of it are a list, in order.
pub mod Deleting
mod Tests
use system_abstractions.Base.{
  ℕ, zero, suc, ◌+◌, Bool, true, false, ◌||◌, List, [], ◌∷◌, ◌++◌, Option, none, some, ◌==◌,
  if◌then◌else◌, length, take, drop, replicate,
}
use system_abstractions.File.{Name, slash}

-- A directory that `opendir` opens or not; its entries in the order of `readdir_r`, up to the last one
-- or an error; and what an entry is: a file, a symbolic link with what `readlink` makes of
-- the buffer, or a directory (DT_DIR). The Boolean is the answer of the call that removes, makes or copies it.
mutual
  pub data Directory : Type 0 where
    unreadable : Bool → Directory
    readable : Bool → Entries → Directory

  pub data Entries : Type 0 where
    end_of_entries : Entries
    entry : Name → Node → Entries → Entries

  pub data Node : Type 0 where
    file : Bool → Node
    link : (List ℕ → Option (List ℕ)) → Bool → Node
    sub : Directory → Node

-- The calls of the operating system, and `CreatePath` and `Copy`, with the paths and buffers that they
-- get.
pub data Call : Type 0 where
  opendir closedir unlink rmdir create_path readlink : Name → Call
  symlink copy : Name → Name → Call

-- The name of a directory with a separator at its end.
unfoldable pub with_slash : Name → Name
with_slash [] = []
with_slash (c ∷ []) = if c == slash then c ∷ [] else c ∷ slash ∷ []
with_slash (c ∷ d ∷ cs) = c ∷ with_slash (d ∷ cs)

abbrev pub dot : ℕ
dot = 46

-- "." or ".."
unfoldable pub is_dots : Name → Bool
is_dots (c ∷ []) = c == dot
is_dots (c ∷ d ∷ []) = if c == dot then d == dot else false
is_dots _ = false

unfoldable pub list_entries : Name → Entries → List Name
list_entries path end_of_entries = []
list_entries path (entry name node rest) =
    let later = list_entries path rest in if is_dots name then later else (path ++ name) ∷ later

-- `ListDirectory`: its calls, and the list.
unfoldable pub list_directory : Name → Directory → List Call × List Name
list_directory directory (unreadable ok) = (opendir directory ∷ [], [])
list_directory directory (readable ok entries) =
    (opendir directory ∷ closedir directory ∷ [], list_entries (with_slash directory) entries)

-- What follows in the loop, unless the function returns false.
unfoldable pub unless_failed : List Call × Bool → List Call × Bool → List Call × Bool
unless_failed (calls, true) (later, result) = (calls ++ later, result)
unless_failed (calls, false) (later, result) = (calls, false)

abbrev pub after : Call → List Call × Bool → List Call × Bool
after call (calls, result) = (call ∷ calls, result)

-- `DeleteDirectory`: its calls, and what it returns.
unfoldable mutual
  pub delete_directory : Name → Directory → List Call × Bool
  delete_directory directory (unreadable ok) = (opendir directory ∷ [], true)
  delete_directory directory (readable ok entries) =
      after (opendir directory) (delete_entries directory (with_slash directory) ok entries)

  pub delete_entries : Name → Name → Bool → Entries → List Call × Bool
  delete_entries directory path ok end_of_entries = (closedir directory ∷ rmdir directory ∷ [], ok)
  delete_entries directory path ok (entry name node rest) =
      let later = delete_entries directory path ok rest in
      if is_dots name then later else unless_failed (delete_node (path ++ name) node) later

  pub delete_node : Name → Node → List Call × Bool
  delete_node path (file ok) = (unlink path ∷ [], ok)
  delete_node path (link target ok) = (unlink path ∷ [], ok)
  delete_node path (sub directory) = delete_directory path directory

abbrev pub path_max : ℕ
path_max = 4096

-- The buffer of `readlink`, which is made once for a directory, behind an entry.
abbrev pub or_same : List ℕ → Option (List ℕ) → List ℕ
or_same buffer none = buffer
or_same buffer (some b) = b

abbrev pub next_buffer : Node → List ℕ → List ℕ
next_buffer (link answer ok) buffer = or_same buffer (answer buffer)
next_buffer (file ok) buffer = buffer
next_buffer (sub directory) buffer = buffer

abbrev pub make_link : Name → Name → Option (List ℕ) → Bool → List Call × Bool
make_link from to none ok = (readlink from ∷ [], false)
make_link from to (some buffer) ok = (readlink from ∷ symlink buffer to ∷ [], ok)

-- `CopyDirectory`: its calls, and what it returns.
unfoldable mutual
  pub copy_directory : Name → Name → Directory → List Call × Bool
  copy_directory from to (unreadable made) =
      unless_failed (create_path (with_slash to) ∷ [], made) (opendir from ∷ [], true)
  copy_directory from to (readable made entries) =
      unless_failed (create_path (with_slash to) ∷ [], made)
        (after (opendir from)
          (copy_entries from (with_slash from) (with_slash to) (replicate path_max 0) entries))

  pub copy_entries : Name → Name → Name → List ℕ → Entries → List Call × Bool
  copy_entries from path new_path buffer end_of_entries = (closedir from ∷ [], true)
  copy_entries from path new_path buffer (entry name node rest) =
      let later =
        copy_entries from path new_path (if is_dots name then buffer else next_buffer node buffer)
          rest in
      if is_dots name
      then later
      else unless_failed (copy_node (path ++ name) (new_path ++ name) buffer node) later

  pub copy_node : Name → Name → List ℕ → Node → List Call × Bool
  copy_node from to buffer (file ok) = (copy from to ∷ [], ok)
  copy_node from to buffer (link answer ok) = make_link from to (answer buffer) ok
  copy_node from to buffer (sub directory) = copy_directory from to directory
