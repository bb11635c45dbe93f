-- ===== src/File/Windows/Directories.antt =====
-- `DeleteDirectory` and `CopyDirectory` of src/Win32/FileWin32.cpp: what they remove and copy.
use system_abstractions.Base.{
  ◌≡◌, refl, ◌∙◌, Bool, true, false, ◌&&◌, List, [], ◌∷◌, ◌++◌, if◌then◌else◌,
}
use system_abstractions.File.{Name}
use system_abstractions.File.Tree.{is_dots}
use system_abstractions.File.Windows.{
  Directory, nothing_found, found, Entries, end_of_entries, entry, Node, file, sub, Call,
  find_first_file, delete_file, remove_directory, create_path, copy_file, glob, with_backslash,
  unless_failed, after, delete_directory, delete_entries, delete_node, copy_directory, copy_entries,
  copy_node,
}
use system_abstractions.File.Windows.Outcomes.{
  requests, Outcome, Outcome-unless_failed, Outcome-after, Outcome-entry,
}

-- The path that a call removes, and the paths between which it copies.
abbrev pub removed : Call → List Name
removed (delete_file path) = path ∷ []
removed (remove_directory path) = path ∷ []
removed _ = []

abbrev pub copied : Call → List (Name × Name)
copied (copy_file from to) = (from, to) ∷ []
copied _ = []

-- All paths in a directory and its own, the contents of a directory ahead of it.
unfoldable mutual
  pub paths_of : Name → Directory → List Name
  paths_of directory (nothing_found ok) = directory ∷ []
  paths_of directory (found ok entries) = paths_in directory (with_backslash directory) entries

  pub paths_in : Name → Name → Entries → List Name
  paths_in directory path end_of_entries = directory ∷ []
  paths_in directory path (entry name node rest) =
      let later = paths_in directory path rest in
      if is_dots name then later else paths_at (path ++ name) node ++ later

  pub paths_at : Name → Node → List Name
  paths_at path (file ok) = path ∷ []
  paths_at path (sub directory) = paths_of path directory

-- Whether every call that removes something succeeds.
unfoldable mutual
  pub all_removable : Directory → Bool
  all_removable (nothing_found ok) = ok
  all_removable (found ok entries) = all_removable_in ok entries

  pub all_removable_in : Bool → Entries → Bool
  all_removable_in ok end_of_entries = ok
  all_removable_in ok (entry name node rest) =
      let later = all_removable_in ok rest in
      if is_dots name then later else all_removable_at node && later

  pub all_removable_at : Node → Bool
  all_removable_at (file ok) = ok
  all_removable_at (sub directory) = all_removable directory

-- All files in a directory, at every depth, with the paths of their copies.
unfoldable mutual
  pub copies_of : Name → Name → Directory → List (Name × Name)
  copies_of from to (nothing_found made) = []
  copies_of from to (found made entries) =
      copies_in (with_backslash from) (with_backslash to) entries

  pub copies_in : Name → Name → Entries → List (Name × Name)
  copies_in path new_path end_of_entries = []
  copies_in path new_path (entry name node rest) =
      let later = copies_in path new_path rest in
      if is_dots name then later else copies_at (path ++ name) (new_path ++ name) node ++ later

  pub copies_at : Name → Name → Node → List (Name × Name)
  copies_at from to (file ok) = (from, to) ∷ []
  copies_at from to (sub directory) = copies_of from to directory

-- Whether every directory can be made and every file copied.
unfoldable mutual
  pub all_copied : Directory → Bool
  all_copied (nothing_found made) = made
  all_copied (found made entries) = made && all_copied_in entries

  pub all_copied_in : Entries → Bool
  all_copied_in end_of_entries = true
  all_copied_in (entry name node rest) =
      let later = all_copied_in rest in if is_dots name then later else all_copied_at node && later

  pub all_copied_at : Node → Bool
  all_copied_at (file ok) = ok
  all_copied_at (sub directory) = all_copied directory

mutual
  unfolding delete_directory paths_of all_removable requests

  delete-Outcome :
      (directory : Name) (d : Directory)
      → Outcome removed (paths_of directory d) (all_removable d) (delete_directory directory d)
  delete-Outcome directory (nothing_found ok) = record { result = refl; done = λ e. refl }
  delete-Outcome directory (found ok entries) =
      Outcome-after removed (find_first_file (glob (with_backslash directory)))
        (paths_in directory (with_backslash directory) entries) (all_removable_in ok entries)
        (delete_entries directory (with_backslash directory) ok entries) refl
        (delete_entries-Outcome directory (with_backslash directory) ok entries)

  delete_entries-Outcome :
      (directory path : Name) (ok : Bool) (entries : Entries)
      → Outcome removed
          (paths_in directory path entries)
          (all_removable_in ok entries)
          (delete_entries directory path ok entries)
  delete_entries-Outcome directory path ok end_of_entries = record {
    result = refl;
    done = λ e. refl;
  }
  delete_entries-Outcome directory path ok (entry name node rest) =
      Outcome-entry removed (is_dots name) (paths_at (path ++ name) node)
        (paths_in directory path rest) (all_removable_at node) (all_removable_in ok rest)
        (delete_node (path ++ name) node) (delete_entries directory path ok rest)
        (delete_node-Outcome (path ++ name) node) (delete_entries-Outcome directory path ok rest)

  delete_node-Outcome :
      (path : Name) (node : Node)
      → Outcome removed (paths_at path node) (all_removable_at node) (delete_node path node)
  delete_node-Outcome path (file ok) = record { result = refl; done = λ e. refl }
  delete_node-Outcome path (sub directory) = delete-Outcome path directory

made-Outcome : (path : Name) (ok : Bool) → Outcome copied [] ok (create_path path ∷ [], ok)
unfolding requests
made-Outcome path ok = record { result = refl; done = λ e. refl }

mutual
  unfolding copy_directory copies_of all_copied requests unless_failed

  copy-Outcome :
      (from to : Name) (d : Directory)
      → Outcome copied (copies_of from to d) (all_copied d) (copy_directory from to d)
  copy-Outcome from to (nothing_found true) = record { result = refl; done = λ e. refl }
  copy-Outcome from to (nothing_found false) = record { result = refl; done = λ e. refl }
  copy-Outcome from to (found made entries) =
      Outcome-unless_failed copied [] (copies_in (with_backslash from) (with_backslash to) entries)
        made (all_copied_in entries) (create_path (with_backslash to) ∷ [], made)
        (after (find_first_file (glob (with_backslash from)))
          (copy_entries (with_backslash from) (with_backslash to) entries))
        (made-Outcome (with_backslash to) made)
        (Outcome-after copied (find_first_file (glob (with_backslash from)))
          (copies_in (with_backslash from) (with_backslash to) entries) (all_copied_in entries)
          (copy_entries (with_backslash from) (with_backslash to) entries) refl
          (copy_entries-Outcome (with_backslash from) (with_backslash to) entries))

  copy_entries-Outcome :
      (path new_path : Name) (entries : Entries)
      → Outcome copied
          (copies_in path new_path entries)
          (all_copied_in entries)
          (copy_entries path new_path entries)
  copy_entries-Outcome path new_path end_of_entries = record { result = refl; done = λ e. refl }
  copy_entries-Outcome path new_path (entry name node rest) =
      Outcome-entry copied (is_dots name) (copies_at (path ++ name) (new_path ++ name) node)
        (copies_in path new_path rest) (all_copied_at node) (all_copied_in rest)
        (copy_node (path ++ name) (new_path ++ name) node) (copy_entries path new_path rest)
        (copy_node-Outcome (path ++ name) (new_path ++ name) node)
        (copy_entries-Outcome path new_path rest)

  copy_node-Outcome :
      (from to : Name) (node : Node)
      → Outcome copied (copies_at from to node) (all_copied_at node) (copy_node from to node)
  copy_node-Outcome from to (file ok) = record { result = refl; done = λ e. refl }
  copy_node-Outcome from to (sub directory) = copy-Outcome from to directory

-- On Windows, `DeleteDirectory` returns true if and only if every call that removes something
-- succeeds, and then it has asked to remove all that is in the directory, at every depth, and the
-- directory itself, each once and the contents of a directory ahead of it, and nothing else.
deletes_all :
    (directory : Name) (d : Directory)
    → ((delete_directory directory d).1 ≡ all_removable d)
      × (all_removable d ≡ true
          → requests removed (delete_directory directory d).0 ≡ paths_of directory d)
deletes_all directory d =
    let r = delete-Outcome directory d in (r.result, λ e. r.done (r.result ∙ e))

-- On Windows, `CopyDirectory` returns true if and only if every directory can be made and every
-- file copied, where a directory in which nothing is found counts as empty, and then it has copied
-- all files in the directory, at every depth, each once to the same place below the new directory,
-- and nothing else.
pub copy_directory_lem :
    (from to : Name) (d : Directory)
    → ((copy_directory from to d).1 ≡ all_copied d)
      × (all_copied d ≡ true → requests copied (copy_directory from to d).0 ≡ copies_of from to d)
copy_directory_lem from to d =
    let r = copy-Outcome from to d in (r.result, λ e. r.done (r.result ∙ e))
