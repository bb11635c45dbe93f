-- ===== src/File/Windows/Tests.antt =====
-- A directory with a file and a directory in it, two drives, and files over a small operating system.
use system_abstractions.Base.{
  Bool, ℕ, suc, ◌≡◌, refl, true, false, List, [], ◌∷◌, ◌++◌, some, none, text, if◌then◌else◌, ltb,
}
use system_abstractions.File.{Name, File, Calls, created, new, create_path, parent}
use system_abstractions.File.Tree.{is_dots}
use system_abstractions.File.Windows.{
  Directory, found, end_of_entries, entry, file, sub, find_first_file, delete_file,
  delete_directory, copy_directory, unless_failed, with_backslash, list_directory, list_entries,
  fix_path_delimiters, get_directory_roots, trim,
}
use system_abstractions.File.Windows.Outcomes.{requests}
use system_abstractions.File.Windows.Directories.{
  removed, copied, copies_of, all_copied, copy_directory_lem,
}
use system_abstractions.File.Windows.Roots.{
  listed, has_no_zero, are_drives, get_directory_roots_lem,
}
use system_abstractions.File.Windows.Handle.{
  WindowsCalls, close, open_loop, open_read_write, Opened, open_read_write_lem,
}

abbrev home : Directory
home = found true (
    entry (text ".") (sub (found true end_of_entries)) (
      entry (text "a") (file true) (
        entry (text "d") (sub (found true (entry (text "b") (file true) end_of_entries)))
          end_of_entries)))

removed_paths :
    requests removed (delete_directory (text "h") home).0
    ≡ text "h\\a" ∷ text "h\\d\\b" ∷ text "h\\d" ∷ text "h" ∷ []
unfolding requests delete_directory unless_failed is_dots with_backslash
removed_paths = refl

copied_paths :
    requests copied (copy_directory (text "h") (text "t/") home).0
    ≡ (text "h\\a", text "t/a") ∷ (text "h\\d\\b", text "t/d\\b") ∷ []
unfolding requests copy_directory unless_failed is_dots with_backslash
copied_paths = refl

names-listed : (list_directory (text "h") home).1 ≡ text "h/a" ∷ text "h/d" ∷ []
unfolding list_directory list_entries is_dots with_backslash fix_path_delimiters
names-listed = refl

-- A file that cannot be removed ends the search without `FindClose`.
search_left_open :
    delete_directory (text "h") (found true (entry (text "a") (file false) end_of_entries))
    ≡ (find_first_file (text "h\\*.*") ∷ delete_file (text "h\\a") ∷ [], false)
unfolding delete_directory unless_failed is_dots with_backslash
search_left_open = refl

copy_directory_lem_example :
    ((copy_directory (text "h") (text "t") home).1 ≡ true)
    × (true ≡ true
        → requests copied (copy_directory (text "h") (text "t") home).0
          ≡ copies_of (text "h") (text "t") home)
unfolding all_copied is_dots
copy_directory_lem_example = copy_directory_lem (text "h") (text "t") home

abbrev two_drives : List Name
two_drives = text "C:\\" ∷ text "D:\\" ∷ []

get_directory_roots_lem_example :
    get_directory_roots true (text "C:\\" ++ 0 ∷ text "D:\\" ++ 0 ∷ 0 ∷ [])
    ≡ some (text "C:" ∷ text "D:" ∷ [])
unfolding listed trim are_drives has_no_zero
get_directory_roots_lem_example = get_directory_roots_lem two_drives refl

-- The directories that exist are counted; a file opens where there is one.
abbrev disk : Calls ℕ
disk = record {
  mkdir = λ k p. (suc k, created);
  open_to_read = λ k p. (k, none);
  open_to_write = λ k p. (k, if ltb 0 k then some 7 else none);
  close_handle = λ k h. k;
  remove_name = λ k p. k;
  rename = λ k p q. (k, false);
  read = λ k h n. (k, none);
  write = λ k h b. (k, none);
  tell = λ k h. none;
  seek = λ k h p. k;
  seek_end = λ k h. (k, false);
  truncate = λ k h n. (k, false);
}

abbrev windows : WindowsCalls ℕ
windows = record {
  base = disk;
  open_to_share = λ k p. (k, none);
  close_handle = λ k h. k;
  file_size = λ k h. none;
  get_pointer = λ k h. none;
  set_pointer = λ k h p. k;
  set_end_of_file = λ k h. (k, false);
  read_file = λ k h n. (k, none);
  write_file = λ k h b. (k, none);
}

open_read_write_lem_example :
    (k' : ℕ) × (f' : File) × (ok : Bool) × (open_read_write windows 0 (new (text "d/f"))
      ≡ some (k', f', ok))
    × Opened (new (text "d/f")) f' ok
open_read_write_lem_example = open_read_write_lem windows 0 (new (text "d/f"))

-- The first round finds no directory, the second one opens the file.
opened_again :
    open_read_write windows 0 (new (text "d/f"))
    ≡ some (1, record { path = text "d/f"; handle = some 7; write_access = true }, true)
unfolding open_read_write open_loop close new create_path parent
opened_again = refl
