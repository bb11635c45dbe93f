-- ===== src/File/Tree/Tests.antt =====
-- A directory with a file, a link and a directory in it.
use system_abstractions.Base.{
  ℕ, ◌≡◌, refl, true, List, [], ◌∷◌, ◌++◌, some, none, text, replicate, drop, length,
}
use system_abstractions.File.Tree.{
  Directory, readable, end_of_entries, entry, file, link, sub, delete_directory, unless_failed,
  is_dots, with_slash, opendir, readlink, symlink, closedir, create_path, copy_directory, Node,
  path_max,
}
use system_abstractions.File.Tree.Deleting.{removals, paths_of, all_removable, delete_directory_lem}

abbrev home : Directory
home = readable true (
    entry (text ".") (sub (readable true end_of_entries)) (
      entry (text "a") (file true) (
        entry (text "d")
          (sub (readable true (entry (text "b") (link (λ b. none) true) end_of_entries)))
          end_of_entries)))

deleted :
    removals (delete_directory (text "/h") home).0
    ≡ text "/h/a" ∷ text "/h/d/b" ∷ text "/h/d" ∷ text "/h" ∷ []
unfolding removals delete_directory unless_failed is_dots with_slash
deleted = refl

delete_directory_lem_example :
    ((delete_directory (text "/h") home).1 ≡ true)
    × (true ≡ true → removals (delete_directory (text "/h") home).0 ≡ paths_of (text "/h") home)
unfolding all_removable is_dots
delete_directory_lem_example = delete_directory_lem (text "/h") home

-- A link's text is laid over the buffer, with no zero behind it.
abbrev laid : List ℕ → List ℕ → List ℕ
laid target buffer = target ++ drop (length target) buffer

abbrev points_to : List ℕ → Node
points_to target = link (λ buffer. some (laid target buffer)) true

-- The second link is made with the end of the first one's text.
spoiled :
    (copy_directory (text "s") (text "t") (
      readable true (
        entry
          (text "p")
          (points_to (text "/abc/def"))
          (entry (text "q") (points_to (text "/x")) end_of_entries)))).0
    ≡ create_path (text "t/")
      ∷ opendir (text "s")
      ∷ readlink (text "s/p")
      ∷ symlink (laid (text "/abc/def") (replicate path_max 0)) (text "t/p")
      ∷ readlink (text "s/q")
      ∷ symlink (text "/xbc/def" ++ replicate 4088 0) (text "t/q")
      ∷ closedir (text "s")
      ∷ []
unfolding copy_directory unless_failed is_dots with_slash
spoiled = refl
