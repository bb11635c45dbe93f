-- ===== src/File/Tree/Deleting.antt =====
-- `DeleteDirectory` of src/Posix/FilePosix.cpp removes all that is in a directory, and nothing else.
use mathlib.Core.Path.{subst₂}
use system_abstractions.Base.{
  ◌≡◌, refl, sym, ap, ap₂, ◌∙◌, Bool, true, false, ◌&&◌, List, [], ◌∷◌, ◌++◌, append_assoc, arith,
  if◌then◌else◌,
}
use system_abstractions.File.{Name}
use system_abstractions.File.Tree.{
  Directory, unreadable, readable, Entries, end_of_entries, entry, Node, file, link, sub, Call,
  opendir, closedir, unlink, rmdir, create_path, readlink, symlink, copy, with_slash, is_dots,
  unless_failed, after, delete_directory, delete_entries, delete_node,
}

-- The paths that calls ask to remove.
unfoldable pub removals : List Call → List Name
removals [] = []
removals (unlink path ∷ calls) = path ∷ removals calls
removals (rmdir path ∷ calls) = path ∷ removals calls
removals (opendir path ∷ calls) = removals calls
removals (closedir path ∷ calls) = removals calls
removals (create_path path ∷ calls) = removals calls
removals (readlink path ∷ calls) = removals calls
removals (symlink target path ∷ calls) = removals calls
removals (copy from to ∷ calls) = removals calls

-- All paths in a directory and its own, the contents of a directory ahead of it.
unfoldable mutual
  pub paths_of : Name → Directory → List Name
  paths_of directory (unreadable ok) = []
  paths_of directory (readable ok entries) =
      paths_in (with_slash directory) entries ++ directory ∷ []

  pub paths_in : Name → Entries → List Name
  paths_in path end_of_entries = []
  paths_in path (entry name node rest) =
      let later = paths_in path rest in
      if is_dots name then later else paths_at (path ++ name) node ++ later

  pub paths_at : Name → Node → List Name
  paths_at path (file ok) = path ∷ []
  paths_at path (link target ok) = path ∷ []
  paths_at path (sub directory) = paths_of path directory

-- Whether every call that removes something succeeds.
unfoldable mutual
  pub all_removable : Directory → Bool
  all_removable (unreadable ok) = true
  all_removable (readable ok entries) = all_removable_in entries && ok

  pub all_removable_in : Entries → Bool
  all_removable_in end_of_entries = true
  all_removable_in (entry name node rest) =
      let later = all_removable_in rest in
      if is_dots name then later else all_removable_at node && later

  pub all_removable_at : Node → Bool
  all_removable_at (file ok) = ok
  all_removable_at (link target ok) = ok
  all_removable_at (sub directory) = all_removable directory

removals-append : (cs ds : List Call) → removals (cs ++ ds) ≡ removals cs ++ removals ds
unfolding removals
removals-append [] ds = refl
removals-append (unlink path ∷ cs) ds = ap (◌∷◌ path) (removals-append cs ds)
removals-append (rmdir path ∷ cs) ds = ap (◌∷◌ path) (removals-append cs ds)
removals-append (opendir path ∷ cs) ds = removals-append cs ds
removals-append (closedir path ∷ cs) ds = removals-append cs ds
removals-append (create_path path ∷ cs) ds = removals-append cs ds
removals-append (readlink path ∷ cs) ds = removals-append cs ds
removals-append (symlink target path ∷ cs) ds = removals-append cs ds
removals-append (copy from to ∷ cs) ds = removals-append cs ds

-- What an operation on entries or on a directory does: it returns true if all calls succeed, and then
-- asks to remove the paths.
record Removes (paths : List Name) (ok : Bool) (r : List Call × Bool) : Type 0 where
  result : r.1 ≡ ok
  removed : r.1 ≡ true → removals r.0 ≡ paths

Removes-unless_failed :
    (ps qs : List Name) (a b : Bool) (r q : List Call × Bool)
    → Removes ps a r
    → Removes qs b q
    → Removes (ps ++ qs) (a && b) (unless_failed r q)
unfolding unless_failed
Removes-unless_failed ps qs a b (cs, true) (ds, result) h k = record {
  result = ap₂ ◌&&◌ h.result k.result;
  removed = λ e. removals-append cs ds ∙ ap₂ ◌++◌ (h.removed refl) (k.removed e);
}
Removes-unless_failed ps qs a b (cs, false) (ds, result) h k = record {
  result = ap (λ x. x && b) h.result;
  removed = λ e. cc;
}

Removes-after :
    (path : Name) (ps : List Name) (ok : Bool) (r : List Call × Bool)
    → Removes ps ok r
    → Removes ps ok (after (opendir path) r)
unfolding removals
Removes-after path ps ok (cs, result) h = record { result = h.result; removed = h.removed }

-- An entry ahead of others, which is looked at unless it is "." or "..".
Removes-entry :
    (dots : Bool) (ps qs : List Name) (a b : Bool) (r q : List Call × Bool)
    → Removes ps a r
    → Removes qs b q
    → Removes
        (if dots then qs else ps ++ qs)
        (if dots then b else a && b)
        (if dots then q else unless_failed r q)
Removes-entry true ps qs a b r q h k = k
Removes-entry false ps qs a b r q h k = Removes-unless_failed ps qs a b r q h k

mutual
  unfolding delete_directory paths_of all_removable removals

  Removes-directory :
      (directory : Name) (d : Directory)
      → Removes (paths_of directory d) (all_removable d) (delete_directory directory d)
  Removes-directory directory (unreadable ok) = record { result = refl; removed = λ e. refl }
  Removes-directory directory (readable ok entries) =
      Removes-after directory (paths_in (with_slash directory) entries ++ directory ∷ [])
        (all_removable_in entries && ok)
        (delete_entries directory (with_slash directory) ok entries)
        (Removes-entries directory (with_slash directory) ok entries)

  Removes-entries :
      (directory path : Name) (ok : Bool) (entries : Entries)
      → Removes
          (paths_in path entries ++ directory ∷ [])
          (all_removable_in entries && ok)
          (delete_entries directory path ok entries)
  Removes-entries directory path ok end_of_entries = record { result = refl; removed = λ e. refl }
  Removes-entries directory path ok (entry name node rest) =
      subst₂ (λ ps b. Removes ps b (delete_entries directory path ok (entry name node rest)))
        (paths_split (is_dots name)) (ok_split (is_dots name))
        (Removes-entry (is_dots name) (paths_at (path ++ name) node)
          (paths_in path rest ++ directory ∷ []) (all_removable_at node)
          (all_removable_in rest && ok) (delete_node (path ++ name) node)
          (delete_entries directory path ok rest) (Removes-node (path ++ name) node)
          (Removes-entries directory path ok rest))
    where
      paths_split :
          (dots : Bool)
          → (if dots
              then paths_in path rest ++ directory ∷ []
              else paths_at (path ++ name) node ++ (paths_in path rest ++ directory ∷ []))
            ≡ (if dots
                then paths_in path rest
                else paths_at (path ++ name) node ++ paths_in path rest)
              ++ directory ∷ []
      paths_split true = refl
      paths_split false =
          sym (append_assoc (paths_at (path ++ name) node) (paths_in path rest) (directory ∷ []))

      ok_split :
          (dots : Bool)
          → (if dots
              then all_removable_in rest && ok
              else all_removable_at node && (all_removable_in rest && ok))
            ≡ (if dots
                then all_removable_in rest
                else all_removable_at node && all_removable_in rest)
              && ok
      ok_split true = refl
      ok_split false = ground arith

  Removes-node :
      (path : Name) (node : Node)
      → Removes (paths_at path node) (all_removable_at node) (delete_node path node)
  Removes-node path (file ok) = record { result = refl; removed = λ e. refl }
  Removes-node path (link target ok) = record { result = refl; removed = λ e. refl }
  Removes-node path (sub directory) = Removes-directory path directory

-- `DeleteDirectory` returns true if and only if every call that removes something succeeds, where
-- a directory that cannot be opened has nothing to remove, and then it has asked to remove all
-- that is in the directory, at every depth, and the directory itself, each once and the contents
-- of a directory ahead of it, and nothing else; a link is removed and not followed.
pub delete_directory_lem :
    (directory : Name) (d : Directory)
    → ((delete_directory directory d).1 ≡ all_removable d)
      × (all_removable d ≡ true → removals (delete_directory directory d).0 ≡ paths_of directory d)
delete_directory_lem directory d =
    let r = Removes-directory directory d in (r.result, λ e. r.removed (r.result ∙ e))
