-- ===== src/Library.antt =====
-- src/Posix/DynamicLibraryPosix.cpp: a library that is loaded at run time.
use system_abstractions.Base.{
  ℕ, Bool, true, false, List, [], ◌∷◌, ◌++◌, Option, none, some, ◌≡◌, ap, ◌∙◌, Text, text,
}
use system_abstractions.Subprocess.Posix.System.{without, to_list}
use system_abstractions.Subprocess.Posix.Joining.{without-head}

-- `chdir`, `dlopen` with what it gives, and `dlclose`, the newest first.
pub data Effect : Type 0 where
  changed_directory : Text → Effect
  opened : Text → Option ℕ → Effect
  closed : ℕ → Effect

-- `DynamicLibraryImpl`, with the effects so far. NULL is `none`.
pub record Library : Type 0 where
  pub handle : Option ℕ
  pub log : List Effect

unfoldable pub new : Library
new = record { handle = none; log = [] }

abbrev pub close_handle : Option ℕ → List Effect → List Effect
close_handle none log = log
close_handle (some h) log = closed h ∷ log

-- `Unload`
unfoldable pub unload : Library → Library
unload l = record { handle = none; log = close_handle l.handle l.log }

-- "%s/lib%s.%s"
unfoldable pub library_path : Text → Text → Text → Text
library_path path name extension = path ++ text "/lib" ++ name ++ text "." ++ extension

-- `Load`, with the extension of the system's libraries, the directory from `getcwd` and the answer of
-- `dlopen`.
unfoldable pub load : Library → Text → Text → Text → Text → Option ℕ → Library × Bool
load l path name extension original answer = (
  record {
    handle = answer;
    log =
        changed_directory original
        ∷ opened (library_path path name extension) answer
        ∷ changed_directory path
        ∷ close_handle l.handle l.log;
  },
  elim answer [ none ↦ false | some h ↦ true ],
)

-- The libraries that a log leaves loaded, and the directory that it leaves.
unfoldable pub loaded : List Effect → List ℕ
loaded [] = []
loaded (changed_directory path ∷ log) = loaded log
loaded (opened path none ∷ log) = loaded log
loaded (opened path (some h) ∷ log) = h ∷ loaded log
loaded (closed h ∷ log) = without h (loaded log)

loaded-close_handle :
    (q : Option ℕ) (log : List Effect) → loaded log ≡ to_list q → loaded (close_handle q log) ≡ []
unfolding loaded
loaded-close_handle none log e = e
loaded-close_handle (some h) log e = ap (without h) e ∙ without-head h []

-- `Load` unloads the library that was loaded, and afterwards the object has the one library that is
-- loaded, if there is one.
pub loaded-load :
    (l : Library) (path name extension original : Text) (answer : Option ℕ)
    → loaded l.log ≡ to_list l.handle
    → loaded (load l path name extension original answer).0.log
      ≡ to_list (load l path name extension original answer).0.handle
unfolding load loaded
loaded-load l path name extension original none e = loaded-close_handle l.handle l.log e
loaded-load l path name extension original (some h) e =
    ap (◌∷◌ h) (loaded-close_handle l.handle l.log e)

-- After `Unload`, and so after the destructor, no library is loaded.
pub loaded-unload : (l : Library) → loaded l.log ≡ to_list l.handle → loaded (unload l).log ≡ []
unfolding unload
loaded-unload l e = loaded-close_handle l.handle l.log e
