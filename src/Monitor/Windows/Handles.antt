-- ===== src/Monitor/Windows/Handles.antt =====
-- The handle for changes of src/Win32/DirectoryMonitorWin32.cpp is closed where it was opened.

use system_abstractions.Base.{ℕ, ◌≡◌, true, List, [], Option}
use system_abstractions.Subprocess.Posix.System.{to_list}
use system_abstractions.Monitor.{Worker, no_worker, waiting, calling, ended}
use system_abstractions.Monitor.Stopping.{still_open, closes_open}
use system_abstractions.Monitor.Windows.{Monitor}

-- What is open: the handle, while the thread was not joined.
abbrev pub held : Worker → Option ℕ → List ℕ
held no_worker h = []
held waiting h = to_list h
held calling h = to_list h
held ended h = to_list h

pub record HoldsHandle (m : Monitor) : Type 0 where
  pub opens : still_open m.log ≡ held m.worker m.change_event
  pub sound : closes_open m.log ≡ true
