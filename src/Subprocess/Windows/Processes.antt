-- ===== src/Subprocess/Windows/Processes.antt =====
-- `GetProcessList` of src/Win32/SubprocessWin32.cpp. What the system holds is an argument.
use system_abstractions.Base.{
  ℕ, zero, suc, ◌+◌, ◌*◌, ◌/◌, ◌%◌, ◌^◌, ◌<◌, min, ◌≡◌, refl, ap, ◌∙◌, inl, inr, false, List, [],
  ◌∷◌, ◌++◌, Option, none, some, arith, ◌==◌, if◌then◌else◌, length, take, take_of_length-le, Text,
  Bool-cases,
}
use system_abstractions.Subprocess.CommandLine.{fix_path_delimiters}
use system_abstractions.Subprocess.Posix.Joining.{without-head}
use system_abstractions.Subprocess.Windows.{Effect, opened, closed}
use system_abstractions.Subprocess.Windows.Handles.{push, still_open}

-- The loop on `EnumProcesses`, on fuel, with room for `size` numbers of 4 bytes: the bytes it needed
-- are those it filled. `none` is fuel that ran out.
unfoldable pub enum_processes : ℕ → List ℕ → ℕ → Option (List ℕ)
enum_processes zero ids size = none
enum_processes (suc fuel) ids size =
    let needed = min (length ids * 4) (size * 4) in
    let more = enum_processes fuel ids (size * 2) in
    if needed == size * 4 then more else some (take (needed / 4) ids)

-- The port in the order of the network's bytes, as a `uint16_t`.
unfoldable pub port_of : ℕ → ℕ
port_of p = (p / 256) % 256 + 256 * (p % 256)

-- What the system tells of a process: that it cannot be opened, a handle with no module, and a handle
-- with an executable's path.
pub data Answer : Type 0 where
  cannot_open : Answer
  no_module : ℕ → Answer
  has_image : ℕ → Text → Answer

pub record ProcessInfo : Type 0 where
  pub id : ℕ
  pub image : Text
  pub tcp_server_ports : List ℕ

-- `(uint32_t process, uint32_t port)` for each socket that listens
abbrev pub TcpTable : Type 0
TcpTable = List (ℕ × ℕ)

-- `tcpServerPorts[id]`
unfoldable pub ports_of : ℕ → TcpTable → List ℕ
ports_of id [] = []
ports_of id ((owner, p) ∷ table) =
    if id == owner then port_of p ∷ ports_of id table else ports_of id table

abbrev pub info : ℕ → Text → TcpTable → ProcessInfo
info id path table = record {
  id = id;
  image = fix_path_delimiters path;
  tcp_server_ports = ports_of id table;
}

-- The body of the loop over the processes.
unfoldable pub look_at : TcpTable → ℕ → Answer → List Effect × List ProcessInfo
look_at table id cannot_open = ([], [])
look_at table id (no_module h) = (opened h ∷ closed h ∷ [], [])
look_at table id (has_image h path) = (opened h ∷ closed h ∷ [], info id path table ∷ [])

unfoldable pub look_at_all : TcpTable → List (ℕ × Answer) → List Effect × List ProcessInfo
look_at_all table [] = ([], [])
look_at_all table ((id, answer) ∷ rest) =
    let (es, found) = look_at table id answer in
    let (fs, others) = look_at_all table rest in (es ++ fs, found ++ others)

-- The room after `n` doublings.
unfoldable pub doubled : ℕ → ℕ → ℕ
doubled zero size = size
doubled (suc n) size = doubled n (size * 2)

enum_processes-suc :
    (fuel : ℕ) (ids : List ℕ) (size : ℕ)
    → enum_processes (suc fuel) ids size ≡ (
        if min (length ids * 4) (size * 4) == size * 4
        then enum_processes fuel ids (size * 2)
        else some (take (min (length ids * 4) (size * 4) / 4) ids))
unfolding enum_processes
enum_processes-suc fuel ids size = refl

fits :
    (ids : List ℕ) (size : ℕ)
    → (min (length ids * 4) (size * 4) == size * 4) ≡ false
    → take (min (length ids * 4) (size * 4) / 4) ids ≡ ids
fits ids size e = take_of_length-le (min (length ids * 4) (size * 4) / 4) ids (ground arith)

-- The loop gives the numbers of all processes, with fuel that doubles the room past their number.
pub enum_processes_lem :
    (fuel : ℕ) (ids : List ℕ) (size : ℕ)
    → length ids < doubled fuel size
    → enum_processes (suc fuel) ids size ≡ some ids
unfolding doubled
enum_processes_lem zero ids size h =
    let less : (min (length ids * 4) (size * 4) == size * 4) ≡ false = ground arith in
    enum_processes-suc zero ids size
    ∙ ap
        (λ b.
          if b
          then enum_processes zero ids (size * 2)
          else some (take (min (length ids * 4) (size * 4) / 4) ids))
        less
    ∙ ap some (fits ids size less)
enum_processes_lem (suc fuel) ids size h =
    enum_processes-suc (suc fuel) ids size
    ∙ elim (Bool-cases (min (length ids * 4) (size * 4) == size * 4)) [
      | inl e ↦
          ap
            (λ b.
              if b
              then enum_processes (suc fuel) ids (size * 2)
              else some (take (min (length ids * 4) (size * 4) / 4) ids))
            e
          ∙ enum_processes_lem fuel ids (size * 2) h
      | inr e ↦
          ap
            (λ b.
              if b
              then enum_processes (suc fuel) ids (size * 2)
              else some (take (min (length ids * 4) (size * 4) / 4) ids))
            e
          ∙ ap some (fits ids size e)
    ]

-- A port is read back from its bytes in the network's order, with those in the other order.
pub port_of-port_of : (p : ℕ) → p < 2 ^ 16 → port_of (port_of p) ≡ p
unfolding port_of
port_of-port_of p h = omega arith

-- Every handle that the loop over the processes opens is closed, on every branch.
pub look_at_all_closes :
    (table : TcpTable) (answers : List (ℕ × Answer)) (log : List Effect)
    → still_open (push (look_at_all table answers).0 log) ≡ still_open log
unfolding look_at_all look_at still_open
look_at_all_closes table [] log = refl
look_at_all_closes table ((id, cannot_open) ∷ rest) log = look_at_all_closes table rest log
look_at_all_closes table ((id, no_module h) ∷ rest) log =
    look_at_all_closes table rest (closed h ∷ opened h ∷ log) ∙ without-head h (still_open log)
look_at_all_closes table ((id, has_image h path) ∷ rest) log =
    look_at_all_closes table rest (closed h ∷ opened h ∷ log) ∙ without-head h (still_open log)
