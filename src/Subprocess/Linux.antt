-- ===== src/Subprocess/Linux.antt =====
-- src/Linux/SubprocessLinux.cpp: the descriptors of a new process, and the list of processes. What
-- /proc holds is an argument.
pub mod Closing
pub mod Ports
mod Tests
use system_abstractions.Base.{
  ℕ, zero, suc, ◌+◌, ◌-◌, ◌*◌, ◌%◌, ◌^◌, Bool, true, false, not, ◌||◌, ◌&&◌, List, [], ◌∷◌, ◌++◌,
  Option, none, some, ltb, leb, ◌==◌, if◌then◌else◌, length, drop, Text, text,
}
use system_abstractions.Subprocess.Decimal.{is_white, scan_decimal}

abbrev pub fds_dir : Text
fds_dir = text "/proc/self/fd/"

-- A name is closed if the rest of it is the number of another descriptor; a number that is less than
-- zero is no descriptor.
unfoldable pub close_unless : ℕ → Option (Bool × ℕ) → List ℕ
close_unless keep none = []
close_unless keep (some (true, n)) = []
close_unless keep (some (false, n)) = if n == keep then [] else n ∷ []

-- `CloseAllFilesExcept`: the descriptors that it closes, by the names in /proc/self/fd/.
unfoldable pub close_all_files_except : ℕ → List Text → List ℕ
close_all_files_except keep [] = []
close_all_files_except keep (name ∷ names) =
    close_unless keep (scan_decimal (drop (length fds_dir) name))
    ++ close_all_files_except keep names

-- A piece of a format of `sscanf`: "%u", "%X", a space, or another character.
pub data Piece : Type 0 where
  decimal hexadecimal white : Piece
  char : ℕ → Piece

abbrev pub base : Piece → ℕ
base hexadecimal = 16
base _ = 10

-- The value of a digit, or 16.
unfoldable pub digit_value : ℕ → ℕ
digit_value c =
    if leb 48 c && ltb c 58
    then c - 48
    else if leb 65 c && ltb c 71
    then c - 55
    else if leb 97 c && ltb c 103
    then c - 87
    else 16

unfoldable pub skip_white : Text → Text
skip_white [] = []
skip_white (c ∷ cs) = elim (is_white c) [ true ↦ skip_white cs | false ↦ c ∷ cs ]

-- The number that digits go on with, and the text behind it.
unfoldable pub digits_from : ℕ → ℕ → Text → ℕ × Text
digits_from b acc [] = (acc, [])
digits_from b acc (c ∷ cs) = elim (ltb (digit_value c) b) [
  | true ↦ digits_from b (acc * b + digit_value c) cs
  | false ↦ (acc, c ∷ cs)
]

-- A number as /proc writes it, with no sign and no prefix.
unfoldable pub number_at : ℕ → Text → Option (ℕ × Text)
number_at b [] = none
number_at b (c ∷ cs) = if ltb (digit_value c) b then some (digits_from b 0 (c ∷ cs)) else none

-- The numbers that `sscanf` assigns.
unfoldable pub sscanf : List Piece → Text → List ℕ
sscanf [] cs = []
sscanf (white ∷ format) cs = sscanf format (skip_white cs)
sscanf (char d ∷ format) [] = []
sscanf (char d ∷ format) (c ∷ cs) = elim (c == d) [ true ↦ sscanf format cs | false ↦ [] ]
sscanf (decimal ∷ format) cs = elim (number_at 10 (skip_white cs)) [
  | none ↦ []
  | some (n, rest) ↦ n ∷ sscanf format rest
]
sscanf (hexadecimal ∷ format) cs = elim (number_at 16 (skip_white cs)) [
  | none ↦ []
  | some (n, rest) ↦ n ∷ sscanf format rest
]

abbrev pub colon : Piece
colon = char 58

-- "%u:%X:%X %X:%X %X %X:%X %X:%X %X %u %u %u"
abbrev pub row_format : List Piece
row_format =
    decimal ∷ colon ∷ hexadecimal ∷ colon ∷ hexadecimal ∷ white ∷ hexadecimal ∷ colon ∷ hexadecimal
    ∷ white ∷ hexadecimal ∷ white ∷ hexadecimal ∷ colon ∷ hexadecimal ∷ white ∷ hexadecimal ∷ colon
    ∷ hexadecimal ∷ white ∷ hexadecimal ∷ white ∷ decimal ∷ white ∷ decimal ∷ white ∷ decimal ∷ []

-- The map from inodes to ports: a later entry ahead of an earlier one.
abbrev pub Inodes : Type 0
Inodes = List (ℕ × ℕ)

-- A line that gives all fourteen numbers, for a socket that listens (10 is TCP_LISTEN): its inode, and
-- its port as a `uint16_t`.
unfoldable pub listening : List ℕ → Inodes
listening
      (slot ∷ address ∷ port ∷ raddress ∷ rport ∷ status ∷ tx ∷ rx ∷ tr ∷ when ∷ retransmit ∷ uid
        ∷ timeout ∷ inode ∷ []) =
    if status == 10 then (inode, port % 2 ^ 16) ∷ [] else []
listening _ = []

-- The loop over the lines of /proc/net/tcp, with the map so far.
unfoldable pub tcp_server_ports : Inodes → List Text → Inodes
tcp_server_ports m [] = m
tcp_server_ports m (line ∷ lines) = tcp_server_ports (listening (sscanf row_format line) ++ m) lines

unfoldable pub find_port : ℕ → Inodes → Option ℕ
find_port inode [] = none
find_port inode ((i, p) ∷ m) = if inode == i then some p else find_port inode m

-- The loop on `readlink`, on fuel, with the buffer's size: what is linked to, and nothing if
-- `readlink` fails. The outer `none` is fuel that ran out.
unfoldable pub read_link : ℕ → Option Text → ℕ → Option Text
read_link zero link size = none
read_link (suc fuel) none size = some []
read_link (suc fuel) (some []) size = read_link fuel (some []) size
read_link (suc fuel) (some (c ∷ cs)) size =
    let more = read_link fuel (some (c ∷ cs)) (size * 2) in
    if leb size (length (c ∷ cs)) then more else some (c ∷ cs)

-- "socket:[%u]"
abbrev pub socket_format : List Piece
socket_format =
    char 115
    ∷ char 111
    ∷ char 99
    ∷ char 107
    ∷ char 101
    ∷ char 116
    ∷ char 58
    ∷ char 91
    ∷ decimal
    ∷ []

unfoldable pub contains : ℕ → List ℕ → Bool
contains p [] = false
contains p (q ∷ qs) = (p == q) || contains p qs

-- `std::set::insert`
abbrev pub insert : ℕ → List ℕ → List ℕ
insert p ps = if contains p ps then ps else p ∷ ps

unfoldable pub insert_found : Option ℕ → List ℕ → List ℕ
insert_found none ps = ps
insert_found (some p) ps = insert p ps

unfoldable pub insert_ports : Inodes → List ℕ → List ℕ → List ℕ
insert_ports m (inode ∷ []) ps = insert_found (find_port inode m) ps
insert_ports m _ ps = ps

-- The loop over the descriptors of a process, each with what it links to.
unfoldable pub process_ports : Inodes → List Text → List ℕ → List ℕ
process_ports m [] ps = ps
process_ports m (target ∷ targets) ps =
    process_ports m targets (insert_ports m (sscanf socket_format target) ps)
