-- ===== src/Subprocess/Linux/Closing.antt =====
-- `CloseAllFilesExcept` of src/Linux/SubprocessLinux.cpp over what Linux documents of /proc/self/fd.
use system_abstractions.Base.{
  ℕ, ◌+◌, ◌<◌, none, text, ◌≡◌, refl, ap, ap₂, ◌∙◌, true, false, List, [], ◌∷◌, ◌++◌, map, arith,
  ◌==◌, if◌then◌else◌, Text,
}
use system_abstractions.File.Tree.{
  Directory, unreadable, readable, Entries, end_of_entries, entry, link, sub, with_slash, is_dots,
  list_entries, list_directory,
}
use system_abstractions.Subprocess.Decimal.{decimal, scan_decimal-decimal, Starts, Starts-decimal}
use system_abstractions.Subprocess.Linux.{fds_dir, close_unless, close_all_files_except}

-- The name of a descriptor in /proc/self/fd/.
abbrev pub fd_name : ℕ → Text
fd_name n = fds_dir ++ decimal n

unfoldable pub without_keep : ℕ → List ℕ → List ℕ
without_keep keep [] = []
without_keep keep (n ∷ ns) = (if n == keep then [] else n ∷ []) ++ without_keep keep ns

close_all_files_except_lem :
    (keep : ℕ) (open_fds : List ℕ)
    → close_all_files_except keep (map fd_name open_fds) ≡ without_keep keep open_fds
unfolding close_all_files_except close_unless without_keep
close_all_files_except_lem keep [] = refl
close_all_files_except_lem keep (n ∷ ns) =
    ap₂ ◌++◌ (ap (close_unless keep) (scan_decimal-decimal n)) (close_all_files_except_lem keep ns)

-- The entries of /proc/self/fd/ behind "." and "..": links, by their numbers.
fd_entries : List ℕ → Entries
fd_entries [] = end_of_entries
fd_entries (n ∷ ns) = entry (decimal n) (link (λ buffer. none) true) (fd_entries ns)

unfoldable pub fd_directory : List ℕ → Directory
unfolding fd_entries
fd_directory fds = readable true (
    entry (text ".") (sub (unreadable true))
      (entry (text "..") (sub (unreadable true)) (fd_entries fds)))

digit_not_dots : (d : ℕ) (rest : Text) → d < 10 → is_dots ((48 + d) ∷ rest) ≡ false
unfolding is_dots
digit_not_dots d [] h = ground arith
digit_not_dots d (c ∷ []) h = let e : (48 + d == 46) ≡ false = ground arith in rw (e, is_dots) refl
digit_not_dots d (c ∷ b ∷ rest) h = refl

decimal_not_dots : (n : ℕ) → is_dots (decimal n) ≡ false
unfolding Starts
decimal_not_dots n =
    let (d, rest, e, h) = Starts-decimal n in ap is_dots e ∙ digit_not_dots d rest h

list_entries-fd_entries : (ns : List ℕ) → list_entries fds_dir (fd_entries ns) ≡ map fd_name ns
unfolding list_entries fd_entries
list_entries-fd_entries [] = refl
list_entries-fd_entries (n ∷ ns) =
    rw (decimal_not_dots n, list_entries) (ap (◌∷◌ (fd_name n)) (list_entries-fd_entries ns))

listed : (ns : List ℕ) → (list_directory fds_dir (fd_directory ns)).1 ≡ map fd_name ns
unfolding list_directory with_slash list_entries is_dots fd_directory
listed ns = list_entries-fd_entries ns

-- Over `ListDirectory`, and over a directory /proc/self/fd/ that has ".", ".." and the numbers of
-- the open descriptors, `CloseAllFilesExcept` closes each of them but the one to keep, in their
-- order.
pub closes_listed :
    (keep : ℕ) (open_fds : List ℕ)
    → close_all_files_except keep (list_directory fds_dir (fd_directory open_fds)).1
      ≡ without_keep keep open_fds
closes_listed keep open_fds =
    ap (close_all_files_except keep) (listed open_fds) ∙ close_all_files_except_lem keep open_fds
