-- ===== src/Subprocess/Tests.antt =====
-- Children that are started, told of their pipes and ended.

use system_abstractions.Base.{
  ◌≡◌, refl, true, false, List, [], ◌∷◌, some, none, Text, text, drop, arith,
}
use system_abstractions.Subprocess.Windows
use system_abstractions.Subprocess.Posix.Family
use system_abstractions.Subprocess.CommandLine.{has, make_command_line}
use system_abstractions.Subprocess.CommandLine.Arguments.{arguments}
use system_abstractions.Subprocess.CommandLine.RoundTrip.{
  have_zero, without_empty, arguments-make_command_line,
}
use system_abstractions.Subprocess.Decimal.{decimal}
use system_abstractions.Subprocess.Linux.{close_all_files_except, fds_dir}
use system_abstractions.Subprocess.Linux.Closing.{fd_directory, without_keep, closes_listed}
use system_abstractions.Subprocess.Posix.{
  ReadAnswer, got_byte, end_of_file, interrupted, starting, new, monitor_at, after_read, can_join,
  join_at, after_pipe, after_fork, start_child, child_arguments, contact_parent, destruct,
}
use system_abstractions.Subprocess.Posix.Arguments.{main_arguments, contact_parent-child_arguments}
use system_abstractions.Subprocess.Posix.System.{
  Action, System, starts, monitors, push, act, run, first, still_open, no_child, stage,
}
use system_abstractions.Subprocess.Posix.Lifecycle.{
  destruct-run, others, monitor_all, monitor_all_ends,
}
use system_abstractions.Subprocess.Posix.Family.{finishes, begin}
use system_abstractions.Subprocess.Posix.Family.Told.{IsTrueReport, run-IsTrueReport}
use system_abstractions.Subprocess.Windows.{child_command_line}
use system_abstractions.Subprocess.Windows.Arguments.{contact_parent-child_command_line}
use system_abstractions.File.Tree.{list_directory}

abbrev given : List Text
given = text "a b\\" ∷ text "say \"hi\"" ∷ [] ∷ text "c\\d" ∷ []

arguments-make_command_line_example :
    arguments (make_command_line (text "run.exe") given)
    ≡ text "run.exe" ∷ text "a b\\" ∷ text "say \"hi\"" ∷ text "c\\d" ∷ []
unfolding has have_zero without_empty
arguments-make_command_line_example =
    arguments-make_command_line (text "run.exe") given refl refl refl

contact_parent-child_command_line_example :
    Windows.contact_parent Windows.new
      (drop 1 (arguments (child_command_line decimal (text "run") 412 given)))
    ≡ (
      record Windows.new { pipe = some 412 },
      text "a b\\" ∷ text "say \"hi\"" ∷ text "c\\d" ∷ [],
      true,
    )
unfolding has have_zero without_empty
contact_parent-child_command_line_example =
    contact_parent-child_command_line decimal Windows.new (text "run") 412 given (λ n. refl) refl
      refl refl

contact_parent-child_arguments_example :
    contact_parent new (main_arguments (child_arguments decimal (text "/bin/run") 7 given))
    ≡ (record new { pipe = some 7 }, given, true)
unfolding has have_zero
contact_parent-child_arguments_example =
    contact_parent-child_arguments decimal new (text "/bin/run") 7 given (λ n. refl) refl

-- The child's object is destroyed while a signal interrupts the read of its parent.
run-IsTrueReport_example : IsTrueReport 1 2 (
    Family.run
      (begin new 1 2 6 7 900)
      (Family.monitors false ∷ Family.monitors true ∷ finishes ∷ Family.monitors false ∷ []))
run-IsTrueReport_example =
    run-IsTrueReport new 1 2 6 7 900
      (Family.monitors false ∷ Family.monitors true ∷ finishes ∷ Family.monitors false ∷ [])

-- One child that exits, one that could not be forked, and one that crashes.
abbrev two_children : List Action
two_children =
    starts 1 2 (some (6, 7)) (some 900)
    ∷ monitors got_byte
    ∷ monitors interrupted
    ∷ monitors got_byte
    ∷ monitors got_byte
    ∷ starts 1 2 (some (6, 7)) none
    ∷ starts 3 4 (some (8, 9)) (some 901)
    ∷ monitors end_of_file
    ∷ monitors end_of_file
    ∷ monitors end_of_file
    ∷ []

destruct-run_example :
    (still_open (push (destruct (run first two_children).process) (run first two_children).log)
      ≡ [])
    × (stage (push (destruct (run first two_children).process) (run first two_children).log)
        ≡ no_child)
unfolding run act new start_child after_pipe after_fork join_at monitor_at after_read
destruct-run_example = destruct-run two_children refl

abbrev some_answers : List ReadAnswer
some_answers = got_byte ∷ interrupted ∷ interrupted ∷ end_of_file ∷ got_byte ∷ []

abbrev just_started : System
just_started = record {
  process = record new { worker = starting; child = some 5; pipe = some 3 };
  log = [];
}

monitor_all_ends_example : can_join (monitor_all just_started some_answers).process.worker ≡ true
unfolding others
monitor_all_ends_example = monitor_all_ends some_answers just_started (omega arith)

closes_listed_example :
    close_all_files_except 5 (list_directory fds_dir (fd_directory (0 ∷ 1 ∷ 2 ∷ 5 ∷ 12 ∷ []))).1
    ≡ 0 ∷ 1 ∷ 2 ∷ 12 ∷ []
unfolding without_keep
closes_listed_example = closes_listed 5 (0 ∷ 1 ∷ 2 ∷ 5 ∷ 12 ∷ [])
