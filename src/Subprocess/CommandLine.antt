-- ===== src/Subprocess/CommandLine.antt =====
-- The command lines of src/Win32/SubprocessWin32.cpp. A command line ends with a zero.
pub mod Arguments
pub mod Quoting
pub mod RoundTrip
use system_abstractions.Base.{
  ℕ, zero, suc, ◌+◌, ◌-◌, ◌*◌, Bool, true, false, ◌||◌, List, [], ◌∷◌, ◌++◌, ◌==◌, ltb,
  if◌then◌else◌, Text, text, length, drop, replicate,
}

abbrev pub space : ℕ
space = 32

abbrev pub quote : ℕ
quote = 34

abbrev pub slash : ℕ
slash = 47

abbrev pub backslash : ℕ
backslash = 92

-- `s.find_first_of(chars) != npos`, for one character and for a set of them
unfoldable pub has : (ℕ → Bool) → Text → Bool
has is [] = false
has is (c ∷ cs) = is c || has is cs

abbrev pub is_quote : ℕ → Bool
is_quote c = c == quote

-- One of `" \t\n\v\""`
abbrev pub is_special : ℕ → Bool
is_special c = (c == space) || (c == 9) || (c == 10) || (c == 11) || (c == quote)

-- The loop over the characters of an argument, with `slashCount`, and what follows it.
unfoldable pub quoted_from : ℕ → Text → Text
quoted_from n [] = replicate (n * 2) backslash
quoted_from n (c ∷ cs) = elim (c == backslash) [
  | true ↦ quoted_from (suc n) cs
  | false ↦
      replicate n backslash
      ++ (if c == quote then replicate (n + 1) backslash else [])
      ++ c ∷ quoted_from 0 cs
]

unfoldable pub write_argument : Text → Text
write_argument arg = if has is_special arg then quote ∷ quoted_from 0 arg ++ quote ∷ [] else arg

unfoldable pub write_arguments : List Text → Text
write_arguments [] = []
write_arguments (arg ∷ args) = space ∷ write_argument arg ++ write_arguments args

unfoldable pub write_program : Text → Text
write_program program = if has is_quote program then quote ∷ program ++ quote ∷ [] else program

-- `MakeCommandLine`
unfoldable pub make_command_line : Text → List Text → Text
make_command_line program args = write_program program ++ write_arguments args ++ 0 ∷ []

-- `FixPathDelimiters`
unfoldable pub fix_path_delimiters : Text → Text
fix_path_delimiters [] = []
fix_path_delimiters (c ∷ cs) = (if c == backslash then slash else c) ∷ fix_path_delimiters cs

unfoldable pub same_text : Text → Text → Bool
same_text [] [] = true
same_text [] (d ∷ ds) = false
same_text (c ∷ cs) [] = false
same_text (c ∷ cs) (d ∷ ds) = if c == d then same_text cs ds else false

-- The file extension that `StartChild` and `StartDetached` add.
unfoldable pub with_extension : Text → Text
with_extension program =
    if ltb (length program) 4
    then program ++ text ".exe"
    else if same_text (drop (length program - 4) program) (text ".exe")
    then program
    else program ++ text ".exe"
