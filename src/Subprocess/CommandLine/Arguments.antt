-- ===== src/Subprocess/CommandLine/Arguments.antt =====
-- How a program that Windows starts reads its command line: the documented rules of the Microsoft C
-- runtime, apart from the code that writes command lines. The rule for two quotes in a row inside of
-- quotes is left out.
use system_abstractions.Base.{
  ℕ, suc, ◌/◌, ◌%◌, Bool, true, false, ◌||◌, List, [], ◌∷◌, ◌++◌, ◌==◌, if◌then◌else◌, Text,
  replicate,
}
use system_abstractions.Subprocess.CommandLine.{space, quote, backslash}

-- Where the reader is: in the program's name, outside or inside of quotes, between arguments, or in
-- an argument, outside or inside of quotes.
pub data Place : Type 0 where
  program program_quoted gap bare quoted : Place

-- `slashes` counts the backslashes just read, which are not in `word` yet; `words` are the arguments
-- that are complete.
pub record Scan : Type 0 where
  pub place : Place
  pub slashes : ℕ
  pub word : Text
  pub words : List Text

abbrev pub is_blank : ℕ → Bool
is_blank c = (c == space) || (c == 9)

abbrev pub flush : ℕ → Text → Text
flush n w = w ++ replicate n backslash

abbrev pub across : Place → Place
across program = program_quoted
across program_quoted = program
across gap = quoted
across bare = quoted
across quoted = bare

-- A quote after `n` backslashes.
unfoldable pub at_quote : Place → ℕ → Text → List Text → Scan
at_quote place n w ws =
    if n % 2 == 1
    then record { place = place; slashes = 0; word = flush (n / 2) w ++ quote ∷ []; words = ws }
    else record { place = across place; slashes = 0; word = flush (n / 2) w; words = ws }

-- A character of an argument.
unfoldable pub in_argument : Place → ℕ → Text → List Text → ℕ → Scan
in_argument place n w ws c =
    if c == backslash
    then record { place = place; slashes = suc n; word = w; words = ws }
    else if c == quote
    then at_quote place n w ws
    else record { place = place; slashes = 0; word = flush n w ++ c ∷ []; words = ws }

abbrev pub next_gap : Text → List Text → Scan
next_gap w ws = record { place = gap; slashes = 0; word = []; words = ws ++ w ∷ [] }

-- In the program's name a backslash is no different from other characters.
unfoldable pub step_at : Place → ℕ → Text → List Text → ℕ → Scan
step_at program n w ws c =
    if is_blank c
    then next_gap w ws
    else if c == quote
    then at_quote program 0 w ws
    else record { place = program; slashes = 0; word = w ++ c ∷ []; words = ws }
step_at program_quoted n w ws c =
    if c == quote
    then at_quote program_quoted 0 w ws
    else record { place = program_quoted; slashes = 0; word = w ++ c ∷ []; words = ws }
step_at gap n w ws c =
    if is_blank c
    then record { place = gap; slashes = 0; word = []; words = ws }
    else in_argument bare 0 [] ws c
step_at bare n w ws c = if is_blank c then next_gap (flush n w) ws else in_argument bare n w ws c
step_at quoted n w ws c = in_argument quoted n w ws c

abbrev pub step : Scan → ℕ → Scan
step s c = step_at s.place s.slashes s.word s.words c

unfoldable pub finish_at : Place → ℕ → Text → List Text → List Text
finish_at program n w ws = ws ++ w ∷ []
finish_at program_quoted n w ws = ws ++ w ∷ []
finish_at gap n w ws = ws
finish_at bare n w ws = ws ++ flush n w ∷ []
finish_at quoted n w ws = ws ++ flush n w ∷ []

abbrev pub finish : Scan → List Text
finish s = finish_at s.place s.slashes s.word s.words

-- The text before the zero.
unfoldable pub scan : Scan → Text → List Text
scan s [] = finish s
scan s (c ∷ cs) = elim (c == 0) [ true ↦ finish s | false ↦ scan (step s c) cs ]

-- The program's name and the arguments that a command line stands for.
unfoldable pub arguments : Text → List Text
arguments line = scan (record { place = program; slashes = 0; word = []; words = [] }) line
