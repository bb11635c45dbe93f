-- ===== src/Subprocess/Posix/Arguments.antt =====
-- What `StartChild` of src/Posix/SubprocessPosix.cpp tells a child, and `ContactParent` reads.
use system_abstractions.Base.{
  ℕ, zero, suc, ◌≡◌, refl, ap, ap₂, ◌∙◌, true, false, List, [], ◌∷◌, map, arith, some, ◌==◌, Text,
  text, drop,
}
use system_abstractions.Subprocess.CommandLine.{has, same_text}
use system_abstractions.Subprocess.CommandLine.Quoting.{is_zero, has_head, has_tail}
use system_abstractions.Subprocess.CommandLine.RoundTrip.{have_zero}
use system_abstractions.Subprocess.Decimal.{decimal, scan_decimal-decimal, decimal-has_zero}
use system_abstractions.Subprocess.Posix.{
  Subprocess, vector_from_string, child_arguments, adopt, contact_parent,
}

-- The text ahead of the first zero, as a program reads an argument.
unfoldable pub c_string : Text → Text
c_string [] = []
c_string (c ∷ cs) = elim (c == 0) [ true ↦ [] | false ↦ c ∷ c_string cs ]

-- The arguments of `main` without the program's name.
unfoldable pub main_arguments : List Text → List Text
main_arguments argv = drop 1 (map c_string argv)

c_string-vector : (s : Text) → has is_zero s ≡ false → c_string (vector_from_string s) ≡ s
unfolding c_string vector_from_string
c_string-vector [] h = refl
c_string-vector (c ∷ cs) h =
    rw (has_head is_zero c cs h, c_string)
      (ap (◌∷◌ c) (c_string-vector cs (has_tail is_zero c cs h)))

c_strings :
    (args : List Text) → have_zero args ≡ false → map c_string (map vector_from_string args) ≡ args
unfolding have_zero
c_strings [] h = refl
c_strings (arg ∷ args) h =
    ap₂ ◌∷◌ (c_string-vector arg (ground arith)) (c_strings args (ground arith))

contact_child :
    (s : Subprocess) (w : ℕ) (args : List Text)
    → contact_parent s (text "child" ∷ decimal w ∷ args) ≡ (record s { pipe = some w }, args, true)
unfolding contact_parent same_text
contact_child s w args = rw (scan_decimal-decimal w) (number w)
  where
    number :
        (n : ℕ)
        → adopt s (text "child" ∷ decimal w ∷ args) args (some (false, n))
          ≡ (record s { pipe = some n }, args, true)
    number zero = refl
    number (suc n) = refl

have_zero_given :
    (w : ℕ) (args : List Text)
    → have_zero args ≡ false
    → have_zero (text "child" ∷ decimal w ∷ args) ≡ false
unfolding have_zero has
have_zero_given w args h = rw (decimal-has_zero w, have_zero) h

-- A child that `StartChild` started holds the pipe's end that it was given and is left with the
-- arguments that the caller gave, in order and unchanged, when it calls `ContactParent` with its
-- arguments; no argument has a zero in it, and `sprintf` prints a number in decimal.
pub contact_parent-child_arguments :
    (print : ℕ → Text) (s : Subprocess) (program : Text) (w : ℕ) (args : List Text)
    → ((n : ℕ) → print n ≡ decimal n)
    → have_zero args ≡ false
    → contact_parent s (main_arguments (child_arguments print program w args))
      ≡ (record s { pipe = some w }, args, true)
unfolding main_arguments child_arguments
contact_parent-child_arguments print s program w args prints h =
    let given : List Text = text "child" ∷ decimal w ∷ args in
    let no_zero : have_zero given ≡ false = have_zero_given w args h in
    ap (λ p. contact_parent s (map c_string (map vector_from_string (text "child" ∷ p ∷ args))))
      (prints w)
    ∙ ap (contact_parent s) (c_strings given no_zero)
    ∙ contact_child s w args
