-- ===== src/Subprocess/Windows/Arguments.antt =====
-- What `StartChild` of src/Win32/SubprocessWin32.cpp writes into a command line, and `ContactParent`
-- reads.
use system_abstractions.Base.{
  ℕ, ◌-◌, ◌≡◌, refl, sym, ap, ◌∙◌, inl, inr, Bool, true, false, List, [], ◌∷◌, ◌++◌, arith, some,
  ltb, Bool-cases, Text, text, drop, length,
}
use system_abstractions.Subprocess.CommandLine.{has, same_text, with_extension, make_command_line}
use system_abstractions.Subprocess.CommandLine.Arguments.{arguments}
use system_abstractions.Subprocess.CommandLine.Quoting.{is_zero}
use system_abstractions.Subprocess.CommandLine.RoundTrip.{
  have_zero, without_empty, is_blank_or_quote, arguments-make_command_line,
}
use system_abstractions.Subprocess.Decimal.{
  decimal, scan_decimal-decimal, decimal-has_zero, Starts, Starts-decimal,
}
use system_abstractions.Subprocess.Windows.{Subprocess, child_command_line, adopt, contact_parent}

has-append :
    (is : ℕ → Bool) (s t : Text) → has is s ≡ false → has is t ≡ false → has is (s ++ t) ≡ false
unfolding has
has-append is [] t h k = k
has-append is (c ∷ cs) t h k =
    let tail : has is cs ≡ false = ground arith in ground (arith, has-append is cs t tail k)

with_extension-has :
    (is : ℕ → Bool) (program : Text)
    → has is program ≡ false
    → has is (text ".exe") ≡ false
    → has is (with_extension program) ≡ false
unfolding with_extension
with_extension-has is program h k = elim (Bool-cases (ltb (length program) 4)) [
  | inl l ↦ rw (l, with_extension) (has-append is program (text ".exe") h k)
  | inr l ↦ elim (Bool-cases (same_text (drop (length program - 4) program) (text ".exe"))) [
    | inl e ↦ rw (l, e, with_extension) h
    | inr e ↦ rw (l, e, with_extension) (has-append is program (text ".exe") h k)
  ]
]

given_zero :
    (w : ℕ) (args : List Text)
    → have_zero args ≡ false
    → have_zero (text "child" ∷ decimal w ∷ args) ≡ false
unfolding have_zero has
given_zero w args h = rw (decimal-has_zero w, have_zero) h

given_empty :
    (w : ℕ) (args : List Text)
    → without_empty (text "child" ∷ decimal w ∷ args)
      ≡ text "child" ∷ decimal w ∷ without_empty args
unfolding without_empty Starts
given_empty w args =
    let (d, rest, e, h) = Starts-decimal w in
    ap (λ t. text "child" ∷ without_empty (t ∷ args)) e
    ∙ ap (λ t. text "child" ∷ t ∷ without_empty args) (sym e)

contact_child :
    (s : Subprocess) (w : ℕ) (args : List Text)
    → contact_parent s (text "child" ∷ decimal w ∷ args) ≡ (record s { pipe = some w }, args, true)
unfolding contact_parent same_text
contact_child s w args =
    ap (adopt s (text "child" ∷ decimal w ∷ args) args) (scan_decimal-decimal w)

-- A child that `StartChild` started, which reads its command line by the rules of the Microsoft C
-- runtime, holds the handle that it was given when it calls `ContactParent`, and is left with the
-- caller's arguments in order and unchanged but for the empty ones, which are lost; the program's
-- name has no blank and no quote, nothing has a zero, and `sprintf` prints a number in decimal.
pub contact_parent-child_command_line :
    (print : ℕ → Text) (s : Subprocess) (program : Text) (w : ℕ) (args : List Text)
    → ((n : ℕ) → print n ≡ decimal n)
    → has is_blank_or_quote program ≡ false
    → has is_zero program ≡ false
    → have_zero args ≡ false
    → contact_parent s (drop 1 (arguments (child_command_line print program w args)))
      ≡ (record s { pipe = some w }, without_empty args, true)
unfolding child_command_line has
contact_parent-child_command_line print s program w args prints b z h =
    let name : Text = with_extension program in
    ap
      (λ p.
        contact_parent s (drop 1 (arguments (make_command_line name (text "child" ∷ p ∷ args)))))
      (prints w)
    ∙ ap (λ l. contact_parent s (drop 1 l))
        (arguments-make_command_line name (text "child" ∷ decimal w ∷ args)
          (with_extension-has is_blank_or_quote program b refl)
          (with_extension-has is_zero program z refl) (given_zero w args h))
    ∙ ap (contact_parent s) (given_empty w args)
    ∙ contact_child s w (without_empty args)
