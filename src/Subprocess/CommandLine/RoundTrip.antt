-- ===== src/Subprocess/CommandLine/RoundTrip.antt =====
-- A program gets the arguments that `MakeCommandLine` of src/Win32/SubprocessWin32.cpp was given,
-- less the empty ones.
use system_abstractions.Base.{
  ℕ, suc, ◌≡◌, refl, sym, ap, ◌∙◌, inl, inr, Bool, false, ◌||◌, List, [], ◌∷◌, ◌++◌, append_assoc,
  append-nil, arith, ◌==◌, Bool-cases, Text,
}
use system_abstractions.Subprocess.CommandLine.{
  space, quote, backslash, has, is_quote, is_special, quoted_from, write_argument, write_arguments,
  write_program, make_command_line,
}
use system_abstractions.Subprocess.CommandLine.Arguments.{
  program, gap, bare, quoted, is_blank, flush, at_quote, in_argument, step_at, step, finish_at,
  scan, arguments,
}
use system_abstractions.Subprocess.CommandLine.Quoting.{
  at, scan-step, is_zero, has_head, has_tail, flush-suc, flush_join, scan-quoted_from,
}

-- What follows an argument ends it.
abbrev Closes : Text → Type 0
Closes rest =
    (n : ℕ) (w : Text) (ws : List Text)
    → scan (at bare n w ws) rest ≡ scan (at gap 0 [] (ws ++ flush n w ∷ [])) rest

Closes-zero : (cs : Text) → Closes (0 ∷ cs)
unfolding scan finish_at
Closes-zero cs n w ws = refl

Closes-space : (cs : Text) → Closes (space ∷ cs)
unfolding scan step_at
Closes-space cs n w ws = refl

abbrev pub is_blank_or_quote : ℕ → Bool
is_blank_or_quote c = is_blank c || is_quote c

step-bare_backslash :
    (n : ℕ) (w : Text) (ws : List Text) → step (at bare n w ws) backslash ≡ at bare (suc n) w ws
unfolding step_at in_argument
step-bare_backslash n w ws = refl

step-bare :
    (c n : ℕ) (w : Text) (ws : List Text)
    → is_special c ≡ false
    → (c == backslash) ≡ false
    → step (at bare n w ws) c ≡ at bare 0 (flush n w ++ c ∷ []) ws
unfolding step_at in_argument
step-bare c n w ws h b =
    let q : (c == quote) ≡ false = ground arith in
    let s : (c == space) ≡ false = ground arith in
    let t : (c == 9) ≡ false = ground arith in rw (s, t, b, q)

scan-bare :
    (arg : Text) (n : ℕ) (w : Text) (ws : List Text) (rest : Text)
    → has is_special arg ≡ false
    → has is_zero arg ≡ false
    → Closes rest
    → scan (at bare n w ws) (arg ++ rest) ≡ scan (at gap 0 [] (ws ++ (flush n w ++ arg) ∷ [])) rest
scan-bare [] n w ws rest h z closes =
    closes n w ws ∙ ap (λ u. scan (at gap 0 [] (ws ++ u ∷ [])) rest) (sym (append-nil (flush n w)))
scan-bare (c ∷ cs) n w ws rest h z closes = elim (Bool-cases (c == backslash)) [
  | inl b ↦
      let e : backslash ≡ c = ground arith in
      scan-step (at bare n w ws) c (cs ++ rest) (has_head is_zero c cs z)
      ∙ ap (λ d. scan (step (at bare n w ws) d) (cs ++ rest)) (sym e)
      ∙ ap (λ s. scan s (cs ++ rest)) (step-bare_backslash n w ws)
      ∙ scan-bare cs (suc n) w ws rest (has_tail is_special c cs h) (has_tail is_zero c cs z) closes
      ∙ ap (λ u. scan (at gap 0 [] (ws ++ u ∷ [])) rest)
          (flush-suc n w cs ∙ ap (λ d. flush n w ++ d ∷ cs) e)
  | inr b ↦
      scan-step (at bare n w ws) c (cs ++ rest) (has_head is_zero c cs z)
      ∙ ap (λ s. scan s (cs ++ rest)) (step-bare c n w ws (has_head is_special c cs h) b)
      ∙ scan-bare cs 0 (flush n w ++ c ∷ []) ws rest (has_tail is_special c cs h)
          (has_tail is_zero c cs z) closes
      ∙ ap (λ u. scan (at gap 0 [] (ws ++ u ∷ [])) rest) (flush_join n w c cs)
]

-- Between arguments, a character that is not blank starts one.
step-gap :
    (c : ℕ) (ws : List Text)
    → is_blank c ≡ false
    → step (at gap 0 [] ws) c ≡ step (at bare 0 [] ws) c
unfolding step_at
step-gap c ws h = rw (h, step_at) refl

step-gap_quote : (ws : List Text) → step (at gap 0 [] ws) quote ≡ at quoted 0 [] ws
unfolding step_at in_argument at_quote
step-gap_quote ws = refl

scan-argument :
    (c : ℕ) (cs : Text) (ws : List Text) (rest : Text)
    → has is_zero (c ∷ cs) ≡ false
    → Closes rest
    → scan (at gap 0 [] ws) (write_argument (c ∷ cs) ++ rest)
      ≡ scan (at gap 0 [] (ws ++ (c ∷ cs) ∷ [])) rest
unfolding write_argument
scan-argument c cs ws rest z closes = elim (Bool-cases (has is_special (c ∷ cs))) [
  | inl h ↦
      let arg : Text = c ∷ cs in
      let written : write_argument arg ++ rest ≡ quote ∷ (quoted_from 0 arg ++ quote ∷ rest) =
        rw (h, write_argument)
          (ap (◌∷◌ quote) (append_assoc (quoted_from 0 arg) (quote ∷ []) rest)) in
      ap (λ u. scan (at gap 0 [] ws) u) written
      ∙ scan-step (at gap 0 [] ws) quote (quoted_from 0 arg ++ quote ∷ rest) refl
      ∙ ap (λ s. scan s (quoted_from 0 arg ++ quote ∷ rest)) (step-gap_quote ws)
      ∙ scan-quoted_from arg 0 [] ws rest z
      ∙ closes 0 arg ws
      ∙ ap (λ u. scan (at gap 0 [] (ws ++ u ∷ [])) rest) (append-nil arg)
  | inr h ↦
      let written : write_argument (c ∷ cs) ++ rest ≡ c ∷ (cs ++ rest) = rw (h, write_argument) in
      let blank : is_blank c ≡ false = ground (arith, has_head is_special c cs h) in
      let zero_free : (c == 0) ≡ false = has_head is_zero c cs z in
      ap (λ u. scan (at gap 0 [] ws) u) written
      ∙ scan-step (at gap 0 [] ws) c (cs ++ rest) zero_free
      ∙ ap (λ s. scan s (cs ++ rest)) (step-gap c ws blank)
      ∙ sym (scan-step (at bare 0 [] ws) c (cs ++ rest) zero_free)
      ∙ scan-bare (c ∷ cs) 0 [] ws rest h z closes
]

unfoldable pub have_zero : List Text → Bool
have_zero [] = false
have_zero (arg ∷ args) = has is_zero arg || have_zero args

unfoldable pub without_empty : List Text → List Text
without_empty [] = []
without_empty ([] ∷ args) = without_empty args
without_empty ((c ∷ cs) ∷ args) = (c ∷ cs) ∷ without_empty args

Closes-arguments : (args : List Text) → Closes (write_arguments args ++ 0 ∷ [])
unfolding write_arguments
Closes-arguments [] = Closes-zero []
Closes-arguments (arg ∷ args) = Closes-space (write_argument arg ++ write_arguments args ++ 0 ∷ [])

step-gap_space : (ws : List Text) → step (at gap 0 [] ws) space ≡ at gap 0 [] ws
unfolding step_at
step-gap_space ws = refl

write_argument_nil : write_argument [] ≡ []
unfolding write_argument has
write_argument_nil = refl

scan-arguments :
    (args ws : List Text)
    → have_zero args ≡ false
    → scan (at gap 0 [] ws) (write_arguments args ++ 0 ∷ []) ≡ ws ++ without_empty args
unfolding write_arguments without_empty have_zero scan finish_at
scan-arguments [] ws z = sym (append-nil ws)
scan-arguments ([] ∷ args) ws z =
    ap (λ s. scan s (write_argument [] ++ write_arguments args ++ 0 ∷ [])) (step-gap_space ws)
    ∙ ap (λ u. scan (at gap 0 [] ws) (u ++ write_arguments args ++ 0 ∷ [])) write_argument_nil
    ∙ scan-arguments args ws (ground arith)
scan-arguments ((c ∷ cs) ∷ args) ws z =
    let rest : Text = write_arguments args ++ 0 ∷ [] in
    ap (λ s. scan s (write_argument (c ∷ cs) ++ write_arguments args ++ 0 ∷ [])) (step-gap_space ws)
    ∙ ap (λ u. scan (at gap 0 [] ws) u)
        (append_assoc (write_argument (c ∷ cs)) (write_arguments args) (0 ∷ []))
    ∙ scan-argument c cs ws rest (ground arith) (Closes-arguments args)
    ∙ scan-arguments args (ws ++ (c ∷ cs) ∷ []) (ground arith)
    ∙ append_assoc ws ((c ∷ cs) ∷ []) (without_empty args)

step-program :
    (c : ℕ) (w : Text)
    → is_blank_or_quote c ≡ false
    → step (at program 0 w []) c ≡ at program 0 (w ++ c ∷ []) []
unfolding step_at
step-program c w h =
    let b : is_blank c ≡ false = ground arith in
    let q : (c == quote) ≡ false = ground arith in rw (b, q)

scan-program :
    (name : Text) (w : Text) (rest : Text)
    → has is_blank_or_quote name ≡ false
    → has is_zero name ≡ false
    → scan (at program 0 w []) (name ++ rest) ≡ scan (at program 0 (w ++ name) []) rest
scan-program [] w rest h z = ap (λ u. scan (at program 0 u []) rest) (sym (append-nil w))
scan-program (c ∷ cs) w rest h z =
    scan-step (at program 0 w []) c (cs ++ rest) (has_head is_zero c cs z)
    ∙ ap (λ s. scan s (cs ++ rest)) (step-program c w (has_head is_blank_or_quote c cs h))
    ∙ scan-program cs (w ++ c ∷ []) rest (has_tail is_blank_or_quote c cs h)
        (has_tail is_zero c cs z)
    ∙ ap (λ u. scan (at program 0 u []) rest) (append_assoc w (c ∷ []) cs)

unquoted : (name : Text) → has is_blank_or_quote name ≡ false → has is_quote name ≡ false
unfolding has
unquoted [] h = refl
unquoted (c ∷ cs) h =
    ground
      (arith, has_head is_blank_or_quote c cs h, unquoted cs (has_tail is_blank_or_quote c cs h))

-- After the program's name the reader stands between arguments.
scan-after_program :
    (name : Text) (args : List Text)
    → have_zero args ≡ false
    → scan (at program 0 name []) (write_arguments args ++ 0 ∷ []) ≡ name ∷ without_empty args
unfolding write_arguments scan finish_at step_at without_empty
scan-after_program name [] z = refl
scan-after_program name (arg ∷ args) z = scan-arguments (arg ∷ args) (name ∷ []) z

-- Over the rules of the Microsoft C runtime, a program started with a command line that
-- `MakeCommandLine` made finds its own name and the arguments given, in order and unchanged,
-- except that an argument that is empty is lost; the name has no blank and no quote in it, and
-- neither name nor arguments have a zero.
pub arguments-make_command_line :
    (name : Text) (args : List Text)
    → has is_blank_or_quote name ≡ false
    → has is_zero name ≡ false
    → have_zero args ≡ false
    → arguments (make_command_line name args) ≡ name ∷ without_empty args
unfolding make_command_line arguments write_program
arguments-make_command_line name args h z za =
    let rest : Text = write_arguments args ++ 0 ∷ [] in
    let written : write_program name ≡ name = rw (unquoted name h, write_program) in
    ap (λ u. arguments (u ++ write_arguments args ++ 0 ∷ [])) written
    ∙ ap (λ u. arguments u) (append_assoc name (write_arguments args) (0 ∷ []))
    ∙ scan-program name [] rest h z
    ∙ scan-after_program name args za
