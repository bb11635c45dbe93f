-- ===== src/Subprocess/CommandLine/Quoting.antt =====
-- What the reader of a command line makes of one argument that `MakeCommandLine` of
-- src/Win32/SubprocessWin32.cpp wrote.
use system_abstractions.Base.{
  ℕ, zero, suc, ◌+◌, ◌*◌, ◌/◌, ◌%◌, ◌≡◌, refl, sym, ap, ◌∙◌, inl, inr, Bool, true, false, List, [],
  ◌∷◌, ◌++◌, append_assoc, append-nil, arith, ◌==◌, Bool-cases, Text, replicate,
}
use system_abstractions.Subprocess.CommandLine.{quote, backslash, has, quoted_from}
use system_abstractions.Subprocess.CommandLine.Arguments.{
  Place, bare, quoted, Scan, flush, at_quote, in_argument, step_at, step, scan,
}

abbrev pub at : Place → ℕ → Text → List Text → Scan
at p n w ws = record { place = p; slashes = n; word = w; words = ws }

pub scan-step :
    (s : Scan) (c : ℕ) (cs : Text) → (c == 0) ≡ false → scan s (c ∷ cs) ≡ scan (step s c) cs
unfolding scan
scan-step s c cs h = rw (h, scan)

pub step-quoted_backslash :
    (n : ℕ) (w : Text) (ws : List Text) → step (at quoted n w ws) backslash ≡ at quoted (suc n) w ws
unfolding step_at in_argument
step-quoted_backslash n w ws = refl

pub scan-replicate :
    (k n : ℕ) (w : Text) (ws : List Text) (cs : Text)
    → scan (at quoted n w ws) (replicate k backslash ++ cs) ≡ scan (at quoted (n + k) w ws) cs
scan-replicate zero n w ws cs = ap (λ m. scan (at quoted m w ws) cs) (omega arith)
scan-replicate (suc k) n w ws cs =
    scan-step (at quoted n w ws) backslash (replicate k backslash ++ cs) refl
    ∙ ap (λ s. scan s (replicate k backslash ++ cs)) (step-quoted_backslash n w ws)
    ∙ scan-replicate k (suc n) w ws cs
    ∙ ap (λ m. scan (at quoted m w ws) cs) (omega arith)

pub at_quote_even :
    (n : ℕ) (w : Text) (ws : List Text)
    → step (at quoted (n * 2) w ws) quote ≡ at bare 0 (flush n w) ws
unfolding step_at in_argument at_quote
at_quote_even n w ws =
    let e : ((n * 2) % 2 == 1) ≡ false = ground arith in
    let d : (n * 2) / 2 ≡ n = omega arith in rw (e, d)

pub at_quote_odd :
    (n : ℕ) (w : Text) (ws : List Text)
    → step (at quoted (n + (n + 1)) w ws) quote ≡ at quoted 0 (flush n w ++ quote ∷ []) ws
unfolding step_at in_argument at_quote
at_quote_odd n w ws =
    let e : ((n + (n + 1)) % 2 == 1) ≡ true = ground arith in
    let d : (n + (n + 1)) / 2 ≡ n = omega arith in rw (e, d)

abbrev pub is_zero : ℕ → Bool
is_zero c = c == 0

pub has_head : (is : ℕ → Bool) (c : ℕ) (cs : Text) → has is (c ∷ cs) ≡ false → is c ≡ false
unfolding has
has_head is c cs h = ground arith

pub has_tail : (is : ℕ → Bool) (c : ℕ) (cs : Text) → has is (c ∷ cs) ≡ false → has is cs ≡ false
unfolding has
has_tail is c cs h = ground arith

pub flush-suc : (n : ℕ) (w cs : Text) → flush (suc n) w ++ cs ≡ flush n w ++ backslash ∷ cs
flush-suc n w cs =
    append_assoc w (replicate (suc n) backslash) cs
    ∙ ap (λ u. w ++ u) (replicate-snoc n)
    ∙ sym (append_assoc w (replicate n backslash) (backslash ∷ cs))
  where
    replicate-snoc :
        (k : ℕ) → replicate (suc k) backslash ++ cs ≡ replicate k backslash ++ backslash ∷ cs
    replicate-snoc zero = refl
    replicate-snoc (suc k) = ap (◌∷◌ backslash) (replicate-snoc k)

step-quoted_plain :
    (c n : ℕ) (w : Text) (ws : List Text)
    → (c == backslash) ≡ false
    → (c == quote) ≡ false
    → step (at quoted n w ws) c ≡ at quoted 0 (flush n w ++ c ∷ []) ws
unfolding step_at in_argument
step-quoted_plain c n w ws b q = rw (b, q)

scan-plain :
    (c n : ℕ) (w : Text) (ws : List Text) (cs : Text)
    → (c == backslash) ≡ false
    → (c == quote) ≡ false
    → (c == 0) ≡ false
    → scan (at quoted 0 w ws) (replicate n backslash ++ c ∷ cs)
      ≡ scan (at quoted 0 (flush n w ++ c ∷ []) ws) cs
scan-plain c n w ws cs b q z =
    scan-replicate n 0 w ws (c ∷ cs)
    ∙ ap (λ m. scan (at quoted m w ws) (c ∷ cs)) (let e : 0 + n ≡ n = omega arith in e)
    ∙ scan-step (at quoted n w ws) c cs z
    ∙ ap (λ s. scan s cs) (step-quoted_plain c n w ws b q)

scan-escaped :
    (n : ℕ) (w : Text) (ws : List Text) (cs : Text)
    → scan (at quoted 0 w ws) (replicate n backslash ++ (replicate (n + 1) backslash ++ quote ∷ cs))
      ≡ scan (at quoted 0 (flush n w ++ quote ∷ []) ws) cs
scan-escaped n w ws cs =
    scan-replicate n 0 w ws (replicate (n + 1) backslash ++ quote ∷ cs)
    ∙ scan-replicate (n + 1) (0 + n) w ws (quote ∷ cs)
    ∙ ap (λ m. scan (at quoted m w ws) (quote ∷ cs))
        (let e : 0 + n + (n + 1) ≡ n + (n + 1) = omega arith in e)
    ∙ scan-step (at quoted (n + (n + 1)) w ws) quote cs refl
    ∙ ap (λ s. scan s cs) (at_quote_odd n w ws)

pub flush_join :
    (n : ℕ) (w : Text) (c : ℕ) (cs : Text)
    → flush 0 (flush n w ++ c ∷ []) ++ cs ≡ flush n w ++ c ∷ cs
flush_join n w c cs =
    ap (λ u. u ++ cs) (append-nil (flush n w ++ c ∷ [])) ∙ append_assoc (flush n w) (c ∷ []) cs

written_backslash :
    (c n : ℕ) (cs : Text)
    → (c == backslash) ≡ true
    → quoted_from n (c ∷ cs) ≡ quoted_from (suc n) cs
unfolding quoted_from
written_backslash c n cs b = rw (b, quoted_from)

written_quote :
    (c n : ℕ) (cs rest : Text)
    → (c == backslash) ≡ false
    → (c == quote) ≡ true
    → quoted_from n (c ∷ cs) ++ rest
      ≡ replicate n backslash ++ (replicate (n + 1) backslash ++ c ∷ (quoted_from 0 cs ++ rest))
unfolding quoted_from
written_quote c n cs rest b q =
    rw (b, q, quoted_from)
      (append_assoc (replicate n backslash ++ replicate (n + 1) backslash) (c ∷ quoted_from 0 cs)
          rest
        ∙ append_assoc (replicate n backslash) (replicate (n + 1) backslash)
            (c ∷ quoted_from 0 cs ++ rest))

written_plain :
    (c n : ℕ) (cs rest : Text)
    → (c == backslash) ≡ false
    → (c == quote) ≡ false
    → quoted_from n (c ∷ cs) ++ rest ≡ replicate n backslash ++ c ∷ (quoted_from 0 cs ++ rest)
unfolding quoted_from
written_plain c n cs rest b q =
    rw (b, q, quoted_from)
      (append_assoc (replicate n backslash ++ []) (c ∷ quoted_from 0 cs) rest
        ∙ append_assoc (replicate n backslash) [] (c ∷ quoted_from 0 cs ++ rest))

-- The reader gets back the characters that the loop wrote, with the `n` backslashes it still held.
pub scan-quoted_from :
    (arg : Text) (n : ℕ) (w : Text) (ws : List Text) (rest : Text)
    → has is_zero arg ≡ false
    → scan (at quoted 0 w ws) (quoted_from n arg ++ quote ∷ rest)
      ≡ scan (at bare 0 (flush n w ++ arg) ws) rest
unfolding quoted_from
scan-quoted_from [] n w ws rest z =
    scan-replicate (n * 2) 0 w ws (quote ∷ rest)
    ∙ ap (λ m. scan (at quoted m w ws) (quote ∷ rest)) (omega arith)
    ∙ scan-step (at quoted (n * 2) w ws) quote rest refl
    ∙ ap (λ s. scan s rest) (at_quote_even n w ws)
    ∙ ap (λ u. scan (at bare 0 u ws) rest) (sym (append-nil (flush n w)))
scan-quoted_from (c ∷ cs) n w ws rest z = elim (Bool-cases (c == backslash)) [
  | inl b ↦
      ap (λ u. scan (at quoted 0 w ws) (u ++ quote ∷ rest)) (written_backslash c n cs b)
      ∙ scan-quoted_from cs (suc n) w ws rest (has_tail is_zero c cs z)
      ∙ ap (λ u. scan (at bare 0 u ws) rest)
          (flush-suc n w cs
            ∙ ap (λ d. flush n w ++ d ∷ cs) (let e : backslash ≡ c = ground arith in e))
  | inr b ↦ elim (Bool-cases (c == quote)) [
    | inl q ↦
        let e : c ≡ quote = ground arith in
        ap (λ u. scan (at quoted 0 w ws) u) (written_quote c n cs (quote ∷ rest) b q)
        ∙ ap
            (λ d. scan (at quoted 0 w ws) (
              replicate n backslash
              ++ (replicate (n + 1) backslash ++ d ∷ (quoted_from 0 cs ++ quote ∷ rest))))
            e
        ∙ scan-escaped n w ws (quoted_from 0 cs ++ quote ∷ rest)
        ∙ scan-quoted_from cs 0 (flush n w ++ quote ∷ []) ws rest (has_tail is_zero c cs z)
        ∙ ap (λ u. scan (at bare 0 u ws) rest)
            (flush_join n w quote cs ∙ ap (λ d. flush n w ++ d ∷ cs) (sym e))
    | inr q ↦
        ap (λ u. scan (at quoted 0 w ws) u) (written_plain c n cs (quote ∷ rest) b q)
        ∙ scan-plain c n w ws (quoted_from 0 cs ++ quote ∷ rest) b q (has_head is_zero c cs z)
        ∙ scan-quoted_from cs 0 (flush n w ++ c ∷ []) ws rest (has_tail is_zero c cs z)
        ∙ ap (λ u. scan (at bare 0 u ws) rest) (flush_join n w c cs)
  ]
]
