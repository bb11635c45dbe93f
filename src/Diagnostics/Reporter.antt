-- ===== src/Diagnostics/Reporter.antt =====
-- src/DiagnosticsStreamReporter.cpp: a subscriber that prints messages to two streams.
use native.Mathlib.Nat.{pow-suc}
use system_abstractions.Base.{
  ℕ, zero, suc, ◌+◌, ◌-◌, ◌*◌, ◌/◌, ◌%◌, ◌^◌, ◌≤◌, ◌<◌, ◌≡◌, ◌≢◌, ◌↔◌, refl, ◌∙◌, [], ◌∷◌, ◌++◌,
  arith, ltb, leb, ◌==◌, if◌then◌else◌, Bool-cases, inl, inr,
}
use system_abstractions.Diagnostics.Sender.{Text, text}

pub data Stream : Type 0 where
  output error : Stream

pub record Line : Type 0 where
  pub destination : Stream
  pub line : Text

-- DiagnosticsSender::Levels
abbrev pub level_warning : ℕ
level_warning = 5

abbrev pub level_error : ℕ
level_error = 10

-- `c_str()` as `%s` reads it, up to the first zero byte.
unfoldable pub c_str : Text → Text
c_str [] = []
c_str (c ∷ cs) = if c == 0 then [] else c ∷ c_str cs

-- `%zu`, with a round for each digit: a `size_t` has at most twenty.
unfoldable pub digits : ℕ → ℕ → Text
digits zero n = []
digits (suc k) n =
    let more = digits k (n / 10) in if ltb n 10 then (48 + n) ∷ [] else more ++ ((48 + n % 10) ∷ [])

unfoldable pub decimal : ℕ → Text
decimal n = digits 20 n

unfoldable pub destination_of : ℕ → Stream
destination_of level =
    if leb level_error level then error else if leb level_warning level then error else output

unfoldable pub prefix_of : ℕ → Text
prefix_of level =
    if leb level_error level
    then text "error: "
    else if leb level_warning level
    then text "warning: "
    else []

-- The delegate, called at a time whose distance from the reference prints as `elapsed`.
unfoldable pub report : Text → Text → ℕ → Text → Line
unfolding destination_of prefix_of
report elapsed sender_name level message = record {
  destination = destination_of level;
  line =
      text "["
      ++ (elapsed
          ++ (text " "
              ++ (c_str sender_name
                  ++ (text ":"
                      ++ (decimal level
                          ++ (text "] "
                              ++ (c_str (prefix_of level) ++ (c_str message ++ (10 ∷ [])))))))));
}

-- A number read digit by digit.
pub read_digits : ℕ → Text → ℕ
read_digits acc [] = acc
read_digits acc (c ∷ cs) = read_digits (acc * 10 + (c - 48)) cs

read_digits-append :
    (acc : ℕ) (xs ys : Text) → read_digits acc (xs ++ ys) ≡ read_digits (read_digits acc xs) ys
unfolding read_digits
read_digits-append acc [] ys = refl
read_digits-append acc (x ∷ xs) ys = read_digits-append (acc * 10 + (x - 48)) xs ys

last :
    (k n : ℕ)
    → read_digits 0 (digits k (n / 10)) ≡ n / 10
    → read_digits 0 (digits k (n / 10)) * 10 + (48 + n % 10 - 48) ≡ n
last k n h = omega (arith, h)

read-digits : (k n : ℕ) → n < 10 ^ k → read_digits 0 (digits k n) ≡ n
unfolding digits read_digits
read-digits zero n h = omega arith
read-digits (suc k) n h = elim (Bool-cases (ltb n 10)) [
  | inl b ↦ rw b (omega arith)
  | inr b ↦ rw b (
      read_digits-append 0 (digits k (n / 10)) ((48 + n % 10) ∷ [])
      ∙ last k n (read-digits k (n / 10) (omega (arith, pow-suc 10 k))))
]

-- No zero byte, which would end a text for `%s`.
abbrev pub NulFree : Text → Type 0
NulFree [] = Unit {0}
NulFree (c ∷ cs) = (c ≢ 0) × NulFree cs

c_str-NulFree : (t : Text) → NulFree t → c_str t ≡ t
unfolding c_str
c_str-NulFree [] h = refl
c_str-NulFree (c ∷ cs) h = ground (arith, c_str-NulFree cs h.1)

c_str-prefix_of : (level : ℕ) → c_str (prefix_of level) ≡ prefix_of level
unfolding c_str prefix_of
c_str-prefix_of level = ground arith

printed_level : (level : ℕ) → level < 2 ^ 64 → read_digits 0 (decimal level) ≡ level
unfolding decimal
printed_level level h = read-digits 20 level (omega arith)

-- Warnings and errors, and they alone, go to the error stream; for texts with no zero byte the
-- line ends with the whole message behind the mark of its level, and the level printed, of any
-- `size_t`, reads back as the level of the message.
pub report_lem :
    (elapsed sender_name : Text) (level : ℕ) (message : Text)
    → level < 2 ^ 64
    → NulFree sender_name
    → NulFree message
    → let r = report elapsed sender_name level message in
      ((r.destination ≡ error) ↔ (level_warning ≤ level))
      × ((printed : Text) × (read_digits 0 printed ≡ level)
          × (r.line
              ≡ text "["
                ++ (elapsed
                    ++ (text " "
                        ++ (sender_name
                            ++ (text ":"
                                ++ (printed
                                    ++ (text "] "
                                        ++ (prefix_of level ++ (message ++ (10 ∷ [])))))))))))
unfolding report destination_of
report_lem elapsed sender_name level message small hn hm = (
  ground arith,
  (
    decimal level,
    printed_level level small,
    rw (c_str-NulFree sender_name hn, c_str-prefix_of level, c_str-NulFree message hm),
  ),
)
