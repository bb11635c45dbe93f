-- ===== src/Subprocess/Decimal.antt =====
-- `sprintf` and `sscanf` with "%d" and the like, for the descriptor that a child is told.
use system_abstractions.Base.{
  ℕ, zero, suc, ◌+◌, ◌-◌, ◌*◌, ◌/◌, ◌%◌, ◌<◌, ◌≡◌, refl, sym, ap, ◌∙◌, ◌⊎◌, inl, inr, Bool, true,
  false, ◌||◌, ◌&&◌, [], ◌∷◌, Option, none, some, arith, ◌==◌, ltb, leb, if◌then◌else◌, Text,
}
use system_abstractions.Subprocess.CommandLine.{has}
use system_abstractions.Subprocess.CommandLine.Quoting.{is_zero}

-- The digits of `n` before those of `later`, on fuel.
unfoldable pub digits : ℕ → ℕ → Text → Text
digits zero n later = later
digits (suc fuel) n later = elim (n / 10) [
  | zero ↦ (48 + n % 10) ∷ later
  | suc m ↦ digits fuel (suc m) ((48 + n % 10) ∷ later)
]

-- A number is greater than its number of digits.
unfoldable pub decimal : ℕ → Text
decimal n = digits (suc n) n []

abbrev pub is_digit : ℕ → Bool
is_digit c = leb 48 c && ltb c 58

-- `isspace`
abbrev pub is_white : ℕ → Bool
is_white c = (c == 32) || (leb 9 c && ltb c 14)

-- The number that digits go on with, after `acc`.
unfoldable pub value : ℕ → Text → ℕ
value acc [] = acc
value acc (c ∷ cs) = elim (is_digit c) [ true ↦ value (acc * 10 + (c - 48)) cs | false ↦ acc ]

unfoldable pub scan_digits : Text → Option ℕ
scan_digits [] = none
scan_digits (c ∷ cs) = if is_digit c then some (value 0 (c ∷ cs)) else none

abbrev pub signed : Bool → Option ℕ → Option (Bool × ℕ)
signed negative none = none
signed negative (some n) = some (negative, n)

-- A sign and digits.
unfoldable pub scan_sign : Text → Option (Bool × ℕ)
scan_sign [] = none
scan_sign (c ∷ cs) =
    if c == 45
    then signed true (scan_digits cs)
    else if c == 43
    then signed false (scan_digits cs)
    else signed false (scan_digits (c ∷ cs))

-- `sscanf` with "%d": whether the number has a minus sign, and its digits; `none` if it counts no
-- conversion.
unfoldable pub scan_decimal : Text → Option (Bool × ℕ)
scan_decimal [] = none
scan_decimal (c ∷ cs) = elim (is_white c) [ true ↦ scan_decimal cs | false ↦ scan_sign (c ∷ cs) ]

is_digit_digit : (d : ℕ) → d < 10 → is_digit (48 + d) ≡ true
is_digit_digit d h = ground arith

value_digit : (acc d : ℕ) (cs : Text) → d < 10 → value acc ((48 + d) ∷ cs) ≡ value (acc * 10 + d) cs
unfolding value
value_digit acc d cs h =
    rw (is_digit_digit d h, value)
      (ap (λ k. value (acc * 10 + k) cs) (let e : 48 + d - 48 ≡ d = omega arith in e))

ℕ-cases : (k : ℕ) → (k ≡ 0) ⊎ ((m : ℕ) × (k ≡ suc m))
ℕ-cases zero = inl refl
ℕ-cases (suc m) = inr (m, refl)

value-digits :
    (fuel n : ℕ) (later : Text) → n < fuel → value 0 (digits fuel n later) ≡ value n later
unfolding digits
value-digits zero n later h = absurd (omega arith)
value-digits (suc fuel) n later h = elim (ℕ-cases (n / 10)) [
  | inl e ↦
      rw (e, digits)
        (value_digit 0 (n % 10) later (omega arith)
          ∙ ap (λ k. value k later) (let d : 0 * 10 + n % 10 ≡ n = omega (arith, e) in d))
  | inr (m, e) ↦
      rw (e, digits)
        (value-digits fuel (suc m) ((48 + n % 10) ∷ later) (omega (arith, e))
          ∙ value_digit (suc m) (n % 10) later (omega arith)
          ∙ ap (λ k. value k later) (let d : suc m * 10 + n % 10 ≡ n = omega (arith, e) in d))
]

-- What is printed starts with a digit.
unfoldable pub Starts : Text → Type 0
Starts cs = (d : ℕ) × (rest : Text) × (cs ≡ (48 + d) ∷ rest) × d < 10

Starts-digits : (fuel n : ℕ) (later : Text) → Starts later → Starts (digits fuel n later)
unfolding digits Starts
Starts-digits zero n later h = h
Starts-digits (suc fuel) n later h = elim (ℕ-cases (n / 10)) [
  | inl e ↦ rw (e, digits) (n % 10, later, refl, omega arith)
  | inr (m, e) ↦
      rw (e, digits)
        (Starts-digits fuel (suc m) ((48 + n % 10) ∷ later) (n % 10, later, refl, omega arith))
]

pub Starts-decimal : (n : ℕ) → Starts (decimal n)
unfolding decimal digits Starts
Starts-decimal n = elim (ℕ-cases (n / 10)) [
  | inl e ↦ rw (e, digits) (n % 10, [], refl, omega arith)
  | inr (m, e) ↦
      rw (e, digits) (Starts-digits n (suc m) ((48 + n % 10) ∷ []) (n % 10, [], refl, omega arith))
]

scan_decimal_digits :
    (d : ℕ) (cs : Text)
    → d < 10
    → scan_decimal ((48 + d) ∷ cs) ≡ some (false, value 0 ((48 + d) ∷ cs))
unfolding scan_decimal scan_sign scan_digits
scan_decimal_digits d cs h =
    let w : is_white (48 + d) ≡ false = ground arith in
    let m : (48 + d == 45) ≡ false = ground arith in
    let p : (48 + d == 43) ≡ false = ground arith in
    rw (w, m, p, is_digit_digit d h, scan_decimal, scan_sign, scan_digits) refl

value_nil : (k : ℕ) → value k [] ≡ k
unfolding value
value_nil k = refl

-- `sscanf` reads the number that `sprintf` printed.
pub scan_decimal-decimal : (n : ℕ) → scan_decimal (decimal n) ≡ some (false, n)
unfolding Starts decimal
scan_decimal-decimal n =
    let (d, rest, e, h) = Starts-decimal n in
    ap scan_decimal e
    ∙ scan_decimal_digits d rest h
    ∙ ap (λ cs. some (false, value 0 cs)) (sym e)
    ∙ ap (λ k. some (false, k)) (value-digits (suc n) n [] (omega arith) ∙ value_nil n)

digits-has_zero :
    (fuel n : ℕ) (later : Text)
    → has is_zero later ≡ false
    → has is_zero (digits fuel n later) ≡ false
unfolding digits has
digits-has_zero zero n later h = h
digits-has_zero (suc fuel) n later h =
    let d : is_zero (48 + n % 10) ≡ false = ground arith in
    let added : has is_zero ((48 + n % 10) ∷ later) ≡ false = rw (d, has) h in
    elim (ℕ-cases (n / 10)) [
      | inl e ↦ rw (e, digits) added
      | inr (m, e) ↦ rw (e, digits) (digits-has_zero fuel (suc m) ((48 + n % 10) ∷ later) added)
    ]

-- What is printed has no zero character.
pub decimal-has_zero : (n : ℕ) → has is_zero (decimal n) ≡ false
unfolding decimal has
decimal-has_zero n = digits-has_zero (suc n) n [] refl
