-- ===== src/Text/Decimal.antt =====
-- `to_string` of an unsigned integer against `str::parse`.
use drv_thru.Base.{
  ℕ, zero, suc, ◌+◌, ◌-◌, ◌*◌, ◌/◌, ◌%◌, ◌^◌, ◌≡◌, ◌≤◌, ◌<◌, refl, sym, ap, subst, ◌==◌, ◌∙◌, true,
  false, [], ◌∷◌, some, arith, Bool-cases, inl, inr, All, ltb, ltb→lt, lt→ltb, ltb-eq-false,
}
use drv_thru.Text.{Text, is_ascii_digit, digits_from, to_digits, parse_digits, parse_unsigned}

digit-step :
    (limit acc d : ℕ) (rest : Text)
    → d < 10
    → acc * 10 + d < limit
    → parse_digits limit acc ((b'0' + d) ∷ rest) ≡ parse_digits limit (acc * 10 + d) rest
unfolding parse_digits
digit-step limit acc d rest small fits =
    let value : acc * 10 + ((b'0' + d) - b'0') ≡ acc * 10 + d = omega arith in
    let digit : is_ascii_digit (b'0' + d) ≡ true = ground arith in
    rw (digit, value, lt→ltb (acc * 10 + d) limit fits) refl

digit-char : (d : ℕ) → d < 10 → is_ascii_digit (b'0' + d) ≡ true
digit-char d h = ground arith

no_tens : (n : ℕ) → 0 * 10 + n ≡ n
no_tens n = omega arith

divides : (n : ℕ) → n / 10 * 10 + n % 10 ≡ n
divides n = omega arith

smaller : (n fuel : ℕ) → 10 ≤ n → n < suc fuel → n / 10 < fuel
smaller n fuel h k = omega arith

last_digit : (n : ℕ) → n % 10 < 10
last_digit n = omega arith

tenth : (n limit : ℕ) → n < limit → n / 10 < limit
tenth n limit h = omega arith

-- The digits of a number bring the parser to the number.
parse_digits-digits_from :
    (limit fuel n : ℕ) (rest : Text)
    → n < fuel
    → n < limit
    → parse_digits limit 0 (digits_from fuel n rest) ≡ parse_digits limit n rest
unfolding digits_from
parse_digits-digits_from limit zero n rest h k = absurd (omega arith)
parse_digits-digits_from limit (suc fuel) n rest h k = elim (Bool-cases (ltb n 10)) [
  | inl small ↦ rw small (
      digit-step limit 0 n rest (ltb→lt n 10 small) (omega arith)
      ∙ ap (λ x. parse_digits limit x rest) (no_tens n))
  | inr large ↦
      let many = ltb-eq-false n 10 large in
      rw large (
        parse_digits-digits_from limit fuel (n / 10) ((b'0' + n % 10) ∷ rest)
          (smaller n fuel many h) (tenth n limit k)
        ∙ digit-step limit (n / 10) (n % 10) rest (last_digit n)
            (subst (λ x. x < limit) (sym (divides n)) k)
        ∙ ap (λ x. parse_digits limit x rest) (divides n))
]

abbrev DigitFirst : Text → Type 0
DigitFirst [] = ⊥
DigitFirst (c ∷ s) = is_ascii_digit c ≡ true

digits_from-DigitFirst :
    (fuel n : ℕ) (rest : Text) → n < fuel → DigitFirst (digits_from fuel n rest)
unfolding digits_from
digits_from-DigitFirst zero n rest h = absurd (omega arith)
digits_from-DigitFirst (suc fuel) n rest h = elim (Bool-cases (ltb n 10)) [
  | inl small ↦ rw small (ground arith)
  | inr large ↦
      rw large (digits_from-DigitFirst fuel (n / 10) _ (smaller n fuel (ltb-eq-false n 10 large) h))
]

parse_unsigned-DigitFirst :
    (w : ℕ) (s : Text) → DigitFirst s → parse_unsigned w s ≡ parse_digits (2 ^ w) 0 s
unfolding parse_unsigned
parse_unsigned-DigitFirst w [] h = absurd h
parse_unsigned-DigitFirst w (c ∷ []) h =
    let other : (c == b'+') ≡ false = ground arith in rw other refl
parse_unsigned-DigitFirst w (c ∷ d ∷ s) h =
    let other : (c == b'+') ≡ false = ground arith in rw other refl

-- The digits of a number are digits.
digits_from-All :
    (fuel n : ℕ) (rest : Text)
    → All (λ c. is_ascii_digit c ≡ true) rest
    → All (λ c. is_ascii_digit c ≡ true) (digits_from fuel n rest)
unfolding digits_from
digits_from-All zero n rest h = h
digits_from-All (suc fuel) n rest h = elim (Bool-cases (ltb n 10)) [
  | inl small ↦ rw small (digit-char n (ltb→lt n 10 small), h)
  | inr large ↦ rw large (digits_from-All fuel (n / 10) _ (digit-char (n % 10) (last_digit n), h))
]

pub to_digits-All : (n : ℕ) → All (λ c. is_ascii_digit c ≡ true) (to_digits n)
unfolding to_digits
to_digits-All n = digits_from-All (suc n) n [] tt

-- A number that fits is read back from its digits.
pub parse_unsigned-to_digits : (w n : ℕ) → n < 2 ^ w → parse_unsigned w (to_digits n) ≡ some n
unfolding to_digits parse_digits
parse_unsigned-to_digits w n h =
    parse_unsigned-DigitFirst w (digits_from (suc n) n [])
      (digits_from-DigitFirst (suc n) n [] (omega arith))
    ∙ parse_digits-digits_from (2 ^ w) (suc n) n [] (omega arith) h
