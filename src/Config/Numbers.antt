-- ===== src/Config/Numbers.antt =====
-- crates/drv-thru/src/config.rs: which texts are sizes and durations, and of what value.
use drv_thru.Base.{
  ℕ, zero, suc, ◌+◌, ◌-◌, ◌*◌, ◌^◌, ◌≤◌, ◌<◌, ◌≡◌, ◌≢◌, refl, sym, ap, ◌∙◌, true, false, [], ◌∷◌,
  ◌++◌, Option, none, some, Result, ok, ◌>>=◌, ◌>>◌, bail_if, context, map, arith, All, Bool-cases,
  inl, inr, >>=-eq-ok, >>-eq-ok, bail_if-eq-ok, context-eq-ok, ltb, if◌then◌else◌,
}
use drv_thru.Text.{Text, is_empty, trim, is_ascii_digit, to_ascii_lowercase, parse_digits}
use drv_thru.Config.{
  ConfigError, split_digits, parse_number_and_suffix, checked_mul, scale, unknown_suffix, overflow,
  parse_number, empty_value, invalid_number,
}

abbrev pub IsDigit : ℕ → Type 0
IsDigit c = is_ascii_digit c ≡ true

-- The decimal value of a run of digits behind others of the value given.
abbrev pub decimal : ℕ → Text → ℕ
decimal acc [] = acc
decimal acc (c ∷ s) = decimal (acc * 10 + (c - b'0')) s

abbrev pub NoDigitFirst : Text → Type 0
NoDigitFirst [] = Unit
NoDigitFirst (c ∷ s) = is_ascii_digit c ≡ false

decimal_mono : (acc : ℕ) (s : Text) → acc ≤ decimal acc s
decimal_mono acc [] = omega arith
decimal_mono acc (c ∷ s) = omega (arith, decimal_mono (acc * 10 + (c - b'0')) s)

pub parse_digits_lem :
    (limit acc : ℕ) (s : Text)
    → All IsDigit s
    → acc < limit
    → parse_digits limit acc s ≡ (if ltb (decimal acc s) limit then some (decimal acc s) else none)
unfolding parse_digits
parse_digits_lem limit acc [] d h = ground arith
parse_digits_lem limit acc (c ∷ s) (k, d) h =
    elim (Bool-cases (ltb (acc * 10 + (c - b'0')) limit)) [
      | inl e ↦ rw (k, e) (parse_digits_lem limit (acc * 10 + (c - b'0')) s d (ground arith))
      | inr e ↦ rw (k, e) (ground (arith, decimal_mono (acc * 10 + (c - b'0')) s))
    ]

split_digits-parts :
    (s : Text)
    → (s ≡ (split_digits s).0 ++ (split_digits s).1)
      × All IsDigit (split_digits s).0
      × NoDigitFirst (split_digits s).1
unfolding split_digits
split_digits-parts [] = (refl, tt, tt)
split_digits-parts (c ∷ s) = elim (Bool-cases (is_ascii_digit c)) [
  | inl e ↦ let (a, b, d) = split_digits-parts s in rw e (ap (◌∷◌ c) a, (e, b), d)
  | inr e ↦ rw e (refl, tt, e)
]

split_digits-append :
    (digits rest : Text)
    → All IsDigit digits
    → NoDigitFirst rest
    → split_digits (digits ++ rest) ≡ (digits, rest)
unfolding split_digits
split_digits-append [] [] d n = refl
split_digits-append [] (c ∷ s) d n = rw n refl
split_digits-append (c ∷ digits) rest (k, d) n =
    let e = split_digits-append digits rest d n in rw (k, e) refl

product_of : (a b n : ℕ) → context (checked_mul a b) overflow ≡ ok n → (n ≡ a * b) × (n < 2 ^ 64)
product_of a b n h = ground arith

product_ok : (a b n : ℕ) → n ≡ a * b → n < 2 ^ 64 → context (checked_mul a b) overflow ≡ ok n
product_ok a b n h k = ground arith

factor_small : (a b n : ℕ) → n ≡ a * b → 1 ≤ b → n < 2 ^ 64 → a < 2 ^ 64
factor_small a zero n h l k = absurd (omega arith)
factor_small a (suc b) n h l k = omega arith

empty_absurd : (s : Text) → s ≡ [] → is_empty s ≡ false → ⊥
empty_absurd [] e h = ground arith
empty_absurd (c ∷ s) e h = ground arith

front_full : (s t : Text) → s ≢ [] → is_empty (s ++ t) ≡ false
front_full [] t f = absurd (f refl)
front_full (c ∷ s) t f = refl

full_front : (s : Text) → s ≢ [] → is_empty s ≡ false
full_front [] f = absurd (f refl)
full_front (c ∷ s) f = refl

-- The digits and the suffix of a text, around which it may have blanks.
pub record Quantity (unit_of : Text → Option ℕ) (value : Text) (n : ℕ) : Type 0 where
  pub digits : Text
  pub rest : Text
  pub unit : ℕ
  pub shape : trim value ≡ digits ++ rest
  pub some_digits : digits ≢ []
  pub all_digits : All IsDigit digits
  pub no_more : NoDigitFirst rest
  pub known : unit_of (map to_ascii_lowercase (trim rest)) ≡ some unit
  pub product : n ≡ decimal 0 digits * unit

number_of :
    (value : Text) (number : ℕ) (suffix : Text)
    → parse_number_and_suffix value ≡ ok (number, suffix)
    → (is_empty (split_digits (trim value)).0 ≡ false)
      × (parse_digits (2 ^ 64) 0 (split_digits (trim value)).0 ≡ some number)
      × (suffix ≡ map to_ascii_lowercase (trim (split_digits (trim value)).1))
unfolding parse_number_and_suffix
number_of value number suffix h =
    let parts = split_digits (trim value) in
    let last : ℕ → Result ConfigError (ℕ × Text) =
      λ m. ok (m, map to_ascii_lowercase (trim parts.1)) in
    let (a, h1) =
      >>-eq-ok (bail_if (is_empty (trim value)) empty_value)
        (bail_if (is_empty parts.0) invalid_number
          >> (context (parse_digits (2 ^ 64) 0 parts.0) parse_number >>= last))
        h in
    let (b, h2) =
      >>-eq-ok (bail_if (is_empty parts.0) invalid_number)
        (context (parse_digits (2 ^ 64) 0 parts.0) parse_number >>= last) h1 in
    let (m, c, h3) = >>=-eq-ok (context (parse_digits (2 ^ 64) 0 parts.0) parse_number) last h2 in
    let is_number : m ≡ number = ground arith in
    (
      bail_if-eq-ok (is_empty (split_digits (trim value)).0) invalid_number b,
      context-eq-ok (parse_digits (2 ^ 64) 0 (split_digits (trim value)).0) parse_number m c
          ∙ ap some is_number,
      ground arith,
    )

pub scale-Quantity :
    (unit_of : Text → Option ℕ) (value : Text) (n : ℕ)
    → scale unit_of value ≡ ok n
    → Quantity unit_of value n × (n < 2 ^ 64)
scale-Quantity unit_of value n h =
    let ((number, suffix), a, h1) = >>=-eq-ok (parse_number_and_suffix value) _ h in
    let (unit, b, h2) = >>=-eq-ok (context (unit_of suffix) unknown_suffix) _ h1 in
    let (some_, parsed, is_suffix) = number_of value number suffix a in
    let (shape, digits, rest) = split_digits-parts (trim value) in
    let is_decimal : number ≡ decimal 0 (split_digits (trim value)).0 =
      ground
        (arith, parse_digits_lem (2 ^ 64) 0 (split_digits (trim value)).0 digits (omega arith)) in
    let (is_product, small) : (n ≡ number * unit) × (n < 2 ^ 64) = product_of number unit n h2 in
    (
      record {
        digits = (split_digits (trim value)).0;
        rest = (split_digits (trim value)).1;
        unit = unit;
        shape = shape;
        some_digits = λ e. absurd (empty_absurd (split_digits (trim value)).0 e some_);
        all_digits = digits;
        no_more = rest;
        known = ap unit_of (sym is_suffix) ∙ context-eq-ok (unit_of suffix) unknown_suffix unit b;
        product = is_product ∙ ap (λ m. m * unit) is_decimal;
      },
      small,
    )

parsed_of :
    (value digits rest : Text)
    → trim value ≡ digits ++ rest
    → digits ≢ []
    → All IsDigit digits
    → NoDigitFirst rest
    → decimal 0 digits < 2 ^ 64
    → parse_number_and_suffix value ≡ ok (decimal 0 digits, map to_ascii_lowercase (trim rest))
unfolding parse_number_and_suffix
parsed_of value digits rest shape some_ d r small =
    let split = ap split_digits shape ∙ split_digits-append digits rest d r in
    let full : is_empty (trim value) ≡ false = ap is_empty shape ∙ front_full digits rest some_ in
    let read : parse_digits (2 ^ 64) 0 digits ≡ some (decimal 0 digits) =
      parse_digits_lem (2 ^ 64) 0 digits d (omega arith) ∙ ground arith in
    rw (full, split, full_front digits some_, read) refl

pub Quantity-scale :
    (unit_of : Text → Option ℕ) (positive : (s : Text) (u : ℕ) → unit_of s ≡ some u → 1 ≤ u)
    (value : Text) (n : ℕ)
    → Quantity unit_of value n
    → n < 2 ^ 64
    → scale unit_of value ≡ ok n
Quantity-scale unit_of positive value n q small =
    let least = positive (map to_ascii_lowercase (trim q.rest)) q.unit q.known in
    let fits : decimal 0 q.digits < 2 ^ 64 =
      factor_small (decimal 0 q.digits) q.unit n (q.product) least small in
    rw (parsed_of value q.digits q.rest q.shape q.some_digits q.all_digits q.no_more fits, q.known)
      (product_ok (decimal 0 q.digits) q.unit n q.product small)
