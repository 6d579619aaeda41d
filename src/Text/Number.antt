-- ===== src/Text/Number.antt =====
-- Decimal numbers: `to_string` of an unsigned integer, and `str::parse` into one of w bits.
use drv_thru.Base.{
  ℕ, zero, suc, ◌+◌, ◌-◌, ◌*◌, ◌/◌, ◌%◌, ◌^◌, [], ◌∷◌, Option, none, some, ltb, ◌==◌, if◌then◌else◌,
}
use drv_thru.Text.Defs.{Text, is_ascii_digit}

-- The rounds of `to_string` on fuel, the last digit first.
unfoldable pub digits_from : ℕ → ℕ → Text → Text
digits_from zero n rest = rest
digits_from (suc fuel) n rest =
    let more = digits_from fuel (n / 10) ((b'0' + n % 10) ∷ rest) in
    if ltb n 10 then (b'0' + n) ∷ rest else more

unfoldable pub to_digits : ℕ → Text
unfolding digits_from
to_digits n = digits_from (suc n) n []

-- The value of a run of digits, `none` at any other character or past the limit: `parse::<uN>`
-- fails with `PosOverflow` when a step does not fit.
unfoldable pub parse_digits : ℕ → ℕ → Text → Option ℕ
parse_digits limit acc [] = some acc
parse_digits limit acc (c ∷ s) =
    let next = acc * 10 + (c - b'0') in
    let rest = parse_digits limit next s in
    if is_ascii_digit c then if ltb next limit then rest else none else none

-- One leading `+` is allowed, and no digit at all is an error.
unfoldable pub parse_unsigned : ℕ → Text → Option ℕ
unfolding parse_digits
parse_unsigned w [] = none
parse_unsigned w (c ∷ []) = if c == b'+' then none else parse_digits (2 ^ w) 0 (c ∷ [])
parse_unsigned w (c ∷ d ∷ s) =
    if c == b'+' then parse_digits (2 ^ w) 0 (d ∷ s) else parse_digits (2 ^ w) 0 (c ∷ d ∷ s)

abbrev pub parse_u64 : Text → Option ℕ
parse_u64 = parse_unsigned 64
