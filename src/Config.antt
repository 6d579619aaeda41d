-- ===== src/Config.antt =====
-- crates/drv-thru/src/config.rs: sizes and durations as a text.
pub mod Numbers
pub mod Units
pub mod Server
mod Tests
use drv_thru.Base.{
  ℕ, ◌+◌, ◌*◌, ◌^◌, Bool, true, false, ◌||◌, List, [], ◌∷◌, Option, none, some, Result, ok, err,
  ◌>>=◌, ◌>>◌, bail_if, context, map, any, ltb, ◌==◌, if◌then◌else◌,
}
use drv_thru.Text.{
  Text, codes, is_empty, text_eq, trim, is_ascii_digit, to_ascii_lowercase, parse_digits,
}

pub data ConfigError : Type 0 where
  empty_value invalid_number parse_number unknown_suffix overflow : ConfigError

-- `split_at` before the first character that is no digit.
unfoldable pub split_digits : Text → Text × Text
split_digits [] = ([], [])
split_digits (c ∷ s) =
    let rest = split_digits s in if is_ascii_digit c then (c ∷ rest.0, rest.1) else ([], c ∷ s)

-- The digits are not empty and hold no sign, so that `parse::<u64>` reads digits alone.
unfoldable pub parse_number_and_suffix : Text → Result ConfigError (ℕ × Text)
unfolding trim split_digits parse_digits to_ascii_lowercase
parse_number_and_suffix text = do
  let value = trim text
  bail_if (is_empty value) empty_value
  let parts = split_digits value
  bail_if (is_empty parts.0) invalid_number
  number ← context (parse_digits (2 ^ 64) 0 parts.0) parse_number
  ok (number, map to_ascii_lowercase (trim parts.1))

abbrev pub one_of : List Text → Text → Bool
one_of words suffix = any (text_eq suffix) words

unfoldable pub byte_unit : Text → Option ℕ
unfolding text_eq
byte_unit suffix =
    if one_of ([] ∷ codes "b" ∷ []) suffix
    then some 1
    else if one_of (codes "k" ∷ codes "kb" ∷ codes "kib" ∷ []) suffix
    then some 1024
    else if one_of (codes "m" ∷ codes "mb" ∷ codes "mib" ∷ []) suffix
    then some (1024 * 1024)
    else if one_of (codes "g" ∷ codes "gb" ∷ codes "gib" ∷ []) suffix
    then some (1024 * 1024 * 1024)
    else if one_of (codes "t" ∷ codes "tb" ∷ codes "tib" ∷ []) suffix
    then some (1024 ^ 4)
    else none

unfoldable pub second_unit : Text → Option ℕ
unfolding text_eq
second_unit suffix =
    if one_of ([] ∷ codes "s" ∷ codes "sec" ∷ codes "secs" ∷ codes "second" ∷ codes "seconds" ∷ [])
      suffix
    then some 1
    else if one_of (codes "m" ∷ codes "min" ∷ codes "mins" ∷ codes "minute" ∷ codes "minutes" ∷ [])
        suffix
    then some 60
    else if one_of (codes "h" ∷ codes "hr" ∷ codes "hrs" ∷ codes "hour" ∷ codes "hours" ∷ []) suffix
    then some (60 * 60)
    else none

abbrev pub checked_mul : ℕ → ℕ → Option ℕ
checked_mul a b = if ltb (a * b) (2 ^ 64) then some (a * b) else none

-- The match on the suffix and the product; a product with one cannot overflow.
abbrev pub scale : (Text → Option ℕ) → Text → Result ConfigError ℕ
scale unit_of value = parse_number_and_suffix value >>= λ parsed.
    context (unit_of parsed.1) unknown_suffix >>= λ unit.
    context (checked_mul parsed.0 unit) overflow

unfoldable pub parse_byte_count : Text → Result ConfigError ℕ
unfolding parse_number_and_suffix byte_unit
parse_byte_count value = scale byte_unit value

-- In seconds.
unfoldable pub parse_duration : Text → Result ConfigError ℕ
unfolding parse_number_and_suffix second_unit
parse_duration value = scale second_unit value
