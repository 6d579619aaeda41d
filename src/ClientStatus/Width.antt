-- ===== src/ClientStatus/Width.antt =====
-- crates/drv-thru/src/client_status.rs: the width of a line with escapes, and lines that are cut.
pub mod Laws
use drv_thru.Base.{
  ℕ, suc, ◌-◌, ◌≡◌, ◌≤◌, ◌<◌, refl, ap, ◌∙◌, Bool, true, false, ◌&&◌, [], ◌∷◌, ◌++◌, Option, none,
  some, arith, Bool-cases, inl, inr, sym, and_parts, and_of_parts, ltb→lt, leb→le, ltb-eq-false,
  ltb, leb, ◌==◌, min, append-nil, if◌then◌else◌,
}
use drv_thru.Text.{Text, codes, is_ascii_alphabetic, parse_u64}

abbrev pub escape : ℕ
escape = 0x1b

abbrev pub reset : Text
reset = escape ∷ codes "[0m"

abbrev pub default_status_columns : ℕ
default_status_columns = 72

abbrev pub status_right_margin : ℕ
status_right_margin = 2

-- `peek() == Some(&'[')`.
abbrev pub bracket_next : Text → Bool
bracket_next [] = false
bracket_next (c ∷ s) = c == b'['

-- The loops over the characters, inside an escape or outside.
unfoldable pub width_from : Bool → Text → ℕ
width_from inside [] = 0
width_from true (c ∷ s) =
    let after = width_from false s in
    let within = width_from true s in if is_ascii_alphabetic c then after else within
width_from false (c ∷ s) =
    let opened = width_from true s in
    let counted = suc (width_from false s) in
    if c == escape && bracket_next s then opened else counted

unfoldable pub visible_width : Text → ℕ
unfolding width_from
visible_width line = width_from false line

-- The text that is kept, and whether an escape was seen.
abbrev pub keep_char : ℕ → Text × Bool → Text × Bool
keep_char c kept = (c ∷ kept.0, kept.1)

abbrev pub saw_escape : Text × Bool → Text × Bool
saw_escape kept = (kept.0, true)

-- `width` counts the characters that are kept.
unfoldable pub cut_from : Bool → ℕ → ℕ → Text → Text × Bool
cut_from inside columns width [] = ([], false)
cut_from true columns width (c ∷ s) =
    let after = keep_char c (cut_from false columns width s) in
    let within = keep_char c (cut_from true columns width s) in
    if is_ascii_alphabetic c then after else within
cut_from false columns width (c ∷ s) =
    let opened = saw_escape (keep_char c (cut_from true columns width s)) in
    let counted = keep_char c (cut_from false columns (suc width) s) in
    if c == escape && bracket_next s
    then opened
    else if ltb width columns
    then counted
    else ([], false)

abbrev pub close_cut : Text × Bool → Text
close_cut kept = if kept.1 then kept.0 ++ reset else kept.0

unfoldable pub truncate_visible : Text → ℕ → Text
unfolding cut_from
truncate_visible line columns = close_cut (cut_from false columns 0 line)

-- `size_checked` of the terminal and the variable COLUMNS are parameters.
abbrev pub positive : Option ℕ → Option ℕ
positive none = none
positive (some n) = if n == 0 then none else some n

abbrev pub columns_env : Option Text → Option ℕ
columns_env none = none
columns_env (some text) = positive (parse_u64 text)

abbrev pub or_columns : Option ℕ → Option ℕ → ℕ
or_columns none none = default_status_columns
or_columns none (some n) = n
or_columns (some n) other = n

unfoldable pub status_columns : Option ℕ → Option Text → ℕ
status_columns terminal variable =
    or_columns (positive terminal) (columns_env variable) - status_right_margin

unfoldable pub fit_line : ℕ → Text → Text
unfolding visible_width truncate_visible
fit_line columns line =
    if leb (visible_width line) columns then line else truncate_visible line columns
