-- ===== src/ClientStatus/Tests.antt =====
-- The status line on a terminal of ten columns.
use drv_thru.Base.{ℕ, ◌≡◌, refl, arith, true, false, List, [], ◌∷◌, ◌++◌, none, some, min}
use drv_thru.Text.{Text, codes, to_digits}
use drv_thru.ClientStatus.Width.{escape, reset, status_columns, visible_width, truncate_visible}
use drv_thru.ClientStatus.Width.Laws.{visible_width-truncate_visible}
use drv_thru.ClientStatus.Line.{
  Moment, LineCall, sets_phase, clears_status, draws, clears, new_line, run_calls,
}
use drv_thru.ClientStatus.Line.Shown.{Shown, AllWithin, run_calls-Shown}

abbrev line : Text
line = (escape ∷ codes "[1;36m") ++ codes "abcdef" ++ reset

visible_width-truncate_visible_example :
    visible_width (truncate_visible line 3) ≡ min 3 (visible_width line)
visible_width-truncate_visible_example = visible_width-truncate_visible line 3

cut : truncate_visible line 3 ≡ (escape ∷ codes "[1;36m") ++ codes "abc" ++ reset
unfolding truncate_visible
cut = refl

abbrev at : ℕ → Moment
at millis = record {
  now = millis;
  bytes_of = λ counter. 5;
  terminal = some 12;
  columns_variable = none;
  human_bytes = to_digits;
}

abbrev calls : List (Moment × LineCall)
calls = (at 0, sets_phase (codes "building")) ∷ (at 1500, clears_status) ∷ []

fits : AllWithin 10 calls
unfolding status_columns
fits = (omega arith, (omega arith, tt))

run_calls-Shown_example :
    Shown 10 false
      (run_calls calls (new_line (at 0) true true)).1
      (run_calls calls (new_line (at 0) true true)).0.visible
    × (true ≡ false → (run_calls calls (new_line (at 0) true true)).1 ≡ [])
run_calls-Shown_example = run_calls-Shown 10 (at 0) true true calls fits

prints : (run_calls calls (new_line (at 0) true true)).1 ≡ draws (codes "drv-thru: ") ∷ clears ∷ []
unfolding run_calls new_line
prints = refl
