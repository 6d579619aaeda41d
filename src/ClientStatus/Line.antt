-- ===== src/ClientStatus/Line.antt =====
-- crates/drv-thru/src/client_status.rs: the state behind the status line. An instant is a number of
-- milliseconds; the counters of bytes are shared, so that a status knows its counter by a number.
pub mod Shown
use drv_thru.Base.{
  ℕ, ◌+◌, ◌-◌, ◌*◌, ◌/◌, ◌%◌, ◌^◌, ◌<◌, Bool, true, false, not, ◌&&◌, ◌||◌, List, [], ◌∷◌, ◌++◌,
  Option, none, some, ltb, leb, ◌==◌, if◌then◌else◌,
}
use drv_thru.Text.{Text, codes, text_eq, to_digits}
use drv_thru.ClientStatus.Width.{escape, reset, fit_line, status_columns}

abbrev pub dim : Text
dim = escape ∷ codes "[2m"

abbrev pub cyan_bold : Text
cyan_bold = escape ∷ codes "[1;36m"

abbrev pub green_bold : Text
green_bold = escape ∷ codes "[1;32m"

abbrev pub yellow_bold : Text
yellow_bold = escape ∷ codes "[1;33m"

-- `Status`: a phase since an instant, or a transfer with its counter and its last rate.
pub data Status : Type 0 where
  phase_status : Text → ℕ → Status
  transfer_status : Text → ℕ → ℕ → ℕ → ℕ → Status

pub record StatusLine : Type 0 where
  pub interactive : Bool
  pub color : Bool
  pub visible : Bool
  pub current : Option Status
  pub last_draw : ℕ

-- What a call meets: the instant, the counters, the columns of the terminal and `HumanBytes`.
pub record Moment : Type 0 where
  pub now : ℕ
  pub bytes_of : ℕ → ℕ
  pub terminal : Option ℕ
  pub columns_variable : Option Text
  pub human_bytes : ℕ → Text

-- What is printed: the escape that clears the line, or a line behind `\r`.
pub data Print : Type 0 where
  clears : Print
  draws : Text → Print

abbrev pub u64_max : ℕ
u64_max = 2 ^ 64 - 1

-- `{:02}`.
abbrev pub two_digits : ℕ → Text
two_digits n = if ltb n 10 then b'0' ∷ to_digits n else to_digits n

unfoldable pub format_elapsed : ℕ → Text
unfolding to_digits
format_elapsed millis =
    let seconds = millis / 1000 in
    let hours = seconds / 3600 in
    let minutes = (seconds % 3600) / 60 in
    let tail = two_digits minutes ++ b':' ∷ two_digits (seconds % 60) in
    if ltb 0 hours then to_digits hours ++ b':' ∷ tail else tail

unfoldable pub render : Moment → Bool → Status → Text
unfolding format_elapsed
render moment true (phase_status message started) =
    cyan_bold
    ++ codes "drv-thru"
    ++ reset
    ++ codes ": "
    ++ message
    ++ codes " "
    ++ dim
    ++ codes "["
    ++ format_elapsed (moment.now - started)
    ++ codes "]"
    ++ reset
render moment false (phase_status message started) =
    codes "drv-thru: "
    ++ message
    ++ codes " ["
    ++ format_elapsed (moment.now - started)
    ++ codes "]"
render moment true (transfer_status message counter rate seen at) =
    cyan_bold
    ++ codes "drv-thru"
    ++ reset
    ++ codes ": "
    ++ message
    ++ codes ": "
    ++ green_bold
    ++ moment.human_bytes (moment.bytes_of counter)
    ++ reset
    ++ codes " ("
    ++ yellow_bold
    ++ moment.human_bytes rate
    ++ codes "/s"
    ++ reset
    ++ codes ")"
render moment false (transfer_status message counter rate seen at) =
    codes "drv-thru: "
    ++ message
    ++ codes ": "
    ++ moment.human_bytes (moment.bytes_of counter)
    ++ codes " ("
    ++ moment.human_bytes rate
    ++ codes "/s)"

-- The bytes per second since the last rate, which is at least a second ago.
abbrev pub rate_of : ℕ → ℕ → ℕ → ℕ
rate_of now_bytes seen elapsed =
    let rate = (now_bytes - seen) * 1000 / elapsed in if leb rate u64_max then rate else u64_max

unfoldable pub update_transfer_rate : Moment → Option Status → Option Status
update_transfer_rate moment none = none
update_transfer_rate moment (some (phase_status message started)) =
    some (phase_status message started)
update_transfer_rate moment (some (transfer_status message counter rate seen at)) =
    if ltb (moment.now - at) 1000
    then some (transfer_status message counter rate seen at)
    else some (
        transfer_status message counter (rate_of (moment.bytes_of counter) seen (moment.now - at))
          (moment.bytes_of counter) moment.now)

-- The line after a call, and what was printed.
abbrev pub Drawn : Type 0
Drawn = StatusLine × List Print

unfoldable pub clear_line : StatusLine → Drawn
clear_line line =
    if not line.interactive || not line.visible
    then (line, [])
    else (record line { visible = false }, clears ∷ [])

abbrev pub draw_status : Moment → Drawn → Option Status → Drawn
draw_status moment (line, printed) none = (line, printed)
draw_status moment (line, printed) (some status) = (
  record line { visible = true; last_draw = moment.now },
  printed
      ++ draws (
          fit_line (status_columns moment.terminal moment.columns_variable)
            (render moment line.color status))
        ∷ [],
)

unfoldable pub draw_now : Moment → StatusLine → Drawn
unfolding update_transfer_rate clear_line render fit_line status_columns
draw_now moment line =
    if not line.interactive
    then (line, [])
    else (let current = update_transfer_rate moment line.current in
        draw_status moment (clear_line (record line { current = current })) current)

unfoldable pub phase : Moment → Text → StatusLine → Drawn
unfolding draw_now
phase moment message line =
    draw_now moment (record line { current = some (phase_status message moment.now) })

unfoldable pub transfer : Moment → Text → ℕ → StatusLine → Drawn
unfolding draw_now
transfer moment message counter line =
    draw_now moment
      (record line { current = some (transfer_status message counter 0 0 moment.now) })

-- A line is drawn again at most every 100 milliseconds.
abbrev pub drawn_recently : Moment → StatusLine → Bool
drawn_recently moment line = ltb (moment.now - line.last_draw) 100

abbrev pub draw_later : Moment → StatusLine → Drawn
draw_later moment line = if drawn_recently moment line then (line, []) else draw_now moment line

abbrev pub with_message : Moment → Text → StatusLine → Option Status → Drawn
with_message moment message line none = (line, [])
with_message moment message line (some (phase_status other started)) = (line, [])
with_message moment message line (some (transfer_status other counter rate seen at)) =
    if text_eq other message
    then (line, [])
    else draw_later moment
        (record line { current = some (transfer_status message counter rate seen at) })

unfoldable pub transfer_message : Moment → Text → StatusLine → Drawn
unfolding draw_now text_eq
transfer_message moment message line = with_message moment message line line.current

unfoldable pub add_transfer_bytes : Moment → ℕ → StatusLine → Drawn
unfolding draw_now
add_transfer_bytes moment bytes line = if bytes == 0 then (line, []) else draw_later moment line

unfoldable pub clear : StatusLine → Drawn
unfolding clear_line
clear line = clear_line (record line { current = none })

-- `StatusLine::new`; `no_color` is whether NO_COLOR is set.
unfoldable pub new_line : Moment → Bool → Bool → StatusLine
new_line moment interactive no_color = record {
  interactive = interactive;
  color = interactive && not no_color;
  visible = false;
  current = none;
  last_draw = moment.now;
}

-- The calls, and those of the ticker.
pub data LineCall : Type 0 where
  sets_phase : Text → LineCall
  sets_transfer : Text → ℕ → LineCall
  sets_message : Text → LineCall
  adds_bytes : ℕ → LineCall
  clears_status suspends redraws : LineCall

unfoldable pub line_call : Moment → LineCall → StatusLine → Drawn
unfolding phase transfer transfer_message add_transfer_bytes clear clear_line draw_now
line_call moment (sets_phase message) line = phase moment message line
line_call moment (sets_transfer message counter) line = transfer moment message counter line
line_call moment (sets_message message) line = transfer_message moment message line
line_call moment (adds_bytes bytes) line = add_transfer_bytes moment bytes line
line_call moment clears_status line = clear line
line_call moment suspends line = clear_line line
line_call moment redraws line = draw_now moment line

unfoldable pub run_calls : List (Moment × LineCall) → StatusLine → Drawn
unfolding line_call
run_calls [] line = (line, [])
run_calls ((moment, call) ∷ calls) line =
    let (next, printed) = line_call moment call line in
    let (last, later) = run_calls calls next in (last, printed ++ later)
