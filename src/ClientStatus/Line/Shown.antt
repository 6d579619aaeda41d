-- ===== src/ClientStatus/Line/Shown.antt =====
-- crates/drv-thru/src/client_status.rs: what stands on the terminal after calls of the status line.
use drv_thru.Base.{
  ℕ, ◌≡◌, ◌≤◌, refl, sym, subst, ◌∙◌, Bool, true, false, not, List, [], ◌∷◌, ◌++◌, Option, none,
  some, arith, Bool-cases, inl, inr, All, ◌==◌, if◌then◌else◌,
}
use drv_thru.Text.{Text, text_eq}
use drv_thru.ClientStatus.Width.{visible_width, status_columns}
use drv_thru.ClientStatus.Width.Laws.{visible_width-fit_line}
use drv_thru.ClientStatus.Line.{
  Status, phase_status, transfer_status, StatusLine, Moment, Print, clears, draws, render,
  update_transfer_rate, Drawn, clear_line, draw_status, draw_now, phase, transfer, drawn_recently,
  draw_later, with_message, transfer_message, add_transfer_bytes, clear, new_line, LineCall,
  sets_phase, sets_transfer, sets_message, adds_bytes, clears_status, suspends, redraws, line_call,
  run_calls,
}

-- From a terminal with or without a status to one with or without: it is cleared only when there is
-- a status, a status is drawn only when there is none, and each fits into the columns.
abbrev pub Shown : ℕ → Bool → List Print → Bool → Type 0
Shown columns before [] after = before ≡ after
Shown columns before (clears ∷ printed) after = (before ≡ true) × Shown columns false printed after
Shown columns before (draws text ∷ printed) after =
    (before ≡ false) × (visible_width text ≤ columns) × Shown columns true printed after

Shown-append :
    (columns : ℕ) (a b c : Bool) (xs ys : List Print)
    → Shown columns a xs b
    → Shown columns b ys c
    → Shown columns a (xs ++ ys) c
Shown-append columns a b c [] ys h k = subst (λ x. Shown columns x ys c) (sym h) k
Shown-append columns a b c (clears ∷ xs) ys (e, h) k = (e, Shown-append columns false b c xs ys h k)
Shown-append columns a b c (draws text ∷ xs) ys (e, fits, h) k =
    (e, fits, Shown-append columns true b c xs ys h k)

-- What a call keeps: a line that is not interactive prints nothing.
abbrev pub Keeps : ℕ → StatusLine → Drawn → Type 0
Keeps columns line drawn =
    Shown columns line.visible drawn.1 drawn.0.visible
    × (drawn.0.interactive ≡ line.interactive)
    × (line.interactive ≡ false → drawn.1 ≡ [])

abbrev pub Within : ℕ → Moment → Type 0
Within columns moment = status_columns moment.terminal moment.columns_variable ≤ columns

clear_line-Keeps : (columns : ℕ) (line : StatusLine) → Keeps columns line (clear_line line)
unfolding clear_line
clear_line-Keeps columns line = elim (Bool-cases line.interactive) [
  | inl i ↦ elim (Bool-cases line.visible) [
    | inl v ↦ rw (i, v) ((refl, refl), refl, λ e. ground arith)
    | inr v ↦ rw (i, v) (refl, refl, λ e. refl)
  ]
  | inr i ↦ rw i (refl, refl, λ e. refl)
]

clear_line-hides :
    (line : StatusLine) → line.interactive ≡ true → (clear_line line).0.visible ≡ false
unfolding clear_line
clear_line-hides line i = elim (Bool-cases line.visible) [
  | inl v ↦ rw (i, v) refl
  | inr v ↦ rw (i, v) refl
]

draw_status-Keeps :
    (columns : ℕ) (moment : Moment) (line : StatusLine) (drawn : Drawn) (current : Option Status)
    → Within columns moment
    → line.interactive ≡ true
    → drawn.0.visible ≡ false
    → Keeps columns line drawn
    → Keeps columns line (draw_status moment drawn current)
draw_status-Keeps columns moment line (next, printed) none within i hidden keeps = keeps
draw_status-Keeps columns moment line (next, printed) (some status) within i hidden
      (shown, same, quiet) =
    (
      Shown-append columns line.visible next.visible true printed _ shown (
        hidden,
        omega (
          arith,
          visible_width-fit_line (status_columns moment.terminal moment.columns_variable)
              (render moment next.color status),
        ),
        refl,
      ),
      same,
      λ e. absurd (ground arith),
    )

draw_now-Keeps :
    (columns : ℕ) (moment : Moment) (line : StatusLine)
    → Within columns moment
    → Keeps columns line (draw_now moment line)
unfolding draw_now
draw_now-Keeps columns moment line within = by_terminal line.interactive refl
  where
    by_terminal : (b : Bool) → line.interactive ≡ b → Keeps columns line (draw_now moment line)
    by_terminal false i = rw i (refl, refl, λ e. refl)
    by_terminal true i =
        let current = update_transfer_rate moment line.current in
        let updated : StatusLine = record line { current = current } in
        let drawn =
          draw_status-Keeps columns moment updated (clear_line updated) current within i
            (clear_line-hides updated i) (clear_line-Keeps columns updated) in
        subst
          (λ b.
            Keeps columns line
              (if not b then (line, []) else draw_status moment (clear_line updated) current))
          (sym i) drawn

nothing-Keeps : (columns : ℕ) (line : StatusLine) → Keeps columns line (line, [])
nothing-Keeps columns line = (refl, refl, λ e. refl)

draw_later-Keeps :
    (columns : ℕ) (moment : Moment) (line : StatusLine)
    → Within columns moment
    → Keeps columns line (draw_later moment line)
draw_later-Keeps columns moment line within = later (drawn_recently moment line)
  where
    later : (b : Bool) → Keeps columns line (if b then (line, []) else draw_now moment line)
    later true = nothing-Keeps columns line
    later false = draw_now-Keeps columns moment line within

with_message-Keeps :
    (columns : ℕ) (moment : Moment) (message : Text) (line : StatusLine) (current : Option Status)
    → Within columns moment
    → Keeps columns line (with_message moment message line current)
with_message-Keeps columns moment message line none within = nothing-Keeps columns line
with_message-Keeps columns moment message line (some (phase_status other started)) within =
    nothing-Keeps columns line
with_message-Keeps columns moment message line (some (transfer_status other counter rate seen at))
      within =
    by_text (text_eq other message)
  where
    renamed : StatusLine
    renamed = record line { current = some (transfer_status message counter rate seen at) }

    by_text : (b : Bool) → Keeps columns line (if b then (line, []) else draw_later moment renamed)
    by_text true = nothing-Keeps columns line
    by_text false = draw_later-Keeps columns moment renamed within

line_call-Keeps :
    (columns : ℕ) (moment : Moment) (call : LineCall) (line : StatusLine)
    → Within columns moment
    → Keeps columns line (line_call moment call line)
unfolding line_call phase transfer transfer_message add_transfer_bytes clear
line_call-Keeps columns moment (sets_phase message) line within =
    draw_now-Keeps columns moment (record line { current = some (phase_status message moment.now) })
      within
line_call-Keeps columns moment (sets_transfer message counter) line within =
    draw_now-Keeps columns moment
      (record line { current = some (transfer_status message counter 0 0 moment.now) }) within
line_call-Keeps columns moment (sets_message message) line within =
    with_message-Keeps columns moment message line line.current within
line_call-Keeps columns moment (adds_bytes bytes) line within = by_bytes (bytes == 0)
  where
    by_bytes : (b : Bool) → Keeps columns line (if b then (line, []) else draw_later moment line)
    by_bytes true = nothing-Keeps columns line
    by_bytes false = draw_later-Keeps columns moment line within
line_call-Keeps columns moment clears_status line within =
    clear_line-Keeps columns (record line { current = none })
line_call-Keeps columns moment suspends line within = clear_line-Keeps columns line
line_call-Keeps columns moment redraws line within = draw_now-Keeps columns moment line within

-- Every call meets a terminal of at most so many columns.
abbrev pub AllWithin : ℕ → List (Moment × LineCall) → Type 0
AllWithin columns = All (λ c. Within columns c.0)

run_calls-Keeps :
    (columns : ℕ) (calls : List (Moment × LineCall)) (line : StatusLine)
    → AllWithin columns calls
    → Keeps columns line (run_calls calls line)
unfolding run_calls
run_calls-Keeps columns [] line h = nothing-Keeps columns line
run_calls-Keeps columns ((moment, call) ∷ calls) line (within, h) =
    let (shown, same, quiet) = line_call-Keeps columns moment call line within in
    let next = (line_call moment call line).0 in
    let (later, kept, silent) = run_calls-Keeps columns calls next h in
    (
      Shown-append columns line.visible next.visible _ _ _ shown later,
      kept ∙ same,
      λ e. rw (quiet e) (silent (same ∙ e)),
    )

-- From a new status line, over any calls at a terminal of at most so many columns, the line is cleared
-- only where a status stands, a status is drawn only on a cleared line and is no wider than the
-- columns, the line knows at the end whether a status stands, and a line that is not interactive
-- prints nothing.
pub run_calls-Shown :
    (columns : ℕ) (start : Moment) (interactive no_color : Bool) (calls : List (Moment × LineCall))
    → AllWithin columns calls
    → Shown columns false
        (run_calls calls (new_line start interactive no_color)).1
        (run_calls calls (new_line start interactive no_color)).0.visible
      × (interactive ≡ false → (run_calls calls (new_line start interactive no_color)).1 ≡ [])
unfolding new_line
run_calls-Shown columns start interactive no_color calls h =
    let (shown, _, quiet) = run_calls-Keeps columns calls (new_line start interactive no_color) h in
    (shown, quiet)
