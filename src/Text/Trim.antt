-- ===== src/Text/Trim.antt =====
-- Texts that `str::trim` leaves as they are.
use drv_thru.Base.{◌≡◌, refl, ap, ◌∙◌, false, [], ◌∷◌, All}
use drv_thru.Text.{Text, is_whitespace, trim_start, trim_end, trim}

abbrev pub NoBlank : Text → Type 0
NoBlank s = All (λ c. is_whitespace c ≡ false) s

trim_start-NoBlank : (s : Text) → NoBlank s → trim_start s ≡ s
unfolding trim_start
trim_start-NoBlank [] h = refl
trim_start-NoBlank (c ∷ s) (e, h) = rw e refl

trim_end-NoBlank : (s : Text) → NoBlank s → trim_end s ≡ s
unfolding trim_end
trim_end-NoBlank [] h = refl
trim_end-NoBlank (c ∷ []) (e, h) = rw e refl
trim_end-NoBlank (c ∷ d ∷ s) (e, h) = rw (trim_end-NoBlank (d ∷ s) h) refl

pub trim-NoBlank : (s : Text) → NoBlank s → trim s ≡ s
unfolding trim
trim-NoBlank s h = ap trim_end (trim_start-NoBlank s h) ∙ trim_end-NoBlank s h
