-- ===== src/Server/Status/Errors.antt =====
-- crates/drv-thru/src/server/status.rs: the short form of an error.
use drv_thru.Base.{
  ℕ, ◌+◌, ◌≤◌, ◌<◌, ◌≡◌, ◌⊎◌, inl, inr, refl, ap, ◌∙◌, Bool, true, false, [], ◌∷◌, ◌++◌, length,
  take, drop, length-take, length-drop, length-append, take_all, arith, if◌then◌else◌,
}
use drv_thru.Text.{Text, is_empty}
use drv_thru.Server.Status.{truncate_text, truncated_mark, max_short_error_chars}

empty_length : (text : Text) → length text ≡ 0 → is_empty text ≡ true
empty_length [] h = refl
empty_length (c ∷ text) h = absurd (omega arith)

length_empty : (text : Text) → 0 < length text → is_empty text ≡ false
length_empty [] h = absurd (omega arith)
length_empty (c ∷ text) h = refl

kept : (limit : ℕ) (text : Text) → length text ≤ limit → is_empty (drop limit text) ≡ true
kept limit text h = empty_length (drop limit text) (omega (arith, length-drop limit text))

cut : (limit : ℕ) (text : Text) → limit < length text → is_empty (drop limit text) ≡ false
cut limit text h = length_empty (drop limit text) (omega (arith, length-drop limit text))

le-or-lt : (m n : ℕ) → (m ≤ n) ⊎ (n < m)
le-or-lt m n = omega arith

either :
    (b : Bool) (x y : Text)
    → (b ≡ true → (if b then x else y) ≡ x) × (b ≡ false → (if b then x else y) ≡ y)
either b x y = ground arith

length-cut :
    (limit : ℕ) (text : Text)
    → limit < length text
    → length (take limit text ++ truncated_mark) ≡ limit + 12
length-cut limit text h =
    omega (arith, length-take limit text, length-append (take limit text) truncated_mark)

-- An error of at most 512 characters is kept as it is; a longer one is cut after 512 characters,
-- with a mark at its end that makes 524 of it.
pub truncate_text_lem :
    (text : Text)
    → ((length text ≤ 512) × (truncate_text text ≡ text))
      ⊎ ((512 < length text)
          × (truncate_text text ≡ take 512 text ++ truncated_mark)
          × (length (truncate_text text) ≡ 524))
unfolding truncate_text
truncate_text_lem text =
    let choice =
      either (is_empty (drop max_short_error_chars text)) (take max_short_error_chars text)
        (take max_short_error_chars text ++ truncated_mark) in
    elim (le-or-lt (length text) 512) [
      | inl h ↦
          inl (
            h,
            choice.0 (kept max_short_error_chars text h) ∙ take_all max_short_error_chars text h,
          )
      | inr h ↦ inr (
        h,
        choice.1 (cut max_short_error_chars text h),
        ap length (choice.1 (cut max_short_error_chars text h))
            ∙ length-cut max_short_error_chars text h,
      )
    ]
