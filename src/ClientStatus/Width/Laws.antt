-- ===== src/ClientStatus/Width/Laws.antt =====
-- crates/drv-thru/src/client_status.rs: a line that is cut fits.
use drv_thru.Base.{
  ℕ, suc, ◌-◌, ◌≡◌, ◌≤◌, ◌<◌, refl, sym, ap, ◌∙◌, Bool, true, false, ◌&&◌, [], ◌∷◌, ◌++◌, arith,
  Bool-cases, inl, inr, and_parts, and_of_parts, ltb→lt, leb→le, ltb-eq-false, ltb, leb, ◌==◌, min,
  append-nil, if◌then◌else◌,
}
use drv_thru.Text.{Text, is_ascii_alphabetic}
use drv_thru.ClientStatus.Width.{
  escape, reset, bracket_next, width_from, visible_width, cut_from, close_cut, truncate_visible,
  fit_line,
}

-- What may follow a cut: nothing, or the reset.
data IsEnd : Text → Type 0 where
  nothing : IsEnd []
  resets : IsEnd reset

end-width : (inside : Bool) (tail : Text) → IsEnd tail → width_from inside tail ≡ 0
unfolding width_from
end-width true [] nothing = refl
end-width false [] nothing = refl
end-width true tail resets = refl
end-width false tail resets = refl

end-bracket : (tail : Text) → IsEnd tail → bracket_next tail ≡ false
end-bracket [] nothing = refl
end-bracket tail resets = refl

-- A cut begins as the line does.
cut_from-bracket :
    (columns width : ℕ) (s tail : Text)
    → IsEnd tail
    → bracket_next s ≡ false
    → bracket_next ((cut_from false columns width s).0 ++ tail) ≡ false
unfolding cut_from
cut_from-bracket columns width [] tail t h = end-bracket tail t
cut_from-bracket columns width (c ∷ s) tail t h =
    elim (Bool-cases (c == escape && bracket_next s)) [
      | inl e ↦ rw e h
      | inr e ↦ elim (Bool-cases (ltb width columns)) [
        | inl room ↦ rw (e, room) h
        | inr full ↦ rw (e, full) (end-bracket tail t)
      ]
    ]

cut_from-opened :
    (columns width : ℕ) (s tail : Text)
    → bracket_next s ≡ true
    → bracket_next ((cut_from true columns width s).0 ++ tail) ≡ true
unfolding cut_from
cut_from-opened columns width [] tail h = ground arith
cut_from-opened columns width (c ∷ s) tail h = elim (Bool-cases (is_ascii_alphabetic c)) [
  | inl e ↦ rw e h
  | inr e ↦ rw e h
]

min_step :
    (columns width n : ℕ)
    → width < columns
    → suc (min (columns - suc width) n) ≡ min (columns - width) (suc n)
min_step columns width n h = omega arith

min_full : (columns width n : ℕ) → columns ≤ width → 0 ≡ min (columns - width) n
min_full columns width n h = omega arith

from_zero : (columns n : ℕ) → min (columns - 0) n ≡ min columns n
from_zero columns n = omega arith

min_none : (n : ℕ) → 0 ≡ min n 0
min_none n = omega arith

-- A character that opened no escape opens none in the cut.
still_closed :
    (c columns width : ℕ) (s tail : Text)
    → IsEnd tail
    → (c == escape && bracket_next s) ≡ false
    → (c == escape && bracket_next ((cut_from false columns width s).0 ++ tail)) ≡ false
still_closed c columns width s tail t h = elim (Bool-cases (c == escape)) [
  | inl e ↦ rw e (cut_from-bracket columns width s tail t (rw e at h))
  | inr e ↦ rw e refl
]

-- What is kept of a line is as wide as the line, or as there are columns left.
width_from-cut_from :
    (inside : Bool) (columns width : ℕ) (s tail : Text)
    → IsEnd tail
    → width_from inside ((cut_from inside columns width s).0 ++ tail)
      ≡ min (columns - width) (width_from inside s)
unfolding width_from cut_from
width_from-cut_from true columns width [] tail t = end-width true tail t ∙ min_none _
width_from-cut_from false columns width [] tail t = end-width false tail t ∙ min_none _
width_from-cut_from true columns width (c ∷ s) tail t = elim (Bool-cases (is_ascii_alphabetic c)) [
  | inl e ↦ rw e (rw e (width_from-cut_from false columns width s tail t))
  | inr e ↦ rw e (rw e (width_from-cut_from true columns width s tail t))
]
width_from-cut_from false columns width (c ∷ s) tail t =
    elim (Bool-cases (c == escape && bracket_next s)) [
      | inl e ↦
          let (esc, opened) = and_parts (c == escape) (bracket_next s) e in
          rw (e, and_of_parts _ _ esc (cut_from-opened columns width s tail opened))
            (width_from-cut_from true columns width s tail t)
      | inr e ↦ elim (Bool-cases (ltb width columns)) [
        | inl room ↦
            rw (e, room, still_closed c columns (suc width) s tail t e)
              (ap suc (width_from-cut_from false columns (suc width) s tail t)
                ∙ min_step columns width (width_from false s) (ltb→lt width columns room))
        | inr full ↦
            rw (e, full)
              (end-width false tail t
                ∙ min_full columns width (suc (width_from false s))
                    (ltb-eq-false width columns full))
      ]
    ]

-- A line that is cut is as wide as it was, or as wide as the columns where that is less.
pub visible_width-truncate_visible :
    (line : Text) (columns : ℕ)
    → visible_width (truncate_visible line columns) ≡ min columns (visible_width line)
unfolding visible_width truncate_visible
visible_width-truncate_visible line columns = by_escape (cut_from false columns 0 line).1 refl
  where
    by_escape :
        (saw : Bool)
        → (cut_from false columns 0 line).1 ≡ saw
        → width_from false (close_cut (cut_from false columns 0 line))
          ≡ min columns (width_from false line)
    by_escape true e =
        ap
          (λ b. width_from false (
            if b
            then (cut_from false columns 0 line).0 ++ reset
            else (cut_from false columns 0 line).0))
          e
        ∙ width_from-cut_from false columns 0 line reset resets
        ∙ from_zero columns (width_from false line)
    by_escape false e =
        ap
          (λ b. width_from false (
            if b
            then (cut_from false columns 0 line).0 ++ reset
            else (cut_from false columns 0 line).0))
          e
        ∙ ap (width_from false) (sym (append-nil (cut_from false columns 0 line).0))
        ∙ width_from-cut_from false columns 0 line [] nothing
        ∙ from_zero columns (width_from false line)

pub visible_width-fit_line :
    (columns : ℕ) (line : Text) → visible_width (fit_line columns line) ≤ columns
unfolding fit_line
visible_width-fit_line columns line = elim (Bool-cases (leb (visible_width line) columns)) [
  | inl e ↦ rw e (leb→le (visible_width line) columns e)
  | inr e ↦ rw e (omega (arith, visible_width-truncate_visible line columns))
]
