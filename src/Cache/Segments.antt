-- ===== src/Cache/Segments.antt =====
-- crates/drv-thru/src/cache.rs: the segments of an accepted path below `nar/`, and the place
-- that a path names below a directory.
use drv_thru.Base.{
  ◌≡◌, ◌≢◌, refl, sym, ap, subst, not_true, ◌∙◌, true, false, List, [], ◌∷◌, ◌++◌, arith, inl, inr,
  Bool-cases, All, All-append_right, all-All, All-all, All-map, append_assoc, reverse, reverse-cons,
  ◌≡⟨◌⟩◌, ◌∎,
}
use drv_thru.Text.{Text, codes, text_eq, starts_with, ends_with, split}
use drv_thru.Text.Prefix.{
  text_eq_iff, ends_with-strip_suffix, strip_suffix-eq-append, starts_with-strip_prefix,
  strip_prefix-eq-append,
}
use drv_thru.Text.Splitting.{split-append}
use drv_thru.Cache.{valid_cache_file_char, valid_segment, valid_relative_segments}
use drv_thru.Cache.FilePath.{join, enter, walk, place_of}

-- A name that stays in its directory.
abbrev pub IsPlain : Text → Type 0
IsPlain part = (part ≢ []) × (part ≢ codes ".") × (part ≢ codes "..")

-- A segment: plain, and of the characters that a cache uses.
abbrev pub IsSegment : Text → Type 0
IsSegment part = IsPlain part × All (λ c. valid_cache_file_char c ≡ true) part

valid-IsSegment : (part : Text) → valid_segment part ≡ true → IsSegment part
unfolding valid_segment
valid-IsSegment [] h = ground arith
valid-IsSegment (c ∷ part) h = (
  ground (arith, text_eq_iff (c ∷ part) (codes "."), text_eq_iff (c ∷ part) (codes "..")),
  all-All valid_cache_file_char (c ∷ part) (ground arith),
)

IsSegment-valid : (part : Text) → IsSegment part → valid_segment part ≡ true
unfolding valid_segment
IsSegment-valid [] ((full, _, _), _) = absurd (full refl)
IsSegment-valid (c ∷ part) ((_, dot, dots), plain) = ground (
  arith,
  text_eq_iff (c ∷ part) (codes "."),
  text_eq_iff (c ∷ part) (codes ".."),
  All-all valid_cache_file_char (c ∷ part) plain,
)

-- The segments of an accepted relative path.
pub valid-All :
    (path : Text) → valid_relative_segments path ≡ true → All IsSegment (split b'/' path)
unfolding valid_relative_segments
valid-All path h =
    All-map _ _ valid-IsSegment (split b'/' path)
      (all-All valid_segment (split b'/' path) (ground arith))

-- The text before a separator is the first segment, so an empty one is refused.
pub not_slash_first :
    (path : Text) → All IsSegment (split b'/' path) → starts_with (codes "/") path ≡ false
unfolding split
not_slash_first path h = not_true _ λ e.
    let (r, stripped) = starts_with-strip_prefix (codes "/") path e in
    let shape : path ≡ b'/' ∷ r = strip_prefix-eq-append (codes "/") path r stripped in
    (subst (λ p. All IsSegment (split b'/' p)) shape h).0.0.0 refl

not_slash_last :
    (path : Text) → All IsSegment (split b'/' path) → ends_with (codes "/") path ≡ false
unfolding split
not_slash_last path h = not_true _ λ e.
    let (r, stripped) = ends_with-strip_suffix (codes "/") path e in
    let shape : path ≡ r ++ b'/' ∷ [] = strip_suffix-eq-append (codes "/") path r stripped in
    let parts : All IsSegment (split b'/' r ++ [] ∷ []) =
      subst (All IsSegment) (ap (split b'/') shape ∙ split-append b'/' r []) h in
    (All-append_right IsSegment (split b'/' r) ([] ∷ []) parts).0.0.0 refl

pub All-valid :
    (path : Text) → All IsSegment (split b'/' path) → valid_relative_segments path ≡ true
unfolding valid_relative_segments split
All-valid [] h = absurd (h.0.0.0 refl)
All-valid (c ∷ path) h = ground (
  arith,
  not_slash_first (c ∷ path) h,
  not_slash_last (c ∷ path) h,
  All-all valid_segment (split b'/' (c ∷ path))
      (All-map _ _ IsSegment-valid (split b'/' (c ∷ path)) h),
)

walk-append : (place xs ys : List Text) → walk place (xs ++ ys) ≡ walk (walk place xs) ys
unfolding walk
walk-append place [] ys = refl
walk-append place (x ∷ xs) ys = walk-append (enter place x) xs ys

enter_plain : (place : List Text) (part : Text) → IsPlain part → enter place part ≡ part ∷ place
enter_plain place part h =
    ground (arith, text_eq_iff part [], text_eq_iff part (codes "."), text_eq_iff part (codes ".."))

walk_plain :
    (place parts : List Text) → All IsSegment parts → walk place parts ≡ reverse parts ++ place
unfolding walk
walk_plain place [] h = refl
walk_plain place (part ∷ parts) ((plain, _), hs) =
    walk (enter place part) parts
    ≡⟨ ap (λ p. walk p parts) (enter_plain place part plain) ⟩ walk (part ∷ place) parts
    ≡⟨ walk_plain (part ∷ place) parts hs ⟩ reverse parts ++ part ∷ place
    ≡⟨ (simp (reverse-cons, append_assoc)) ⟩ reverse (part ∷ parts) ++ place ∎

-- The segments of the path come below the place of a directory that a separator closes.
place_of-below :
    (dir path : Text)
    → All IsSegment (split b'/' path)
    → place_of (dir ++ b'/' ∷ path) ≡ reverse (split b'/' path) ++ place_of dir
unfolding place_of
place_of-below dir path h =
    walk [] (split b'/' (dir ++ b'/' ∷ path))
    ≡⟨ ap (walk []) (split-append b'/' dir path) ⟩ walk [] (split b'/' dir ++ split b'/' path)
    ≡⟨ walk-append [] (split b'/' dir) (split b'/' path) ⟩
      walk (walk [] (split b'/' dir)) (split b'/' path)
    ≡⟨ walk_plain _ (split b'/' path) h ⟩ reverse (split b'/' path) ++ walk [] (split b'/' dir) ∎

-- A separator at the end of a directory changes nothing.
place_of-slash : (dir : Text) → place_of (dir ++ b'/' ∷ []) ≡ place_of dir
unfolding place_of split walk text_eq
place_of-slash dir =
    ap (walk []) (split-append b'/' dir []) ∙ walk-append [] (split b'/' dir) ([] ∷ [])

place_of-closed :
    (dir r path : Text)
    → dir ≡ r ++ b'/' ∷ []
    → All IsSegment (split b'/' path)
    → place_of (dir ++ path) ≡ reverse (split b'/' path) ++ place_of dir
place_of-closed dir r path shape h =
    place_of (dir ++ path)
    ≡⟨ ap (λ d. place_of (d ++ path)) shape ∙ ap place_of (append_assoc r (b'/' ∷ []) path) ⟩
      place_of (r ++ b'/' ∷ path)
    ≡⟨ place_of-below r path h ⟩ reverse (split b'/' path) ++ place_of r
    ≡⟨ ap (◌++◌ (reverse (split b'/' path))) (sym (ap place_of shape ∙ place_of-slash r)) ⟩
      reverse (split b'/' path) ++ place_of dir ∎

-- A path of segments that is joined to a directory names a place below the directory.
pub place_of-join :
    (dir path : Text)
    → All IsSegment (split b'/' path)
    → place_of (join dir path) ≡ reverse (split b'/' path) ++ place_of dir
unfolding join place_of split walk
place_of-join [] path h = rw (not_slash_first path h) (walk_plain [] (split b'/' path) h)
place_of-join (c ∷ dir) path h = elim (Bool-cases (ends_with (codes "/") (c ∷ dir))) [
  | inl closed ↦
      let (r, stripped) = ends_with-strip_suffix (codes "/") (c ∷ dir) closed in
      let shape : c ∷ dir ≡ r ++ b'/' ∷ [] =
        strip_suffix-eq-append (codes "/") (c ∷ dir) r stripped in
      rw (not_slash_first path h, closed) (place_of-closed (c ∷ dir) r path shape h)
  | inr open_end ↦ rw (not_slash_first path h, open_end) (place_of-below (c ∷ dir) path h)
]
