-- ===== src/Cache/Laws.antt =====
-- crates/drv-thru/src/cache.rs: the paths that `sanitize_cache_path` accepts.
use drv_thru.Base.{
  ◌≡◌, refl, ap, ◌↔◌, true, false, [], ◌∷◌, ◌++◌, Option, none, some, arith, inl, inr, Bool-cases,
  Option-cases, not_true, All, All-map, length, ok,
}
use drv_thru.Text.{
  Text, codes, text_eq, strip_suffix, strip_prefix, ends_with, starts_with, has_char, split,
  last_part,
}
use drv_thru.Text.Prefix.{
  strip_prefix-eq-append, strip_suffix-eq-append, strip_suffix-append, text_eq_sound,
  ends_with-strip_suffix, has_char-append, ends_with-append,
}
use drv_thru.Text.Splitting.{split-free}
use drv_thru.Nix.StorePath.Laws.{IsBase32}
use drv_thru.Cache.{
  nix_cache_info, narinfo_suffix, nar_prefix, valid_cache_file_char, sanitize_nar, sanitize_suffix,
  sanitize_cache_path,
}
use drv_thru.Cache.Names.{IsNarName, IsNarName-iff, no_backslash, plain_free, stem_iff}
use drv_thru.Cache.Segments.{IsSegment, valid-All, All-valid}

-- What a binary cache serves: its info file, a `.narinfo` under a hash, and NAR files below
-- `nar/`, whose names do not end as those of the second kind.
pub data IsCachePath (s : Text) : Type 0 where
  info : s ≡ nix_cache_info → IsCachePath s
  narinfo :
      (digits : Text)
      → s ≡ digits ++ narinfo_suffix
      → length digits ≡ 32
      → All IsBase32 digits
      → IsCachePath s
  nar :
      (rest : Text)
      → s ≡ nar_prefix ++ rest
      → All IsSegment (split b'/' rest)
      → IsNarName (last_part (split b'/' rest))
      → ends_with narinfo_suffix s ≡ false
      → IsCachePath s

sanitize_nar-IsCachePath :
    (path q : Text) (o : Option Text)
    → strip_prefix nar_prefix path ≡ o
    → ends_with narinfo_suffix path ≡ false
    → sanitize_nar path o ≡ ok q
    → (q ≡ path) × IsCachePath path
unfolding sanitize_nar
sanitize_nar-IsCachePath path q none e f h = cc
sanitize_nar-IsCachePath path q (some rest) e f h = (
  ground arith,
  nar rest (strip_prefix-eq-append nar_prefix path rest e) (valid-All rest (ground arith))
      ((IsNarName-iff rest).0 (ground arith)) f,
)

no_suffix :
    (path : Text) → strip_suffix narinfo_suffix path ≡ none → ends_with narinfo_suffix path ≡ false
no_suffix path e =
    not_true _ λ h. let (r, f) = ends_with-strip_suffix narinfo_suffix path h in ground arith

sanitize_suffix-IsCachePath :
    (path q : Text) (o : Option Text)
    → strip_suffix narinfo_suffix path ≡ o
    → sanitize_suffix path o ≡ ok q
    → (q ≡ path) × IsCachePath path
unfolding sanitize_suffix
sanitize_suffix-IsCachePath path q none e h =
    sanitize_nar-IsCachePath path q (strip_prefix nar_prefix path) refl (no_suffix path e) h
sanitize_suffix-IsCachePath path q (some stem) e h =
    let (n, digits) = (stem_iff stem).0 (ground arith) in
    (ground arith, narinfo stem (strip_suffix-eq-append narinfo_suffix path stem e) n digits)

sanitize-IsCachePath :
    (path q : Text) → sanitize_cache_path path ≡ ok q → (q ≡ path) × IsCachePath path
unfolding sanitize_cache_path
sanitize-IsCachePath path q h = elim (Bool-cases (text_eq path nix_cache_info)) [
  | inl same ↦ (ground arith, info (text_eq_sound path nix_cache_info same))
  | inr other ↦
      sanitize_suffix-IsCachePath path q (strip_suffix narinfo_suffix path) refl (ground arith)
]

-- A path that is no info file passes on to the test of its suffix.
reaches_suffix :
    (path : Text)
    → starts_with (codes "/") path ≡ false
    → has_char b'\\' path ≡ false
    → sanitize_suffix path (strip_suffix narinfo_suffix path) ≡ ok path
    → sanitize_cache_path path ≡ ok path
unfolding sanitize_cache_path
reaches_suffix path e f h = ground arith

pub no_slash : (s : Text) → All IsBase32 s → has_char b'/' s ≡ false
unfolding has_char
no_slash [] h = refl
no_slash (c ∷ s) (p, h) = ground (arith, no_slash s h)

first_digit :
    (digits : Text)
    → length digits ≡ 32
    → All IsBase32 digits
    → starts_with (codes "/") (digits ++ narinfo_suffix) ≡ false
unfolding starts_with
first_digit [] n h = absurd (omega arith)
first_digit (c ∷ digits) n (p, h) = ground arith

pub narinfo-sanitize :
    (digits : Text)
    → length digits ≡ 32
    → All IsBase32 digits
    → sanitize_cache_path (digits ++ narinfo_suffix) ≡ ok (digits ++ narinfo_suffix)
unfolding sanitize_suffix has_char
narinfo-sanitize digits n base =
    reaches_suffix (digits ++ narinfo_suffix) (first_digit digits n base)
      (ground (arith, has_char-append b'\\' digits narinfo_suffix, no_backslash digits base))
      (rw (strip_suffix-append narinfo_suffix digits) (
        ground (
          arith,
          has_char-append b'/' digits narinfo_suffix,
          no_slash digits base,
          (stem_iff digits).1 (n, base),
        )))

segments_backslash : (rest : Text) → All IsSegment (split b'/' rest) → has_char b'\\' rest ≡ false
unfolding valid_cache_file_char
segments_backslash rest segments =
    split-free b'/' b'\\' rest refl
      (All-map _ _ (λ part v. plain_free b'\\' part refl v.1) (split b'/' rest) segments)

other_suffix :
    (path : Text) → ends_with narinfo_suffix path ≡ false → strip_suffix narinfo_suffix path ≡ none
other_suffix path h = elim (Option-cases (strip_suffix narinfo_suffix path)) [
  | inl e ↦ e
  | inr (r, e) ↦
      let ends : ends_with narinfo_suffix (r ++ narinfo_suffix) ≡ true =
        ends_with-append narinfo_suffix r in
      cc (h, ends, ap (ends_with narinfo_suffix) (strip_suffix-eq-append narinfo_suffix path r e))
]

nar-sanitize :
    (rest : Text)
    → All IsSegment (split b'/' rest)
    → IsNarName (last_part (split b'/' rest))
    → ends_with narinfo_suffix (nar_prefix ++ rest) ≡ false
    → sanitize_cache_path (nar_prefix ++ rest) ≡ ok (nar_prefix ++ rest)
unfolding sanitize_suffix sanitize_nar has_char starts_with strip_prefix
nar-sanitize rest segments name other =
    reaches_suffix (nar_prefix ++ rest) refl (segments_backslash rest segments) (
      rw
        (
          other_suffix (nar_prefix ++ rest) other,
          All-valid rest segments,
          (IsNarName-iff rest).1 name,
        )
        refl)

info-sanitize : sanitize_cache_path nix_cache_info ≡ ok nix_cache_info
unfolding sanitize_cache_path
info-sanitize = refl

IsCachePath-sanitize : (path : Text) → IsCachePath path → sanitize_cache_path path ≡ ok path
IsCachePath-sanitize path (info e) = rw e info-sanitize
IsCachePath-sanitize path (narinfo digits e n base) = rw e (narinfo-sanitize digits n base)
IsCachePath-sanitize path (nar rest e segments name other) =
    rw e (nar-sanitize rest segments name (rw e at other))

-- `sanitize_cache_path` returns its argument unchanged, and accepts exactly the cache paths.
pub sanitize_iff :
    (path q : Text) → (sanitize_cache_path path ≡ ok q) ↔ ((q ≡ path) × IsCachePath path)
sanitize_iff path q = (sanitize-IsCachePath path q, λ v. rw v.0 (IsCachePath-sanitize path v.1))
