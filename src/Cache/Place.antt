-- ===== src/Cache/Place.antt =====
-- crates/drv-thru/src/cache.rs: the place of an accepted path, and the targets of HTTP requests.
use drv_thru.Base.{
  ◌≡◌, ◌≢◌, refl, sym, ap, subst, ◌∙◌, ◌↔◌, ◌⊎◌, true, false, List, [], ◌∷◌, ◌++◌, Option, none,
  some, arith, inl, inr, All, All-append, All-map, all-All, length, reverse, ok, >>=-eq-ok,
  append-nil,
}
use drv_thru.Text.{Text, codes, split, split_once, strip_prefix, has_char}
use drv_thru.Text.Prefix.{has_char-append, strip_prefix-eq-append}
use drv_thru.Text.Splitting.{
  split_of_free, split-ne-nil, split-free, split_once-eq-append, split_once-append,
  split_once-eq-none,
}
use drv_thru.Nix.StorePath.Laws.{IsBase32}
use drv_thru.Cache.{
  nix_cache_info, narinfo_suffix, valid_cache_file_char, sanitize_cache_path,
  sanitize_http_cache_path, cache_file_path, before_query, after_slash,
}
use drv_thru.Cache.FilePath.{join, place_of}
use drv_thru.Cache.Segments.{IsSegment, place_of-join}
use drv_thru.Cache.Laws.{IsCachePath, info, narinfo, nar, sanitize_iff, no_slash}
use drv_thru.Cache.Names.{plain_free}

base32-plain : (s : Text) → All IsBase32 s → All (λ c. valid_cache_file_char c ≡ true) s
unfolding valid_cache_file_char
base32-plain [] h = tt
base32-plain (c ∷ s) (p, h) = (ground arith, base32-plain s h)

suffix-plain : All (λ c. valid_cache_file_char c ≡ true) narinfo_suffix
unfolding valid_cache_file_char
suffix-plain = all-All valid_cache_file_char narinfo_suffix refl

-- A narinfo name is one segment.
narinfo-IsSegment :
    (digits : Text)
    → length digits ≡ 32
    → All IsBase32 digits
    → IsSegment (digits ++ narinfo_suffix)
narinfo-IsSegment [] n h = absurd (omega arith)
narinfo-IsSegment (c ∷ digits) n (p, h) = (
  (ground arith, ground arith, ground arith),
  All-append _ (c ∷ digits) narinfo_suffix (base32-plain (c ∷ digits) (p, h)) suffix-plain,
)

info-IsSegment : IsSegment nix_cache_info
unfolding valid_cache_file_char
info-IsSegment =
    ((ground arith, ground arith, ground arith), all-All valid_cache_file_char nix_cache_info refl)

nar-IsSegment : IsSegment (codes "nar")
unfolding valid_cache_file_char
nar-IsSegment =
    ((ground arith, ground arith, ground arith), all-All valid_cache_file_char (codes "nar") refl)

-- The segments of a cache path, seen as a relative path.
pub IsCachePath-segments : (path : Text) → IsCachePath path → All IsSegment (split b'/' path)
unfolding split has_char valid_cache_file_char
IsCachePath-segments path (info e) = rw e (info-IsSegment, tt)
IsCachePath-segments path (narinfo digits e n base) =
    let whole : split b'/' (digits ++ narinfo_suffix) ≡ (digits ++ narinfo_suffix) ∷ [] =
      split_of_free b'/' _
        (ground (arith, has_char-append b'/' digits narinfo_suffix, no_slash digits base)) in
    rw (e, whole) (narinfo-IsSegment digits n base, tt)
IsCachePath-segments path (nar rest e segments name other) = rw e (nar-IsSegment, segments)

-- Whatever the directory, the file of an accepted path lies below it: its components are those of
-- the directory and at least one more, none of which leads up.
pub cache_file_path-below :
    (dir path file : Text)
    → cache_file_path dir path ≡ ok file
    → (segments : List Text) × (segments ≢ [])
      × All IsSegment segments
      × (place_of file ≡ reverse segments ++ place_of dir)
unfolding cache_file_path
cache_file_path-below dir path file h =
    let (q, accepted, joined) = >>=-eq-ok (sanitize_cache_path path) (λ p. ok (join dir p)) h in
    let (same, v) = (sanitize_iff path q).0 accepted in
    let segments = IsCachePath-segments path v in
    let here : file ≡ join dir path = ground (arith, ap (join dir) same) in
    (
      split b'/' path,
      split-ne-nil b'/' path,
      segments,
      ap place_of here ∙ place_of-join dir path segments,
    )

question_free : (path : Text) → IsCachePath path → has_char b'?' path ≡ false
unfolding valid_cache_file_char
question_free path v = split-free b'/' b'?' path refl (
    All-map _ _ (λ part w. plain_free b'?' part refl w.1) (split b'/' path)
      (IsCachePath-segments path v))

-- What may stand behind the path of a target: nothing, or a query.
abbrev pub IsQuery : Text → Type 0
IsQuery tail = (tail ≡ []) ⊎ ((query : Text) × (tail ≡ b'?' ∷ query))

before_query-split :
    (target : Text)
    → (tail : Text) × IsQuery tail × (target ≡ before_query target (split_once b'?' target) ++ tail)
before_query-split target = parts (split_once b'?' target) refl
  where
    parts :
        (o : Option (Text × Text))
        → split_once b'?' target ≡ o
        → (tail : Text) × IsQuery tail × (target ≡ before_query target o ++ tail)
    parts none e = ([], inl refl, sym (append-nil target))
    parts (some (a, b)) e = (b'?' ∷ b, inr (b, refl), (split_once-eq-append b'?' target a b e).0)

before_query-append :
    (path tail : Text)
    → has_char b'?' path ≡ false
    → IsQuery tail
    → before_query (path ++ tail) (split_once b'?' (path ++ tail)) ≡ path
before_query-append path tail free (inl e) =
    rw e (rw (append-nil path, split_once-eq-none b'?' path free) refl)
before_query-append path tail free (inr (query, e)) =
    rw e (rw (split_once-append b'?' path query free) refl)

after_slash-ok :
    (target q : Text) (o : Option Text)
    → after_slash target o ≡ ok q
    → (path : Text) × (o ≡ some path) × (sanitize_cache_path path ≡ ok q)
after_slash-ok target q none h = cc
after_slash-ok target q (some path) h = (path, refl, h)

-- An HTTP target is accepted exactly if it is `/`, a cache path and perhaps a query, and the
-- result is that path.
pub sanitize_http_iff :
    (target q : Text)
    → (sanitize_http_cache_path target ≡ ok q)
      ↔ ((tail : Text) × IsQuery tail × (target ≡ b'/' ∷ (q ++ tail)) × IsCachePath q)
unfolding sanitize_http_cache_path strip_prefix has_char
sanitize_http_iff target q = (there, back)
  where
    there :
        sanitize_http_cache_path target ≡ ok q
        → (tail : Text) × IsQuery tail × (target ≡ b'/' ∷ (q ++ tail)) × IsCachePath q
    there h =
        let (tail, t, e) = before_query-split target in
        let (path, stripped, accepted) = after_slash-ok target q _ h in
        let (same, v) = (sanitize_iff path q).0 accepted in
        let front = strip_prefix-eq-append (codes "/") _ path stripped in
        (
          tail,
          t,
          e ∙ ap (λ s. s ++ tail) (front ∙ ap (◌∷◌ b'/') (sym same)),
          subst IsCachePath (sym same) v,
        )

    back :
        (tail : Text) × IsQuery tail × (target ≡ b'/' ∷ (q ++ tail)) × IsCachePath q
        → sanitize_http_cache_path target ≡ ok q
    back (tail, t, e, v) =
        rw (e, before_query-append (b'/' ∷ q) tail (question_free q v) t)
          ((sanitize_iff q q).1 (refl, v))
