-- ===== src/Cache/Narinfo.antt =====
-- crates/drv-thru/src/cache.rs: what `narinfo_nar_path` reads from a narinfo.
use drv_thru.Base.{
  ◌≡◌, refl, sym, ap, subst, ◌∙◌, ◌↔◌, true, List, [], ◌∷◌, ◌++◌, Option, none, some, arith, inl,
  inr, Option-cases, All, Result, ok, ◌>>=◌, >>=-eq-ok,
}
use drv_thru.Text.{Text, codes, strip_prefix, starts_with, trim, lines}
use drv_thru.Text.Prefix.{strip_prefix-append, strip_prefix-eq-append}
use drv_thru.Cache.{
  CacheError, nar_prefix, sanitize_cache_path, nar_path_of_lines, check_nar_url, narinfo_nar_path,
}
use drv_thru.Cache.Laws.{IsCachePath, sanitize_iff}

abbrev pub NoUrl : Text → Type 0
NoUrl line = strip_prefix (codes "URL:") line ≡ none

-- A NAR path of a cache.
abbrev pub IsNarPath : Text → Type 0
IsNarPath path = IsCachePath path × (starts_with nar_prefix path ≡ true)

-- The first line with `URL:` names the path.
pub record NamesNar (ls : List Text) (path : Text) : Type 0 where
  pub before : List Text
  pub after : List Text
  pub url : Text
  pub split_at : ls ≡ before ++ (codes "URL:" ++ url) ∷ after
  pub first : All NoUrl before
  pub trimmed : trim url ≡ path
  pub served : IsNarPath path

read_url : Text → Result CacheError (Option Text)
read_url url = sanitize_cache_path (trim url) >>= check_nar_url

check_nar_url-ok :
    (q : Text) (r : Option Text)
    → check_nar_url q ≡ ok r
    → (r ≡ some q) × (starts_with nar_prefix q ≡ true)
check_nar_url-ok q r h = ground arith

read_url-ok :
    (url : Text) (r : Option Text)
    → read_url url ≡ ok r
    → (path : Text) × (r ≡ some path) × (trim url ≡ path) × IsNarPath path
unfolding read_url
read_url-ok url r h =
    let (q, accepted, checked) = >>=-eq-ok (sanitize_cache_path (trim url)) check_nar_url h in
    let (same, v) = (sanitize_iff (trim url) q).0 accepted in
    let (is_q, below) = check_nar_url-ok q r checked in
    (q, is_q, sym same, (subst IsCachePath (sym same) v, below))

ok-read_url : (url path : Text) → trim url ≡ path → IsNarPath path → read_url url ≡ ok (some path)
unfolding read_url
ok-read_url url path e (v, below) = rw (e, (sanitize_iff path path).1 (refl, v), below) refl

here-NamesNar :
    (line : Text) (ls : List Text) (path url : Text)
    → strip_prefix (codes "URL:") line ≡ some url
    → read_url url ≡ ok (some path)
    → NamesNar (line ∷ ls) path
here-NamesNar line ls path url e h =
    let (q, same, trimmed, served) = read_url-ok url (some path) h in
    let path_q : path ≡ q = ground arith in
    record {
      before = [];
      after = ls;
      url = url;
      split_at = ap (λ l. l ∷ ls) (strip_prefix-eq-append (codes "URL:") line url e);
      first = tt;
      trimmed = trimmed ∙ sym path_q;
      served = subst IsNarPath (sym path_q) served;
    }

later-NamesNar :
    (line : Text) (ls : List Text) (path : Text)
    → NoUrl line
    → NamesNar ls path
    → NamesNar (line ∷ ls) path
later-NamesNar line ls path e later = record {
  before = line ∷ later.before;
  after = later.after;
  url = later.url;
  split_at = ap (◌∷◌ line) later.split_at;
  first = (e, later.first);
  trimmed = later.trimmed;
  served = later.served;
}

lines-NamesNar :
    (ls : List Text) (path : Text) → nar_path_of_lines ls ≡ ok (some path) → NamesNar ls path
unfolding nar_path_of_lines read_url
lines-NamesNar [] path h = cc
lines-NamesNar (line ∷ ls) path h = elim (Option-cases (strip_prefix (codes "URL:") line)) [
  | inl e ↦ later-NamesNar line ls path e (lines-NamesNar ls path (rw (e, nar_path_of_lines) at h))
  | inr (url, e) ↦ here-NamesNar line ls path url e (rw (e, nar_path_of_lines) at h)
]

skip_lines :
    (before ls : List Text)
    → All NoUrl before
    → nar_path_of_lines (before ++ ls) ≡ nar_path_of_lines ls
unfolding nar_path_of_lines
skip_lines [] ls h = refl
skip_lines (line ∷ before) ls (e, h) = rw (e, nar_path_of_lines) (skip_lines before ls h)

NamesNar-lines :
    (ls : List Text) (path : Text) → NamesNar ls path → nar_path_of_lines ls ≡ ok (some path)
unfolding nar_path_of_lines read_url
NamesNar-lines ls path v =
    ap nar_path_of_lines v.split_at
    ∙ skip_lines v.before _ v.first
    ∙ rw (strip_prefix-append (codes "URL:") v.url, nar_path_of_lines)
        (ok-read_url v.url path v.trimmed v.served)

none-lines : (ls : List Text) → nar_path_of_lines ls ≡ ok none → All NoUrl ls
unfolding nar_path_of_lines read_url
none-lines [] h = tt
none-lines (line ∷ ls) h = elim (Option-cases (strip_prefix (codes "URL:") line)) [
  | inl e ↦ (e, none-lines ls (rw (e, nar_path_of_lines) at h))
  | inr (url, e) ↦
      let (q, same, _, _) = read_url-ok url none (rw (e, nar_path_of_lines) at h) in
      absurd (ground arith)
]

lines-none : (ls : List Text) → All NoUrl ls → nar_path_of_lines ls ≡ ok none
unfolding nar_path_of_lines
lines-none [] h = refl
lines-none (line ∷ ls) (e, h) = rw (e, nar_path_of_lines) (lines-none ls h)

-- The result is a path exactly if the first line with `URL:` names this NAR path of a cache, and
-- nothing exactly if no line has `URL:`.
pub narinfo_nar_path_iff :
    (text path : Text)
    → ((narinfo_nar_path (some text) ≡ ok (some path)) ↔ NamesNar (lines text) path)
      × ((narinfo_nar_path (some text) ≡ ok none) ↔ All NoUrl (lines text))
unfolding narinfo_nar_path
narinfo_nar_path_iff text path = (
  (lines-NamesNar (lines text) path, NamesNar-lines (lines text) path),
  (none-lines (lines text), lines-none (lines text)),
)
