-- ===== src/Cache/Injective.antt =====
-- crates/drv-thru/src/cache.rs: different accepted paths have different files.
use drv_thru.Base.{
  ◌≡◌, sym, ap, ◌∙◌, Bool-cases, inl, inr, false, [], ◌∷◌, ◌++◌, arith, ok, >>=-eq-ok, ◌||◌,
}
use drv_thru.Text.{Text, codes, is_empty, starts_with, ends_with}
use drv_thru.Cache.{sanitize_cache_path, cache_file_path}
use drv_thru.Cache.FilePath.{join}
use drv_thru.Cache.Segments.{not_slash_first}
use drv_thru.Cache.Laws.{sanitize_iff}
use drv_thru.Cache.Place.{IsCachePath-segments}

append-injective : (dir p q : Text) → dir ++ p ≡ dir ++ q → p ≡ q
append-injective [] p q h = h
append-injective (c ∷ dir) p q h = append-injective dir p q (ground arith)

join-injective :
    (dir p q : Text)
    → starts_with (codes "/") p ≡ false
    → starts_with (codes "/") q ≡ false
    → join dir p ≡ join dir q
    → p ≡ q
unfolding join
join-injective dir p q hp hq same = elim (Bool-cases (is_empty dir || ends_with (codes "/") dir)) [
  | inl closed ↦ append-injective dir p q (rw (hp, hq, closed) at same)
  | inr open_end ↦
      let tails = append-injective dir (b'/' ∷ p) (b'/' ∷ q) (rw (hp, hq, open_end) at same) in
      ground arith
]

pub cache_file_path-eq-ok :
    (dir path file : Text)
    → cache_file_path dir path ≡ ok file
    → (file ≡ join dir path) × (starts_with (codes "/") path ≡ false)
unfolding cache_file_path
cache_file_path-eq-ok dir path file h =
    let (q, accepted, joined) = >>=-eq-ok (sanitize_cache_path path) (λ p. ok (join dir p)) h in
    let (same, v) = (sanitize_iff path q).0 accepted in
    (ground (arith, ap (join dir) same), not_slash_first path (IsCachePath-segments path v))

pub cache_file_path-injective :
    (dir p q file : Text)
    → cache_file_path dir p ≡ ok file
    → cache_file_path dir q ≡ ok file
    → p ≡ q
cache_file_path-injective dir p q file hp hq =
    let (ep, sp) = cache_file_path-eq-ok dir p file hp in
    let (eq, sq) = cache_file_path-eq-ok dir q file hq in join-injective dir p q sp sq (sym ep ∙ eq)
