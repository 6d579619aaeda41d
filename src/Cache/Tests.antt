-- ===== src/Cache/Tests.antt =====
-- crates/drv-thru/src/cache.rs: runs of the checks of cache paths.
use drv_thru.Base.{◌≡◌, ◌≢◌, refl, ◌↔◌, ok, err, some, none, All, List, [], ◌++◌, reverse}
use drv_thru.Text.{Text, codes, lines}
use drv_thru.Cache.{
  sanitize_cache_path, sanitize_http_cache_path, cache_file_path, narinfo_nar_path, invalid_nar,
  invalid_narinfo, unsupported, not_nar_url,
}
use drv_thru.Cache.FilePath.{place_of}
use drv_thru.Cache.Segments.{IsSegment}
use drv_thru.Cache.Laws.{IsCachePath, sanitize_iff}
use drv_thru.Cache.Place.{cache_file_path-below}
use drv_thru.Cache.Narinfo.{NamesNar, NoUrl, narinfo_nar_path_iff}

abbrev nar_path : Text
nar_path = codes "nar/subdir/abc123.nar.zst"

accepts_nar : sanitize_cache_path nar_path ≡ ok nar_path
unfolding sanitize_cache_path
accepts_nar = refl

accepts_narinfo :
    sanitize_cache_path (codes "00000000000000000000000000000000.narinfo")
    ≡ ok (codes "00000000000000000000000000000000.narinfo")
unfolding sanitize_cache_path
accepts_narinfo = refl

rejects_traversal :
    sanitize_cache_path (codes "nar/../x.nar") ≡ err (invalid_nar (codes "nar/../x.nar"))
unfolding sanitize_cache_path
rejects_traversal = refl

rejects_short_hash :
    sanitize_cache_path (codes "0000000000000000000000000000000.narinfo")
    ≡ err (invalid_narinfo (codes "0000000000000000000000000000000.narinfo"))
unfolding sanitize_cache_path
rejects_short_hash = refl

rejects_other : sanitize_cache_path (codes "foo") ≡ err (unsupported (codes "foo"))
unfolding sanitize_cache_path
rejects_other = refl

drops_query :
    sanitize_http_cache_path (codes "/nix-cache-info?priority=40") ≡ ok (codes "nix-cache-info")
unfolding sanitize_http_cache_path
drops_query = refl

abbrev narinfo_text : Text
narinfo_text = codes "StorePath: /nix/store/0-hello\r\nURL: nar/abc.nar.zst\n"

reads_url : narinfo_nar_path (some narinfo_text) ≡ ok (some (codes "nar/abc.nar.zst"))
unfolding narinfo_nar_path
reads_url = refl

rejects_info_url :
    narinfo_nar_path (some (codes "URL: nix-cache-info"))
    ≡ err (not_nar_url (codes "nix-cache-info"))
unfolding narinfo_nar_path
rejects_info_url = refl

below_tmp :
    cache_file_path (codes "/tmp/x") nar_path ≡ ok (codes "/tmp/x/nar/subdir/abc123.nar.zst")
unfolding cache_file_path
below_tmp = refl

sanitize_iff_example :
    (sanitize_cache_path nar_path ≡ ok nar_path) ↔ ((nar_path ≡ nar_path) × IsCachePath nar_path)
sanitize_iff_example = sanitize_iff nar_path nar_path

cache_file_path-below_example :
    (segments : List Text) × (segments ≢ [])
    × All IsSegment segments
    × (place_of (codes "/tmp/x/nar/subdir/abc123.nar.zst")
        ≡ reverse segments ++ place_of (codes "/tmp/x"))
cache_file_path-below_example = cache_file_path-below (codes "/tmp/x") nar_path _ below_tmp

narinfo_nar_path_iff_example :
    ((narinfo_nar_path (some narinfo_text) ≡ ok (some (codes "nar/abc.nar.zst")))
      ↔ NamesNar (lines narinfo_text) (codes "nar/abc.nar.zst"))
    × ((narinfo_nar_path (some narinfo_text) ≡ ok none) ↔ All NoUrl (lines narinfo_text))
narinfo_nar_path_iff_example = narinfo_nar_path_iff narinfo_text (codes "nar/abc.nar.zst")
