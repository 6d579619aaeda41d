-- ===== src/ClientCache/LocalServer/Below.antt =====
-- crates/drv-thru/src/client_cache/local_server.rs: which files an answer depends on.
use drv_thru.Base.{ℕ, ◌≡◌, ◌≢◌, refl, List, [], ◌++◌, Option, All, reverse, Result, ok, err}
use drv_thru.Text.{Text}
use drv_thru.Cache.{CacheError, cache_file_path, sanitize_http_cache_path}
use drv_thru.Cache.FilePath.{place_of}
use drv_thru.Cache.Segments.{IsSegment}
use drv_thru.Cache.Place.{cache_file_path-below}
use drv_thru.ClientCache.Http.{
  HttpError, HttpMethod, get_method, head_method, other_method, HttpRequest, read_http_request,
}
use drv_thru.ClientCache.Files.{Stat}
use drv_thru.ClientCache.LocalServer.{
  LocalCache, serve_file, serve_at, serve_target, respond_to, answer_read, handle_local_cache_http,
}

-- The file lies below the directory: one segment or more under it, none of which leads up.
abbrev pub LiesBelow : Text → Text → Type 0
LiesBelow dir file =
    (segments : List Text) × (segments ≢ [])
    × All IsSegment segments
    × (place_of file ≡ reverse segments ++ place_of dir)

-- The two disks have the same files below the directory.
abbrev pub SameBelow : Text → (Text → Stat) → (Text → Stat) → Type 0
SameBelow dir disk other = (file : Text) → LiesBelow dir file → disk file ≡ other file

module _ (local : LocalCache) (other : Text → Stat)
    (same : SameBelow local.cache_dir local.disk other) where
  serve_at-below :
      (method : HttpMethod) (path : Text) (r : Result CacheError Text)
      → cache_file_path local.cache_dir path ≡ r
      → serve_at local method path r ≡ serve_at (record local { disk = other }) method path r
  unfolding serve_file
  serve_at-below method path (err e) h = refl
  serve_at-below method path (ok file) h =
      rw (same file (cache_file_path-below local.cache_dir path file h)) refl

  serve_target-below :
      (method : HttpMethod) (r : Result CacheError Text)
      → serve_target local method r ≡ serve_target (record local { disk = other }) method r
  serve_target-below method (err e) = refl
  serve_target-below method (ok path) =
      serve_at-below method path (cache_file_path local.cache_dir path) refl

  respond_to-below :
      (method : HttpMethod) (target : Text)
      → respond_to local method target ≡ respond_to (record local { disk = other }) method target
  unfolding respond_to
  respond_to-below get_method target =
      serve_target-below get_method (sanitize_http_cache_path target)
  respond_to-below head_method target =
      serve_target-below head_method (sanitize_http_cache_path target)
  respond_to-below other_method target = refl

  answer_read-below :
      (r : Result HttpError HttpRequest)
      → answer_read local r ≡ answer_read (record local { disk = other }) r
  answer_read-below (err e) = refl
  answer_read-below (ok request) = respond_to-below request.method request.target

-- Whatever a client sends, the answer and the result depend only on the files below the directory of
-- the cache: a disk that has the same files there gives the same.
pub handle_local_cache_http-below :
    (from_utf8 : List ℕ → Option Text) (local : LocalCache) (other : Text → Stat)
    (reads : ℕ → Option (List ℕ))
    → SameBelow local.cache_dir local.disk other
    → handle_local_cache_http from_utf8 local reads
      ≡ handle_local_cache_http from_utf8 (record local { disk = other }) reads
unfolding handle_local_cache_http
handle_local_cache_http-below from_utf8 local other reads same =
    answer_read-below local other same (read_http_request from_utf8 reads)
