-- ===== src/Server/OutputCache/Handler.antt =====
-- crates/drv-thru/src/server/output_cache.rs: the answer to one request for a cache file.
use drv_thru.Base.{
  ℕ, Bool, true, false, not, List, ◌∷◌, Option, none, some, Result, ok, err, ◌>>=◌, context,
  map_err, if◌then◌else◌,
}
use drv_thru.Text.{Text, text_eq, starts_with, ends_with}
use drv_thru.TextMap.{member}
use drv_thru.Nix.StorePath.{StorePath}
use drv_thru.Cache.{
  nix_cache_info, narinfo_suffix, nar_prefix, sanitize_cache_path, cache_file_path,
  narinfo_nar_path,
}
use drv_thru.Protocol.{CacheFileRequest}
use drv_thru.Server.OutputCache.{
  File, Entry, missing, unreadable, directory, regular, Disk, OutputError, bad_cache_path,
  unsupported_path, read_failed, short_read, OutputCache, map_narinfo_to_allowed_store_path,
  Outside, ensure_cache_entry,
}

-- `OutputCacheAccess`, with the disk.
pub record Serving : Type 0 where
  pub disk : Disk
  pub paths_by_hash : List (Text × StorePath)
  pub allowed_nar_paths : List Text

-- What the client gets: `found: false`, or a file with its length and, if asked for, its body.
pub data Reply : Type 0 where
  not_found : Reply
  sends : Text → ℕ → Option (Option Text) → Reply

abbrev pub body_of : Bool → File → Option (Option Text)
body_of true f = some f.text
body_of false f = none

-- `stream_cache_file` for a request path. The body of a directory cannot be read.
abbrev pub stream_cache_file : Text → Entry → Bool → Result OutputError Reply
stream_cache_file path missing send_body = ok not_found
stream_cache_file path unreadable send_body = err read_failed
stream_cache_file path (directory n) true = err read_failed
stream_cache_file path (directory n) false = ok (sends path n none)
stream_cache_file path (regular f) send_body =
    if send_body
    then (if f.copied then ok (sends path f.byte_count (some f.text)) else err short_read)
    else ok (sends path f.byte_count none)

abbrev pub read_file : Entry → Result OutputError File
read_file missing = err read_failed
read_file unreadable = err read_failed
read_file (directory n) = err read_failed
read_file (regular f) = ok f

abbrev pub allow : Option Text → List Text → List Text
allow none allowed = allowed
allow (some nar_path) allowed = if member nar_path allowed then allowed else nar_path ∷ allowed

-- The branch of `nix-cache-info`: `ensure_nix_cache_info` is a parameter that gives the disk after.
abbrev pub serve_info :
    (Disk → Option Disk)
    → OutputCache
    → Serving
    → Text
    → Bool
    → Result OutputError (Serving × Reply)
serve_info ensure_info cache s path send_body = do
  disk ← context (ensure_info s.disk) read_failed
  file_path ← map_err bad_cache_path (cache_file_path cache.dir nix_cache_info)
  reply ← stream_cache_file path (disk file_path) send_body
  ok (record s { disk = disk }, reply)

-- The branch of a narinfo file, for the store path that its hash stands for.
abbrev pub serve_narinfo :
    Outside
    → OutputCache
    → Serving
    → Text
    → Bool
    → Option StorePath
    → Result OutputError (Serving × Reply)
serve_narinfo outside cache s path send_body none = ok (s, not_found)
serve_narinfo outside cache s path send_body (some store_path) = do
  disk ← ensure_cache_entry outside cache s.disk store_path
  file_path ← map_err bad_cache_path (cache_file_path cache.dir path)
  f ← read_file (disk file_path)
  nar_path ← map_err bad_cache_path (narinfo_nar_path f.text)
  ok (
    record s { disk = disk; allowed_nar_paths = allow nar_path s.allowed_nar_paths },
    sends path f.byte_count (body_of send_body f),
  )

-- The branch of a NAR file.
abbrev pub serve_nar : OutputCache → Serving → Text → Bool → Result OutputError (Serving × Reply)
serve_nar cache s path send_body =
    if not (member path s.allowed_nar_paths)
    then ok (s, not_found)
    else (map_err bad_cache_path (cache_file_path cache.dir path) >>= λ file_path.
        stream_cache_file path (s.disk file_path) send_body >>= λ reply. ok (s, reply))

-- The branches on a path that was accepted.
abbrev pub serve_path :
    (Disk → Option Disk)
    → Outside
    → OutputCache
    → Serving
    → Text
    → Bool
    → Result OutputError (Serving × Reply)
serve_path ensure_info outside cache s path send_body =
    if text_eq path nix_cache_info
    then serve_info ensure_info cache s path send_body
    else if ends_with narinfo_suffix path
    then (map_narinfo_to_allowed_store_path path s.paths_by_hash
        >>= serve_narinfo outside cache s path send_body)
    else if starts_with nar_prefix path
    then serve_nar cache s path send_body
    else err (unsupported_path path)

-- `handle_cache_file_stream`, from the request on.
unfoldable pub handle_cache_file :
    (Disk → Option Disk)
    → Outside
    → OutputCache
    → Serving
    → CacheFileRequest
    → Result OutputError (Serving × Reply)
unfolding sanitize_cache_path cache_file_path narinfo_nar_path ensure_cache_entry member text_eq
    ends_with starts_with map_narinfo_to_allowed_store_path
handle_cache_file ensure_info outside cache s request = do
  path ← map_err bad_cache_path (sanitize_cache_path request.path)
  serve_path ensure_info outside cache s path request.send_body
