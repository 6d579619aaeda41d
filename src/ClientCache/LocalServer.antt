-- ===== src/ClientCache/LocalServer.antt =====
-- crates/drv-thru/src/client_cache/local_server.rs: the answer to one request of Nix. The accept loop
-- and its tasks are I/O; every request is answered on its own.
pub mod Below
use drv_thru.Base.{
  ℕ, Bool, true, false, not, ◌||◌, List, [], ◌∷◌, ◌++◌, Option, none, some, Result, ok, err, length,
  ◌==◌, if◌then◌else◌,
}
use drv_thru.Text.{Text, codes, len}
use drv_thru.Cache.{CacheError, sanitize_http_cache_path, cache_file_path}
use drv_thru.ClientCache.Http.{
  HttpError, HttpMethod, get_method, head_method, other_method, HttpRequest, read_http_request,
  http_head,
}
use drv_thru.ClientCache.Files.{
  Opening, not_opened, copy_failed, copies, Stat, absent, stat_failed, present,
}

pub data LocalError : Type 0 where
  bad_request : HttpError → LocalError
  bad_cache_path : CacheError → LocalError
  write_failed not_stat not_open not_copied not_closed : LocalError
  short_response : ℕ → ℕ → LocalError

-- The directory, its disk, and whether a write to the client and the close of its stream go through.
pub record LocalCache : Type 0 where
  pub cache_dir : Text
  pub disk : Text → Stat
  pub writes : Text → Bool
  pub closes : Bool

-- What was written to the client, and the result of the handler.
abbrev pub Answer : Type 0
Answer = List Text × Result LocalError (Unit {0})

abbrev pub and_then : Answer → Answer → Answer
and_then (out, err e) next = (out, err e)
and_then (out, ok tt) (more, result) = (out ++ more, result)

abbrev pub write : LocalCache → Text → Answer
write local text = if local.writes text then (text ∷ [], ok tt) else ([], err write_failed)

abbrev pub write_http_head : LocalCache → ℕ → ℕ → Answer
write_http_head local code content_length = write local (http_head code content_length)

unfoldable pub write_http_error : LocalCache → ℕ → Text → Answer
unfolding len http_head
write_http_error local code message =
    and_then (write_http_head local code (len message)) (write local message)

-- The copy to the client, and the check of its length.
abbrev pub copy_body : ℕ → Opening → Answer
copy_body n not_opened = ([], err not_open)
copy_body n copy_failed = ([], err not_copied)
copy_body n (copies bytes) =
    (bytes ∷ [], if length bytes == n then ok tt else err (short_response (length bytes) n))

abbrev pub body_answer : HttpMethod → ℕ → Opening → Answer
body_answer get_method n file = copy_body n file
body_answer head_method n file = ([], ok tt)
body_answer other_method n file = ([], ok tt)

abbrev pub close : LocalCache → Answer
close local = ([], if local.closes then ok tt else err not_closed)

unfoldable pub serve_file : LocalCache → HttpMethod → Text → Stat → Answer
unfolding write_http_error http_head
serve_file local method path absent =
    write_http_error local 404 (codes "cache file not found: " ++ path ++ b'\n' ∷ [])
serve_file local method path stat_failed = ([], err not_stat)
serve_file local method path (present n file) =
    and_then (write_http_head local 200 n) (and_then (body_answer method n file) (close local))

abbrev pub serve_at : LocalCache → HttpMethod → Text → Result CacheError Text → Answer
serve_at local method path (err e) = ([], err (bad_cache_path e))
serve_at local method path (ok file_path) = serve_file local method path (local.disk file_path)

abbrev pub serve_target : LocalCache → HttpMethod → Result CacheError Text → Answer
serve_target local method (err e) = write_http_head local 400 0
serve_target local method (ok path) =
    serve_at local method path (cache_file_path local.cache_dir path)

-- The handler for a request that was read.
unfoldable pub respond_to : LocalCache → HttpMethod → Text → Answer
unfolding serve_file sanitize_http_cache_path cache_file_path http_head
respond_to local get_method target = serve_target local get_method (sanitize_http_cache_path target)
respond_to local head_method target =
    serve_target local head_method (sanitize_http_cache_path target)
respond_to local other_method target = write_http_head local 405 0

abbrev pub answer_read : LocalCache → Result HttpError HttpRequest → Answer
answer_read local (err e) = ((write_http_head local 400 0).0, err (bad_request e))
answer_read local (ok request) = respond_to local request.method request.target

unfoldable pub handle_local_cache_http :
    (List ℕ → Option Text) → LocalCache → (ℕ → Option (List ℕ)) → Answer
unfolding read_http_request respond_to http_head
handle_local_cache_http from_utf8 local reads =
    answer_read local (read_http_request from_utf8 reads)
