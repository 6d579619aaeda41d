-- ===== src/ClientCache/Mirror.antt =====
-- crates/drv-thru/src/client_cache/mirror.rs and `fetch_cache_file` of mod.rs: the cache files of the
-- builder are fetched into a directory.
pub mod Tasks
pub mod Sends
pub mod Fetches
pub mod Laws
pub mod Held
pub mod Runs
use drv_thru.Base.{
  ℕ, zero, suc, Bool, true, false, not, ◌||◌, List, [], ◌∷◌, ◌++◌, map, Option, none, some, Result,
  ok, err, ◌>>=◌, ◌>>◌, bail_if, context, map_err, length, take, any, ltb, leb, ◌==◌, ◌*◌, ◌<◌,
  if◌then◌else◌,
}
use drv_thru.Text.{Text, codes, parse_u64, starts_with, ends_with, to_digits}
use drv_thru.TextMap.{member, insert}
use drv_thru.Nix.StorePath.{StorePath, hash}
use drv_thru.Cache.{
  CacheError, narinfo_suffix, nar_prefix, nix_cache_info, cache_file_path, narinfo_nar_path,
}
use drv_thru.Protocol.{
  Message, CacheFileRequest, CacheFileResponse, cache_file_request, cache_file_response, error,
}
use drv_thru.Protocol.PathChunks.{ReadError, Incoming}
use drv_thru.ClientCache.Files.{Files}

pub data MirrorError : Type 0 where
  not_opened not_sent no_response panicked : MirrorError
  reading : ReadError → MirrorError
  server_error : Text → MirrorError
  unexpected : Message → MirrorError
  no_metadata no_payload no_body body_failed : Text → MirrorError
  metadata_too_large : ℕ → MirrorError
  short_body : ℕ → ℕ → MirrorError
  bad_cache_path : CacheError → MirrorError
  write_failed : Text → MirrorError

-- What a stream brings behind the response, and whether it breaks after that.
pub record Body : Type 0 where
  pub bytes : List ℕ
  pub broken : Bool

-- A stream that was opened with a request: whether the write went through, the answer, if one comes in
-- time, and the body.
pub record CacheStream : Type 0 where
  pub sent : Bool
  pub answer : Option Incoming
  pub body : Body

-- The builder as its answers to requests (`none`: no stream in time), `str::from_utf8`, and whether
-- a file can be made and written at a path.
pub record MirrorWorld : Type 0 where
  pub open_bi : Message → Option CacheStream
  pub from_utf8 : List ℕ → Option Text
  pub can_write : Text → Bool

pub record FetchedCacheFile : Type 0 where
  pub byte_count : ℕ
  pub body : Option Body

abbrev pub response_of : Incoming → Result MirrorError CacheFileResponse
response_of (err e) = err (reading e)
response_of (ok (cache_file_response response)) = ok response
response_of (ok (error text)) = err (server_error text)
response_of (ok message) = err (unexpected message)

abbrev pub fetched_of : Bool → Body → CacheFileResponse → Option FetchedCacheFile
fetched_of send_body body response =
    if response.found
    then some
        (record { byte_count = response.byte_count; body = if send_body then some body else none })
    else none

unfoldable pub fetch_cache_file :
    MirrorWorld → Text → Bool → Result MirrorError (Option FetchedCacheFile)
fetch_cache_file world path send_body = do
  stream ←
      context (world.open_bi (cache_file_request (record { path = path; send_body = send_body })))
        not_opened
  bail_if (not stream.sent) not_sent
  message ← context stream.answer no_response
  response ← response_of message
  ok (fetched_of send_body stream.body response)

abbrev pub max_narinfo_bytes : ℕ
max_narinfo_bytes = 1024 * 1024

-- `take(n)` and the reads to its end: a stream that breaks behind these bytes does not matter.
abbrev pub read_body : Text → ℕ → Body → Result MirrorError (List ℕ)
read_body path n body =
    if leb n (length body.bytes)
    then ok (take n body.bytes)
    else if body.broken
    then err (body_failed path)
    else ok body.bytes

-- The whole body: as many bytes as were announced.
abbrev pub whole_body : Text → ℕ → Body → Result MirrorError (List ℕ)
whole_body path n body = do
  bytes ← read_body path n body
  bail_if (not (length bytes == n)) (short_body (length bytes) n)
  ok bytes

unfoldable pub read_fetched_body : FetchedCacheFile → Text → Result MirrorError (List ℕ)
read_fetched_body fetched path = do
  bail_if (ltb max_narinfo_bytes fetched.byte_count) (metadata_too_large fetched.byte_count)
  body ← context fetched.body (no_body path)
  whole_body path fetched.byte_count body

unfoldable pub narinfo_path_for_store_path : StorePath → Option Text
unfolding hash
narinfo_path_for_store_path path = elim (hash path) [
  | none ↦ none
  | some digits ↦ some (digits ++ narinfo_suffix)
]

-- `CacheProgressState`, behind its lock.
pub record CacheProgress : Type 0 where
  pub metadata_seen : List Text
  pub payload_seen : List Text
  pub metadata_total : ℕ
  pub payload_total : ℕ
  pub nar_fetches : ℕ

-- `BTreeSet::insert`.
abbrev pub see : Text → List Text → List Text
see path seen = if member path seen then seen else path ∷ seen

unfoldable pub record_cache_file : Text → Bool → CacheProgress → CacheProgress
unfolding ends_with starts_with member
record_cache_file path send_body state =
    if ends_with narinfo_suffix path
    then record state { metadata_seen = see path state.metadata_seen }
    else if send_body
    then (if starts_with nar_prefix path
        then record state { payload_seen = see path state.payload_seen }
        else state)
    else state

unfoldable pub progress_count : ℕ → ℕ → Text
unfolding to_digits
progress_count done total =
    if total == 0 then to_digits done else to_digits done ++ b'/' ∷ to_digits total

-- The text that `refresh` shows.
unfoldable pub progress_message : CacheProgress → Text
unfolding progress_count to_digits
progress_message state =
    codes "cache metadata "
    ++ progress_count (length state.metadata_seen) state.metadata_total
    ++ codes ", payloads "
    ++ progress_count (length state.payload_seen) state.payload_total
    ++ codes ", nar "
    ++ to_digits state.nar_fetches
    ++ codes "x"

-- What the tasks have made so far.
pub record Mirrored : Type 0 where
  pub files : Files
  pub progress : CacheProgress

unfoldable pub write_cache_bytes :
    MirrorWorld → Text → Text → List ℕ → Files → Result MirrorError Files
unfolding cache_file_path insert
write_cache_bytes world dir path bytes files = do
  file_path ← map_err bad_cache_path (cache_file_path dir path)
  bail_if (not (world.can_write file_path)) (write_failed file_path)
  ok (insert file_path bytes files)

abbrev pub read_narinfo : MirrorWorld → Text → Result MirrorError (List ℕ)
read_narinfo world path = do
  answer ← fetch_cache_file world path true
  fetched ← context answer (no_metadata path)
  read_fetched_body fetched path

abbrev pub nar_of : MirrorWorld → List ℕ → Bool → Result MirrorError (Option Text)
nar_of world bytes copy_path =
    if copy_path then map_err bad_cache_path (narinfo_nar_path (world.from_utf8 bytes)) else ok none

unfoldable pub mirror_narinfo :
    MirrorWorld → Text → Text → Bool → Mirrored → Result MirrorError (Option Text × Mirrored)
unfolding fetch_cache_file read_fetched_body write_cache_bytes record_cache_file narinfo_nar_path
mirror_narinfo world dir path copy_path m = do
  bytes ← read_narinfo world path
  files ← write_cache_bytes world dir path bytes m.files
  nar ← nar_of world bytes copy_path
  ok (nar, record { files = files; progress = record_cache_file path true m.progress })

-- With `write_fetched_file`, which makes the file before it reads the body.
unfoldable pub mirror_nar : MirrorWorld → Text → Text → Mirrored → Result MirrorError Mirrored
unfolding fetch_cache_file cache_file_path insert record_cache_file
mirror_nar world dir path m = do
  answer ← fetch_cache_file world path true
  fetched ← context answer (no_payload path)
  file_path ← map_err bad_cache_path (cache_file_path dir path)
  body ← context fetched.body (no_body path)
  bail_if (not (world.can_write file_path)) (write_failed file_path)
  bytes ← whole_body path fetched.byte_count body
  ok (record {
    files = insert file_path bytes m.files;
    progress = record_cache_file path true m.progress;
  })
