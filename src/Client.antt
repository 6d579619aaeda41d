-- ===== src/Client.antt =====
-- crates/drv-thru/src/client/session.rs and client_cache/mod.rs: the client's side of a session. A
-- stream is the list of what it brings; what the client writes is the list of its messages.
pub mod Welcome
pub mod Asking
pub mod Opening
pub mod Build
mod Tests
use drv_thru.Base.{
  ℕ, Bool, true, false, not, List, [], ◌∷◌, ◌++◌, ◌*◌, ◌==◌, Option, none, some, Result, ok, err,
  ◌>>=◌, ◌>>◌, bail_if, map_err, try_map, length, if◌then◌else◌,
}
use drv_thru.Text.{Text, codes}
use drv_thru.Nix.StorePath.{StorePath, PathError, new, texts}
use drv_thru.Nix.Queries.{NixError}
use drv_thru.Protocol.{
  OutputMode, BuildRequest, BuildFinished, AuthOk, Message, hello, auth_trusted_client, auth_ticket,
  auth_ok, build_request, build_paths, build_queued, input_upload_ready, build_started, nix_log,
  build_finished, output_request, output_cache_ready, output_cache_done, done, error, version,
}
use drv_thru.Protocol.Wire.{Bytes}
use drv_thru.Protocol.PathChunks.{
  ReadError, Incoming, ReadLimits, Sent, send_row, write, read_with_timeout, timed_out,
  of_missing_paths, of_output_closure,
}

-- The server's limits and the client's are the same numbers.
abbrev pub server_path_list_limits : ReadLimits
server_path_list_limits = record { chunks = 512; paths = 100_000; bytes = 16 * 1024 * 1024 }

-- `BuildAuth`, without the address of the server.
pub data BuildAuth : Type 0 where
  trusted_client : BuildAuth
  ticket : ℕ → BuildAuth

pub record PreparedBuild : Type 0 where
  pub drv_path : StorePath
  pub closure_path_strings : List Text

pub record RemoteBuildResult : Type 0 where
  pub missing_path_count : ℕ
  pub build_success : Bool
  pub output_paths : List Text
  pub received_bytes : ℕ

pub data ClientError : Type 0 where
  write_failed remote_build_failed : ClientError
  reading : ReadError → ClientError
  server_error : Text → ClientError
  unexpected : Message → ClientError
  bad_path : PathError → ClientError
  nix_failed : NixError → ClientError
  upload_failed import_failed : Text → ClientError

-- What the client meets: `missing_paths` of its own store, the upload of paths, the import of the
-- outputs of a closure from a row of paths of the cache with the bytes it received, and whether the writes after the build go through.
pub record ClientWorld : Type 0 where
  pub missing_paths : List StorePath → Result NixError (List StorePath)
  pub export_paths : List StorePath → Result Text (Unit {0})
  pub import_outputs : List Text → List Text → Result Text ℕ
  pub request_ok : Bool
  pub done_ok : Bool

-- What `write_hello`, `write_auth` and `send_build_request` write.
abbrev pub write_hello : Text → Message
write_hello node_id = hello (record { version = version; node_id = node_id })

abbrev pub write_auth : BuildAuth → Message
write_auth trusted_client = auth_trusted_client
write_auth (ticket secret) = auth_ticket secret

abbrev pub request_of : Text → List Text → PreparedBuild → OutputMode → Bool → BuildRequest
request_of installable output_paths prepared output_mode rebuild = record {
  installable = installable;
  drv_path = prepared.drv_path.text;
  output_paths = output_paths;
  output_mode = output_mode;
  rebuild = rebuild;
}

-- The second part goes only if the first has.
abbrev pub then_send : Sent → Sent → Sent
then_send (messages, true) next = (messages ++ next.0, next.1)
then_send (messages, false) next = (messages, false)

unfoldable pub send_build_request :
    (Message → Option Bytes) → Text → List Text → PreparedBuild → OutputMode → Bool → Sent
unfolding send_row write
send_build_request encode installable output_paths prepared output_mode rebuild =
    then_send
      (send_row encode
        (build_request (request_of installable output_paths prepared output_mode rebuild) ∷ []))
      (write encode prepared.closure_path_strings build_paths)

unfoldable pub local_outputs_present : ClientWorld → List StorePath → Bool → Result ClientError Bool
local_outputs_present world requested true = ok false
local_outputs_present world requested false = do
  missing ← map_err nix_failed (world.missing_paths requested)
  ok (length missing == 0)

-- `wire::read_json`: a message, and the stream behind it.
abbrev pub read_next : List Incoming → Result ClientError (Message × List Incoming)
read_next [] = err (reading timed_out)
read_next (err e ∷ recv) = err (reading e)
read_next (ok message ∷ recv) = ok (message, recv)

-- A message that is not the expected one.
abbrev pub refuse : {A : Type 0} → Message → Result ClientError A
refuse (error text) = err (server_error text)
refuse message = err (unexpected message)

abbrev pub key_of : Message → Result ClientError Text
key_of (auth_ok answer) = ok answer.builder_public_key
key_of message = refuse message

unfoldable pub read_auth_ok : List Incoming → Result ClientError (Text × List Incoming)
read_auth_ok recv = do (message, rest) ← read_next recv; key ← key_of message; ok (key, rest)

abbrev pub is_queued : Message → Result ClientError (Unit {0})
is_queued build_queued = ok tt
is_queued message = refuse message

unfoldable pub read_queued_missing_paths :
    List Incoming → Result ClientError (List Text × List Incoming)
unfolding read_with_timeout
read_queued_missing_paths recv = do
  (message, rest) ← read_next recv
  is_queued message
  map_err reading (read_with_timeout of_missing_paths server_path_list_limits rest)

abbrev pub is_upload_ready : Message → Result ClientError (Unit {0})
is_upload_ready input_upload_ready = ok tt
is_upload_ready message = refuse message

unfoldable pub read_upload_ready : List Incoming → Result ClientError (List Incoming)
read_upload_ready recv = do (message, rest) ← read_next recv; is_upload_ready message; ok rest

abbrev pub client_path : Text → Result ClientError StorePath
client_path text = map_err bad_path (new text)

unfoldable pub upload_missing_paths : ClientWorld → List Text → Result ClientError (Unit {0})
unfolding new
upload_missing_paths world paths = do
  store_paths ← try_map client_path paths
  map_err upload_failed (world.export_paths store_paths)

-- The loop of `read_build_messages`: the log lines are printed, which has no effect here.
unfoldable pub read_build_messages :
    List Incoming → Result ClientError (BuildFinished × List Incoming)
read_build_messages [] = err (reading timed_out)
read_build_messages (err e ∷ recv) = err (reading e)
read_build_messages (ok build_started ∷ recv) = read_build_messages recv
read_build_messages (ok (nix_log line) ∷ recv) = read_build_messages recv
read_build_messages (ok (build_finished finished) ∷ recv) = ok (finished, recv)
read_build_messages (ok message ∷ recv) = refuse message

unfoldable pub wait_for_output_closure :
    List Incoming → Result ClientError (List Text × List Incoming)
unfolding read_with_timeout
wait_for_output_closure recv =
    map_err reading (read_with_timeout of_output_closure server_path_list_limits recv)

unfoldable pub locally_missing_paths : ClientWorld → List Text → Result ClientError (List Text)
unfolding new
locally_missing_paths world paths = do
  store_paths ← try_map client_path paths
  missing ← map_err nix_failed (world.missing_paths store_paths)
  ok (texts missing)

abbrev pub is_done : Message → Result ClientError (Unit {0})
is_done done = ok tt
is_done message = refuse message

unfoldable pub read_server_done : List Incoming → Result ClientError (Unit {0})
read_server_done recv = do (message, rest) ← read_next recv; is_done message

-- The server's last answer counts only if the import and the write went well.
abbrev pub close_import : Bool → List Incoming → Result Text ℕ → Result ClientError ℕ
close_import done_ok recv (err e) = err (import_failed e)
close_import done_ok recv (ok bytes) = do
  bail_if (not done_ok) write_failed
  read_server_done recv
  ok bytes

abbrev pub import_from : ClientWorld → List Text → Message → List Incoming → Result ClientError ℕ
import_from world closure (output_cache_ready copy_paths) recv =
    close_import world.done_ok recv (world.import_outputs closure copy_paths)
import_from world closure done recv = ok 0
import_from world closure message recv = refuse message

-- `import_output_cache` of client_cache/mod.rs.
unfoldable pub import_output_cache : ClientWorld → List Text → List Incoming → Result ClientError ℕ
unfolding read_server_done
import_output_cache world closure recv = do
  (message, rest) ← read_next recv
  import_from world closure message rest

abbrev pub upload_if_missing :
    ClientWorld → List Text → List Incoming → Result ClientError (List Incoming)
upload_if_missing world [] recv = ok recv
upload_if_missing world (p ∷ missing) recv = do
  rest ← read_upload_ready recv
  upload_missing_paths world (p ∷ missing)
  ok rest

abbrev pub failed_result : ℕ → BuildFinished → RemoteBuildResult
failed_result count finished = record {
  missing_path_count = count;
  build_success = false;
  output_paths = finished.output_paths;
  received_bytes = 0;
}

-- The part of `run_remote_build` behind a build that succeeded.
abbrev pub fetch_outputs :
    ClientWorld → ℕ → BuildFinished → List Incoming → Result ClientError RemoteBuildResult
fetch_outputs world count finished recv = do
  (closure, rest) ← wait_for_output_closure recv
  missing ← locally_missing_paths world closure
  bail_if (not world.request_ok) write_failed
  bytes ← import_output_cache world closure rest
  ok (record {
    missing_path_count = count;
    build_success = true;
    output_paths = finished.output_paths;
    received_bytes = bytes;
  })

unfoldable pub run_remote_build : ClientWorld → List Incoming → Result ClientError RemoteBuildResult
unfolding read_queued_missing_paths read_upload_ready upload_missing_paths read_build_messages
    wait_for_output_closure locally_missing_paths import_output_cache
run_remote_build world recv = do
  (missing, queued) ← read_queued_missing_paths recv
  rest ← upload_if_missing world missing queued
  (finished, closing) ← read_build_messages rest
  if finished.success
      then fetch_outputs world (length missing) finished closing
      else ok (failed_result (length missing) finished)
