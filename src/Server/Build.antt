-- ===== src/Server/Build.antt =====
-- crates/drv-thru/src/server/build.rs: a build request and its run.
pub mod Requests
pub mod Lists
pub mod Inputs
pub mod Laws
use drv_thru.Base.{
  ℕ, Bool, true, false, not, List, [], ◌∷◌, ◌++◌, Option, none, some, Result, ok, err, leb, keep,
  any, map, length, if◌then◌else◌, map_err,
}
use drv_thru.Text.{Text, codes}
use drv_thru.Nix.StorePath.{texts, StorePath}
use drv_thru.Nix.Commands.{NixCommands, Realising, RealiseResult}
use drv_thru.Protocol.{
  OutputMode, Message, missing_paths, input_upload_ready, build_started, nix_log, build_finished,
  output_closure, output_cache_ready, output_cache_done, done, error,
}
use drv_thru.Protocol.PathChunks.{chunk_messages, read_with_timeout, of_output_request, Incoming}
use drv_thru.Server.OutputCache.{requested_output_paths}
use drv_thru.Server.Auth.{AuthorizedConnection}
use drv_thru.Server.Session.{
  SessionError, path_error, no_output_paths, nix_error, upload_timed_out, build_timed_out,
  still_missing, not_realised, reading, cache_error, cache_message, cache_control_error,
  task_panicked, World, Session, M, Outcome, pass, fail, ◌>>=◌, ◌>>◌, lift, note, phases, send,
  send_all, read_message, path_list_limits,
}
use Requests.{CheckedBuildRequest, selected_outputs}

pub record FinishedBuild : Type 0 where
  pub success : Bool
  pub output_paths : List StorePath

-- A result of Nix in a session.
abbrev pub nix : {A : Type 0} → Result (Text) A → M A
nix r = lift (map_err nix_error r)

unfoldable pub phase : World → Text → M (Unit {0})
phase world name = note (phases world.request_id name)

-- A timeout of the upload, or its import.
abbrev pub upload : World → Option ℕ → M (Unit {0})
upload world max_upload_bytes =
    if world.upload_opened
    then nix (world.nix.import_stream max_upload_bytes)
    else fail upload_timed_out

abbrev pub none_missing : List StorePath → M (Unit {0})
none_missing [] = pass tt
none_missing (p ∷ paths) = fail (still_missing (length (p ∷ paths)))

unfoldable pub import_missing_inputs : World → List StorePath → Option ℕ → M (Unit {0})
unfolding send
import_missing_inputs world paths max_upload_bytes = do
  send input_upload_ready
  upload world max_upload_bytes
  still ← nix (world.nix.missing_after paths)
  none_missing still

-- The lines that come before the timeout, and the result if it does.
abbrev pub lines_until : Option ℕ → Realising → List Text
lines_until none run = map (λ l. l.1) run.lines
lines_until (some limit) run = map (λ l. l.1) (keep (λ l. leb l.0 limit) run.lines)

abbrev pub result_until : Option ℕ → Realising → Result SessionError RealiseResult
result_until none run = map_err nix_error run.result
result_until (some limit) run =
    if leb run.ends_at limit then map_err nix_error run.result else err build_timed_out

abbrev pub outputs_of :
    Bool → List StorePath → List StorePath → Result SessionError (List StorePath)
outputs_of true requested realised = selected_outputs requested realised
outputs_of false requested realised = ok []

unfoldable pub run_build :
    World → StorePath → OutputMode → Bool → Option ℕ → List StorePath → M FinishedBuild
unfolding send send_all selected_outputs
run_build world drv_path output_mode rebuild max_build_time requested = do
  send build_started
  let run = world.nix.realise drv_path output_mode rebuild
  send_all (map nix_log (lines_until max_build_time run))
  result ← lift (result_until max_build_time run)
  paths ← lift (outputs_of result.success requested result.output_paths)
  send (build_finished (record { success = result.success; output_paths = texts paths }))
  pass (record { success = result.success; output_paths = paths })

-- A path list off the stream: `read_with_timeout` with the server's limits.
abbrev pub left_over : {A : Type 0} → Session → Result SessionError (A × List Incoming) → Outcome A
left_over s (ok (a, recv)) = (ok a, record s { recv = recv })
left_over s (err e) = (err e, s)

unfoldable pub read_output_request : M (List Text)
unfolding read_with_timeout
read_output_request s =
    left_over s (map_err reading (read_with_timeout of_output_request path_list_limits s.recv))

-- The end of the loop of `serve_output_cache`: the first message on the control stream, and the
-- tasks that are left.
abbrev pub serving_ends : World → Message → M (Unit {0})
serving_ends world output_cache_done = if world.tasks_ok then pass tt else fail task_panicked
serving_ends world (error text) = fail (cache_control_error text)
serving_ends world message = fail (cache_message message)

abbrev pub export_requested : World → List StorePath → M (Unit {0})
export_requested world [] = send done
export_requested world (p ∷ requested) = do
  send (output_cache_ready (texts (p ∷ requested)))
  message ← read_message
  serving_ends world message
  send done

-- `export_outputs` of output_cache.rs.
unfoldable pub export_outputs : World → List StorePath → M (Unit {0})
unfolding send send_all chunk_messages read_output_request read_message requested_output_paths
export_outputs world output_paths = do
  closure ← nix (world.nix.output_closure output_paths)
  send_all (chunk_messages (texts closure) output_closure)
  request ← read_output_request
  requested ← lift (map_err cache_error (requested_output_paths request closure))
  export_requested world requested

abbrev pub import_some : World → List StorePath → Option ℕ → M (Unit {0})
import_some world [] max_upload_bytes = pass tt
import_some world (p ∷ missing) max_upload_bytes = do
  phase world (codes "uploading inputs")
  import_missing_inputs world (p ∷ missing) max_upload_bytes

abbrev pub export_built : World → FinishedBuild → M (Unit {0})
export_built world finished =
    if finished.success
    then (phase world (codes "serving output cache") >> export_outputs world finished.output_paths)
    else pass tt

unfoldable pub run_queued_build : World → CheckedBuildRequest → AuthorizedConnection → M Bool
unfolding phase send_all chunk_messages import_missing_inputs run_build export_outputs
run_queued_build world build authorized = do
  phase world (codes "checking inputs")
  missing ← nix (world.nix.missing_paths build.closure_paths)
  send_all (chunk_messages (texts missing) missing_paths)
  import_some world missing authorized.max_upload_bytes
  phase world (if build.rebuild then codes "rebuilding" else codes "building")
  finished ←
      run_build world build.drv_path build.output_mode build.rebuild authorized.max_build_time
        build.output_paths
  export_built world finished
  pass finished.success
