-- ===== src/Client/Build.antt =====
-- crates/drv-thru/src/client/session.rs: `build`, from the evaluation of the installable to the end of
-- the session, with what it writes to the server.
pub mod Writes
pub mod Asked
pub mod Imported
mod Tests
use drv_thru.Base.{
  ℕ, Bool, true, false, not, ◌&&◌, List, [], ◌∷◌, ◌++◌, Option, none, some, Result, ok, err, ◌>>=◌,
  ◌>>◌, bail_if, context, map_err, if◌then◌else◌,
}
use drv_thru.Text.{Text}
use drv_thru.Nix.StorePath.{StorePath, texts}
use drv_thru.Nix.Queries.{
  Programs, NixError, EvalOptions, BuildPlan, resolve_outputs, resolve_derivation, query_closure,
}
use drv_thru.Protocol.{OutputMode, Message}
use drv_thru.Protocol.Wire.{Bytes}
use drv_thru.Protocol.PathChunks.{Incoming, Sent, send_row}
use drv_thru.ClientCache.Import.{OutputImportError, ImportWorld, preflight_output_import}
use drv_thru.Client.{
  BuildAuth, PreparedBuild, RemoteBuildResult, ClientError, nix_failed, remote_build_failed,
  write_failed, ClientWorld, write_hello, write_auth, send_build_request, local_outputs_present,
  read_auth_ok, run_remote_build,
}

pub data BuildError : Type 0 where
  no_auth not_connected : BuildError
  no_import : OutputImportError → BuildError
  in_session : ClientError → BuildError

-- The arguments of a build.
pub record BuildArgs : Type 0 where
  pub installable : Text
  pub auth : Option BuildAuth
  pub output_mode : OutputMode
  pub options : EvalOptions
  pub rebuild : Bool

-- What a build meets: Nix with the parser of build plans, its own endpoint id, what the server's
-- stream brings if the endpoint connects, whether the stream takes the writes before the build, the
-- encoder of messages, and what an import of outputs meets; and the rest of the session, before a key
-- is known and with it.
pub record BuildWorld : Type 0 where
  pub run : Programs
  pub parse_plan : Text → Option BuildPlan
  pub node_id : Text
  pub opened : Option (List Incoming)
  pub hello_ok : Bool
  pub request_ok : Bool
  pub encode : Message → Option Bytes
  pub cache : ImportWorld
  pub client : Option Text → ClientWorld

-- The outputs were there, or were built and imported.
pub data BuildEnd : Type 0 where
  local_outputs : List Text → BuildEnd
  remote : RemoteBuildResult → BuildEnd

-- What was written, and how the build ended.
abbrev pub Written : Type 0
Written = List Message × Result BuildError BuildEnd

abbrev pub fails : BuildError → Written
fails e = ([], err e)

-- A step that writes nothing: the build goes on with what it gives.
abbrev pub with_step : {A : Type 0} → Result BuildError A → (A → Written) → Written
with_step (err e) next = fails e
with_step (ok a) next = next a

-- Messages with their frames, if the stream takes them.
abbrev pub writes : Bool → Sent → Written → Written
writes flows sent next =
    if flows && sent.1 then (sent.0 ++ next.0, next.1) else (sent.0, err (in_session write_failed))

unfoldable pub prepare_build : BuildWorld → BuildArgs → Result ClientError PreparedBuild
unfolding resolve_derivation query_closure
prepare_build world args = do
  drv_path ← map_err nix_failed (resolve_derivation world.run args.installable args.options)
  closure_paths ← map_err nix_failed (query_closure world.run (drv_path ∷ []))
  ok (record { drv_path = drv_path; closure_path_strings = texts closure_paths })

-- The result of the remote build; the session is closed in either case.
abbrev pub finish_build : RemoteBuildResult → Result BuildError BuildEnd
finish_build result =
    if result.build_success then ok (remote result) else err (in_session remote_build_failed)

abbrev pub remote_result : BuildWorld → Text → List Incoming → Result BuildError BuildEnd
remote_result world key recv =
    map_err in_session (run_remote_build (world.client (some key)) recv) >>= finish_build

-- From the checked trust to the end.
abbrev pub request_build : BuildWorld → BuildArgs → List StorePath → Text → List Incoming → Written
request_build world args requested key recv =
    with_step (map_err in_session (prepare_build world args)) λ prepared.
      writes world.request_ok
        (send_build_request world.encode args.installable (texts requested) prepared
          args.output_mode args.rebuild)
        ([], remote_result world key recv)

-- From the answer of the server to the authorisation.
abbrev pub after_auth : BuildWorld → BuildArgs → List StorePath → List Incoming → Written
after_auth world args requested recv = with_step (map_err in_session (read_auth_ok recv)) λ answer.
    with_step (map_err no_import (preflight_output_import world.cache answer.0))
      λ trusted. request_build world args requested answer.0 answer.1

-- `ConnectedSession::open` and the rest, for outputs that are not there.
abbrev pub build_remotely : BuildWorld → BuildArgs → List StorePath → Written
build_remotely world args requested = with_step (context args.auth no_auth) λ auth.
    with_step (context world.opened not_connected) λ recv.
      writes world.hello_ok
        (send_row world.encode (write_hello world.node_id ∷ write_auth auth ∷ []))
        (after_auth world args requested recv)

abbrev pub build_outputs : BuildWorld → BuildArgs → List StorePath → Written
build_outputs world args requested =
    with_step
      (map_err in_session (local_outputs_present (world.client none) requested args.rebuild))
      λ present.
        if present
        then ([], ok (local_outputs (texts requested)))
        else build_remotely world args requested

unfoldable pub build : BuildWorld → BuildArgs → Written
unfolding resolve_outputs local_outputs_present prepare_build read_auth_ok send_build_request
    run_remote_build send_row preflight_output_import
build world args =
    with_step
      (map_err (λ e. in_session (nix_failed e))
        (resolve_outputs world.run world.parse_plan args.installable args.options))
      (build_outputs world args)
