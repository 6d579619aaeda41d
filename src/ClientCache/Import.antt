-- ===== src/ClientCache/Import.antt =====
-- crates/drv-thru/src/client_cache/mod.rs: the choice between a direct import and the helper, and the
-- import of outputs over the mirror and the local server.
pub mod Setup
pub mod Method
pub mod Outputs
use drv_thru.Base.{
  ℕ, Bool, true, false, not, ◌||◌, List, [], ◌∷◌, ◌++◌, Option, none, some, Result, ok, err, ◌>>=◌,
  ◌>>◌, bail_if, map_err, try_map, any, length, if◌then◌else◌,
}
use drv_thru.Text.{Text, codes, starts_with}
use drv_thru.Nix.StorePath.{StorePath, PathError, new, texts}
use drv_thru.Nix.Queries.{Programs, NixError}
use drv_thru.Nix.Trust.{
  SignedCacheImportTrust, signed_cache_import_trust, copy_from_signed_binary_cache,
}
use drv_thru.ImportHelper.{
  ImportRequest, ImportResponse, ClientError, SocketFile, HelperSocketStatus, available, missing,
  not_socket, unreachable, helper_socket_status, import_paths,
}
use drv_thru.ClientCache.Mirror.{MirrorError, MirrorWorld, Mirrored, CacheProgress}
use drv_thru.ClientCache.Mirror.Tasks.{
  Outcome, running, ended, build, FetchesError, parallel_nar_fetches,
}
use Setup.{output_import_setup_error}

pub data OutputImportMethod : Type 0 where
  direct : SignedCacheImportTrust → OutputImportMethod
  helper : OutputImportMethod

unfoldable pub choose_output_import_method :
    Result Text SignedCacheImportTrust → HelperSocketStatus → Result Text OutputImportMethod
unfolding output_import_setup_error
choose_output_import_method (ok trust) status = ok (direct trust)
choose_output_import_method (err text) available = ok helper
choose_output_import_method (err text) missing = err (output_import_setup_error text missing)
choose_output_import_method (err text) not_socket = err (output_import_setup_error text not_socket)
choose_output_import_method (err text) (unreachable why) =
    err (output_import_setup_error text (unreachable why))

-- The errors of the import. `still_running` is no error of the code: it stands for a mirror that has
-- not ended. A bridge error is the row of its messages, the outermost first.
pub data OutputImportError : Type 0 where
  bad_path : PathError → OutputImportError
  no_setup : Text → OutputImportError
  bad_fetches : FetchesError → OutputImportError
  mirror_failed : MirrorError → OutputImportError
  not_started still_running : OutputImportError
  nix_failed : NixError → OutputImportError
  helper_refused : ClientError → OutputImportError
  bridge_failed : List Text → OutputImportError
  in_context : Text → OutputImportError → OutputImportError

-- What the import meets: the programs, the file at the path of the socket, the builder and the
-- directory of the mirror with the order of its tasks, the number of fetches in the environment and
-- of the machine, and how the local server, the helper and the clean-up behave.
pub record ImportWorld : Type 0 where
  pub run : Programs
  pub show : NixError → Text
  pub socket_file : SocketFile
  pub mirror : MirrorWorld
  pub dir : Text
  pub pick : ℕ → ℕ
  pub fetches_variable : Option Text
  pub parallelism : Option ℕ
  pub local_url : Option Text
  pub connected : Bool
  pub sent : Bool
  pub response : Option ImportResponse
  pub shutdown : Result (List Text) (Unit {0})
  pub cleanup : Result (List Text) (Unit {0})
  pub bytes : ℕ

unfoldable pub output_import_method :
    ImportWorld → Text → Result OutputImportError OutputImportMethod
unfolding signed_cache_import_trust choose_output_import_method helper_socket_status
output_import_method world public_key = map_err no_setup (
    choose_output_import_method
      (map_err world.show (signed_cache_import_trust world.run public_key))
      (helper_socket_status world.socket_file))

-- Whether the import may go on, asked before the build.
unfoldable pub preflight_output_import : ImportWorld → Text → Result OutputImportError (Unit {0})
unfolding output_import_method
preflight_output_import world public_key = do method ← output_import_method world public_key; ok tt

-- The request that the helper gets.
abbrev pub helper_request : Text → Text → List StorePath → ImportRequest
helper_request public_key url paths = record {
  builder_public_key = public_key;
  cache_url = url;
  paths = texts paths;
}

abbrev pub copy_result :
    ImportWorld
    → Text
    → Text
    → List StorePath
    → OutputImportMethod
    → Result OutputImportError (Unit {0})
copy_result world public_key url paths (direct trust) =
    map_err nix_failed
      ((copy_from_signed_binary_cache world.run world.show url public_key trust paths).1)
copy_result world public_key url paths helper =
    map_err helper_refused
      (import_paths world.connected world.sent world.response (helper_request public_key url paths))

unfoldable pub cache_bridge_status_error : List Text → Bool
unfolding starts_with
cache_bridge_status_error messages =
    any
      (λ message.
        starts_with (codes "cache bridge returned 404") message
        || starts_with (codes "cache bridge returned 502") message)
      messages

-- `to_string` of an error: its outermost message.
abbrev pub outermost : List Text → Text
outermost [] = []
outermost (message ∷ messages) = message

-- `server_result.and(mirror_result)`.
abbrev pub and_also :
    Result (List Text) (Unit {0}) → Result (List Text) (Unit {0}) → Result (List Text) (Unit {0})
and_also (err e) second = err e
and_also (ok tt) second = second

-- The last `match` of `import_outputs_from_cache`.
unfoldable pub conclude :
    ℕ
    → Result OutputImportError (Unit {0})
    → Result (List Text) (Unit {0})
    → Result OutputImportError ℕ
unfolding cache_bridge_status_error
conclude bytes (ok done) (ok closed) = ok bytes
conclude bytes (err e) (ok closed) = err e
conclude bytes (ok done) (err bridge) = err (bridge_failed bridge)
conclude bytes (err e) (err bridge) =
    if cache_bridge_status_error bridge then err (in_context (outermost bridge) e) else err e

abbrev pub mirror_of : Outcome Mirrored → Result OutputImportError Mirrored
mirror_of running = err still_running
mirror_of (ended (err e)) = err (mirror_failed e)
mirror_of (ended (ok m)) = ok m

abbrev pub started : Option Text → Result OutputImportError Text
started none = err not_started
started (some url) = ok url

abbrev pub store_paths : List Text → Result OutputImportError (List StorePath)
store_paths paths = map_err bad_path (try_map new paths)

unfoldable pub new_progress : ℕ → ℕ → ℕ → CacheProgress
new_progress metadata_total payload_total nar_fetches = record {
  metadata_seen = [];
  payload_seen = [];
  metadata_total = metadata_total;
  payload_total = payload_total;
  nar_fetches = nar_fetches;
}

unfoldable pub import_outputs_from_cache :
    ImportWorld → List Text → Text → List Text → Option ℕ → Result OutputImportError ℕ
unfolding new output_import_method parallel_nar_fetches build new_progress conclude
    copy_from_signed_binary_cache import_paths
import_outputs_from_cache world cache_paths public_key output_closure nar_fetches = do
  copy_paths ← store_paths cache_paths
  closure_paths ← store_paths output_closure
  method ← output_import_method world public_key
  fetches ←
      map_err bad_fetches
        (parallel_nar_fetches nar_fetches world.fetches_variable world.parallelism)
  m ← mirror_of (
      build world.mirror world.dir world.pick closure_paths copy_paths
        (new_progress (length closure_paths) (length copy_paths) fetches))
  url ← started world.local_url
  conclude world.bytes (copy_result world public_key url copy_paths method)
      (and_also world.shutdown world.cleanup)
