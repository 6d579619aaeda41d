-- ===== src/Server/Build/Requests.antt =====
-- crates/drv-thru/src/server/build.rs: the check of a build request and the choice of the outputs.
pub mod Laws
use drv_thru.Base.{
  Bool, true, false, not, List, [], ◌∷◌, ◌++◌, Result, ok, err, ◌>>=◌, ◌>>◌, bail_if, any, map_err,
  try_map, if◌then◌else◌,
}
use drv_thru.Text.{Text, is_empty, text_eq}
use drv_thru.TextMap.{member}
use drv_thru.Nix.StorePath.{texts, StorePath, new}
use drv_thru.Protocol.{OutputMode, BuildRequest}
use drv_thru.Server.Session.{SessionError, path_error, no_output_paths, not_realised}

pub record CheckedBuildRequest : Type 0 where
  pub installable : Text
  pub drv_path : StorePath
  pub output_mode : OutputMode
  pub rebuild : Bool
  pub closure_paths : List StorePath
  pub output_paths : List StorePath

abbrev pub new_path : Text → Result SessionError StorePath
new_path text = map_err path_error (new text)

abbrev pub is_none : List StorePath → Bool
is_none [] = true
is_none (p ∷ paths) = false

-- The derivation joins the closure if it is not there.
abbrev pub with_drv : StorePath → List StorePath → List StorePath
with_drv drv_path closure =
    if any (λ p. text_eq p.text drv_path.text) closure then closure else closure ++ (drv_path ∷ [])

unfoldable pub check_build_request :
    BuildRequest → List Text → Result SessionError CheckedBuildRequest
unfolding new text_eq
check_build_request request closure = do
  drv_path ← new_path request.drv_path
  output_paths ← try_map new_path request.output_paths
  bail_if (is_none output_paths) no_output_paths
  closure_paths ← try_map new_path closure
  ok (record {
    installable = request.installable;
    drv_path = drv_path;
    output_mode = request.output_mode;
    rebuild = request.rebuild;
    closure_paths = with_drv drv_path closure_paths;
    output_paths = output_paths;
  })

-- The loop over the requested outputs.
pub select_from : List Text → List StorePath → Result SessionError (List StorePath)
unfolding member
select_from realised [] = ok []
select_from realised (p ∷ requested) = do
  bail_if (not (member p.text realised)) (not_realised p.text)
  selected ← select_from realised requested
  ok (p ∷ selected)

unfoldable pub selected_outputs :
    List StorePath → List StorePath → Result SessionError (List StorePath)
unfolding select_from
selected_outputs requested all_outputs = select_from (texts all_outputs) requested
