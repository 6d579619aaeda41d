-- ===== src/Nix/Queries/Evaluation.antt =====
-- crates/drv-thru/src/nix.rs: runs of programs, and the evaluation of what is asked for.
use drv_thru.Base.{
  ℕ, Bool, true, false, not, List, [], ◌∷◌, ◌++◌, Option, Result, err, ◌>>=◌, ◌>>◌, bail_if,
  context, map_err, try_map, length, map, if◌then◌else◌,
}
use drv_thru.Text.{Text, codes, is_empty, trim, lines}
use drv_thru.Nix.StorePath.{StorePath, PathError, new}

abbrev pub path_arg_chunk_size : ℕ
path_arg_chunk_size = 512

-- `Output`: the text is `none` where the bytes are no UTF-8.
pub record Output : Type 0 where
  pub success : Bool
  pub stdout : Option Text
  pub stderr : Text

-- What a program does with its arguments; `none` if it cannot be run.
abbrev pub Programs : Type 0
Programs = Text → List Text → Option Output

pub data NixError : Type 0 where
  not_run not_utf8 no_derivation bad_plan empty_key empty_user rejected upload_broken : NixError
  failed cache_rejected : Text → NixError
  plan_entries exceeded : ℕ → NixError
  bad_path : PathError → NixError

-- `run_command`, after `command_output`.
unfoldable pub run_command : Programs → Text → List Text → Result NixError Text
run_command run program args = do
  output ← context (run program args) not_run
  bail_if (not output.success) (failed output.stderr)
  context output.stdout not_utf8

-- `lines().filter_map(non_empty_line)`.
unfoldable pub non_empty_lines : List Text → List Text
unfolding trim
non_empty_lines [] = []
non_empty_lines (line ∷ rest) =
    let others = non_empty_lines rest in if is_empty (trim line) then others else trim line ∷ others

unfoldable pub output_lines : Text → List Text
unfolding non_empty_lines lines
output_lines output = non_empty_lines (lines output)

abbrev pub store_path : Text → Result NixError StorePath
store_path text = map_err bad_path (new text)

pub record OverrideInput : Type 0 where
  pub input_path : Text
  pub flake_url : Text

pub record EvalOptions : Type 0 where
  pub impure : Bool
  pub refresh : Bool
  pub override_inputs : List OverrideInput

abbrev pub flag : Bool → Text → List Text
flag true name = name ∷ []
flag false name = []

abbrev pub override_args : List OverrideInput → List Text
override_args [] = []
override_args (input ∷ inputs) =
    codes "--override-input" ∷ input.input_path ∷ input.flake_url ∷ override_args inputs

unfoldable pub eval_args : List Text → Text → EvalOptions → List Text
eval_args base installable options =
    base
    ++ flag options.impure (codes "--impure")
    ++ flag options.refresh (codes "--refresh")
    ++ override_args options.override_inputs
    ++ (installable ∷ [])

abbrev pub first_path : List Text → Result NixError StorePath
first_path [] = err no_derivation
first_path (line ∷ rest) = store_path line

unfoldable pub resolve_derivation : Programs → Text → EvalOptions → Result NixError StorePath
unfolding run_command eval_args output_lines new
resolve_derivation run installable options = do
  output ←
      run_command run (codes "nix")
        (eval_args (codes "path-info" ∷ codes "--derivation" ∷ []) installable options)
  first_path (output_lines output)

-- A build plan as `serde_json` parses it: for each entry its outputs, in the order of their names.
abbrev pub BuildPlan : Type 0
BuildPlan = List (List (Text × Text))

abbrev pub plan_outputs : BuildPlan → Result NixError (List StorePath)
plan_outputs [] = err (plan_entries 0)
plan_outputs (outputs ∷ []) = try_map store_path (map (λ o. o.1) outputs)
plan_outputs (entry ∷ other ∷ rest) = err (plan_entries (length (entry ∷ other ∷ rest)))

unfoldable pub parse_build_plan_outputs :
    (Text → Option BuildPlan) → Text → Result NixError (List StorePath)
unfolding new
parse_build_plan_outputs parse output = do plan ← context (parse output) bad_plan; plan_outputs plan

unfoldable pub resolve_outputs :
    Programs → (Text → Option BuildPlan) → Text → EvalOptions → Result NixError (List StorePath)
unfolding run_command eval_args parse_build_plan_outputs
resolve_outputs run parse installable options = do
  output ←
      run_command run (codes "nix")
        (eval_args (codes "build" ∷ codes "--dry-run" ∷ codes "--json" ∷ []) installable options)
  parse_build_plan_outputs parse output
