-- ===== src/Nix/Queries.antt =====
-- crates/drv-thru/src/nix.rs: the calls of Nix. What a program prints is a parameter.
mod Evaluation
pub mod Missing
pub mod Closure
pub mod Uploads
mod Tests
unfoldable pub use Evaluation.*
use drv_thru.Base.{
  ℕ, ◌+◌, ◌^◌, Bool, true, false, not, ◌||◌, List, [], ◌∷◌, ◌++◌, Option, none, some, Result, ok,
  err, ◌>>=◌, ◌>>◌, bail_if, context, map_err, try_map, ltb, ◌==◌, keep, any, min, length, map, ◌-◌,
  if◌then◌else◌,
}
use drv_thru.Text.{
  Text, codes, is_empty, text_eq, trim, lines, split_whitespace, split_once, contains,
  to_ascii_lowercase,
}
use drv_thru.TextMap.{member}
use drv_thru.Nix.StorePath.{StorePath, PathError, new, texts}
use drv_thru.Nix.Commands.{NixCommands, Realising, RealiseResult}
use drv_thru.Protocol.{OutputMode}
use drv_thru.Protocol.PathChunks.Chunks.{chunks}

-- The paths that `nix-store` prints for one chunk.
unfoldable pub missing_chunk : Programs → List StorePath → Result NixError (List StorePath)
unfolding run_command output_lines new
missing_chunk run chunk = do
  output ←
      run_command run (codes "nix-store")
        (codes "--check-validity" ∷ codes "--print-invalid" ∷ texts chunk)
  try_map store_path (output_lines output)

-- The loop over the chunks, with the set of what is missing.
unfoldable pub missing_loop :
    Programs → List Text → List (List StorePath) → Result NixError (List Text)
unfolding missing_chunk
missing_loop run missing [] = ok missing
missing_loop run missing (chunk ∷ rest) =
    missing_chunk run chunk >>= λ found. missing_loop run (missing ++ texts found) rest

unfoldable pub missing_paths : Programs → List StorePath → Result NixError (List StorePath)
unfolding missing_loop chunks member
missing_paths run [] = ok []
missing_paths run (p ∷ paths) = do
  missing ← missing_loop run [] (chunks path_arg_chunk_size (p ∷ paths))
  ok (keep (λ path. member path.text missing) (p ∷ paths))

-- The loop of `query_closure` over the lines: `seen` holds the texts of the closure so far.
unfoldable pub closure_loop : List Text → List Text → Result NixError (List StorePath)
unfolding new member
closure_loop seen [] = ok []
closure_loop seen (line ∷ rest) = store_path line >>= λ path.
    if member path.text seen
    then closure_loop seen rest
    else (closure_loop (path.text ∷ seen) rest >>= λ closure. ok (path ∷ closure))

-- `query_closure`, which `closure` and `output_closure` call.
unfoldable pub query_closure : Programs → List StorePath → Result NixError (List StorePath)
unfolding run_command output_lines closure_loop
query_closure run [] = ok []
query_closure run (p ∷ paths) = do
  output ← run_command run (codes "nix-store") (codes "-qR" ∷ texts (p ∷ paths))
  closure_loop [] (output_lines output)

unfoldable pub query_outputs : Programs → StorePath → Result NixError (List StorePath)
unfolding run_command output_lines new
query_outputs run path = do
  output ← run_command run (codes "nix-store") (codes "-q" ∷ codes "--outputs" ∷ path.text ∷ [])
  try_map store_path (output_lines output)

abbrev pub log_format : OutputMode → List Text
log_format OutputMode.nom = codes "--log-format" ∷ codes "internal-json" ∷ codes "-v" ∷ []
log_format OutputMode.plain = codes "--log-format" ∷ codes "raw" ∷ codes "-v" ∷ []

unfoldable pub realise_args : OutputMode → Bool → List Text
realise_args output_mode rebuild =
    (codes "--realise" ∷ []) ++ flag rebuild (codes "--check") ++ log_format output_mode

-- A run of `nix-store --realise`: its lines, the second it ends in, and its exit status.
pub record Process : Type 0 where
  pub lines : List (ℕ × Text)
  pub ends_at : ℕ
  pub status : Bool

abbrev pub realised_outputs : Programs → StorePath → Bool → Result NixError RealiseResult
realised_outputs run path false = ok (record { success = false; output_paths = [] })
realised_outputs run path true = do
  outputs ← query_outputs run path
  ok (record { success = true; output_paths = outputs })

-- `realise`, for the process that its arguments start.
unfoldable pub realise :
    Programs → (NixError → Text) → (List Text → Process) → StorePath → OutputMode → Bool → Realising
unfolding query_outputs realise_args
realise run show start path output_mode rebuild =
    let process = start (realise_args output_mode rebuild ++ (path.text ∷ [])) in
    record {
      lines = process.lines;
      ends_at = process.ends_at;
      result = map_err show (realised_outputs run path process.status);
    }

-- An upload: the bytes that the client sends, whether the stream breaks behind them, and whether
-- `nix-store --import` succeeds on what it gets.
pub record Upload : Type 0 where
  pub bytes : ℕ
  pub broken : Bool
  pub imports : Bool

-- What `take` lets through, and whether the copy meets the break.
abbrev pub copied_bytes : Option ℕ → Upload → ℕ
copied_bytes none upload = upload.bytes
copied_bytes (some limit) upload = min upload.bytes (min (limit + 1) (2 ^ 64 - 1))

abbrev pub meets_break : Option ℕ → Upload → Bool
meets_break none upload = upload.broken
meets_break (some limit) upload =
    if ltb upload.bytes (min (limit + 1) (2 ^ 64 - 1)) then upload.broken else false

abbrev pub exceeds : Option ℕ → ℕ → Bool
exceeds none copied = false
exceeds (some limit) copied = ltb limit copied

unfoldable pub import_unsigned_export_stream : Upload → Option ℕ → Result NixError ℕ
import_unsigned_export_stream upload max_bytes = do
  let copied = copied_bytes max_bytes upload
  bail_if (meets_break max_bytes upload) upload_broken
  bail_if (exceeds max_bytes copied) (exceeded copied)
  bail_if (not upload.imports) (failed [])
  ok copied

abbrev pub forget : Result NixError ℕ → Result NixError (Unit {0})
forget (ok n) = ok tt
forget (err e) = err e

-- The interface that the server's session calls, on the programs before the upload and after it.
unfoldable pub nix_commands :
    Programs → Programs → (NixError → Text) → (List Text → Process) → Upload → NixCommands
unfolding missing_paths import_unsigned_export_stream realise query_closure
nix_commands before after show start upload = record {
  missing_paths = λ paths. map_err show (missing_paths before paths);
  missing_after = λ paths. map_err show (missing_paths after paths);
  import_stream = λ limit. map_err show (forget (import_unsigned_export_stream upload limit));
  realise = λ path mode rebuild. realise after show start path mode rebuild;
  output_closure = λ paths. map_err show (query_closure after paths);
}
