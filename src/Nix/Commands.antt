-- ===== src/Nix/Commands.antt =====
-- crates/drv-thru/src/nix.rs: the interface of the Nix commands that a server's session calls. A
-- failed command gives the text of its error.
use drv_thru.Base.{ℕ, Bool, List, Option, Result}
use drv_thru.Text.{Text}
use drv_thru.Nix.StorePath.{StorePath}
use drv_thru.Protocol.{OutputMode}

-- `RealiseResult`.
pub record RealiseResult : Type 0 where
  pub success : Bool
  pub output_paths : List StorePath

-- A call of `realise`: the lines of the log, each with the second it comes in, the second the
-- call ends in, and its result.
pub record Realising : Type 0 where
  pub lines : List (ℕ × Text)
  pub ends_at : ℕ
  pub result : Result Text RealiseResult

-- `missing_paths` before an upload and after it, `import_unsigned_export_stream`, `realise` and
-- `output_closure`, as one session meets them.
pub record NixCommands : Type 0 where
  pub missing_paths : List StorePath → Result Text (List StorePath)
  pub missing_after : List StorePath → Result Text (List StorePath)
  pub import_stream : Option ℕ → Result Text (Unit {0})
  pub realise : StorePath → OutputMode → Bool → Realising
  pub output_closure : List StorePath → Result Text (List StorePath)
