-- ===== src/Protocol/Messages.antt =====
-- The messages of crates/drv-thru/src/protocol/messages.rs. A 32-byte secret is the number that its
-- bytes make.
use drv_thru.Base.{ℕ, Bool, List, Option}
use drv_thru.Text.{Text}

abbrev pub version : ℕ
version = 5

pub data OutputMode : Type 0 where
  nom plain : OutputMode

pub record Hello : Type 0 where
  pub version : ℕ
  pub node_id : Text

pub record AuthOk : Type 0 where
  pub client_name : Option Text
  pub builder_public_key : Text

pub record BuildRequest : Type 0 where
  pub installable : Text
  pub drv_path : Text
  pub output_paths : List Text
  pub output_mode : OutputMode
  pub rebuild : Bool

pub record PathListChunk : Type 0 where
  pub paths : List Text
  pub done : Bool

pub record BuildFinished : Type 0 where
  pub success : Bool
  pub output_paths : List Text

pub record CacheFileRequest : Type 0 where
  pub path : Text
  pub send_body : Bool

pub record CacheFileResponse : Type 0 where
  pub found : Bool
  pub byte_count : ℕ

pub data Message : Type 0 where
  hello : Hello → Message
  auth_trusted_client : Message
  auth_ticket : ℕ → Message
  auth_ok : AuthOk → Message
  build_request : BuildRequest → Message
  build_paths : PathListChunk → Message
  build_queued : Message
  missing_paths : PathListChunk → Message
  input_upload_ready : Message
  build_started : Message
  nix_log : Text → Message
  build_finished : BuildFinished → Message
  output_closure : PathListChunk → Message
  output_request : PathListChunk → Message
  output_cache_ready : List Text → Message
  output_cache_done : Message
  cache_file_request : CacheFileRequest → Message
  cache_file_response : CacheFileResponse → Message
  done : Message
  error : Text → Message
