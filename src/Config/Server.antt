-- ===== src/Config/Server.antt =====
-- crates/drv-thru/src/config.rs: the server's configuration. The file is read and parsed outside:
-- `serde_json` is a parameter.
use drv_thru.Base.{
  ℕ, Bool, false, List, Option, none, some, Result, ok, ◌>>=◌, ◌>>◌, bail_if, context, ◌==◌,
}
use drv_thru.Text.{Text, codes}

abbrev pub default_max_build_time : Text
default_max_build_time = codes "30m"

abbrev pub default_max_upload_bytes : Text
default_max_upload_bytes = codes "20G"

abbrev pub default_max_concurrent_builds : ℕ
default_max_concurrent_builds = 1

abbrev pub default_recent_builds_limit : ℕ
default_recent_builds_limit = 20

abbrev pub max_auto_cache_fills : ℕ
max_auto_cache_fills = 16

pub record TrustedClient : Type 0 where
  pub public_key : Text
  pub max_build_time : Option Text
  pub max_upload_bytes : Option Text

pub record ServerConfig : Type 0 where
  pub data_dir : Text
  pub secret_key_file : Option Text
  pub max_concurrent_builds : ℕ
  pub output_cache_max_parallel_fills : Option ℕ
  pub recent_builds_limit : ℕ
  pub trusted_clients : List (Text × TrustedClient)

pub data LoadError : Type 0 where
  unreadable unparsable no_concurrent_builds no_parallel_fills no_recent_builds : LoadError

abbrev pub is_some_zero : Option ℕ → Bool
is_some_zero none = false
is_some_zero (some n) = n == 0

-- `load_server_config`, on the text of the file if it can be read.
unfoldable pub load_server_config :
    (Text → Option ServerConfig) → Option Text → Result LoadError ServerConfig
load_server_config parse file = do
  text ← context file unreadable
  config ← context (parse text) unparsable
  bail_if (config.max_concurrent_builds == 0) no_concurrent_builds
  bail_if (is_some_zero config.output_cache_max_parallel_fills) no_parallel_fills
  bail_if (config.recent_builds_limit == 0) no_recent_builds
  ok config
