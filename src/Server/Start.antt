-- ===== src/Server/Start.antt =====
-- crates/drv-thru/src/server/mod.rs: the settings that a server starts with.
use drv_thru.Base.{ℕ, List, Option, none, some, Result, ok, ◌>>=◌, map_err, min, max}
use drv_thru.Text.{Text}
use drv_thru.Access.{AccessPolicy, from_config, from_endpoint_ids}
use drv_thru.Config.Server.{
  ServerConfig, LoadError, load_server_config, default_max_concurrent_builds,
  default_recent_builds_limit, max_auto_cache_fills,
}

-- A configuration file is its text, if it can be read.
pub data ServeMode : Type 0 where
  data_dir : Text → List ℕ → ServeMode
  config : Option Text → ServeMode

pub record ResolvedServeMode : Type 0 where
  pub data_dir : Text
  pub secret_key_file : Option Text
  pub access_policy : AccessPolicy
  pub max_concurrent_builds : ℕ
  pub output_cache_max_parallel_fills : Option ℕ
  pub recent_builds_limit : ℕ

pub data StartError : Type 0 where
  bad_config : LoadError → StartError
  bad_public_key : Text → StartError

-- iroh's display and parser of an endpoint id and serde's parser of a configuration are parameters.
module _ (display_id : ℕ → Text) (parse_id : Text → Option ℕ)
    (parse : Text → Option ServerConfig) where
  unfoldable pub resolve_serve_mode : ServeMode → Result StartError ResolvedServeMode
  unfolding load_server_config from_config from_endpoint_ids
  resolve_serve_mode (data_dir dir trusted_clients) = ok (record {
    data_dir = dir;
    secret_key_file = none;
    access_policy = from_endpoint_ids display_id trusted_clients;
    max_concurrent_builds = default_max_concurrent_builds;
    output_cache_max_parallel_fills = none;
    recent_builds_limit = default_recent_builds_limit;
  })
  resolve_serve_mode (config file) = do
    c ← map_err bad_config (load_server_config parse file)
    access_policy ← map_err bad_public_key (from_config parse_id c)
    ok (record {
      data_dir = c.data_dir;
      secret_key_file = c.secret_key_file;
      access_policy = access_policy;
      max_concurrent_builds = c.max_concurrent_builds;
      output_cache_max_parallel_fills = c.output_cache_max_parallel_fills;
      recent_builds_limit = c.recent_builds_limit;
    })

-- `available_parallelism` is a parameter, `none` where it fails.
abbrev parallelism : Option ℕ → ℕ
parallelism none = 4
parallelism (some n) = n

unfoldable pub default_output_cache_max_parallel_fills : Option ℕ → ℕ
default_output_cache_max_parallel_fills available =
    min max_auto_cache_fills (max 1 (parallelism available))
