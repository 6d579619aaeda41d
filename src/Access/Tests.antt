-- ===== src/Access/Tests.antt =====
-- crates/drv-thru/src/access.rs: two clients, the second with the key that is asked for.
use drv_thru.Base.{ℕ, ◌≡◌, refl, [], ◌∷◌, Option, none, some, ok}
use drv_thru.Text.{Text, codes}
use drv_thru.Config.Server.{TrustedClient, ServerConfig}
use drv_thru.Access.{AccessPolicy, AuthorizedClient, from_config}

abbrev client : ℕ → TrustedClient
client key = record {
  public_key = key ∷ [];
  max_build_time = none;
  max_upload_bytes = some (codes "1G");
}

-- A key is the id of its one character.
abbrev parse_id : Text → Option ℕ
parse_id [] = none
parse_id (c ∷ t) = some c

abbrev config : ServerConfig
config = record {
  data_dir = codes "/var/lib/drv-thru";
  secret_key_file = none;
  max_concurrent_builds = 1;
  output_cache_max_parallel_fills = none;
  recent_builds_limit = 20;
  trusted_clients = (codes "desk", client 3) ∷ (codes "lap", client 4) ∷ [];
}

abbrev policy : AccessPolicy
policy =
    record { name = some (codes "desk"); endpoint_id = 3; policy = client 3 }
    ∷ record { name = some (codes "lap"); endpoint_id = 4; policy = client 4 }
    ∷ []

configured : from_config parse_id config ≡ ok policy
unfolding from_config
configured = refl

abbrev lap : AuthorizedClient
lap = record { name = some (codes "lap"); policy = client 4 }
