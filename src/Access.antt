-- ===== src/Access.antt =====
-- crates/drv-thru/src/access.rs: which clients the server trusts without a ticket. `parse_id` is
-- iroh's parser of an endpoint id, `display_id` its display.
pub mod Laws
mod Tests
use drv_thru.Base.{
  ℕ, List, [], ◌∷◌, Option, none, some, Result, ok, err, ◌>>=◌, context, map, ◌==◌, if◌then◌else◌,
  try_map,
}
use drv_thru.Text.{Text}
use drv_thru.Config.Server.{
  TrustedClient, ServerConfig, default_max_build_time, default_max_upload_bytes,
}

pub record TrustedEndpoint : Type 0 where
  pub name : Option Text
  pub endpoint_id : ℕ
  pub policy : TrustedClient

pub record AuthorizedClient : Type 0 where
  pub name : Option Text
  pub policy : TrustedClient

-- The field `trusted_clients`.
abbrev pub AccessPolicy : Type 0
AccessPolicy = List TrustedEndpoint

-- The error names the client.
pub trusted_endpoint : (Text → Option ℕ) → Text × TrustedClient → Result Text TrustedEndpoint
trusted_endpoint parse_id (name, client) = do
  endpoint_id ← context (parse_id client.public_key) name
  ok (record { name = some name; endpoint_id = endpoint_id; policy = client })

unfoldable pub from_config : (Text → Option ℕ) → ServerConfig → Result Text AccessPolicy
unfolding trusted_endpoint
from_config parse_id config = try_map (trusted_endpoint parse_id) config.trusted_clients

abbrev pub default_endpoint : (ℕ → Text) → ℕ → TrustedEndpoint
default_endpoint display_id endpoint_id = record {
  name = none;
  endpoint_id = endpoint_id;
  policy = record {
    public_key = display_id endpoint_id;
    max_build_time = some default_max_build_time;
    max_upload_bytes = some default_max_upload_bytes;
  };
}

unfoldable pub from_endpoint_ids : (ℕ → Text) → List ℕ → AccessPolicy
from_endpoint_ids display_id endpoint_ids = map (default_endpoint display_id) endpoint_ids

abbrev pub authorized_client : TrustedEndpoint → AuthorizedClient
authorized_client e = record { name = e.name; policy = e.policy }

-- `find` and `map`: the first endpoint with the id.
unfoldable pub authorize : AccessPolicy → ℕ → Option AuthorizedClient
authorize [] remote = none
authorize (e ∷ policy) remote =
    let rest = authorize policy remote in
    if e.endpoint_id == remote then some (authorized_client e) else rest
