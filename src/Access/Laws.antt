-- ===== src/Access/Laws.antt =====
-- crates/drv-thru/src/access.rs: whom a policy authorises.
use drv_thru.Base.{
  ℕ, ◌≡◌, ◌↔◌, ◌≢◌, List, [], ◌∷◌, Option, some, ok, arith, context, >>=-eq-ok, try_map, ◌⊎◌,
}
use drv_thru.Text.{Text}
use drv_thru.Config.Server.{TrustedClient, ServerConfig}
use drv_thru.Access.{AccessPolicy, AuthorizedClient, trusted_endpoint, from_config, authorize}

-- The client is the first of the configured ones, in the order of their names, whose key parses
-- to the id.
abbrev pub FirstWithKey :
    (Text → Option ℕ) → ℕ → List (Text × TrustedClient) → AuthorizedClient → Type 0
FirstWithKey parse_id remote [] c = ⊥
FirstWithKey parse_id remote ((name, client) ∷ rest) c =
    ((parse_id client.public_key ≡ some remote) × (c.name ≡ some name) × (c.policy ≡ client))
    ⊎ ((parse_id client.public_key ≢ some remote) × FirstWithKey parse_id remote rest c)

try_map-authorize :
    (parse_id : Text → Option ℕ) (clients : List (Text × TrustedClient)) (policy : AccessPolicy)
    (remote : ℕ) (c : AuthorizedClient)
    → try_map (trusted_endpoint parse_id) clients ≡ ok policy
    → (authorize policy remote ≡ some c) ↔ FirstWithKey parse_id remote clients c
unfolding authorize trusted_endpoint
try_map-authorize parse_id [] policy remote c h = ground arith
try_map-authorize parse_id ((name, client) ∷ rest) policy remote c h =
    let (e, is_e, h1) = >>=-eq-ok (trusted_endpoint parse_id (name, client)) _ h in
    let (es, are_es, h2) = >>=-eq-ok (try_map (trusted_endpoint parse_id) rest) _ h1 in
    let (id, is_id, h3) = >>=-eq-ok (context (parse_id client.public_key) name) _ is_e in
    let ih = try_map-authorize parse_id rest es remote c are_es in ground (arith, ih.0, ih.1)

-- For a policy made from a configuration, an authorised client is the first configured one with
-- the key of the remote endpoint, under its name and with its limits.
pub authorize-from_config :
    (parse_id : Text → Option ℕ) (config : ServerConfig) (policy : AccessPolicy) (remote : ℕ)
    (c : AuthorizedClient)
    → from_config parse_id config ≡ ok policy
    → (authorize policy remote ≡ some c) ↔ FirstWithKey parse_id remote config.trusted_clients c
unfolding from_config
authorize-from_config parse_id config policy remote c h =
    try_map-authorize parse_id config.trusted_clients policy remote c h
