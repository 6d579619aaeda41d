-- ===== src/Client/Build/Asked.antt =====
-- crates/drv-thru/src/client/session.rs: when `build` asks a server for a build.
use drv_thru.Base.{
  ◌≡◌, ◌≢◌, ◌⊎◌, inl, inr, refl, ap, ◌∙◌, ◌==◌, length, >>=-eq-ok, Bool, true, false, List, [], ◌∷◌,
  append-nil, none, some, Result, ok, arith, map_err, context, ok-injective, if◌then◌else◌,
}
use drv_thru.Text.{Text}
use drv_thru.Nix.StorePath.{StorePath, texts}
use drv_thru.Nix.Queries.{resolve_outputs}
use drv_thru.Protocol.PathChunks.{Incoming, Sent}
use drv_thru.ClientCache.Import.{OutputImportMethod, output_import_method, preflight_output_import}
use drv_thru.Client.{
  BuildAuth, PreparedBuild, nix_failed, write_hello, write_auth, ClientError, send_build_request,
  local_outputs_present, read_auth_ok,
}
use drv_thru.Client.Build.{
  BuildError, BuildEnd, local_outputs, no_auth, not_connected, no_import, in_session, BuildArgs,
  BuildWorld, writes, prepare_build, remote_result, after_auth, build_remotely, build,
}
use drv_thru.Client.Build.Writes.{Asks, with_step-Asks, map_err-eq, context-eq, opening-asks}

-- The outputs are not all there, or are rebuilt.
abbrev pub NotThere : BuildWorld → List StorePath → Bool → Type 0
NotThere world requested rebuild =
    (rebuild ≡ true)
    ⊎ ((missing : List StorePath) × ((world.client none).missing_paths requested ≡ ok missing)
        × (missing ≢ []))

present-NotThere :
    (world : BuildWorld) (requested : List StorePath) (rebuild : Bool)
    → local_outputs_present (world.client none) requested rebuild ≡ ok false
    → NotThere world requested rebuild
unfolding local_outputs_present
present-NotThere world requested true h = inl refl
present-NotThere world requested false h =
    let (missing, e, k) =
      >>=-eq-ok (map_err nix_failed ((world.client none).missing_paths requested)) _ h in
    inr (missing, map_err-eq nix_failed _ missing e, some_missing missing k)
  where
    some_missing :
        (missing : List StorePath)
        → ◌≡◌ {A = Result ClientError Bool} (ok (length missing == 0)) (ok false)
        → missing ≢ []
    some_missing [] k e = absurd (ground (arith, ok-injective k))
    some_missing (p ∷ missing) k e = ground arith

-- There is a way to import what the key signs.
abbrev pub Importable : BuildWorld → Text → Type 0
Importable world key =
    (method : OutputImportMethod) × (output_import_method world.cache key ≡ ok method)

preflight-Importable :
    (world : BuildWorld) (key : Text)
    → preflight_output_import world.cache key ≡ ok tt
    → Importable world key
unfolding preflight_output_import
preflight-Importable world key h =
    let (method, e, k) = >>=-eq-ok (output_import_method world.cache key) _ h in (method, e)

-- A build that was asked for, with what was written: the hello, the authorisation and the request with
-- the closure of the derivation.
pub record Asked (world : BuildWorld) (args : BuildArgs) : Type 0 where
  pub requested : List StorePath
  pub auth : BuildAuth
  pub recv : List Incoming
  pub key : Text
  pub rest : List Incoming
  pub prepared : PreparedBuild
  pub resolved :
      resolve_outputs world.run world.parse_plan args.installable args.options ≡ ok requested
  pub absent : NotThere world requested args.rebuild
  pub given : args.auth ≡ some auth
  pub connected : world.opened ≡ some recv
  pub authorised : read_auth_ok recv ≡ ok (key, rest)
  pub trusted : Importable world key
  pub found : prepare_build world args ≡ ok prepared
  pub written :
      (build world args).0
      ≡ write_hello world.node_id
        ∷ write_auth auth
        ∷ (send_build_request world.encode args.installable
            (texts requested)
            prepared
            args.output_mode
            args.rebuild).0

request-written :
    (flows : Bool) (sent : Sent) (r : Result BuildError BuildEnd)
    → (writes flows sent ([], r)).0 ≡ sent.0
request-written true (messages, true) r = append-nil messages
request-written true (messages, false) r = refl
request-written false sent r = refl

not_there :
    (world : BuildWorld) (args : BuildArgs) (requested : List StorePath) (present : Bool)
    → Asks (
        if present
        then ([], ok (local_outputs (texts requested)))
        else build_remotely world args requested)
    → (present ≡ false) × Asks (build_remotely world args requested)
not_there world args requested true h = ground arith
not_there world args requested false h = (refl, h)

-- A client that asks for a build rebuilds, or some of the outputs are missing from its store; it is
-- authorised by the server, and there is a way to import what the key of this server signs; what it
-- writes is its hello, its authorisation and the request, up to a message that has no frame.
pub build-Asked :
    (world : BuildWorld) (args : BuildArgs) → Asks (build world args) → Asked world args
unfolding build
build-Asked world args h =
    let (requested, e, h1, w1) =
      with_step-Asks
        (map_err (λ e. in_session (nix_failed e))
          (resolve_outputs world.run world.parse_plan args.installable args.options))
        _ h in
    let (present, e1, h2, w2) =
      with_step-Asks
        (map_err in_session (local_outputs_present (world.client none) requested args.rebuild)) _
        h1 in
    let (absent, h3) = not_there world args requested present h2 in
    let (auth, e2, h4, w4) = with_step-Asks (context args.auth no_auth) _ h3 in
    let (recv, e3, h5, w5) = with_step-Asks (context world.opened not_connected) _ h4 in
    let (h6, opened) =
      opening-asks world.encode world.node_id auth world.hello_ok
        (after_auth world args requested recv) h5 in
    let ((key, rest), e4, h7, w7) = with_step-Asks (map_err in_session (read_auth_ok recv)) _ h6 in
    let (u, e5, h8, w8) =
      with_step-Asks (map_err no_import (preflight_output_import world.cache key)) _ h7 in
    let (prepared, e6, h9, w9) =
      with_step-Asks (map_err in_session (prepare_build world args)) _ h8 in
    record {
      requested = requested;
      auth = auth;
      recv = recv;
      key = key;
      rest = rest;
      prepared = prepared;
      resolved = map_err-eq _ _ requested e;
      absent =
          present-NotThere world requested args.rebuild
            (map_err-eq in_session _ present e1 ∙ ap ok absent);
      given = context-eq args.auth no_auth auth e2;
      connected = context-eq world.opened not_connected recv e3;
      authorised = map_err-eq in_session _ (key, rest) e4;
      trusted = preflight-Importable world key (map_err-eq no_import _ tt e5);
      found = map_err-eq in_session _ prepared e6;
      written =
          ap (λ w. w.0) w1
          ∙ ap (λ w. w.0) w2
          ∙ ap
              (λ b.
                (if b
                  then ([], ok (local_outputs (texts requested)))
                  else build_remotely world args requested).0)
              absent
          ∙ ap (λ w. w.0) w4
          ∙ ap (λ w. w.0) w5
          ∙ opened
          ∙ ap (λ w. write_hello world.node_id ∷ write_auth auth ∷ w.0) (w7 ∙ w8 ∙ w9)
          ∙ ap (λ m. write_hello world.node_id ∷ write_auth auth ∷ m)
              (request-written world.request_ok _ (remote_result world key rest));
    }
