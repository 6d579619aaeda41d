-- ===== src/Server/Connection/Tests.antt =====
-- crates/drv-thru/src/server: a session of a trusted client and one of a client with a ticket.
use drv_thru.Base.{◌≡◌, refl, Bool, true, false, List, [], ◌∷◌, none, some, ok}
use drv_thru.Text.{Text, codes}
use drv_thru.Ticket.{Iroh, Env, TicketRecord, absent, holds}
use drv_thru.Access.{from_endpoint_ids}
use drv_thru.Nix.StorePath.{StorePath}
use drv_thru.Nix.Commands.{NixCommands}
use drv_thru.Protocol.{
  OutputMode, Message, hello, auth_trusted_client, auth_ticket, build_request, build_paths,
  output_request, output_cache_done, BuildRequest,
}
use drv_thru.Protocol.PathChunks.{Incoming}
use drv_thru.Server.Status.{BuildResult}
use drv_thru.Server.Auth.{authorize_connection}
use drv_thru.Server.Auth.Laws.{Authorisation, authorize_connection-Ends}
use drv_thru.Server.Build.Requests.{CheckedBuildRequest, check_build_request}
use drv_thru.Server.Build.Requests.Laws.{CheckOf, check_build_request-CheckOf}
use drv_thru.Server.Session.{World, Session}
use drv_thru.Server.Session.Stages.{stage_of, finished, over}
use drv_thru.Server.Session.Logs.{Ends}
use drv_thru.Server.Connection.{handle_incoming}
use drv_thru.Server.Connection.Runs.{Settled}
use drv_thru.Server.Connection.Lifecycle.{handle_incoming-Settled}
use drv_thru.Server.Connection.Gate.{Gated, handle_incoming-Gated}

abbrev drv : Text
drv = codes "/nix/store/00000000000000000000000000000000-hello.drv"

abbrev out : Text
out = codes "/nix/store/11111111111111111111111111111111-hello"

abbrev path : Text → StorePath
path text = record { text = text }

-- Every text is the id 7.
abbrev ids : Iroh
ids = record {
  parse_id = λ text. some 7;
  public_text = λ secret. secret ∷ [];
  encode_ticket = λ secret. secret ∷ [];
}

abbrev ticket : TicketRecord
ticket = record {
  encoded_ticket = 9 ∷ [];
  created_at_unix = 1;
  name = some (codes "guest");
  expires_at_unix = 100;
  uses_remaining = some 1;
  max_build_time = codes "30m";
  max_upload_bytes = codes "20G";
  bound_client = none;
  revoked = false;
}

-- One input is missing and gets uploaded; the build writes one line and takes two seconds.
abbrev commands : NixCommands
commands = record {
  missing_paths = λ paths. ok (path drv ∷ []);
  missing_after = λ paths. ok [];
  import_stream = λ limit. ok tt;
  realise = λ p mode rebuild. record {
    lines = (1, codes "building") ∷ [];
    ends_at = 2;
    result = ok (record { success = true; output_paths = path out ∷ [] });
  };
  output_closure = λ paths. ok paths;
}

abbrev env : Env
env = record { now = some 5; secret = 9; lock_ok = true; read_ok = true; write_ok = true }

abbrev world : World
world = record {
  iroh = ids;
  show = λ e. codes "error";
  peer = 7;
  display_peer = codes "seven";
  policy = from_endpoint_ids (λ id. codes "seven") (7 ∷ []);
  builder_public_key = codes "key";
  check_file = holds ((9 ∷ [], ticket) ∷ []);
  check_env = env;
  redeem_file = holds ((9 ∷ [], ticket) ∷ []);
  redeem_env = env;
  request_id = codes "build-1";
  queue_open = true;
  upload_opened = true;
  tasks_ok = true;
  finish_ok = true;
  nix = commands;
}

abbrev request : BuildRequest
request = record {
  installable = codes "nixpkgs#hello";
  drv_path = drv;
  output_paths = out ∷ [];
  output_mode = OutputMode.nom;
  rebuild = false;
}

abbrev talk : Message → List Incoming
talk auth =
    ok (hello (record { version = 5; node_id = codes "seven" }))
    ∷ ok auth
    ∷ ok (build_request request)
    ∷ ok (build_paths (record { paths = drv ∷ []; done = true }))
    ∷ ok (output_request (record { paths = out ∷ []; done = true }))
    ∷ ok output_cache_done
    ∷ []

abbrev enough : List Bool
enough = true ∷ true ∷ true ∷ true ∷ true ∷ true ∷ true ∷ true ∷ true ∷ true ∷ true ∷ true ∷ []

abbrev session : Message → Session
session auth = record { recv = talk auth; writes = enough; log = [] }

-- Both sessions are served; the second is refused when its ticket was used up since the check.
trusted_served :
    stage_of world.request_id (handle_incoming world (session auth_trusted_client)).1.log
    ≡ some (finished BuildResult.success)
unfolding handle_incoming from_endpoint_ids
trusted_served = refl

ticket_served :
    stage_of world.request_id (handle_incoming world (session (auth_ticket 9))).1.log
    ≡ some (finished BuildResult.success)
unfolding handle_incoming
ticket_served = refl

ticket_gone :
    stage_of world.request_id
      (handle_incoming (record world { redeem_file = absent }) (session (auth_ticket 9))).1.log
    ≡ some over
unfolding handle_incoming
ticket_gone = refl

handle_incoming-Settled_example :
    Ends
      (λ u. Settled world.request_id)
      (Settled world.request_id)
      (handle_incoming world (session (auth_ticket 9)))
handle_incoming-Settled_example = handle_incoming-Settled world (session (auth_ticket 9)) refl

handle_incoming-Gated_example :
    Ends
      (λ u. Gated world (talk (auth_ticket 9)))
      (Gated world (talk (auth_ticket 9)))
      (handle_incoming world (session (auth_ticket 9)))
handle_incoming-Gated_example = handle_incoming-Gated world (session (auth_ticket 9)) refl

authorize_connection-Ends_example :
    Ends
      (Authorisation world (ok (auth_ticket 9) ∷ []) [])
      (λ log. log ≡ [])
      (authorize_connection world
        (record { recv = ok (auth_ticket 9) ∷ []; writes = true ∷ []; log = [] }))
authorize_connection-Ends_example =
    authorize_connection-Ends world
      (record { recv = ok (auth_ticket 9) ∷ []; writes = true ∷ []; log = [] })

abbrev checked_request : CheckedBuildRequest
checked_request = record {
  installable = codes "nixpkgs#hello";
  drv_path = path drv;
  output_mode = OutputMode.nom;
  rebuild = false;
  closure_paths = path out ∷ path drv ∷ [];
  output_paths = path out ∷ [];
}

request_checked : check_build_request request (out ∷ []) ≡ ok checked_request
unfolding check_build_request
request_checked = refl

check_build_request-CheckOf_example : CheckOf request (out ∷ []) checked_request
check_build_request-CheckOf_example =
    check_build_request-CheckOf request (out ∷ []) checked_request request_checked
