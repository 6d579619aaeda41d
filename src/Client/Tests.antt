-- ===== src/Client/Tests.antt =====
-- crates/drv-thru/src/client/session.rs: a client with a ticket, and a build that it follows.
use drv_thru.Base.{
  ◌*◌, ◌≡◌, ◌≤◌, refl, arith, true, false, List, [], ◌∷◌, Option, none, some, ok, err, All,
}
use drv_thru.Text.{codes}
use drv_thru.Ticket.{Iroh, Env, TicketRecord, holds, check}
use drv_thru.Config.{parse_duration, parse_byte_count}
use drv_thru.Nix.StorePath.{StorePath, new}
use drv_thru.Nix.StorePath.Laws.{IsStorePath, new_iff}
use drv_thru.Nix.Commands.{NixCommands}
use drv_thru.Protocol.{
  OutputMode, Message, build_paths, build_request, build_queued, missing_paths, build_started,
  nix_log, build_finished, output_closure, output_cache_ready, done,
}
use drv_thru.Protocol.Wire.{Bytes}
use drv_thru.Protocol.PathChunks.{Incoming, byte_count, chunk_messages}
use drv_thru.Protocol.PathChunks.Chunks.{concat}
use drv_thru.Protocol.PathChunks.RoundTrip.{arrived, Fits}
use drv_thru.Server.Session.{World}
use drv_thru.Client.{ticket, ClientWorld, RemoteBuildResult, run_remote_build}
use drv_thru.Client.Welcome.{Welcome}
use drv_thru.Client.Asking.{checked_of, prepared_of, request_messages}
use drv_thru.Client.Opening.{SentAndOpened, opening_of, opening-Opened}

abbrev drv : StorePath
drv = record { text = codes "/nix/store/00000000000000000000000000000000-hello.drv" }

abbrev out : StorePath
out = record { text = codes "/nix/store/11111111111111111111111111111111-hello" }

drv_valid : IsStorePath drv.text
unfolding new
drv_valid = ((new_iff drv.text drv).0 refl).1

out_valid : IsStorePath out.text
unfolding new
out_valid = ((new_iff out.text out).0 refl).1

abbrev record_ : TicketRecord
record_ = record {
  encoded_ticket = 9 ∷ [];
  created_at_unix = 1;
  name = none;
  expires_at_unix = 100;
  uses_remaining = none;
  max_build_time = codes "30m";
  max_upload_bytes = codes "20G";
  bound_client = none;
  revoked = false;
}

abbrev env : Env
env = record { now = some 5; secret = 9; lock_ok = true; read_ok = true; write_ok = true }

abbrev iroh : Iroh
iroh = record {
  parse_id = λ text. some 7;
  public_text = λ secret. secret ∷ [];
  encode_ticket = λ secret. secret ∷ [];
}

abbrev commands : NixCommands
commands = record {
  missing_paths = λ paths. ok [];
  missing_after = λ paths. ok [];
  import_stream = λ limit. ok tt;
  realise = λ p mode rebuild. record { lines = []; ends_at = 0; result = err (codes "no") };
  output_closure = λ paths. ok paths;
}

abbrev world : World
world = record {
  iroh = iroh;
  show = λ e. codes "error";
  peer = 7;
  display_peer = codes "seven";
  policy = [];
  builder_public_key = codes "key";
  check_file = holds ((9 ∷ [], record_) ∷ []);
  check_env = env;
  redeem_file = holds ((9 ∷ [], record_) ∷ []);
  redeem_env = env;
  request_id = codes "build-1";
  queue_open = true;
  upload_opened = true;
  tasks_ok = true;
  finish_ok = true;
  nix = commands;
}

welcome : Welcome world (ticket 9)
unfolding check parse_duration parse_byte_count
welcome = (record_, some 1800, some 21474836480, refl, refl, refl)

small : byte_count (drv.text ∷ []) ≤ 16 * 1024 * 1024
unfolding byte_count
small = ground arith

-- A stand-in for the encoder: the paths of the closure, the installable, or nothing.
abbrev encode : Message → Option Bytes
encode (build_paths chunk) = some (concat chunk.paths)
encode (build_request request) = some request.installable
encode message = some []

request-Fits : All (Fits encode) (
    request_messages
      (codes "nixpkgs#hello")
      (out.text ∷ [])
      (prepared_of drv (drv ∷ []))
      OutputMode.plain
      false)
unfolding chunk_messages
request-Fits =
    ((codes "nixpkgs#hello", refl, omega arith), ((concat (drv.text ∷ []), refl, omega arith), tt))

opening-Opened_example :
    SentAndOpened world
      (opening_of encode
        (codes "seven")
        (ticket 9)
        (codes "nixpkgs#hello")
        (out.text ∷ [])
        (prepared_of drv (drv ∷ []))
        OutputMode.plain
        false)
      []
      (checked_of (codes "nixpkgs#hello") (out ∷ []) drv (drv ∷ []) OutputMode.plain false)
opening-Opened_example =
    opening-Opened encode world (codes "seven") (codes "nixpkgs#hello") (ticket 9) (out ∷ []) drv
      (drv ∷ []) OutputMode.plain false [] refl welcome (λ e. ground arith) (out_valid, tt)
      drv_valid (drv_valid, tt) (omega arith) small
      (([], refl, omega arith), (([], refl, omega arith), tt)) request-Fits

abbrev client : ClientWorld
client = record {
  missing_paths = λ paths. ok paths;
  export_paths = λ paths. ok tt;
  import_outputs = λ closure paths. ok 12;
  request_ok = true;
  done_ok = true;
}

abbrev answers : List Incoming
answers = arrived (
    build_queued
    ∷ missing_paths (record { paths = []; done = true })
    ∷ build_started
    ∷ nix_log (codes "building")
    ∷ build_finished (record { success = true; output_paths = out.text ∷ [] })
    ∷ output_closure (record { paths = out.text ∷ []; done = true })
    ∷ output_cache_ready (out.text ∷ [])
    ∷ done
    ∷ [])

abbrev fetched : RemoteBuildResult
fetched = record {
  missing_path_count = 0;
  build_success = true;
  output_paths = out.text ∷ [];
  received_bytes = 12;
}

followed : run_remote_build client answers ≡ ok fetched
unfolding run_remote_build
followed = refl
