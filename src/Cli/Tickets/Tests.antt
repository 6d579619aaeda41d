-- ===== src/Cli/Tickets/Tests.antt =====
-- The commands on tickets: a ticket for one use of two hours, with the default limits.
use drv_thru.Base.{ℕ, ◌≡◌, refl, arith, true, false, List, [], ◌∷◌, none, some, ok, err}
use drv_thru.Text.{Text, codes}
use drv_thru.Config.{parse_duration}
use drv_thru.Nix.Commands.{NixCommands}
use drv_thru.Ticket.{
  TicketRecord, BuildTicket, TicketFile, Tickets, absent, holds, Iroh, Env, validate_ticket_record,
}
use drv_thru.Ticket.Records.{records}
use drv_thru.Server.Session.{World}
use drv_thru.Client.{ticket}
use drv_thru.Client.Welcome.{Welcome}
use drv_thru.Cli.Tickets.{
  TicketCreateArgs, CommandEnv, create_ticket, list_tickets, ticket_record_status,
}
use drv_thru.Cli.Tickets.Status.{verdict, ticket_record_status-verdict}
use drv_thru.Cli.Tickets.Created.{create_ticket-Welcome}

abbrev iroh : Iroh
iroh = record {
  parse_id = λ text. some 7;
  public_text = λ secret. secret ∷ [];
  encode_ticket = λ secret. secret ∷ [];
}

abbrev at : ℕ → Env
at now = record { now = some now; secret = 97; lock_ok = true; read_ok = true; write_ok = true }

abbrev command_env : CommandEnv
command_env = record { data_dir_ok = true; server_addr_ok = true; store = at 5 }

abbrev args : TicketCreateArgs
args = record {
  name = some (codes "ann");
  bind_client = none;
  expires = codes "2h";
  uses = none;
  unlimited = false;
  max_build_time = codes "30m";
  max_upload_bytes = codes "20G";
}

abbrev stored : TicketRecord
stored = record {
  encoded_ticket = 97 ∷ [];
  created_at_unix = 5;
  name = some (codes "ann");
  expires_at_unix = 7_205;
  uses_remaining = some 1;
  max_build_time = codes "30m";
  max_upload_bytes = codes "20G";
  bound_client = none;
  revoked = false;
}

abbrev file_after : TicketFile
file_after = holds ((97 ∷ [], stored) ∷ [])

abbrev made : BuildTicket
made = record { encoded = 97 ∷ []; secret = 97 }

creates : create_ticket iroh command_env absent args ≡ (file_after, ok made)
unfolding create_ticket
creates = refl

abbrev commands : NixCommands
commands = record {
  missing_paths = λ paths. ok [];
  missing_after = λ paths. ok [];
  import_stream = λ limit. ok tt;
  realise = λ p mode rebuild. record { lines = []; ends_at = 0; result = err (codes "no") };
  output_closure = λ paths. ok paths;
}

abbrev world : World
world = record {
  iroh = iroh;
  show = λ e. codes "error";
  peer = 7;
  display_peer = codes "seven";
  policy = [];
  builder_public_key = codes "key";
  check_file = file_after;
  check_env = at 50;
  redeem_file = file_after;
  redeem_env = at 50;
  request_id = codes "build-1";
  queue_open = true;
  upload_opened = true;
  tasks_ok = true;
  finish_ok = true;
  nix = commands;
}

reads_expiry : parse_duration (codes "2h") ≡ ok 7_200
unfolding parse_duration
reads_expiry = refl

create_ticket-Welcome_example : Welcome world (ticket 97)
create_ticket-Welcome_example =
    create_ticket-Welcome command_env absent file_after args made world 5 50 7_200 refl creates refl
      (refl, refl) refl reads_expiry (omega arith) tt

ticket_record_status-verdict_example :
    validate_ticket_record iroh (at 50) (97 ∷ []) stored 7
    ≡ verdict (ticket_record_status stored 50)
ticket_record_status-verdict_example =
    ticket_record_status-verdict iroh (at 50) (97 ∷ []) stored 7 50 refl tt

abbrev older : TicketRecord
older = record stored { created_at_unix = 4 }

abbrev two : TicketFile
two = holds ((97 ∷ [], stored) ∷ (98 ∷ [], older) ∷ [])

abbrev listed : Tickets
listed = (98 ∷ [], older) ∷ (97 ∷ [], stored) ∷ []

lists : records (at 6) two ≡ ok listed
unfolding records
lists = refl

abbrev lines_listed : List Text
lines_listed =
    codes "id\tname\tstatus\tuses\texpires_unix\tbound_client"
    ∷ codes "a\tann\tactive\t1\t7205\t-"
    ∷ []

shows : list_tickets (record command_env { store = at 50 }) file_after ≡ ok lines_listed
unfolding list_tickets
shows = refl
