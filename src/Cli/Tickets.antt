-- ===== src/Cli/Tickets.antt =====
-- crates/drv-thru/src/cli/tickets.rs: the commands on tickets. What is printed is a list of lines.
pub mod Status
pub mod Created
mod Tests
use drv_thru.Base.{
  ℕ, Bool, true, false, List, [], ◌∷◌, ◌++◌, map, Option, none, some, Result, ok, err, ◌>>=◌, ◌>>◌,
  bail_if, context, map_err, leb, ◌==◌, if◌then◌else◌,
}
use drv_thru.Text.{Text, codes, text_eq, to_digits, to_ascii_lowercase, parse_u64}
use drv_thru.Config.{ConfigError, parse_duration, parse_byte_count}
use drv_thru.Ticket.{
  TicketRecord, CreateTicket, BuildTicket, TicketFile, Tickets, TicketError, Iroh, Env, create,
  revoke, find_record, ticket_id, is_zero_uses,
}
use drv_thru.Ticket.Records.{records}

pub data CommandError : Type 0 where
  no_data_dir no_server_addr clock_failed uses_and_unlimited zero_uses : CommandError
  bad_uses not_found : Text → CommandError
  bad_limit : ConfigError → CommandError
  store_failed : TicketError → CommandError

pub record TicketCreateArgs : Type 0 where
  pub name : Option Text
  pub bind_client : Option Text
  pub expires : Text
  pub uses : Option Text
  pub unlimited : Bool
  pub max_build_time : Text
  pub max_upload_bytes : Text

-- `eq_ignore_ascii_case`.
unfoldable pub eq_ignore_ascii_case : Text → Text → Bool
unfolding text_eq to_ascii_lowercase
eq_ignore_ascii_case s t = text_eq (map to_ascii_lowercase s) (map to_ascii_lowercase t)

abbrev pub count_uses : Text → Result CommandError (Option ℕ)
count_uses text = do
  uses ← context (parse_u64 text) (bad_uses text)
  bail_if (uses == 0) zero_uses
  ok (some uses)

unfoldable pub parse_ticket_uses : Option Text → Bool → Result CommandError (Option ℕ)
unfolding eq_ignore_ascii_case
parse_ticket_uses (some text) true = err uses_and_unlimited
parse_ticket_uses none true = ok none
parse_ticket_uses none false = ok (some 1)
parse_ticket_uses (some text) false =
    if eq_ignore_ascii_case text (codes "unlimited") then ok none else count_uses text

unfoldable pub format_uses : Option ℕ → Text
unfolding to_digits
format_uses none = codes "unlimited"
format_uses (some uses) = to_digits uses

-- The texts of `ticket_record_status`.
pub data TicketStatus : Type 0 where
  revoked_ticket expired_ticket exhausted_ticket active_ticket : TicketStatus

abbrev pub status_text : TicketStatus → Text
status_text revoked_ticket = codes "revoked"
status_text expired_ticket = codes "expired"
status_text exhausted_ticket = codes "exhausted"
status_text active_ticket = codes "active"

abbrev pub uses_gone : Option ℕ → Bool
uses_gone none = false
uses_gone (some uses) = uses == 0

unfoldable pub ticket_record_status : TicketRecord → ℕ → TicketStatus
ticket_record_status r now =
    if r.revoked
    then revoked_ticket
    else if leb r.expires_at_unix now
    then expired_ticket
    else if uses_gone r.uses_remaining
    then exhausted_ticket
    else active_ticket

-- What a command meets besides the store: its data directory, and the address of the server.
pub record CommandEnv : Type 0 where
  pub data_dir_ok : Bool
  pub server_addr_ok : Bool
  pub store : Env

abbrev pub is_given : Option Text → Bool
is_given none = false
is_given (some text) = true

-- The ticket that the arguments ask for. The limits are parsed here, and kept as texts.
unfoldable pub create_options : TicketCreateArgs → Result CommandError CreateTicket
unfolding parse_duration parse_byte_count parse_ticket_uses
create_options args = do
  expires_after ← map_err bad_limit (parse_duration args.expires)
  uses_remaining ← parse_ticket_uses args.uses args.unlimited
  time ← map_err bad_limit (parse_duration args.max_build_time)
  bytes ← map_err bad_limit (parse_byte_count args.max_upload_bytes)
  ok (record {
    name = args.name;
    bound_client = args.bind_client;
    expires_after = expires_after;
    uses_remaining = uses_remaining;
    max_build_time = args.max_build_time;
    max_upload_bytes = args.max_upload_bytes;
  })

-- The file of the store after a command, and its result.
abbrev pub created :
    TicketFile × Result TicketError BuildTicket → TicketFile × Result CommandError BuildTicket
created (file, r) = (file, map_err store_failed r)

abbrev pub create_with :
    Iroh
    → CommandEnv
    → TicketFile
    → Result CommandError CreateTicket
    → TicketFile × Result CommandError BuildTicket
create_with iroh env file (err e) = (file, err e)
create_with iroh env file (ok options) =
    if env.server_addr_ok
    then created (create iroh env.store file options)
    else (file, err no_server_addr)

-- `create`, with the ticket that is printed.
unfoldable pub create_ticket :
    Iroh → CommandEnv → TicketFile → TicketCreateArgs → TicketFile × Result CommandError BuildTicket
unfolding create create_options
create_ticket iroh env file args =
    if env.data_dir_ok
    then create_with iroh env file (create_options args)
    else (file, err no_data_dir)

abbrev pub or_dash : Option Text → Text
or_dash none = codes "-"
or_dash (some text) = text

abbrev pub tab : Text → Text → Text
tab left right = left ++ b'\t' ∷ right

unfoldable pub list_line : ℕ → Text × TicketRecord → Text
unfolding ticket_record_status format_uses to_digits
list_line now (id, r) = tab id (
    tab (or_dash r.name) (
      tab (status_text (ticket_record_status r now)) (
        tab (format_uses r.uses_remaining)
          (tab (to_digits r.expires_at_unix) (or_dash r.bound_client)))))

abbrev pub list_header : Text
list_header = codes "id\tname\tstatus\tuses\texpires_unix\tbound_client"

abbrev pub list_lines : Option ℕ → Tickets → Result CommandError (List Text)
list_lines now [] = ok (codes "no tickets" ∷ [])
list_lines now (entry ∷ rest) = do
  n ← context now clock_failed
  ok (list_header ∷ map (list_line n) (entry ∷ rest))

-- `list`.
unfoldable pub list_tickets : CommandEnv → TicketFile → Result CommandError (List Text)
unfolding records list_line
list_tickets env file = do
  bail_if (if env.data_dir_ok then false else true) no_data_dir
  found ← map_err store_failed (records env.store file)
  list_lines env.store.now found

abbrev pub or_none : Option Text → Text
or_none none = codes "<none>"
or_none (some text) = text

abbrev pub bound_line : Option Text → List Text
bound_line none = []
bound_line (some client) = (codes "bound client: " ++ client) ∷ []

unfoldable pub print_ticket_record : TicketRecord → List Text
unfolding to_digits format_uses
print_ticket_record r =
    (codes "name: " ++ or_none r.name)
    ∷ (codes "created unix: " ++ to_digits r.created_at_unix)
    ∷ (codes "expires unix: " ++ to_digits r.expires_at_unix)
    ∷ (codes "uses remaining: " ++ format_uses r.uses_remaining)
    ∷ (codes "max build time: " ++ r.max_build_time)
    ∷ (codes "max upload bytes: " ++ r.max_upload_bytes)
    ∷ (bound_line r.bound_client
        ++ (codes "revoked: " ++ (if r.revoked then codes "true" else codes "false")) ∷ [])

-- `reveal`: the ticket under an id, as it was printed when it was created.
unfoldable pub reveal_ticket : Iroh → CommandEnv → TicketFile → Text → Result CommandError Text
unfolding find_record
reveal_ticket iroh env file id = do
  bail_if (if env.data_dir_ok then false else true) no_data_dir
  found ← map_err store_failed (find_record iroh env.store file id)
  r ← context found (not_found id)
  ok r.encoded_ticket

abbrev pub revoked_line :
    Text → TicketFile × Result TicketError TicketRecord → TicketFile × Result CommandError Text
revoked_line id (file, err e) = (file, err (store_failed e))
revoked_line id (file, ok r) = (file, ok (codes "revoked ticket: " ++ id))

-- `revoke`.
unfoldable pub revoke_ticket :
    Iroh → CommandEnv → TicketFile → Text → TicketFile × Result CommandError Text
unfolding revoke
revoke_ticket iroh env file id =
    if env.data_dir_ok
    then revoked_line id (revoke iroh env.store file id)
    else (file, err no_data_dir)
