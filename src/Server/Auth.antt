-- ===== src/Server/Auth.antt =====
-- crates/drv-thru/src/server/auth.rs: the authorisation of a session.
pub mod Laws
use drv_thru.Base.{ℕ, List, ◌++◌, Option, none, some, Result, ok, err}
use drv_thru.Text.{Text, codes}
use drv_thru.Ticket.{TicketFile, TicketRecord, TicketError, check, redeem}
use drv_thru.Access.{AuthorizedClient, authorize}
use drv_thru.Config.{ConfigError, parse_duration, parse_byte_count}
use drv_thru.Protocol.{Message, auth_trusted_client, auth_ticket, auth_ok}
use drv_thru.Server.Session.{
  SessionError, config_error, ticket_error, expected_auth, World, Session, M, pass, ◌>>=◌, ◌>>◌,
  lift, send, read_message, send_error,
}

pub record AuthorizedConnection : Type 0 where
  pub client_label : Text
  pub max_build_time : Option ℕ
  pub max_upload_bytes : Option ℕ
  pub ticket_secret : Option ℕ

-- A limit that is given, and `as_deref().map(parse).transpose()` of one that need not be.
abbrev pub limit_of : Result ConfigError ℕ → Result SessionError (Option ℕ)
limit_of (ok n) = ok (some n)
limit_of (err e) = err (config_error e)

abbrev pub parse_optional :
    (Text → Result ConfigError ℕ) → Option Text → Result SessionError (Option ℕ)
parse_optional parse none = ok none
parse_optional parse (some text) = limit_of (parse text)

abbrev pub label : Text → Text → Option Text → Text
label kind peer none = kind ++ peer
label kind peer (some name) = kind ++ name

unfoldable pub write_auth_ok : World → Option Text → M (Unit {0})
unfolding send
write_auth_ok world client_name =
    send (
      auth_ok (record { client_name = client_name; builder_public_key = world.builder_public_key }))

abbrev pub trust : World → Option AuthorizedClient → M (Option AuthorizedConnection)
trust world none = do send_error (codes "client is not trusted"); pass none
trust world (some client) = do
  max_build_time ← lift (parse_optional parse_duration client.policy.max_build_time)
  max_upload_bytes ← lift (parse_optional parse_byte_count client.policy.max_upload_bytes)
  write_auth_ok world client.name
  pass (
      some (record {
        client_label = label (codes "client:") world.display_peer client.name;
        max_build_time = max_build_time;
        max_upload_bytes = max_upload_bytes;
        ticket_secret = none;
      }))

unfoldable pub authorize_trusted_client : World → M (Option AuthorizedConnection)
unfolding authorize send_error write_auth_ok parse_duration parse_byte_count
authorize_trusted_client world = trust world (authorize world.policy world.peer)

abbrev pub admit : World → ℕ → Result TicketError TicketRecord → M (Option AuthorizedConnection)
admit world secret (err e) = do send_error (world.show (ticket_error e)); pass none
admit world secret (ok r) = do
  max_build_time ← lift (limit_of (parse_duration r.max_build_time))
  max_upload_bytes ← lift (limit_of (parse_byte_count r.max_upload_bytes))
  write_auth_ok world r.name
  pass (
      some (record {
        client_label = label (codes "ticket:") world.display_peer r.name;
        max_build_time = max_build_time;
        max_upload_bytes = max_upload_bytes;
        ticket_secret = some secret;
      }))

unfoldable pub authorize_ticket : World → ℕ → M (Option AuthorizedConnection)
unfolding check send_error write_auth_ok parse_duration parse_byte_count
authorize_ticket world secret =
    admit world secret (check world.iroh world.check_env world.check_file secret world.peer)

abbrev pub authorize_by : World → Message → M (Option AuthorizedConnection)
authorize_by world auth_trusted_client = authorize_trusted_client world
authorize_by world (auth_ticket secret) = authorize_ticket world secret
authorize_by world message = do send_error (world.show (expected_auth message)); pass none

unfoldable pub authorize_connection : World → M (Option AuthorizedConnection)
unfolding read_message authorize_trusted_client authorize_ticket send_error
authorize_connection world = do message ← read_message; authorize_by world message

-- The limits of the redeemed record take the place of those of the check.
abbrev pub with_limits :
    World → AuthorizedConnection → Result TicketError TicketRecord → M (Option AuthorizedConnection)
with_limits world authorized (err e) = do send_error (world.show (ticket_error e)); pass none
with_limits world authorized (ok r) = do
  max_build_time ← lift (limit_of (parse_duration r.max_build_time))
  max_upload_bytes ← lift (limit_of (parse_byte_count r.max_upload_bytes))
  pass (
      some (record authorized {
        max_build_time = max_build_time;
        max_upload_bytes = max_upload_bytes;
        ticket_secret = none;
      }))

abbrev pub redeem_secret : World → AuthorizedConnection → Option ℕ → M (Option AuthorizedConnection)
redeem_secret world authorized none = pass (some authorized)
redeem_secret world authorized (some secret) =
    with_limits world authorized
      (redeem world.iroh world.redeem_env world.redeem_file secret world.peer).1

-- The ticket file after the call is the first part of `redeem`.
unfoldable pub redeem_ticket_if_needed :
    World → AuthorizedConnection → M (Option AuthorizedConnection)
unfolding redeem send_error parse_duration parse_byte_count
redeem_ticket_if_needed world authorized = redeem_secret world authorized authorized.ticket_secret
