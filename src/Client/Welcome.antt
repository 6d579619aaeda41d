-- ===== src/Client/Welcome.antt =====
-- crates/drv-thru/src/client/session.rs and server/auth.rs: a client that its server accepts.
use drv_thru.Base.{ℕ, ◌≡◌, refl, Bool, List, ◌∷◌, Option, none, some, ok, ==_self, true}
use drv_thru.Text.{Text, codes}
use drv_thru.Ticket.{TicketRecord, check}
use drv_thru.Access.{AuthorizedClient, authorize}
use drv_thru.Config.{parse_duration, parse_byte_count}
use drv_thru.Protocol.{AuthOk, auth_ok}
use drv_thru.Protocol.PathChunks.{Incoming}
use drv_thru.Server.Auth.{
  AuthorizedConnection, limit_of, parse_optional, authorize_connection, authorize_trusted_client,
  authorize_ticket, write_auth_ok, label,
}
use drv_thru.Server.Connection.{read_hello, check_hello}
use drv_thru.Server.Session.{Event, sends, World, Session, read_message, send}
use drv_thru.Client.{BuildAuth, trusted_client, ticket, write_hello, write_auth}

-- A server that will accept the client: it trusts the peer, or accepts the ticket, and the limits it
-- holds for it can be read.
abbrev pub Welcome : World → BuildAuth → Type 0
Welcome world trusted_client =
    (client : AuthorizedClient) × (time : Option ℕ) × (bytes : Option ℕ) × (authorize world.policy
        world.peer
      ≡ some client)
    × (parse_optional parse_duration client.policy.max_build_time ≡ ok time)
    × (parse_optional parse_byte_count client.policy.max_upload_bytes ≡ ok bytes)
Welcome world (ticket secret) =
    (r : TicketRecord) × (time : Option ℕ) × (bytes : Option ℕ) × (check world.iroh world.check_env
        world.check_file secret world.peer
      ≡ ok r)
    × (limit_of (parse_duration r.max_build_time) ≡ ok time)
    × (limit_of (parse_byte_count r.max_upload_bytes) ≡ ok bytes)

-- The session behind a written message and a read one.
abbrev pub wrote : List Incoming → List Bool → List Event → Session
wrote recv writes log = record { recv = recv; writes = writes; log = log }

pub hello_read :
    (world : World) (node_id : Text) (recv : List Incoming) (writes : List Bool) (log : List Event)
    → world.iroh.parse_id node_id ≡ some world.peer
    → read_hello world (wrote (ok (write_hello node_id) ∷ recv) writes log)
      ≡ (ok tt, wrote recv writes log)
unfolding read_hello read_message check_hello
hello_read world node_id recv writes log h = rw (h, ==_self world.peer) refl

pub auth_read :
    (world : World) (auth : BuildAuth) (recv : List Incoming) (writes : List Bool)
    (log : List Event)
    → Welcome world auth
    → (a : AuthorizedConnection) × (answer : AuthOk) × (answer.builder_public_key
        ≡ world.builder_public_key)
      × (authorize_connection world (wrote (ok (write_auth auth) ∷ recv) (true ∷ writes) log)
          ≡ (ok (some a), wrote recv writes (sends (auth_ok answer) ∷ log)))
unfolding authorize_connection read_message authorize_trusted_client authorize_ticket write_auth_ok
    send
auth_read world trusted_client recv writes log (client, time, bytes, e, t, b) = (
  record {
    client_label = label (codes "client:") world.display_peer client.name;
    max_build_time = time;
    max_upload_bytes = bytes;
    ticket_secret = none;
  },
  record { client_name = client.name; builder_public_key = world.builder_public_key },
  refl,
  rw (e, t, b) refl,
)
auth_read world (ticket secret) recv writes log (r, time, bytes, e, t, b) = (
  record {
    client_label = label (codes "ticket:") world.display_peer r.name;
    max_build_time = time;
    max_upload_bytes = bytes;
    ticket_secret = some secret;
  },
  record { client_name = r.name; builder_public_key = world.builder_public_key },
  refl,
  rw (e, t, b) refl,
)
