-- ===== src/Server/Session.antt =====
-- crates/drv-thru/src/server: one connection of a client. A session reads messages, writes messages
-- and calls the status registry; its log keeps what it did, the latest event first.
pub mod Stages
pub mod Logs
use drv_thru.Base.{
  ℕ, zero, suc, ◌*◌, Bool, true, false, not, List, [], ◌∷◌, Option, none, some, Result, ok, err,
  if◌then◌else◌, map_err,
}
use drv_thru.Text.{Text}
use drv_thru.Ticket.{Iroh, Env, TicketFile, TicketError}
use drv_thru.Access.{AccessPolicy}
use drv_thru.Config.{ConfigError}
use drv_thru.Nix.StorePath.{PathError}
use drv_thru.Nix.Commands.{NixCommands}
use drv_thru.Protocol.{Message, error}
use drv_thru.Protocol.PathChunks.{ReadError, Incoming, ReadLimits, timed_out}
use drv_thru.Server.Status.{BuildResult}
use drv_thru.Server.OutputCache.{OutputError}

-- The limits of mod.rs.
abbrev pub path_list_limits : ReadLimits
path_list_limits = record { chunks = 512; paths = 100_000; bytes = 16 * 1024 * 1024 }

pub data SessionError : Type 0 where
  write_failed finish_failed no_output_paths upload_timed_out build_timed_out : SessionError
  task_panicked : SessionError
  reading : ReadError → SessionError
  config_error : ConfigError → SessionError
  ticket_error : TicketError → SessionError
  path_error : PathError → SessionError
  cache_error : OutputError → SessionError
  nix_error cache_control_error bad_node_id not_realised : Text → SessionError
  expected_hello expected_auth expected_build_request cache_message : Message → SessionError
  unsupported_version wrong_peer still_missing : ℕ → SessionError

pub data Event : Type 0 where
  sends : Message → Event
  queues : Text → Text → Event
  starts : Text → Event
  phases : Text → Text → Event
  finishes : Text → BuildResult → Option Text → Event

-- What a session meets: the peer and the display of its id, the server's policy and key, the
-- ticket file and the ticket calls' environment at the check and at the redemption, the id that
-- the registry gives, whether the queue is open and the client opens an upload in time, whether a
-- task of a cache file panics and the stream can be finished; the text of an error.
pub record World : Type 0 where
  pub iroh : Iroh
  pub show : SessionError → Text
  pub peer : ℕ
  pub display_peer : Text
  pub policy : AccessPolicy
  pub builder_public_key : Text
  pub check_file : TicketFile
  pub check_env : Env
  pub redeem_file : TicketFile
  pub redeem_env : Env
  pub request_id : Text
  pub queue_open : Bool
  pub upload_opened : Bool
  pub tasks_ok : Bool
  pub finish_ok : Bool
  pub nix : NixCommands

-- The messages to come, which of the next writes succeed, and the log.
pub record Session : Type 0 where
  pub recv : List Incoming
  pub writes : List Bool
  pub log : List Event

abbrev pub Outcome : Type 0 → Type 0
Outcome A = Result SessionError A × Session

abbrev pub M : Type 0 → Type 0
M A = Session → Outcome A

abbrev pub pass : {A : Type 0} → A → M A
pass a s = (ok a, s)

abbrev pub fail : {A : Type 0} → SessionError → M A
fail e s = (err e, s)

abbrev pub and_then : {A B : Type 0} → Outcome A → (A → M B) → Outcome B
and_then (ok a, s) k = k a s
and_then (err e, s) k = (err e, s)

infixl 5 ◌>>=◌ ◌>>◌
abbrev pub ◌>>=◌ : {A B : Type 0} → M A → (A → M B) → M B
◌>>=◌ m k s = and_then (m s) k

abbrev pub ◌>>◌ : {B : Type 0} → M (Unit {0}) → M B → M B
◌>>◌ m k s = and_then (m s) λ u. k

-- The result of a pure step or of another component.
abbrev pub lift : {A : Type 0} → Result SessionError A → M A
lift r s = (r, s)

abbrev pub note : Event → M (Unit {0})
note e s = (ok tt, record s { log = e ∷ s.log })

-- `wire::write_json` of a message: one that is too large is a write that fails.
abbrev pub write_at : List Bool → Message → M (Unit {0})
write_at [] message s = (err write_failed, s)
write_at (false ∷ writes) message s = (err write_failed, record s { writes = writes })
write_at (true ∷ writes) message s =
    (ok tt, record s { writes = writes; log = sends message ∷ s.log })

unfoldable pub send : Message → M (Unit {0})
send message s = write_at s.writes message s

unfoldable pub send_all : List Message → M (Unit {0})
unfolding send
send_all [] = pass tt
send_all (message ∷ messages) = send message >> send_all messages

-- `read_message`: with nothing in time the read times out.
abbrev pub read_from : List Incoming → M Message
read_from [] s = (err (reading timed_out), s)
read_from (err e ∷ recv) s = (err (reading e), record s { recv = recv })
read_from (ok message ∷ recv) s = (ok message, record s { recv = recv })

unfoldable pub read_message : M Message
read_message s = read_from s.recv s

unfoldable pub send_error : Text → M (Unit {0})
unfolding send
send_error text = send (error text)

-- `send.finish()` and the wait for the connection to close.
unfoldable pub finish_control : World → M (Unit {0})
finish_control world = if world.finish_ok then pass tt else fail finish_failed
