-- ===== src/Ticket.antt =====
-- crates/drv-thru/src/ticket.rs: the server's store of build tickets. The file system, the clock, the
-- source of secrets and iroh's keys are parameters; an endpoint id and a secret are the numbers
-- that their 32 bytes make.
pub mod Validity
pub mod Created
pub mod Records
pub mod Calls
pub mod Steps
pub mod Redeeming
pub mod Runs
pub mod Lock
mod Tests
use drv_thru.Base.{
  ℕ, suc, ◌+◌, ◌-◌, ◌^◌, Bool, true, false, not, List, [], ◌∷◌, ◌++◌, Option, none, some, Result,
  ok, err, ◌>>=◌, ◌>>◌, bail_if, context, map_err, ltb, leb, ◌==◌, if◌then◌else◌,
}
use drv_thru.Text.{Text, codes, is_empty, trim, to_digits}
use drv_thru.TextMap.{lookup, insert}

pub record TicketRecord : Type 0 where
  pub encoded_ticket : Text
  pub created_at_unix : ℕ
  pub name : Option Text
  pub expires_at_unix : ℕ
  pub uses_remaining : Option ℕ
  pub max_build_time : Text
  pub max_upload_bytes : Text
  pub bound_client : Option Text
  pub revoked : Bool

pub record CreateTicket : Type 0 where
  pub name : Option Text
  pub bound_client : Option Text
  pub expires_after : ℕ
  pub uses_remaining : Option ℕ
  pub max_build_time : Text
  pub max_upload_bytes : Text

-- `TicketState`.
abbrev pub Tickets : Type 0
Tickets = List (Text × TicketRecord)

-- The file `tickets.json`: not there, not readable as the state, or with a state in it.
pub data TicketFile : Type 0 where
  absent corrupt : TicketFile
  holds : Tickets → TicketFile

pub data TicketError : Type 0 where
  lock_failed read_failed write_failed clock_failed expiry_overflow empty_name : TicketError
  ticket_revoked ticket_expired other_client no_uses_remaining : TicketError
  bad_bound_client id_collision ticket_not_found : Text → TicketError

-- What iroh computes: the id that a text stands for, the public key of a secret as a text, and
-- the text of a ticket with a secret for the server's address.
pub record Iroh : Type 0 where
  pub parse_id : Text → Option ℕ
  pub public_text : ℕ → Text
  pub encode_ticket : ℕ → Text

-- What happens outside during one call: the clock (`none` before the epoch), a new secret, and
-- whether the lock, the read of the file and the write succeed.
pub record Env : Type 0 where
  pub now : Option ℕ
  pub secret : ℕ
  pub lock_ok : Bool
  pub read_ok : Bool
  pub write_ok : Bool

pub record BuildTicket : Type 0 where
  pub encoded : Text
  pub secret : ℕ

abbrev pub u64_mod : ℕ
u64_mod = 2 ^ 64

unfoldable pub default_ticket_name : ℕ → Text
unfolding to_digits
default_ticket_name unix_secs = codes "ticket-" ++ to_digits unix_secs

abbrev pub state_of : TicketFile → Result TicketError Tickets
state_of absent = ok []
state_of corrupt = err read_failed
state_of (holds tickets) = ok tickets

-- `load_unlocked` behind the file lock.
unfoldable pub load : Env → TicketFile → Result TicketError Tickets
load env file = do
  bail_if (not env.lock_ok) lock_failed
  bail_if (not env.read_ok) read_failed
  state_of file

-- `write_unlocked`: the file is replaced as a whole or stays.
unfoldable pub write :
    {A : Type 0} → Env → TicketFile → Tickets → A → TicketFile × Result TicketError A
write env file tickets a = if env.write_ok then (holds tickets, ok a) else (file, err write_failed)

-- A call that ends before its write leaves the file.
abbrev pub and_then :
    {A B : Type 0}
    → TicketFile
    → Result TicketError A
    → (A → TicketFile × Result TicketError B)
    → TicketFile × Result TicketError B
and_then file (ok a) k = k a
and_then file (err e) k = (file, err e)

-- The name that a new ticket gets.
abbrev pub ticket_name : Option Text → ℕ → Result TicketError (Option Text)
ticket_name none now = ok (some (default_ticket_name now))
ticket_name (some name) now = if is_empty (trim name) then err empty_name else ok (some name)

module _ (iroh : Iroh) where
  unfoldable pub ticket_id : ℕ → Text
  ticket_id secret = iroh.public_text secret

  -- The check of `bound_client` in `create`.
  abbrev pub check_bound : Option Text → Result TicketError (Unit {0})
  check_bound none = ok tt
  check_bound (some bound) = do _ ← context (iroh.parse_id bound) (bad_bound_client bound); ok tt

  abbrev pub check_client : Text → Option Text → ℕ → Result TicketError (Unit {0})
  check_client id none remote = ok tt
  check_client id (some bound) remote = do
    bound_client ← context (iroh.parse_id bound) (bad_bound_client id)
    bail_if (not (bound_client == remote)) other_client

  abbrev pub is_zero_uses : Option ℕ → Bool
  is_zero_uses none = false
  is_zero_uses (some uses) = uses == 0

  unfoldable pub validate_ticket_record :
      Env → Text → TicketRecord → ℕ → Result TicketError (Unit {0})
  validate_ticket_record env id record_ remote = do
    bail_if record_.revoked ticket_revoked
    now ← context env.now clock_failed
    bail_if (leb record_.expires_at_unix now) ticket_expired
    check_client id record_.bound_client remote
    bail_if (is_zero_uses record_.uses_remaining) no_uses_remaining
    ok tt

  abbrev pub new_record : CreateTicket → ℕ → ℕ → Option Text → ℕ → TicketRecord
  new_record options now expires_at name secret = record {
    encoded_ticket = iroh.encode_ticket secret;
    created_at_unix = now;
    name = name;
    expires_at_unix = expires_at;
    uses_remaining = options.uses_remaining;
    max_build_time = options.max_build_time;
    max_upload_bytes = options.max_upload_bytes;
    bound_client = options.bound_client;
    revoked = false;
  }

  abbrev pub is_there : Option TicketRecord → Bool
  is_there none = false
  is_there (some old) = true

  -- The record of a new ticket.
  unfoldable pub new_entry : Env → CreateTicket → Result TicketError TicketRecord
  unfolding default_ticket_name
  new_entry env options = do
    now ← context env.now clock_failed
    expires_at ←
        context
          (if ltb (now + options.expires_after) u64_mod
            then some (now + options.expires_after)
            else none)
          expiry_overflow
    name ← ticket_name options.name now
    check_bound options.bound_client
    ok (new_record options now expires_at name env.secret)

  -- The source inserts first and gives the map up if the id was there.
  unfoldable pub add_new : Text → TicketRecord → Tickets → Result TicketError Tickets
  unfolding lookup insert
  add_new id r tickets = do
    bail_if (is_there (lookup id tickets)) (id_collision id)
    ok (insert id r tickets)

  -- The map with the new ticket, before the write.
  unfoldable pub prepare : Env → TicketFile → CreateTicket → Result TicketError Tickets
  unfolding load new_entry ticket_id add_new
  prepare env file options = do
    tickets ← load env file
    r ← new_entry env options
    add_new (ticket_id env.secret) r tickets

  -- `TicketStore::create`.
  unfoldable pub create :
      Env → TicketFile → CreateTicket → TicketFile × Result TicketError BuildTicket
  unfolding prepare write
  create env file options = and_then file (prepare env file options) λ tickets.
      write env file tickets
        (record { encoded = iroh.encode_ticket env.secret; secret = env.secret })

  -- `TicketStore::record`.
  unfoldable pub find_record : Env → TicketFile → Text → Result TicketError (Option TicketRecord)
  unfolding load lookup
  find_record env file id = do tickets ← load env file; ok (lookup id tickets)

  abbrev pub revoked_record : TicketRecord → TicketRecord
  revoked_record r = record r { revoked = true }

  -- `TicketStore::revoke`.
  unfoldable pub revoke : Env → TicketFile → Text → TicketFile × Result TicketError TicketRecord
  unfolding load lookup insert write
  revoke env file id = and_then file (load env file) λ tickets.
      and_then file (context (lookup id tickets) (ticket_not_found id))
        λ r. write env file (insert id (revoked_record r) tickets) (revoked_record r)

  -- The record of a secret, as `check` and `redeem` find and validate it.
  unfoldable pub validated : Env → TicketFile → ℕ → ℕ → Result TicketError (Tickets × TicketRecord)
  unfolding load lookup ticket_id validate_ticket_record
  validated env file secret remote = do
    tickets ← load env file
    let id = ticket_id secret
    r ← context (lookup id tickets) (ticket_not_found id)
    validate_ticket_record env id r remote
    ok (tickets, r)

  -- `TicketStore::check`.
  unfoldable pub check : Env → TicketFile → ℕ → ℕ → Result TicketError TicketRecord
  unfolding validated
  check env file secret remote = do (tickets, r) ← validated env file secret remote; ok r

  -- The match on the uses: only a counted ticket is written back.
  abbrev pub use_up :
      Env
      → TicketFile
      → Tickets
      → Text
      → TicketRecord
      → Option ℕ
      → TicketFile × Result TicketError TicketRecord
  use_up env file tickets id r none = (file, ok r)
  use_up env file tickets id r (some uses) =
      let redeemed = record r { uses_remaining = some (uses - 1) } in
      write env file (insert id redeemed tickets) redeemed

  -- `TicketStore::redeem`.
  unfoldable pub redeem : Env → TicketFile → ℕ → ℕ → TicketFile × Result TicketError TicketRecord
  unfolding validated ticket_id insert write
  redeem env file secret remote =
      and_then file (validated env file secret remote)
        λ found. use_up env file found.0 (ticket_id secret) found.1 found.1.uses_remaining
