-- ===== src/Cli/Tickets/Status.antt =====
-- crates/drv-thru/src/cli/tickets.rs and ticket.rs: the status that is listed and the validation.
use drv_thru.Base.{
  ℕ, ◌≡◌, refl, Option, none, some, Result, ok, err, leb, Bool-cases, inl, inr, ==_self,
}
use drv_thru.Text.{Text}
use drv_thru.Ticket.{
  TicketRecord, TicketError, ticket_revoked, ticket_expired, no_uses_remaining, Iroh, Env,
  check_client, is_zero_uses, validate_ticket_record,
}
use drv_thru.Ticket.Validity.{BoundTo}
use drv_thru.Cli.Tickets.{
  TicketStatus, revoked_ticket, expired_ticket, exhausted_ticket, active_ticket, uses_gone,
  ticket_record_status,
}

-- What a server says to a ticket with a status.
abbrev pub verdict : TicketStatus → Result TicketError (Unit {0})
verdict revoked_ticket = err ticket_revoked
verdict expired_ticket = err ticket_expired
verdict exhausted_ticket = err no_uses_remaining
verdict active_ticket = ok tt

BoundTo-check_client :
    (iroh : Iroh) (id : Text) (bound : Option Text) (remote : ℕ)
    → BoundTo iroh bound remote
    → check_client iroh id bound remote ≡ ok tt
BoundTo-check_client iroh id none remote h = refl
BoundTo-check_client iroh id (some bound) remote h = rw (h, ==_self remote) refl

uses_gone-is_zero_uses : (iroh : Iroh) (uses : Option ℕ) → is_zero_uses iroh uses ≡ uses_gone uses
uses_gone-is_zero_uses iroh none = refl
uses_gone-is_zero_uses iroh (some uses) = refl

-- For a client that the ticket is not bound away from, the listed status is the verdict of the server
-- at the same second: an active ticket is accepted, and a revoked, an expired and an exhausted one are
-- refused as such.
pub ticket_record_status-verdict :
    (iroh : Iroh) (env : Env) (id : Text) (r : TicketRecord) (remote now : ℕ)
    → env.now ≡ some now
    → BoundTo iroh r.bound_client remote
    → validate_ticket_record iroh env id r remote ≡ verdict (ticket_record_status r now)
unfolding validate_ticket_record ticket_record_status
ticket_record_status-verdict iroh env id r remote now clock bound = elim (Bool-cases r.revoked) [
  | inl e ↦ rw e refl
  | inr e ↦ elim (Bool-cases (leb r.expires_at_unix now)) [
    | inl late ↦ rw (e, clock, late) refl
    | inr early ↦
        let client = BoundTo-check_client iroh id r.bound_client remote bound in
        let same = uses_gone-is_zero_uses iroh r.uses_remaining in
        elim (Bool-cases (uses_gone r.uses_remaining)) [
          | inl gone ↦ rw (e, clock, early, client, same, gone) refl
          | inr left ↦ rw (e, clock, early, client, same, left) refl
        ]
  ]
]
