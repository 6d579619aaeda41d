-- ===== src/Ticket/Validity.antt =====
-- crates/drv-thru/src/ticket.rs: when a ticket is accepted.
use drv_thru.Base.{
  ℕ, ◌<◌, ◌≡◌, ◌↔◌, inl, inr, true, false, List, Option, none, some, ok, arith, Option-cases,
  Result-cases, >>=-eq-ok, ap, ◌>>=◌,
}
use drv_thru.Text.{Text}
use drv_thru.TextMap.{lookup}
use drv_thru.Ticket.{
  TicketRecord, Tickets, TicketFile, absent, corrupt, holds, Iroh, Env, load, ticket_id,
  check_client, is_zero_uses, validate_ticket_record, validated, check,
}

-- What the file shows to a reader: no file is no tickets.
abbrev pub Contents : TicketFile → Tickets → Type 0
Contents absent tickets = tickets ≡ List.[]
Contents corrupt tickets = ⊥
Contents (holds old) tickets = tickets ≡ old

-- The conditions on a ticket: not revoked, not expired, not bound to another client, not used up.
abbrev pub BoundTo : Iroh → Option Text → ℕ → Type 0
BoundTo iroh none remote = Unit
BoundTo iroh (some bound) remote = iroh.parse_id bound ≡ some remote

abbrev pub UsesLeft : Option ℕ → Type 0
UsesLeft none = Unit
UsesLeft (some uses) = 0 < uses

abbrev pub Usable : Iroh → ℕ → ℕ → TicketRecord → Type 0
Usable iroh now remote r =
    (r.revoked ≡ false)
    × (now < r.expires_at_unix)
    × BoundTo iroh r.bound_client remote
    × UsesLeft r.uses_remaining

-- The store can be read: its lock and its file.
abbrev pub Readable : Env → Type 0
Readable env = (env.lock_ok ≡ true) × (env.read_ok ≡ true)

-- A record in the store that a reader finds under the id of the secret, and may use.
abbrev pub Accepted : Iroh → Env → TicketFile → ℕ → ℕ → Tickets → TicketRecord → Type 0
Accepted iroh env file secret remote tickets r =
    Readable env
    × Contents file tickets
    × (lookup (ticket_id iroh secret) tickets ≡ some r)
    × ((now : ℕ) × (env.now ≡ some now) × Usable iroh now remote r)

module _ (iroh : Iroh) where
  check_client_iff :
      (id : Text) (bound : Option Text) (remote : ℕ)
      → (check_client iroh id bound remote ≡ ok tt) ↔ BoundTo iroh bound remote
  check_client_iff id none remote = ground arith
  check_client_iff id (some bound) remote = ground arith

  is_zero_uses_iff : (uses : Option ℕ) → (is_zero_uses iroh uses ≡ false) ↔ UsesLeft uses
  is_zero_uses_iff none = ground arith
  is_zero_uses_iff (some uses) = ground arith

  pub validate_iff :
      (env : Env) (id : Text) (r : TicketRecord) (remote : ℕ)
      → (validate_ticket_record iroh env id r remote ≡ ok tt)
        ↔ ((now : ℕ) × (env.now ≡ some now) × Usable iroh now remote r)
  unfolding validate_ticket_record
  validate_iff env id r remote =
      ground (arith, check_client_iff id r.bound_client remote, is_zero_uses_iff r.uses_remaining)

  load_iff :
      (env : Env) (file : TicketFile) (tickets : Tickets)
      → (load env file ≡ ok tickets) ↔ (Readable env × Contents file tickets)
  unfolding load
  load_iff env absent tickets = ground arith
  load_iff env corrupt tickets = ground arith
  load_iff env (holds old) tickets = ground arith

  pub validated_iff :
      (env : Env) (file : TicketFile) (secret remote : ℕ) (tickets : Tickets) (r : TicketRecord)
      → (validated iroh env file secret remote ≡ ok (tickets, r))
        ↔ Accepted iroh env file secret remote tickets r
  unfolding validated
  validated_iff env file secret remote tickets r = elim (Result-cases (load env file)) [
    | inr (e, h) ↦ ground (arith, load_iff env file tickets)
    | inl (found, h) ↦ elim (Option-cases (lookup (ticket_id iroh secret) found)) [
      | inl k ↦ ground (arith, load_iff env file tickets)
      | inr (r', k) ↦
          elim (Result-cases (validate_ticket_record iroh env (ticket_id iroh secret) r' remote)) [
            | inr (e, v) ↦ ground (
              arith,
              load_iff env file tickets,
              validate_iff env (ticket_id iroh secret) r remote,
            )
            | inl (tt, v) ↦ ground (
              arith,
              load_iff env file tickets,
              validate_iff env (ticket_id iroh secret) r remote,
            )
          ]
    ]
  ]

  found-check :
      (env : Env) (file : TicketFile) (secret remote : ℕ) (r : TicketRecord)
      → check iroh env file secret remote ≡ ok r
      → (tickets : Tickets) × (validated iroh env file secret remote ≡ ok (tickets, r))
  unfolding check
  found-check env file secret remote r h =
      let ((tickets, r'), k, e) =
        >>=-eq-ok (validated iroh env file secret remote) (λ found. ok found.1) h in
      (tickets, cc)

  check-found :
      (env : Env) (file : TicketFile) (secret remote : ℕ) (tickets : Tickets) (r : TicketRecord)
      → validated iroh env file secret remote ≡ ok (tickets, r)
      → check iroh env file secret remote ≡ ok r
  unfolding check
  check-found env file secret remote tickets r h = ap (λ m. m >>= λ found. ok found.1) h

  -- `check` accepts a secret with a record exactly if the store can be locked and read, the
  -- record is the one stored under the id of the secret, it is not revoked, the clock is
  -- before its expiry, its bound client (if any) is the remote one, and its uses are not at zero.
  pub check_iff :
      (env : Env) (file : TicketFile) (secret remote : ℕ) (r : TicketRecord)
      → (check iroh env file secret remote ≡ ok r)
        ↔ ((tickets : Tickets) × Accepted iroh env file secret remote tickets r)
  check_iff env file secret remote r = (
    λ h.
        let (found, k) = found-check env file secret remote r h in
        (found, (validated_iff env file secret remote found r).0 k),
    λ (found, a).
        check-found env file secret remote found r
          ((validated_iff env file secret remote found r).1 a),
  )
