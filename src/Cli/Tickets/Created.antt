-- ===== src/Cli/Tickets/Created.antt =====
-- crates/drv-thru/src/cli/tickets.rs and server/auth.rs: a ticket of the command line at the server.
use drv_thru.Base.{
  ℕ, ◌≡◌, ◌+◌, ◌<◌, refl, sym, ap, subst, ◌∙◌, Bool, true, false, Option, none, some, Result, ok,
  err, bail_if, context, map_err, >>=-eq-ok, >>-eq-ok, bail_if-eq-ok, ok-injective, arith,
  Bool-cases, inl, inr, ◌==◌,
}
use drv_thru.Text.{Text, codes, parse_u64}
use drv_thru.Config.{ConfigError, parse_duration, parse_byte_count}
use drv_thru.Ticket.{CreateTicket, BuildTicket, TicketFile, TicketError, Iroh, create, check}
use drv_thru.Ticket.Validity.{Readable, BoundTo, UsesLeft}
use drv_thru.Ticket.Created.{create-check}
use drv_thru.Server.Auth.{limit_of}
use drv_thru.Server.Session.{World}
use drv_thru.Client.{ticket}
use drv_thru.Client.Welcome.{Welcome}
use drv_thru.Cli.Tickets.{
  CommandError, bad_limit, bad_uses, zero_uses, TicketCreateArgs, CommandEnv, eq_ignore_ascii_case,
  count_uses, parse_ticket_uses, create_options, created, create_with, create_ticket,
}

limit-ok :
    (r : Result ConfigError ℕ) (n : ℕ) → map_err {F = CommandError} bad_limit r ≡ ok n → r ≡ ok n
limit-ok (err e) n h = cc
limit-ok (ok m) n h = ap ok (ok-injective h)

count_uses-UsesLeft : (text : Text) (uses : Option ℕ) → count_uses text ≡ ok uses → UsesLeft uses
count_uses-UsesLeft text uses h =
    let (n, e, h1) = >>=-eq-ok (context (parse_u64 text) (bad_uses text)) _ h in
    let (passed, same) = >>-eq-ok (bail_if (n == 0) zero_uses) (ok (some n)) h1 in
    let counted = bail_if-eq-ok (n == 0) zero_uses passed in
    subst UsesLeft (ok-injective same) (positive n counted)
  where
    positive : (n : ℕ) → (n == 0) ≡ false → 0 < n
    positive n e = ground arith

parse_ticket_uses-UsesLeft :
    (text : Option Text) (unlimited : Bool) (uses : Option ℕ)
    → parse_ticket_uses text unlimited ≡ ok uses
    → UsesLeft uses
unfolding parse_ticket_uses
parse_ticket_uses-UsesLeft (some text) true uses h = ground arith
parse_ticket_uses-UsesLeft none true uses h = subst UsesLeft (ok-injective h) tt
parse_ticket_uses-UsesLeft none false uses h = subst UsesLeft (ok-injective h) (omega arith)
parse_ticket_uses-UsesLeft (some text) false uses h =
    elim (Bool-cases (eq_ignore_ascii_case text (codes "unlimited"))) [
      | inl e ↦ subst UsesLeft (ok-injective (rw e at h)) tt
      | inr e ↦ count_uses-UsesLeft text uses (rw e at h)
    ]

-- The options that the arguments give: their limits can be read, and they have a use.
record Sensible (args : TicketCreateArgs) (options : CreateTicket) : Type 0 where
  time : ℕ
  bytes : ℕ
  expiry : parse_duration args.expires ≡ ok options.expires_after
  client : options.bound_client ≡ args.bind_client
  uses : UsesLeft options.uses_remaining
  time_read : parse_duration options.max_build_time ≡ ok time
  bytes_read : parse_byte_count options.max_upload_bytes ≡ ok bytes

create_options-Sensible :
    (args : TicketCreateArgs) (options : CreateTicket)
    → create_options args ≡ ok options
    → Sensible args options
unfolding create_options
create_options-Sensible args options h =
    let (expires_after, e, h1) = >>=-eq-ok (map_err bad_limit (parse_duration args.expires)) _ h in
    let (uses, e1, h2) = >>=-eq-ok (parse_ticket_uses args.uses args.unlimited) _ h1 in
    let (time, e2, h3) = >>=-eq-ok (map_err bad_limit (parse_duration args.max_build_time)) _ h2 in
    let (bytes, e3, h4) =
      >>=-eq-ok (map_err bad_limit (parse_byte_count args.max_upload_bytes)) _ h3 in
    let same = ok-injective h4 in
    record {
      time = time;
      bytes = bytes;
      expiry = limit-ok _ _ e ∙ ap (λ o. ok (o.expires_after)) same;
      client = sym (ap (λ o. o.bound_client) same);
      uses =
          subst (λ o. UsesLeft o.uses_remaining) same
            (parse_ticket_uses-UsesLeft args.uses args.unlimited uses e1);
      time_read = ap (λ o. parse_duration o.max_build_time) (sym same) ∙ limit-ok _ _ e2;
      bytes_read = ap (λ o. parse_byte_count o.max_upload_bytes) (sym same) ∙ limit-ok _ _ e3;
    }

-- A command that succeeds has created the ticket in the store.
created-ok :
    (r : TicketFile × Result TicketError BuildTicket) (after : TicketFile) (made : BuildTicket)
    → created r ≡ (after, ok made)
    → r ≡ (after, ok made)
created-ok (file, ok t) after made h =
    ap (λ f. (f, ok t)) (ap (λ p. p.0) h) ∙ ap (λ m. (after, ok m)) (ok-injective (ap (λ p. p.1) h))
created-ok (file, err e) after made h = ground arith

create_with-ok :
    (iroh : Iroh) (env : CommandEnv) (file after : TicketFile) (made : BuildTicket)
    (r : Result CommandError CreateTicket)
    → create_with iroh env file r ≡ (after, ok made)
    → (options : CreateTicket) × (r ≡ ok options)
      × (create iroh env.store file options ≡ (after, ok made))
create_with-ok iroh env file after made (err e) h = ground arith
create_with-ok iroh env file after made (ok options) h = elim (Bool-cases env.server_addr_ok) [
  | inl e ↦ (options, refl, created-ok _ after made (rw e at h))
  | inr e ↦ absurd (ground (arith, rw e at h))
]

create_ticket-ok :
    (iroh : Iroh) (env : CommandEnv) (file after : TicketFile) (args : TicketCreateArgs)
    (made : BuildTicket)
    → create_ticket iroh env file args ≡ (after, ok made)
    → (options : CreateTicket) × Sensible args options
      × (create iroh env.store file options ≡ (after, ok made))
unfolding create_ticket
create_ticket-ok iroh env file after args made h = elim (Bool-cases env.data_dir_ok) [
  | inl e ↦
      let (options, given, stored) =
        create_with-ok iroh env file after made (create_options args) (rw e at h) in
      (options, create_options-Sensible args options given, stored)
  | inr e ↦ absurd (ground (arith, rw e at h))
]

-- A ticket that the command creates is welcome at a server that can lock and read the file
-- afterwards: before its expiry and from the client it is bound to, if any, the check accepts it, and
-- both of its limits can be read.
pub create_ticket-Welcome :
    (env : CommandEnv) (file after : TicketFile) (args : TicketCreateArgs) (made : BuildTicket)
    (world : World) (now moment expires : ℕ)
    → env.store.now ≡ some now
    → create_ticket world.iroh env file args ≡ (after, ok made)
    → world.check_file ≡ after
    → Readable world.check_env
    → world.check_env.now ≡ some moment
    → parse_duration args.expires ≡ ok expires
    → moment < now + expires
    → BoundTo world.iroh args.bind_client world.peer
    → Welcome world (ticket made.secret)
create_ticket-Welcome env file after args made world now moment expires clock h same lock later e
      early bound =
    let (options, s, stored) = create_ticket-ok world.iroh env file after args made h in
    let lasts : options.expires_after ≡ expires = ok-injective (sym s.expiry ∙ e) in
    let (r, checked, (_, _, _, _, _, t, b)) =
      create-check world.iroh env.store file after options made now world.check_env world.peer
        moment clock stored lock later (subst (λ k. moment < now + k) (sym lasts) early)
        (subst (λ c. BoundTo world.iroh c world.peer) (sym s.client) bound) s.uses in
    (
      r,
      some s.time,
      some s.bytes,
      ap (λ f. check world.iroh world.check_env f made.secret world.peer) same ∙ checked,
      ap (λ x. limit_of (parse_duration x)) t ∙ ap limit_of s.time_read,
      ap (λ x. limit_of (parse_byte_count x)) b ∙ ap limit_of s.bytes_read,
    )
