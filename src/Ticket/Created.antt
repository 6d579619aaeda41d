-- ===== src/Ticket/Created.antt =====
-- crates/drv-thru/src/ticket.rs: tickets after their creation.
use drv_thru.Base.{
  ℕ, ◌+◌, ◌<◌, ◌^◌, ◌≡◌, refl, sym, ap, subst, ◌∙◌, false, some, ok, ◌>>=◌, arith, >>=-eq-ok,
}
use drv_thru.Text.{Text}
use drv_thru.TextMap.{lookup, lookup-insert_self}
use drv_thru.Ticket.{
  TicketRecord, CreateTicket, BuildTicket, Tickets, TicketFile, holds, Iroh, Env, load, new_entry,
  add_new, prepare, create, ticket_id, check,
}
use drv_thru.Ticket.Validity.{Readable, Contents, BoundTo, UsesLeft, check_iff}
use drv_thru.Ticket.Steps.{add_new-ok}
use drv_thru.Ticket.Runs.{and_then-ok, write-ok}

module _ (iroh : Iroh) where
  -- The fields of a new record that its validation reads, and the limits that it carries.
  abbrev pub Fresh : ℕ → CreateTicket → TicketRecord → Type 0
  Fresh now options r =
      (r.revoked ≡ false)
      × (r.expires_at_unix ≡ now + options.expires_after)
      × (now + options.expires_after < 2 ^ 64)
      × (r.bound_client ≡ options.bound_client)
      × (r.uses_remaining ≡ options.uses_remaining)
      × (r.max_build_time ≡ options.max_build_time)
      × (r.max_upload_bytes ≡ options.max_upload_bytes)

  new_entry-Fresh :
      (env : Env) (options : CreateTicket) (now : ℕ) (r : TicketRecord)
      → env.now ≡ some now
      → new_entry iroh env options ≡ ok r
      → Fresh now options r
  unfolding new_entry
  new_entry-Fresh env options now r n h = ground arith

  added :
      (id : Text) (r : TicketRecord) (found new : Tickets)
      → add_new iroh id r found ≡ ok new
      → lookup id new ≡ some r
  unfolding add_new
  added id r found new h =
      subst (λ t. lookup id t ≡ some r) (sym (add_new-ok iroh id r found new h).1)
        (lookup-insert_self id r found)

  prepare-Fresh :
      (env : Env) (file : TicketFile) (options : CreateTicket) (now : ℕ) (new : Tickets)
      → env.now ≡ some now
      → prepare iroh env file options ≡ ok new
      → (r : TicketRecord) × (lookup (ticket_id iroh env.secret) new ≡ some r) × Fresh now options r
  unfolding prepare add_new
  prepare-Fresh env file options now new n h =
      let id = ticket_id iroh env.secret in
      let (found, a, h1) =
        >>=-eq-ok (load env file) (λ t. new_entry iroh env options >>= λ r. add_new iroh id r t)
          h in
      let (r, b, h2) = >>=-eq-ok (new_entry iroh env options) (λ r. add_new iroh id r found) h1 in
      (r, added id r found new h2, new_entry-Fresh env options now r n b)

  created-Fresh :
      (env : Env) (file after : TicketFile) (options : CreateTicket) (ticket : BuildTicket)
      (now : ℕ)
      → env.now ≡ some now
      → create iroh env file options ≡ (after, ok ticket)
      → (tickets : Tickets) × (r : TicketRecord) × (after ≡ holds tickets)
        × (ticket.secret ≡ env.secret)
        × (lookup (ticket_id iroh env.secret) tickets ≡ some r)
        × Fresh now options r
  unfolding create
  created-Fresh env file after options ticket now n h =
      let (new, a, h1) = and_then-ok iroh file after (prepare iroh env file options) _ ticket h in
      let (c, d) =
        write-ok iroh env file after new
          (record { encoded = iroh.encode_ticket env.secret; secret = env.secret }) ticket h1 in
      let (r, l, f) = prepare-Fresh env file options now new n a in
      (new, r, c, ap (λ t. t.secret) (sym d), l, f)

  -- A ticket that was created is accepted before its expiry, from its bound client if it has one,
  -- when it was not created with no uses; the record that is returned carries the limits and the
  -- uses it was created with, and its expiry is below 2^64.
  pub create-check :
      (env : Env) (file after : TicketFile) (options : CreateTicket) (ticket : BuildTicket)
      (now : ℕ) (later : Env) (remote : ℕ) (moment : ℕ)
      → env.now ≡ some now
      → create iroh env file options ≡ (after, ok ticket)
      → Readable later
      → later.now ≡ some moment
      → moment < now + options.expires_after
      → BoundTo iroh options.bound_client remote
      → UsesLeft options.uses_remaining
      → (r : TicketRecord) × (check iroh later after ticket.secret remote ≡ ok r)
        × Fresh now options r
  create-check env file after options ticket now later remote moment n h lk m e b u =
      let (tickets, r, f, s, l, (v, x, y, bc, ur, z, w)) =
        created-Fresh env file after options ticket now n h in
      (
        r,
        (check_iff iroh later after ticket.secret remote r).1 (
          tickets,
          (
            lk,
            subst (λ a. Contents a tickets) (sym f) refl,
            ap (λ k. lookup (ticket_id iroh k) tickets) s ∙ l,
            (
              moment,
              m,
              (
                v,
                ground arith,
                subst (λ o. BoundTo iroh o remote) (sym bc) b,
                subst UsesLeft (sym ur) u,
              ),
            ),
          ),
        ),
        (v, x, y, bc, ur, z, w),
      )
