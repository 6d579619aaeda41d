-- ===== src/Ticket/Runs.antt =====
-- crates/drv-thru/src/ticket.rs: what a ticket goes through over any sequence of the store's calls.
use drv_thru.Base.{
  ℕ, ◌+◌, ◌≤◌, ◌≡◌, ◌≢◌, inl, inr, refl, sym, ap, subst, ◌∙◌, true, List, [], ◌∷◌, some, Result, ok,
  err, arith, context,
}
use drv_thru.Text.{Text}
use drv_thru.TextMap.{lookup, insert, lookup-insert_self}
use drv_thru.Ticket.{
  TicketRecord, Tickets, TicketFile, absent, corrupt, holds, TicketError, Iroh, Env, load, write,
  and_then, revoke, revoked_record, ticket_id, ticket_not_found, check,
}
use drv_thru.Ticket.Validity.{Contents, check_iff}
use drv_thru.Ticket.Calls.{
  Call, creates, revokes, redeems, apply, spends, run, redemptions, Later, Holds, found_in,
}
use drv_thru.Ticket.Steps.{Later-self, step-create, step-revoke, write-cases}
use drv_thru.Ticket.Redeeming.{step-redeem}

Later-trans : (r m l : TicketRecord) (s t : ℕ) → Later r m s → Later m l t → Later r l (s + t)
Later-trans r m l s t h k = ground arith

module _ (iroh : Iroh) where
  step :
      (call : Call) (id : Text) (tickets : Tickets) (r : TicketRecord)
      → lookup id tickets ≡ some r
      → Holds iroh id r (apply iroh call (holds tickets)) (spends iroh id call (holds tickets))
  unfolding apply spends
  step (creates env options) id tickets r h = step-create iroh env id tickets options r h
  step (revokes env key) id tickets r h = step-revoke iroh env id key tickets r h
  step (redeems env secret remote) id tickets r h =
      step-redeem iroh env id secret remote tickets r h

  step_file :
      (call : Call) (id : Text) (file : TicketFile) (r : TicketRecord)
      → found_in id file ≡ some r
      → Holds iroh id r (apply iroh call file) (spends iroh id call file)
  unfolding found_in
  step_file call id absent r h = absurd (ground arith)
  step_file call id corrupt r h = absurd (ground arith)
  step_file call id (holds tickets) r h = step call id tickets r h

  -- Whatever calls run on a file that holds a ticket: the file still holds it, with the same
  -- expiry and bound client; the uses that are left and the redemptions of it that succeeded make
  -- the uses that there were, and a ticket without a counter gets none; and a revoked ticket is
  -- still revoked and was not redeemed.
  pub run-conserves :
      (calls : List Call) (id : Text) (file : TicketFile) (r : TicketRecord)
      → found_in id file ≡ some r
      → Holds iroh id r (run iroh calls file) (redemptions iroh id calls file)
  unfolding run redemptions
  run-conserves [] id file r h = (r, h, Later-self iroh r)
  run-conserves (call ∷ calls) id file r h =
      let (m, p, l) = step_file call id file r h in
      let (n, q, k) = run-conserves calls id (apply iroh call file) m p in
      (
        n,
        q,
        Later-trans r m n (spends iroh id call file)
            (redemptions iroh id calls (apply iroh call file)) l k,
      )

  -- A ticket with a counter of n is redeemed at most n times, whatever calls run.
  pub redemptions-bounded :
      (calls : List Call) (id : Text) (file : TicketFile) (r : TicketRecord) (n : ℕ)
      → found_in id file ≡ some r
      → r.uses_remaining ≡ some n
      → redemptions iroh id calls file ≤ n
  redemptions-bounded calls id file r n h u =
      let (l, p, c) = run-conserves calls id file r h in ground arith

  pub and_then-ok :
      {A B : Type 0} (file after : TicketFile) (m : Result TicketError A)
      (k : A → TicketFile × Result TicketError B) (b : B)
      → and_then file m k ≡ (after, ok b)
      → (a : A) × (m ≡ ok a) × (k a ≡ (after, ok b))
  and_then-ok file after (ok a) k b h = (a, refl, h)
  and_then-ok file after (err e) k b h = absurd (ground arith)

  pub write-ok :
      {A : Type 0} (env : Env) (file after : TicketFile) (new : Tickets) (a b : A)
      → write env file new a ≡ (after, ok b)
      → (after ≡ holds new) × (a ≡ b)
  write-ok env file after new a b h = elim (write-cases iroh env file new a) [
    | inl w ↦ ground arith
    | inr w ↦ absurd (ground arith)
  ]

  revoke-found :
      (env : Env) (id : Text) (file after : TicketFile) (r : TicketRecord)
      → revoke iroh env file id ≡ (after, ok r)
      → (found_in id after ≡ some r) × (r.revoked ≡ true)
  unfolding revoke found_in
  revoke-found env id file after r h =
      let (tickets, a, h1) = and_then-ok file after (load env file) _ r h in
      let (old, b, h2) =
        and_then-ok file after (context (lookup id tickets) (ticket_not_found id)) _ r h1 in
      let (c, d) =
        write-ok env file after (insert id (revoked_record iroh old) tickets)
          (revoked_record iroh old) r h2 in
      (
        subst (λ f. found_in id f ≡ some r) (sym c)
            (lookup-insert_self id (revoked_record iroh old) tickets ∙ ap some d),
        ap (λ t. t.revoked) (sym d),
      )

  -- After a revocation that succeeded, no redemption of the ticket succeeds, whatever calls run.
  pub revoke-redemptions :
      (env : Env) (id : Text) (file after : TicketFile) (r : TicketRecord) (calls : List Call)
      → revoke iroh env file id ≡ (after, ok r)
      → redemptions iroh id calls after ≡ 0
  revoke-redemptions env id file after r calls h =
      let (f, v) = revoke-found env id file after r h in
      let (l, p, c) = run-conserves calls id after r f in ground arith

  found_in-Contents :
      (id : Text) (file : TicketFile) (tickets : Tickets) (r : TicketRecord)
      → Contents file tickets
      → lookup id tickets ≡ some r
      → found_in id file ≡ some r
  unfolding found_in lookup
  found_in-Contents id absent tickets r c h = subst (λ t. lookup id t ≡ some r) c h
  found_in-Contents id corrupt tickets r c h = absurd c
  found_in-Contents id (holds old) tickets r c h = subst (λ t. lookup id t ≡ some r) c h

  -- After a revocation that succeeded, and any calls after it, no check of the ticket's secret
  -- succeeds, whatever the clock and the client.
  pub revoke-check :
      (env : Env) (secret : ℕ) (file after : TicketFile) (r : TicketRecord) (calls : List Call)
      (later : Env) (remote : ℕ) (found : TicketRecord)
      → revoke iroh env file (ticket_id iroh secret) ≡ (after, ok r)
      → check iroh later (run iroh calls after) secret remote ≢ ok found
  revoke-check env secret file after r calls later remote found h k =
      let (f, v) = revoke-found env (ticket_id iroh secret) file after r h in
      let (l, p, c) = run-conserves calls (ticket_id iroh secret) after r f in
      let (tickets, (o, q, g, (now, n, u))) =
        (check_iff iroh later (run iroh calls after) secret remote found).0 k in
      let s = found_in-Contents (ticket_id iroh secret) (run iroh calls after) tickets found q g in
      ground arith
