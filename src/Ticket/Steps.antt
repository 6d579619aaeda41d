-- ===== src/Ticket/Steps.antt =====
-- crates/drv-thru/src/ticket.rs: one `create` or `revoke`, as one ticket sees it.
use drv_thru.Base.{
  ℕ, ◌≡◌, ◌⊎◌, inl, inr, refl, sym, subst, ap, true, false, none, some, Result, ok, err, ◌>>=◌,
  context, arith, Bool-cases, Option-cases, Result-cases, >>=-eq-ok, ◌∙◌,
}
use drv_thru.Text.{Text, text_eq}
use drv_thru.Text.Prefix.{text_eq_sound}
use drv_thru.TextMap.{lookup, insert, lookup-insert}
use drv_thru.Ticket.{
  TicketRecord, CreateTicket, Tickets, TicketFile, holds, TicketError, Iroh, Env, BuildTicket, load,
  write, write_failed, and_then, add_new, new_entry, prepare, create, revoke, revoked_record,
  ticket_id, ticket_not_found,
}
use drv_thru.Ticket.Calls.{Later, Holds, found_in}

module _ (iroh : Iroh) where
  pub Later-self : (r : TicketRecord) → Later r r 0
  Later-self r = elim r.uses_remaining [ none ↦ ground arith | some n ↦ ground arith ]

  pub Later-same : (r : TicketRecord) (spent : ℕ) → spent ≡ 0 → Later r r spent
  Later-same r spent z = subst (Later r r) (sym z) (Later-self r)

  -- A record that is put in place of the ticket's own, or under an id that was free.
  pub replaced :
      (id key : Text) (tickets : Tickets) (r new : TicketRecord) (spent : ℕ)
      → lookup id tickets ≡ some r
      → (text_eq key id ≡ true → Later r new spent)
      → (text_eq key id ≡ false → spent ≡ 0)
      → Holds iroh id r (holds (insert key new tickets)) spent
  unfolding found_in
  replaced id key tickets r new spent h k z = elim (Bool-cases (text_eq key id)) [
    | inr other ↦
        (r, ground (arith, lookup-insert key id new tickets), Later-same r spent (z other))
    | inl same ↦ (new, ground (arith, lookup-insert key id new tickets), k same)
  ]

  pub write-cases :
      {A : Type 0} (env : Env) (file : TicketFile) (new : Tickets) (a : A)
      → (write env file new a ≡ (holds new, ok a))
        ⊎ (write env file new a ≡ (file, err write_failed))
  unfolding write
  write-cases env file new a = ground arith

  pub stays :
      (id : Text) (tickets : Tickets) (r : TicketRecord)
      → lookup id tickets ≡ some r
      → Holds iroh id r (holds tickets) 0
  unfolding found_in
  stays id tickets r h = (r, h, Later-self r)

  pub add_new-ok :
      (id : Text) (r : TicketRecord) (tickets new : Tickets)
      → add_new iroh id r tickets ≡ ok new
      → (lookup id tickets ≡ none) × (new ≡ insert id r tickets)
  unfolding add_new
  add_new-ok id r tickets new h = elim (Option-cases (lookup id tickets)) [
    | inl k ↦ ground arith
    | inr (old, k) ↦ ground arith
  ]

  pub load-ok :
      (env : Env) (tickets found : Tickets) → load env (holds tickets) ≡ ok found → found ≡ tickets
  unfolding load
  load-ok env tickets found h = ground arith

  -- `create` writes nothing, or adds a record under an id that was free.
  pub prepare-ok :
      (env : Env) (tickets new : Tickets) (options : CreateTicket)
      → prepare iroh env (holds tickets) options ≡ ok new
      → (r : TicketRecord) × (new_entry iroh env options ≡ ok r)
        × (lookup (ticket_id iroh env.secret) tickets ≡ none)
        × (new ≡ insert (ticket_id iroh env.secret) r tickets)
  unfolding prepare
  prepare-ok env tickets new options h =
      let (found, a, h1) =
        >>=-eq-ok (load env (holds tickets))
          (λ t. new_entry iroh env options >>= λ r. add_new iroh (ticket_id iroh env.secret) r t)
          h in
      let (r, b, h2) =
        >>=-eq-ok (new_entry iroh env options)
          (λ r. add_new iroh (ticket_id iroh env.secret) r found) h1 in
      let (c, d) = add_new-ok (ticket_id iroh env.secret) r found new h2 in
      (
        r,
        b,
        subst (λ t. lookup (ticket_id iroh env.secret) t ≡ none) (load-ok env tickets found a) c,
        subst (λ t. new ≡ insert (ticket_id iroh env.secret) r t) (load-ok env tickets found a) d,
      )

  -- A write of one record keeps the ticket if the new state does.
  write_one :
      {A : Type 0} (env : Env) (id : Text) (r : TicketRecord) (tickets new : Tickets) (a : A)
      → lookup id tickets ≡ some r
      → Holds iroh id r (holds new) 0
      → Holds iroh id r (write env (holds tickets) new a).0 0
  write_one env id r tickets new a h k = elim (write-cases env (holds tickets) new a) [
    | inl w ↦ subst (λ m. Holds iroh id r m.0 0) (sym w) k
    | inr w ↦ subst (λ m. Holds iroh id r m.0 0) (sym w) (stays id tickets r h)
  ]

  absent_other :
      (id key : Text) (tickets : Tickets) (r : TicketRecord)
      → lookup id tickets ≡ some r
      → lookup key tickets ≡ none
      → text_eq key id ≡ false
  absent_other id key tickets r h k = elim (Bool-cases (text_eq key id)) [
    | inl e ↦ absurd (ground (arith, text_eq_sound key id e))
    | inr e ↦ e
  ]

  -- What `create` does with the new map.
  unfoldable continue : Env → Tickets → Tickets → TicketFile × Result TicketError BuildTicket
  continue env tickets new =
      write env (holds tickets) new
        (record { encoded = iroh.encode_ticket env.secret; secret = env.secret })

  pub step-create :
      (env : Env) (id : Text) (tickets : Tickets) (options : CreateTicket) (r : TicketRecord)
      → lookup id tickets ≡ some r
      → Holds iroh id r (create iroh env (holds tickets) options).0 0
  unfolding create continue
  step-create env id tickets options r h =
      elim (Result-cases (prepare iroh env (holds tickets) options)) [
        | inr (e, p) ↦
            subst (λ m. Holds iroh id r (and_then (holds tickets) m (continue env tickets)).0 0)
              (sym p) (stays id tickets r h)
        | inl (new, p) ↦
            let (added, a, free, eq) = prepare-ok env tickets new options p in
            subst (λ m. Holds iroh id r (and_then (holds tickets) m (continue env tickets)).0 0)
              (sym p)
              (write_one env id r tickets new _ h (
                subst (λ t. Holds iroh id r (holds t) 0) (sym eq)
                  (replaced id (ticket_id iroh env.secret) tickets r added 0 h
                    (λ e. absurd (
                      ground (arith, absent_other id (ticket_id iroh env.secret) tickets r h free)))
                    (λ e. refl))))
      ]

  pub some-inj : (a b : TicketRecord) → some a ≡ some b → a ≡ b
  some-inj a b h = cc

  unfoldable write_revoked :
      Env → Text → Tickets → Tickets → TicketRecord → TicketFile × Result TicketError TicketRecord
  write_revoked env key tickets found r =
      write env (holds tickets) (insert key (revoked_record iroh r) found) (revoked_record iroh r)

  -- What `revoke` does with the records that it read.
  unfoldable after_load :
      Env → Text → Tickets → Tickets → TicketFile × Result TicketError TicketRecord
  unfolding write_revoked
  after_load env key tickets found =
      and_then (holds tickets) (context (lookup key found) (ticket_not_found key))
        (write_revoked env key tickets found)

  revoked-Later :
      (id key : Text) (tickets : Tickets) (r old : TicketRecord)
      → lookup id tickets ≡ some r
      → lookup key tickets ≡ some old
      → text_eq key id ≡ true
      → Later r (revoked_record iroh old) 0
  revoked-Later id key tickets r old h k e =
      let p = ap (λ i. lookup i tickets) (text_eq_sound key id e) in
      subst (λ o. Later o (revoked_record iroh old) 0) (some-inj old r (sym k ∙ (p ∙ h)))
        (elim old.uses_remaining [ none ↦ ground arith | some n ↦ ground arith ])

  step-after_load :
      (env : Env) (id key : Text) (tickets : Tickets) (r : TicketRecord)
      → lookup id tickets ≡ some r
      → Holds iroh id r (after_load env key tickets tickets).0 0
  unfolding after_load write_revoked
  step-after_load env id key tickets r h = elim (Option-cases (lookup key tickets)) [
    | inl k ↦
        subst
          (λ o.
            Holds iroh id r
              (and_then (holds tickets) (context o (ticket_not_found key))
                (write_revoked env key tickets tickets)).0
              0)
          (sym k) (stays id tickets r h)
    | inr (old, k) ↦
        subst
          (λ o.
            Holds iroh id r
              (and_then (holds tickets) (context o (ticket_not_found key))
                (write_revoked env key tickets tickets)).0
              0)
          (sym k)
          (write_one env id r tickets _ _ h (
            replaced id key tickets r (revoked_record iroh old) 0 h
              (revoked-Later id key tickets r old h k) (λ e. refl)))
  ]

  pub step-revoke :
      (env : Env) (id key : Text) (tickets : Tickets) (r : TicketRecord)
      → lookup id tickets ≡ some r
      → Holds iroh id r (revoke iroh env (holds tickets) key).0 0
  unfolding revoke after_load
  step-revoke env id key tickets r h = elim (Result-cases (load env (holds tickets))) [
    | inr (e, p) ↦
        subst (λ m. Holds iroh id r (and_then (holds tickets) m (after_load env key tickets)).0 0)
          (sym p) (stays id tickets r h)
    | inl (found, p) ↦
        subst (λ m. Holds iroh id r (and_then (holds tickets) m (after_load env key tickets)).0 0)
          (sym p)
          (subst (λ t. Holds iroh id r (after_load env key tickets t).0 0)
            (sym (load-ok env tickets found p)) (step-after_load env id key tickets r h))
  ]
