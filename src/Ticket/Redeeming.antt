-- ===== src/Ticket/Redeeming.antt =====
-- crates/drv-thru/src/ticket.rs: one redemption, as one ticket sees it.
use drv_thru.Base.{
  ℕ, ◌-◌, ◌<◌, ◌≡◌, inl, inr, refl, sym, subst, ap, true, false, Option, none, some, Result, ok,
  err, arith, Bool-cases, Result-cases, ◌∙◌,
}
use drv_thru.Text.{Text, text_eq}
use drv_thru.Text.Prefix.{text_eq_sound}
use drv_thru.TextMap.{lookup, insert}
use drv_thru.Ticket.{
  TicketRecord, Tickets, TicketFile, holds, TicketError, Iroh, Env, write_failed, and_then,
  ticket_id, validated, use_up, redeem,
}
use drv_thru.Ticket.Validity.{validated_iff, UsesLeft}
use drv_thru.Ticket.Calls.{Later, Holds, found_in, is_ok, spent_by}
use drv_thru.Ticket.Steps.{stays, write-cases, replaced, Later-same, some-inj}

module _ (iroh : Iroh) where
  -- The outcome of a redemption of the ticket `key`.
  abbrev After : Text → Text → TicketRecord → TicketFile × Result TicketError TicketRecord → Type 0
  After id key r m = Holds iroh id r m.0 (spent_by id key (is_ok m.1))

  not_spent : (id key : Text) → spent_by id key false ≡ 0
  unfolding spent_by
  not_spent id key = ground arith

  spent_same : (id key : Text) → text_eq key id ≡ true → spent_by id key true ≡ 1
  unfolding spent_by
  spent_same id key h = ground arith

  spent_other : (id key : Text) → text_eq key id ≡ false → spent_by id key true ≡ 0
  unfolding spent_by
  spent_other id key h = ground arith

  same_record :
      (id key : Text) (tickets : Tickets) (r old : TicketRecord)
      → lookup id tickets ≡ some r
      → lookup key tickets ≡ some old
      → text_eq key id ≡ true
      → old ≡ r
  same_record id key tickets r old h k e =
      some-inj iroh old r (sym k ∙ (ap (λ i. lookup i tickets) (text_eq_sound key id e) ∙ h))

  After-failure :
      (id key : Text) (tickets : Tickets) (r : TicketRecord) (e : TicketError)
      → lookup id tickets ≡ some r
      → After id key r (holds tickets, err e)
  After-failure id key tickets r e h =
      subst (Holds iroh id r (holds tickets)) (sym (not_spent id key)) (stays iroh id tickets r h)

  spend_free :
      (r : TicketRecord) (spent : ℕ) → r.revoked ≡ false → r.uses_remaining ≡ none → Later r r spent
  spend_free r spent v u = ground arith

  spend_one :
      (r : TicketRecord) (uses spent : ℕ)
      → spent ≡ 1
      → r.revoked ≡ false
      → r.uses_remaining ≡ some uses
      → 0 < uses
      → Later r (record r { uses_remaining = some (uses - 1) }) spent
  spend_one r uses spent s v u p = ground arith

  -- A ticket without a counter.
  After-uncounted :
      (id key : Text) (tickets : Tickets) (r old : TicketRecord)
      → lookup id tickets ≡ some r
      → lookup key tickets ≡ some old
      → old.revoked ≡ false
      → old.uses_remaining ≡ none
      → After id key r (holds tickets, ok old)
  unfolding found_in
  After-uncounted id key tickets r old h k v u = (
    r,
    h,
    elim (Bool-cases (text_eq key id)) [
      | inl e ↦
          subst (λ o. Later o o (spent_by id key true)) (same_record id key tickets r old h k e)
            (spend_free old (spent_by id key true) v u)
      | inr e ↦ Later-same iroh r (spent_by id key true) (spent_other id key e)
    ],
  )

  After-counted :
      (env : Env) (id key : Text) (tickets : Tickets) (r old : TicketRecord) (uses : ℕ)
      → lookup id tickets ≡ some r
      → lookup key tickets ≡ some old
      → old.revoked ≡ false
      → old.uses_remaining ≡ some uses
      → 0 < uses
      → After id key r (use_up iroh env (holds tickets) tickets key old (some uses))
  After-counted env id key tickets r old uses h k v u p =
      let redeemed = record old { uses_remaining = some (uses - 1) } in
      elim (write-cases iroh env (holds tickets) (insert key redeemed tickets) redeemed) [
        | inr w ↦ subst (After id key r) (sym w) (After-failure id key tickets r write_failed h)
        | inl w ↦ subst (After id key r) (sym w) (
            replaced iroh id key tickets r redeemed (spent_by id key true) h
              (λ e.
                subst (λ o. Later o redeemed (spent_by id key true))
                  (same_record id key tickets r old h k e)
                  (spend_one old uses (spent_by id key true) (spent_same id key e) v u p))
              (spent_other id key))
      ]

  After-use_up :
      (env : Env) (id key : Text) (tickets : Tickets) (r old : TicketRecord) (uses : Option ℕ)
      → lookup id tickets ≡ some r
      → lookup key tickets ≡ some old
      → old.revoked ≡ false
      → old.uses_remaining ≡ uses
      → UsesLeft uses
      → After id key r (use_up iroh env (holds tickets) tickets key old uses)
  After-use_up env id key tickets r old none h k v u p =
      After-uncounted id key tickets r old h k v u
  After-use_up env id key tickets r old (some uses) h k v u p =
      After-counted env id key tickets r old uses h k v u p

  unfoldable after_validated :
      Env → Text → Tickets → Tickets × TicketRecord → TicketFile × Result TicketError TicketRecord
  after_validated env key tickets found =
      use_up iroh env (holds tickets) found.0 key found.1 found.1.uses_remaining

  pub step-redeem :
      (env : Env) (id : Text) (secret remote : ℕ) (tickets : Tickets) (r : TicketRecord)
      → lookup id tickets ≡ some r
      → After id (ticket_id iroh secret) r (redeem iroh env (holds tickets) secret remote)
  unfolding redeem after_validated
  step-redeem env id secret remote tickets r h =
      elim (Result-cases (validated iroh env (holds tickets) secret remote)) [
        | inr (e, p) ↦
            subst
              (λ m.
                After id (ticket_id iroh secret) r (
                  and_then (holds tickets) m (after_validated env (ticket_id iroh secret) tickets)))
              (sym p) (After-failure id (ticket_id iroh secret) tickets r e h)
        | inl ((found, old), p) ↦
            let (l, c, k, (now, n, (v, x, b, u))) =
              (validated_iff iroh env (holds tickets) secret remote found old).0 p in
            subst
              (λ m.
                After id (ticket_id iroh secret) r (
                  and_then (holds tickets) m (after_validated env (ticket_id iroh secret) tickets)))
              (sym p)
              (subst
                (λ t.
                  After id (ticket_id iroh secret) r
                    (after_validated env (ticket_id iroh secret) tickets (t, old)))
                (sym c)
                (After-use_up env id (ticket_id iroh secret) tickets r old old.uses_remaining h
                  (subst (λ t. lookup (ticket_id iroh secret) t ≡ some old) c k) v refl u))
      ]
