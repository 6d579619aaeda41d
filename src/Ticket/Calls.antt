-- ===== src/Ticket/Calls.antt =====
-- crates/drv-thru/src/ticket.rs: sequences of the store's calls, in this process or in another one
-- that takes the same lock, and what a later state of a ticket is.
use drv_thru.Base.{
  ℕ, ◌+◌, ◌≡◌, ◌⊎◌, Bool, true, false, List, [], ◌∷◌, Option, none, some, Result, ok, err,
  if◌then◌else◌,
}
use drv_thru.Text.{Text, text_eq}
use drv_thru.TextMap.{lookup}
use drv_thru.Ticket.{
  TicketRecord, CreateTicket, TicketFile, absent, corrupt, holds, Iroh, Env, create, revoke,
  ticket_id, redeem,
}

-- One call that may write the file. `check`, `load` and `record` only read it.
pub data Call : Type 0 where
  creates : Env → CreateTicket → Call
  revokes : Env → Text → Call
  redeems : Env → ℕ → ℕ → Call

abbrev pub is_ok {ℓ κ} : {E : Type κ} {A : Type ℓ} → Result E A → Bool
is_ok (ok a) = true
is_ok (err e) = false

-- The counter and the redemptions so far, together.
abbrev pub uses_sum : Option ℕ → ℕ → Option ℕ
uses_sum none spent = none
uses_sum (some uses) spent = some (uses + spent)

-- A later state of a ticket: what is left and what was spent make what there was, and a revoked
-- ticket stays so and is not spent.
abbrev pub Later : TicketRecord → TicketRecord → ℕ → Type 0
Later r later spent =
    (uses_sum later.uses_remaining spent ≡ r.uses_remaining)
    × (later.expires_at_unix ≡ r.expires_at_unix)
    × (later.bound_client ≡ r.bound_client)
    × ((r.revoked ≡ false) ⊎ ((later.revoked ≡ true) × (spent ≡ 0)))

unfoldable pub found_in : Text → TicketFile → Option TicketRecord
unfolding lookup
found_in id absent = none
found_in id corrupt = none
found_in id (holds tickets) = lookup id tickets

unfoldable pub spent_by : Text → Text → Bool → ℕ
unfolding text_eq
spent_by id key success = if text_eq key id then if success then 1 else 0 else 0

module _ (iroh : Iroh) where
  unfoldable pub apply : Call → TicketFile → TicketFile
  unfolding create revoke redeem
  apply (creates env options) file = (create iroh env file options).0
  apply (revokes env id) file = (revoke iroh env file id).0
  apply (redeems env secret remote) file = (redeem iroh env file secret remote).0

  -- One if the call is a redemption of the ticket that succeeds.
  unfoldable pub spends : Text → Call → TicketFile → ℕ
  unfolding redeem ticket_id text_eq spent_by
  spends id (creates env options) file = 0
  spends id (revokes env other) file = 0
  spends id (redeems env secret remote) file =
      spent_by id (ticket_id iroh secret) (is_ok (redeem iroh env file secret remote).1)

  unfoldable pub run : List Call → TicketFile → TicketFile
  unfolding apply
  run [] file = file
  run (call ∷ calls) file = run calls (apply call file)

  unfoldable pub redemptions : Text → List Call → TicketFile → ℕ
  unfolding spends apply
  redemptions id [] file = 0
  redemptions id (call ∷ calls) file = spends id call file + redemptions id calls (apply call file)

  -- The file still holds the ticket, in a later state.
  abbrev pub Holds : Text → TicketRecord → TicketFile → ℕ → Type 0
  Holds id r file spent =
      (later : TicketRecord) × (found_in id file ≡ some later) × Later r later spent
