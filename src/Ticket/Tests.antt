-- ===== src/Ticket/Tests.antt =====
-- crates/drv-thru/src/ticket.rs: runs of the store at concrete tickets.
use drv_thru.Base.{ℕ, ◌≡◌, ◌≢◌, ◌≤◌, ◌↔◌, refl, true, false, List, [], ◌∷◌, Option, none, some, ok}
use drv_thru.Text.{Text, codes}
use drv_thru.Ticket.{
  TicketRecord, CreateTicket, Tickets, TicketFile, absent, holds, Iroh, Env, create, revoke, check,
  ticket_id, revoked_record,
}
use drv_thru.Ticket.Validity.{Accepted, check_iff}
use drv_thru.Ticket.Calls.{Call, redeems, run, redemptions, found_in, Holds}
use drv_thru.Ticket.Runs.{run-conserves, redemptions-bounded, revoke-check}

abbrev iroh : Iroh
iroh = record {
  parse_id = λ t. if_empty t;
  public_text = λ secret. secret ∷ [];
  encode_ticket = λ secret. 100 ∷ secret ∷ [];
}
  where
    if_empty : Text → Option ℕ
    if_empty [] = none
    if_empty (c ∷ t) = some c

abbrev at : ℕ → Env
at now = record { now = some now; secret = 7; lock_ok = true; read_ok = true; write_ok = true }

abbrev options : CreateTicket
options = record {
  name = none;
  bound_client = some (9 ∷ []);
  expires_after = 50;
  uses_remaining = some 2;
  max_build_time = codes "1h";
  max_upload_bytes = codes "1GiB";
}

abbrev calls : List Call
calls =
    redeems (at 110) 7 9 ∷ redeems (at 111) 7 8 ∷ redeems (at 120) 7 9 ∷ redeems (at 121) 7 9 ∷ []

abbrev stored : TicketRecord
stored = record {
  encoded_ticket = 100 ∷ 7 ∷ [];
  created_at_unix = 100;
  name = some (codes "ticket-100");
  expires_at_unix = 150;
  uses_remaining = some 2;
  max_build_time = codes "1h";
  max_upload_bytes = codes "1GiB";
  bound_client = some (9 ∷ []);
  revoked = false;
}

abbrev file : TicketFile
file = holds ((7 ∷ [], stored) ∷ [])

created :
    create iroh (at 100) absent options ≡ (file, ok (record { encoded = 100 ∷ 7 ∷ []; secret = 7 }))
unfolding create
created = refl

is_found : found_in (7 ∷ []) file ≡ some stored
unfolding found_in
is_found = refl

-- One redemption of another client and one too many fail.
redeemed_twice : redemptions iroh (7 ∷ []) calls file ≡ 2
unfolding redemptions
redeemed_twice = refl

revoked :
    revoke iroh (at 130) file (7 ∷ [])
    ≡ (holds ((7 ∷ [], revoked_record iroh stored) ∷ []), ok (revoked_record iroh stored))
unfolding revoke
revoked = refl

id_7 : ticket_id iroh 7 ≡ 7 ∷ []
unfolding ticket_id
id_7 = refl

check_iff_example :
    (check iroh (at 149) file 7 9 ≡ ok stored)
    ↔ ((tickets : Tickets) × Accepted iroh (at 149) file 7 9 tickets stored)
check_iff_example = check_iff iroh (at 149) file 7 9 stored

run-conserves_example :
    Holds iroh (7 ∷ []) stored (run iroh calls file) (redemptions iroh (7 ∷ []) calls file)
run-conserves_example = run-conserves iroh calls (7 ∷ []) file stored is_found

redemptions-bounded_example : redemptions iroh (7 ∷ []) calls file ≤ 2
redemptions-bounded_example = redemptions-bounded iroh calls (7 ∷ []) file stored 2 is_found refl

revoked_7 :
    revoke iroh (at 130) file (ticket_id iroh 7)
    ≡ (holds ((7 ∷ [], revoked_record iroh stored) ∷ []), ok (revoked_record iroh stored))
unfolding revoke ticket_id
revoked_7 = refl

revoke-check_example :
    check iroh (at 140) (run iroh calls (holds ((7 ∷ [], revoked_record iroh stored) ∷ []))) 7 9
    ≢ ok stored
revoke-check_example =
    revoke-check iroh (at 130) 7 file (holds ((7 ∷ [], revoked_record iroh stored) ∷ []))
      (revoked_record iroh stored) calls (at 140) 9 stored revoked_7
