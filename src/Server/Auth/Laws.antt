-- ===== src/Server/Auth/Laws.antt =====
-- crates/drv-thru/src/server/auth.rs: who is authorised, and with which limits.
use drv_thru.Base.{ℕ, ◌≡◌, ◌⊎◌, inl, inr, refl, ap, List, ◌∷◌, Option, none, some, Result, ok, err}
use drv_thru.Text.{Text, codes}
use drv_thru.Ticket.{TicketRecord, TicketError, check, redeem}
use drv_thru.Access.{AuthorizedClient, authorize}
use drv_thru.Config.{parse_duration, parse_byte_count}
use drv_thru.Protocol.{Message, AuthOk, auth_trusted_client, auth_ticket, auth_ok, error}
use drv_thru.Protocol.PathChunks.{Incoming}
use drv_thru.Server.Session.{
  Event, sends, World, Session, SessionError, expected_auth, ticket_error, send, send_error, lift,
  pass, M, ◌>>=◌, ◌>>◌,
}
use drv_thru.Server.Session.Logs.{
  Ends, and_then-Ends, send-Ends, read_message-Ends, lift-Ends, and_then-Gives, read_message-Gives,
}
use drv_thru.Server.Auth.{
  AuthorizedConnection, limit_of, parse_optional, write_auth_ok, trust, admit,
  authorize_trusted_client, authorize_ticket, authorize_by, authorize_connection, with_limits,
  redeem_secret, redeem_ticket_if_needed,
}

-- A message of a trusted client, with the limits of the policy.
abbrev pub ByTrust : World → Message → AuthorizedConnection → Type 0
ByTrust world message a =
    (client : AuthorizedClient) × (message ≡ auth_trusted_client)
    × (authorize world.policy world.peer ≡ some client)
    × (parse_optional parse_duration client.policy.max_build_time ≡ ok a.max_build_time)
    × (parse_optional parse_byte_count client.policy.max_upload_bytes ≡ ok a.max_upload_bytes)
    × (a.ticket_secret ≡ none)

-- The limits of a ticket's record.
abbrev pub LimitsOf : TicketRecord → AuthorizedConnection → Type 0
LimitsOf r a =
    (limit_of (parse_duration r.max_build_time) ≡ ok a.max_build_time)
    × (limit_of (parse_byte_count r.max_upload_bytes) ≡ ok a.max_upload_bytes)

-- A message with the secret of a ticket that the store's check accepts.
abbrev pub ByTicket : World → Message → AuthorizedConnection → Type 0
ByTicket world message a =
    (secret : ℕ) × (r : TicketRecord) × (message ≡ auth_ticket secret)
    × (check world.iroh world.check_env world.check_file secret world.peer ≡ ok r)
    × LimitsOf r a
    × (a.ticket_secret ≡ some secret)

abbrev pub AuthorisedBy : World → Message → AuthorizedConnection → Type 0
AuthorisedBy world message a = ByTrust world message a ⊎ ByTicket world message a

-- By the message that comes first.
abbrev pub AuthorisedAt : World → List Incoming → AuthorizedConnection → Type 0
AuthorisedAt world recv a =
    (message : Message) × (rest : List Incoming) × (recv ≡ ok message ∷ rest)
    × AuthorisedBy world message a

-- One error message more.
abbrev pub Refused : List Event → List Event → Type 0
Refused before log = (text : Text) × (log ≡ sends (error text) ∷ before)

-- An authorised session has sent `auth_ok`, one that is not has sent an error.
abbrev pub Authorisation :
    World → List Incoming → List Event → Option AuthorizedConnection → List Event → Type 0
Authorisation world recv before none log = Refused before log
Authorisation world recv before (some a) log =
    AuthorisedAt world recv a
    × ((answer : AuthOk) × (answer.builder_public_key ≡ world.builder_public_key)
        × (log ≡ sends (auth_ok answer) ∷ before))

-- What a redemption gives: nothing to redeem, or the limits of the redeemed record.
abbrev pub Redeemed : World → AuthorizedConnection → AuthorizedConnection → Type 0
Redeemed world a b =
    ((a.ticket_secret ≡ none) × (b ≡ a))
    ⊎ ((secret : ℕ) × (r : TicketRecord) × (a.ticket_secret ≡ some secret)
        × ((redeem world.iroh world.redeem_env world.redeem_file secret world.peer).1 ≡ ok r)
        × LimitsOf r b)

abbrev pub Redemption :
    World → AuthorizedConnection → List Event → Option AuthorizedConnection → List Event → Type 0
Redemption world a before none log = Refused before log
Redemption world a before (some b) log = Redeemed world a b × (log ≡ before)

module _ (world : World) (before : List Event) where
  abbrev Same : List Event → Type 0
  Same log = log ≡ before

  -- An error message ends the authorisation.
  refuse-Ends :
      (P : Option AuthorizedConnection → List Event → Type 0) (text : Text) (s : Session)
      → Same s.log
      → ((log : List Event) → Refused before log → P none log)
      → Ends P Same ((send_error text >> pass none) s)
  unfolding send_error
  refuse-Ends P text s h f =
      and_then-Ends (λ u. Refused before) P Same (send (error text) s) _
        (send-Ends Same (λ u. Refused before) (error text) s (text, ap (◌∷◌ (sends (error text))) h)
          h)
        λ u t k. f t.log k

  -- Two limits are read, without a word to the client.
  limits-Ends :
      {B : Type 0} (R : B → List Event → Type 0) (m n : Result SessionError (Option ℕ))
      (k : Option ℕ → Option ℕ → M B) (s : Session)
      → Same s.log
      → ((time bytes : Option ℕ) (t : Session)
          → m ≡ ok time
          → n ≡ ok bytes
          → Same t.log
          → Ends R Same (k time bytes t))
      → Ends R Same ((lift m >>= λ time. lift n >>= λ bytes. k time bytes) s)
  limits-Ends R m n k s h next =
      and_then-Ends (λ time log. Same log × (m ≡ ok time)) R Same (lift m s) _
        (lift-Ends Same _ m s (λ a e. (h, e)) h)
        λ time t (h1, is_time).
          and_then-Ends (λ bytes log. Same log × (n ≡ ok bytes)) R Same (lift n t) _
            (lift-Ends Same _ n t (λ a e. (h1, e)) h1)
            λ bytes v (h2, is_bytes). next time bytes v is_time is_bytes h2

  module _ (recv : List Incoming) where
    -- The answer, and then the connection.
    answer-Ends :
        (name : Option Text) (a : AuthorizedConnection) (s : Session)
        → AuthorisedAt world recv a
        → Same s.log
        → Ends
            (Authorisation world recv before)
            Same
            ((write_auth_ok world name >> pass (some a)) s)
    unfolding write_auth_ok
    answer-Ends name a s by h =
        let answer : AuthOk = record {
          client_name = name;
          builder_public_key = world.builder_public_key;
        } in
        and_then-Ends (λ u. Authorisation world recv before (some a))
          (Authorisation world recv before) Same (send (auth_ok answer) s) _
          (send-Ends Same (λ u. Authorisation world recv before (some a)) (auth_ok answer) s
            (by, (answer, refl, ap (◌∷◌ (sends (auth_ok answer))) h)) h)
          λ u w sent. sent

    admit-Ends :
        (secret : ℕ) (rest : List Incoming) (checked : Result TicketError TicketRecord)
        (s : Session)
        → recv ≡ ok (auth_ticket secret) ∷ rest
        → check world.iroh world.check_env world.check_file secret world.peer ≡ checked
        → Same s.log
        → Ends (Authorisation world recv before) Same (admit world secret checked s)
    admit-Ends secret rest (err e) s came c h =
        refuse-Ends (Authorisation world recv before) (world.show (ticket_error e)) s h λ log k. k
    admit-Ends secret rest (ok r) s came c h =
        limits-Ends (Authorisation world recv before) (limit_of (parse_duration r.max_build_time))
          (limit_of (parse_byte_count r.max_upload_bytes)) _ s h
          λ time bytes t is_time is_bytes k.
            answer-Ends r.name _ t
              (auth_ticket secret, rest, came, inr (secret, r, refl, c, (is_time, is_bytes), refl))
              k

    trust-Ends :
        (rest : List Incoming) (found : Option AuthorizedClient) (s : Session)
        → recv ≡ ok auth_trusted_client ∷ rest
        → authorize world.policy world.peer ≡ found
        → Same s.log
        → Ends (Authorisation world recv before) Same (trust world found s)
    trust-Ends rest none s came c h =
        refuse-Ends (Authorisation world recv before) (codes "client is not trusted") s h λ log k. k
    trust-Ends rest (some client) s came c h =
        limits-Ends (Authorisation world recv before)
          (parse_optional parse_duration client.policy.max_build_time)
          (parse_optional parse_byte_count client.policy.max_upload_bytes) _ s h
          λ time bytes t is_time is_bytes k.
            answer-Ends client.name _ t
              (auth_trusted_client, rest, came, inl (client, refl, c, is_time, is_bytes, refl)) k

    authorize_by-Ends :
        (message : Message) (rest : List Incoming) (s : Session)
        → recv ≡ ok message ∷ rest
        → Same s.log
        → Ends (Authorisation world recv before) Same (authorize_by world message s)
    unfolding authorize_trusted_client authorize_ticket
    authorize_by-Ends auth_trusted_client rest s came h =
        trust-Ends rest (authorize world.policy world.peer) s came refl h
    authorize_by-Ends (auth_ticket secret) rest s came h = admit-Ends secret rest _ s came refl h
    authorize_by-Ends message rest s came h =
        refuse-Ends (Authorisation world recv before) (world.show (expected_auth message)) s h
          λ log k. k

-- Whatever the client sends, an authorised session stands for a trusted client whose message asks for
-- that, with the limits of the policy, or for the ticket whose secret is in its message, if the
-- store's check accepts it, with the limits of its record, and has sent `auth_ok` and nothing else; a
-- session that is not authorised has sent an error and nothing else, and one that ends in an error
-- of its own has sent nothing.
pub authorize_connection-Ends :
    (world : World) (s : Session)
    → Ends (Authorisation world s.recv s.log) (λ log. log ≡ s.log) (authorize_connection world s)
unfolding authorize_connection
authorize_connection-Ends world s =
    and_then-Gives (λ message log. log ≡ s.log) (λ message t. s.recv ≡ ok message ∷ t.recv)
      (Authorisation world s.recv s.log) (λ log. log ≡ s.log) _ _
      (read_message-Ends (λ log. log ≡ s.log) _ s (λ message. refl) refl) (read_message-Gives s)
      λ message t h came. authorize_by-Ends world s.log s.recv message t.recv t came h

with_limits-Ends :
    (world : World) (a : AuthorizedConnection) (secret : ℕ)
    (redeemed : Result TicketError TicketRecord) (s : Session)
    → a.ticket_secret ≡ some secret
    → (redeem world.iroh world.redeem_env world.redeem_file secret world.peer).1 ≡ redeemed
    → Ends (Redemption world a s.log) (λ log. log ≡ s.log) (with_limits world a redeemed s)
with_limits-Ends world a secret (err e) s held c =
    refuse-Ends world s.log (Redemption world a s.log) (world.show (ticket_error e)) s refl
      λ log k. k
with_limits-Ends world a secret (ok r) s held c =
    limits-Ends world s.log (Redemption world a s.log) (limit_of (parse_duration r.max_build_time))
      (limit_of (parse_byte_count r.max_upload_bytes)) _ s refl
      λ time bytes t is_time is_bytes k. (inr (secret, r, held, c, (is_time, is_bytes)), k)

redeem_secret-Ends :
    (world : World) (a : AuthorizedConnection) (held : Option ℕ) (s : Session)
    → a.ticket_secret ≡ held
    → Ends (Redemption world a s.log) (λ log. log ≡ s.log) (redeem_secret world a held s)
redeem_secret-Ends world a none s h = (inl (h, refl), refl)
redeem_secret-Ends world a (some secret) s h = with_limits-Ends world a secret _ s h refl

pub redeem_ticket-Ends :
    (world : World) (a : AuthorizedConnection) (s : Session)
    → Ends (Redemption world a s.log) (λ log. log ≡ s.log) (redeem_ticket_if_needed world a s)
unfolding redeem_ticket_if_needed
redeem_ticket-Ends world a s = redeem_secret-Ends world a a.ticket_secret s refl
