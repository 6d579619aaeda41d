-- ===== src/Server/Connection/Gate.antt =====
-- crates/drv-thru/src/server/connection.rs: which sessions reach the build queue.
use drv_thru.Base.{
  ℕ, ◌≡◌, ◌⊎◌, inl, inr, refl, sym, ap, ◌∙◌, subst, false, List, [], ◌∷◌, Option, none, some,
  Result, ok, err, map_err, ◌==◌, Bool-cases, ==_iff,
}
use drv_thru.Protocol.{Message, Hello, hello, build_request, BuildRequest, version}
use drv_thru.Protocol.PathChunks.{Incoming, read_with_timeout, of_build_paths}
use drv_thru.Server.Auth.{AuthorizedConnection, authorize_connection, redeem_ticket_if_needed}
use drv_thru.Server.Auth.Laws.{
  AuthorisedAt, Redeemed, Authorisation, Redemption, authorize_connection-Ends, redeem_ticket-Ends,
}
use drv_thru.Server.Build.{left_over}
use drv_thru.Server.Build.Requests.{CheckedBuildRequest, check_build_request}
use drv_thru.Server.Session.{
  Event, World, Session, SessionError, Outcome, reading, path_list_limits, read_message, read_from,
  send_error, finish_control, ◌>>=◌,
}
use drv_thru.Server.Session.Stages.{queued_in}
use drv_thru.Server.Connection.Lifecycle.{read_hello-Ends}
use drv_thru.Server.Session.Logs.{
  Ends, Gives, and_then-Gives, and_then-Ends, Ends-map, Ends-all, send-Ends, read_message-Ends,
  lift-Ends, finish_control-Ends,
}
use drv_thru.Server.Connection.{
  check_hello, same_peer, greet, read_hello, read_build_paths, read_checked_build, build_or_report,
  request_or_report, read_build_or_report, run_accepted, redeem_and_run, serve_authorized,
  handle_incoming,
}

-- The first message is a hello with the server's version and the id of the peer.
abbrev pub Greeted : World → List Incoming → List Incoming → Type 0
Greeted world recv rest =
    (h : Hello) × (recv ≡ ok (hello h) ∷ rest)
    × (h.version ≡ version)
    × (world.iroh.parse_id h.node_id ≡ some world.peer)

-- A hello, an authorisation by the message after it, and the redemption of its ticket if it has one.
abbrev pub Permitted : World → List Incoming → Type 0
Permitted world recv =
    (rest : List Incoming) × Greeted world recv rest
    × (a : AuthorizedConnection) × (b : AuthorizedConnection) × AuthorisedAt world rest a
    × Redeemed world a b

abbrev pub Gated : World → List Incoming → List Event → Type 0
Gated world recv log = (queued_in log ≡ false) ⊎ Permitted world recv

abbrev Quiet : List Event → Type 0
Quiet log = queued_in log ≡ false

module _ (world : World) where
  abbrev GreetedAt : List Incoming → Unit {0} → Session → Type 0
  GreetedAt recv u t = Greeted world recv t.recv

  same_peer-Greeted :
      (h : Hello) (claimed : Option ℕ) (recv : List Incoming) (s : Session)
      → recv ≡ ok (hello h) ∷ s.recv
      → h.version ≡ version
      → world.iroh.parse_id h.node_id ≡ claimed
      → Gives (GreetedAt recv) (same_peer world.peer claimed h.node_id s)
  same_peer-Greeted h none recv s r v c = tt
  same_peer-Greeted h (some claimed) recv s r v c = elim (Bool-cases (claimed == world.peer)) [
    | inl e ↦ rw e (h, r, v, c ∙ ap some ((==_iff claimed world.peer).0 e))
    | inr e ↦ rw e tt
  ]

  greet-Greeted :
      (message : Message) (recv : List Incoming) (s : Session)
      → recv ≡ ok message ∷ s.recv
      → Gives (GreetedAt recv) (greet world message s)
  unfolding check_hello
  greet-Greeted (hello h) recv s r = elim (Bool-cases (h.version == version)) [
    | inl e ↦ rw e (
        same_peer-Greeted h (world.iroh.parse_id h.node_id) recv s r
          ((==_iff h.version version).0 e) refl)
    | inr e ↦ rw e tt
  ]
  greet-Greeted message recv s r = tt

  read_hello-Greeted : (s : Session) → Gives (GreetedAt s.recv) (read_hello world s)
  unfolding read_hello read_message
  read_hello-Greeted s = first s.recv refl
    where
      first :
          (recv : List Incoming)
          → s.recv ≡ recv
          → Gives (GreetedAt s.recv) ((read_from recv >>= greet world) s)
      first [] e = tt
      first (err x ∷ rest) e = tt
      first (ok message ∷ rest) e = greet-Greeted message s.recv (record s { recv = rest }) e

  -- The calls before the queue.
  left_over-Quiet :
      {A : Type 0} (s : Session) (r : Result SessionError (A × List Incoming))
      → Quiet s.log
      → Ends (λ a. Quiet) Quiet (left_over s r)
  left_over-Quiet s (ok (a, recv)) h = h
  left_over-Quiet s (err e) h = h

  read_checked_build-Quiet :
      (request : BuildRequest) (s : Session)
      → Quiet s.log
      → Ends (λ b. Quiet) Quiet (read_checked_build request s)
  unfolding read_checked_build read_build_paths
  read_checked_build-Quiet request s h =
      and_then-Ends (λ p. Quiet) (λ b. Quiet) Quiet _ _
        (left_over-Quiet s
          (map_err reading (read_with_timeout of_build_paths path_list_limits s.recv)) h)
        λ paths t k. lift-Ends Quiet (λ b. Quiet) (check_build_request request paths) t (λ a e. k) k

  build_or_report-Quiet :
      (o : Outcome CheckedBuildRequest)
      → Ends (λ b. Quiet) Quiet o
      → Ends (λ b. Quiet) Quiet (build_or_report world o)
  unfolding send_error
  build_or_report-Quiet (ok build, s) h = h
  build_or_report-Quiet (err e, s) h =
      and_then-Ends (λ u. Quiet) (λ b. Quiet) Quiet (send_error (world.show e) s) _
        (send-Ends Quiet (λ u. Quiet) (Message.error (world.show e)) s h h)
        λ u t k.
          and_then-Ends (λ u. Quiet) (λ b. Quiet) Quiet (finish_control world t) _
            (finish_control-Ends Quiet (λ u. Quiet) world t k k) λ u v l. l

  request_or_report-Quiet :
      (message : Message) (s : Session)
      → Quiet s.log
      → Ends (λ b. Quiet) Quiet (request_or_report world message s)
  request_or_report-Quiet (build_request request) s h =
      build_or_report-Quiet (read_checked_build request s) (read_checked_build-Quiet request s h)
  request_or_report-Quiet message s h = h

  read_build_or_report-Quiet :
      (s : Session) → Quiet s.log → Ends (λ b. Quiet) Quiet (read_build_or_report world s)
  unfolding read_build_or_report
  read_build_or_report-Quiet s h =
      and_then-Ends (λ m. Quiet) (λ b. Quiet) Quiet (read_message s) (request_or_report world)
        (read_message-Ends Quiet (λ m. Quiet) s (λ m. h) h)
        λ message t k. request_or_report-Quiet message t k

  module _ (recv rest : List Incoming) (greeted : Greeted world recv rest) where
    run_accepted-Gated :
        (build : CheckedBuildRequest) (a : AuthorizedConnection)
        (redeemed : Option AuthorizedConnection) (before : List Event) (s : Session)
        → AuthorisedAt world rest a
        → Quiet before
        → Redemption world a before redeemed s.log
        → Ends (λ u. Gated world recv) (Gated world recv) (run_accepted world build redeemed s)
    run_accepted-Gated build a none before s by h (text, e) =
        let quiet : Quiet s.log = rw e h in
        finish_control-Ends (Gated world recv) (λ u. Gated world recv) world s (inl quiet)
          (inl quiet)
    run_accepted-Gated build a (some b) before s by h (r, e) =
        Ends-all (Gated world recv) (λ log. inr (rest, greeted, a, b, by, r)) _

    redeem_and_run-Gated :
        (a : AuthorizedConnection) (build : Option CheckedBuildRequest) (s : Session)
        → AuthorisedAt world rest a
        → Quiet s.log
        → Ends (λ u. Gated world recv) (Gated world recv) (redeem_and_run world a build s)
    redeem_and_run-Gated a none s by h = inl h
    redeem_and_run-Gated a (some build) s by h =
        and_then-Ends (Redemption world a s.log) (λ u. Gated world recv) (Gated world recv)
          (redeem_ticket_if_needed world a s) (run_accepted world build)
          (Ends-map (Redemption world a s.log) (Redemption world a s.log) (λ log. log ≡ s.log)
            (Gated world recv) (λ a log k. k) (λ log k. inl (rw k h))
            (redeem_ticket_if_needed world a s) (redeem_ticket-Ends world a s))
          λ redeemed t k. run_accepted-Gated build a redeemed s.log t by h k

    serve_authorized-Gated :
        (authorized : Option AuthorizedConnection) (before : List Event) (s : Session)
        → Quiet before
        → Authorisation world rest before authorized s.log
        → Ends (λ u. Gated world recv) (Gated world recv) (serve_authorized world authorized s)
    serve_authorized-Gated none before s h (text, e) =
        let quiet : Quiet s.log = rw e h in
        finish_control-Ends (Gated world recv) (λ u. Gated world recv) world s (inl quiet)
          (inl quiet)
    serve_authorized-Gated (some a) before s h (by, (answer, is_key, e)) =
        and_then-Ends (λ b. Quiet) (λ u. Gated world recv) (Gated world recv)
          (read_build_or_report world s) (redeem_and_run world a)
          (Ends-map (λ b. Quiet) (λ b. Quiet) Quiet (Gated world recv) (λ b log k. k)
            (λ log k. inl k) (read_build_or_report world s) (read_build_or_report-Quiet s (rw e h)))
          λ build t k. redeem_and_run-Gated a build t by k

-- Whatever the client sends, a session that starts without a build in its log puts one into the
-- queue only after a hello with the server's version and the id of the peer, followed by a message
-- that asks for a trusted client, who is one, or that has the secret of a ticket that the store's
-- check accepted and that was then redeemed; this holds whether or not the session ends in an error.
pub handle_incoming-Gated :
    (world : World) (s : Session)
    → queued_in s.log ≡ false
    → Ends (λ u. Gated world s.recv) (Gated world s.recv) (handle_incoming world s)
unfolding handle_incoming
handle_incoming-Gated world s h =
    and_then-Gives (λ u log. log ≡ s.log) (GreetedAt world s.recv) (λ u. Gated world s.recv)
      (Gated world s.recv) (read_hello world s) _
      (Ends-map _ (λ u log. log ≡ s.log) _ (Gated world s.recv) (λ u log k. k)
        (λ log k. inl (rw k h)) (read_hello world s) (read_hello-Ends world s))
      (read_hello-Greeted world s)
      λ u t k greeted.
        and_then-Ends (Authorisation world t.recv t.log) (λ u. Gated world s.recv)
          (Gated world s.recv) (authorize_connection world t) (serve_authorized world)
          (Ends-map _ (Authorisation world t.recv t.log) _ (Gated world s.recv) (λ a log l. l)
            (λ log l. inl (subst Quiet (sym (l ∙ k)) h)) (authorize_connection world t)
            (authorize_connection-Ends world t))
          λ authorized v l.
            serve_authorized-Gated world s.recv t.recv greeted authorized t.log v (rw k h) l
