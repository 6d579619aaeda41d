-- ===== src/Server/Connection/Lifecycle.antt =====
-- crates/drv-thru/src/server/connection.rs: the order of a session's events, and how it ends.
use drv_thru.Base.{
  ℕ, ◌≡◌, refl, subst, List, [], Option, none, some, Result, ok, err, map_err, not, ◌==◌, ◌∙◌,
}
use drv_thru.Text.{Text}
use drv_thru.Protocol.{Message, hello, build_request, BuildRequest, version}
use drv_thru.Protocol.PathChunks.{Incoming, read_with_timeout, of_build_paths}
use drv_thru.Server.Auth.{AuthorizedConnection, authorize_connection, redeem_ticket_if_needed}
use drv_thru.Server.Auth.Laws.{
  Authorisation, Redemption, authorize_connection-Ends, redeem_ticket-Ends,
}
use drv_thru.Server.Build.{left_over}
use drv_thru.Server.Build.Requests.{CheckedBuildRequest, check_build_request}
use drv_thru.Server.Session.{
  Event, World, Session, SessionError, Outcome, read_message, send_error, finish_control, reading,
  path_list_limits,
}
use drv_thru.Server.Session.Stages.{Stage, greeting, authorised, over, In}
use drv_thru.Server.Session.Logs.{
  Ends, and_then-Ends, Ends-map, send-Ends, read_message-Ends, lift-Ends, if-Ends,
  finish_control-Ends,
}
use drv_thru.Server.Connection.Runs.{Settled, run_accepted-Ends}
use drv_thru.Server.Connection.{
  check_hello, same_peer, greet, read_hello, read_checked_build, read_build_paths, build_or_report,
  request_or_report, read_build_or_report, run_accepted, redeem_and_run, serve_authorized,
  handle_incoming,
}

module _ (world : World) where
  -- Reading leaves the log, and an error in the request is reported.
  kept_over :
      {A : Type 0} (stage : Stage) (s : Session) (r : Result SessionError (A × List Incoming))
      → In world.request_id stage s.log
      → Ends (λ a. In world.request_id stage) (In world.request_id stage) (left_over s r)
  kept_over stage s (ok (a, recv)) h = h
  kept_over stage s (err e) h = h

  read_checked_build-Ends :
      (request : BuildRequest) (s : Session)
      → In world.request_id authorised s.log
      → Ends
          (λ b. In world.request_id authorised)
          (In world.request_id authorised)
          (read_checked_build request s)
  unfolding read_checked_build read_build_paths
  read_checked_build-Ends request s h =
      and_then-Ends (λ paths. In world.request_id authorised) (λ b. In world.request_id authorised)
        (In world.request_id authorised) _ _
        (kept_over authorised s
          (map_err reading (read_with_timeout of_build_paths path_list_limits s.recv)) h)
        λ paths t k.
          lift-Ends (In world.request_id authorised) (λ b. In world.request_id authorised)
            (check_build_request request paths) t (λ a e. k) k

  abbrev Asked : Option CheckedBuildRequest → List Event → Type 0
  Asked none log = (Settled world.request_id) log
  Asked (some build) log = In world.request_id authorised log

  build_or_report-Ends :
      (o : Outcome CheckedBuildRequest)
      → Ends (λ b. In world.request_id authorised) (In world.request_id authorised) o
      → Ends Asked (Settled world.request_id) (build_or_report world o)
  unfolding send_error
  build_or_report-Ends (ok build, s) h = h
  build_or_report-Ends (err e, s) h =
      and_then-Ends (λ u. (Settled world.request_id)) Asked (Settled world.request_id)
        (send_error (world.show e) s) _
        (send-Ends (Settled world.request_id) (λ u. (Settled world.request_id))
          (Message.error (world.show e)) s (over, tt, rw h refl) (authorised, tt, h))
        λ u t k.
          and_then-Ends (λ u. (Settled world.request_id)) Asked (Settled world.request_id)
            (finish_control world t) _
            (finish_control-Ends (Settled world.request_id) (λ u. (Settled world.request_id)) world
              t k k)
            λ u v l. l

  request_or_report-Ends :
      (message : Message) (s : Session)
      → In world.request_id authorised s.log
      → Ends Asked (Settled world.request_id) (request_or_report world message s)
  request_or_report-Ends (build_request request) s h =
      build_or_report-Ends (read_checked_build request s) (read_checked_build-Ends request s h)
  request_or_report-Ends message s h = (authorised, tt, h)

  read_build_or_report-Ends :
      (s : Session)
      → In world.request_id authorised s.log
      → Ends Asked (Settled world.request_id) (read_build_or_report world s)
  unfolding read_build_or_report
  read_build_or_report-Ends s h =
      and_then-Ends (λ m. In world.request_id authorised) Asked (Settled world.request_id)
        (read_message s) (request_or_report world)
        (read_message-Ends (Settled world.request_id) (λ m. In world.request_id authorised) s
          (λ m. h) (authorised, tt, h))
        λ message t k. request_or_report-Ends message t k

  redeem_and_run-Ends :
      (authorized : AuthorizedConnection) (build : Option CheckedBuildRequest) (s : Session)
      → Asked build s.log
      → Ends
          (λ u. (Settled world.request_id))
          (Settled world.request_id)
          (redeem_and_run world authorized build s)
  redeem_and_run-Ends authorized none s h = h
  redeem_and_run-Ends authorized (some build) s h =
      and_then-Ends (Redemption world authorized s.log) (λ u. (Settled world.request_id))
        (Settled world.request_id) (redeem_ticket_if_needed world authorized s)
        (run_accepted world build)
        (Ends-map (Redemption world authorized s.log) (Redemption world authorized s.log)
          (λ log. log ≡ s.log) (Settled world.request_id) (λ a log k. k)
          (λ log k. (authorised, tt, rw k h)) (redeem_ticket_if_needed world authorized s)
          (redeem_ticket-Ends world authorized s))
        λ redeemed t k. run_accepted-Ends world build authorized redeemed s.log t h k

  serve_authorized-Ends :
      (recv : List Incoming) (authorized : Option AuthorizedConnection) (before : List Event)
      (s : Session)
      → In world.request_id greeting before
      → Authorisation world recv before authorized s.log
      → Ends
          (λ u. (Settled world.request_id))
          (Settled world.request_id)
          (serve_authorized world authorized s)
  serve_authorized-Ends recv none before s h (text, e) =
      let ended : In world.request_id over s.log = rw e (rw h refl) in
      finish_control-Ends (Settled world.request_id) (λ u. (Settled world.request_id)) world s
        (over, tt, ended) (over, tt, ended)
  serve_authorized-Ends recv (some a) before s h (by, (answer, is_key, e)) =
      and_then-Ends Asked (λ u. (Settled world.request_id)) (Settled world.request_id)
        (read_build_or_report world s) _ (read_build_or_report-Ends s (rw e (rw h refl)))
        λ build t k. redeem_and_run-Ends a build t k

  same_peer-Ends :
      (claimed : Option ℕ) (node_id : Text) (s : Session)
      → Ends (λ u log. log ≡ s.log) (λ log. log ≡ s.log) (same_peer world.peer claimed node_id s)
  same_peer-Ends none node_id s = refl
  same_peer-Ends (some claimed) node_id s =
      if-Ends (λ log. log ≡ s.log) (λ u log. log ≡ s.log) (not (claimed == world.peer)) _ _ s refl
        refl

  greet-Ends :
      (message : Message) (s : Session)
      → Ends (λ u log. log ≡ s.log) (λ log. log ≡ s.log) (greet world message s)
  unfolding check_hello
  greet-Ends (hello h) s =
      if-Ends (λ log. log ≡ s.log) (λ u log. log ≡ s.log) (not (h.version == version)) _ _ s refl
        (same_peer-Ends (world.iroh.parse_id h.node_id) h.node_id s)
  greet-Ends message s = refl

  pub read_hello-Ends :
      (s : Session) → Ends (λ u log. log ≡ s.log) (λ log. log ≡ s.log) (read_hello world s)
  unfolding read_hello
  read_hello-Ends s =
      and_then-Ends (λ m log. log ≡ s.log) (λ u log. log ≡ s.log) (λ log. log ≡ s.log)
        (read_message s) (greet world)
        (read_message-Ends (λ log. log ≡ s.log) (λ m log. log ≡ s.log) s (λ m. refl) refl)
        λ message t k.
          subst
            (λ before. Ends (λ u log. log ≡ before) (λ log. log ≡ before) (greet world message t)) k
            (greet-Ends message t)

-- A session that starts with an empty log keeps the order of the stages, whatever the client sends,
-- whichever write fails, and whatever Nix, the ticket file and the queue give, and each of its
-- calls of the registry after `enqueue` carries the id that the registry gave; when the session
-- ends, with or without an error, a build that it has put into the queue has been recorded as
-- finished under that id.
pub handle_incoming-Settled :
    (world : World) (s : Session)
    → s.log ≡ []
    → Ends (λ u. (Settled world.request_id)) (Settled world.request_id) (handle_incoming world s)
unfolding handle_incoming
handle_incoming-Settled world s h =
    let start : In world.request_id greeting s.log = rw h refl in
    let still : (log : List Event) → log ≡ s.log → (Settled world.request_id) log =
      λ log e. (greeting, tt, rw e start) in
    and_then-Ends (λ u log. log ≡ s.log) (λ u. (Settled world.request_id))
      (Settled world.request_id) (read_hello world s) _
      (Ends-map _ (λ u log. log ≡ s.log) _ (Settled world.request_id) (λ u log k. k) still
        (read_hello world s) (read_hello-Ends world s))
      λ u t k.
        and_then-Ends (Authorisation world t.recv t.log) (λ u. (Settled world.request_id))
          (Settled world.request_id) (authorize_connection world t) (serve_authorized world)
          (Ends-map _ (Authorisation world t.recv t.log) _ (Settled world.request_id) (λ a log l. l)
            (λ log l. still log (l ∙ k)) (authorize_connection world t)
            (authorize_connection-Ends world t))
          λ authorized v l. serve_authorized-Ends world t.recv authorized t.log v (rw k start) l
