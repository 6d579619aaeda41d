-- ===== src/Server/Connection/Runs.antt =====
-- crates/drv-thru/src/server/connection.rs: the log of a session from the queue to the record of the
-- result.
use drv_thru.Base.{refl, Bool, true, false, List, Option, none, some, Result, ok, err}
use drv_thru.Text.{Text, codes}
use drv_thru.Text.Prefix.{text_eq_self}
use drv_thru.Protocol.{Message, build_queued}
use drv_thru.Server.Auth.{AuthorizedConnection}
use drv_thru.Server.Auth.Laws.{Redemption}
use drv_thru.Server.Build.{run_queued_build}
use drv_thru.Server.Build.Laws.{ended_run, run_queued_build-At}
use drv_thru.Server.Build.Requests.{CheckedBuildRequest}
use drv_thru.Server.Status.{BuildResult, success, failed}
use drv_thru.Server.Session.{
  Event, World, Session, SessionError, Outcome, pass, send, send_error, finish_control, ◌>>◌,
}
use drv_thru.Server.Session.Stages.{
  Stage, greeting, authorised, waiting, queued, over, running, finished, In, Running,
}
use drv_thru.Server.Session.Logs.{
  Ends, and_then-Ends, Ends-map, send-Ends, if-Ends, finish_control-Ends,
}
use drv_thru.Server.Connection.{
  RunOutcome, queue_closed, or_finish, send_build_queued, as_value, run_when_permitted,
  record_build_result, conclude, run_accepted,
}

-- The stages in which no build has been put into the queue, or it has been recorded as finished.
abbrev pub Final : Stage → Type 0
Final greeting = Unit
Final authorised = Unit
Final over = Unit
Final (finished result) = Unit
Final _ = ⊥

abbrev pub Settled : Text → List Event → Type 0
Settled id log = (stage : Stage) × Final stage × In id stage log

module _ (world : World) where
  -- An error message after the record of an error.
  report-Ends :
      (text : Text) (s : Session)
      → In world.request_id (finished BuildResult.error) s.log
      → Ends (λ u. In world.request_id over) (Settled world.request_id) (send_error text s)
  unfolding send_error
  report-Ends text s h =
      send-Ends (Settled world.request_id) (λ u. In world.request_id over) (Message.error text) s
        (rw h refl) (finished BuildResult.error, tt, h)

  -- What a run leaves for the record of its result.
  abbrev ResultAt : Result SessionError Bool → List Event → Type 0
  ResultAt (ok built) log = In world.request_id (running (ended_run built)) log
  ResultAt (err e) log = (Running world.request_id) log

  record_build_result-Ends :
      (result : Result SessionError Bool) (s : Session)
      → ResultAt result s.log
      → Ends
          (λ u. (Settled world.request_id))
          (Settled world.request_id)
          (record_build_result world result s)
  unfolding record_build_result
  record_build_result-Ends (ok true) s h =
      (finished success, tt, rw (h, text_eq_self world.request_id) refl)
  record_build_result-Ends (ok false) s h =
      (finished failed, tt, rw (h, text_eq_self world.request_id) refl)
  record_build_result-Ends (err e) s (work, h) =
      Ends-map (λ u. In world.request_id over) (λ u. (Settled world.request_id))
        (Settled world.request_id) (Settled world.request_id) (λ u log k. (over, tt, k))
        (λ log k. k) _ (report-Ends (world.show e) _ (rw (h, text_eq_self world.request_id) refl))

  abbrev OutcomeAt : RunOutcome → List Event → Type 0
  OutcomeAt queue_closed log = (Settled world.request_id) log
  OutcomeAt (RunOutcome.finished result) log = ResultAt result log

  conclude-Ends :
      (outcome : RunOutcome) (s : Session)
      → OutcomeAt outcome s.log
      → Ends (λ u. (Settled world.request_id)) (Settled world.request_id) (conclude world outcome s)
  conclude-Ends queue_closed s h = h
  conclude-Ends (RunOutcome.finished result) s h =
      and_then-Ends (λ u. (Settled world.request_id)) (λ u. (Settled world.request_id))
        (Settled world.request_id) (record_build_result world result s) _
        (record_build_result-Ends result s h)
        λ u t k.
          finish_control-Ends (Settled world.request_id) (λ u. (Settled world.request_id)) world t k
            k

  as_value-Ends :
      (o : Outcome Bool)
      → Ends (λ b. In world.request_id (running (ended_run b))) (Running world.request_id) o
      → Ends OutcomeAt (Settled world.request_id) (as_value o)
  as_value-Ends (ok b, s) h = h
  as_value-Ends (err e, s) h = h

  closed-Ends :
      (s : Session)
      → In world.request_id (finished BuildResult.error) s.log
      → Ends OutcomeAt (Settled world.request_id) (
          (send_error (codes "build queue is closed")
              >> (finish_control world >> pass queue_closed))
            s)
  closed-Ends s h =
      and_then-Ends (λ u. In world.request_id over) OutcomeAt (Settled world.request_id)
        (send_error (codes "build queue is closed") s) _
        (report-Ends (codes "build queue is closed") s h)
        λ u t k.
          and_then-Ends (λ u. (Settled world.request_id)) OutcomeAt (Settled world.request_id)
            (finish_control world t) _
            (finish_control-Ends (Settled world.request_id) (λ u. (Settled world.request_id)) world
              t (over, tt, k) (over, tt, k))
            λ u v l. l

  run_when_permitted-Ends :
      (build : CheckedBuildRequest) (authorized : AuthorizedConnection) (s : Session)
      → In world.request_id queued s.log
      → Ends OutcomeAt (Settled world.request_id) (run_when_permitted world build authorized s)
  unfolding run_when_permitted
  run_when_permitted-Ends build authorized s h =
      if-Ends (Settled world.request_id) OutcomeAt world.queue_open _ _ s
        (as_value-Ends (run_queued_build world build authorized _) (
          run_queued_build-At world build authorized _
            (rw (h, text_eq_self world.request_id) refl)))
        (closed-Ends _ (rw (h, text_eq_self world.request_id) refl))

  or_finish-Ends :
      (o : Outcome (Unit {0}))
      → Ends (λ u. In world.request_id queued) (In world.request_id waiting) o
      → Ends (λ u. In world.request_id queued) (Settled world.request_id) (or_finish world o)
  or_finish-Ends (ok u, s) h = h
  or_finish-Ends (err e, s) h =
      (finished BuildResult.error, tt, rw (h, text_eq_self world.request_id) refl)

  send_build_queued-Ends :
      (s : Session)
      → In world.request_id waiting s.log
      → Ends
          (λ u. In world.request_id queued)
          (Settled world.request_id)
          (send_build_queued world s)
  unfolding send_build_queued
  send_build_queued-Ends s h = or_finish-Ends (send build_queued s) (
      send-Ends (In world.request_id waiting) (λ u. In world.request_id queued) build_queued s
        (rw h refl) h)

  -- From a redemption on.
  pub run_accepted-Ends :
      (build : CheckedBuildRequest) (authorized : AuthorizedConnection)
      (redeemed : Option AuthorizedConnection) (before : List Event) (s : Session)
      → In world.request_id authorised before
      → Redemption world authorized before redeemed s.log
      → Ends
          (λ u. (Settled world.request_id))
          (Settled world.request_id)
          (run_accepted world build redeemed s)
  run_accepted-Ends build authorized none before s h (text, e) =
      let ended : In world.request_id over s.log = rw e (rw h refl) in
      finish_control-Ends (Settled world.request_id) (λ u. (Settled world.request_id)) world s
        (over, tt, ended) (over, tt, ended)
  run_accepted-Ends build authorized (some a) before s h (r, e) =
      let start : In world.request_id authorised s.log = rw e h in
      and_then-Ends (λ u. In world.request_id queued) (λ u. (Settled world.request_id))
        (Settled world.request_id) (send_build_queued world _) _
        (send_build_queued-Ends _ (rw start refl))
        λ u t k.
          and_then-Ends OutcomeAt (λ u. (Settled world.request_id)) (Settled world.request_id)
            (run_when_permitted world build a t) _ (run_when_permitted-Ends build a t k)
            λ outcome v l. conclude-Ends outcome v l
