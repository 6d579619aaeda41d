-- ===== src/Server/Build/Laws.antt =====
-- crates/drv-thru/src/server/build.rs: the log of a run.
use drv_thru.Base.{
  ℕ, ◌≡◌, refl, Bool, true, false, List, [], ◌∷◌, Option, some, Result, ok, err, map, map_err,
  if◌then◌else◌, All,
}
use drv_thru.Text.{Text, codes}
use drv_thru.Nix.StorePath.{texts, StorePath}
use drv_thru.Protocol.{
  Message, OutputMode, missing_paths, output_closure, build_started, nix_log, output_cache_done,
  done, error,
}
use drv_thru.Protocol.PathChunks.{chunk_messages, Incoming}
use drv_thru.Server.OutputCache.{requested_output_paths}
use drv_thru.Server.Auth.{AuthorizedConnection}
use drv_thru.Server.Build.Requests.{CheckedBuildRequest}
use drv_thru.Server.Build.Lists.{At, send-At, send_all-At, write-At}
use drv_thru.Server.Build.{
  nix, phase, lines_until, result_until, outputs_of, run_build, left_over, read_output_request,
  serving_ends, export_requested, export_outputs, import_some, export_built, run_queued_build,
}
use drv_thru.Server.Session.{
  World, Session, SessionError, nix_error, cache_error, pass, send, send_all, read_message, lift,
}
use drv_thru.Server.Session.Stages.{
  Work, checking, checked, building, built, not_built, offered, serving, served, running, work_step,
  In, Running,
}
use drv_thru.Server.Session.Logs.{Ends, and_then-Ends, read_message-Ends, if-Ends}
use drv_thru.Server.Build.Inputs.{After, stay-At, phase-At, Ready, import_some-Ready}

logs-All : (lines : List Text) → All (λ m. work_step building m ≡ some building) (map nix_log lines)
logs-All [] = tt
logs-All (line ∷ lines) = (refl, logs-All lines)

abbrev ended : Bool → Work
ended success = if success then built else not_built

run_build-At :
    (world : World) (drv_path : StorePath) (output_mode : OutputMode) (rebuild : Bool)
    (max_build_time : Option ℕ) (requested : List StorePath) (work : Work) (s : Session)
    → work_step work build_started ≡ some building
    → In world.request_id (running work) s.log
    → Ends
        (After world.request_id (λ f. ended f.success))
        (Running world.request_id)
        (run_build world drv_path output_mode rebuild max_build_time requested s)
unfolding run_build
run_build-At world drv_path output_mode rebuild max_build_time requested work s e h =
    let run = world.nix.realise drv_path output_mode rebuild in
    and_then-Ends (At world.request_id building) (After world.request_id (λ f. ended f.success))
      (Running world.request_id) (send build_started s) _
      (send-At world.request_id work building build_started s e h)
      λ u t k.
        and_then-Ends (At world.request_id building) (After world.request_id (λ f. ended f.success))
          (Running world.request_id) (send_all (map nix_log (lines_until max_build_time run)) t) _
          (send_all-At world.request_id building (map nix_log (lines_until max_build_time run)) t
            (logs-All (lines_until max_build_time run)) k)
          λ u v l.
            and_then-Ends (At world.request_id building)
              (After world.request_id (λ f. ended f.success)) (Running world.request_id)
              (lift (result_until max_build_time run) v) _
              (stay-At world building (result_until max_build_time run) v l)
              λ result w m.
                and_then-Ends (At world.request_id building)
                  (After world.request_id (λ f. ended f.success)) (Running world.request_id)
                  (lift (outputs_of result.success requested result.output_paths) w) _
                  (stay-At world building (outputs_of result.success requested result.output_paths)
                    w m)
                  λ paths x n.
                    and_then-Ends (At world.request_id (ended result.success))
                      (After world.request_id (λ f. ended f.success)) (Running world.request_id)
                      (send _ x) _
                      (send-At world.request_id building (ended result.success) _ x refl n)
                      λ u y o. o

left_over-At :
    {A : Type 0} (world : World) (work : Work) (s : Session)
    (r : Result SessionError (A × List Incoming))
    → In world.request_id (running work) s.log
    → Ends (At world.request_id work) (Running world.request_id) (left_over s r)
left_over-At world work s (ok (a, recv)) h = h
left_over-At world work s (err e) h = (work, h)

serving_ends-At :
    (world : World) (message : Message) (s : Session)
    → In world.request_id (running serving) s.log
    → Ends (At world.request_id serving) (Running world.request_id) (serving_ends world message s)
serving_ends-At world output_cache_done s h =
    if-Ends (Running world.request_id) (At world.request_id serving) world.tasks_ok _ _ s h
      (serving, h)
serving_ends-At world (error text) s h = (serving, h)
serving_ends-At world message s h = (serving, h)

export_requested-At :
    (world : World) (requested : List StorePath) (s : Session)
    → In world.request_id (running offered) s.log
    → Ends
        (At world.request_id served)
        (Running world.request_id)
        (export_requested world requested s)
export_requested-At world [] s h = send-At world.request_id offered served done s refl h
export_requested-At world (p ∷ requested) s h =
    and_then-Ends (At world.request_id serving) (At world.request_id served)
      (Running world.request_id) (send _ s) _ (send-At world.request_id offered serving _ s refl h)
      λ u t k.
        and_then-Ends (At world.request_id serving) (At world.request_id served)
          (Running world.request_id) (read_message t) _
          (read_message-Ends (Running world.request_id) (At world.request_id serving) t (λ m. k)
            (serving, k))
          λ message v l.
            and_then-Ends (At world.request_id serving) (At world.request_id served)
              (Running world.request_id) (serving_ends world message v) _
              (serving_ends-At world message v l)
              λ u w m. send-At world.request_id serving served done w refl m

export_outputs-At :
    (world : World) (paths : List StorePath) (s : Session)
    → In world.request_id (running built) s.log
    → Ends (At world.request_id served) (Running world.request_id) (export_outputs world paths s)
unfolding export_outputs read_output_request
export_outputs-At world paths s h =
    and_then-Ends (At world.request_id built) (At world.request_id served)
      (Running world.request_id) (nix (world.nix.output_closure paths) s) _
      (stay-At world built (map_err nix_error (world.nix.output_closure paths)) s h)
      λ closure t k.
        and_then-Ends (At world.request_id offered) (At world.request_id served)
          (Running world.request_id) (send_all (chunk_messages (texts closure) output_closure) t) _
          (write-At world.request_id built offered output_closure (λ p. refl) (λ p. refl)
            (texts closure) t k)
          λ u v l.
            and_then-Ends (At world.request_id offered) (At world.request_id served)
              (Running world.request_id) (read_output_request v) _
              (left_over-At world offered v _ l)
              λ request w m.
                and_then-Ends (At world.request_id offered) (At world.request_id served)
                  (Running world.request_id)
                  (lift (map_err cache_error (requested_output_paths request closure)) w) _
                  (stay-At world offered
                    (map_err cache_error (requested_output_paths request closure)) w m)
                  λ requested x n. export_requested-At world requested x n

-- How a run that gives a result has ended.
abbrev pub ended_run : Bool → Work
ended_run success = if success then served else not_built

export_built-At :
    (world : World) (success : Bool) (paths : List StorePath) (s : Session)
    → In world.request_id (running (ended success)) s.log
    → Ends
        (At world.request_id (ended_run success))
        (Running world.request_id)
        (export_built world (record { success = success; output_paths = paths }) s)
export_built-At world true paths s h =
    and_then-Ends (At world.request_id built) (At world.request_id served)
      (Running world.request_id) (phase world (codes "serving output cache") s) _
      (phase-At world (codes "serving output cache") built s h)
      λ u t k. export_outputs-At world paths t k
export_built-At world false paths s h = h

abbrev building_name : Bool → Text
building_name rebuild = if rebuild then codes "rebuilding" else codes "building"

pub run_queued_build-At :
    (world : World) (build : CheckedBuildRequest) (authorized : AuthorizedConnection) (s : Session)
    → In world.request_id (running checking) s.log
    → Ends
        (After world.request_id ended_run)
        (Running world.request_id)
        (run_queued_build world build authorized s)
unfolding run_queued_build
run_queued_build-At world build authorized s h =
    and_then-Ends (At world.request_id checking) (After world.request_id ended_run)
      (Running world.request_id) (phase world (codes "checking inputs") s) _
      (phase-At world (codes "checking inputs") checking s h)
      λ u t k.
        and_then-Ends (At world.request_id checking) (After world.request_id ended_run)
          (Running world.request_id) (nix (world.nix.missing_paths build.closure_paths) t) _
          (stay-At world checking (map_err nix_error (world.nix.missing_paths build.closure_paths))
            t k)
          λ missing v l.
            and_then-Ends (At world.request_id checked) (After world.request_id ended_run)
              (Running world.request_id) (send_all (chunk_messages (texts missing) missing_paths) v)
              _
              (write-At world.request_id checking checked missing_paths (λ p. refl) (λ p. refl)
                (texts missing) v l)
              λ u w m.
                and_then-Ends (Ready world.request_id) (After world.request_id ended_run)
                  (Running world.request_id)
                  (import_some world missing authorized.max_upload_bytes w) _
                  (import_some-Ready world missing authorized.max_upload_bytes w m)
                  λ u x (work, e, n).
                    and_then-Ends (At world.request_id work) (After world.request_id ended_run)
                      (Running world.request_id) (phase world (building_name build.rebuild) x) _
                      (phase-At world (building_name build.rebuild) work x n)
                      λ u y o.
                        and_then-Ends (After world.request_id (λ f. ended f.success))
                          (After world.request_id ended_run) (Running world.request_id) _ _
                          (run_build-At world build.drv_path build.output_mode build.rebuild
                            authorized.max_build_time build.output_paths work y e o)
                          λ finished z p.
                            and_then-Ends (At world.request_id (ended_run finished.success))
                              (After world.request_id ended_run) (Running world.request_id)
                              (export_built world finished z) (λ u. pass finished.success)
                              (export_built-At world finished.success finished.output_paths z p)
                              λ u a q. q
