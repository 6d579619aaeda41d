-- ===== src/Server/Session/Stages.antt =====
-- crates/drv-thru/src/server: the stages of a session, as its log shows them.
use drv_thru.Text.{Text, text_eq}
use drv_thru.Base.{
  ◌&&◌, ◌≡◌, Bool, true, false, ◌||◌, List, [], ◌∷◌, Option, none, some, if◌then◌else◌,
}
use drv_thru.Protocol.{
  Message, auth_ok, build_queued, missing_paths, input_upload_ready, build_started, nix_log,
  build_finished, output_closure, output_cache_ready, done,
}
use drv_thru.Server.Status.{BuildResult, success, failed}
use drv_thru.Server.Session.{Event, sends, queues, starts, phases, finishes}

-- How far the run of a build is.
pub data Work : Type 0 where
  checking checked uploading building built not_built offered serving served : Work

-- `over` is a session whose last message is an error.
pub data Stage : Type 0 where
  greeting authorised waiting queued over : Stage
  running : Work → Stage
  finished : BuildResult → Stage

-- The messages of a run, in their order.
abbrev pub work_step : Work → Message → Option Work
work_step checking (missing_paths chunk) = some (if chunk.done then checked else checking)
work_step checked input_upload_ready = some uploading
work_step checked build_started = some building
work_step uploading build_started = some building
work_step building (nix_log line) = some building
work_step building (build_finished f) = some (if f.success then built else not_built)
work_step built (output_closure chunk) = some (if chunk.done then offered else built)
work_step offered done = some served
work_step offered (output_cache_ready paths) = some serving
work_step serving done = some served
work_step _ message = none

-- A run may be recorded as an error at any point, as a success once it is served, and as a
-- failure once Nix has failed.
abbrev pub may_finish : Work → BuildResult → Bool
may_finish work BuildResult.error = true
may_finish served success = true
may_finish not_built failed = true
may_finish _ result = false

abbrev as_running : Option Work → Option Stage
as_running none = none
as_running (some work) = some (running work)

-- A call of the registry counts only for the id of the session's own build.
abbrev own : Bool → Stage → Option Stage
own true stage = some stage
own false stage = none

abbrev pub step : Text → Stage → Event → Option Stage
step id greeting (sends (auth_ok a)) = some authorised
step id greeting (sends (Message.error text)) = some over
step id authorised (sends (Message.error text)) = some over
step id authorised (queues label installable) = some waiting
step id waiting (sends build_queued) = some queued
step id waiting (finishes of BuildResult.error text) =
    own (text_eq of id) (finished BuildResult.error)
step id queued (starts of) = own (text_eq of id) (running checking)
step id queued (finishes of BuildResult.error text) =
    own (text_eq of id) (finished BuildResult.error)
step id (running work) (sends message) = as_running (work_step work message)
step id (running work) (phases of name) = own (text_eq of id) (running work)
step id (running work) (finishes of result text) =
    own (text_eq of id && may_finish work result) (finished result)
step id (finished BuildResult.error) (sends (Message.error text)) = some over
step id _ event = none

abbrev step_from : Text → Option Stage → Event → Option Stage
step_from id none event = none
step_from id (some stage) event = step id stage event

-- The stage that a log leads to for the id of its build, `none` if it breaks the order.
abbrev pub stage_of : Text → List Event → Option Stage
stage_of id [] = some greeting
stage_of id (event ∷ log) = step_from id (stage_of id log) event

abbrev pub In : Text → Stage → List Event → Type 0
In id stage log = stage_of id log ≡ some stage

abbrev pub Running : Text → List Event → Type 0
Running id log = (work : Work) × In id (running work) log

-- Whether the log has a build in the registry's queue.
abbrev pub is_queue : Event → Bool
is_queue (queues label installable) = true
is_queue _ = false

abbrev pub queued_in : List Event → Bool
queued_in [] = false
queued_in (event ∷ log) = is_queue event || queued_in log
