-- ===== src/Server/Connection.antt =====
-- crates/drv-thru/src/server/connection.rs: a session from the first message to the last.
pub mod Gate
pub mod Runs
pub mod Lifecycle
mod Tests
use drv_thru.Base.{
  ℕ, Bool, true, false, not, List, Option, none, some, Result, ok, err, if◌then◌else◌, map_err,
  ◌==◌,
}
use drv_thru.Text.{Text, codes}
use drv_thru.Ticket.{Iroh}
use drv_thru.Protocol.{Message, Hello, BuildRequest, hello, build_request, build_queued, version}
use drv_thru.Protocol.PathChunks.{read_with_timeout, of_build_paths, Incoming}
use drv_thru.Server.Status.{BuildResult, success, failed, error}
use drv_thru.Server.Auth.{AuthorizedConnection, authorize_connection, redeem_ticket_if_needed}
use drv_thru.Server.Build.{left_over, run_queued_build}
use drv_thru.Server.Build.Requests.{CheckedBuildRequest, check_build_request}
use drv_thru.Server.Session.{
  SessionError, unsupported_version, bad_node_id, wrong_peer, expected_hello,
  expected_build_request, reading, World, Session, Outcome, M, pass, fail, ◌>>=◌, ◌>>◌, lift, note,
  queues, starts, finishes, send, read_message, send_error, finish_control, path_list_limits,
}

abbrev pub same_peer : ℕ → Option ℕ → Text → M (Unit {0})
same_peer peer none node_id = fail (bad_node_id node_id)
same_peer peer (some claimed) node_id =
    if not (claimed == peer) then fail (wrong_peer claimed) else pass tt

unfoldable pub check_hello : World → Hello → M (Unit {0})
check_hello world h =
    if not (h.version == version)
    then fail (unsupported_version h.version)
    else same_peer world.peer (world.iroh.parse_id h.node_id) h.node_id

abbrev pub greet : World → Message → M (Unit {0})
greet world (hello h) = check_hello world h
greet world message = fail (expected_hello message)

unfoldable pub read_hello : World → M (Unit {0})
unfolding read_message check_hello
read_hello world = do message ← read_message; greet world message

-- The paths of the request, and its check.
unfoldable pub read_build_paths : M (List Text)
unfolding read_with_timeout
read_build_paths s =
    left_over s (map_err reading (read_with_timeout of_build_paths path_list_limits s.recv))

unfoldable pub read_checked_build : BuildRequest → M CheckedBuildRequest
unfolding read_build_paths check_build_request
read_checked_build request = do
  closure_paths ← read_build_paths
  lift (check_build_request request closure_paths)

abbrev pub build_or_report :
    World → Outcome CheckedBuildRequest → Outcome (Option CheckedBuildRequest)
build_or_report world (ok build, s) = (ok (some build), s)
build_or_report world (err e, s) =
    (send_error (world.show e) >> (finish_control world >> pass none)) s

abbrev pub request_or_report : World → Message → M (Option CheckedBuildRequest)
request_or_report world (build_request request) s =
    build_or_report world (read_checked_build request s)
request_or_report world message s = (err (expected_build_request message), s)

unfoldable pub read_build_or_report : World → M (Option CheckedBuildRequest)
unfolding read_message read_checked_build send_error finish_control
read_build_or_report world = do message ← read_message; request_or_report world message

abbrev pub or_finish : World → Outcome (Unit {0}) → Outcome (Unit {0})
or_finish world (ok u, s) = (ok u, s)
or_finish world (err e, s) =
    (note (finishes world.request_id error (some (world.show e))) >> fail e) s

unfoldable pub send_build_queued : World → M (Unit {0})
unfolding send
send_build_queued world s = or_finish world (send build_queued s)

pub data RunOutcome : Type 0 where
  queue_closed : RunOutcome
  finished : Result SessionError Bool → RunOutcome

-- The result of the build is a value: it does not end the session.
abbrev pub as_value : Outcome Bool → Outcome RunOutcome
as_value (r, s) = (ok (finished r), s)

abbrev pub run_started : World → CheckedBuildRequest → AuthorizedConnection → M RunOutcome
run_started world build authorized s = as_value (run_queued_build world build authorized s)

unfoldable pub run_when_permitted :
    World → CheckedBuildRequest → AuthorizedConnection → M RunOutcome
unfolding run_queued_build send_error finish_control
run_when_permitted world build authorized =
    if world.queue_open
    then (note (starts world.request_id) >> run_started world build authorized)
    else (note (finishes world.request_id error (some (codes "build queue is closed")))
        >> (send_error (codes "build queue is closed")
            >> (finish_control world >> pass queue_closed)))

unfoldable pub record_build_result : World → Result SessionError Bool → M (Unit {0})
unfolding send_error
record_build_result world (ok true) = note (finishes world.request_id success none)
record_build_result world (ok false) =
    note (finishes world.request_id failed (some (codes "nix build failed")))
record_build_result world (err e) = do
  note (finishes world.request_id error (some (world.show e)))
  send_error (world.show e)

-- `handle_incoming`, from its last step to its first.
abbrev pub conclude : World → RunOutcome → M (Unit {0})
conclude world queue_closed = pass tt
conclude world (finished result) = do record_build_result world result; finish_control world

abbrev pub run_accepted : World → CheckedBuildRequest → Option AuthorizedConnection → M (Unit {0})
run_accepted world build none = finish_control world
run_accepted world build (some authorized) = do
  note (queues authorized.client_label build.installable)
  send_build_queued world
  outcome ← run_when_permitted world build authorized
  conclude world outcome

abbrev pub redeem_and_run : World → AuthorizedConnection → Option CheckedBuildRequest → M (Unit {0})
redeem_and_run world authorized none = pass tt
redeem_and_run world authorized (some build) = do
  redeemed ← redeem_ticket_if_needed world authorized
  run_accepted world build redeemed

abbrev pub serve_authorized : World → Option AuthorizedConnection → M (Unit {0})
serve_authorized world none = finish_control world
serve_authorized world (some authorized) = do
  build ← read_build_or_report world
  redeem_and_run world authorized build

unfoldable pub handle_incoming : World → M (Unit {0})
unfolding read_hello authorize_connection read_build_or_report redeem_ticket_if_needed
    send_build_queued run_when_permitted record_build_result finish_control
handle_incoming world = do
  read_hello world
  authorized ← authorize_connection world
  serve_authorized world authorized
