-- ===== src/Server/Status/Refinement.antt =====
-- crates/drv-thru/src/server/status.rs: the registry against the board of request ids.
use drv_thru.Base.{
  ℕ, ◌+◌, ◌≡◌, refl, ap, ◌∙◌, false, List, [], ◌∷◌, ◌++◌, map, Option, none, some, if◌then◌else◌,
  Bool-cases, inl, inr, ◌%◌, ◌^◌,
}
use drv_thru.Text.{Text, text_eq}
use drv_thru.Server.Status.{
  QueuedBuildStatus, ActiveBuildStatus, MutableStatus, StatusRegistry, Env, BuildResult,
  refresh_queued, refresh_active, refresh_snapshot, publish, with_status_update, update_at,
  enqueue_update, enqueue, start_found, start_update, start, set_phase, phase_update,
  set_build_phase, finish_queued, finish_active, finish_update, finish, heartbeat, heartbeat_at,
  has_live_builds, remove_by, request_name, queue_up, queued_build, unknown_request, active_of,
  recent_of_queued, recent_of_active,
}
use drv_thru.Server.Status.Calls.{Call, enqueues, starts, phases, finishes, beats, apply}
use drv_thru.Server.Status.Board.{
  board, started, left_queue, left_active, moves, clock, left_ids, without-map, HasId,
  remove_by-HasId, map-append, map-take,
}

ids-refresh_queued :
    (now index : ℕ) (queue : List QueuedBuildStatus)
    → map (λ q. q.request_id) (refresh_queued now index queue) ≡ map (λ q. q.request_id) queue
unfolding refresh_queued
ids-refresh_queued now index [] = refl
ids-refresh_queued now index (q ∷ queue) =
    ap (◌∷◌ q.request_id) (ids-refresh_queued now (index + 1) queue)

ids-refresh_active :
    (now : ℕ) (active : List ActiveBuildStatus)
    → map (λ a. a.request_id) (refresh_active now active) ≡ map (λ a. a.request_id) active
unfolding refresh_active
ids-refresh_active now [] = refl
ids-refresh_active now (a ∷ active) = ap (◌∷◌ a.request_id) (ids-refresh_active now active)

ids-set_phase :
    (id phase : Text) (active : List ActiveBuildStatus)
    → map (λ a. a.request_id) (set_phase id phase active) ≡ map (λ a. a.request_id) active
unfolding set_phase
ids-set_phase id phase [] = refl
ids-set_phase id phase (a ∷ active) = elim (Bool-cases (text_eq a.request_id id)) [
  | inl e ↦ rw e refl
  | inr e ↦ rw e (ap (◌∷◌ a.request_id) (ids-set_phase id phase active))
]

board-publish :
    (env : Env) (now : ℕ) (r : StatusRegistry) (state : MutableStatus)
    → board (publish env now r state).state ≡ board state
unfolding publish refresh_snapshot
board-publish env now r state =
    rw
      (ids-refresh_queued now 0 state.snapshot.queued, ids-refresh_active now state.snapshot.active)
      refl

board-start_found :
    (id : Text) (state : MutableStatus) (now : ℕ)
    (found : Option (QueuedBuildStatus × List QueuedBuildStatus))
    → HasId (λ q. q.request_id) id found
    → board (start_found state now found)
      ≡ started id (board state) (left_ids (λ q. q.request_id) found)
board-start_found id state now none h = refl
board-start_found id state now (some (q, queue)) h =
    rw (map-append (λ a. a.request_id) state.snapshot.active (active_of q now ∷ []), h) refl

board-finish_queued :
    (id : Text) (result : BuildResult) (short_error : Option Text) (state : MutableStatus) (now : ℕ)
    (found : Option (QueuedBuildStatus × List QueuedBuildStatus))
    → HasId (λ q. q.request_id) id found
    → board (finish_queued result short_error state now found)
      ≡ left_queue id (board state) (left_ids (λ q. q.request_id) found)
board-finish_queued id result short_error state now none h = refl
board-finish_queued id result short_error state now (some (q, queue)) h =
    rw
      (
        map-take (λ r. r.request_id) state.snapshot.server.recent_limit
            (recent_of_queued q result short_error now ∷ state.snapshot.recent),
        h,
      )
      refl

board-finish_active :
    (id : Text) (result : BuildResult) (short_error : Option Text) (state : MutableStatus) (now : ℕ)
    (found : Option (ActiveBuildStatus × List ActiveBuildStatus))
    → HasId (λ a. a.request_id) id found
    → board (finish_active id result short_error state now found)
      ≡ left_active id
          (board state)
          (left_ids (λ a. a.request_id) found)
          (left_ids (λ q. q.request_id) (remove_by (λ q. q.request_id) id state.snapshot.queued))
board-finish_active id result short_error state now none h =
    board-finish_queued id result short_error state now
      (remove_by (λ q. q.request_id) id state.snapshot.queued)
      (remove_by-HasId (λ q. q.request_id) id state.snapshot.queued)
board-finish_active id result short_error state now (some (a, active)) h =
    rw
      (
        map-take (λ r. r.request_id) state.snapshot.server.recent_limit
            (recent_of_active a result short_error now ∷ state.snapshot.recent),
        h,
      )
      refl

board-update {ℓ} :
    {T : Type ℓ} (env : Env) (r : StatusRegistry) (update : MutableStatus → ℕ → MutableStatus × T)
    (now : ℕ)
    → env.now ≡ some now
    → board (with_status_update env r update).0.state ≡ board (update r.state now).0
unfolding with_status_update
board-update env r update now n =
    ap (λ t. board (update_at env r update t).0.state) n
    ∙ board-publish env now r (update r.state now).0

board-heartbeat :
    (env : Env) (r : StatusRegistry) (now : Option ℕ)
    → board (heartbeat_at env r now).state ≡ board r.state
board-heartbeat env r none = refl
board-heartbeat env r (some now) = elim (Bool-cases (has_live_builds r)) [
  | inl e ↦
      ap (λ b. board (if b then publish env now r r.state else r).state) e
      ∙ board-publish env now r r.state
  | inr e ↦ ap (λ b. board (if b then publish env now r r.state else r).state) e
]

board-queue_up :
    (seq : ℕ) (id label installable : Text) (state : MutableStatus) (now : ℕ)
    → board (queue_up seq id label installable state now)
      ≡ record (board state) { seq = seq; queue = (board state).queue ++ (id ∷ []) }
board-queue_up seq id label installable state now =
    rw
      (map-append (λ q. q.request_id) state.snapshot.queued
        (queued_build id label installable now ∷ []))
      refl

-- When the clock can be read, each call moves the request ids as on a board: a new build goes to
-- the end of the queue under the next number, a started one from the queue to the end of the
-- active builds, a finished one from the active builds, or else from the queue, to the front of
-- the history, cut at its limit; an id that is not there moves nothing, and neither does a phase
-- or a heartbeat. This holds whether or not the write succeeds.
pub apply-moves :
    (call : Call) (r : StatusRegistry) (now : ℕ)
    → (clock call).now ≡ some now
    → board (apply call r).state ≡ moves call (board r.state)
unfolding apply moves clock enqueue enqueue_update start start_update set_build_phase phase_update
    finish finish_update heartbeat
apply-moves (enqueues env label installable) r now n =
    board-update env r (enqueue_update label installable) now n
    ∙ board-queue_up ((r.state.next_request_seq + 1) % 2 ^ 64)
        (request_name ((r.state.next_request_seq + 1) % 2 ^ 64)) label installable r.state now
apply-moves (starts env id) r now n =
    board-update env r (start_update id) now n
    ∙ board-start_found id r.state now (remove_by (λ q. q.request_id) id r.state.snapshot.queued)
        (remove_by-HasId (λ q. q.request_id) id r.state.snapshot.queued)
    ∙ ap (started id (board r.state)) (without-map (λ q. q.request_id) id r.state.snapshot.queued)
apply-moves (phases env id phase) r now n =
    board-update env r (phase_update id phase) now n
    ∙ rw (ids-set_phase id phase r.state.snapshot.active) refl
apply-moves (finishes env id result short_error) r now n =
    board-update env r (finish_update id result short_error) now n
    ∙ board-finish_active id result short_error r.state now
        (remove_by (λ a. a.request_id) id r.state.snapshot.active)
        (remove_by-HasId (λ a. a.request_id) id r.state.snapshot.active)
    ∙ rw
        (
          without-map (λ a. a.request_id) id r.state.snapshot.active,
          without-map (λ q. q.request_id) id r.state.snapshot.queued,
        )
        refl
apply-moves (beats env) r now n = board-heartbeat env r env.now

-- When the write of an `enqueue` fails, the caller gets the id `build-unknown`, and the build is at
-- the end of the queue under another id all the same.
pub enqueue-lost :
    (env : Env) (r : StatusRegistry) (label installable : Text) (now : ℕ)
    → env.now ≡ some now
    → env.write_ok ≡ false
    → ((enqueue env r label installable).1 ≡ unknown_request)
      × ((board (enqueue env r label installable).0.state).queue
          ≡ (board r.state).queue ++ (request_name ((r.state.next_request_seq + 1) % 2 ^ 64) ∷ []))
unfolding enqueue enqueue_update with_status_update
enqueue-lost env r label installable now n w = (
  rw (n, w) refl,
  ap (λ b. b.queue)
      (board-update env r (enqueue_update label installable) now n
        ∙ board-queue_up ((r.state.next_request_seq + 1) % 2 ^ 64)
            (request_name ((r.state.next_request_seq + 1) % 2 ^ 64)) label installable r.state now),
)
