-- ===== src/Server/Status/Shape.antt =====
-- crates/drv-thru/src/server/status.rs: the snapshots that are kept and written.
use drv_thru.Base.{
  ℕ, ◌+◌, ◌≤◌, ◌≡◌, refl, inl, inr, subst, Bool, true, false, List, [], ◌∷◌, Option, none, some,
  length, take, length-take, arith, if◌then◌else◌, Bool-cases,
}
use drv_thru.Text.{Text}
use drv_thru.Server.Status.{
  QueuedBuildStatus, ActiveBuildStatus, StatusSnapshot, MutableStatus, StatusRegistry, Env,
  BuildResult, refresh_queued, refresh_active, refresh_snapshot, publish, with_status_update, new,
  enqueue_update, enqueue, start_update, start, phase_update, set_build_phase, finish_update,
  finish, heartbeat, has_live_builds, remove_by, initial, update_at, start_found, finish_queued,
  finish_active, heartbeat_at, new_at, recent_of_queued, recent_of_active,
}
use drv_thru.Server.Status.Calls.{Call, enqueues, starts, phases, finishes, beats, apply, run}

-- The positions of a queue count from the number given.
abbrev pub Positions : ℕ → List QueuedBuildStatus → Type 0
Positions n [] = Unit
Positions n (q ∷ queue) = (q.position ≡ n) × Positions (n + 1) queue

-- The counts are those of the lists, the positions are 1, 2, ..., and the history is within its
-- limit.
abbrev pub Consistent : StatusSnapshot → Type 0
Consistent s =
    (s.server.active_count ≡ length s.active)
    × (s.server.queued_count ≡ length s.queued)
    × Positions 1 s.queued
    × (length s.recent ≤ s.server.recent_limit)

abbrev pub Published : Option StatusSnapshot → Type 0
Published none = Unit
Published (some s) = Consistent s

abbrev pub AllConsistent : StatusRegistry → Type 0
AllConsistent r = Consistent r.state.snapshot × Published r.file

Positions-refresh_queued :
    (now index : ℕ) (queue : List QueuedBuildStatus)
    → Positions (index + 1) (refresh_queued now index queue)
unfolding refresh_queued
Positions-refresh_queued now index [] = tt
Positions-refresh_queued now index (q ∷ queue) =
    (refl, Positions-refresh_queued now (index + 1) queue)

pub length-refresh_queued :
    (now index : ℕ) (queue : List QueuedBuildStatus)
    → length (refresh_queued now index queue) ≡ length queue
unfolding refresh_queued
length-refresh_queued now index [] = refl
length-refresh_queued now index (q ∷ queue) =
    omega (arith, length-refresh_queued now (index + 1) queue)

pub length-refresh_active :
    (now : ℕ) (active : List ActiveBuildStatus) → length (refresh_active now active) ≡ length active
unfolding refresh_active
length-refresh_active now [] = refl
length-refresh_active now (a ∷ active) = omega (arith, length-refresh_active now active)

refresh_snapshot-Consistent :
    (s : StatusSnapshot) (now : ℕ)
    → length s.recent ≤ s.server.recent_limit
    → Consistent (refresh_snapshot s now)
unfolding refresh_snapshot
refresh_snapshot-Consistent s now h = (
  ground (arith, length-refresh_active now s.active),
  ground (arith, length-refresh_queued now 0 s.queued),
  Positions-refresh_queued now 0 s.queued,
  h,
)

written-Published :
    (b : Bool) (s : StatusSnapshot) (file : Option StatusSnapshot)
    → Consistent s
    → Published file
    → Published (if b then some s else file)
written-Published true s file c p = c
written-Published false s file c p = p

abbrev Bounded : MutableStatus → Type 0
Bounded state = length state.snapshot.recent ≤ state.snapshot.server.recent_limit

publish-AllConsistent :
    (env : Env) (now : ℕ) (r : StatusRegistry) (state : MutableStatus)
    → Published r.file
    → Bounded state
    → AllConsistent (publish env now r state)
unfolding publish
publish-AllConsistent env now r state p h =
    let c = refresh_snapshot-Consistent state.snapshot now h in
    (c, written-Published env.write_ok (refresh_snapshot state.snapshot now) r.file c p)

update_at-AllConsistent {ℓ} :
    {T : Type ℓ} (env : Env) (r : StatusRegistry) (update : MutableStatus → ℕ → MutableStatus × T)
    → AllConsistent r
    → ((now : ℕ) → Bounded (update r.state now).0)
    → (now : Option ℕ) → AllConsistent (update_at env r update now).0
update_at-AllConsistent env r update c h none = c
update_at-AllConsistent env r update c h (some now) =
    publish-AllConsistent env now r (update r.state now).0 c.1 (h now)

with_status_update-AllConsistent {ℓ} :
    {T : Type ℓ} (env : Env) (r : StatusRegistry) (update : MutableStatus → ℕ → MutableStatus × T)
    → AllConsistent r
    → ((now : ℕ) → Bounded (update r.state now).0)
    → AllConsistent (with_status_update env r update).0
unfolding with_status_update
with_status_update-AllConsistent env r update c h = update_at-AllConsistent env r update c h env.now

start_found-Bounded :
    (state : MutableStatus) (now : ℕ) (found : Option (QueuedBuildStatus × List QueuedBuildStatus))
    → Bounded state
    → Bounded (start_found state now found)
start_found-Bounded state now none h = h
start_found-Bounded state now (some (q, queue)) h = h

take_within {ℓ} : {A : Type ℓ} (n : ℕ) (xs : List A) → length (take n xs) ≤ n
take_within n xs = omega (arith, length-take n xs)

finish_queued-Bounded :
    (result : BuildResult) (short_error : Option Text) (state : MutableStatus) (now : ℕ)
    (found : Option (QueuedBuildStatus × List QueuedBuildStatus))
    → Bounded state
    → Bounded (finish_queued result short_error state now found)
finish_queued-Bounded result short_error state now none h = h
finish_queued-Bounded result short_error state now (some (q, queue)) h =
    take_within state.snapshot.server.recent_limit
      (recent_of_queued q result short_error now ∷ state.snapshot.recent)

finish_active-Bounded :
    (id : Text) (result : BuildResult) (short_error : Option Text) (state : MutableStatus) (now : ℕ)
    (found : Option (ActiveBuildStatus × List ActiveBuildStatus))
    → Bounded state
    → Bounded (finish_active id result short_error state now found)
finish_active-Bounded id result short_error state now none h =
    finish_queued-Bounded result short_error state now
      (remove_by (λ q. q.request_id) id state.snapshot.queued) h
finish_active-Bounded id result short_error state now (some (a, active)) h =
    take_within state.snapshot.server.recent_limit
      (recent_of_active a result short_error now ∷ state.snapshot.recent)

if_either :
    (b : Bool) (x y : StatusRegistry)
    → AllConsistent x
    → AllConsistent y
    → AllConsistent (if b then x else y)
if_either true x y p q = p
if_either false x y p q = q

heartbeat_at-AllConsistent :
    (env : Env) (r : StatusRegistry) (now : Option ℕ)
    → AllConsistent r
    → AllConsistent (heartbeat_at env r now)
heartbeat_at-AllConsistent env r none c = c
heartbeat_at-AllConsistent env r (some now) c =
    if_either (has_live_builds r) (publish env now r r.state) r
      (publish-AllConsistent env now r r.state c.1 c.0.3) c

apply-AllConsistent :
    (call : Call) (r : StatusRegistry) → AllConsistent r → AllConsistent (apply call r)
unfolding apply enqueue enqueue_update start start_update set_build_phase phase_update finish
    finish_update heartbeat
apply-AllConsistent (enqueues env label installable) r c =
    with_status_update-AllConsistent env r (enqueue_update label installable) c (λ now. c.0.3)
apply-AllConsistent (starts env id) r c =
    with_status_update-AllConsistent env r (start_update id) c λ now.
      start_found-Bounded r.state now (remove_by (λ q. q.request_id) id r.state.snapshot.queued)
        c.0.3
apply-AllConsistent (phases env id phase) r c =
    with_status_update-AllConsistent env r (phase_update id phase) c (λ now. c.0.3)
apply-AllConsistent (finishes env id result short_error) r c =
    with_status_update-AllConsistent env r (finish_update id result short_error) c λ now.
      finish_active-Bounded id result short_error r.state now
        (remove_by (λ a. a.request_id) id r.state.snapshot.active) c.0.3
apply-AllConsistent (beats env) r c = heartbeat_at-AllConsistent env r env.now c

run-kept : (calls : List Call) (r : StatusRegistry) → AllConsistent r → AllConsistent (run calls r)
unfolding run
run-kept [] r c = c
run-kept (call ∷ calls) r c = run-kept calls (apply call r) (apply-AllConsistent call r c)

new_at-AllConsistent :
    (env : Env) (id : Text) (concurrency limit : ℕ) (now : Option ℕ) (r : StatusRegistry)
    → new_at env id concurrency limit now ≡ some r
    → AllConsistent r
new_at-AllConsistent env id concurrency limit none r h = absurd (ground arith)
new_at-AllConsistent env id concurrency limit (some now) r h =
    let state = initial id concurrency limit now in
    elim (Bool-cases env.write_ok) [
      | inl w ↦
          subst AllConsistent {x = publish env now (record { state = state; file = none }) state}
            {y = r} (ground arith)
            (publish-AllConsistent env now (record { state = state; file = none }) state tt
              (omega arith))
      | inr w ↦ absurd (ground arith)
    ]

-- From a new registry, after any calls and whatever writes of the file failed: in the snapshot in
-- memory and in the one in the file (if any) the counts are those of the lists, the positions
-- of the queue are 1, 2, ..., and the history is within its limit.
pub run-AllConsistent :
    (env : Env) (id : Text) (concurrency limit : ℕ) (r : StatusRegistry) (calls : List Call)
    → new env id concurrency limit ≡ some r
    → AllConsistent (run calls r)
unfolding new
run-AllConsistent env id concurrency limit r calls h =
    run-kept calls r (new_at-AllConsistent env id concurrency limit env.now r h)
