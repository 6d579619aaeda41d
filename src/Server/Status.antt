-- ===== src/Server/Status.antt =====
-- crates/drv-thru/src/server/status.rs: the registry of queued, active and recent builds. The
-- clock and the outcome of the write of `status.json` are parameters of each call.
mod Registry
pub mod Calls
pub mod Shape
pub mod Board
pub mod Refinement
pub mod Errors
mod Tests
unfoldable pub use Registry.*
use drv_thru.Base.{
  ℕ, suc, ◌+◌, ◌-◌, ◌%◌, ◌^◌, Bool, true, false, List, [], ◌∷◌, ◌++◌, Option, none, some, length,
  take, drop, ltb, if◌then◌else◌,
}
use drv_thru.Text.{Text, codes, text_eq, to_digits, is_empty}

abbrev pub max_short_error_chars : ℕ
max_short_error_chars = 512

abbrev pub truncated_mark : Text
truncated_mark = 10 ∷ codes "[truncated]"

-- The characters that are left decide whether the mark is added.
unfoldable pub truncate_text : Text → Text
truncate_text text =
    if is_empty (drop max_short_error_chars text)
    then take max_short_error_chars text
    else take max_short_error_chars text ++ truncated_mark

abbrev pub truncate_error : Option Text → Option Text
truncate_error none = none
truncate_error (some text) = some (truncate_text text)

abbrev pub initial : Text → ℕ → ℕ → ℕ → MutableStatus
initial endpoint_id configured_concurrency recent_limit now = record {
  next_request_seq = 0;
  snapshot = record {
    version = 1;
    server = record {
      endpoint_id = endpoint_id;
      configured_concurrency = configured_concurrency;
      active_count = 0;
      queued_count = 0;
      recent_limit = recent_limit;
      started_at_unix = now;
      updated_at_unix = now;
    };
    queued = [];
    active = [];
    recent = [];
  };
}

-- `StatusRegistry::new`: no registry without the clock or the first write.
abbrev pub new_at : Env → Text → ℕ → ℕ → Option ℕ → Option StatusRegistry
new_at env endpoint_id configured_concurrency recent_limit none = none
new_at env endpoint_id configured_concurrency recent_limit (some now) =
    let state = initial endpoint_id configured_concurrency recent_limit now in
    if env.write_ok
    then some (publish env now (record { state = state; file = none }) state)
    else none

unfoldable pub new : Env → Text → ℕ → ℕ → Option StatusRegistry
unfolding publish
new env endpoint_id configured_concurrency recent_limit =
    new_at env endpoint_id configured_concurrency recent_limit env.now

unfoldable pub request_name : ℕ → Text
unfolding to_digits
request_name seq = codes "build-" ++ to_digits seq

abbrev pub queued_build : Text → Text → Text → ℕ → QueuedBuildStatus
queued_build id client_label installable now = record {
  request_id = id;
  client_label = client_label;
  installable = installable;
  queued_at_unix = now;
  queued_for_seconds = 0;
  position = 0;
}

-- The build with its number and id at the end of the queue.
abbrev pub queue_up : ℕ → Text → Text → Text → MutableStatus → ℕ → MutableStatus
queue_up seq id client_label installable state now = record {
  next_request_seq = seq;
  snapshot = record state.snapshot {
    queued = state.snapshot.queued ++ (queued_build id client_label installable now ∷ []);
  };
}

unfoldable pub enqueue_update : Text → Text → MutableStatus → ℕ → MutableStatus × Text
unfolding request_name
enqueue_update client_label installable state now =
    let seq = (state.next_request_seq + 1) % 2 ^ 64 in
    (queue_up seq (request_name seq) client_label installable state now, request_name seq)

abbrev pub unknown_request : Text
unknown_request = codes "build-unknown"

unfoldable pub enqueue : Env → StatusRegistry → Text → Text → StatusRegistry × Text
unfolding with_status_update enqueue_update
enqueue env registry client_label installable =
    let (after, request_id) =
      with_status_update env registry (enqueue_update client_label installable) in
    (after, elim request_id [ none ↦ unknown_request | some id ↦ id ])

abbrev pub active_of : QueuedBuildStatus → ℕ → ActiveBuildStatus
active_of q now = record {
  request_id = q.request_id;
  client_label = q.client_label;
  installable = q.installable;
  phase = codes "starting";
  queued_at_unix = q.queued_at_unix;
  started_at_unix = now;
  elapsed_seconds = 0;
}

-- The move of the build that was taken out of the queue.
abbrev pub start_found :
    MutableStatus → ℕ → Option (QueuedBuildStatus × List QueuedBuildStatus) → MutableStatus
start_found state now none = state
start_found state now (some (q, queue)) = record state {
  snapshot = record state.snapshot {
    queued = queue;
    active = state.snapshot.active ++ (active_of q now ∷ []);
  };
}

unfoldable pub start_update : Text → MutableStatus → ℕ → MutableStatus × Unit {0}
unfolding remove_by
start_update id state now =
    (start_found state now (remove_by (λ q. q.request_id) id state.snapshot.queued), tt)

unfoldable pub start : Env → StatusRegistry → Text → StatusRegistry
unfolding with_status_update start_update
start env registry id = (with_status_update env registry (start_update id)).0

-- `find` of the first build with the id, and its new phase.
unfoldable pub set_phase : Text → Text → List ActiveBuildStatus → List ActiveBuildStatus
unfolding text_eq
set_phase id phase [] = []
set_phase id phase (a ∷ active) =
    let rest = set_phase id phase active in
    if text_eq a.request_id id then record a { phase = phase } ∷ active else a ∷ rest

unfoldable pub phase_update : Text → Text → MutableStatus → ℕ → MutableStatus × Unit {0}
unfolding set_phase
phase_update id phase state now = (
  record state {
    snapshot = record state.snapshot { active = set_phase id phase state.snapshot.active };
  },
  tt,
)

unfoldable pub set_build_phase : Env → StatusRegistry → Text → Text → StatusRegistry
unfolding with_status_update phase_update
set_build_phase env registry id phase = (with_status_update env registry (phase_update id phase)).0

abbrev pub recent_of_active : ActiveBuildStatus → BuildResult → Option Text → ℕ → RecentBuildStatus
recent_of_active a result short_error now = record {
  request_id = a.request_id;
  client_label = a.client_label;
  installable = a.installable;
  result = result;
  queued_at_unix = a.queued_at_unix;
  started_at_unix = some a.started_at_unix;
  finished_at_unix = now;
  duration_seconds = some (now - a.started_at_unix);
  short_error = truncate_error short_error;
}

abbrev pub recent_of_queued : QueuedBuildStatus → BuildResult → Option Text → ℕ → RecentBuildStatus
recent_of_queued q result short_error now = record {
  request_id = q.request_id;
  client_label = q.client_label;
  installable = q.installable;
  result = result;
  queued_at_unix = q.queued_at_unix;
  started_at_unix = none;
  finished_at_unix = now;
  duration_seconds = none;
  short_error = truncate_error short_error;
}

-- The insertion at the front and the truncation.
abbrev pub push_recent : RecentBuildStatus → StatusSnapshot → StatusSnapshot
push_recent r s = record s { recent = take s.server.recent_limit (r ∷ s.recent) }

abbrev pub finish_queued :
    BuildResult
    → Option Text
    → MutableStatus
    → ℕ
    → Option (QueuedBuildStatus × List QueuedBuildStatus)
    → MutableStatus
finish_queued result short_error state now none = state
finish_queued result short_error state now (some (q, queue)) = record state {
  snapshot =
      push_recent (recent_of_queued q result short_error now)
        (record state.snapshot { queued = queue });
}

-- The active builds are searched first, the queue only if there is none.
abbrev pub finish_active :
    Text
    → BuildResult
    → Option Text
    → MutableStatus
    → ℕ
    → Option (ActiveBuildStatus × List ActiveBuildStatus)
    → MutableStatus
finish_active id result short_error state now (some (a, active)) = record state {
  snapshot =
      push_recent (recent_of_active a result short_error now)
        (record state.snapshot { active = active });
}
finish_active id result short_error state now none =
    finish_queued result short_error state now
      (remove_by (λ q. q.request_id) id state.snapshot.queued)

unfoldable pub finish_update :
    Text → BuildResult → Option Text → MutableStatus → ℕ → MutableStatus × Unit {0}
unfolding remove_by truncate_text
finish_update id result short_error state now = (
  finish_active id result short_error state now
      (remove_by (λ a. a.request_id) id state.snapshot.active),
  tt,
)

unfoldable pub finish : Env → StatusRegistry → Text → BuildResult → Option Text → StatusRegistry
unfolding with_status_update finish_update
finish env registry id result short_error =
    (with_status_update env registry (finish_update id result short_error)).0

abbrev pub has_live_builds : StatusRegistry → Bool
has_live_builds registry = not_empty registry.state.snapshot.queued registry.state.snapshot.active
  where
    not_empty : List QueuedBuildStatus → List ActiveBuildStatus → Bool
    not_empty [] [] = false
    not_empty [] (a ∷ active) = true
    not_empty (q ∷ queue) active = true

-- One round of `heartbeat`.
abbrev pub heartbeat_at : Env → StatusRegistry → Option ℕ → StatusRegistry
heartbeat_at env registry none = registry
heartbeat_at env registry (some now) =
    if has_live_builds registry then publish env now registry registry.state else registry

unfoldable pub heartbeat : Env → StatusRegistry → StatusRegistry
unfolding publish
heartbeat env registry = heartbeat_at env registry env.now
