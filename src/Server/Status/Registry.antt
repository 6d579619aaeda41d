-- ===== src/Server/Status/Registry.antt =====
-- crates/drv-thru/src/server/status.rs: the records of the registry, and the update that every
-- call ends in.
use drv_thru.Base.{ℕ, ◌+◌, ◌-◌, Bool, List, [], ◌∷◌, Option, none, some, length, if◌then◌else◌}
use drv_thru.Text.{Text, text_eq}

pub record QueuedBuildStatus : Type 0 where
  pub request_id : Text
  pub client_label : Text
  pub installable : Text
  pub queued_at_unix : ℕ
  pub queued_for_seconds : ℕ
  pub position : ℕ

pub record ActiveBuildStatus : Type 0 where
  pub request_id : Text
  pub client_label : Text
  pub installable : Text
  pub phase : Text
  pub queued_at_unix : ℕ
  pub started_at_unix : ℕ
  pub elapsed_seconds : ℕ

pub data BuildResult : Type 0 where
  success failed error : BuildResult

pub record RecentBuildStatus : Type 0 where
  pub request_id : Text
  pub client_label : Text
  pub installable : Text
  pub result : BuildResult
  pub queued_at_unix : ℕ
  pub started_at_unix : Option ℕ
  pub finished_at_unix : ℕ
  pub duration_seconds : Option ℕ
  pub short_error : Option Text

pub record ServerStatus : Type 0 where
  pub endpoint_id : Text
  pub configured_concurrency : ℕ
  pub active_count : ℕ
  pub queued_count : ℕ
  pub recent_limit : ℕ
  pub started_at_unix : ℕ
  pub updated_at_unix : ℕ

pub record StatusSnapshot : Type 0 where
  pub version : ℕ
  pub server : ServerStatus
  pub queued : List QueuedBuildStatus
  pub active : List ActiveBuildStatus
  pub recent : List RecentBuildStatus

pub record MutableStatus : Type 0 where
  pub next_request_seq : ℕ
  pub snapshot : StatusSnapshot

-- The registry's memory, with the contents of `status.json`.
pub record StatusRegistry : Type 0 where
  pub state : MutableStatus
  pub file : Option StatusSnapshot

-- The clock (`none` before the epoch) and whether the write succeeds.
pub record Env : Type 0 where
  pub now : Option ℕ
  pub write_ok : Bool

-- The loop over the queue, from the position given.
unfoldable pub refresh_queued : ℕ → ℕ → List QueuedBuildStatus → List QueuedBuildStatus
refresh_queued now index [] = []
refresh_queued now index (q ∷ queue) =
    record q { position = index + 1; queued_for_seconds = now - q.queued_at_unix }
    ∷ refresh_queued now (index + 1) queue

unfoldable pub refresh_active : ℕ → List ActiveBuildStatus → List ActiveBuildStatus
refresh_active now [] = []
refresh_active now (a ∷ active) =
    record a { elapsed_seconds = now - a.started_at_unix } ∷ refresh_active now active

unfoldable pub refresh_snapshot : StatusSnapshot → ℕ → StatusSnapshot
unfolding refresh_queued refresh_active
refresh_snapshot s now = record s {
  server = record s.server {
    active_count = length s.active;
    queued_count = length s.queued;
    updated_at_unix = now;
  };
  queued = refresh_queued now 0 s.queued;
  active = refresh_active now s.active;
}

-- The refresh and the write that end every update.
unfoldable pub publish : Env → ℕ → StatusRegistry → MutableStatus → StatusRegistry
unfolding refresh_snapshot
publish env now registry state =
    let snapshot = refresh_snapshot state.snapshot now in
    record {
      state = record state { snapshot = snapshot };
      file = if env.write_ok then some snapshot else registry.file;
    }

abbrev pub update_at {ℓ} :
    {T : Type ℓ}
    → Env
    → StatusRegistry
    → (MutableStatus → ℕ → MutableStatus × T)
    → Option ℕ
    → StatusRegistry × Option T
update_at env registry update none = (registry, none)
update_at env registry update (some now) =
    let (state, t) = update registry.state now in
    (publish env now registry state, if env.write_ok then some t else none)

-- `with_status_update`: the memory changes even if the write fails, and the result is lost then.
unfoldable pub with_status_update {ℓ} :
    {T : Type ℓ}
    → Env
    → StatusRegistry
    → (MutableStatus → ℕ → MutableStatus × T)
    → StatusRegistry × Option T
unfolding publish
with_status_update env registry update = update_at env registry update env.now

abbrev pub put_back {ℓ} : {A : Type ℓ} → A → Option (A × List A) → Option (A × List A)
put_back x none = none
put_back x (some (y, ys)) = some (y, x ∷ ys)

-- `position` by the request id, then `remove` of the index.
unfoldable pub remove_by {ℓ} : {A : Type ℓ} → (A → Text) → Text → List A → Option (A × List A)
unfolding text_eq
remove_by id_of id [] = none
remove_by id_of id (x ∷ xs) =
    let rest = remove_by id_of id xs in
    if text_eq (id_of x) id then some (x, xs) else put_back x rest
