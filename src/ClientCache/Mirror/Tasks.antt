-- ===== src/ClientCache/Mirror/Tasks.antt =====
-- crates/drv-thru/src/client_cache/mirror.rs: the tasks of `mirror_cache_files`. A task runs as a whole
-- when it is chosen, which is any order of those that are there; the permits only delay tasks.
use drv_thru.Base.{
  ℕ, zero, suc, ◌*◌, Bool, true, false, List, [], ◌∷◌, ◌++◌, Option, none, some, Result, ok, err,
  ◌>>=◌, ◌>>◌, bail_if, context, try_map, length, any, ltb, ◌==◌, if◌then◌else◌,
}
use drv_thru.Text.{Text, codes, parse_u64}
use drv_thru.TextMap.{member}
use drv_thru.Nix.StorePath.{StorePath}
use drv_thru.Cache.{nix_cache_info}
use drv_thru.ClientCache.Files.{Files}
use drv_thru.ClientCache.Mirror.{
  MirrorError, panicked, MirrorWorld, Mirrored, CacheProgress, mirror_narinfo, mirror_nar,
  narinfo_path_for_store_path, write_cache_bytes,
}

-- A task of `metadata_tasks`, with whether the path is to be copied, and one of `payload_tasks`.
pub data Task : Type 0 where
  metadata : Text → Bool → Task
  payload : Text → Task

abbrev pub is_metadata : Task → Bool
is_metadata (metadata path copy_path) = true
is_metadata (payload path) = false

-- The task that ends next, by its number, and the others.
unfoldable pub choose : ℕ → Task → List Task → Task × List Task
choose n task [] = (task, [])
choose zero task (other ∷ others) = (task, other ∷ others)
choose (suc n) task (other ∷ others) =
    let (chosen, rest) = choose n other others in (chosen, task ∷ rest)

-- The payload task that the result of a metadata task spawns.
abbrev pub spawned : Option Text → List Task
spawned none = []
spawned (some nar_path) = payload nar_path ∷ []

-- The results of payload tasks are looked at when all metadata tasks have ended: the first failure
-- among them is kept.
abbrev pub first_failure : Option MirrorError → MirrorError → Option MirrorError
first_failure none e = some e
first_failure (some first) e = some first

abbrev pub payload_failure : Option MirrorError → List Task → Option MirrorError
payload_failure none tasks = none
payload_failure (some e) tasks = if any is_metadata tasks then none else some e

-- What a run is after some rounds: still under way, or at an end.
pub data Outcome (A : Type 0) : Type 0 where
  running : Outcome A
  ended : Result MirrorError A → Outcome A

-- The tasks that are left, what was made, and a failure of a payload task.
abbrev pub Rounds : Type 0
Rounds = List Task → Option MirrorError → Mirrored → Outcome Mirrored

abbrev pub after_metadata :
    Rounds
    → List Task
    → Option MirrorError
    → Result MirrorError (Option Text × Mirrored)
    → Outcome Mirrored
after_metadata next rest failed (err e) = ended (err e)
after_metadata next rest failed (ok (nar_path, m)) = next (rest ++ spawned nar_path) failed m

abbrev pub after_payload :
    Rounds
    → List Task
    → Option MirrorError
    → Mirrored
    → Result MirrorError Mirrored
    → Outcome Mirrored
after_payload next rest failed m (err e) = next rest (first_failure failed e) m
after_payload next rest failed m (ok done) = next rest failed done

unfoldable pub run_task :
    MirrorWorld
    → Text
    → Rounds
    → Task × List Task
    → Option MirrorError
    → Mirrored
    → Outcome Mirrored
unfolding mirror_narinfo mirror_nar
run_task world dir next (metadata path copy_path, rest) failed m =
    after_metadata next rest failed (mirror_narinfo world dir path copy_path m)
run_task world dir next (payload path, rest) failed m =
    after_payload next rest failed m (mirror_nar world dir path m)

abbrev pub closing : Option MirrorError → Mirrored → Outcome Mirrored
closing none m = ended (ok m)
closing (some e) m = ended (err e)

abbrev pub go_on : Option MirrorError → Outcome Mirrored → Outcome Mirrored
go_on none next = next
go_on (some e) next = ended (err e)

-- The loops over the ends of the tasks, on a number of rounds; `pick` is the order of the ends.
unfoldable pub mirror_rounds : MirrorWorld → Text → (ℕ → ℕ) → ℕ → ℕ → Rounds
unfolding choose run_task
mirror_rounds world dir pick rounds i [] failed m = closing failed m
mirror_rounds world dir pick zero i (task ∷ tasks) failed m = running
mirror_rounds world dir pick (suc rounds) i (task ∷ tasks) failed m =
    go_on (payload_failure failed (task ∷ tasks)) (
      run_task world dir (mirror_rounds world dir pick rounds (suc i)) (choose (pick i) task tasks)
        failed m)

-- The metadata task of a path of the closure. A store path always has a hash.
unfoldable pub metadata_task : List Text → StorePath → Result MirrorError Task
unfolding narinfo_path_for_store_path member
metadata_task copy_narinfos path = do
  narinfo_path ← context (narinfo_path_for_store_path path) panicked
  ok (metadata narinfo_path (member narinfo_path copy_narinfos))

unfoldable pub metadata_tasks : List Text → List StorePath → Result MirrorError (List Task)
unfolding metadata_task
metadata_tasks copy_narinfos closure_paths = try_map (metadata_task copy_narinfos) closure_paths

-- Each metadata task and the payload task that it may spawn take a round.
abbrev pub enough_rounds : List StorePath → ℕ
enough_rounds closure_paths = 2 * length closure_paths

abbrev pub run_all :
    MirrorWorld → Text → (ℕ → ℕ) → ℕ → Mirrored → Result MirrorError (List Task) → Outcome Mirrored
run_all world dir pick rounds m (err e) = ended (err e)
run_all world dir pick rounds m (ok tasks) = mirror_rounds world dir pick rounds 0 tasks none m

unfoldable pub mirror_cache_files :
    MirrorWorld → Text → (ℕ → ℕ) → List StorePath → List Text → Mirrored → Outcome Mirrored
unfolding mirror_rounds metadata_tasks
mirror_cache_files world dir pick closure_paths copy_narinfos m =
    run_all world dir pick (enough_rounds closure_paths) m
      (metadata_tasks copy_narinfos closure_paths)

abbrev pub store_dir_line : Text
store_dir_line = codes "StoreDir: /nix/store\n"

unfoldable pub write_nix_cache_info : MirrorWorld → Text → Files → Result MirrorError Files
unfolding write_cache_bytes
write_nix_cache_info world dir files =
    write_cache_bytes world dir nix_cache_info store_dir_line files

unfoldable pub copy_narinfos_of : List StorePath → Result MirrorError (List Text)
unfolding narinfo_path_for_store_path
copy_narinfos_of copy_paths =
    try_map (λ path. context (narinfo_path_for_store_path path) panicked) copy_paths

abbrev pub build_on :
    MirrorWorld
    → Text
    → (ℕ → ℕ)
    → List StorePath
    → CacheProgress
    → Result MirrorError (Files × List Text)
    → Outcome Mirrored
build_on world dir pick closure_paths progress (err e) = ended (err e)
build_on world dir pick closure_paths progress (ok (files, copy_narinfos)) =
    mirror_cache_files world dir pick closure_paths copy_narinfos
      (record { files = files; progress = progress })

-- The part of `build` before the fetches.
abbrev pub prepare : MirrorWorld → Text → List StorePath → Result MirrorError (Files × List Text)
prepare world dir copy_paths = do
  files ← write_nix_cache_info world dir []
  copy_narinfos ← copy_narinfos_of copy_paths
  ok (files, copy_narinfos)

-- `build`, in the new directory that `create_local_cache_dir` has made.
unfoldable pub build :
    MirrorWorld
    → Text
    → (ℕ → ℕ)
    → List StorePath
    → List StorePath
    → CacheProgress
    → Outcome Mirrored
unfolding write_nix_cache_info copy_narinfos_of mirror_cache_files
build world dir pick closure_paths copy_paths progress =
    build_on world dir pick closure_paths progress (prepare world dir copy_paths)

-- The limits of `parallel_nar_fetches`.
abbrev pub default_parallel_nar_fetches : ℕ
default_parallel_nar_fetches = 8

abbrev pub max_auto_parallel_nar_fetches : ℕ
max_auto_parallel_nar_fetches = 32

pub data FetchesError : Type 0 where
  no_fetches env_zero : FetchesError
  env_unreadable : Text → FetchesError

-- `clamp`.
unfoldable pub auto_parallel_nar_fetches : ℕ → ℕ
auto_parallel_nar_fetches available =
    if ltb available default_parallel_nar_fetches
    then default_parallel_nar_fetches
    else if ltb max_auto_parallel_nar_fetches available
    then max_auto_parallel_nar_fetches
    else available

abbrev from_env : Option Text → Option ℕ → Result FetchesError ℕ
from_env (some value) available = do
  parsed ← context (parse_u64 value) (env_unreadable value)
  bail_if (parsed == 0) env_zero
  ok parsed
from_env none none = ok (auto_parallel_nar_fetches default_parallel_nar_fetches)
from_env none (some available) = ok (auto_parallel_nar_fetches available)

-- The option of the command line, the environment variable and `available_parallelism`.
unfoldable pub parallel_nar_fetches : Option ℕ → Option Text → Option ℕ → Result FetchesError ℕ
unfolding auto_parallel_nar_fetches
parallel_nar_fetches (some configured) variable available = do
  bail_if (configured == 0) no_fetches
  ok configured
parallel_nar_fetches none variable available = from_env variable available
