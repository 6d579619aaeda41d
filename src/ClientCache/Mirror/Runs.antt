-- ===== src/ClientCache/Mirror/Runs.antt =====
-- crates/drv-thru/src/client_cache/mirror.rs: `mirror_cache_files` and `build` as a whole.
use drv_thru.Base.{
  ℕ, ◌≡◌, ◌≢◌, ◌↔◌, refl, sym, ap, subst, ◌∙◌, List, [], ◌∷◌, Option, none, some, Result, ok, err,
  >>=-eq-ok, ok-injective, arith, All, All-map, try_map,
}
use drv_thru.Text.{Text}
use drv_thru.Nix.StorePath.{StorePath}
use drv_thru.ClientCache.Files.{Files}
use drv_thru.ClientCache.Mirror.{MirrorError, MirrorWorld, Mirrored, CacheProgress}
use drv_thru.ClientCache.Mirror.Tasks.{
  Task, metadata, payload, running, ended, metadata_task, metadata_tasks, enough_rounds, run_all,
  mirror_cache_files, prepare, build_on, build, write_nix_cache_info, copy_narinfos_of,
}
use drv_thru.ClientCache.Mirror.Laws.{
  NarServed, SpawnedServed, Served, rounds_for, mirror_rounds-Ready,
}
use drv_thru.ClientCache.Mirror.Held.{NarHeld, SpawnedHeld, Held, mirror_rounds-Shown}

-- A predicate of the metadata task of a path.
abbrev pub OfTask : (Task → Type 0) → List Text → StorePath → Type 0
OfTask P copy_narinfos path = (task : Task) × (metadata_task copy_narinfos path ≡ ok task) × P task

module _ (P : Task → Type 0) (copy_narinfos : List Text) where
  OfTask-tasks :
      (paths : List StorePath)
      → All (OfTask P copy_narinfos) paths
      → (tasks : List Task) × (metadata_tasks copy_narinfos paths ≡ ok tasks) × All P tasks
  unfolding metadata_tasks
  OfTask-tasks [] h = ([], refl, tt)
  OfTask-tasks (path ∷ paths) ((task, e, p), h) =
      let (tasks, es, ps) = OfTask-tasks paths h in (task ∷ tasks, rw (e, es) refl, (p, ps))

  tasks-OfTask :
      (paths : List StorePath) (tasks : List Task)
      → metadata_tasks copy_narinfos paths ≡ ok tasks
      → All P tasks
      → All (OfTask P copy_narinfos) paths
  unfolding metadata_tasks
  tasks-OfTask [] tasks e h = tt
  tasks-OfTask (path ∷ paths) tasks e h =
      let (task, first, e1) = >>=-eq-ok (metadata_task copy_narinfos path) _ e in
      let (others, rest, e2) = >>=-eq-ok (try_map (metadata_task copy_narinfos) paths) _ e1 in
      let (p, ps) = subst (All P) (sym (ok-injective e2)) h in
      ((task, first, p), tasks-OfTask paths others rest ps)

metadata_task-rounds :
    (copy_narinfos : List Text) (path : StorePath) (task : Task)
    → metadata_task copy_narinfos path ≡ ok task
    → rounds_for (task ∷ []) ≡ 2
unfolding metadata_task
metadata_task-rounds copy_narinfos path (metadata narinfo copy_path) e = omega arith
metadata_task-rounds copy_narinfos path (payload nar) e = ground arith

metadata_tasks-rounds :
    (copy_narinfos : List Text) (paths : List StorePath) (tasks : List Task)
    → metadata_tasks copy_narinfos paths ≡ ok tasks
    → rounds_for tasks ≡ enough_rounds paths
unfolding metadata_tasks
metadata_tasks-rounds copy_narinfos [] tasks e = ap rounds_for (sym (ok-injective e))
metadata_tasks-rounds copy_narinfos (path ∷ paths) tasks e =
    let (task, first, e1) = >>=-eq-ok (metadata_task copy_narinfos path) _ e in
    let (others, rest, e2) = >>=-eq-ok (try_map (metadata_task copy_narinfos) paths) _ e1 in
    let here = metadata_task-rounds copy_narinfos path task first in
    let there = metadata_tasks-rounds copy_narinfos paths others rest in
    sym (ap rounds_for (ok-injective e2)) ∙ omega arith

-- A path of the closure can be mirrored: its narinfo comes whole, is at most 1 MiB and can be
-- written, and if the path is copied, so does the NAR file that the narinfo names.
abbrev pub Mirrorable : MirrorWorld → Text → List Text → StorePath → Type 0
Mirrorable world dir = OfTask (Served world dir)

-- The files of a path of the closure are in the mirror, as the builder sends them.
abbrev pub InMirror : MirrorWorld → Text → Files → List Text → StorePath → Type 0
InMirror world dir files = OfTask (Held world dir files)

NarHeld-Served :
    (world : MirrorWorld) (dir : Text) (files : Files) (path : Text)
    → NarHeld world dir files path
    → NarServed world dir path
NarHeld-Served world dir files path (bytes, file, (makes, held)) = (bytes, file, makes)

SpawnedHeld-Served :
    (world : MirrorWorld) (dir : Text) (files : Files) (nar_path : Option Text)
    → SpawnedHeld world dir files nar_path
    → SpawnedServed world dir nar_path
SpawnedHeld-Served world dir files none h = tt
SpawnedHeld-Served world dir files (some nar_path) h = NarHeld-Served world dir files nar_path h

Held-Served :
    (world : MirrorWorld) (dir : Text) (files : Files) (task : Task)
    → Held world dir files task
    → Served world dir task
Held-Served world dir files (metadata path copy_path)
      (bytes, file, nar_path, makes, held, spawned) =
    (bytes, file, nar_path, makes, SpawnedHeld-Served world dir files nar_path spawned)
Held-Served world dir files (payload path) h = NarHeld-Served world dir files path h

InMirror-Mirrorable :
    (world : MirrorWorld) (dir : Text) (files : Files) (copy_narinfos : List Text)
    (path : StorePath)
    → InMirror world dir files copy_narinfos path
    → Mirrorable world dir copy_narinfos path
InMirror-Mirrorable world dir files copy_narinfos path (task, e, held) =
    (task, e, Held-Served world dir files task held)

run_all-InMirror :
    (world : MirrorWorld) (dir : Text) (pick : ℕ → ℕ) (rounds : ℕ) (closure_paths : List StorePath)
    (copy_narinfos : List Text) (m after : Mirrored) (r : Result MirrorError (List Task))
    → metadata_tasks copy_narinfos closure_paths ≡ r
    → run_all world dir pick rounds m r ≡ ended (ok after)
    → All (InMirror world dir after.files copy_narinfos) closure_paths
run_all-InMirror world dir pick rounds closure_paths copy_narinfos m after (err e) same h =
    ground arith
run_all-InMirror world dir pick rounds closure_paths copy_narinfos m after (ok tasks) same h =
    tasks-OfTask (Held world dir after.files) copy_narinfos closure_paths tasks same
      (mirror_rounds-Shown world dir pick rounds 0 tasks none m after h).1

run_all-ends :
    (world : MirrorWorld) (dir : Text) (pick : ℕ → ℕ) (closure_paths : List StorePath)
    (copy_narinfos : List Text) (m : Mirrored) (r : Result MirrorError (List Task))
    → metadata_tasks copy_narinfos closure_paths ≡ r
    → run_all world dir pick (enough_rounds closure_paths) m r ≢ running
run_all-ends world dir pick closure_paths copy_narinfos m (err e) same = ground arith
run_all-ends world dir pick closure_paths copy_narinfos m (ok tasks) same =
    (mirror_rounds-Ready world dir pick (enough_rounds closure_paths) 0 tasks none m
      (omega (arith, metadata_tasks-rounds copy_narinfos closure_paths tasks same))).0

-- In whatever order the tasks end, the mirror ends after at most two rounds per path of the closure,
-- and it succeeds exactly if every path of the closure can be mirrored.
pub mirror_cache_files_iff :
    (world : MirrorWorld) (dir : Text) (pick : ℕ → ℕ) (closure_paths : List StorePath)
    (copy_narinfos : List Text) (m : Mirrored)
    → (mirror_cache_files world dir pick closure_paths copy_narinfos m ≢ running)
      × (((after : Mirrored) × (mirror_cache_files world dir pick closure_paths copy_narinfos m
              ≡ ended (ok after)))
          ↔ All (Mirrorable world dir copy_narinfos) closure_paths)
unfolding mirror_cache_files
mirror_cache_files_iff world dir pick closure_paths copy_narinfos m =
    (run_all-ends world dir pick closure_paths copy_narinfos m _ refl, (there, back))
  where
    there :
        ((after : Mirrored) × (run_all world dir pick
              (enough_rounds closure_paths)
              m
              (metadata_tasks copy_narinfos closure_paths)
            ≡ ended (ok after)))
        → All (Mirrorable world dir copy_narinfos) closure_paths
    there (after, h) =
        All-map _ _ (InMirror-Mirrorable world dir after.files copy_narinfos) closure_paths (
          run_all-InMirror world dir pick (enough_rounds closure_paths) closure_paths copy_narinfos
            m after _ refl h)

    back :
        All (Mirrorable world dir copy_narinfos) closure_paths
        → (after : Mirrored) × (run_all world dir pick
              (enough_rounds closure_paths)
              m
              (metadata_tasks copy_narinfos closure_paths)
            ≡ ended (ok after))
    back h =
        let (tasks, e, served) = OfTask-tasks (Served world dir) copy_narinfos closure_paths h in
        let (after, done) =
          (mirror_rounds-Ready world dir pick (enough_rounds closure_paths) 0 tasks none m
              (omega (arith, metadata_tasks-rounds copy_narinfos closure_paths tasks e))).1
            served refl in
        (after, rw e done)

-- A mirror that was built holds, for every path of the closure, the narinfo that the builder sends and,
-- if the path is copied, the NAR file that the narinfo names, whatever the order of the tasks.
pub build-InMirror :
    (world : MirrorWorld) (dir : Text) (pick : ℕ → ℕ) (closure_paths copy_paths : List StorePath)
    (progress : CacheProgress) (after : Mirrored)
    → build world dir pick closure_paths copy_paths progress ≡ ended (ok after)
    → (copy_narinfos : List Text) × (copy_narinfos_of copy_paths ≡ ok copy_narinfos)
      × All (InMirror world dir after.files copy_narinfos) closure_paths
unfolding build mirror_cache_files
build-InMirror world dir pick closure_paths copy_paths progress after h =
    on (prepare world dir copy_paths) refl h
  where
    on :
        (r : Result MirrorError (Files × List Text))
        → prepare world dir copy_paths ≡ r
        → build_on world dir pick closure_paths progress r ≡ ended (ok after)
        → (copy_narinfos : List Text) × (copy_narinfos_of copy_paths ≡ ok copy_narinfos)
          × All (InMirror world dir after.files copy_narinfos) closure_paths
    on (err e) same h = ground arith
    on (ok (files, copy_narinfos)) same h =
        let (info, _, e) = >>=-eq-ok (write_nix_cache_info world dir []) _ same in
        let (narinfos, made, e1) = >>=-eq-ok (copy_narinfos_of copy_paths) _ e in
        (
          copy_narinfos,
          made ∙ ap (λ r. ok (r.1)) (ok-injective e1),
          run_all-InMirror world dir pick (enough_rounds closure_paths) closure_paths copy_narinfos
              (record { files = files; progress = progress }) after _ refl h,
        )
