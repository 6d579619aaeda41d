-- ===== src/ClientCache/Mirror/Laws.antt =====
-- crates/drv-thru/src/client_cache/mirror.rs: when the tasks succeed together, in every order.
use drv_thru.Base.{
  ℕ, zero, suc, ◌+◌, ◌≡◌, ◌≢◌, ◌≤◌, refl, sym, subst, List, [], ◌∷◌, ◌++◌, Option, none, some,
  Result, ok, err, arith, All, All-append,
}
use drv_thru.Text.{Text}
use drv_thru.ClientCache.Mirror.{MirrorError, MirrorWorld, Mirrored, mirror_narinfo, mirror_nar}
use drv_thru.ClientCache.Mirror.Tasks.{
  Task, metadata, payload, choose, spawned, first_failure, payload_failure, running, ended, Rounds,
  after_metadata, after_payload, run_task, go_on, mirror_rounds,
}
use drv_thru.ClientCache.Mirror.Fetches.{
  Makes, MakesNarinfo, with_file, ok-mirror_narinfo, ok-mirror_nar,
}

-- Every task of a row can do its work: its file comes whole and can be written, and where a metadata
-- task names a NAR file, so can the task of that file.
module _ (world : MirrorWorld) (dir : Text) where
  abbrev pub NarServed : Text → Type 0
  NarServed path = (bytes : List ℕ) × (file : Text) × Makes world dir path bytes file

  abbrev pub SpawnedServed : Option Text → Type 0
  SpawnedServed none = Unit
  SpawnedServed (some nar_path) = NarServed nar_path

  abbrev pub Served : Task → Type 0
  Served (metadata path copy_path) =
      (bytes : List ℕ) × (file : Text) × (nar_path : Option Text) × MakesNarinfo world dir path
        copy_path bytes file nar_path
      × SpawnedServed nar_path
  Served (payload path) = NarServed path

  spawned-Served : (nar_path : Option Text) → All Served (spawned nar_path) → SpawnedServed nar_path
  spawned-Served none h = tt
  spawned-Served (some nar_path) (h, _) = h

  Served-spawned : (nar_path : Option Text) → SpawnedServed nar_path → All Served (spawned nar_path)
  Served-spawned none h = tt
  Served-spawned (some nar_path) h = (h, tt)

-- The rounds that a task may take.
abbrev rounds_of : Task → ℕ
rounds_of (metadata path copy_path) = 2
rounds_of (payload path) = 1

abbrev pub rounds_for : List Task → ℕ
rounds_for [] = 0
rounds_for (task ∷ tasks) = rounds_of task + rounds_for tasks

rounds_for-append : (xs ys : List Task) → rounds_for (xs ++ ys) ≡ rounds_for xs + rounds_for ys
rounds_for-append [] ys = omega arith
rounds_for-append (x ∷ xs) ys = omega (arith, rounds_for-append xs ys)

rounds_for-spawned : (nar_path : Option Text) → rounds_for (spawned nar_path) ≤ 1
rounds_for-spawned none = omega arith
rounds_for-spawned (some nar_path) = omega arith

-- The chosen task and the others are the tasks, in another order.
choose-rounds :
    (n : ℕ) (task : Task) (tasks : List Task)
    → rounds_for ((choose n task tasks).0 ∷ (choose n task tasks).1) ≡ rounds_for (task ∷ tasks)
unfolding choose
choose-rounds n task [] = refl
choose-rounds zero task (other ∷ others) = refl
choose-rounds (suc n) task (other ∷ others) = omega (arith, choose-rounds n other others)

module _ (P : Task → Type 0) where
  choose-All :
      (n : ℕ) (task : Task) (tasks : List Task)
      → All P (task ∷ tasks)
      → All P ((choose n task tasks).0 ∷ (choose n task tasks).1)
  unfolding choose
  choose-All n task [] h = h
  choose-All zero task (other ∷ others) h = h
  choose-All (suc n) task (other ∷ others) (p, h) =
      let (q, rest) = choose-All n other others h in (q, (p, rest))

  pub All-choose :
      (n : ℕ) (task : Task) (tasks : List Task)
      → All P ((choose n task tasks).0 ∷ (choose n task tasks).1)
      → All P (task ∷ tasks)
  unfolding choose
  All-choose n task [] h = h
  All-choose zero task (other ∷ others) h = h
  All-choose (suc n) task (other ∷ others) (q, (p, rest)) = (p, All-choose n other others (q, rest))

-- A way on that has enough rounds for some tasks.
abbrev pub Ready : MirrorWorld → Text → ℕ → Rounds → Type 0
Ready world dir rounds next =
    (tasks : List Task) (failed : Option MirrorError) (m : Mirrored)
    → rounds_for tasks ≤ rounds
    → (next tasks failed m ≢ running)
      × (All (Served world dir) tasks
          → failed ≡ none
          → (after : Mirrored) × (next tasks failed m ≡ ended (ok after)))

module _ (world : MirrorWorld) (dir : Text) (rounds : ℕ) (next : Rounds)
    (ready : Ready world dir rounds next) where
  after_metadata-Ready :
      (rest : List Task) (failed : Option MirrorError)
      (r : Result MirrorError (Option Text × Mirrored))
      → rounds_for rest + 1 ≤ rounds
      → after_metadata next rest failed r ≢ running
  after_metadata-Ready rest failed (err e) n = ground arith
  after_metadata-Ready rest failed (ok (nar_path, m)) n =
      (ready (rest ++ spawned nar_path) failed m
        (omega (arith, rounds_for-append rest (spawned nar_path), rounds_for-spawned nar_path))).0

  after_payload-Ready :
      (rest : List Task) (failed : Option MirrorError) (m : Mirrored)
      (r : Result MirrorError Mirrored)
      → rounds_for rest ≤ rounds
      → after_payload next rest failed m r ≢ running
  after_payload-Ready rest failed m (err e) n = (ready rest (first_failure failed e) m n).0
  after_payload-Ready rest failed m (ok done) n = (ready rest failed done n).0

  run_task-ends :
      (chosen : Task × List Task) (failed : Option MirrorError) (m : Mirrored)
      → rounds_for (chosen.0 ∷ chosen.1) ≤ suc rounds
      → run_task world dir next chosen failed m ≢ running
  unfolding run_task
  run_task-ends (metadata path copy_path, rest) failed m n =
      after_metadata-Ready rest failed (mirror_narinfo world dir path copy_path m) (omega arith)
  run_task-ends (payload path, rest) failed m n =
      after_payload-Ready rest failed m (mirror_nar world dir path m) (omega arith)

  run_task-Served :
      (chosen : Task × List Task) (m : Mirrored)
      → rounds_for (chosen.0 ∷ chosen.1) ≤ suc rounds
      → All (Served world dir) (chosen.0 ∷ chosen.1)
      → (after : Mirrored) × (run_task world dir next chosen none m ≡ ended (ok after))
  unfolding run_task
  run_task-Served (metadata path copy_path, rest) m n
        ((bytes, file, nar_path, makes, served), others) =
      let (after, e) =
        (ready (rest ++ spawned nar_path) none (with_file path file bytes m) (
            omega
              (arith, rounds_for-append rest (spawned nar_path), rounds_for-spawned nar_path))).1
          (All-append (Served world dir) rest (spawned nar_path) others
            (Served-spawned world dir nar_path served))
          refl in
      (after, rw (ok-mirror_narinfo world dir path copy_path m bytes file nar_path makes) e)
  run_task-Served (payload path, rest) m n ((bytes, file, makes), others) =
      let (after, e) =
        (ready rest none (with_file path file bytes m) (omega arith)).1 others refl in
      (after, rw (ok-mirror_nar world dir path m bytes file makes) e)

  step-Ready :
      (chosen : Task × List Task) (failure failed : Option MirrorError) (m : Mirrored)
      → rounds_for (chosen.0 ∷ chosen.1) ≤ suc rounds
      → go_on failure (run_task world dir next chosen failed m) ≢ running
  step-Ready chosen none failed m n = run_task-ends chosen failed m n
  step-Ready chosen (some e) failed m n = ground arith

-- Rounds that are as many as the tasks may take are enough.
pub mirror_rounds-Ready :
    (world : MirrorWorld) (dir : Text) (pick : ℕ → ℕ) (rounds i : ℕ)
    → Ready world dir rounds (mirror_rounds world dir pick rounds i)
unfolding mirror_rounds
mirror_rounds-Ready world dir pick rounds i [] none m n = (ground arith, λ h e. (m, refl))
mirror_rounds-Ready world dir pick rounds i [] (some e) m n = (ground arith, λ h same. ground arith)
mirror_rounds-Ready world dir pick zero i (metadata path copy_path ∷ tasks) failed m n =
    absurd (omega arith)
mirror_rounds-Ready world dir pick zero i (payload path ∷ tasks) failed m n = absurd (omega arith)
mirror_rounds-Ready world dir pick (suc rounds) i (task ∷ tasks) failed m n =
    let ready = mirror_rounds-Ready world dir pick rounds (suc i) in
    let next = mirror_rounds world dir pick rounds (suc i) in
    let enough = subst (λ k. k ≤ suc rounds) (sym (choose-rounds (pick i) task tasks)) n in
    (
      step-Ready world dir rounds next ready (choose (pick i) task tasks)
          (payload_failure failed (task ∷ tasks)) failed m enough,
      λ served e.
          subst
            (λ f.
              (after : Mirrored) × (go_on (payload_failure f (task ∷ tasks))
                  (run_task world dir next (choose (pick i) task tasks) f m)
                ≡ ended (ok after)))
            (sym e)
            (run_task-Served world dir rounds next ready (choose (pick i) task tasks) m enough
              (choose-All (Served world dir) (pick i) task tasks served)),
    )
