-- ===== src/ClientCache/Mirror/Held.antt =====
-- crates/drv-thru/src/client_cache/mirror.rs: what a mirror that succeeded holds.
use drv_thru.Base.{
  ℕ, zero, suc, ◌≡◌, refl, sym, ap, subst, ◌∙◌, Bool, List, [], ◌∷◌, ◌++◌, Option, none, some,
  Result, ok, err, ok-injective, arith, inl, inr, All, All-append_left, All-append_right,
  Bool-cases,
}
use drv_thru.Text.{Text, text_eq}
use drv_thru.Text.Prefix.{text_eq_sound}
use drv_thru.TextMap.{lookup, insert, lookup-insert, lookup-insert_self}
use drv_thru.Cache.Injective.{cache_file_path-injective}
use drv_thru.ClientCache.Files.{Files}
use drv_thru.ClientCache.Mirror.{MirrorError, MirrorWorld, Mirrored, mirror_narinfo, mirror_nar}
use drv_thru.ClientCache.Mirror.Tasks.{
  Task, metadata, payload, choose, spawned, payload_failure, Outcome, ended, Rounds, after_metadata,
  after_payload, run_task, go_on, mirror_rounds,
}
use drv_thru.ClientCache.Mirror.Fetches.{Makes, MakesNarinfo, mirror_narinfo-ok, mirror_nar-ok}
use drv_thru.ClientCache.Mirror.Sends.{fetched_bytes, Sends-fetched}
use drv_thru.ClientCache.Mirror.Laws.{All-choose}

module _ (world : MirrorWorld) (dir : Text) where
  -- The file is there with the bytes that the builder sends.
  abbrev pub Kept : Files → Text → List ℕ → Text → Type 0
  Kept files path bytes file = Makes world dir path bytes file × (lookup file files ≡ some bytes)

  abbrev pub NarHeld : Files → Text → Type 0
  NarHeld files path = (bytes : List ℕ) × (file : Text) × Kept files path bytes file

  abbrev pub SpawnedHeld : Files → Option Text → Type 0
  SpawnedHeld files none = Unit
  SpawnedHeld files (some nar_path) = NarHeld files nar_path

  -- The files of a task: the narinfo, and the NAR file that it names if the path is copied.
  abbrev pub Held : Files → Task → Type 0
  Held files (metadata path copy_path) =
      (bytes : List ℕ) × (file : Text) × (nar_path : Option Text) × MakesNarinfo world dir path
        copy_path bytes file nar_path
      × (lookup file files ≡ some bytes)
      × SpawnedHeld files nar_path
  Held files (payload path) = NarHeld files path

  -- No file that was fetched is lost or changed.
  abbrev Keeps : Files → Files → Type 0
  Keeps files after =
      (path : Text) (bytes : List ℕ) (file : Text)
      → Kept files path bytes file
      → lookup file after ≡ some bytes

  insert-Keeps :
      (files : Files) (path : Text) (bytes : List ℕ) (file : Text)
      → Makes world dir path bytes file
      → Keeps files (insert file bytes files)
  insert-Keeps files path bytes file (brings, at, can) other content place ((sent, lies, w), held) =
      elim (Bool-cases (text_eq file place)) [
        | inl same ↦
            let here = text_eq_sound file place same in
            let paths =
              cache_file_path-injective dir path other file at (lies ∙ ap ok (sym here)) in
            let contents = ok-injective (
              sym (Sends-fetched world path bytes brings)
              ∙ ap (fetched_bytes world) paths
              ∙ Sends-fetched world other content sent) in
            lookup-insert file place bytes files ∙ rw same (ap some contents)
        | inr apart ↦ lookup-insert file place bytes files ∙ rw apart held
      ]

  Keeps-trans : (a b c : Files) → Keeps a b → Keeps b c → Keeps a c
  Keeps-trans a b c h k path bytes file kept = k path bytes file (kept.0, h path bytes file kept)

  spawned-Held :
      (files : Files) (nar_path : Option Text)
      → All (Held files) (spawned nar_path)
      → SpawnedHeld files nar_path
  spawned-Held files none h = tt
  spawned-Held files (some nar_path) (h, _) = h

  -- What a run that succeeds shows.
  abbrev Shown : List Task → Option MirrorError → Mirrored → Mirrored → Type 0
  Shown tasks failed m after =
      (failed ≡ none) × All (Held after.files) tasks × Keeps m.files after.files

  abbrev Shows : Rounds → Type 0
  Shows next =
      (tasks : List Task) (failed : Option MirrorError) (m after : Mirrored)
      → next tasks failed m ≡ ended (ok after)
      → Shown tasks failed m after

  module _ (next : Rounds) (shows : Shows next) where
    after_metadata-Shown :
        (path : Text) (copy_path : Bool) (rest : List Task) (failed : Option MirrorError)
        (m after : Mirrored) (r : Result MirrorError (Option Text × Mirrored))
        → mirror_narinfo world dir path copy_path m ≡ r
        → after_metadata next rest failed r ≡ ended (ok after)
        → Shown (metadata path copy_path ∷ rest) failed m after
    after_metadata-Shown path copy_path rest failed m after (err e) ran h = ground arith
    after_metadata-Shown path copy_path rest failed m after (ok (nar_path, done)) ran h =
        let (bytes, file, makes, written) =
          mirror_narinfo-ok world dir path copy_path m done nar_path ran in
        let (clean, held, keeps) = shows (rest ++ spawned nar_path) failed done after h in
        let there : lookup file done.files ≡ some bytes =
          ap (lookup file) written ∙ lookup-insert_self file bytes m.files in
        (
          clean,
          (
            (
              bytes,
              file,
              nar_path,
              makes,
              keeps path bytes file (makes.0, there),
              spawned-Held after.files nar_path
                  (All-append_right (Held after.files) rest (spawned nar_path) held),
            ),
            All-append_left (Held after.files) rest (spawned nar_path) held,
          ),
          Keeps-trans m.files done.files after.files
              (subst (Keeps m.files) (sym written) (insert-Keeps m.files path bytes file makes.0))
              keeps,
        )

    after_payload-Shown :
        (path : Text) (rest : List Task) (failed : Option MirrorError) (m after : Mirrored)
        (r : Result MirrorError Mirrored)
        → mirror_nar world dir path m ≡ r
        → after_payload next rest failed m r ≡ ended (ok after)
        → Shown (payload path ∷ rest) failed m after
    after_payload-Shown path rest none m after (err e) ran h =
        absurd (ground (arith, (shows rest (some e) m after h).0))
    after_payload-Shown path rest (some first) m after (err e) ran h =
        absurd (ground (arith, (shows rest (some first) m after h).0))
    after_payload-Shown path rest failed m after (ok done) ran h =
        let (bytes, file, makes, written) = mirror_nar-ok world dir path m done ran in
        let (clean, held, keeps) = shows rest failed done after h in
        let there : lookup file done.files ≡ some bytes =
          ap (lookup file) written ∙ lookup-insert_self file bytes m.files in
        (
          clean,
          ((bytes, file, (makes, keeps path bytes file (makes, there))), held),
          Keeps-trans m.files done.files after.files
              (subst (Keeps m.files) (sym written) (insert-Keeps m.files path bytes file makes))
              keeps,
        )

    run_task-Shown :
        (chosen : Task × List Task) (failed : Option MirrorError) (m after : Mirrored)
        → run_task world dir next chosen failed m ≡ ended (ok after)
        → Shown (chosen.0 ∷ chosen.1) failed m after
    unfolding run_task
    run_task-Shown (metadata path copy_path, rest) failed m after h =
        after_metadata-Shown path copy_path rest failed m after _ refl h
    run_task-Shown (payload path, rest) failed m after h =
        after_payload-Shown path rest failed m after _ refl h

  step-Shown :
      (failure : Option MirrorError) (others : Outcome Mirrored) (after : Mirrored)
      → go_on failure others ≡ ended (ok after)
      → others ≡ ended (ok after)
  step-Shown none others after h = h
  step-Shown (some e) others after h = ground arith

  pub mirror_rounds-Shown :
      (pick : ℕ → ℕ) (rounds i : ℕ) → Shows (mirror_rounds world dir pick rounds i)
  unfolding mirror_rounds
  mirror_rounds-Shown pick rounds i [] none m after h = (
    refl,
    tt,
    λ path bytes file kept. subst (λ r. lookup file r.files ≡ some bytes) (ended_ok h) kept.1,
  )
    where
      ended_ok : {a b : Mirrored} → ◌≡◌ {A = Outcome Mirrored} (ended (ok a)) (ended (ok b)) → a ≡ b
      ended_ok same = cc
  mirror_rounds-Shown pick rounds i [] (some e) m after h = ground arith
  mirror_rounds-Shown pick zero i (task ∷ tasks) failed m after h = ground arith
  mirror_rounds-Shown pick (suc rounds) i (task ∷ tasks) failed m after h =
      let next = mirror_rounds world dir pick rounds (suc i) in
      let (clean, held, keeps) =
        run_task-Shown next (mirror_rounds-Shown pick rounds (suc i)) (choose (pick i) task tasks)
          failed m after (step-Shown (payload_failure failed (task ∷ tasks)) _ after h) in
      (clean, All-choose (Held after.files) (pick i) task tasks held, keeps)
