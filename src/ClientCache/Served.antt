-- ===== src/ClientCache/Served.antt =====
-- crates/drv-thru/src/client_cache/: the local server on the mirror that was built, as Nix sees it.
use drv_thru.Base.{
  ℕ, ◌≡◌, refl, sym, ap, true, List, [], ◌∷◌, Option, none, some, ok, All, All-map, inl, length,
  ==_self, append-nil, >>=-eq-ok,
}
use drv_thru.Text.{Text}
use drv_thru.Nix.StorePath.{StorePath}
use drv_thru.Cache.{cache_file_path, sanitize_cache_path, sanitize_http_cache_path}
use drv_thru.Cache.FilePath.{join}
use drv_thru.Cache.Laws.{sanitize_iff}
use drv_thru.Cache.Place.{sanitize_http_iff}
use drv_thru.ClientCache.Http.{get_method, http_head}
use drv_thru.ClientCache.Files.{Files, disk_of}
use drv_thru.ClientCache.LocalServer.{LocalCache, serve_file, respond_to}
use drv_thru.ClientCache.Mirror.{MirrorWorld, Mirrored, CacheProgress, nar_of}
use drv_thru.ClientCache.Mirror.Tasks.{Task, metadata, payload, ended, build, copy_narinfos_of}
use drv_thru.ClientCache.Mirror.Sends.{Sends}
use drv_thru.ClientCache.Mirror.Held.{Kept, NarHeld, SpawnedHeld, Held}
use drv_thru.ClientCache.Mirror.Runs.{OfTask, InMirror, build-InMirror}

-- The server of a mirror, to a client that takes what is written.
abbrev pub local_on : Text → Files → LocalCache
local_on dir files = record {
  cache_dir = dir;
  disk = disk_of files;
  writes = λ text. true;
  closes = true;
}

-- A GET of a cache path is answered with these bytes.
abbrev pub Gives : Text → Files → Text → List ℕ → Type 0
Gives dir files path bytes =
    respond_to (local_on dir files) get_method (b'/' ∷ path)
    ≡ (http_head 200 (length bytes) ∷ bytes ∷ [], ok tt)

module _ (world : MirrorWorld) (dir : Text) (files : Files) where
  -- Nix gets what the builder sends for the path.
  abbrev pub Passes : Text → Type 0
  Passes path = (bytes : List ℕ) × Sends world path bytes × Gives dir files path bytes

  abbrev pub PassesSpawned : Option Text → Type 0
  PassesSpawned none = Unit
  PassesSpawned (some nar_path) = Passes nar_path

  -- It gets the narinfo of a path, and the NAR file that the narinfo names if the path is copied.
  abbrev pub PassesTask : Task → Type 0
  PassesTask (metadata path copy_path) =
      (bytes : List ℕ) × (nar_path : Option Text) × Sends world path bytes
      × (nar_of world bytes copy_path ≡ ok nar_path)
      × Gives dir files path bytes
      × PassesSpawned nar_path
  PassesTask (payload path) = Passes path

  Kept-Gives :
      (path file : Text) (bytes : List ℕ)
      → Kept world dir files path bytes file
      → Gives dir files path bytes
  unfolding respond_to serve_file disk_of cache_file_path
  Kept-Gives path file bytes ((brings, at, can), held) =
      let (q, accepted, joined) = >>=-eq-ok (sanitize_cache_path path) (λ p. ok (join dir p)) at in
      let (same, v) = (sanitize_iff path q).0 accepted in
      let target : sanitize_http_cache_path (b'/' ∷ path) ≡ ok path =
        (sanitize_http_iff (b'/' ∷ path) path).1
          ([], inl refl, ap (◌∷◌ b'/') (sym (append-nil path)), v) in
      rw (target, at, held, ==_self (length bytes)) refl

  NarHeld-Passes : (path : Text) → NarHeld world dir files path → Passes path
  NarHeld-Passes path (bytes, file, kept) = (bytes, kept.0.0, Kept-Gives path file bytes kept)

  SpawnedHeld-Passes :
      (nar_path : Option Text) → SpawnedHeld world dir files nar_path → PassesSpawned nar_path
  SpawnedHeld-Passes none h = tt
  SpawnedHeld-Passes (some nar_path) h = NarHeld-Passes nar_path h

  Held-Passes : (task : Task) → Held world dir files task → PassesTask task
  Held-Passes (metadata path copy_path)
        (bytes, file, nar_path, (makes, small, names), held, spawned) =
      (
        bytes,
        nar_path,
        makes.0,
        names,
        Kept-Gives path file bytes (makes, held),
        SpawnedHeld-Passes nar_path spawned,
      )
  Held-Passes (payload path) h = NarHeld-Passes path h

  InMirror-Passes :
      (copy_narinfos : List Text) (path : StorePath)
      → InMirror world dir files copy_narinfos path
      → OfTask PassesTask copy_narinfos path
  InMirror-Passes copy_narinfos path (task, e, held) = (task, e, Held-Passes task held)

-- When the mirror is built, in whatever order its tasks end, a client of the local server gets, for
-- every path of the closure, the narinfo that the builder sends and, if the path is copied, the NAR
-- file that the narinfo names, each with its length and whole.
pub build-PassesTask :
    (world : MirrorWorld) (dir : Text) (pick : ℕ → ℕ) (closure_paths copy_paths : List StorePath)
    (progress : CacheProgress) (after : Mirrored)
    → build world dir pick closure_paths copy_paths progress ≡ ended (ok after)
    → (copy_narinfos : List Text) × (copy_narinfos_of copy_paths ≡ ok copy_narinfos)
      × All (OfTask (PassesTask world dir after.files) copy_narinfos) closure_paths
build-PassesTask world dir pick closure_paths copy_paths progress after h =
    let (copy_narinfos, e, held) =
      build-InMirror world dir pick closure_paths copy_paths progress after h in
    (
      copy_narinfos,
      e,
      All-map _ _ (InMirror-Passes world dir after.files copy_narinfos) closure_paths held,
    )
