-- ===== src/ClientCache/Mirror/Fetches.antt =====
-- crates/drv-thru/src/client_cache/mirror.rs: when one task succeeds, and what it leaves.
use drv_thru.Base.{
  ℕ, ◌≡◌, ◌≤◌, refl, sym, ap, subst, ◌∙◌, Bool, true, false, not, List, Option, some, ok, bail_if,
  context, map_err, >>=-eq-ok, context-eq-ok, map_err-eq-ok, >>-eq-ok, bail_if-eq-ok, ok-injective,
  not-eq-false, ltb-eq-false, arith, length, ltb,
}
use drv_thru.Text.{Text}
use drv_thru.TextMap.{insert}
use drv_thru.Cache.{cache_file_path}
use drv_thru.ClientCache.Files.{Files}
use drv_thru.ClientCache.Mirror.Sends.{
  Sends, fetched_bytes, length-whole_body, fetched-Sends, Sends-fetched,
}
use drv_thru.ClientCache.Mirror.{
  no_metadata, no_payload, no_body, metadata_too_large, write_failed, MirrorWorld, Mirrored, Body,
  FetchedCacheFile, fetch_cache_file, read_fetched_body, max_narinfo_bytes, whole_body,
  read_narinfo, nar_of, write_cache_bytes, mirror_narinfo, mirror_nar, record_cache_file,
  bad_cache_path,
}

-- A fetch put together from its steps.
steps-fetched :
    (world : MirrorWorld) (path : Text) (answer : Option FetchedCacheFile)
    (fetched : FetchedCacheFile) (body : Body) (bytes : List ℕ)
    → fetch_cache_file world path true ≡ ok answer
    → answer ≡ some fetched
    → context fetched.body (no_body path) ≡ ok body
    → whole_body path fetched.byte_count body ≡ ok bytes
    → fetched_bytes world path ≡ ok bytes
steps-fetched world path answer fetched body bytes e found e1 e2 = rw (e, found, e1) e2

-- What a task leaves that has written a file.
abbrev pub with_file : Text → Text → List ℕ → Mirrored → Mirrored
with_file path file bytes m = record {
  files = insert file bytes m.files;
  progress = record_cache_file path true m.progress;
}

pub read_narinfo-fetched :
    (world : MirrorWorld) (path : Text) (bytes : List ℕ)
    → read_narinfo world path ≡ ok bytes
    → (fetched_bytes world path ≡ ok bytes) × (length bytes ≤ max_narinfo_bytes)
unfolding read_fetched_body
read_narinfo-fetched world path bytes h =
    let (answer, e, h1) = >>=-eq-ok (fetch_cache_file world path true) _ h in
    let (fetched, e1, h2) = >>=-eq-ok (context answer (no_metadata path)) _ h1 in
    let (small, h3) =
      >>-eq-ok
        (bail_if (ltb max_narinfo_bytes fetched.byte_count) (metadata_too_large fetched.byte_count))
        _ h2 in
    let (body, e2, h4) = >>=-eq-ok (context fetched.body (no_body path)) _ h3 in
    let found = context-eq-ok answer _ fetched e1 in
    (
      steps-fetched world path answer fetched body bytes e found e2 h4,
      subst (λ n. n ≤ max_narinfo_bytes)
          (sym (length-whole_body path fetched.byte_count body bytes h4))
          (ltb-eq-false _ _ (bail_if-eq-ok _ _ small)),
    )

pub fetched-read_narinfo :
    (world : MirrorWorld) (path : Text) (bytes : List ℕ)
    → fetched_bytes world path ≡ ok bytes
    → length bytes ≤ max_narinfo_bytes
    → read_narinfo world path ≡ ok bytes
unfolding read_fetched_body
fetched-read_narinfo world path bytes h small =
    let (answer, e, h1) = >>=-eq-ok (fetch_cache_file world path true) _ h in
    let (fetched, e1, h2) = >>=-eq-ok (context answer (no_payload path)) _ h1 in
    let (body, e2, h3) = >>=-eq-ok (context fetched.body (no_body path)) _ h2 in
    let found = context-eq-ok answer _ fetched e1 in
    let n = length-whole_body path fetched.byte_count body bytes h3 in
    let within : ltb max_narinfo_bytes fetched.byte_count ≡ false = ground arith in
    rw (e, found, within, e2) h3

-- A file that a task makes: the bytes come whole, and can be written below the directory.
abbrev pub Makes : MirrorWorld → Text → Text → List ℕ → Text → Type 0
Makes world dir path bytes file =
    Sends world path bytes × (cache_file_path dir path ≡ ok file) × (world.can_write file ≡ true)

-- A metadata task that succeeds, with the NAR path that it gives.
abbrev pub MakesNarinfo : MirrorWorld → Text → Text → Bool → List ℕ → Text → Option Text → Type 0
MakesNarinfo world dir path copy_path bytes file nar_path =
    Makes world dir path bytes file
    × (length bytes ≤ max_narinfo_bytes)
    × (nar_of world bytes copy_path ≡ ok nar_path)

pub write_cache_bytes-ok :
    (world : MirrorWorld) (dir path : Text) (bytes : List ℕ) (files after : Files)
    → write_cache_bytes world dir path bytes files ≡ ok after
    → (file : Text) × (cache_file_path dir path ≡ ok file)
      × (world.can_write file ≡ true)
      × (after ≡ insert file bytes files)
unfolding write_cache_bytes
write_cache_bytes-ok world dir path bytes files after h =
    let (file, e, h1) = >>=-eq-ok (map_err bad_cache_path (cache_file_path dir path)) _ h in
    let (passed, same) = >>-eq-ok (bail_if (not (world.can_write file)) (write_failed file)) _ h1 in
    (
      file,
      map_err-eq-ok bad_cache_path _ file e,
      not-eq-false _ (bail_if-eq-ok _ _ passed),
      sym (ok-injective same),
    )

pub ok-write_cache_bytes :
    (world : MirrorWorld) (dir path : Text) (bytes : List ℕ) (files : Files) (file : Text)
    → cache_file_path dir path ≡ ok file
    → world.can_write file ≡ true
    → write_cache_bytes world dir path bytes files ≡ ok (insert file bytes files)
unfolding write_cache_bytes
ok-write_cache_bytes world dir path bytes files file e can = rw (e, can) refl

pub mirror_narinfo-ok :
    (world : MirrorWorld) (dir path : Text) (copy_path : Bool) (m after : Mirrored)
    (nar_path : Option Text)
    → mirror_narinfo world dir path copy_path m ≡ ok (nar_path, after)
    → (bytes : List ℕ) × (file : Text) × MakesNarinfo world dir path copy_path bytes file nar_path
      × (after.files ≡ insert file bytes m.files)
unfolding mirror_narinfo
mirror_narinfo-ok world dir path copy_path m after nar_path h =
    let (bytes, e, h1) = >>=-eq-ok (read_narinfo world path) _ h in
    let (files, e1, h2) = >>=-eq-ok (write_cache_bytes world dir path bytes m.files) _ h1 in
    let (nar, e2, h3) = >>=-eq-ok (nar_of world bytes copy_path) _ h2 in
    let (file, at, can, written) = write_cache_bytes-ok world dir path bytes m.files files e1 in
    let (brings, small) = read_narinfo-fetched world path bytes e in
    let same = ok-injective h3 in
    (
      bytes,
      file,
      ((fetched-Sends world path bytes brings, at, can), small, e2 ∙ ap (λ r. ok (r.0)) same),
      sym (ap (λ r. (r.1).files) same) ∙ written,
    )

pub ok-mirror_narinfo :
    (world : MirrorWorld) (dir path : Text) (copy_path : Bool) (m : Mirrored) (bytes : List ℕ)
    (file : Text) (nar_path : Option Text)
    → MakesNarinfo world dir path copy_path bytes file nar_path
    → mirror_narinfo world dir path copy_path m ≡ ok (nar_path, with_file path file bytes m)
unfolding mirror_narinfo
ok-mirror_narinfo world dir path copy_path m bytes file nar_path ((brings, at, can), small, nar) =
    rw
      (
        fetched-read_narinfo world path bytes (Sends-fetched world path bytes brings) small,
        ok-write_cache_bytes world dir path bytes m.files file at can,
        nar,
      )
      refl

pub mirror_nar-ok :
    (world : MirrorWorld) (dir path : Text) (m after : Mirrored)
    → mirror_nar world dir path m ≡ ok after
    → (bytes : List ℕ) × (file : Text) × Makes world dir path bytes file
      × (after.files ≡ insert file bytes m.files)
unfolding mirror_nar
mirror_nar-ok world dir path m after h =
    let (answer, e, h1) = >>=-eq-ok (fetch_cache_file world path true) _ h in
    let (fetched, e1, h2) = >>=-eq-ok (context answer (no_payload path)) _ h1 in
    let (file, e2, h3) = >>=-eq-ok (map_err bad_cache_path (cache_file_path dir path)) _ h2 in
    let (body, e3, h4) = >>=-eq-ok (context fetched.body (no_body path)) _ h3 in
    let (passed, h5) = >>-eq-ok (bail_if (not (world.can_write file)) (write_failed file)) _ h4 in
    let (bytes, e4, h6) = >>=-eq-ok (whole_body path fetched.byte_count body) _ h5 in
    let found = context-eq-ok answer _ fetched e1 in
    (
      bytes,
      file,
      (
        fetched-Sends world path bytes
            (steps-fetched world path answer fetched body bytes e found e3 e4),
        map_err-eq-ok bad_cache_path _ file e2,
        not-eq-false _ (bail_if-eq-ok _ _ passed),
      ),
      sym (ap (λ r. r.files) (ok-injective h6)),
    )

pub ok-mirror_nar :
    (world : MirrorWorld) (dir path : Text) (m : Mirrored) (bytes : List ℕ) (file : Text)
    → Makes world dir path bytes file
    → mirror_nar world dir path m ≡ ok (with_file path file bytes m)
unfolding mirror_nar
ok-mirror_nar world dir path m bytes file (brings, at, can) =
    let (answer, e, h1) =
      >>=-eq-ok (fetch_cache_file world path true) _ (Sends-fetched world path bytes brings) in
    let (fetched, e1, h2) = >>=-eq-ok (context answer (no_payload path)) _ h1 in
    let (body, e2, h3) = >>=-eq-ok (context fetched.body (no_body path)) _ h2 in
    let found = context-eq-ok answer _ fetched e1 in rw (e, found, at, e2, can, h3) refl
