-- ===== src/ClientCache/Import/Outputs.antt =====
-- crates/drv-thru/src/client_cache/mod.rs: what an import of outputs that succeeded has done.
use drv_thru.Base.{
  ℕ, ◌≡◌, ◌⊎◌, refl, sym, ap, List, Option, none, some, Result, ok, err, >>=-eq-ok, map_err-eq-ok,
  ok-injective, map_err, try_map, inl, inr, arith, All, length, ◌≤◌, ◌≤◌,
}
use drv_thru.Text.{Text, trim}
use drv_thru.Nix.StorePath.{StorePath, new}
use drv_thru.Nix.Trust.{
  SignedCacheImportTrust, signed_cache_import_trust, copy_from_signed_binary_cache, copy_from_front,
}
use drv_thru.Nix.Trust.Laws.{commands_of, copy_from-commands_of}
use drv_thru.Protocol.PathChunks.Chunks.{concat}
use drv_thru.ImportHelper.{socket, import_paths}
use drv_thru.ClientCache.Mirror.{Mirrored}
use drv_thru.ClientCache.Mirror.Tasks.{
  Outcome, running, ended, build, parallel_nar_fetches, copy_narinfos_of,
}
use drv_thru.ClientCache.Mirror.Runs.{OfTask}
use drv_thru.ClientCache.Served.{PassesTask, build-PassesTask}
use drv_thru.ClientCache.Import.{
  OutputImportMethod, direct, helper, OutputImportError, bad_path, bad_fetches, nix_failed,
  helper_refused, ImportWorld, output_import_method, helper_request, copy_result, conclude,
  and_also, mirror_of, started, store_paths, new_progress, import_outputs_from_cache,
}
use drv_thru.ClientCache.Import.Method.{output_import_method_iff}

mirror_of-ok : (o : Outcome Mirrored) (m : Mirrored) → mirror_of o ≡ ok m → o ≡ ended (ok m)
mirror_of-ok running m h = cc
mirror_of-ok (ended (err e)) m h = cc
mirror_of-ok (ended (ok n)) m h = ap (λ x. ended (ok x)) (ok-injective h)

-- The end is good only if the copy, the local server and the clean-up ended well.
conclude-ok :
    (bytes n : ℕ) (copied : Result OutputImportError (Unit {0}))
    (bridge : Result (List Text) (Unit {0}))
    → conclude bytes copied bridge ≡ ok n
    → (copied ≡ ok tt) × (bridge ≡ ok tt) × (n ≡ bytes)
unfolding conclude
conclude-ok bytes n (ok done) (ok closed) h = (refl, refl, sym (ok-injective h))
conclude-ok bytes n (err e) (ok closed) h = ground arith
conclude-ok bytes n (ok done) (err b) h = ground arith
conclude-ok bytes n (err e) (err b) h = ground arith

and_also-ok :
    (first second : Result (List Text) (Unit {0}))
    → and_also first second ≡ ok tt
    → (first ≡ ok tt) × (second ≡ ok tt)
and_also-ok (err e) second h = ground arith
and_also-ok (ok done) second h = (refl, h)

-- The commands of a direct import: rows of at most 512 paths that are together the paths.
abbrev pub CopiedDirectly : ImportWorld → Text → Text → List StorePath → Type 0
CopiedDirectly world public_key url paths =
    (trust : SignedCacheImportTrust) × (parts : List (List StorePath)) × (signed_cache_import_trust
        world.run public_key
      ≡ ok trust)
    × ((copy_from_signed_binary_cache world.run world.show url public_key trust paths).0
        ≡ commands_of (copy_from_front url (trim public_key) trust) parts)
    × (concat parts ≡ paths)
    × All (λ part. length part ≤ 512) parts

-- An import that the helper has done.
abbrev pub CopiedByHelper : ImportWorld → Text → Text → List StorePath → Type 0
CopiedByHelper world public_key url paths =
    (world.socket_file ≡ socket)
    × (import_paths world.connected world.sent world.response (helper_request public_key url paths)
        ≡ ok tt)

copy_result-ok :
    (world : ImportWorld) (public_key url : Text) (paths : List StorePath)
    (method : OutputImportMethod)
    → output_import_method world public_key ≡ ok method
    → copy_result world public_key url paths method ≡ ok tt
    → CopiedDirectly world public_key url paths ⊎ CopiedByHelper world public_key url paths
copy_result-ok world public_key url paths (direct trust) chosen h =
    let issued = copy_from_signed_binary_cache world.run world.show url public_key trust paths in
    let fine = map_err-eq-ok nix_failed issued.1 tt h in
    let (parts, commands, whole, small) =
      copy_from-commands_of world.run world.show url public_key trust paths issued.0
        (ap (λ r. (issued.0, r)) fine) in
    inl (
      trust,
      parts,
      ((output_import_method_iff world public_key).0 trust).0 chosen,
      commands,
      whole,
      small,
    )
copy_result-ok world public_key url paths helper chosen h = inr (
  ((output_import_method_iff world public_key).1.0 chosen).1,
  map_err-eq-ok helper_refused _ tt h,
)

-- What the local server has for the import: every path of the closure, from the builder.
abbrev pub ServedTo : ImportWorld → List StorePath → List StorePath → Mirrored → Type 0
ServedTo world closure_paths copy_paths m =
    (copy_narinfos : List Text) × (copy_narinfos_of copy_paths ≡ ok copy_narinfos)
    × All (OfTask (PassesTask world.mirror world.dir m.files) copy_narinfos) closure_paths

-- An import of outputs that succeeds has mirrored the closure, so that the local server passes on what
-- the builder sends, and has copied the valid paths that were asked for from that server: directly,
-- where Nix trusts the key, by commands for rows of at most 512 paths, or through the helper, at its
-- socket; the server and the directory of the mirror are closed without an error.
pub import_outputs_from_cache-imported :
    (world : ImportWorld) (cache_paths : List Text) (public_key : Text) (output_closure : List Text)
    (nar_fetches : Option ℕ) (n : ℕ)
    → import_outputs_from_cache world cache_paths public_key output_closure nar_fetches ≡ ok n
    → (copy_paths : List StorePath) × (closure_paths : List StorePath) × (m : Mirrored)
      × (url : Text) × (try_map new cache_paths ≡ ok copy_paths)
      × (try_map new output_closure ≡ ok closure_paths)
      × ServedTo world closure_paths copy_paths m
      × (world.local_url ≡ some url)
      × (CopiedDirectly world public_key url copy_paths
          ⊎ CopiedByHelper world public_key url copy_paths)
      × (world.shutdown ≡ ok tt)
      × (world.cleanup ≡ ok tt)
      × (n ≡ world.bytes)
unfolding import_outputs_from_cache
import_outputs_from_cache-imported world cache_paths public_key output_closure nar_fetches n h =
    let (copy_paths, e, h1) = >>=-eq-ok (store_paths cache_paths) _ h in
    let (closure_paths, e1, h2) = >>=-eq-ok (store_paths output_closure) _ h1 in
    let (method, e2, h3) = >>=-eq-ok (output_import_method world public_key) _ h2 in
    let (fetches, e3, h4) =
      >>=-eq-ok
        (map_err bad_fetches
          (parallel_nar_fetches nar_fetches world.fetches_variable world.parallelism))
        _ h3 in
    let progress = new_progress (length closure_paths) (length copy_paths) fetches in
    let (m, e4, h5) =
      >>=-eq-ok
        (mirror_of (build world.mirror world.dir world.pick closure_paths copy_paths progress)) _
        h4 in
    let (url, e5, h6) = >>=-eq-ok (started world.local_url) _ h5 in
    let (copied, bridge, count) = conclude-ok world.bytes n _ _ h6 in
    let (closed, cleaned) = and_also-ok world.shutdown world.cleanup bridge in
    (
      copy_paths,
      closure_paths,
      m,
      url,
      map_err-eq-ok bad_path _ copy_paths e,
      map_err-eq-ok bad_path _ closure_paths e1,
      build-PassesTask world.mirror world.dir world.pick closure_paths copy_paths progress m
          (mirror_of-ok _ m e4),
      started-ok world.local_url url e5,
      copy_result-ok world public_key url copy_paths method e2 copied,
      closed,
      cleaned,
      count,
    )
  where
    started-ok : (o : Option Text) (u : Text) → started o ≡ ok u → o ≡ some u
    started-ok none u same = cc
    started-ok (some v) u same = ap some (ok-injective same)
