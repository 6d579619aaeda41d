-- ===== src/Client/Build/Imported.antt =====
-- crates/drv-thru/src/client/session.rs and client_cache/mod.rs: a session that imports over the cache
-- of the client.
use drv_thru.Base.{
  ℕ, ◌≡◌, ◌⊎◌, refl, sym, ap, subst, [], ◌∷◌, ◌∙◌, Bool, true, false, not, List, Option, Result, ok,
  err, bail_if, map_err, >>=-eq-ok, >>-eq-ok, ok-injective, arith, inl, inr, length, if◌then◌else◌,
}
use mathlib.Core.Path.{ap₂}
use drv_thru.Text.{Text}
use drv_thru.Protocol.{Message, BuildFinished, output_cache_ready, done}
use drv_thru.Protocol.PathChunks.{Incoming}
use drv_thru.Client.{
  ClientWorld, write_failed, RemoteBuildResult, read_next, read_server_done, close_import,
  import_from, import_output_cache, upload_if_missing, failed_result, fetch_outputs, is_done,
  read_queued_missing_paths, upload_missing_paths, read_build_messages, wait_for_output_closure,
  locally_missing_paths, run_remote_build,
}
use drv_thru.ClientCache.Import.{ImportWorld, OutputImportError, import_outputs_from_cache}

-- The client whose outputs come over its cache, for the key of a builder.
abbrev pub with_cache :
    ClientWorld → ImportWorld → (OutputImportError → Text) → Text → Option ℕ → ClientWorld
with_cache client cache show key nar_fetches = record client {
  import_outputs = λ closure copy_paths.
      map_err show (import_outputs_from_cache cache copy_paths key closure nar_fetches);
}

module _ (client : ClientWorld) (cache : ImportWorld) (show : OutputImportError → Text) (key : Text)
    (nar_fetches : Option ℕ) where
  -- The server's answer to the request for outputs is that nothing is to be copied; or it names the
  -- paths to copy, these are imported with the closure, and the server says that it is done.
  abbrev pub Imported : List Text → List Incoming → ℕ → Type 0
  Imported closure answers n =
      ((last : List Incoming) × (answers ≡ ok done ∷ last) × (n ≡ 0))
      ⊎ ((copy_paths : List Text) × (last : List Incoming) × (answers
            ≡ ok (output_cache_ready copy_paths) ∷ ok done ∷ last)
          × (import_outputs_from_cache cache copy_paths key closure nar_fetches ≡ ok n))

  -- A session that has imported: what it has read, part by part, from the list of missing paths to
  -- the closure of the outputs.
  pub record ImportedFrom (recv : List Incoming) (r : RemoteBuildResult) : Type 0 where
    pub missing : List Text
    pub queued : List Incoming
    pub uploaded : List Incoming
    pub finished : BuildFinished
    pub closing : List Incoming
    pub closure : List Text
    pub answers : List Incoming
    pub reads_missing : read_queued_missing_paths recv ≡ ok (missing, queued)
    pub uploads : upload_if_missing client missing queued ≡ ok uploaded
    pub reads_build : read_build_messages uploaded ≡ ok (finished, closing)
    pub succeeds : finished.success ≡ true
    pub reads_closure : wait_for_output_closure closing ≡ ok (closure, answers)
    pub imports : Imported closure answers r.received_bytes
    pub counts : r.missing_path_count ≡ length missing
    pub outputs : r.output_paths ≡ finished.output_paths

  abbrev world : ClientWorld
  world = with_cache client cache show key nar_fetches

  is_done-eq : (message : Message) → is_done message ≡ ok tt → message ≡ done
  is_done-eq done h = refl
  is_done-eq message h = absurd (ground arith)

  read_next-eq :
      (recv : List Incoming) (message : Message) (rest : List Incoming)
      → read_next recv ≡ ok (message, rest)
      → recv ≡ ok message ∷ rest
  read_next-eq [] message rest h = cc
  read_next-eq (err e ∷ recv) message rest h = cc
  read_next-eq (ok m ∷ recv) message rest h =
      let e = ok-injective h in ap₂ (λ m rest. ok m ∷ rest) (ap (λ x. x.0) e) (ap (λ x. x.1) e)

  -- The server's last word.
  read_server_done-eq :
      (recv : List Incoming)
      → read_server_done recv ≡ ok tt
      → (last : List Incoming) × (recv ≡ ok done ∷ last)
  unfolding read_server_done
  read_server_done-eq recv h =
      let ((message, last), e, h1) = >>=-eq-ok (read_next recv) _ h in
      (last, read_next-eq recv message last e ∙ ap (λ m. ok m ∷ last) (is_done-eq message h1))

  close_import-Imported :
      (closure copy_paths : List Text) (answers recv : List Incoming)
      (r : Result OutputImportError ℕ) (n : ℕ)
      → answers ≡ ok (output_cache_ready copy_paths) ∷ recv
      → import_outputs_from_cache cache copy_paths key closure nar_fetches ≡ r
      → close_import client.done_ok recv (map_err show r) ≡ ok n
      → Imported closure answers n
  close_import-Imported closure copy_paths answers recv (err e) n came same h = ground arith
  close_import-Imported closure copy_paths answers recv (ok bytes) n came same h =
      let (passed, h1) = >>-eq-ok (bail_if (not client.done_ok) write_failed) _ h in
      let (finished, h2) = >>-eq-ok (read_server_done recv) (ok bytes) h1 in
      let (last, is_last) = read_server_done-eq recv finished in
      inr (
        copy_paths,
        last,
        came ∙ ap (λ rest. ok (output_cache_ready copy_paths) ∷ rest) is_last,
        same ∙ ap ok (ok-injective h2),
      )

  import_from-Imported :
      (closure : List Text) (message : Message) (answers recv : List Incoming) (n : ℕ)
      → answers ≡ ok message ∷ recv
      → import_from world closure message recv ≡ ok n
      → Imported closure answers n
  import_from-Imported closure (output_cache_ready copy_paths) answers recv n came h =
      close_import-Imported closure copy_paths answers recv _ n came refl h
  import_from-Imported closure done answers recv n came h = inl (recv, came, sym (ok-injective h))
  import_from-Imported closure message answers recv n came h = ground arith

  -- What the part of the session behind a build that succeeded gives.
  abbrev Fetched : ℕ → BuildFinished → List Incoming → RemoteBuildResult → Type 0
  Fetched count finished closing r =
      (closure : List Text) × (answers : List Incoming) × (wait_for_output_closure closing
        ≡ ok (closure, answers))
      × Imported closure answers r.received_bytes
      × (r.missing_path_count ≡ count)
      × (r.output_paths ≡ finished.output_paths)

  fetch_outputs-Fetched :
      (count : ℕ) (finished : BuildFinished) (closing : List Incoming) (r : RemoteBuildResult)
      → fetch_outputs world count finished closing ≡ ok r
      → Fetched count finished closing r
  unfolding import_output_cache
  fetch_outputs-Fetched count finished closing r h =
      let ((closure, answers), e, h1) = >>=-eq-ok (wait_for_output_closure closing) _ h in
      let (missing, e1, h2) = >>=-eq-ok (locally_missing_paths world closure) _ h1 in
      let (passed, h3) = >>-eq-ok (bail_if (not world.request_ok) write_failed) _ h2 in
      let (bytes, e2, h4) = >>=-eq-ok (import_output_cache world closure answers) _ h3 in
      let ((message, last), e3, h5) = >>=-eq-ok (read_next answers) _ e2 in
      subst (Fetched count finished closing) (ok-injective h4) (
        closure,
        answers,
        e,
        import_from-Imported closure message answers last bytes
            (read_next-eq answers message last e3) h5,
        refl,
        refl,
      )

  same_upload :
      (missing : List Text) (queued : List Incoming)
      → upload_if_missing client missing queued ≡ upload_if_missing world missing queued
  unfolding upload_missing_paths
  same_upload [] queued = refl
  same_upload (p ∷ missing) queued = refl

  -- A remote build that succeeds over the cache of the client has read a build that succeeded, and the
  -- closure that the server sent next; then the server had nothing to copy, or it named paths that were
  -- imported with this closure, and was done; as many bytes were received as the import gives.
  pub run_remote_build-Imported :
      (recv : List Incoming) (r : RemoteBuildResult)
      → run_remote_build world recv ≡ ok r
      → r.build_success ≡ true
      → ImportedFrom recv r
  unfolding run_remote_build
  run_remote_build-Imported recv r h success =
      let ((missing, queued), e, h1) = >>=-eq-ok (read_queued_missing_paths recv) _ h in
      let (rest, e1, h2) = >>=-eq-ok (upload_if_missing world missing queued) _ h1 in
      let ((finished, closing), e2, h3) = >>=-eq-ok (read_build_messages rest) _ h2 in
      let (succeeds, fetched) = ends (length missing) finished closing finished.success refl h3 in
      let (closure, answers, e3, imports, counts, outputs) = fetched in
      record {
        missing = missing;
        queued = queued;
        uploaded = rest;
        finished = finished;
        closing = closing;
        closure = closure;
        answers = answers;
        reads_missing = e;
        uploads = same_upload missing queued ∙ e1;
        reads_build = e2;
        succeeds = succeeds;
        reads_closure = e3;
        imports = imports;
        counts = counts;
        outputs = outputs;
      }
    where
      ends :
          (count : ℕ) (finished : BuildFinished) (closing : List Incoming) (b : Bool)
          → finished.success ≡ b
          → (if b
              then fetch_outputs world count finished closing
              else ok (failed_result count finished))
            ≡ ok r
          → (finished.success ≡ true) × Fetched count finished closing r
      ends count finished closing true is k = (is, fetch_outputs-Fetched count finished closing r k)
      ends count finished closing false is k =
          absurd (ground (arith, ap (λ x. x.build_success) (ok-injective k)))
