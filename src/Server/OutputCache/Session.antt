-- ===== src/Server/OutputCache/Session.antt =====
-- crates/drv-thru/src/server/output_cache.rs: the requests of a session, one after another. Each
-- finds a disk of its own, since other tasks and failed fills change it.
use drv_thru.Base.{
  ◌≡◌, ◌⊎◌, inl, inr, refl, sym, ap, subst, ◌∙◌, ℕ, Bool, true, false, not, List, [], ◌∷◌, ◌++◌,
  Option, some, Result, ok, err, context, map_err, arith, Result-cases, >>=-eq-ok,
}
use drv_thru.Text.{Text, text_eq, starts_with, ends_with}
use drv_thru.TextMap.{member}
use drv_thru.Nix.StorePath.{StorePath, hash}
use drv_thru.Cache.{
  nix_cache_info, narinfo_suffix, nar_prefix, sanitize_cache_path, cache_file_path,
}
use drv_thru.Protocol.{CacheFileRequest}
use drv_thru.Server.OutputCache.{
  Disk, OutputError, bad_cache_path, OutputCache, output_cache_allowed_paths,
  map_narinfo_to_allowed_store_path, Outside, read_failed,
}
use drv_thru.Server.OutputCache.Handler.{
  Serving, Reply, sends, stream_cache_file, serve_info, serve_nar, serve_path, handle_cache_file,
}
use drv_thru.Server.OutputCache.Served.{
  In, description, metadata, contents, if_cases, mapped, handle_cache_file-MayGet,
}
use drv_thru.Server.OutputCache.Allowed.{NamedBy, Grows, unchanged, serve_narinfo-Grows}

serve_info-Grows :
    (ensure_info : Disk → Option Disk) (cache : OutputCache) (closure : List StorePath)
    (s after : Serving) (asked : Text) (send_body : Bool) (reply : Reply) (q : Text)
    → serve_info ensure_info cache s asked send_body ≡ ok (after, reply)
    → Grows cache closure s after q
serve_info-Grows ensure_info cache closure s after asked send_body reply q h =
    let (disk, a, h1) = >>=-eq-ok (context (ensure_info s.disk) read_failed) _ h in
    let (file_path, b, h2) =
      >>=-eq-ok (map_err bad_cache_path (cache_file_path cache.dir nix_cache_info)) _ h1 in
    let (r, c, h3) = >>=-eq-ok (stream_cache_file asked (disk file_path) send_body) _ h2 in
    let is_after : record s { disk = disk } ≡ after = ground arith in
    unchanged cache closure s after q (sym (ap (λ t. t.paths_by_hash) is_after))
      (sym (ap (λ t. t.allowed_nar_paths) is_after))

serve_nar-Grows :
    (cache : OutputCache) (closure : List StorePath) (s after : Serving) (asked : Text)
    (send_body : Bool) (reply : Reply) (q : Text)
    → serve_nar cache s asked send_body ≡ ok (after, reply)
    → Grows cache closure s after q
serve_nar-Grows cache closure s after asked send_body reply q h =
    elim (if_cases (not (member asked s.allowed_nar_paths)) _ _ _ h) [
      | inl (k, e) ↦
          let is_after : s ≡ after = ground arith in
          unchanged cache closure s after q (sym (ap (λ t. t.paths_by_hash) is_after))
            (sym (ap (λ t. t.allowed_nar_paths) is_after))
      | inr (k, e) ↦
          let (file_path, b, h2) =
            >>=-eq-ok (map_err bad_cache_path (cache_file_path cache.dir asked)) _ e in
          let (r, c, h3) = >>=-eq-ok (stream_cache_file asked (s.disk file_path) send_body) _ h2 in
          let is_after : s ≡ after = ground arith in
          unchanged cache closure s after q (sym (ap (λ t. t.paths_by_hash) is_after))
            (sym (ap (λ t. t.allowed_nar_paths) is_after))
    ]

serve_path-Grows :
    (ensure_info : Disk → Option Disk) (outside : Outside) (cache : OutputCache)
    (closure : List StorePath) (s after : Serving) (asked : Text) (send_body : Bool) (reply : Reply)
    (q : Text)
    → s.paths_by_hash ≡ output_cache_allowed_paths closure
    → serve_path ensure_info outside cache s asked send_body ≡ ok (after, reply)
    → Grows cache closure s after q
serve_path-Grows ensure_info outside cache closure s after asked send_body reply q c h =
    elim (if_cases (text_eq asked nix_cache_info) _ _ _ h) [
      | inl (k, e) ↦ serve_info-Grows ensure_info cache closure s after asked send_body reply q e
      | inr (k, e) ↦ elim (if_cases (ends_with narinfo_suffix asked) _ _ _ e) [
        | inl (m, f) ↦
            let (found, a, f1) =
              >>=-eq-ok (map_narinfo_to_allowed_store_path asked s.paths_by_hash) _ f in
            serve_narinfo-Grows outside cache closure s after asked send_body found reply q
              (λ p is_p. mapped closure asked p (
                subst (λ b. map_narinfo_to_allowed_store_path asked b ≡ ok (some p)) c
                  (a ∙ ap ok is_p)))
              f1
        | inr (m, f) ↦ elim (if_cases (starts_with nar_prefix asked) _ _ _ f) [
          | inl (o, g) ↦ serve_nar-Grows cache closure s after asked send_body reply q g
          | inr (o, g) ↦ absurd (ground arith)
        ]
      ]
    ]

handle_cache_file-Grows :
    (ensure_info : Disk → Option Disk) (outside : Outside) (cache : OutputCache)
    (closure : List StorePath) (s after : Serving) (request : CacheFileRequest) (reply : Reply)
    (q : Text)
    → s.paths_by_hash ≡ output_cache_allowed_paths closure
    → handle_cache_file ensure_info outside cache s request ≡ ok (after, reply)
    → Grows cache closure s after q
unfolding handle_cache_file
handle_cache_file-Grows ensure_info outside cache closure s after request reply q c h =
    let (asked, a, h1) =
      >>=-eq-ok (map_err bad_cache_path (sanitize_cache_path request.path)) _ h in
    serve_path-Grows ensure_info outside cache closure s after asked request.send_body reply q c h1

-- One request of a session, and the disk that it finds.
pub record Step : Type 0 where
  pub found_disk : Disk
  pub ensure_info : Disk → Option Disk
  pub outside : Outside
  pub request : CacheFileRequest

-- The access that a step leaves; one that fails leaves it as it was.
abbrev pub left : Serving → Result OutputError (Serving × Reply) → Serving
left s (ok (after, reply)) = after
left s (err e) = s

abbrev pub attempt : OutputCache → Step → Serving → Result OutputError (Serving × Reply)
attempt cache step s =
    handle_cache_file step.ensure_info step.outside cache (record s { disk = step.found_disk })
      step.request

unfoldable pub run : OutputCache → List Step → Serving → Serving
unfolding handle_cache_file
run cache [] s = s
run cache (step ∷ steps) s = run cache steps (left s (attempt cache step s))

-- One of the narinfo files that the steps left on their disks names the NAR file.
unfoldable pub Named : OutputCache → List StorePath → List Step → Serving → Text → Type 0
unfolding handle_cache_file
Named cache closure [] s q = ⊥
Named cache closure (step ∷ steps) s q =
    NamedBy cache closure (left s (attempt cache step s)).disk q
    ⊎ Named cache closure steps (left s (attempt cache step s)) q

-- A step, whether it fails or not.
step-Grows :
    (cache : OutputCache) (closure : List StorePath) (s : Serving) (step : Step) (q : Text)
    → s.paths_by_hash ≡ output_cache_allowed_paths closure
    → Grows cache closure s (left s (attempt cache step s)) q
step-Grows cache closure s step q c = elim (Result-cases (attempt cache step s)) [
  | inl ((after, reply), h) ↦
      subst (λ m. Grows cache closure s (left s m) q) (sym h)
        (handle_cache_file-Grows step.ensure_info step.outside cache closure
          (record s { disk = step.found_disk }) after step.request reply q c h)
  | inr (e, h) ↦
      subst (λ m. Grows cache closure s (left s m) q) (sym h)
        (unchanged cache closure s s q refl refl)
]

run-Named :
    (cache : OutputCache) (closure : List StorePath) (steps : List Step) (s : Serving) (q : Text)
    → s.paths_by_hash ≡ output_cache_allowed_paths closure
    → member q (run cache steps s).allowed_nar_paths ≡ true
    → (member q s.allowed_nar_paths ≡ true) ⊎ Named cache closure steps s q
unfolding run Named
run-Named cache closure [] s q c h = inl h
run-Named cache closure (step ∷ steps) s q c h =
    let (same, grows) = step-Grows cache closure s step q c in
    elim (run-Named cache closure steps (left s (attempt cache step s)) q (same ∙ c) h) [
      | inr later ↦ inr (inr later)
      | inl now ↦ elim grows [
        | inl none_ ↦ absurd (ground arith)
        | inr (inl before) ↦ inl before
        | inr (inr named) ↦ inr (inl named)
      ]
    ]

run-paths :
    (cache : OutputCache) (closure : List StorePath) (steps : List Step) (s : Serving)
    → s.paths_by_hash ≡ output_cache_allowed_paths closure
    → (run cache steps s).paths_by_hash ≡ output_cache_allowed_paths closure
unfolding run
run-paths cache closure [] s c = c
run-paths cache closure (step ∷ steps) s c =
    run-paths cache closure steps (left s (attempt cache step s))
      ((step-Grows cache closure s step [] c).0 ∙ c)

-- `OutputCacheAccess::new`.
abbrev pub opened : Disk → List StorePath → Serving
opened disk closure = record {
  disk = disk;
  paths_by_hash = output_cache_allowed_paths closure;
  allowed_nar_paths = [];
}

nothing_allowed : (q : Text) → member q [] ≡ false
unfolding member
nothing_allowed q = refl

-- The narinfo file of a path of the closure.
abbrev pub Metadata : List StorePath → Text → Type 0
Metadata closure path =
    (p : StorePath) × (h : Text) × In p closure × (hash p ≡ some h) × (path ≡ h ++ narinfo_suffix)

-- In a session for a closure, after any requests and whatever happens to the disk: a file that is
-- sent is `nix-cache-info`, the narinfo file of a path of the closure, or a NAR file that such a
-- narinfo file named on the disk that an earlier request left.
pub session-served :
    (cache : OutputCache) (closure : List StorePath) (disk : Disk) (steps : List Step) (step : Step)
    (after : Serving) (path : Text) (n : ℕ) (body : Option (Option Text))
    → attempt cache step (run cache steps (opened disk closure)) ≡ ok (after, sends path n body)
    → (path ≡ nix_cache_info)
      ⊎ (Metadata closure path
          ⊎ ((starts_with nar_prefix path ≡ true)
              × Named cache closure steps (opened disk closure) path))
session-served cache closure disk steps step after path n body h =
    let s = run cache steps (opened disk closure) in
    let c = run-paths cache closure steps (opened disk closure) refl in
    let (same, may) =
      handle_cache_file-MayGet step.ensure_info step.outside cache closure
        (record s { disk = step.found_disk }) after step.request path n body c h in
    elim may [
      | description e ↦ inl e
      | metadata p g i k e ↦ inr (inl (p, g, i, k, e))
      | contents o m ↦ inr (
          inr (
            o,
            elim (run-Named cache closure steps (opened disk closure) path refl m) [
              | inl z ↦ absurd (ground (arith, nothing_allowed path))
              | inr named ↦ named
            ],
          ))
    ]
