-- ===== src/Server/OutputCache/Kept.antt =====
-- crates/drv-thru/src/server/output_cache.rs: a NAR file that is allowed stays so over the requests
-- of a session.
use drv_thru.Base.{
  ◌≡◌, ap, subst, ◌∙◌, ok-injective, Bool, true, not, List, [], ◌∷◌, Option, none, some, ok,
  context, map_err, arith, if◌then◌else◌, Bool-cases, inl, inr, >>=-eq-ok, Result-cases,
}
use drv_thru.Text.{Text, text_eq, starts_with, ends_with}
use drv_thru.TextMap.{member}
use drv_thru.Nix.StorePath.{StorePath}
use drv_thru.Cache.{
  nix_cache_info, narinfo_suffix, nar_prefix, sanitize_cache_path, cache_file_path,
}
use drv_thru.Server.OutputCache.{
  Disk, bad_cache_path, read_failed, OutputCache, map_narinfo_to_allowed_store_path, Outside,
}
use drv_thru.Server.OutputCache.Handler.{
  Serving, Reply, allow, stream_cache_file, serve_info, serve_narinfo, serve_nar, serve_path,
  handle_cache_file,
}
use drv_thru.Server.OutputCache.Served.{if_cases}
use drv_thru.Server.OutputCache.Session.{Step, left, attempt, run}
use drv_thru.Server.OutputCache.Answers.{serve_narinfo-ok}

-- The NAR file is still allowed.
abbrev pub Keeps : Text → Serving → Serving → Type 0
Keeps q s after = member q s.allowed_nar_paths ≡ true → member q after.allowed_nar_paths ≡ true

member-allow :
    (named : Option Text) (allowed : List Text) (q : Text)
    → member q allowed ≡ true
    → member q (allow named allowed) ≡ true
unfolding member
member-allow none allowed q h = h
member-allow (some nar_path) allowed q h = elim (Bool-cases (member nar_path allowed)) [
  | inl k ↦ ap (λ b. member q (if b then allowed else nar_path ∷ allowed)) k ∙ h
  | inr k ↦ ap (λ b. member q (if b then allowed else nar_path ∷ allowed)) k ∙ rw h (ground arith)
]

serve_info-Keeps :
    (ensure_info : Disk → Option Disk) (cache : OutputCache) (s after : Serving) (asked : Text)
    (send_body : Bool) (reply : Reply) (q : Text)
    → serve_info ensure_info cache s asked send_body ≡ ok (after, reply)
    → Keeps q s after
serve_info-Keeps ensure_info cache s after asked send_body reply q h m =
    let (disk, a, h1) = >>=-eq-ok (context (ensure_info s.disk) read_failed) _ h in
    let (file_path, b, h2) =
      >>=-eq-ok (map_err bad_cache_path (cache_file_path cache.dir nix_cache_info)) _ h1 in
    let (r, c, h3) = >>=-eq-ok (stream_cache_file asked (disk file_path) send_body) _ h2 in
    let is_after : record s { disk = disk } ≡ after = ground arith in
    subst (λ t. member q t.allowed_nar_paths ≡ true) is_after m

serve_narinfo-Keeps :
    (outside : Outside) (cache : OutputCache) (s after : Serving) (asked : Text) (send_body : Bool)
    (found : Option StorePath) (reply : Reply) (q : Text)
    → serve_narinfo outside cache s asked send_body found ≡ ok (after, reply)
    → Keeps q s after
serve_narinfo-Keeps outside cache s after asked send_body none reply q h m =
    subst (λ t. member q t.allowed_nar_paths ≡ true) (ap (λ r. r.0) (ok-injective h)) m
serve_narinfo-Keeps outside cache s after asked send_body (some p) reply q h m =
    let (file, nar_path, named, grown, sent) =
      serve_narinfo-ok outside cache s after asked send_body p reply h in
    ap (member q) grown ∙ member-allow nar_path s.allowed_nar_paths q m

serve_nar-Keeps :
    (cache : OutputCache) (s after : Serving) (asked : Text) (send_body : Bool) (reply : Reply)
    (q : Text)
    → serve_nar cache s asked send_body ≡ ok (after, reply)
    → Keeps q s after
serve_nar-Keeps cache s after asked send_body reply q h m =
    elim (if_cases (not (member asked s.allowed_nar_paths)) _ _ _ h) [
      | inl (k, e) ↦
          subst (λ t. member q t.allowed_nar_paths ≡ true) (ap (λ r. r.0) (ok-injective e)) m
      | inr (k, e) ↦
          let (file_path, b, h2) =
            >>=-eq-ok (map_err bad_cache_path (cache_file_path cache.dir asked)) _ e in
          let (r, c, h3) = >>=-eq-ok (stream_cache_file asked (s.disk file_path) send_body) _ h2 in
          subst (λ t. member q t.allowed_nar_paths ≡ true) (ap (λ r. r.0) (ok-injective h3)) m
    ]

serve_path-Keeps :
    (ensure_info : Disk → Option Disk) (outside : Outside) (cache : OutputCache) (s after : Serving)
    (asked : Text) (send_body : Bool) (reply : Reply) (q : Text)
    → serve_path ensure_info outside cache s asked send_body ≡ ok (after, reply)
    → Keeps q s after
serve_path-Keeps ensure_info outside cache s after asked send_body reply q h =
    elim (if_cases (text_eq asked nix_cache_info) _ _ _ h) [
      | inl (k, e) ↦ serve_info-Keeps ensure_info cache s after asked send_body reply q e
      | inr (k, e) ↦ elim (if_cases (ends_with narinfo_suffix asked) _ _ _ e) [
        | inl (o, f) ↦
            let (found, a, f1) =
              >>=-eq-ok (map_narinfo_to_allowed_store_path asked s.paths_by_hash) _ f in
            serve_narinfo-Keeps outside cache s after asked send_body found reply q f1
        | inr (o, f) ↦ elim (if_cases (starts_with nar_prefix asked) _ _ _ f) [
          | inl (p, g) ↦ serve_nar-Keeps cache s after asked send_body reply q g
          | inr (p, g) ↦ absurd (ground arith)
        ]
      ]
    ]

step-Keeps :
    (cache : OutputCache) (step : Step) (s : Serving) (q : Text)
    → Keeps q s (left s (attempt cache step s))
unfolding handle_cache_file
step-Keeps cache step s q m = elim (Result-cases (attempt cache step s)) [
  | inl ((after, reply), h) ↦
      let (asked, a, h1) =
        >>=-eq-ok (map_err bad_cache_path (sanitize_cache_path step.request.path)) _ h in
      ap (λ r. member q (left s r).allowed_nar_paths) h
      ∙ serve_path-Keeps step.ensure_info step.outside cache (record s { disk = step.found_disk })
          after asked step.request.send_body reply q h1 m
  | inr (e, h) ↦ ap (λ r. member q (left s r).allowed_nar_paths) h ∙ m
]

pub run-Keeps :
    (cache : OutputCache) (steps : List Step) (s : Serving) (q : Text)
    → Keeps q s (run cache steps s)
unfolding run
run-Keeps cache [] s q m = m
run-Keeps cache (step ∷ steps) s q m =
    run-Keeps cache steps (left s (attempt cache step s)) q (step-Keeps cache step s q m)
