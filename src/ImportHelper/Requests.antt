-- ===== src/ImportHelper/Requests.antt =====
-- crates/drv-thru/src/import_helper.rs: which imports the helper runs.
use drv_thru.Base.{
  ◌≤◌, ◌≡◌, ◌≢◌, ◌↔◌, refl, sym, ap, ◌∙◌, subst, true, false, not, List, [], ◌∷◌, some, ok, bail_if,
  arith, All, length, Result-cases, >>=-eq-ok, >>-eq-ok, bail_if-eq-ok, ok-injective, try_map, ltb,
  inl, inr, not-eq-false, ltb-eq-false,
}
use drv_thru.Text.{Text, lines}
use drv_thru.TextMap.{member}
use drv_thru.Nix.StorePath.{texts}
use drv_thru.Nix.StorePath.Laws.{IsStorePath}
use drv_thru.Nix.StorePath.Lists.{try_map-texts, texts-try_map}
use drv_thru.ImportHelper.{
  ImportRequest, ValidatedImportRequest, ImportError, no_paths, too_many_paths, untrusted_key,
  bad_path, max_import_paths, no_path, import_path, validate_loopback_http_url,
  validate_nix_public_key, validate_request_shape, validate_trusted_request, Import,
  handle_connection, load_trusted_public_keys,
}
use drv_thru.ImportHelper.Urls.{LoopbackOrigin, validate_loopback_iff}
use drv_thru.ImportHelper.Keys.{
  IsPublicKey, validate_nix_public_key_iff, ListedIn, Clean, load_lines-ListedIn, load_lines-Clean,
}

-- A request that the helper runs, as it runs it.
abbrev pub Importable : List Text → ImportRequest → ValidatedImportRequest → Type 0
Importable trusted request v =
    (v.builder_public_key ≡ request.builder_public_key)
    × (v.cache_url ≡ request.cache_url)
    × (texts v.paths ≡ request.paths)
    × LoopbackOrigin request.cache_url
    × IsPublicKey request.builder_public_key
    × (member request.builder_public_key trusted ≡ true)
    × (request.paths ≢ [])
    × (length request.paths ≤ 8192)
    × All IsStorePath request.paths

no_path-ne : (paths : List Text) → no_path paths ≡ false → paths ≢ []
no_path-ne [] h e = ground arith
no_path-ne (p ∷ paths) h e = ground arith

ne-no_path : (paths : List Text) → paths ≢ [] → no_path paths ≡ false
ne-no_path [] h = absurd (h refl)
ne-no_path (p ∷ paths) h = refl

validate-Importable :
    (request : ImportRequest) (trusted : List Text) (v : ValidatedImportRequest)
    → validate_trusted_request request trusted ≡ ok v
    → Importable trusted request v
unfolding validate_trusted_request validate_request_shape
validate-Importable request trusted v h =
    let (w, shape, h1) = >>=-eq-ok (validate_request_shape request) _ h in
    let (listed, h2) =
      >>-eq-ok (bail_if (not (member w.builder_public_key trusted)) untrusted_key) _ h1 in
    let (url, s1) = >>-eq-ok (validate_loopback_http_url request.cache_url) _ shape in
    let (key, s2) = >>-eq-ok (validate_nix_public_key request.builder_public_key) _ s1 in
    let (some_path, s3) = >>-eq-ok (bail_if (no_path request.paths) no_paths) _ s2 in
    let (few, s4) =
      >>-eq-ok (bail_if (ltb max_import_paths (length request.paths)) too_many_paths) _ s3 in
    let (paths, made, s5) = >>=-eq-ok (try_map import_path request.paths) _ s4 in
    let (same, are_paths) = try_map-texts bad_path request.paths paths made in
    let is_w = ok-injective s5 in
    let trusted_key =
      bail_if-eq-ok (not (member w.builder_public_key trusted)) untrusted_key listed in
    subst (Importable trusted request) (is_w ∙ ok-injective h2) (
      refl,
      refl,
      same,
      (validate_loopback_iff request.cache_url).0 url,
      (validate_nix_public_key_iff request.builder_public_key).0 key,
      subst (λ k. member k trusted ≡ true) (sym (ap (λ r. r.builder_public_key) is_w))
          (not-eq-false (member w.builder_public_key trusted) trusted_key),
      no_path-ne request.paths (bail_if-eq-ok (no_path request.paths) no_paths some_path),
      ltb-eq-false max_import_paths (length request.paths)
          (bail_if-eq-ok (ltb max_import_paths (length request.paths)) too_many_paths few),
      are_paths,
    )

Importable-validate :
    (request : ImportRequest) (trusted : List Text) (v : ValidatedImportRequest)
    → Importable trusted request v
    → validate_trusted_request request trusted ≡ ok v
unfolding validate_trusted_request validate_request_shape
Importable-validate request trusted v
      (is_key, is_url, are_paths, origin, key, listed, full, few, valid) =
    let made : try_map import_path request.paths ≡ ok v.paths =
      subst (λ ts. try_map import_path ts ≡ ok v.paths) are_paths
        (texts-try_map bad_path v.paths (subst (All IsStorePath) (sym are_paths) valid)) in
    let small : ltb max_import_paths (length request.paths) ≡ false = ground arith in
    rw
      (
        (validate_loopback_iff request.cache_url).1 origin,
        (validate_nix_public_key_iff request.builder_public_key).1 key,
        ne-no_path request.paths full,
        small,
        made,
        listed,
        ← is_key,
        ← is_url,
      )
      refl

-- The helper runs an import exactly for a request on an HTTP origin of this machine, with a well
-- formed key that it trusts, and with 1 to 8192 store paths, and then for its URL, key and paths as
-- they are in the request.
pub handle_connection_iff :
    (show : ImportError → Text) (import : Import) (trusted : List Text) (request : ImportRequest)
    (v : ValidatedImportRequest)
    → ((handle_connection show import trusted (some request)).0 ≡ some v)
      ↔ Importable trusted request v
unfolding handle_connection
handle_connection_iff show import trusted request v =
    elim (Result-cases (validate_trusted_request request trusted)) [
      | inl (w, e) ↦ rw e (
        λ h. validate-Importable request trusted v (e ∙ ap ok (ground arith)),
        λ h. ap some (ok-injective (sym e ∙ Importable-validate request trusted v h)),
      )
      | inr (x, e) ↦ rw e (
        λ h. absurd (ground arith),
        λ h. absurd (ground (arith, sym e ∙ Importable-validate request trusted v h)),
      )
    ]

-- A file of trusted keys is loaded only if each of its lines is, without the blanks around it,
-- empty, a comment or a key, and then a key is trusted exactly if it is one of those lines.
pub load_trusted_public_keys_lem :
    (text : Text) (keys : List Text) (key : Text)
    → load_trusted_public_keys (some text) ≡ ok keys
    → Clean (lines text) × ((member key keys ≡ true) ↔ ListedIn (lines text) key)
unfolding load_trusted_public_keys member
load_trusted_public_keys_lem text keys key h =
    let (there, back) = load_lines-ListedIn 0 [] (lines text) keys key h in
    (load_lines-Clean 0 [] (lines text) keys h, (λ m. ground (arith, there m), λ l. back (inr l)))
