-- ===== src/Server/OutputCache/Served.antt =====
-- crates/drv-thru/src/server/output_cache.rs: which file a request gets.
use drv_thru.Base.{
  ◌≡◌, ◌⊎◌, inl, inr, refl, sym, ap, subst, ◌∙◌, ℕ, Bool, true, false, not, List, [], ◌∷◌, ◌++◌,
  Option, none, some, ok, ◌>>◌, bail_if, context, map_err, arith, if◌then◌else◌, Bool-cases,
  Option-cases, >>=-eq-ok, >>-eq-ok, ok-injective, context-eq-ok, map_err-eq-ok,
}
use drv_thru.Text.{Text, text_eq, starts_with, ends_with, strip_suffix, has_char}
use drv_thru.Text.Prefix.{text_eq_sound, strip_suffix-eq-append}
use drv_thru.TextMap.{lookup, lookup-insert, member}
use drv_thru.Nix.StorePath.{StorePath, hash}
use drv_thru.Cache.{
  nix_cache_info, narinfo_suffix, nar_prefix, sanitize_cache_path, cache_file_path,
  narinfo_nar_path,
}
use drv_thru.Cache.Laws.{sanitize_iff}
use drv_thru.Protocol.{CacheFileRequest}
use drv_thru.Server.OutputCache.{
  Entry, missing, unreadable, directory, regular, Disk, bad_cache_path, OutputCache,
  collect_by_hash, insert_hashed, output_cache_allowed_paths, map_narinfo_to_allowed_store_path,
  Outside, ensure_cache_entry, not_narinfo, invalid_narinfo, read_failed,
}
use drv_thru.Server.OutputCache.Handler.{
  Serving, sends, stream_cache_file, read_file, serve_info, serve_narinfo, serve_nar, serve_path,
  handle_cache_file,
}

abbrev pub In : StorePath → List StorePath → Type 0
In p [] = ⊥
In p (q ∷ paths) = (p ≡ q) ⊎ In p paths

chosen :
    (b : Bool) (q p : StorePath) (o : Option StorePath)
    → b ≡ true
    → (if b then some q else o) ≡ some p
    → p ≡ q
chosen b q p o h e = ground arith

pub if_cases {ℓ} :
    {A : Type ℓ} (b : Bool) (x y z : A)
    → (if b then x else y) ≡ z
    → ((b ≡ true) × (x ≡ z)) ⊎ ((b ≡ false) × (y ≡ z))
if_cases true x y z h = inl (refl, h)
if_cases false x y z h = inr (refl, h)

collected :
    (by_hash : List (Text × StorePath)) (paths : List StorePath) (h : Text) (p : StorePath)
    → lookup h (collect_by_hash by_hash paths) ≡ some p
    → (lookup h by_hash ≡ some p) ⊎ (In p paths × (hash p ≡ some h))
unfolding collect_by_hash
collected by_hash [] h p e = inl e
collected by_hash (q ∷ paths) h p e =
    elim (collected (insert_hashed (hash q) q by_hash) paths h p e) [
      | inr (i, k) ↦ inr (inr i, k)
      | inl f ↦ elim (Option-cases (hash q)) [
        | inl n ↦ inl (sym (ap (λ o. lookup h (insert_hashed o q by_hash)) n) ∙ f)
        | inr (g, n) ↦
            let at =
              sym (lookup-insert g h q by_hash)
              ∙ (sym (ap (λ o. lookup h (insert_hashed o q by_hash)) n) ∙ f) in
            elim (Bool-cases (text_eq g h)) [
              | inl s ↦
                  let is_q = chosen (text_eq g h) q p (lookup h by_hash) s at in
                  inr (inl is_q, ap hash is_q ∙ (n ∙ ap some (text_eq_sound g h s)))
              | inr s ↦ inl (ground arith)
            ]
      ]
    ]

lookup-none : (h : Text) (p : StorePath) → lookup {V = StorePath} h [] ≡ some p → ⊥
unfolding lookup
lookup-none h p e = ground arith

-- A narinfo path that is answered is the one of a path of the closure.
pub mapped :
    (paths : List StorePath) (path : Text) (p : StorePath)
    → map_narinfo_to_allowed_store_path path (output_cache_allowed_paths paths) ≡ ok (some p)
    → In p paths × ((h : Text) × (hash p ≡ some h) × (path ≡ h ++ narinfo_suffix))
unfolding map_narinfo_to_allowed_store_path output_cache_allowed_paths
mapped paths path p e =
    let (h, a, e1) =
      >>=-eq-ok (context (strip_suffix narinfo_suffix path) (not_narinfo path))
        (λ h.
          bail_if (has_char b'/' path) (invalid_narinfo path)
          >> ok (lookup h (collect_by_hash [] paths)))
        e in
    let found =
      ok-injective
        (>>-eq-ok (bail_if (has_char b'/' path) (invalid_narinfo path))
          (ok (lookup h (collect_by_hash [] paths))) e1).1 in
    elim (collected [] paths h p found) [
      | inl n ↦ absurd (lookup-none h p n)
      | inr (i, k) ↦ (
        i,
        (
          h,
          k,
          strip_suffix-eq-append narinfo_suffix path h
              (context-eq-ok (strip_suffix narinfo_suffix path) (not_narinfo path) h a),
        ),
      )
    ]

-- What a request may get: the description of the cache, the narinfo file of a path of the closure,
-- or a NAR file that is allowed by now.
pub data MayGet (closure : List StorePath) (allowed : List Text) (path : Text) : Type 0 where
  description : path ≡ nix_cache_info → MayGet closure allowed path
  metadata :
      (p : StorePath) (h : Text)
      → In p closure
      → hash p ≡ some h
      → path ≡ h ++ narinfo_suffix
      → MayGet closure allowed path
  contents :
      starts_with nar_prefix path ≡ true → member path allowed ≡ true → MayGet closure allowed path

serve_narinfo-path :
    (outside : Outside) (cache : OutputCache) (s after : Serving) (path asked : Text)
    (send_body : Bool) (found : Option StorePath) (n : ℕ) (body : Option (Option Text))
    → serve_narinfo outside cache s asked send_body found ≡ ok (after, sends path n body)
    → ((p : StorePath) × (found ≡ some p)) × (path ≡ asked)
serve_narinfo-path outside cache s after path asked send_body none n body h = absurd (ground arith)
serve_narinfo-path outside cache s after path asked send_body (some p) n body h =
    let (disk, a, h1) = >>=-eq-ok (ensure_cache_entry outside cache s.disk p) _ h in
    let (file_path, b, h2) =
      >>=-eq-ok (map_err bad_cache_path (cache_file_path cache.dir asked)) _ h1 in
    let (f, c, h3) = >>=-eq-ok (read_file (disk file_path)) _ h2 in
    let (nar_path, d, h4) = >>=-eq-ok (map_err bad_cache_path (narinfo_nar_path f.text)) _ h3 in
    ((p, refl), ground arith)

stream-path :
    (asked path : Text) (entry : Entry) (send_body : Bool) (n : ℕ) (body : Option (Option Text))
    → stream_cache_file asked entry send_body ≡ ok (sends path n body)
    → path ≡ asked
stream-path asked path missing send_body n body h = absurd (ground arith)
stream-path asked path unreadable send_body n body h = absurd (ground arith)
stream-path asked path (directory m) true n body h = absurd (ground arith)
stream-path asked path (directory m) false n body h = ground arith
stream-path asked path (regular f) send_body n body h = ground arith

serve_info-path :
    (ensure_info : Disk → Option Disk) (cache : OutputCache) (s after : Serving) (asked path : Text)
    (send_body : Bool) (n : ℕ) (body : Option (Option Text))
    → serve_info ensure_info cache s asked send_body ≡ ok (after, sends path n body)
    → path ≡ asked
serve_info-path ensure_info cache s after asked path send_body n body h =
    let (disk, a, h1) = >>=-eq-ok (context (ensure_info s.disk) read_failed) _ h in
    let (file_path, b, h2) =
      >>=-eq-ok (map_err bad_cache_path (cache_file_path cache.dir nix_cache_info)) _ h1 in
    let (reply, c, h3) = >>=-eq-ok (stream_cache_file asked (disk file_path) send_body) _ h2 in
    stream-path asked path (disk file_path) send_body n body (c ∙ ap ok (ground arith))

serve_nar-path :
    (cache : OutputCache) (s after : Serving) (asked path : Text) (send_body : Bool) (n : ℕ)
    (body : Option (Option Text))
    → serve_nar cache s asked send_body ≡ ok (after, sends path n body)
    → (path ≡ asked) × (member asked s.allowed_nar_paths ≡ true)
serve_nar-path cache s after asked path send_body n body h =
    elim (if_cases (not (member asked s.allowed_nar_paths)) _ _ _ h) [
      | inl (closed, e) ↦ absurd (ground arith)
      | inr (open_, e) ↦
          let (file_path, b, h2) =
            >>=-eq-ok (map_err bad_cache_path (cache_file_path cache.dir asked)) _ e in
          let (reply, c, h3) =
            >>=-eq-ok (stream_cache_file asked (s.disk file_path) send_body) _ h2 in
          (
            stream-path asked path (s.disk file_path) send_body n body (c ∙ ap ok (ground arith)),
            ground arith,
          )
    ]

served :
    (ensure_info : Disk → Option Disk) (outside : Outside) (cache : OutputCache)
    (closure : List StorePath) (s after : Serving) (asked path : Text) (send_body : Bool) (n : ℕ)
    (body : Option (Option Text))
    → s.paths_by_hash ≡ output_cache_allowed_paths closure
    → serve_path ensure_info outside cache s asked send_body ≡ ok (after, sends path n body)
    → (path ≡ asked) × MayGet closure s.allowed_nar_paths asked
served ensure_info outside cache closure s after asked path send_body n body c h =
    elim (if_cases (text_eq asked nix_cache_info) _ _ _ h) [
      | inl (k, e) ↦ (
        serve_info-path ensure_info cache s after asked path send_body n body e,
        description (text_eq_sound asked nix_cache_info k),
      )
      | inr (k, e) ↦ elim (if_cases (ends_with narinfo_suffix asked) _ _ _ e) [
        | inl (m, f) ↦
            let (found, a, f1) =
              >>=-eq-ok (map_narinfo_to_allowed_store_path asked s.paths_by_hash) _ f in
            let ((p, is_p), same) =
              serve_narinfo-path outside cache s after path asked send_body found n body f1 in
            let (i, (g, w, shape)) = mapped closure asked p (
              subst (λ b. map_narinfo_to_allowed_store_path asked b ≡ ok (some p)) c
                (a ∙ ap ok is_p)) in
            (same, metadata p g i w shape)
        | inr (m, f) ↦ elim (if_cases (starts_with nar_prefix asked) _ _ _ f) [
          | inl (o, g) ↦
              let (same, listed) = serve_nar-path cache s after asked path send_body n body g in
              (same, contents o listed)
          | inr (o, g) ↦ absurd (ground arith)
        ]
      ]
    ]

-- Whatever the disk, other tasks and `nix copy` do: a client that is sent a file is sent the one it
-- asked for, and that is `nix-cache-info`, the narinfo file of a path of the closure, or a NAR file
-- that is allowed at the time.
pub handle_cache_file-MayGet :
    (ensure_info : Disk → Option Disk) (outside : Outside) (cache : OutputCache)
    (closure : List StorePath) (s after : Serving) (request : CacheFileRequest) (path : Text)
    (n : ℕ) (body : Option (Option Text))
    → s.paths_by_hash ≡ output_cache_allowed_paths closure
    → handle_cache_file ensure_info outside cache s request ≡ ok (after, sends path n body)
    → (path ≡ request.path) × MayGet closure s.allowed_nar_paths path
unfolding handle_cache_file
handle_cache_file-MayGet ensure_info outside cache closure s after request path n body c h =
    let (asked, a, h1) =
      >>=-eq-ok (map_err bad_cache_path (sanitize_cache_path request.path)) _ h in
    let (same, may) =
      served ensure_info outside cache closure s after asked path request.send_body n body c h1 in
    let is_asked =
      ((sanitize_iff request.path asked).0
        (map_err-eq-ok bad_cache_path (sanitize_cache_path request.path) asked a)).0 in
    (same ∙ is_asked, subst (MayGet closure s.allowed_nar_paths) (sym same) may)
