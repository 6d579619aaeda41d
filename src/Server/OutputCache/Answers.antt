-- ===== src/Server/OutputCache/Answers.antt =====
-- crates/drv-thru/src/server/output_cache.rs: how a request for a narinfo file is answered, and one
-- for a NAR file that is allowed.
use drv_thru.Base.{
  ◌≡◌, ◌⊎◌, refl, sym, ap, subst, ◌∙◌, ok-injective, map_err-eq-ok, Bool, true, false, List, [],
  ◌∷◌, ◌++◌, Option, none, some, ok, ◌>>=◌, map_err, arith, if◌then◌else◌, Bool-cases, inl, inr,
  >>=-eq-ok, All, length,
}
use drv_thru.Text.{Text, text_eq, starts_with, ends_with}
use drv_thru.Text.Prefix.{text_eq_sound, text_eq_self}
use drv_thru.TextMap.{member}
use drv_thru.Nix.StorePath.{StorePath}
use drv_thru.Nix.StorePath.Laws.{IsBase32}
use drv_thru.Cache.{
  nix_cache_info, narinfo_suffix, nar_prefix, sanitize_cache_path, cache_file_path,
  narinfo_nar_path,
}
use drv_thru.Cache.FilePath.{join}
use drv_thru.Cache.Laws.{info, narinfo, nar, sanitize_iff}
use drv_thru.Cache.Narinfo.{IsNarPath}
use drv_thru.Server.OutputCache.{
  File, Disk, bad_cache_path, OutputCache, map_narinfo_to_allowed_store_path, Outside,
  ensure_cache_entry,
}
use drv_thru.Server.OutputCache.Handler.{
  Serving, Reply, not_found, sends, body_of, allow, read_file, stream_cache_file, serve_narinfo,
  serve_path, handle_cache_file,
}
use drv_thru.Server.OutputCache.Served.{if_cases}

pub allow-here : (q : Text) (allowed : List Text) → member q (allow (some q) allowed) ≡ true
unfolding member
allow-here q allowed = elim (Bool-cases (member q allowed)) [
  | inl k ↦ ap (λ b. member q (if b then allowed else q ∷ allowed)) k ∙ k
  | inr k ↦ ap (λ b. member q (if b then allowed else q ∷ allowed)) k ∙ rw (text_eq_self q) refl
]

-- What a narinfo request for a path of the closure leaves and sends.
pub serve_narinfo-ok :
    (outside : Outside) (cache : OutputCache) (s after : Serving) (asked : Text) (send_body : Bool)
    (store_path : StorePath) (reply : Reply)
    → serve_narinfo outside cache s asked send_body (some store_path) ≡ ok (after, reply)
    → (file : File) × (nar_path : Option Text) × (narinfo_nar_path file.text ≡ ok nar_path)
      × (after.allowed_nar_paths ≡ allow nar_path s.allowed_nar_paths)
      × (reply ≡ sends asked file.byte_count (body_of send_body file))
serve_narinfo-ok outside cache s after asked send_body store_path reply h =
    let (disk, a, h1) = >>=-eq-ok (ensure_cache_entry outside cache s.disk store_path) _ h in
    let (file_path, b, h2) =
      >>=-eq-ok (map_err bad_cache_path (cache_file_path cache.dir asked)) _ h1 in
    let (file, c, h3) = >>=-eq-ok (read_file (disk file_path)) _ h2 in
    let (nar_path, d, h4) = >>=-eq-ok (map_err bad_cache_path (narinfo_nar_path file.text)) _ h3 in
    let same = ok-injective h4 in
    (
      file,
      nar_path,
      map_err-eq-ok bad_cache_path (narinfo_nar_path file.text) nar_path d,
      sym (ap (λ r. (r.0).allowed_nar_paths) same),
      sym (ap (λ r. r.1) same),
    )

nar-not_info : (q : Text) → starts_with nar_prefix q ≡ true → text_eq q nix_cache_info ≡ false
unfolding starts_with
nar-not_info q h = elim (Bool-cases (text_eq q nix_cache_info)) [
  | inl e ↦ absurd (ground (arith, ap (starts_with nar_prefix) (text_eq_sound q nix_cache_info e)))
  | inr e ↦ e
]

digits-not_nar :
    (digits rest : Text)
    → length digits ≡ 32
    → All IsBase32 digits
    → starts_with nar_prefix (digits ++ rest) ≡ false
unfolding starts_with
digits-not_nar [] rest n h = absurd (omega arith)
digits-not_nar (a ∷ []) rest n h = absurd (omega arith)
digits-not_nar (a ∷ b ∷ []) rest n h = absurd (omega arith)
digits-not_nar (a ∷ b ∷ c ∷ []) rest n h = absurd (omega arith)
digits-not_nar (a ∷ b ∷ c ∷ d ∷ digits) rest n h = ground arith

IsNarPath-not_narinfo : (q : Text) → IsNarPath q → ends_with narinfo_suffix q ≡ false
unfolding starts_with
IsNarPath-not_narinfo q (info e, below) = absurd (ground (arith, ap (starts_with nar_prefix) e))
IsNarPath-not_narinfo q (narinfo digits e n base, below) =
    absurd
      (ground (arith, ap (starts_with nar_prefix) e, digits-not_nar digits narinfo_suffix n base))
IsNarPath-not_narinfo q (nar rest e segments named plain, below) = plain

pub IsNarPath-place : (dir q : Text) → IsNarPath q → cache_file_path dir q ≡ ok (join dir q)
unfolding cache_file_path
IsNarPath-place dir q (valid, below) =
    ap (λ r. r >>= λ path. ok (join dir path)) ((sanitize_iff q q).1 (refl, valid))

serve_path-allowed :
    (ensure_info : Disk → Option Disk) (outside : Outside) (cache : OutputCache) (s : Serving)
    (q : Text)
    → IsNarPath q
    → member q s.allowed_nar_paths ≡ true
    → serve_path ensure_info outside cache s q true
      ≡ (stream_cache_file q (s.disk (join cache.dir q)) true >>= λ reply. ok (s, reply))
serve_path-allowed ensure_info outside cache s q (valid, below) m =
    rw
      (
        nar-not_info q below,
        IsNarPath-not_narinfo q (valid, below),
        below,
        m,
        IsNarPath-place cache.dir q (valid, below),
      )
      refl

-- A request for the body of a NAR file that is allowed is answered from the disk.
pub handle_cache_file-allowed :
    (ensure_info : Disk → Option Disk) (outside : Outside) (cache : OutputCache) (s : Serving)
    (q : Text)
    → IsNarPath q
    → member q s.allowed_nar_paths ≡ true
    → handle_cache_file ensure_info outside cache s (record { path = q; send_body = true })
      ≡ (stream_cache_file q (s.disk (join cache.dir q)) true >>= λ reply. ok (s, reply))
unfolding handle_cache_file
handle_cache_file-allowed ensure_info outside cache s q (valid, below) m =
    ap (λ r. map_err bad_cache_path r >>= λ path. serve_path ensure_info outside cache s path true)
      ((sanitize_iff q q).1 (refl, valid))
    ∙ serve_path-allowed ensure_info outside cache s q (valid, below) m

-- A narinfo file is sent as the disk has it, and the NAR file that it names is allowed.
abbrev pub AnswersNarinfo : Serving → Serving → Text → Bool → Reply → Type 0
AnswersNarinfo s after path send_body reply =
    (file : File) × (nar_path : Option Text) × (narinfo_nar_path file.text ≡ ok nar_path)
    × (after.allowed_nar_paths ≡ allow nar_path s.allowed_nar_paths)
    × (reply ≡ sends path file.byte_count (body_of send_body file))

serve_narinfo-Answers :
    (outside : Outside) (cache : OutputCache) (s after : Serving) (asked : Text) (send_body : Bool)
    (found : Option StorePath) (reply : Reply)
    → serve_narinfo outside cache s asked send_body found ≡ ok (after, reply)
    → (reply ≡ not_found) ⊎ AnswersNarinfo s after asked send_body reply
serve_narinfo-Answers outside cache s after asked send_body none reply h =
    inl (sym (ap (λ r. r.1) (ok-injective h)))
serve_narinfo-Answers outside cache s after asked send_body (some p) reply h =
    inr (serve_narinfo-ok outside cache s after asked send_body p reply h)

narinfo-not_info : (q : Text) → ends_with narinfo_suffix q ≡ true → text_eq q nix_cache_info ≡ false
unfolding ends_with
narinfo-not_info q h = elim (Bool-cases (text_eq q nix_cache_info)) [
  | inl e ↦
      absurd (ground (arith, ap (ends_with narinfo_suffix) (text_eq_sound q nix_cache_info e)))
  | inr e ↦ e
]

pub handle_cache_file-Answers :
    (ensure_info : Disk → Option Disk) (outside : Outside) (cache : OutputCache) (s after : Serving)
    (path : Text) (send_body : Bool) (reply : Reply)
    → ends_with narinfo_suffix path ≡ true
    → handle_cache_file ensure_info outside cache s (record { path = path; send_body = send_body })
      ≡ ok (after, reply)
    → (reply ≡ not_found) ⊎ AnswersNarinfo s after path send_body reply
unfolding handle_cache_file
handle_cache_file-Answers ensure_info outside cache s after path send_body reply is_narinfo h =
    let (asked, a, h1) = >>=-eq-ok (map_err bad_cache_path (sanitize_cache_path path)) _ h in
    let is_path =
      ((sanitize_iff path asked).0
        (map_err-eq-ok bad_cache_path (sanitize_cache_path path) asked a)).0 in
    let at_path : serve_path ensure_info outside cache s path send_body ≡ ok (after, reply) =
      subst (λ q. serve_path ensure_info outside cache s q send_body ≡ ok (after, reply)) is_path
        h1 in
    let (found, b, h2) =
      >>=-eq-ok (map_narinfo_to_allowed_store_path path s.paths_by_hash)
        (serve_narinfo outside cache s path send_body) (served_as path is_narinfo at_path) in
    serve_narinfo-Answers outside cache s after path send_body found reply h2
  where
    served_as :
        (q : Text)
        → ends_with narinfo_suffix q ≡ true
        → serve_path ensure_info outside cache s q send_body ≡ ok (after, reply)
        → (map_narinfo_to_allowed_store_path q s.paths_by_hash
            >>= serve_narinfo outside cache s q send_body)
          ≡ ok (after, reply)
    served_as q n k = elim (if_cases (text_eq q nix_cache_info) _ _ _ k) [
      | inl (e, f) ↦ absurd (ground (arith, narinfo-not_info q n))
      | inr (e, f) ↦ elim (if_cases (ends_with narinfo_suffix q) _ _ _ f) [
        | inl (o, g) ↦ g
        | inr (o, g) ↦ absurd (ground arith)
      ]
    ]
