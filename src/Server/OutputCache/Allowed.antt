-- ===== src/Server/OutputCache/Allowed.antt =====
-- crates/drv-thru/src/server/output_cache.rs: which NAR files are allowed over the requests of a
-- session. Each request finds a disk of its own, since other tasks and failed fills change it.
use drv_thru.Base.{
  ◌≡◌, ◌⊎◌, inl, inr, refl, sym, ap, subst, ◌∙◌, Bool, true, false, List, ◌∷◌, ◌++◌, Option, none,
  some, ok, map_err, arith, if◌then◌else◌, Bool-cases, >>=-eq-ok, map_err-eq-ok,
}
use drv_thru.Text.{Text, text_eq}
use drv_thru.Text.Prefix.{text_eq_sound}
use drv_thru.TextMap.{member}
use drv_thru.Nix.StorePath.{StorePath, hash}
use drv_thru.Cache.{narinfo_suffix, cache_file_path, narinfo_nar_path}
use drv_thru.Server.OutputCache.{
  File, Entry, missing, unreadable, directory, regular, Disk, bad_cache_path, OutputCache, Outside,
  ensure_cache_entry,
}
use drv_thru.Server.OutputCache.Handler.{Serving, Reply, read_file, allow, serve_narinfo}
use drv_thru.Server.OutputCache.Served.{In}

-- A narinfo file of a path of the closure lies on the disk and names the NAR file.
pub record NamedBy (cache : OutputCache) (closure : List StorePath) (disk : Disk) (nar : Text)
    : Type 0 where
  pub path : StorePath
  pub digits : Text
  pub narinfo_path : Text
  pub file : File
  pub in_closure : In path closure
  pub hashed : hash path ≡ some digits
  pub below : cache_file_path cache.dir (digits ++ narinfo_suffix) ≡ ok narinfo_path
  pub lies : disk narinfo_path ≡ regular file
  pub names : narinfo_nar_path file.text ≡ ok (some nar)

read_file-ok : (entry : Entry) (f : File) → read_file entry ≡ ok f → entry ≡ regular f
read_file-ok missing f h = absurd (ground arith)
read_file-ok unreadable f h = absurd (ground arith)
read_file-ok (directory n) f h = absurd (ground arith)
read_file-ok (regular g) f h = ground arith

allow-member :
    (named : Option Text) (allowed : List Text) (q : Text)
    → member q (allow named allowed) ≡ true
    → (member q allowed ≡ true) ⊎ (named ≡ some q)
unfolding member
allow-member none allowed q h = inl h
allow-member (some nar) allowed q h = elim (Bool-cases (member nar allowed)) [
  | inl k ↦ inl (sym (ap (λ b. member q (if b then allowed else nar ∷ allowed)) k) ∙ h)
  | inr k ↦
      let at = sym (ap (λ b. member q (if b then allowed else nar ∷ allowed)) k) ∙ h in
      elim (Bool-cases (text_eq nar q)) [
        | inl e ↦ inr (ap some (text_eq_sound nar q e))
        | inr e ↦ inl (ground arith)
      ]
]

-- What a request leaves: the same closure, and only NAR files that were allowed or are named.
abbrev pub Grows : OutputCache → List StorePath → Serving → Serving → Text → Type 0
Grows cache closure s after q =
    (after.paths_by_hash ≡ s.paths_by_hash)
    × ((member q after.allowed_nar_paths ≡ false)
        ⊎ ((member q s.allowed_nar_paths ≡ true) ⊎ NamedBy cache closure after.disk q))

pub unchanged :
    (cache : OutputCache) (closure : List StorePath) (s after : Serving) (q : Text)
    → after.paths_by_hash ≡ s.paths_by_hash
    → after.allowed_nar_paths ≡ s.allowed_nar_paths
    → Grows cache closure s after q
unchanged cache closure s after q p a = (
  p,
  elim (Bool-cases (member q s.allowed_nar_paths)) [
    | inl m ↦ inr (inl m)
    | inr m ↦ inl (ap (member q) a ∙ m)
  ],
)

pub serve_narinfo-Grows :
    (outside : Outside) (cache : OutputCache) (closure : List StorePath) (s after : Serving)
    (asked : Text) (send_body : Bool) (found : Option StorePath) (reply : Reply) (q : Text)
    → ((p : StorePath)
        → found ≡ some p
        → In p closure × ((h : Text) × (hash p ≡ some h) × (asked ≡ h ++ narinfo_suffix)))
    → serve_narinfo outside cache s asked send_body found ≡ ok (after, reply)
    → Grows cache closure s after q
serve_narinfo-Grows outside cache closure s after asked send_body none reply q w h =
    unchanged cache closure s after q (ground arith) (ground arith)
serve_narinfo-Grows outside cache closure s after asked send_body (some p) reply q w h =
    let (disk, a, h1) = >>=-eq-ok (ensure_cache_entry outside cache s.disk p) _ h in
    let (file_path, b, h2) =
      >>=-eq-ok (map_err bad_cache_path (cache_file_path cache.dir asked)) _ h1 in
    let (f, c, h3) = >>=-eq-ok (read_file (disk file_path)) _ h2 in
    let (nar_path, d, h4) = >>=-eq-ok (map_err bad_cache_path (narinfo_nar_path f.text)) _ h3 in
    let (i, (g, hashed, shape)) = w p refl in
    let is_after : record s { disk = disk; allowed_nar_paths = allow nar_path s.allowed_nar_paths }
        ≡ after =
      ground arith in
    subst (λ t. Grows cache closure s t q) is_after
      (
        refl,
        elim (Bool-cases (member q (allow nar_path s.allowed_nar_paths))) [
          | inr m ↦ inl m
          | inl m ↦ elim (allow-member nar_path s.allowed_nar_paths q m) [
            | inl k ↦ inr (inl k)
            | inr k ↦ inr (
                inr (record {
                  path = p;
                  digits = g;
                  narinfo_path = file_path;
                  file = f;
                  in_closure = i;
                  hashed = hashed;
                  below =
                      subst (λ t. cache_file_path cache.dir t ≡ ok file_path) shape
                        (map_err-eq-ok bad_cache_path (cache_file_path cache.dir asked) file_path
                          b);
                  lies = read_file-ok (disk file_path) f c;
                  names =
                      map_err-eq-ok bad_cache_path (narinfo_nar_path f.text) nar_path d ∙ ap ok k;
                }))
          ]
        ],
      )
