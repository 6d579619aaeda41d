-- ===== src/Server/OutputCache/Fills.antt =====
-- crates/drv-thru/src/server/output_cache.rs: filling the entries of the cache.
use drv_thru.Base.{
  ◌≡◌, refl, subst, ap, ◌∙◌, Bool, true, false, not, some, Result, ok, ◌>>◌, bail_if, context,
  arith, >>=-eq-ok, ◌++◌,
}
use drv_thru.Text.{Text}
use drv_thru.Nix.StorePath.{StorePath, hash}
use drv_thru.Cache.{narinfo_suffix}
use drv_thru.Cache.FilePath.{join}
use drv_thru.Server.OutputCache.{
  Disk, OutputError, OutputCache, Outside, cache_entry_ready, fill_entry, unless_ready,
  again_under_lock, ensure_cache_entry, stale_kept, fill_failed, not_ready, bad_hash,
}

ready_after :
    (b : Bool) (filled disk : Disk)
    → (bail_if (not b) not_ready >> ok filled) ≡ ok disk
    → (b ≡ true) × (filled ≡ disk)
ready_after true filled disk h = (refl, ground arith)
ready_after false filled disk h = absurd (ground arith)

fill_entry-ready :
    (outside : Outside) (cache : OutputCache) (path : StorePath) (narinfo_path : Text)
    (start disk : Disk)
    → fill_entry outside cache path narinfo_path start ≡ ok disk
    → cache_entry_ready cache disk narinfo_path ≡ ok true
unfolding fill_entry
fill_entry-ready outside cache path narinfo_path start disk h =
    let (removed, a, h1) =
      >>=-eq-ok (context (outside.remove_stale narinfo_path start) stale_kept) _ h in
    let (filled, b, h2) =
      >>=-eq-ok (context (outside.copy_to_cache path removed) fill_failed) _ h1 in
    let (ready, c, h3) = >>=-eq-ok (cache_entry_ready cache filled narinfo_path) _ h2 in
    let (is_ready, same) = ready_after ready filled disk h3 in
    subst (λ d. cache_entry_ready cache d narinfo_path ≡ ok true) same (c ∙ ap ok is_ready)

unless_ready-ready :
    (cache : OutputCache) (narinfo_path : Text) (b : Bool) (start disk : Disk)
    (fill : Result OutputError Disk)
    → cache_entry_ready cache start narinfo_path ≡ ok b
    → (fill ≡ ok disk → cache_entry_ready cache disk narinfo_path ≡ ok true)
    → unless_ready b start fill ≡ ok disk
    → cache_entry_ready cache disk narinfo_path ≡ ok true
unless_ready-ready cache narinfo_path true start disk fill c f h =
    let same : start ≡ disk = ground arith in
    subst (λ d. cache_entry_ready cache d narinfo_path ≡ ok true) same c
unless_ready-ready cache narinfo_path false start disk fill c f h = f h

again-ready :
    (outside : Outside) (cache : OutputCache) (path : StorePath) (narinfo_path : Text)
    (start disk : Disk)
    → again_under_lock outside cache path narinfo_path start ≡ ok disk
    → cache_entry_ready cache disk narinfo_path ≡ ok true
unfolding again_under_lock
again-ready outside cache path narinfo_path start disk h =
    let (b, c, h1) = >>=-eq-ok (cache_entry_ready cache start narinfo_path) _ h in
    unless_ready-ready cache narinfo_path b start disk
      (fill_entry outside cache path narinfo_path start) c
      (fill_entry-ready outside cache path narinfo_path start disk) h1

-- When an entry was ensured, whatever other tasks and `nix copy` did, the test of readiness passes
-- for its narinfo file on the disk that is left.
pub ensure_cache_entry-ready :
    (outside : Outside) (cache : OutputCache) (start disk : Disk) (path : StorePath) (h : Text)
    → hash path ≡ some h
    → ensure_cache_entry outside cache start path ≡ ok disk
    → cache_entry_ready cache disk (join cache.dir (h ++ narinfo_suffix)) ≡ ok true
unfolding ensure_cache_entry
ensure_cache_entry-ready outside cache start disk path h k e =
    let (g, a, e1) = >>=-eq-ok (context (hash path) bad_hash) _ e in
    let same : g ≡ h = ground arith in
    let file = join cache.dir (g ++ narinfo_suffix) in
    let (b, c, e2) = >>=-eq-ok (cache_entry_ready cache start file) _ e1 in
    subst (λ t. cache_entry_ready cache disk (join cache.dir (t ++ narinfo_suffix)) ≡ ok true) same
      (unless_ready-ready cache file b start disk
        (again_under_lock outside cache path file (outside.others start)) c
        (again-ready outside cache path file (outside.others start) disk) e2)
