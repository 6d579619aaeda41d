-- ===== src/Server/OutputCache/Tests.antt =====
-- crates/drv-thru/src/server/output_cache.rs: a session over a small disk.
use drv_thru.Base.{◌≡◌, ◌⊎◌, refl, true, [], ◌∷◌, none, some, ok, if◌then◌else◌}
use drv_thru.Text.{Text, codes, text_eq, starts_with}
use drv_thru.Nix.StorePath.{StorePath, hash}
use drv_thru.Cache.{nix_cache_info, nar_prefix}
use drv_thru.Server.OutputCache.{
  File, missing, regular, Disk, OutputCache, Outside, requested_output_paths,
  output_cache_allowed_paths, ensure_cache_entry,
}
use drv_thru.Server.OutputCache.Handler.{Serving, not_found, sends, handle_cache_file}
use drv_thru.Server.OutputCache.Session.{
  Step, attempt, run, opened, Named, Metadata, session-served,
}

abbrev digits : Text
digits = codes "00000000000000000000000000000000"

abbrev hello : StorePath
hello = record { text = codes "/nix/store/00000000000000000000000000000000-hello" }

abbrev narinfo : Text
narinfo = codes "00000000000000000000000000000000.narinfo"

abbrev info_file : File
info_file = record {
  text = some (codes "URL: nar/a.nar.xz\nSig: key:abc\n");
  byte_count = 33;
  copied = true;
}

abbrev nar_file : File
nar_file = record { text = none; byte_count = 5; copied = true }

abbrev disk : Disk
disk path =
    if text_eq path (codes "c/00000000000000000000000000000000.narinfo")
    then regular info_file
    else if text_eq path (codes "c/nar/a.nar.xz")
    then regular nar_file
    else missing

abbrev cache : OutputCache
cache = record { dir = codes "c"; public_key = codes "key:xyz" }

abbrev outside : Outside
outside = record { others = λ d. d; remove_stale = λ p d. some d; copy_to_cache = λ p d. none }

abbrev asks : Text → Step
asks path = record {
  found_disk = disk;
  ensure_info = λ d. some d;
  outside = outside;
  request = record { path = path; send_body = true };
}

requested : requested_output_paths (hello.text ∷ hello.text ∷ []) (hello ∷ []) ≡ ok (hello ∷ [])
unfolding requested_output_paths
requested = refl

-- A NAR file is not there before its narinfo file was read.
early :
    attempt cache (asks (codes "nar/a.nar.xz")) (opened disk (hello ∷ []))
    ≡ ok (opened disk (hello ∷ []), not_found)
unfolding handle_cache_file output_cache_allowed_paths
early = refl

abbrev with_nar : Serving
with_nar = record {
  disk = disk;
  paths_by_hash = (digits, hello) ∷ [];
  allowed_nar_paths = codes "nar/a.nar.xz" ∷ [];
}

later :
    attempt cache
      (asks (codes "nar/a.nar.xz"))
      (run cache (asks narinfo ∷ []) (opened disk (hello ∷ [])))
    ≡ ok (with_nar, sends (codes "nar/a.nar.xz") 5 (some none))
unfolding handle_cache_file output_cache_allowed_paths run
later = refl

session-served_example :
    (codes "nar/a.nar.xz" ≡ nix_cache_info)
    ⊎ (Metadata (hello ∷ []) (codes "nar/a.nar.xz")
        ⊎ ((starts_with nar_prefix (codes "nar/a.nar.xz") ≡ true)
            × Named cache
                (hello ∷ [])
                (asks narinfo ∷ [])
                (opened disk (hello ∷ []))
                (codes "nar/a.nar.xz")))
session-served_example =
    session-served cache (hello ∷ []) disk (asks narinfo ∷ []) (asks (codes "nar/a.nar.xz"))
      with_nar (codes "nar/a.nar.xz") 5 (some none) later

is_hash : hash hello ≡ some digits
unfolding hash
is_hash = refl

ensured : ensure_cache_entry outside cache disk hello ≡ ok disk
unfolding ensure_cache_entry
ensured = refl
