-- ===== src/Nix/Trust/Tests.antt =====
-- crates/drv-thru/src/nix.rs: a user who is in a trusted group.
use drv_thru.Base.{◌≡◌, ◌⊎◌, refl, true, false, List, [], ◌∷◌, some, ok, err, if◌then◌else◌}
use drv_thru.Text.{Text, codes, trim}
use drv_thru.TextMap.{member}
use drv_thru.Nix.StorePath.{StorePath}
use drv_thru.Nix.Queries.{Programs, NixError, rejected}
use drv_thru.Nix.Trust.{
  SignedCacheImportTrust, can_pass_public_key, current_uid_is_root, current_user_name,
  current_group_names, nix_config_values, signed_cache_import_allowed, signed_cache_import_trust,
  copy_from_signed_binary_cache, copy_from_front,
}
use drv_thru.Nix.Trust.Laws.{trust-allowed, commands_of}

abbrev key : Text
key = codes " cache-1:AAAA= "

abbrev answer : List Text → Text
answer args =
    if member (codes "-u") args
    then codes "1000\n"
    else if member (codes "-un") args
    then codes "ann\n"
    else if member (codes "-Gn") args
    then codes "users wheel\n"
    else if member (codes "trusted-users") args
    then codes "trusted-users = root @wheel\n"
    else codes "cache.nixos.org-1:abc"

abbrev programs : Programs
programs program args = some (record { success = true; stdout = some (answer args); stderr = [] })

allowed : signed_cache_import_trust programs key ≡ ok can_pass_public_key
unfolding signed_cache_import_trust
allowed = refl

trust-allowed_example :
    ((trust : SignedCacheImportTrust) × (signed_cache_import_trust programs key ≡ ok trust)
      × (signed_cache_import_allowed false
            (codes "ann")
            (codes "users" ∷ codes "wheel" ∷ [])
            (codes "root" ∷ codes "@wheel" ∷ [])
            (codes "cache.nixos.org-1:abc" ∷ [])
            key
          ≡ true))
    ⊎ ((signed_cache_import_trust programs key ≡ err rejected)
        × (signed_cache_import_allowed false
              (codes "ann")
              (codes "users" ∷ codes "wheel" ∷ [])
              (codes "root" ∷ codes "@wheel" ∷ [])
              (codes "cache.nixos.org-1:abc" ∷ [])
              key
            ≡ false))
unfolding trim current_uid_is_root current_user_name current_group_names nix_config_values member
trust-allowed_example =
    trust-allowed programs key (codes "ann") false (codes "users" ∷ codes "wheel" ∷ [])
      (codes "root" ∷ codes "@wheel" ∷ []) (codes "cache.nixos.org-1:abc" ∷ []) refl refl refl refl
      refl refl

abbrev one : StorePath
one = record { text = codes "/nix/store/00000000000000000000000000000000-a" }

abbrev show : NixError → Text
show e = codes "failed"

copied :
    copy_from_signed_binary_cache programs show
      (codes "http://127.0.0.1:80")
      key
      can_pass_public_key
      (one ∷ [])
    ≡ (
      commands_of
          (copy_from_front
            (codes "http://127.0.0.1:80")
            (codes "cache-1:AAAA=")
            can_pass_public_key)
          ((one ∷ []) ∷ []),
      ok tt,
    )
unfolding copy_from_signed_binary_cache
copied = refl
