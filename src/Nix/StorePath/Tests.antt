-- ===== src/Nix/StorePath/Tests.antt =====
-- crates/drv-thru/src/nix.rs: runs of the checks of store paths.
use drv_thru.Base.{◌≡◌, refl, ok, err, some}
use drv_thru.Text.{Text, codes}
use drv_thru.Nix.StorePath.{StorePath, new, hash, invalid_hash, invalid_name, not_store_path}

abbrev hello : Text
hello = codes "/nix/store/00000000000000000000000000000000-foo+bar_1.0?x=y"

abbrev hello_path : StorePath
hello_path = record { text = hello }

accepts : new hello ≡ ok hello_path
unfolding new
accepts = refl

rejects_tmp : new (codes "/tmp/abc") ≡ err (not_store_path (codes "/tmp/abc"))
unfolding new
rejects_tmp = refl

rejects_hash :
    new (codes "/nix/store/abc-source") ≡ err (invalid_hash (codes "/nix/store/abc-source"))
unfolding new
rejects_hash = refl

rejects_no_name :
    new (codes "/nix/store/00000000000000000000000000000000-")
    ≡ err (invalid_name (codes "/nix/store/00000000000000000000000000000000-"))
unfolding new
rejects_no_name = refl

hash_of_hello : hash hello_path ≡ some (codes "00000000000000000000000000000000")
unfolding hash
hash_of_hello = refl
