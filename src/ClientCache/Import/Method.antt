-- ===== src/ClientCache/Import/Method.antt =====
-- crates/drv-thru/src/client_cache/mod.rs: which way of importing is chosen.
use drv_thru.Base.{◌≡◌, ◌↔◌, refl, ap, Result, ok, err, map_err, arith}
use drv_thru.Text.{Text}
use drv_thru.Nix.Queries.{NixError}
use drv_thru.Nix.Trust.{SignedCacheImportTrust, signed_cache_import_trust}
use drv_thru.ImportHelper.{
  SocketFile, socket, other_file, absent, inaccessible, helper_socket_status,
}
use drv_thru.ClientCache.Import.{
  OutputImportMethod, direct, helper, choose_output_import_method, OutputImportError, no_setup,
  ImportWorld, output_import_method,
}

chosen :
    Result NixError SignedCacheImportTrust
    → (NixError → Text)
    → SocketFile
    → Result OutputImportError OutputImportMethod
chosen trusted show file =
    map_err no_setup
      (choose_output_import_method (map_err show trusted) (helper_socket_status file))

chosen-direct :
    (trusted : Result NixError SignedCacheImportTrust) (show : NixError → Text) (file : SocketFile)
    (trust : SignedCacheImportTrust)
    → (chosen trusted show file ≡ ok (direct trust)) ↔ (trusted ≡ ok trust)
unfolding chosen choose_output_import_method helper_socket_status
chosen-direct (ok t) show file trust = (
  there,
  λ e.
      ap
        (λ r.
          map_err no_setup
            (choose_output_import_method (map_err show r) (helper_socket_status file)))
        e,
)
  where
    there :
        ◌≡◌ {A = Result OutputImportError OutputImportMethod} (ok (direct t)) (ok (direct trust))
        → ◌≡◌ {A = Result NixError SignedCacheImportTrust} (ok t) (ok trust)
    there h = cc
chosen-direct (err e) show socket trust = (λ h. ground arith, λ h. ground arith)
chosen-direct (err e) show other_file trust = (λ h. ground arith, λ h. ground arith)
chosen-direct (err e) show absent trust = (λ h. ground arith, λ h. ground arith)
chosen-direct (err e) show (inaccessible why) trust = (λ h. ground arith, λ h. ground arith)

chosen-helper :
    (trusted : Result NixError SignedCacheImportTrust) (show : NixError → Text) (file : SocketFile)
    → (chosen trusted show file ≡ ok helper)
      ↔ (((e : NixError) × (trusted ≡ err e)) × (file ≡ socket))
unfolding chosen choose_output_import_method helper_socket_status
chosen-helper (ok t) show file = (λ h. ground arith, λ ((e, same), here). ground arith)
chosen-helper (err e) show socket = (λ h. ((e, refl), refl), λ h. refl)
chosen-helper (err e) show other_file = (λ h. ground arith, λ h. ground (arith, h.1))
chosen-helper (err e) show absent = (λ h. ground arith, λ h. ground (arith, h.1))
chosen-helper (err e) show (inaccessible why) = (λ h. ground arith, λ h. ground (arith, h.1))

-- The outputs are imported directly exactly if Nix trusts the key of the builder for this user, with
-- the trust that it has, and through the helper exactly if Nix does not and the file at the path of
-- the helper is a socket.
pub output_import_method_iff :
    (world : ImportWorld) (public_key : Text)
    → ((trust : SignedCacheImportTrust)
        → (output_import_method world public_key ≡ ok (direct trust))
          ↔ (signed_cache_import_trust world.run public_key ≡ ok trust))
      × ((output_import_method world public_key ≡ ok helper) ↔ (
          ((e : NixError) × (signed_cache_import_trust world.run public_key ≡ err e))
          × (world.socket_file ≡ socket)))
unfolding output_import_method chosen
output_import_method_iff world public_key = (
  chosen-direct (signed_cache_import_trust world.run public_key) world.show world.socket_file,
  chosen-helper (signed_cache_import_trust world.run public_key) world.show world.socket_file,
)
