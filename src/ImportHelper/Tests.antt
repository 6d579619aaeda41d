-- ===== src/ImportHelper/Tests.antt =====
-- crates/drv-thru/src/import_helper.rs: examples, among them those of the tests in the source.
use drv_thru.Base.{◌≡◌, ◌↔◌, refl, true, [], ◌∷◌, none, some, ok, err}
use drv_thru.Text.{Text, codes}
use drv_thru.Nix.Queries.{Programs}
use drv_thru.ImportHelper.{
  ImportRequest, ValidatedImportRequest, ImportError, Import, not_loopback, port_zero, not_origin,
  validate_loopback_http_url, handle_connection, load_trusted_public_keys, signed_import,
}
use drv_thru.ImportHelper.Requests.{Importable, handle_connection_iff}

abbrev key : Text
key = codes "drv-thru-1:AAAA="

abbrev url : Text
url = codes "http://127.0.0.1:1234"

abbrev store_path : Text
store_path = codes "/nix/store/00000000000000000000000000000000-test"

accepted : validate_loopback_http_url (codes "http://[::1]:65535") ≡ ok tt
unfolding validate_loopback_http_url
accepted = refl

other_host : validate_loopback_http_url (codes "http://127.0.0.2:1234") ≡ err not_loopback
unfolding validate_loopback_http_url
other_host = refl

zero_port : validate_loopback_http_url (codes "http://127.0.0.1:0") ≡ err port_zero
unfolding validate_loopback_http_url
zero_port = refl

with_path : validate_loopback_http_url (codes "http://127.0.0.1:1234/cache") ≡ err not_origin
unfolding validate_loopback_http_url
with_path = refl

abbrev request : ImportRequest
request = record { builder_public_key = key; cache_url = url; paths = store_path ∷ [] }

abbrev validated : ValidatedImportRequest
validated = record {
  builder_public_key = key;
  cache_url = url;
  paths = record { text = store_path } ∷ [];
}

abbrev import : Import
import v = err (codes "no such cache")

abbrev show : ImportError → Text
show e = codes "import failed"

ran : (handle_connection show import (key ∷ []) (some request)).0 ≡ some validated
unfolding handle_connection
ran = refl

not_trusted : (handle_connection show import [] (some request)).0 ≡ none
unfolding handle_connection
not_trusted = refl

handle_connection_iff_example :
    ((handle_connection show import (key ∷ []) (some request)).0 ≡ some validated)
    ↔ Importable (key ∷ []) request validated
handle_connection_iff_example = handle_connection_iff show import (key ∷ []) request validated

abbrev key_file : Text
key_file = codes "# builders\n\n  drv-thru-1:AAAA=  \ndrv-thru-1:AAAA=\n"

loaded : load_trusted_public_keys (some key_file) ≡ ok (key ∷ [])
unfolding load_trusted_public_keys
loaded = refl

-- With Nix behind it, the helper imports and answers with success.
abbrev programs : Programs
programs program args = some (record { success = true; stdout = some []; stderr = [] })

answered :
    (handle_connection show
      (signed_import programs (λ e. codes "nix failed"))
      (key ∷ [])
      (some request)).1
    ≡ record { success = true; error = none }
unfolding handle_connection signed_import
answered = refl
