-- ===== src/ImportHelper.antt =====
-- crates/drv-thru/src/import_helper.rs: a root service that imports store paths from a local cache for
-- the keys it trusts. `serde_json`, the sockets and the import itself are parameters.
pub mod Urls
pub mod Keys
pub mod Requests
mod Tests
use drv_thru.Base.{
  ℕ, ◌+◌, Bool, true, false, not, ◌&&◌, ◌||◌, List, [], ◌∷◌, ◌++◌, ◌*◌, Option, none, some, Result,
  ok, err, ◌>>=◌, ◌>>◌, bail_if, context, map_err, try_map, ltb, ◌==◌, all, any, length, take, drop,
  if◌then◌else◌,
}
use drv_thru.Text.{
  Text, codes, is_empty, text_eq, trim, lines, strip_prefix, starts_with, has_char, split_once,
  is_whitespace, is_ascii_digit, is_ascii_alphanumeric, parse_unsigned,
}
use drv_thru.TextMap.{member}
use drv_thru.Nix.Queries.{Programs, NixError}
use drv_thru.Nix.Trust.{can_pass_public_key, copy_from_signed_binary_cache}
use drv_thru.Nix.StorePath.{StorePath, PathError, new}

abbrev pub max_import_paths : ℕ
max_import_paths = 8192

abbrev pub max_error_chars : ℕ
max_error_chars = 16 * 1024

pub record ImportRequest : Type 0 where
  pub builder_public_key : Text
  pub cache_url : Text
  pub paths : List Text

pub record ImportResponse : Type 0 where
  pub success : Bool
  pub error : Option Text

pub record ValidatedImportRequest : Type 0 where
  pub builder_public_key : Text
  pub cache_url : Text
  pub paths : List StorePath

pub data ImportError : Type 0 where
  url_whitespace not_http not_origin not_loopback no_port port_range port_zero : ImportError
  key_whitespace key_shape key_name key_body : ImportError
  no_paths too_many_paths untrusted_key keys_unreadable : ImportError
  bad_path : PathError → ImportError
  bad_line : ℕ → ImportError
  request_unreadable : ImportError
  import_failed : Text → ImportError

-- `validate_port`.
abbrev pub nonzero_port : ℕ → Result ImportError (Unit {0})
nonzero_port port = bail_if (port == 0) port_zero

unfoldable pub validate_port : Text → Result ImportError (Unit {0})
unfolding parse_unsigned
validate_port port = do
  bail_if (is_empty port || not (all is_ascii_digit port)) no_port
  n ← context (parse_unsigned 16 port) port_range
  nonzero_port n

abbrev pub not_authority : Text → Bool
not_authority authority =
    is_empty authority
    || has_char b'/' authority
    || has_char b'?' authority
    || has_char b'#' authority
    || has_char b'@' authority

-- The two hosts, one after the other.
abbrev pub check_ipv6 : Option Text → Result ImportError (Unit {0})
check_ipv6 none = err not_loopback
check_ipv6 (some port) = validate_port port

abbrev pub check_host : Text → Option Text → Result ImportError (Unit {0})
check_host authority none = check_ipv6 (strip_prefix (codes "[::1]:") authority)
check_host authority (some port) = validate_port port

abbrev pub check_authority : Option Text → Result ImportError (Unit {0})
check_authority none = err not_http
check_authority (some authority) = do
  bail_if (not_authority authority) not_origin
  check_host authority (strip_prefix (codes "127.0.0.1:") authority)

unfoldable pub validate_loopback_http_url : Text → Result ImportError (Unit {0})
unfolding text_eq trim strip_prefix has_char validate_port
validate_loopback_http_url url = do
  bail_if (not (text_eq (trim url) url)) url_whitespace
  check_authority (strip_prefix (codes "http://") url)

abbrev pub valid_key_name_char : ℕ → Bool
valid_key_name_char c = is_ascii_alphanumeric c || c == b'.' || c == b'_' || c == b'-'

-- A byte of a character that is not ASCII is refused, as its code point is here.
abbrev pub valid_base64_byte : ℕ → Bool
valid_base64_byte c = is_ascii_alphanumeric c || c == b'+' || c == b'/' || c == b'='

abbrev pub check_key_parts : Option (Text × Text) → Result ImportError (Unit {0})
check_key_parts none = err key_shape
check_key_parts (some (name, key)) = do
  bail_if (is_empty name || not (all valid_key_name_char name)) key_name
  bail_if (is_empty key || not (all valid_base64_byte key)) key_body
  ok tt

unfoldable pub validate_nix_public_key : Text → Result ImportError (Unit {0})
unfolding text_eq trim is_whitespace split_once
validate_nix_public_key key = do
  bail_if (not (text_eq (trim key) key) || is_empty key) key_whitespace
  bail_if (any is_whitespace key) key_whitespace
  check_key_parts (split_once b':' key)

-- `BTreeSet::insert`.
unfoldable pub insert_key : Text → List Text → List Text
unfolding member
insert_key key keys = if member key keys then keys else keys ++ (key ∷ [])

abbrev pub is_comment : Text → Bool
is_comment line = is_empty line || starts_with (codes "#") line

-- The loop over the lines, each with its index.
unfoldable pub load_lines : ℕ → List Text → List Text → Result ImportError (List Text)
unfolding validate_nix_public_key insert_key trim starts_with
load_lines index keys [] = ok keys
load_lines index keys (line ∷ rest) =
    if is_comment (trim line)
    then load_lines (index + 1) keys rest
    else (map_err (λ e. bad_line (index + 1)) (validate_nix_public_key (trim line))
        >> load_lines (index + 1) (insert_key (trim line) keys) rest)

-- `load_trusted_public_keys`, on the text of the file if it can be read.
unfoldable pub load_trusted_public_keys : Option Text → Result ImportError (List Text)
unfolding load_lines lines
load_trusted_public_keys file = do text ← context file keys_unreadable; load_lines 0 [] (lines text)

abbrev pub no_path : List Text → Bool
no_path [] = true
no_path (p ∷ paths) = false

abbrev pub import_path : Text → Result ImportError StorePath
import_path text = map_err bad_path (new text)

unfoldable pub validate_request_shape : ImportRequest → Result ImportError ValidatedImportRequest
unfolding validate_loopback_http_url validate_nix_public_key new
validate_request_shape request = do
  validate_loopback_http_url request.cache_url
  validate_nix_public_key request.builder_public_key
  bail_if (no_path request.paths) no_paths
  bail_if (ltb max_import_paths (length request.paths)) too_many_paths
  paths ← try_map import_path request.paths
  ok (record {
    builder_public_key = request.builder_public_key;
    cache_url = request.cache_url;
    paths = paths;
  })

unfoldable pub validate_trusted_request :
    ImportRequest → List Text → Result ImportError ValidatedImportRequest
unfolding validate_request_shape member
validate_trusted_request request trusted = do
  validated ← validate_request_shape request
  bail_if (not (member validated.builder_public_key trusted)) untrusted_key
  ok validated

unfoldable pub truncate_error : Text → Text
truncate_error message =
    if is_empty (drop max_error_chars message)
    then take max_error_chars message
    else take max_error_chars message ++ 10 ∷ codes "[truncated]"

-- An import, with the text of its error.
abbrev pub Import : Type 0
Import = ValidatedImportRequest → Result Text (Unit {0})

-- The import of the source: the key may be passed, since the helper runs as root.
unfoldable pub signed_import : Programs → (NixError → Text) → Import
unfolding copy_from_signed_binary_cache
signed_import run show v =
    map_err show
      (copy_from_signed_binary_cache run show v.cache_url v.builder_public_key can_pass_public_key
        v.paths).1

abbrev pub run_import :
    Import
    → Result ImportError ValidatedImportRequest
    → Option ValidatedImportRequest × Result ImportError (Unit {0})
run_import import (err e) = (none, err e)
run_import import (ok request) = (some request, map_err import_failed (import request))

abbrev pub respond : (ImportError → Text) → Result ImportError (Unit {0}) → ImportResponse
respond show (ok u) = record { success = true; error = none }
respond show (err e) = record { success = false; error = some (truncate_error (show e)) }

-- `handle_connection`: the import that was run, if one was, and the response.
unfoldable pub handle_connection :
    (ImportError → Text)
    → Import
    → List Text
    → Option ImportRequest
    → Option ValidatedImportRequest × ImportResponse
unfolding validate_trusted_request truncate_error
handle_connection show import trusted message =
    let (ran, result) = run_import import (
      context message request_unreadable >>= λ request. validate_trusted_request request trusted) in
    (ran, respond show result)

pub data ClientError : Type 0 where
  bad_request : ImportError → ClientError
  not_connected send_failed response_unreadable : ClientError
  helper_failed : Text → ClientError

abbrev pub of_response : ImportResponse → Result ClientError (Unit {0})
of_response response = elim response.error [
  | none ↦ if response.success then ok tt else err (helper_failed (codes "unknown error"))
  | some text ↦ if response.success then ok tt else err (helper_failed text)
]

-- `import_paths`: whether the socket connects, whether the request is sent, and the response.
unfoldable pub import_paths :
    Bool → Bool → Option ImportResponse → ImportRequest → Result ClientError (Unit {0})
unfolding validate_request_shape
import_paths connected sent response request = do
  validated ← map_err bad_request (validate_request_shape request)
  bail_if (not connected) not_connected
  bail_if (not sent) send_failed
  r ← context response response_unreadable
  of_response r

-- What stands at the path of the socket.
pub data SocketFile : Type 0 where
  socket other_file absent : SocketFile
  inaccessible : Text → SocketFile

pub data HelperSocketStatus : Type 0 where
  available missing not_socket : HelperSocketStatus
  unreachable : Text → HelperSocketStatus

unfoldable pub helper_socket_status : SocketFile → HelperSocketStatus
helper_socket_status socket = available
helper_socket_status other_file = not_socket
helper_socket_status absent = missing
helper_socket_status (inaccessible text) = unreachable text
