-- ===== src/Nix/Trust.antt =====
-- crates/drv-thru/src/nix.rs: signed binary caches, and whether Nix will trust an import from one.
pub mod Laws
mod Tests
use drv_thru.Base.{
  ℕ, Bool, true, false, not, ◌||◌, List, [], ◌∷◌, ◌++◌, Option, none, some, Result, ok, err, ◌>>=◌,
  ◌>>◌, bail_if, any, map, map_err, context, if◌then◌else◌,
}
use drv_thru.Text.{
  Text, codes, is_empty, text_eq, trim, lines, split_whitespace, split_once, contains,
  to_ascii_lowercase,
}
use drv_thru.TextMap.{member}
use drv_thru.Nix.StorePath.{StorePath, texts}
use drv_thru.Nix.Queries.{
  Programs, NixError, empty_key, empty_user, rejected, cache_rejected, failed, not_run, run_command,
  non_empty_lines, path_arg_chunk_size,
}
use drv_thru.Protocol.PathChunks.Chunks.{chunks}

pub data SignedCacheImportTrust : Type 0 where
  can_pass_public_key key_already_trusted : SignedCacheImportTrust

unfoldable pub current_uid_is_root : Programs → Result NixError Bool
unfolding run_command trim text_eq
current_uid_is_root run = do
  uid ← run_command run (codes "id") (codes "-u" ∷ [])
  ok (text_eq (trim uid) (codes "0"))

unfoldable pub current_user_name : Programs → Result NixError Text
unfolding run_command trim
current_user_name run = do
  user ← run_command run (codes "id") (codes "-un" ∷ [])
  bail_if (is_empty (trim user)) empty_user
  ok (trim user)

-- A set is the list of its members, with repetitions.
unfoldable pub current_group_names : Programs → Result NixError (List Text)
unfolding run_command split_whitespace
current_group_names run = do
  groups ← run_command run (codes "id") (codes "-Gn" ∷ [])
  ok (split_whitespace groups)

-- The variables of `parse_nix_config_values`.
pub record ConfigValues : Type 0 where
  pub values : List Text
  pub bare_lines : List Text
  pub saw_assignment : Bool
  pub saw_matching_assignment : Bool

abbrev pub config_line : Text → Text → Option (Text × Text) → ConfigValues → ConfigValues
config_line option line none c = record c { bare_lines = c.bare_lines ++ (line ∷ []) }
config_line option line (some (key, value)) c =
    if text_eq (trim key) option
    then record c {
      saw_assignment = true;
      saw_matching_assignment = true;
      values = c.values ++ split_whitespace value;
    }
    else record c { saw_assignment = true }

unfoldable pub config_lines : Text → List Text → ConfigValues → ConfigValues
unfolding split_once trim text_eq split_whitespace
config_lines option [] c = c
config_lines option (line ∷ rest) c =
    config_lines option rest (config_line option line (split_once b'=' line) c)

abbrev pub bare_values : List Text → List Text
bare_values [] = []
bare_values (line ∷ rest) = split_whitespace line ++ bare_values rest

abbrev pub close_values : ConfigValues → List Text
close_values c =
    if not c.saw_assignment || not c.saw_matching_assignment
    then c.values ++ bare_values c.bare_lines
    else c.values

unfoldable pub parse_nix_config_values : Text → Text → List Text
unfolding config_lines non_empty_lines lines split_whitespace
parse_nix_config_values output option = close_values (
    config_lines option (non_empty_lines (lines output)) (record {
      values = [];
      bare_lines = [];
      saw_assignment = false;
      saw_matching_assignment = false;
    }))

unfoldable pub nix_config_values : Programs → Text → Result NixError (List Text)
unfolding run_command parse_nix_config_values
nix_config_values run option = do
  output ← run_command run (codes "nix") (codes "config" ∷ codes "show" ∷ option ∷ [])
  ok (parse_nix_config_values output option)

unfoldable pub trusted_users_allow_user : List Text → Text → List Text → Bool
unfolding member
trusted_users_allow_user trusted_users user groups =
    member (codes "*") trusted_users
    || member user trusted_users
    || any (λ group. member (b'@' ∷ group) trusted_users) groups

-- The function of the same name in the source stands there for its tests.
unfoldable pub signed_cache_import_allowed :
    Bool → Text → List Text → List Text → List Text → Text → Bool
unfolding trusted_users_allow_user member trim
signed_cache_import_allowed is_root user groups trusted_users trusted_public_keys public_key =
    is_root
    || trusted_users_allow_user trusted_users user groups
    || member (trim public_key) trusted_public_keys

abbrev pub trust_by_key : Programs → Text → Result NixError SignedCacheImportTrust
trust_by_key run public_key = do
  trusted_public_keys ← nix_config_values run (codes "trusted-public-keys")
  bail_if (not (member public_key trusted_public_keys)) rejected
  ok key_already_trusted

abbrev pub trust_by_user : Programs → Text → Result NixError SignedCacheImportTrust
trust_by_user run public_key = do
  user ← current_user_name run
  groups ← current_group_names run
  trusted_users ← nix_config_values run (codes "trusted-users")
  if trusted_users_allow_user trusted_users user groups
      then ok can_pass_public_key
      else trust_by_key run public_key

unfoldable pub signed_cache_import_trust : Programs → Text → Result NixError SignedCacheImportTrust
unfolding trim current_uid_is_root current_user_name current_group_names nix_config_values
    trusted_users_allow_user member
signed_cache_import_trust run public_key = do
  bail_if (is_empty (trim public_key)) empty_key
  is_root ← current_uid_is_root run
  if is_root then ok can_pass_public_key else trust_by_user run (trim public_key)

-- Paths are texts here, so that `path_to_str` cannot fail.
abbrev pub secret_query : Option Text → Text
secret_query none = []
secret_query (some secret_key) =
    codes "?secret-key=" ++ secret_key ++ codes "&compression=zstd&compression-level=1"

unfoldable pub file_cache_url : Text → Option Text → Text
file_cache_url cache_dir secret_key = codes "file://" ++ cache_dir ++ secret_query secret_key

-- `run_nix_command`: the error text of a command that fails.
abbrev pub run_nix_command : Programs → List Text → Result NixError (Unit {0})
run_nix_command run args = do
  output ← context (run (codes "nix") args) not_run
  bail_if (not output.success) (failed output.stderr)
  ok tt

-- The commands that were run, in their order, and how the last one ended.
abbrev pub Issued : Type 0
Issued = List (List Text) × Result NixError (Unit {0})

abbrev pub issue : List Text → Result NixError (Unit {0}) → Issued → Issued
issue args (ok u) rest = (args ∷ rest.0, rest.1)
issue args (err e) rest = (args ∷ [], err e)

unfoldable pub is_signature_or_trust_error : Text → Bool
unfolding contains to_ascii_lowercase
is_signature_or_trust_error message =
    any (λ word. contains word (map to_ascii_lowercase message))
      (codes "signature"
        ∷ codes "trusted public"
        ∷ codes "trusted-public-keys"
        ∷ codes "trusted key"
        ∷ codes "public key"
        ∷ [])

abbrev pub explain : (NixError → Text) → NixError → NixError
explain show e = if is_signature_or_trust_error (show e) then cache_rejected (show e) else e

-- The loops over the chunks, with the arguments before the paths.
unfoldable pub copy_chunks :
    Programs → (NixError → NixError) → List Text → List (List StorePath) → Issued
copy_chunks run explained front [] = ([], ok tt)
copy_chunks run explained front (chunk ∷ rest) =
    let args = front ++ texts chunk in
    issue args (map_err explained (run_nix_command run args)) (copy_chunks run explained front rest)

unfoldable pub copy_to_signed_binary_cache : Programs → List StorePath → Text → Text → Issued
unfolding copy_chunks file_cache_url chunks
copy_to_signed_binary_cache run [] cache_dir secret_key = ([], ok tt)
copy_to_signed_binary_cache run (p ∷ paths) cache_dir secret_key =
    copy_chunks run (λ e. e)
      (codes "copy" ∷ codes "--to" ∷ file_cache_url cache_dir (some secret_key) ∷ [])
      (chunks path_arg_chunk_size (p ∷ paths))

abbrev pub key_options : SignedCacheImportTrust → Text → List Text
key_options key_already_trusted public_key = []
key_options can_pass_public_key public_key =
    codes "--option"
    ∷ codes "require-sigs"
    ∷ codes "true"
    ∷ codes "--option"
    ∷ codes "trusted-public-keys"
    ∷ public_key
    ∷ []

abbrev pub copy_from_front : Text → Text → SignedCacheImportTrust → List Text
copy_from_front cache_url public_key trust =
    codes "copy" ∷ codes "--from" ∷ cache_url ∷ key_options trust public_key

unfoldable pub copy_from_signed_binary_cache :
    Programs → (NixError → Text) → Text → Text → SignedCacheImportTrust → List StorePath → Issued
unfolding copy_chunks is_signature_or_trust_error trim chunks
copy_from_signed_binary_cache run show cache_url public_key trust [] = ([], ok tt)
copy_from_signed_binary_cache run show cache_url public_key trust (p ∷ paths) =
    if is_empty (trim public_key)
    then ([], err empty_key)
    else copy_chunks run (explain show) (copy_from_front cache_url (trim public_key) trust)
        (chunks path_arg_chunk_size (p ∷ paths))
