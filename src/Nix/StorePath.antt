-- ===== src/Nix/StorePath.antt =====
-- `StorePath` and `validate_store_path` of crates/drv-thru/src/nix.rs.
pub mod Laws
pub mod Lists
mod Tests
use drv_thru.Base.{
  ℕ, Bool, true, false, not, ◌||◌, List, [], ◌∷◌, Option, none, some, Result, ok, err, ◌>>=◌, ◌>>◌,
  bail_if, ◌==◌, all,
}
use drv_thru.Text.{
  Text, codes, len, is_empty, strip_prefix, split_once, has_char, is_ascii_alphanumeric,
}

abbrev pub store_prefix : Text
store_prefix = codes "/nix/store/"

abbrev pub hash_len : ℕ
hash_len = 32

abbrev pub nix_base32 : Text
nix_base32 = codes "0123456789abcdfghijklmnpqrsvwxyz"

-- The four messages of `validate_store_path`, each with the path.
pub data PathError : Type 0 where
  not_store_path invalid_store_path invalid_hash invalid_name : Text → PathError

-- The constructor is private in the source: only `new` makes one.
pub record StorePath : Type 0 where
  pub text : Text

-- The paths of a list as texts.
abbrev pub texts : List StorePath → List Text
texts [] = []
texts (p ∷ paths) = p.text ∷ texts paths

unfoldable pub valid_store_name_char : ℕ → Bool
valid_store_name_char c =
    is_ascii_alphanumeric c
    || c == b'+'
    || c == b'-'
    || c == b'.'
    || c == b'_'
    || c == b'?'
    || c == b'='

-- `c` is one of the characters of `NIX_BASE32`.
unfoldable pub base32_char : ℕ → Bool
unfolding has_char
base32_char c = has_char c nix_base32

check_parts : Text → Option (Text × Text) → Result PathError (Unit {0})
check_parts path none = err (invalid_store_path path)
check_parts path (some (hash, name)) = do
  bail_if (not (len hash == hash_len) || not (all base32_char hash)) (invalid_hash path)
  bail_if (is_empty name || not (all valid_store_name_char name)) (invalid_name path)
  ok tt

check_rest : Text → Option Text → Result PathError (Unit {0})
unfolding check_parts
check_rest path none = err (not_store_path path)
check_rest path (some rest) = check_parts path (split_once b'-' rest)

unfoldable pub validate_store_path : Text → Result PathError (Unit {0})
unfolding check_rest strip_prefix split_once len base32_char valid_store_name_char
validate_store_path path = check_rest path (strip_prefix store_prefix path)

-- `StorePath::new`.
unfoldable pub new : Text → Result PathError StorePath
unfolding validate_store_path
new path = do validate_store_path path; ok (record { text = path })

abbrev hash_part : Option (Text × Text) → Option Text
hash_part none = none
hash_part (some (hash, name)) = some hash

abbrev hash_of_rest : Option Text → Option Text
hash_of_rest none = none
hash_of_rest (some rest) = hash_part (split_once b'-' rest)

-- `StorePath::hash`; `none` is a panic of one of its two `expect`s.
unfoldable pub hash : StorePath → Option Text
unfolding strip_prefix split_once
hash p = hash_of_rest (strip_prefix store_prefix p.text)
