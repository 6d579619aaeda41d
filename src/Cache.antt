-- ===== src/Cache.antt =====
-- crates/drv-thru/src/cache.rs: which paths of a binary cache are served, and where they lie.
pub mod FilePath
pub mod Segments
pub mod Names
pub mod Laws
pub mod Place
pub mod Injective
pub mod Narinfo
mod Tests
use drv_thru.Base.{
  ℕ, Bool, true, false, not, ◌&&◌, ◌||◌, List, [], ◌∷◌, Option, none, some, Result, ok, err, ◌>>=◌,
  ◌>>◌, bail_if, ◌==◌, all, if◌then◌else◌,
}
use drv_thru.Text.{
  Text, codes, len, is_empty, text_eq, strip_prefix, strip_suffix, starts_with, ends_with, has_char,
  contains, split_once, rsplit_once, split, last_part, is_ascii_alphanumeric, lines, trim,
}
use drv_thru.Nix.StorePath.{base32_char}
use FilePath.{join, extension}

-- The messages of the module, each with the path that it shows.
pub data CacheError : Type 0 where
  not_absolute_target invalid_cache_path invalid_narinfo invalid_nar unsupported not_nar_url :
      Text → CacheError
  not_utf8 : CacheError

abbrev pub nix_cache_info : Text
nix_cache_info = codes "nix-cache-info"

abbrev pub narinfo_suffix : Text
narinfo_suffix = codes ".narinfo"

abbrev pub nar_prefix : Text
nar_prefix = codes "nar/"

unfoldable pub valid_cache_file_char : ℕ → Bool
valid_cache_file_char c =
    is_ascii_alphanumeric c || c == b'-' || c == b'_' || c == b'.' || c == b'+' || c == b'='

-- `NIX_BASE32` of this file is the constant of nix.rs.
unfoldable pub valid_narinfo_stem : Text → Bool
unfolding len base32_char
valid_narinfo_stem stem = len stem == 32 && all base32_char stem

-- The closure in `valid_relative_segments`.
unfoldable pub valid_segment : Text → Bool
unfolding text_eq valid_cache_file_char
valid_segment segment =
    not (is_empty segment)
    && not (text_eq segment (codes "."))
    && not (text_eq segment (codes ".."))
    && all valid_cache_file_char segment

unfoldable pub valid_relative_segments : Text → Bool
unfolding valid_segment starts_with ends_with split
valid_relative_segments path =
    not (is_empty path)
    && not (starts_with (codes "/") path)
    && not (ends_with (codes "/") path)
    && all valid_segment (split b'/' path)

abbrev pub is_nar : Option Text → Bool
is_nar none = false
is_nar (some ext) = text_eq ext (codes "nar")

unfoldable pub valid_nar_file_name : Text → Bool
unfolding last_part split text_eq contains extension
valid_nar_file_name path =
    let file_name = last_part (split b'/' path) in
    is_nar (extension file_name) || contains (codes ".nar.") file_name

pub sanitize_nar : Text → Option Text → Result CacheError Text
sanitize_nar path none = err (unsupported path)
sanitize_nar path (some rest) =
    if valid_relative_segments rest && valid_nar_file_name rest
    then ok path
    else err (invalid_nar path)

pub sanitize_suffix : Text → Option Text → Result CacheError Text
unfolding sanitize_nar
sanitize_suffix path (some stem) =
    if not (has_char b'/' path) && valid_narinfo_stem stem
    then ok path
    else err (invalid_narinfo path)
sanitize_suffix path none = sanitize_nar path (strip_prefix nar_prefix path)

unfoldable pub sanitize_cache_path : Text → Result CacheError Text
unfolding text_eq starts_with has_char strip_suffix strip_prefix sanitize_suffix valid_narinfo_stem
    valid_relative_segments valid_nar_file_name
sanitize_cache_path path = if text_eq path nix_cache_info then ok path else do
  bail_if (starts_with (codes "/") path || has_char b'\\' path) (invalid_cache_path path)
  sanitize_suffix path (strip_suffix narinfo_suffix path)

-- The part of an HTTP target before its first `?`.
abbrev before_query : Text → Option (Text × Text) → Text
before_query target none = target
before_query target (some (path, query)) = path

abbrev after_slash : Text → Option Text → Result CacheError Text
after_slash target none = err (not_absolute_target target)
after_slash target (some path) = sanitize_cache_path path

unfoldable pub sanitize_http_cache_path : Text → Result CacheError Text
unfolding split_once strip_prefix sanitize_cache_path
sanitize_http_cache_path target =
    after_slash target (strip_prefix (codes "/") (before_query target (split_once b'?' target)))

unfoldable pub cache_file_path : Text → Text → Result CacheError Text
unfolding sanitize_cache_path join
cache_file_path cache_dir path = do path' ← sanitize_cache_path path; ok (join cache_dir path')

abbrev check_nar_url : Text → Result CacheError (Option Text)
check_nar_url path = do
  bail_if (not (starts_with nar_prefix path)) (not_nar_url path)
  ok (some path)

-- The loop over the lines: the first line that begins with `URL:` decides.
unfoldable pub nar_path_of_lines : List Text → Result CacheError (Option Text)
nar_path_of_lines [] = ok none
nar_path_of_lines (line ∷ rest) = elim (strip_prefix (codes "URL:") line) [
  | none ↦ nar_path_of_lines rest
  | some url ↦ sanitize_cache_path (trim url) >>= check_nar_url
]

-- The text is that of the bytes, `none` where they are no UTF-8.
unfoldable pub narinfo_nar_path : Option Text → Result CacheError (Option Text)
unfolding nar_path_of_lines sanitize_cache_path strip_prefix starts_with trim lines
narinfo_nar_path none = err not_utf8
narinfo_nar_path (some text) = nar_path_of_lines (lines text)
