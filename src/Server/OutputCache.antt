-- ===== src/Server/OutputCache.antt =====
-- crates/drv-thru/src/server/output_cache.rs: which files of the output cache a client may read.
-- The disk is what a read of each path gives; `nix copy` and what other tasks do to the disk are
-- parameters.
pub mod Handler
pub mod Requested
pub mod Served
pub mod Allowed
pub mod Session
pub mod Answers
pub mod Kept
pub mod Fills
mod Tests
use drv_thru.Base.{
  ℕ, Bool, true, false, not, ◌||◌, List, [], ◌∷◌, ◌++◌, Option, none, some, Result, ok, err, ◌>>=◌,
  ◌>>◌, bail_if, context, map_err, any, if◌then◌else◌,
}
use drv_thru.Text.{
  Text, codes, text_eq, starts_with, ends_with, has_char, strip_suffix, split_once, lines,
}
use drv_thru.TextMap.{lookup, insert, member}
use drv_thru.Nix.StorePath.{StorePath, PathError, new, hash, texts}
use drv_thru.Cache.{
  CacheError, nix_cache_info, narinfo_suffix, nar_prefix, sanitize_cache_path, cache_file_path,
  narinfo_nar_path,
}
use drv_thru.Cache.FilePath.{join}
use drv_thru.Protocol.{CacheFileRequest}

-- A regular file: its bytes as a text (`none` where they are no UTF-8), their number, and whether
-- a copy of the body gets them all.
pub record File : Type 0 where
  pub text : Option Text
  pub byte_count : ℕ
  pub copied : Bool

pub data Entry : Type 0 where
  missing unreadable : Entry
  directory : ℕ → Entry
  regular : File → Entry

abbrev pub Disk : Type 0
Disk = Text → Entry

pub data OutputError : Type 0 where
  bad_path : PathError → OutputError
  bad_cache_path : CacheError → OutputError
  not_built not_narinfo invalid_narinfo unsupported_path : Text → OutputError
  read_failed short_read bad_signing_key not_utf8 not_ready fill_failed stale_kept bad_hash :
      OutputError

-- `OutputCache`, without its locks.
pub record OutputCache : Type 0 where
  pub dir : Text
  pub public_key : Text

-- `requested_output_paths`: the loop, with what it has seen. `allowed` holds the texts of the
-- closure.
unfoldable pub request_loop :
    List Text → List Text → List StorePath → List Text → Result OutputError (List StorePath)
unfolding new member
request_loop allowed seen requested [] = ok requested
request_loop allowed seen requested (text ∷ request) = map_err bad_path (new text) >>= λ path.
    bail_if (not (member path.text allowed)) (not_built path.text) >>= λ _.
    if member path.text seen
    then request_loop allowed seen requested request
    else request_loop allowed (path.text ∷ seen) (requested ++ (path ∷ [])) request

unfoldable pub requested_output_paths :
    List Text → List StorePath → Result OutputError (List StorePath)
unfolding request_loop
requested_output_paths request allowed_paths = request_loop (texts allowed_paths) [] [] request

-- `hash` gives none on no path that `new` made.
abbrev pub insert_hashed :
    Option Text → StorePath → List (Text × StorePath) → List (Text × StorePath)
insert_hashed none path by_hash = by_hash
insert_hashed (some h) path by_hash = insert h path by_hash

unfoldable pub collect_by_hash : List (Text × StorePath) → List StorePath → List (Text × StorePath)
unfolding insert hash
collect_by_hash by_hash [] = by_hash
collect_by_hash by_hash (path ∷ paths) =
    collect_by_hash (insert_hashed (hash path) path by_hash) paths

unfoldable pub output_cache_allowed_paths : List StorePath → List (Text × StorePath)
unfolding collect_by_hash
output_cache_allowed_paths paths = collect_by_hash [] paths

unfoldable pub map_narinfo_to_allowed_store_path :
    Text → List (Text × StorePath) → Result OutputError (Option StorePath)
unfolding strip_suffix has_char lookup
map_narinfo_to_allowed_store_path path allowed = do
  h ← context (strip_suffix narinfo_suffix path) (not_narinfo path)
  bail_if (has_char b'/' path) (invalid_narinfo path)
  ok (lookup h allowed)

unfoldable pub narinfo_has_signature_name : Option Text → Text → Result OutputError Bool
unfolding split_once starts_with lines
narinfo_has_signature_name bytes public_key = do
  (name, rest) ← context (split_once b':' public_key) bad_signing_key
  text ← context bytes not_utf8
  ok (any (starts_with (codes "Sig: " ++ name ++ codes ":")) (lines text))

abbrev pub cache_file_exists : Entry → Result OutputError Bool
cache_file_exists missing = ok false
cache_file_exists unreadable = err read_failed
cache_file_exists (directory n) = ok false
cache_file_exists (regular f) = ok true

abbrev pub nar_ready : OutputCache → Disk → Option Text → Result OutputError Bool
nar_ready cache disk none = ok false
nar_ready cache disk (some nar_path) = do
  path ← map_err bad_cache_path (cache_file_path cache.dir nar_path)
  cache_file_exists (disk path)

abbrev pub entry_ready : OutputCache → Disk → Entry → Result OutputError Bool
entry_ready cache disk missing = ok false
entry_ready cache disk unreadable = err read_failed
entry_ready cache disk (directory n) = err read_failed
entry_ready cache disk (regular f) =
    narinfo_has_signature_name f.text cache.public_key >>= λ signed.
    if signed
    then map_err bad_cache_path (narinfo_nar_path f.text) >>= nar_ready cache disk
    else ok false

unfoldable pub cache_entry_ready : OutputCache → Disk → Text → Result OutputError Bool
unfolding narinfo_has_signature_name narinfo_nar_path cache_file_path
cache_entry_ready cache disk narinfo_path = entry_ready cache disk (disk narinfo_path)

-- What is outside during one call: what other tasks do to the disk while it waits for the lock of
-- the entry, the removal of a stale narinfo file (`none`: it fails), and `nix copy`.
pub record Outside : Type 0 where
  pub others : Disk → Disk
  pub remove_stale : Text → Disk → Option Disk
  pub copy_to_cache : StorePath → Disk → Option Disk

-- The fill, under the lock of the entry.
unfoldable pub fill_entry :
    Outside → OutputCache → StorePath → Text → Disk → Result OutputError Disk
unfolding cache_entry_ready
fill_entry outside cache path narinfo_path disk = do
  removed ← context (outside.remove_stale narinfo_path disk) stale_kept
  filled ← context (outside.copy_to_cache path removed) fill_failed
  ready ← cache_entry_ready cache filled narinfo_path
  bail_if (not ready) not_ready
  ok filled

-- A ready entry is used as it is.
abbrev pub unless_ready : Bool → Disk → Result OutputError Disk → Result OutputError Disk
unless_ready true disk fill = ok disk
unless_ready false disk fill = fill

unfoldable pub again_under_lock :
    Outside → OutputCache → StorePath → Text → Disk → Result OutputError Disk
unfolding cache_entry_ready fill_entry
again_under_lock outside cache path narinfo_path disk = do
  ready ← cache_entry_ready cache disk narinfo_path
  unless_ready ready disk (fill_entry outside cache path narinfo_path disk)

-- `ensure_cache_entry`: the entry is looked at before the lock and again under it.
unfoldable pub ensure_cache_entry :
    Outside → OutputCache → Disk → StorePath → Result OutputError Disk
unfolding cache_entry_ready again_under_lock hash join
ensure_cache_entry outside cache disk path = do
  h ← context (hash path) bad_hash
  let narinfo_path = join cache.dir (h ++ narinfo_suffix)
  ready ← cache_entry_ready cache disk narinfo_path
  unless_ready ready disk (again_under_lock outside cache path narinfo_path (outside.others disk))
