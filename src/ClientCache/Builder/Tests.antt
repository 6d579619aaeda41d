-- ===== src/ClientCache/Builder/Tests.antt =====
-- A mirror and a builder with one path, whose NAR file has three bytes.
use drv_thru.Base.{
  ℕ, ◌≡◌, refl, true, false, List, [], ◌∷◌, Option, none, some, ok, length, if◌then◌else◌,
}
use drv_thru.Text.{Text, codes, text_eq, ends_with}
use drv_thru.TextMap.{insert}
use drv_thru.Nix.StorePath.{StorePath}
use drv_thru.Cache.{narinfo_suffix}
use drv_thru.Cache.FilePath.{join}
use drv_thru.Protocol.{Message, cache_file_request, cache_file_response}
use drv_thru.Server.OutputCache.{
  File, missing, regular, Disk, OutputCache, Outside, output_cache_allowed_paths,
}
use drv_thru.Server.OutputCache.Handler.{Serving, Reply, sends, handle_cache_file}
use drv_thru.Server.OutputCache.Session.{Step, attempt, run, opened}
use drv_thru.ClientCache.Mirror.{
  MirrorWorld, CacheStream, Mirrored, mirror_narinfo, mirror_nar, record_cache_file,
}
use drv_thru.ClientCache.Mirror.Fetches.{with_file}
use drv_thru.ClientCache.Builder.{Streams, nar-fetched}

abbrev hello : StorePath
hello = record { text = codes "/nix/store/00000000000000000000000000000000-hello" }

abbrev narinfo : Text
narinfo = codes "00000000000000000000000000000000.narinfo"

abbrev nar : Text
nar = codes "nar/a.nar"

abbrev info_text : Text
info_text = codes "URL: nar/a.nar\nSig: key:abc\n"

abbrev info_file : File
info_file = record { text = some info_text; byte_count = length info_text; copied = true }

abbrev nar_bytes : List ℕ
nar_bytes = 1 ∷ 2 ∷ 3 ∷ []

abbrev nar_file : File
nar_file = record { text = some nar_bytes; byte_count = 3; copied = true }

abbrev disk : Disk
disk path =
    if text_eq path (codes "c/00000000000000000000000000000000.narinfo")
    then regular info_file
    else if text_eq path (codes "c/nar/a.nar")
    then regular nar_file
    else missing

abbrev cache : OutputCache
cache = record { dir = codes "c"; public_key = codes "key:xyz" }

abbrev outside : Outside
outside = record { others = λ d. d; remove_stale = λ p d. some d; copy_to_cache = λ p d. none }

abbrev asks : Text → Step
asks path = record {
  found_disk = disk;
  ensure_info = λ d. some d;
  outside = outside;
  request = record { path = path; send_body = true };
}

abbrev stream_of : List ℕ → CacheStream
stream_of bytes = record {
  sent = true;
  answer = some (ok (cache_file_response (record { found = true; byte_count = length bytes })));
  body = record { bytes = bytes; broken = false };
}

abbrev stream_at : Text → Option CacheStream
stream_at path =
    if text_eq path narinfo
    then some (stream_of info_text)
    else if text_eq path nar
    then some (stream_of nar_bytes)
    else none

abbrev answer_to : Message → Option CacheStream
answer_to (cache_file_request request) = stream_at request.path
answer_to message = none

abbrev builder : MirrorWorld
builder = record { open_bi = answer_to; from_utf8 = some; can_write = λ path. true }

abbrev start : Mirrored
start = record {
  files = [];
  progress = record {
    metadata_seen = [];
    payload_seen = [];
    metadata_total = 1;
    payload_total = 1;
    nar_fetches = 8;
  };
}

abbrev with_nar : Serving
with_nar = record {
  disk = disk;
  paths_by_hash = (codes "00000000000000000000000000000000", hello) ∷ [];
  allowed_nar_paths = nar ∷ [];
}

abbrev info_reply : Reply
info_reply = sends narinfo (length info_text) (some (some info_text))

answered : attempt cache (asks narinfo) (opened disk (hello ∷ [])) ≡ ok (with_nar, info_reply)
unfolding handle_cache_file output_cache_allowed_paths
answered = refl

streams : Streams builder narinfo info_reply
unfolding text_eq
streams = record {
  stream = stream_of info_text;
  opened = refl;
  asked = refl;
  brings = (refl, refl, refl);
}

nar_answer : Streams builder nar (sends nar 3 (some (some nar_bytes)))
unfolding text_eq
nar_answer = record {
  stream = stream_of nar_bytes;
  opened = refl;
  asked = refl;
  brings = (refl, refl, refl);
}

mirrored :
    mirror_narinfo builder (codes "m") narinfo true start
    ≡ ok (some nar, with_file narinfo (join (codes "m") narinfo) info_text start)
unfolding mirror_narinfo join text_eq record_cache_file insert
mirrored = refl

is_narinfo : ends_with narinfo_suffix narinfo ≡ true
unfolding ends_with
is_narinfo = refl

lies : disk (join cache.dir nar) ≡ regular nar_file
unfolding join text_eq
lies = refl

nar-fetched_example :
    (attempt cache (asks nar) (run cache (asks narinfo ∷ asks narinfo ∷ []) with_nar)
      ≡ ok (
        record (run cache (asks narinfo ∷ asks narinfo ∷ []) with_nar) { disk = disk },
        sends nar 3 (some (some nar_bytes)),
      ))
    × ((bytes : List ℕ) × (length bytes ≡ 3)
        × (builder.from_utf8 bytes ≡ some nar_bytes)
        × (mirror_nar builder (codes "m") nar start
            ≡ ok (with_file nar (join (codes "m") nar) bytes start)))
nar-fetched_example =
    nar-fetched cache builder (codes "m") narinfo nar (asks narinfo) (opened disk (hello ∷ []))
      with_nar info_reply start (with_file narinfo (join (codes "m") narinfo) info_text start)
      is_narinfo refl answered streams mirrored (asks narinfo ∷ asks narinfo ∷ []) (asks nar)
      nar_file start refl lies refl nar_answer refl
