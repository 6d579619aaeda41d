-- ===== src/ClientCache/Tests.antt =====
-- The client's cache on concrete inputs: a builder with one path, whose NAR file has three bytes.
use drv_thru.Base.{
  ℕ, zero, suc, ◌≡◌, ◌≢◌, ◌≤◌, ◌↔◌, ◌⊎◌, inl, inr, refl, ap, length-append, reverse, Bool-cases,
  subst, true, false, List, [], ◌∷◌, Option, none, some, ok, err, arith, length, All, try_map,
  if◌then◌else◌,
}
use drv_thru.Text.{Text, codes, text_eq, contains}
use drv_thru.Nix.StorePath.{StorePath, new}
use drv_thru.Nix.Queries.{Programs}
use drv_thru.ImportHelper.{socket}
use drv_thru.Protocol.{Message, cache_file_request, cache_file_response}
use drv_thru.Protocol.{
  build_queued, missing_paths, build_finished, output_closure, output_cache_ready, done,
}
use drv_thru.Protocol.PathChunks.{Incoming}
use drv_thru.Protocol.PathChunks.RoundTrip.{arrived}
use drv_thru.Client.{ClientWorld, RemoteBuildResult, run_remote_build}
use drv_thru.Client.Build.Imported.{with_cache, ImportedFrom, run_remote_build-Imported}
use drv_thru.ClientCache.Http.{out_of_rounds, blank_line, enough_rounds, read_head}
use drv_thru.ClientCache.Http.Reading.{read_head-ends}
use drv_thru.ClientCache.Files.{Stat, stat_of, disk_of}
use drv_thru.ClientCache.LocalServer.{handle_local_cache_http}
use drv_thru.Cache.FilePath.{place_of}
use drv_thru.Text.Prefix.{text_eq_iff}
use drv_thru.ClientCache.LocalServer.Below.{LiesBelow, SameBelow, handle_local_cache_http-below}
use drv_thru.ClientCache.Mirror.{MirrorWorld, CacheStream, Mirrored, CacheProgress}
use drv_thru.ClientCache.Mirror.Tasks.{
  Outcome, running, ended, build, mirror_cache_files, copy_narinfos_of,
}
use drv_thru.ClientCache.Mirror.Runs.{OfTask, Mirrorable, mirror_cache_files_iff}
use drv_thru.ClientCache.Served.{PassesTask, local_on, build-PassesTask}
use drv_thru.ClientCache.Import.{
  OutputImportError, ImportWorld, import_outputs_from_cache, new_progress,
}
use drv_thru.ClientCache.Import.Outputs.{
  CopiedDirectly, CopiedByHelper, ServedTo, import_outputs_from_cache-imported,
}

abbrev hello : StorePath
hello = record { text = codes "/nix/store/00000000000000000000000000000000-hello" }

abbrev hello_narinfo : Text
hello_narinfo = codes "00000000000000000000000000000000.narinfo"

abbrev narinfo_text : Text
narinfo_text =
    codes "StorePath: /nix/store/00000000000000000000000000000000-hello\nURL: nar/a.nar\n"

abbrev nar_bytes : List ℕ
nar_bytes = 1 ∷ 2 ∷ 3 ∷ []

abbrev stream_of : List ℕ → CacheStream
stream_of bytes = record {
  sent = true;
  answer = some (ok (cache_file_response (record { found = true; byte_count = length bytes })));
  body = record { bytes = bytes; broken = false };
}

abbrev serve_path : Text → Option CacheStream
serve_path path =
    if text_eq path hello_narinfo
    then some (stream_of narinfo_text)
    else if text_eq path (codes "nar/a.nar")
    then some (stream_of nar_bytes)
    else none

abbrev serve_message : Message → Option CacheStream
serve_message (cache_file_request request) = serve_path request.path
serve_message message = none

abbrev builder : MirrorWorld
builder = record { open_bi = serve_message; from_utf8 = some; can_write = λ path. true }

abbrev last_first : ℕ → ℕ
last_first i = 7

abbrev made_of : Outcome Mirrored → Mirrored
made_of (ended (ok m)) = m
made_of other = record { files = []; progress = new_progress 0 0 0 }

abbrev start : CacheProgress
start = new_progress 1 1 8

abbrev built : Mirrored
unfolding build
built = made_of (build builder (codes "/tmp/c") last_first (hello ∷ []) (hello ∷ []) start)

builds :
    build builder (codes "/tmp/c") last_first (hello ∷ []) (hello ∷ []) start ≡ ended (ok built)
unfolding build built
builds = refl

build-PassesTask_example :
    (copy_narinfos : List Text) × (copy_narinfos_of (hello ∷ []) ≡ ok copy_narinfos)
    × All (OfTask (PassesTask builder (codes "/tmp/c") built.files) copy_narinfos) (hello ∷ [])
build-PassesTask_example =
    build-PassesTask builder (codes "/tmp/c") last_first (hello ∷ []) (hello ∷ []) start built
      builds

mirror_cache_files_iff_example :
    (mirror_cache_files builder (codes "/tmp/c") last_first (hello ∷ []) (hello_narinfo ∷ []) built
      ≢ running)
    × (((after : Mirrored) × (mirror_cache_files builder
              (codes "/tmp/c")
              last_first
              (hello ∷ [])
              (hello_narinfo ∷ [])
              built
            ≡ ended (ok after)))
        ↔ All (Mirrorable builder (codes "/tmp/c") (hello_narinfo ∷ [])) (hello ∷ []))
mirror_cache_files_iff_example =
    mirror_cache_files_iff builder (codes "/tmp/c") last_first (hello ∷ []) (hello_narinfo ∷ [])
      built

-- A request in two reads.
abbrev reads : ℕ → Option (List ℕ)
reads zero = some (codes "GET /00000000000000000000000000000000.narinfo HT")
reads (suc i) = some (codes "TP/1.1\r\n\r\n")

abbrev length_of : Option (List ℕ) → ℕ
length_of none = 0
length_of (some bytes) = length bytes

reads-fit : (i : ℕ) (chunk : List ℕ) → reads i ≡ some chunk → length chunk ≤ 1_024
reads-fit zero chunk h = subst (λ o. length_of o ≤ 1_024) h (omega arith)
reads-fit (suc i) chunk h = subst (λ o. length_of o ≤ 1_024) h (omega arith)

read_head-ends_example :
    (read_head reads enough_rounds 0 [] ≢ err out_of_rounds)
    × ((rounds : ℕ)
        → enough_rounds ≤ rounds
        → read_head reads rounds 0 [] ≡ read_head reads enough_rounds 0 [])
    × ((buf : List ℕ)
        → read_head reads enough_rounds 0 [] ≡ ok buf
        → (contains blank_line buf ≡ true) × (length buf ≤ 17_408))
read_head-ends_example = read_head-ends reads reads-fit

answered : (handle_local_cache_http some (local_on (codes "/tmp/c") built.files) reads).1 ≡ ok tt
unfolding handle_local_cache_http built disk_of
answered = refl

-- The disk with one more file, outside the directory.
abbrev secret_file : Text
secret_file = codes "/secret"

abbrev secret_stat : Stat
secret_stat = stat_of (some (1 ∷ []))

abbrev with_secret : Text → Stat
with_secret file = if text_eq file secret_file then secret_stat else disk_of built.files file

secret_differs : with_secret secret_file ≢ disk_of built.files secret_file
unfolding built disk_of
secret_differs e = cc

dir_depth : length (place_of (codes "/tmp/c")) ≡ 2
unfolding place_of drv_thru.Text.split text_eq
dir_depth = refl

secret_depth : length (place_of secret_file) ≡ 1
unfolding place_of drv_thru.Text.split text_eq
secret_depth = refl

secret_outside : LiesBelow (codes "/tmp/c") secret_file → ⊥
secret_outside (segments, full, are_segments, place) = omega (
  arith,
  dir_depth,
  secret_depth,
  length-append (reverse segments) (place_of (codes "/tmp/c")),
  ap length place,
)

same_below : SameBelow (codes "/tmp/c") (disk_of built.files) with_secret
same_below file below = elim (Bool-cases (text_eq file secret_file)) [
  | inl e ↦ absurd (
      secret_outside
        (subst (LiesBelow (codes "/tmp/c")) ((text_eq_iff file secret_file).0 e) below))
  | inr e ↦ rw e refl
]

handle_local_cache_http-below_example :
    handle_local_cache_http some (local_on (codes "/tmp/c") built.files) reads
    ≡ handle_local_cache_http some
        (record (local_on (codes "/tmp/c") built.files) { disk = with_secret })
        reads
handle_local_cache_http-below_example =
    handle_local_cache_http-below some (local_on (codes "/tmp/c") built.files) with_secret reads
      same_below

-- Root may import directly.
abbrev programs : Programs
programs program args = some (record { success = true; stdout = some (codes "0\n"); stderr = [] })

abbrev client : ImportWorld
client = record {
  run = programs;
  show = λ e. codes "failed";
  socket_file = socket;
  mirror = builder;
  dir = codes "/tmp/c";
  pick = last_first;
  fetches_variable = none;
  parallelism = some 4;
  local_url = some (codes "http://127.0.0.1:4000");
  connected = true;
  sent = true;
  response = none;
  shutdown = ok tt;
  cleanup = ok tt;
  bytes = 79;
}

abbrev builder_key : Text
builder_key = codes "cache-1:AAAA="

imports :
    import_outputs_from_cache client (hello.text ∷ []) builder_key (hello.text ∷ []) none ≡ ok 79
unfolding import_outputs_from_cache
imports = refl

import_outputs_from_cache-imported_example :
    (copy_paths : List StorePath) × (closure_paths : List StorePath) × (m : Mirrored) × (url : Text)
    × (try_map new (hello.text ∷ []) ≡ ok copy_paths)
    × (try_map new (hello.text ∷ []) ≡ ok closure_paths)
    × ServedTo client closure_paths copy_paths m
    × (client.local_url ≡ some url)
    × (CopiedDirectly client builder_key url copy_paths
        ⊎ CopiedByHelper client builder_key url copy_paths)
    × (client.shutdown ≡ ok tt)
    × (client.cleanup ≡ ok tt)
    × (◌≡◌ {A = ℕ} 79 client.bytes)
import_outputs_from_cache-imported_example =
    import_outputs_from_cache-imported client (hello.text ∷ []) builder_key (hello.text ∷ []) none
      79 imports

-- A session that imports over this cache.
abbrev session_client : ClientWorld
session_client = record {
  missing_paths = λ paths. ok paths;
  export_paths = λ paths. ok tt;
  import_outputs = λ closure paths. ok 0;
  request_ok = true;
  done_ok = true;
}

abbrev answers : List Incoming
answers = arrived (
    build_queued
    ∷ missing_paths (record { paths = []; done = true })
    ∷ build_finished (record { success = true; output_paths = hello.text ∷ [] })
    ∷ output_closure (record { paths = hello.text ∷ []; done = true })
    ∷ output_cache_ready (hello.text ∷ [])
    ∷ done
    ∷ [])

abbrev fetched : RemoteBuildResult
fetched = record {
  missing_path_count = 0;
  build_success = true;
  output_paths = hello.text ∷ [];
  received_bytes = 79;
}

abbrev show_import : OutputImportError → Text
show_import e = codes "failed"

fetches :
    run_remote_build (with_cache session_client client show_import builder_key none) answers
    ≡ ok fetched
unfolding run_remote_build import_outputs_from_cache
fetches = refl

run_remote_build-Imported_example :
    ImportedFrom session_client client show_import builder_key none answers fetched
run_remote_build-Imported_example =
    run_remote_build-Imported session_client client show_import builder_key none answers fetched
      fetches refl
