-- ===== src/Client/Build/Tests.antt =====
-- crates/drv-thru/src/client/session.rs: a build of an output that is not there.
use drv_thru.Base.{refl, true, false, List, [], ◌∷◌, none, some, ok}
use drv_thru.Text.{Text, codes}
use drv_thru.Nix.Queries.{Programs}
use drv_thru.Protocol.{OutputMode, auth_ok}
use drv_thru.Protocol.PathChunks.{Incoming}
use drv_thru.ImportHelper.{socket}
use drv_thru.ClientCache.Import.{ImportWorld}
use drv_thru.Client.{trusted_client, ClientWorld}
use drv_thru.Client.Build.{BuildArgs, BuildWorld, build}
use drv_thru.Client.Build.Writes.{Asks}
use drv_thru.Client.Build.Asked.{Asked, build-Asked}

abbrev drv : Text
drv = codes "/nix/store/00000000000000000000000000000000-hello.drv"

abbrev out : Text
out = codes "/nix/store/11111111111111111111111111111111-hello"

abbrev programs : Programs
programs program args = some (record { success = true; stdout = some drv; stderr = [] })

abbrev client : ClientWorld
client = record {
  missing_paths = λ paths. ok paths;
  export_paths = λ paths. ok tt;
  import_outputs = λ closure paths. ok 12;
  request_ok = true;
  done_ok = true;
}

abbrev answers : List Incoming
answers = ok (auth_ok (record { client_name = none; builder_public_key = codes "key" })) ∷ []

-- The helper's socket answers, so that the import may go over it.
abbrev cache : ImportWorld
cache = record {
  run = programs;
  show = λ e. codes "failed";
  socket_file = socket;
  mirror = record { open_bi = λ message. none; from_utf8 = some; can_write = λ path. true };
  dir = codes "/tmp/c";
  pick = λ i. i;
  fetches_variable = none;
  parallelism = some 4;
  local_url = some (codes "http://127.0.0.1:4000");
  connected = true;
  sent = true;
  response = none;
  shutdown = ok tt;
  cleanup = ok tt;
  bytes = 12;
}

abbrev world : BuildWorld
world = record {
  run = programs;
  parse_plan = λ text. some (((codes "out", out) ∷ []) ∷ []);
  node_id = codes "seven";
  opened = some answers;
  hello_ok = true;
  request_ok = true;
  encode = λ message. some [];
  cache = cache;
  client = λ key. client;
}

abbrev args : BuildArgs
args = record {
  installable = codes "nixpkgs#hello";
  auth = some trusted_client;
  output_mode = OutputMode.plain;
  options = record { impure = false; refresh = false; override_inputs = [] };
  rebuild = false;
}

asked : Asks (build world args)
unfolding build
asked = refl

build-Asked_example : Asked world args
build-Asked_example = build-Asked world args asked
