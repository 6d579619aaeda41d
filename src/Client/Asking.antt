-- ===== src/Client/Asking.antt =====
-- crates/drv-thru/src/client/session.rs and server/connection.rs: a client's build request, read by
-- a server.
use drv_thru.Base.{
  ◌≡◌, ◌≢◌, ◌≤◌, ◌*◌, refl, Bool, List, [], ◌∷◌, ◌++◌, Option, some, ok, arith, All, length, true,
}
use drv_thru.Text.{Text}
use drv_thru.Nix.StorePath.{StorePath, texts}
use drv_thru.Nix.StorePath.Laws.{IsStorePath}
use drv_thru.Nix.StorePath.Lists.{IsStorePath-make, texts-try_map}
use drv_thru.Protocol.{Message, OutputMode, build_request, build_paths}
use drv_thru.Protocol.Wire.{Bytes}
use drv_thru.Protocol.PathChunks.{Incoming, byte_count, of_build_paths, chunk_messages, write}
use drv_thru.Protocol.PathChunks.RoundTrip.{arrived, path_list_read, Fits, send_row-Fits}
use drv_thru.Server.Build.Requests.{CheckedBuildRequest, with_drv, check_build_request}
use drv_thru.Server.Connection.{read_build_or_report, read_checked_build, read_build_paths}
use drv_thru.Server.Session.{Event, World, path_error, path_list_limits, read_message}
use drv_thru.Client.{PreparedBuild, request_of, send_build_request}
use drv_thru.Client.Welcome.{wrote}

-- What the server makes of the request.
abbrev pub checked_of :
    Text → List StorePath → StorePath → List StorePath → OutputMode → Bool → CheckedBuildRequest
checked_of installable outputs drv closure output_mode rebuild = record {
  installable = installable;
  drv_path = drv;
  output_mode = output_mode;
  rebuild = rebuild;
  closure_paths = with_drv drv closure;
  output_paths = outputs;
}

abbrev pub prepared_of : StorePath → List StorePath → PreparedBuild
prepared_of drv closure = record { drv_path = drv; closure_path_strings = texts closure }

request_checked :
    (installable : Text) (outputs : List StorePath) (drv : StorePath) (closure : List StorePath)
    (output_mode : OutputMode) (rebuild : Bool)
    → outputs ≢ []
    → All IsStorePath (texts outputs)
    → IsStorePath drv.text
    → All IsStorePath (texts closure)
    → check_build_request
        (request_of installable (texts outputs) (prepared_of drv closure) output_mode rebuild)
        (texts closure)
      ≡ ok (checked_of installable outputs drv closure output_mode rebuild)
unfolding check_build_request
request_checked installable [] drv closure output_mode rebuild n o d c = absurd (n refl)
request_checked installable (p ∷ outputs) drv closure output_mode rebuild n o d c =
    rw
      (
        IsStorePath-make path_error drv d,
        texts-try_map path_error (p ∷ outputs) o,
        texts-try_map path_error closure c,
      )
      refl

-- The messages of the request.
abbrev pub request_messages : Text → List Text → PreparedBuild → OutputMode → Bool → List Message
request_messages installable output_paths prepared output_mode rebuild =
    build_request (request_of installable output_paths prepared output_mode rebuild)
    ∷ chunk_messages prepared.closure_path_strings build_paths

pub sent_whole :
    (encode : Message → Option Bytes) (installable : Text) (output_paths : List Text)
    (prepared : PreparedBuild) (output_mode : OutputMode) (rebuild : Bool)
    → All (Fits encode) (request_messages installable output_paths prepared output_mode rebuild)
    → send_build_request encode installable output_paths prepared output_mode rebuild
      ≡ (request_messages installable output_paths prepared output_mode rebuild, true)
unfolding send_build_request write
sent_whole encode installable output_paths prepared output_mode rebuild (first, others) =
    rw
      (
        send_row-Fits encode
            (build_request (request_of installable output_paths prepared output_mode rebuild) ∷ [])
            (first, tt),
        send_row-Fits encode (chunk_messages prepared.closure_path_strings build_paths) others,
      )
      refl

pub request_read :
    (world : World) (installable : Text) (outputs : List StorePath) (drv : StorePath)
    (closure : List StorePath) (output_mode : OutputMode) (rebuild : Bool) (rest : List Incoming)
    (writes : List Bool) (log : List Event)
    → outputs ≢ []
    → All IsStorePath (texts outputs)
    → IsStorePath drv.text
    → All IsStorePath (texts closure)
    → length (texts closure) ≤ 100_000
    → byte_count (texts closure) ≤ 16 * 1024 * 1024
    → read_build_or_report world (
        wrote
          (arrived (
              request_messages installable
                (texts outputs)
                (prepared_of drv closure)
                output_mode
                rebuild)
            ++ rest)
          writes
          log)
      ≡ (
        ok (some (checked_of installable outputs drv closure output_mode rebuild)),
        wrote rest writes log,
      )
unfolding read_build_or_report read_message read_checked_build read_build_paths
request_read world installable outputs drv closure output_mode rebuild rest writes log n o d c few
      small =
    let read =
      path_list_read of_build_paths path_list_limits (texts closure) rest (omega arith)
        (omega arith) (omega arith) few small in
    rw (read, request_checked installable outputs drv closure output_mode rebuild n o d c) refl
