-- ===== src/Client/Opening.antt =====
-- crates/drv-thru/src/client/session.rs and server/connection.rs: what a client writes up to its build
-- request, read by a server.
use drv_thru.Base.{
  ◌≡◌, ◌≢◌, ◌≤◌, ◌*◌, refl, ap, Bool, List, [], ◌∷◌, ◌++◌, Option, some, ok, All, length, true,
}
use drv_thru.Text.{Text}
use drv_thru.Nix.StorePath.{StorePath, texts}
use drv_thru.Nix.StorePath.Laws.{IsStorePath}
use drv_thru.Protocol.{Message, OutputMode, AuthOk, auth_ok}
use drv_thru.Protocol.Wire.{Bytes}
use drv_thru.Protocol.PathChunks.{Incoming, Sent, byte_count, send_row}
use drv_thru.Protocol.PathChunks.RoundTrip.{arrived, Fits, send_row-Fits}
use drv_thru.Server.Auth.{AuthorizedConnection, authorize_connection}
use drv_thru.Server.Build.Requests.{CheckedBuildRequest}
use drv_thru.Server.Connection.{read_hello, read_build_or_report}
use drv_thru.Server.Session.{sends, World, Session}
use drv_thru.Client.{
  BuildAuth, PreparedBuild, write_hello, write_auth, then_send, send_build_request, read_auth_ok,
}
use drv_thru.Client.Welcome.{Welcome, wrote, hello_read, auth_read}
use drv_thru.Client.Asking.{checked_of, prepared_of, request_messages, sent_whole, request_read}

-- What the server does with the opening of a client, up to the checked request: its sessions behind
-- each step, and the one message that it has sent, in which the client finds the server's key.
abbrev pub Opened : World → List Message → List Incoming → CheckedBuildRequest → Type 0
Opened world messages rest b =
    (a : AuthorizedConnection) × (answer : AuthOk) × (greeted : Session) × (authed : Session)
    × (asked : Session) × (read_hello world
          (record { recv = arrived messages ++ rest; writes = true ∷ []; log = [] })
        ≡ (ok tt, greeted))
    × (authorize_connection world greeted ≡ (ok (some a), authed))
    × (read_build_or_report world authed ≡ (ok (some b), asked))
    × (asked.recv ≡ rest)
    × (asked.log ≡ sends (auth_ok answer) ∷ [])
    × (read_auth_ok (ok (auth_ok answer) ∷ []) ≡ ok (world.builder_public_key, []))

-- What the client writes up to its request.
abbrev pub opening_of :
    (Message → Option Bytes)
    → Text
    → BuildAuth
    → Text
    → List Text
    → PreparedBuild
    → OutputMode
    → Bool
    → Sent
opening_of encode node_id auth installable output_paths prepared output_mode rebuild =
    then_send (send_row encode (write_hello node_id ∷ write_auth auth ∷ []))
      (send_build_request encode installable output_paths prepared output_mode rebuild)

-- All of it is written, and the server takes it.
abbrev pub SentAndOpened : World → Sent → List Incoming → CheckedBuildRequest → Type 0
SentAndOpened world sent rest b = (sent.1 ≡ true) × Opened world sent.0 rest b

key_read :
    (world : World) (answer : AuthOk)
    → answer.builder_public_key ≡ world.builder_public_key
    → read_auth_ok (ok (auth_ok answer) ∷ []) ≡ ok (world.builder_public_key, [])
unfolding read_auth_ok
key_read world answer e = ap (λ k. ok (k, [])) e

-- A client and a server understand each other: where iroh reads the client's id back as the peer,
-- the server trusts the client or accepts its ticket and can read its limits, the client asks
-- for at least one output with a closure within the server's limits, and each of the client's
-- messages is within the limit of a frame, the client writes all of them, and the server takes exactly
-- these off the stream, sends `auth_ok` with its key, which the client reads, and comes to the checked
-- request with the client's outputs, derivation and closure.
pub opening-Opened :
    (encode : Message → Option Bytes) (world : World) (node_id installable : Text)
    (auth : BuildAuth) (outputs : List StorePath) (drv : StorePath) (closure : List StorePath)
    (output_mode : OutputMode) (rebuild : Bool) (rest : List Incoming)
    → world.iroh.parse_id node_id ≡ some world.peer
    → Welcome world auth
    → outputs ≢ []
    → All IsStorePath (texts outputs)
    → IsStorePath drv.text
    → All IsStorePath (texts closure)
    → length (texts closure) ≤ 100_000
    → byte_count (texts closure) ≤ 16 * 1024 * 1024
    → All (Fits encode) (write_hello node_id ∷ write_auth auth ∷ [])
    → All
        (Fits encode)
        (request_messages installable (texts outputs) (prepared_of drv closure) output_mode rebuild)
    → SentAndOpened world
        (opening_of encode node_id auth installable
          (texts outputs)
          (prepared_of drv closure)
          output_mode
          rebuild)
        rest
        (checked_of installable outputs drv closure output_mode rebuild)
opening-Opened encode world node_id installable auth outputs drv closure output_mode rebuild rest id
      w n o d c few small hellos fit =
    let request =
      arrived
        (request_messages installable (texts outputs) (prepared_of drv closure) output_mode rebuild)
      ++ rest in
    let (a, answer, key, authorised) = auth_read world auth request [] [] w in
    rw
      (
        send_row-Fits encode (write_hello node_id ∷ write_auth auth ∷ []) hellos,
        sent_whole encode installable (texts outputs) (prepared_of drv closure) output_mode rebuild
            fit,
      )
      (
        refl,
        (
          a,
          answer,
          wrote (ok (write_auth auth) ∷ request) (true ∷ []) [],
          wrote request [] (sends (auth_ok answer) ∷ []),
          wrote rest [] (sends (auth_ok answer) ∷ []),
          hello_read world node_id (ok (write_auth auth) ∷ request) (true ∷ []) [] id,
          authorised,
          request_read world installable outputs drv closure output_mode rebuild rest []
              (sends (auth_ok answer) ∷ []) n o d c few small,
          refl,
          refl,
          key_read world answer key,
        ),
      )
