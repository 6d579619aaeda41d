-- ===== src/Lib.antt =====
-- drv-thru: remote Nix builds over Iroh. A client sends a derivation to a server, which checks who
-- asks (a trusted client or the bearer of a ticket), queues and runs the build, and serves the
-- outputs as files of a signed binary cache.
--
-- Parts and files (sources under crates/drv-thru/src):
--   Nix/StorePath: `StorePath` of nix.rs, `new` and `hash`; an `expect` that fails is `none`.
--   Nix/Queries, Nix/Trust: the calls of Nix in nix.rs, under the names of the source, over programs
--     that are a parameter. Nix/Commands is the interface that a server's session uses, and
--     `nix_commands` fills it. A row of commands is a list of their arguments.
--   Cache: cache.rs. `sanitize_cache_path`, `sanitize_http_cache_path`, `cache_file_path` and
--     `narinfo_nar_path` have the names of the source. Cache/FilePath writes out what is used of
--     `std::path` (`join`, `extension`, and where a path leads). Client and server both send every
--     path of a request through these functions.
--   Protocol: Messages (protocol/messages.rs), Wire (protocol/wire.rs: `write_json`, `read_json`)
--     and PathChunks (protocol/path_chunks.rs: `write`, `read_with_timeout`). A stream is the
--     list of what it brings, and a timeout is its end. The encoder of messages is a parameter;
--     `write` and the client stop at a message whose frame is too large, which for the server is
--     a write of its session that fails.
--   Ticket: ticket.rs. The state is the file tickets.json (`TicketFile`); `create`, `find_record`
--     (`record` in the source), `revoke`, `check` and `redeem` take it and return it. Every
--     method holds the lock from its read to its write; where the lock excludes, the calls of
--     several threads and processes are a sequence (Ticket/Calls). Ticket/Lock is the lock
--     directory: `lock_file`, `create_ticket_store_lock`, `remove_stale_ticket_store_lock` and the
--     end of a lock, as calls of the file system by processes in any order. A write of a file is
--     two of them, one that makes it empty and one that fills it; a removal takes the whole
--     directory or leaves it.
--   Server/Status: server/status.rs. The state is the registry's memory and status.json; `phase`
--     of the source is `set_build_phase`. Server/Status/Registry has its records and what every
--     update ends in, Server/Status/Board the abstract view.
--   Server/OutputCache: server/output_cache.rs. Handler is `handle_cache_file_stream`
--     (`handle_cache_file` here), on a disk that gives an entry for each path; requests are
--     handled one after another, each on a disk of its own.
--   Access, Server/Auth, Server/Build, Server/Connection: access.rs and server/auth.rs, build.rs and
--     connection.rs, with `export_outputs` of server/output_cache.rs. Server/Session has the state
--     of one connection: what its stream brings, which of the next writes succeed, and a log of what was
--     sent and of the calls of the registry. `World` is what a session meets outside; the ticket
--     file may change between the check and the redemption. Server/Session/Stages is the order of
--     the events as a step function. The lines and the result of a build stand with the second
--     they come in, and a timeout cuts them there.
--   Server/Start: `resolve_serve_mode` of server/mod.rs.
--   Client: client/session.rs with `import_output_cache` of client_cache/mod.rs. Client/Build is `build`
--     with what it writes and `preflight_output_import` before the request; Client/Opening, with
--     Client/Welcome and Client/Asking, reads what a client writes with the server's functions;
--     `with_cache` of Client/Build/Imported fills the import of a client by ClientCache/Import.
--   ClientCache: client_cache/. Http is the reading of requests of mod.rs; Mirror is mirror.rs with
--     `fetch_cache_file`, and Mirror/Tasks runs its tasks in an order that is a parameter, each
--     task as a whole; Mirror/Sends says what a builder sends; LocalServer is local_server.rs, on
--     a disk that gives the state of each file; Served puts the two together; Builder puts the
--     mirror before the handler of Server/OutputCache; Import is
--     `import_outputs_from_cache` and `output_import_method` of mod.rs, which client/session.rs
--     asks before a build.
--   ClientStatus: client_status.rs. Line is `StatusLine` with what it prints; `new_line` and
--     `render` are its `new` and `Status::render`.
--   ProcessLock: process_lock.rs on Linux, over the texts of /proc, and `lock_key_file` of keys.rs with
--     what others do to the lock in each round.
--   Cli/Tickets: cli/tickets.rs, with the lines that `list` and `inspect` print.
--   ImportHelper: import_helper.rs. `handle_connection` gives the import it runs and the response.
--   Config: the parsers `parse_byte_count` and `parse_duration` of config.rs; Config/Server is
--     `load_server_config` behind serde.
--   Base, Text, TextMap: what is used of Rust's numbers, lists, results, strings and maps. A text
--     is a list of code points, and its `len` counts bytes of UTF-8. A map is an association
--     list, of which only lookups and insertions are used.
--
-- Numbers and bounds: natural numbers, with `2 ^ 64` for u64 and usize and `2 ^ 32` for u32 where
-- the source checks, saturates or wraps. Recursion is structural; `to_digits` runs on fuel of one
-- more than its number, which has at most that many digits. The loop over the reads of a request
-- has 16,385 rounds, since a round that goes on has brought a byte and at most 16,384 are kept; the
-- tasks of a mirror have two rounds for each path of the closure, which has one metadata task and at
-- most one payload task. Both have an outcome of their own for a loop that is still running.
--
-- Parameters: serde_json (`encode`, `decode`), iroh (`Iroh`: parsing of endpoint ids, public keys,
-- the text of a ticket), and for each call of a store its `Env`: the clock, a new secret, and
-- whether the lock and the write succeed. A write replaces the whole file or leaves it. For a
-- request of a cache file its `Outside`: what other tasks do to the disk, the removal of a file and
-- `nix copy`; and the outcome of `ensure_nix_cache_info`.
-- The programs that nix.rs runs (`Programs`) give an exit status and a text. For a session its
-- `World` and its `NixCommands`, for a client its `ClientWorld`, for its cache the `MirrorWorld` (the
-- builder's answers, `str::from_utf8` and the disk) and the `ImportWorld`, for the helper its
-- `Import`, which `signed_import` fills.
--
-- Not modelled: prewarming of the output cache and the accept loops, which are tasks of their own;
-- the rendering of an error as a text (`show`); the reading and making of key files; the rest of
-- the command line and other terminal output; the file of the server's address and the text of a
-- `BuildTicket` of ticket.rs; the permits that bound the tasks of a mirror, its directory among the
-- temporary files, the network and the NixOS module.
pub mod Base
pub mod Text
pub mod Nix
pub mod Cache
pub mod Protocol
pub mod TextMap
pub mod Ticket
pub mod Access
pub mod Client
pub mod ClientCache
pub mod Cli
pub mod ClientStatus
pub mod ProcessLock
pub mod ImportHelper
pub mod Server
pub mod Config
