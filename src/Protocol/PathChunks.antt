-- ===== src/Protocol/PathChunks.antt =====
-- crates/drv-thru/src/protocol/path_chunks.rs: a list of paths as a row of messages. What a stream
-- brings before the timeout is a list: each entry a message, or an error of the wire.
pub mod Chunks
pub mod Bounds
pub mod RoundTrip
mod Tests
use drv_thru.Base.{
  ℕ, zero, suc, ◌+◌, ◌-◌, ◌^◌, Bool, true, false, List, [], ◌∷◌, ◌++◌, Option, none, some, Result,
  ok, err, ◌>>=◌, ◌>>◌, bail_if, context, ltb, ◌==◌, if◌then◌else◌, length, map, min,
}
use drv_thru.Text.{Text, len}
use drv_thru.Protocol.{
  Message, PathListChunk, build_paths, missing_paths, output_closure, output_request, error,
}
use drv_thru.Protocol.Wire.{Bytes, WireError, write_json}
use Chunks.{chunks}

abbrev pub path_chunk_size : ℕ
path_chunk_size = 512

-- The machine's `usize` has 64 bits.
abbrev pub usize_mod : ℕ
usize_mod = 2 ^ 64

pub record ReadLimits : Type 0 where
  pub chunks : ℕ
  pub paths : ℕ
  pub bytes : ℕ

pub data PathListKind : Type 0 where
  of_build_paths of_missing_paths of_output_closure of_output_request : PathListKind

pub record ReadState : Type 0 where
  pub chunks : ℕ
  pub path_bytes : ℕ

pub data ReadError : Type 0 where
  timed_out wire_failed byte_overflow : ReadError
  too_many_chunks too_many_paths too_many_bytes : ℕ → ReadError
  peer_error : Text → ReadError
  unexpected : Message → ReadError

abbrev pub Incoming : Type 0
Incoming = Result ReadError Message

abbrev last_chunk : List Text → Bool → PathListChunk
last_chunk paths done = record { paths = paths; done = done }

-- The loop over the enumerated chunks.
unfoldable pub write_chunks : ℕ → ℕ → (PathListChunk → Message) → List (List Text) → List Message
write_chunks last_index index make_message [] = []
write_chunks last_index index make_message (chunk ∷ rest) =
    make_message (last_chunk chunk (index == last_index))
    ∷ write_chunks last_index (index + 1) make_message rest

-- The messages that `write` sends one by one.
unfoldable pub chunk_messages : List Text → (PathListChunk → Message) → List Message
unfolding write_chunks chunks
chunk_messages [] make_message = make_message (last_chunk [] true) ∷ []
chunk_messages (path ∷ paths) make_message =
    let parts = chunks path_chunk_size (path ∷ paths) in
    write_chunks (length parts - 1) 0 make_message parts

-- What has gone onto a stream, and whether all of it has.
abbrev pub Sent : Type 0
Sent = List Message × Bool

abbrev pub has_frame : Result WireError Bytes → Bool
has_frame (ok frame) = true
has_frame (err e) = false

module _ (encode : Message → Option Bytes) where
  -- `wire::write_json` of messages in a row, up to the first that has no frame.
  unfoldable pub send_row : List Message → Sent
  unfolding write_json
  send_row [] = ([], true)
  send_row (message ∷ messages) =
      let rest = send_row messages in
      if has_frame (write_json encode message) then (message ∷ rest.0, rest.1) else ([], false)

  unfoldable pub write : List Text → (PathListChunk → Message) → Sent
  unfolding send_row chunk_messages
  write paths make_message = send_row (chunk_messages paths make_message)

-- The match of `read_chunk` on the kind and the message.
unfoldable pub chunk_of : PathListKind → Message → Result ReadError PathListChunk
chunk_of of_build_paths (build_paths chunk) = ok chunk
chunk_of of_missing_paths (missing_paths chunk) = ok chunk
chunk_of of_output_closure (output_closure chunk) = ok chunk
chunk_of of_output_request (output_request chunk) = ok chunk
chunk_of _ (error message) = err (peer_error message)
chunk_of _ message = err (unexpected message)

-- `iter().map(String::len).sum()`.
unfoldable pub byte_count : List Text → ℕ
unfolding len
byte_count [] = 0
byte_count (path ∷ paths) = len path + byte_count paths

abbrev pub saturating_add : ℕ → ℕ → ℕ
saturating_add a b = min (a + b) (usize_mod - 1)

abbrev pub checked_add : ℕ → ℕ → Option ℕ
checked_add a b = if ltb (a + b) usize_mod then some (a + b) else none

-- The counters after a chunk, which the caller keeps only if no test fails.
unfoldable pub check_limits :
    List Text → PathListChunk → ReadState → ReadLimits → Result ReadError ReadState
unfolding byte_count
check_limits paths chunk state limits = do
  let seen = state.chunks + 1
  bail_if (ltb limits.chunks seen) (too_many_chunks limits.chunks)
  bail_if (ltb limits.paths (saturating_add (length paths) (length chunk.paths)))
      (too_many_paths limits.paths)
  path_bytes ← context (checked_add state.path_bytes (byte_count chunk.paths)) byte_overflow
  bail_if (ltb limits.bytes path_bytes) (too_many_bytes limits.bytes)
  ok (record { chunks = seen; path_bytes = path_bytes })

-- With no limits nothing is counted.
abbrev pub check_optional :
    List Text → PathListChunk → ReadState → Option ReadLimits → Result ReadError ReadState
check_optional paths chunk state none = ok state
check_optional paths chunk state (some limits) = check_limits paths chunk state limits

-- The rounds of the loop, each of which takes one message off the stream. With nothing more in
-- time the read times out.
pub read_rounds :
    PathListKind
    → Option ReadLimits
    → List Text
    → ReadState
    → List Incoming
    → Result ReadError (List Text × List Incoming)
unfolding chunk_of check_limits
read_rounds kind limits paths state [] = err timed_out
read_rounds kind limits paths state (err e ∷ recv) = err e
read_rounds kind limits paths state (ok message ∷ recv) = chunk_of kind message >>= λ chunk.
    check_optional paths chunk state limits >>= λ state'.
    let rest = read_rounds kind limits (paths ++ chunk.paths) state' recv in
    if chunk.done then ok (paths ++ chunk.paths, recv) else rest

unfoldable pub read_with_timeout :
    PathListKind → ReadLimits → List Incoming → Result ReadError (List Text × List Incoming)
unfolding read_rounds
read_with_timeout kind limits recv =
    read_rounds kind (some limits) [] (record { chunks = 0; path_bytes = 0 }) recv
