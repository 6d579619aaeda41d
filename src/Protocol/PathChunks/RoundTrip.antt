-- ===== src/Protocol/PathChunks/RoundTrip.antt =====
-- crates/drv-thru/src/protocol/path_chunks.rs: the reader on what the writer sends.
use drv_thru.Base.{
  ℕ, ◌+◌, ◌-◌, ◌*◌, ◌≤◌, ◌<◌, ◌≡◌, ◌≢◌, refl, subst, true, List, [], ◌∷◌, ◌++◌, append-nil, arith,
  inl, inr, ok, length, ◌==◌, All, Option, some,
}
use drv_thru.Text.{Text}
use drv_thru.Protocol.{
  Message, PathListChunk, build_paths, missing_paths, output_closure, output_request,
}
use drv_thru.Protocol.PathChunks.{
  PathListKind, of_build_paths, of_missing_paths, of_output_closure, of_output_request, ReadLimits,
  Incoming, usize_mod, path_chunk_size, chunk_of, write_chunks, chunk_messages, has_frame, send_row,
  write, byte_count, read_with_timeout,
}
use drv_thru.Protocol.Wire.{Bytes, max_message_len, write_json}
use drv_thru.Protocol.PathChunks.Chunks.{
  chunks, concat, concat-chunks, length-chunks, chunks-ne-nil,
}
use drv_thru.Protocol.PathChunks.Bounds.{Reads, read_with_timeout_iff}

-- The constructor that the writers of a kind of list pass to `write`.
abbrev pub message_of : PathListKind → PathListChunk → Message
message_of of_build_paths = build_paths
message_of of_missing_paths = missing_paths
message_of of_output_closure = output_closure
message_of of_output_request = output_request

-- Messages that arrive in time.
abbrev pub arrived : List Message → List Incoming
arrived [] = []
arrived (m ∷ ms) = ok m ∷ arrived ms

chunk_of-message_of :
    (kind : PathListKind) (chunk : PathListChunk) → chunk_of kind (message_of kind chunk) ≡ ok chunk
unfolding chunk_of
chunk_of-message_of of_build_paths chunk = refl
chunk_of-message_of of_missing_paths chunk = refl
chunk_of-message_of of_output_closure chunk = refl
chunk_of-message_of of_output_request chunk = refl

write_chunks-Reads :
    (kind : PathListKind) (last index : ℕ) (parts : List (List Text)) (rest : List Incoming)
    → parts ≢ []
    → index + length parts ≡ last + 1
    → Reads kind
        (arrived (write_chunks last index (message_of kind) parts) ++ rest)
        (length parts)
        (concat parts)
        rest
unfolding write_chunks
write_chunks-Reads kind last index [] rest full e = absurd (full refl)
write_chunks-Reads kind last index (part ∷ []) rest full e = (
  record { paths = part; done = index == last },
  chunk_of-message_of kind _,
  inl (ground arith, refl, append-nil part, refl),
)
write_chunks-Reads kind last index (part ∷ next ∷ parts) rest full e = (
  record { paths = part; done = index == last },
  chunk_of-message_of kind _,
  inr (
    ground arith,
    (
      length (next ∷ parts),
      concat (next ∷ parts),
      refl,
      refl,
      write_chunks-Reads kind last (index + 1) (next ∷ parts) rest (λ f. ground arith)
          (omega arith),
    ),
  ),
)

-- A message whose body is within the limit of a frame.
abbrev pub Fits : (Message → Option Bytes) → Message → Type 0
Fits encode message =
    (body : Bytes) × (encode message ≡ some body) × (length body ≤ max_message_len)

Fits-has_frame :
    (encode : Message → Option Bytes) (message : Message)
    → Fits encode message
    → has_frame (write_json encode message) ≡ true
unfolding write_json
Fits-has_frame encode message (body, e, small) = rw e (ground arith)

pub send_row-Fits :
    (encode : Message → Option Bytes) (messages : List Message)
    → All (Fits encode) messages
    → send_row encode messages ≡ (messages, true)
unfolding send_row
send_row-Fits encode [] fit = refl
send_row-Fits encode (m ∷ messages) (fits, fit) =
    rw (Fits-has_frame encode m fits, send_row-Fits encode messages fit) refl

-- The number of messages that carry a list: one for an empty one.
pub write-Reads :
    (kind : PathListKind) (paths : List Text) (rest : List Incoming)
    → (n : ℕ) × (n * path_chunk_size < length paths + path_chunk_size + 1)
      × Reads kind (arrived (chunk_messages paths (message_of kind)) ++ rest) n paths rest
unfolding chunk_messages
write-Reads kind [] rest = (
  1,
  omega arith,
  (record { paths = []; done = true }, chunk_of-message_of kind _, inl (refl, refl, refl, refl)),
)
write-Reads kind (path ∷ paths) rest =
    let parts = chunks path_chunk_size (path ∷ paths) in
    let full = chunks-ne-nil path_chunk_size path paths in
    (
      length parts,
      omega (arith, length-chunks {0} path_chunk_size (path ∷ paths) (omega arith)),
      subst
          (λ out.
            Reads kind (arrived (write_chunks (length parts - 1) 0 (message_of kind) parts) ++ rest)
              (length parts) out rest)
          (concat-chunks path_chunk_size (path ∷ paths) (omega arith))
          (write_chunks-Reads kind (length parts - 1) 0 parts rest full (some_parts parts full)),
    )
  where
    some_parts : (parts : List (List Text)) → parts ≢ [] → 0 + length parts ≡ length parts - 1 + 1
    some_parts [] f = absurd (f refl)
    some_parts (p ∷ ps) f = omega arith

-- The reader on the messages of a list.
pub path_list_read :
    (kind : PathListKind) (limits : ReadLimits) (paths : List Text) (rest : List Incoming)
    → limits.paths < usize_mod - 1
    → limits.bytes < usize_mod
    → limits.paths + path_chunk_size ≤ limits.chunks * path_chunk_size
    → length paths ≤ limits.paths
    → byte_count paths ≤ limits.bytes
    → read_with_timeout kind limits (arrived (chunk_messages paths (message_of kind)) ++ rest)
      ≡ ok (paths, rest)
path_list_read kind limits paths rest small_paths small_bytes room few bytes =
    let (n, messages, reads) = write-Reads kind paths rest in
    (read_with_timeout_iff kind limits _ paths rest small_paths small_bytes).1
      (n, reads, (omega arith, few, bytes))

-- A list that keeps the limits on paths and bytes, which a `usize` holds, where the limit on messages
-- allows for as many paths, and each of whose messages is within the limit of a frame, is written to
-- its end and read as it was written, whatever comes behind it.
pub path_list_round_trip :
    (encode : Message → Option Bytes) (kind : PathListKind) (limits : ReadLimits)
    (paths : List Text) (rest : List Incoming)
    → limits.paths < usize_mod - 1
    → limits.bytes < usize_mod
    → limits.paths + path_chunk_size ≤ limits.chunks * path_chunk_size
    → length paths ≤ limits.paths
    → byte_count paths ≤ limits.bytes
    → All (Fits encode) (chunk_messages paths (message_of kind))
    → ((write encode paths (message_of kind)).1 ≡ true)
      × (read_with_timeout kind limits (arrived (write encode paths (message_of kind)).0 ++ rest)
          ≡ ok (paths, rest))
unfolding write
path_list_round_trip encode kind limits paths rest small_paths small_bytes room few bytes fit =
    rw (send_row-Fits encode (chunk_messages paths (message_of kind)) fit)
      (refl, path_list_read kind limits paths rest small_paths small_bytes room few bytes)
