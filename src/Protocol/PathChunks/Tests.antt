-- ===== src/Protocol/PathChunks/Tests.antt =====
-- crates/drv-thru/src/protocol/path_chunks.rs: a list of two paths on a stream, with the
-- limits of the server.
use drv_thru.Base.{
  ℕ, ◌*◌, ◌≡◌, refl, ◌↔◌, List, [], ◌∷◌, ◌++◌, Option, none, some, ok, err, true, false, arith,
}
use drv_thru.Text.{Text, codes}
use drv_thru.Protocol.{Message, build_paths, missing_paths, done, error}
use drv_thru.Protocol.Wire.{Bytes}
use drv_thru.Protocol.PathChunks.Chunks.{concat}
use drv_thru.Protocol.PathChunks.{
  ReadLimits, of_build_paths, read_with_timeout, write, chunk_messages, Incoming, too_many_chunks,
  timed_out, peer_error, byte_count,
}
use drv_thru.Protocol.PathChunks.Bounds.{Reads, Within, read_with_timeout_iff}
use drv_thru.Protocol.PathChunks.RoundTrip.{arrived, path_list_round_trip}

abbrev limits : ReadLimits
limits = record { chunks = 512; paths = 100_000; bytes = 16 * 1024 * 1024 }

abbrev two_paths : List Text
two_paths = codes "/nix/store/a" ∷ codes "/nix/store/b" ∷ []

abbrev stream : List Incoming
stream = arrived (build_paths (record { paths = two_paths; done = true }) ∷ done ∷ [])

-- A stand-in for the encoder: the paths in a row.
abbrev encode : Message → Option Bytes
encode (build_paths chunk) = some (concat chunk.paths)
encode message = none

-- A message that has no body has no frame.
no_frame : write encode two_paths missing_paths ≡ ([], false)
unfolding write
no_frame = refl

writes_one_message :
    write encode two_paths build_paths
    ≡ (build_paths (record { paths = two_paths; done = true }) ∷ [], true)
unfolding write
writes_one_message = refl

reads_two_paths : read_with_timeout of_build_paths limits stream ≡ ok (two_paths, ok done ∷ [])
unfolding read_with_timeout
reads_two_paths = refl

-- The rows of the source's test of the limit on chunks.
abbrev one_chunk : ReadLimits
one_chunk = record { chunks = 1; paths = 10; bytes = 100 }

too_many :
    read_with_timeout of_build_paths one_chunk (
      arrived (
        build_paths (record { paths = two_paths; done = false })
        ∷ build_paths (record { paths = two_paths; done = false })
        ∷ []))
    ≡ err (too_many_chunks 1)
unfolding read_with_timeout
too_many = refl

nothing_comes : read_with_timeout of_build_paths limits [] ≡ err timed_out
unfolding read_with_timeout
nothing_comes = refl

peer_fails :
    read_with_timeout of_build_paths limits (arrived (error (codes "no") ∷ []))
    ≡ err (peer_error (codes "no"))
unfolding read_with_timeout
peer_fails = refl

read_with_timeout_iff_example :
    (read_with_timeout of_build_paths limits stream ≡ ok (two_paths, ok done ∷ []))
    ↔ ((n : ℕ) × Reads of_build_paths stream n two_paths (ok done ∷ []) × Within limits n two_paths)
read_with_timeout_iff_example =
    read_with_timeout_iff of_build_paths limits stream two_paths (ok done ∷ []) (omega arith)
      (omega arith)

path_list_round_trip_example :
    ((write encode two_paths build_paths).1 ≡ true)
    × (read_with_timeout of_build_paths limits
          (arrived (write encode two_paths build_paths).0 ++ ok done ∷ [])
        ≡ ok (two_paths, ok done ∷ []))
unfolding byte_count chunk_messages
path_list_round_trip_example =
    path_list_round_trip encode of_build_paths limits two_paths (ok done ∷ []) (omega arith)
      (omega arith) (omega arith) (omega arith) (omega arith)
      ((concat two_paths, refl, omega arith), tt)
