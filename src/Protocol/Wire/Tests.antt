-- ===== src/Protocol/Wire/Tests.antt =====
-- crates/drv-thru/src/protocol/wire.rs: frames of messages that are bytes themselves, which
-- encode as they are.
use drv_thru.Base.{◌+◌, ◌≡◌, refl, [], ◌∷◌, ◌++◌, some, ok, err, length, arith}
use drv_thru.Protocol.Wire.{Bytes, write_json, read_json, short_body}
use drv_thru.Protocol.Wire.Laws.{wire_round_trip}

abbrev body : Bytes
body = 123 ∷ 125 ∷ []

writes_frame : write_json {M = Bytes} some body ≡ ok (0 ∷ 0 ∷ 0 ∷ 2 ∷ 123 ∷ 125 ∷ [])
unfolding write_json
writes_frame = refl

reads_frame : read_json {M = Bytes} some (0 ∷ 0 ∷ 0 ∷ 2 ∷ 123 ∷ 125 ∷ 7 ∷ []) ≡ ok (body, 7 ∷ [])
unfolding read_json
reads_frame = refl

short_frame : read_json {M = Bytes} some (0 ∷ 0 ∷ 0 ∷ 2 ∷ 123 ∷ []) ≡ err short_body
unfolding read_json
short_frame = refl

wire_round_trip_example :
    (frame : Bytes) × (write_json {M = Bytes} some body ≡ ok frame)
    × (length frame ≡ length body + 4)
    × (read_json {M = Bytes} some (frame ++ (7 ∷ [])) ≡ ok (body, 7 ∷ []))
wire_round_trip_example =
    wire_round_trip some some (λ m b e. e_of m b e) body body (7 ∷ []) refl (omega arith)
  where
    e_of : (m b : Bytes) → some m ≡ some b → some b ≡ some m
    e_of m b e = ground arith
