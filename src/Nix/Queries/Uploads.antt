-- ===== src/Nix/Queries/Uploads.antt =====
-- crates/drv-thru/src/nix.rs: the limit on an upload.
use drv_thru.Base.{ℕ, ◌+◌, ◌^◌, ◌≤◌, ◌<◌, ◌≡◌, ◌↔◌, true, false, some, ok, arith}
use drv_thru.Nix.Queries.{Upload, import_unsigned_export_stream}

-- With a limit below the largest u64, an upload is imported exactly if the stream does not break,
-- has no more bytes than the limit and `nix-store --import` succeeds, and the result is the number
-- of its bytes.
pub import_stream_iff :
    (upload : Upload) (limit copied : ℕ)
    → limit + 1 < 2 ^ 64
    → (import_unsigned_export_stream upload (some limit) ≡ ok copied) ↔ (
        (copied ≡ upload.bytes)
        × (upload.bytes ≤ limit)
        × (upload.broken ≡ false)
        × (upload.imports ≡ true))
unfolding import_unsigned_export_stream
import_stream_iff upload limit copied h = ground arith
