-- ===== src/Protocol/Wire.antt =====
-- crates/drv-thru/src/protocol/wire.rs: a message is a length of four bytes, the most significant
-- first, and a JSON body of at most one MiB. `serde_json` is a parameter.
pub mod Laws
mod Tests
use drv_thru.Base.{
  ℕ, ◌+◌, ◌*◌, ◌/◌, ◌%◌, ◌^◌, List, [], ◌∷◌, ◌++◌, Option, none, some, Result, ok, err, ◌>>=◌, ◌>>◌,
  bail_if, context, ltb, if◌then◌else◌, length, take, drop,
}

abbrev pub Bytes : Type 0
Bytes = List ℕ

abbrev pub max_message_len : ℕ
max_message_len = 1024 * 1024

pub data WireError : Type 0 where
  encode_failed length_overflow decode_failed short_length short_body : WireError
  too_large : ℕ → WireError

-- `u32::try_from`, `to_be_bytes` and `from_be_bytes`.
abbrev pub to_u32 : ℕ → Option ℕ
to_u32 n = if ltb n (2 ^ 32) then some n else none

unfoldable pub to_be_bytes : ℕ → Bytes
to_be_bytes n = (n / 2 ^ 24 % 256) ∷ (n / 2 ^ 16 % 256) ∷ (n / 2 ^ 8 % 256) ∷ (n % 256) ∷ []

-- `read_exact` of n bytes: what is read, and what is left on the stream.
abbrev pub read_exact : ℕ → Bytes → WireError → Result WireError (Bytes × Bytes)
read_exact n stream e = if ltb (length stream) n then err e else ok (take n stream, drop n stream)

unfoldable pub from_be_bytes : Bytes → ℕ
from_be_bytes [] = 0
from_be_bytes (a ∷ []) = 0
from_be_bytes (a ∷ b ∷ []) = 0
from_be_bytes (a ∷ b ∷ c ∷ []) = 0
from_be_bytes (a ∷ b ∷ c ∷ d ∷ rest) = a * 2 ^ 24 + b * 2 ^ 16 + c * 2 ^ 8 + d

module _ {M : Type 0} (encode : M → Option Bytes) where
  -- `write_json`: the bytes that go onto the stream.
  unfoldable pub write_json : M → Result WireError Bytes
  unfolding to_be_bytes
  write_json message = do
    body ← context (encode message) encode_failed
    bail_if (ltb max_message_len (length body)) (too_large (length body))
    len ← context (to_u32 (length body)) length_overflow
    ok (to_be_bytes len ++ body)

module _ {M : Type 0} (decode : Bytes → Option M) where
  pub read_body : ℕ → Bytes → Result WireError (M × Bytes)
  read_body len stream = do
    bail_if (ltb max_message_len len) (too_large len)
    (body, rest) ← read_exact len stream short_body
    message ← context (decode body) decode_failed
    ok (message, rest)

  -- `read_json`: the message, and the stream behind it.
  unfoldable pub read_json : Bytes → Result WireError (M × Bytes)
  unfolding read_body from_be_bytes
  read_json stream = do
    (len, rest) ← read_exact 4 stream short_length
    read_body (from_be_bytes len) rest
