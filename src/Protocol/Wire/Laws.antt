-- ===== src/Protocol/Wire/Laws.antt =====
-- crates/drv-thru/src/protocol/wire.rs: the reader and the writer of frames.
use drv_thru.Base.{
  ℕ, ◌+◌, ◌≤◌, ◌<◌, ◌^◌, ◌≡◌, refl, ap, ◌∙◌, [], ◌∷◌, ◌++◌, Option, some, arith, ok, err, length,
  length-append, take, drop, Option-cases, inl, inr,
}
use drv_thru.Protocol.Wire.{
  Bytes, max_message_len, too_large, to_be_bytes, from_be_bytes, write_json, read_body, read_json,
}

pub from-to_be_bytes : (n : ℕ) → n < 2 ^ 32 → from_be_bytes (to_be_bytes n) ≡ n
unfolding from_be_bytes to_be_bytes
from-to_be_bytes n h = omega arith

take-front : (xs ys : Bytes) → take (length xs) (xs ++ ys) ≡ xs
take-front [] ys = refl
take-front (x ∷ xs) ys = ap (◌∷◌ x) (take-front xs ys)

drop-front : (xs ys : Bytes) → drop (length xs) (xs ++ ys) ≡ ys
drop-front [] ys = refl
drop-front (x ∷ xs) ys = drop-front xs ys

module _ {M : Type 0} (encode : M → Option Bytes) where
  -- What a frame is: the body of the message behind its length.
  pub write_json-frame :
      (m : M) (frame : Bytes)
      → write_json encode m ≡ ok frame
      → (body : Bytes) × (encode m ≡ some body)
        × (length body ≤ max_message_len)
        × (frame ≡ to_be_bytes (length body) ++ body)
  unfolding write_json
  write_json-frame m frame h = elim (Option-cases (encode m)) [
    | inl e ↦ absurd (ground arith)
    | inr (body, e) ↦ (body, e, ground arith, ground arith)
  ]

module _ {M : Type 0} (decode : Bytes → Option M) where
  read_body-append :
      (m : M) (body rest : Bytes)
      → decode body ≡ some m
      → length body ≤ max_message_len
      → read_body decode (length body) (body ++ rest) ≡ ok (m, rest)
  unfolding read_body
  read_body-append m body rest d h =
      ground (arith, length-append body rest, take-front body rest, drop-front body rest)

  -- Four bytes decide the length that is read next.
  read_json-cons :
      (a b c d : ℕ) (rest : Bytes)
      → read_json decode (a ∷ b ∷ c ∷ d ∷ rest)
        ≡ read_body decode (from_be_bytes (a ∷ b ∷ c ∷ d ∷ [])) rest
  unfolding read_json
  read_json-cons a b c d rest = ground arith

  read_json-frame :
      (m : M) (body rest : Bytes)
      → decode body ≡ some m
      → length body ≤ max_message_len
      → read_json decode (to_be_bytes (length body) ++ body ++ rest) ≡ ok (m, rest)
  unfolding to_be_bytes
  read_json-frame m body rest d h =
      read_json-cons _ _ _ _ (body ++ rest)
      ∙ ap (λ n. read_body decode n (body ++ rest)) (from-to_be_bytes (length body) (omega arith))
      ∙ read_body-append m body rest d h

  -- A length over the limit that four bytes hold is refused, whatever follows it.
  pub read_json-too_large :
      (n : ℕ) (rest : Bytes)
      → max_message_len < n
      → n < 2 ^ 32
      → read_json decode (to_be_bytes n ++ rest) ≡ err (too_large n)
  unfolding to_be_bytes read_body
  read_json-too_large n rest h k =
      read_json-cons _ _ _ _ rest
      ∙ ap (λ m. read_body decode m rest) (from-to_be_bytes n k)
      ∙ ground arith

-- The reader and the writer of one type of messages.
module _ {M : Type 0} (encode : M → Option Bytes) (decode : Bytes → Option M)
    (decodes : (m : M) (body : Bytes) → encode m ≡ some body → decode body ≡ some m) where
  -- What `write_json` puts on a stream `read_json` takes off it again, up to the next frame.
  read_json-write_json :
      (m : M) (frame rest : Bytes)
      → write_json encode m ≡ ok frame
      → read_json decode (frame ++ rest) ≡ ok (m, rest)
  read_json-write_json m frame rest h =
      let (body, e, fits, shape) = write_json-frame encode m frame h in
      ap (λ f. read_json decode (f ++ rest)) shape
      ∙ read_json-frame decode m body rest (decodes m body e) fits

  fits-write_json :
      (m : M) (body : Bytes)
      → encode m ≡ some body
      → length body ≤ max_message_len
      → write_json encode m ≡ ok (to_be_bytes (length body) ++ body)
  unfolding write_json
  fits-write_json m body e h = ground arith

  -- A message whose body is over the limit is refused by the writer.
  pub write_json-too_large :
      (m : M) (body : Bytes)
      → encode m ≡ some body
      → max_message_len < length body
      → write_json encode m ≡ err (too_large (length body))
  unfolding write_json
  write_json-too_large m body e h = ground arith

  -- A message whose body fits is written as a frame of four bytes more, which the reader takes
  -- off a stream again, whatever follows it.
  pub wire_round_trip :
      (m : M) (body rest : Bytes)
      → encode m ≡ some body
      → length body ≤ max_message_len
      → (frame : Bytes) × (write_json encode m ≡ ok frame)
        × (length frame ≡ length body + 4)
        × (read_json decode (frame ++ rest) ≡ ok (m, rest))
  unfolding to_be_bytes
  wire_round_trip m body rest e h =
      let written = fits-write_json m body e h in
      (
        to_be_bytes (length body) ++ body,
        written,
        omega arith,
        read_json-write_json m _ rest written,
      )
