-- ===== src/ClientCache/Mirror/Sends.antt =====
-- crates/drv-thru/src/client_cache/mod.rs and mirror.rs: a fetch, against the stream of the builder.
use drv_thru.Base.{
  ℕ, ◌≡◌, refl, sym, ap, ◌∙◌, true, not, List, [], ◌∷◌, ◌++◌, some, Result, ok, err, ◌>>=◌, bail_if,
  context, >>=-eq-ok, context-eq-ok, >>-eq-ok, bail_if-eq-ok, ok-injective, not-eq-false, arith,
  length, take, drop, take-append-drop, length-append, leb, le→leb, ◌==◌, ==_self, Bool-cases, inl,
  inr,
}
use drv_thru.Text.{Text}
use drv_thru.Protocol.{Message, CacheFileResponse, cache_file_request, cache_file_response, error}
use drv_thru.Protocol.PathChunks.{Incoming}
use drv_thru.ClientCache.Mirror.{
  MirrorError, not_opened, not_sent, no_response, no_payload, no_body, short_body, MirrorWorld,
  Body, CacheStream, FetchedCacheFile, response_of, fetched_of, fetch_cache_file, read_body,
  whole_body,
}

-- What a fetch for the mirror asks for.
abbrev pub request_for : Text → Message
request_for path = cache_file_request (record { path = path; send_body = true })

-- The builder sends these bytes for a path: it announces their number, and its stream begins with
-- them.
pub record Sends (world : MirrorWorld) (path : Text) (bytes : List ℕ) : Type 0 where
  pub stream : CacheStream
  pub rest : List ℕ
  pub opened : world.open_bi (request_for path) ≡ some stream
  pub asked : stream.sent ≡ true
  pub announced :
      stream.answer
      ≡ some (ok (cache_file_response (record { found = true; byte_count = length bytes })))
  pub brought : stream.body.bytes ≡ bytes ++ rest

-- A fetch with its body, as one value.
abbrev pub fetched_bytes : MirrorWorld → Text → Result MirrorError (List ℕ)
fetched_bytes world path = do
  answer ← fetch_cache_file world path true
  fetched ← context answer (no_payload path)
  body ← context fetched.body (no_body path)
  whole_body path fetched.byte_count body

pub length-whole_body :
    (path : Text) (n : ℕ) (body : Body) (bytes : List ℕ)
    → whole_body path n body ≡ ok bytes
    → length bytes ≡ n
length-whole_body path n body bytes h =
    let (read, e, checked) = >>=-eq-ok (read_body path n body) _ h in
    let (passed, same) =
      >>-eq-ok (bail_if (not (length read == n)) (short_body (length read) n)) (ok read) checked in
    let equal = not-eq-false _ (bail_if-eq-ok _ _ passed) in ground (arith, ok-injective same)

read_body-all :
    (path : Text) (n : ℕ) (body : Body) (read : List ℕ)
    → read_body path n body ≡ ok read
    → length read ≡ n
    → body.bytes ≡ read ++ drop n body.bytes
read_body-all path n body read h whole = elim (Bool-cases (leb n (length body.bytes))) [
  | inl enough ↦
      sym (take-append-drop n body.bytes)
      ∙ ap (λ x. x ++ drop n body.bytes) (ok-injective (rw enough at h))
  | inr few ↦ elim (Bool-cases body.broken) [
    | inl broken ↦ absurd (ground (arith, rw (few, broken) at h))
    | inr fine ↦
        let same = ok-injective (rw (few, fine) at h) in
        absurd (ground (arith, le→leb n (length body.bytes), ap length same))
  ]
]

whole_body-all :
    (path : Text) (n : ℕ) (body : Body) (bytes : List ℕ)
    → whole_body path n body ≡ ok bytes
    → (rest : List ℕ) × (body.bytes ≡ bytes ++ rest)
whole_body-all path n body bytes h =
    let (read, e, checked) = >>=-eq-ok (read_body path n body) _ h in
    let (passed, same) =
      >>-eq-ok (bail_if (not (length read == n)) (short_body (length read) n)) (ok read) checked in
    let is_read = ok-injective same in
    (
      drop n body.bytes,
      read_body-all path n body bytes (e ∙ ap ok is_read) (length-whole_body path n body bytes h),
    )

take-append : (bytes rest : List ℕ) → take (length bytes) (bytes ++ rest) ≡ bytes
take-append [] rest = refl
take-append (b ∷ bytes) rest = ap (◌∷◌ b) (take-append bytes rest)

-- A body that begins with as many bytes as were announced is read.
all-whole_body :
    (path : Text) (body : Body) (bytes rest : List ℕ)
    → body.bytes ≡ bytes ++ rest
    → whole_body path (length bytes) body ≡ ok bytes
all-whole_body path body bytes rest e =
    let enough : leb (length bytes) (length (bytes ++ rest)) ≡ true =
      le→leb _ _ (omega (arith, length-append bytes rest)) in
    rw (e, enough, take-append bytes rest, ==_self (length bytes)) refl

response_of-ok :
    (message : Incoming) (response : CacheFileResponse)
    → response_of message ≡ ok response
    → message ≡ ok (cache_file_response response)
response_of-ok (err e) response h = cc
response_of-ok (ok (cache_file_response r)) response h =
    ap (λ x. ok (cache_file_response x)) (ok-injective h)
response_of-ok (ok (error text)) response h = cc
response_of-ok (ok message) response h = ground arith

-- A response that finds the file, with a body.
fetched_of-some :
    (body : Body) (response : CacheFileResponse) (fetched : FetchedCacheFile)
    → fetched_of true body response ≡ some fetched
    → (response ≡ record { found = true; byte_count = fetched.byte_count })
      × (fetched.body ≡ some body)
fetched_of-some body response fetched h = elim (Bool-cases response.found) [
  | inl e ↦ (found_as response e (ground arith), ground arith)
  | inr e ↦ absurd (ground arith)
]
  where
    found_as :
        (r : CacheFileResponse)
        → r.found ≡ true
        → r.byte_count ≡ fetched.byte_count
        → r ≡ record { found = true; byte_count = fetched.byte_count }
    found_as r e n =
        ap (λ f. record { found = f; byte_count = r.byte_count }) e
        ∙ ap (λ k. record { found = true; byte_count = k }) n

pub fetched-Sends :
    (world : MirrorWorld) (path : Text) (bytes : List ℕ)
    → fetched_bytes world path ≡ ok bytes
    → Sends world path bytes
unfolding fetch_cache_file
fetched-Sends world path bytes h =
    let (answer, e, h1) = >>=-eq-ok (fetch_cache_file world path true) _ h in
    let (fetched, e1, h2) = >>=-eq-ok (context answer (no_payload path)) _ h1 in
    let (body, e2, h3) = >>=-eq-ok (context fetched.body (no_body path)) _ h2 in
    let (stream, e3, h4) = >>=-eq-ok (context (world.open_bi (request_for path)) not_opened) _ e in
    let (passed, h5) = >>-eq-ok (bail_if (not stream.sent) not_sent) _ h4 in
    let (message, e4, h6) = >>=-eq-ok (context stream.answer no_response) _ h5 in
    let (response, e5, h7) = >>=-eq-ok (response_of message) _ h6 in
    let (shape, has_body) =
      fetched_of-some stream.body response fetched
        (ok-injective h7 ∙ context-eq-ok answer (no_payload path) fetched e1) in
    let n = length-whole_body path fetched.byte_count body bytes h3 in
    let is_body : body ≡ stream.body =
      ground (arith, context-eq-ok fetched.body (no_body path) body e2) in
    let (rest, whole) = whole_body-all path fetched.byte_count body bytes h3 in
    record {
      stream = stream;
      rest = rest;
      opened = context-eq-ok _ _ stream e3;
      asked = not-eq-false _ (bail_if-eq-ok _ _ passed);
      announced =
          context-eq-ok _ _ message e4
          ∙ ap some (response_of-ok message response e5)
          ∙ ap (λ r. some (ok (cache_file_response r))) shape
          ∙ ap (λ k. some (ok (cache_file_response (record { found = true; byte_count = k }))))
              (sym n);
      brought = ap (λ b. b.bytes) (sym is_body) ∙ whole;
    }

pub Sends-fetched :
    (world : MirrorWorld) (path : Text) (bytes : List ℕ)
    → Sends world path bytes
    → fetched_bytes world path ≡ ok bytes
unfolding fetch_cache_file
Sends-fetched world path bytes s =
    rw (s.opened, s.asked, s.announced) (all-whole_body path s.stream.body bytes s.rest s.brought)
