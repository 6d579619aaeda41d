-- ===== src/ClientCache/Builder.antt =====
-- crates/drv-thru/src/client_cache/mirror.rs against server/output_cache.rs: the fetches of a mirror
-- are answered by the handler of a builder, in one session.
mod Tests
use drv_thru.Base.{
  ℕ, ◌≡◌, ◌⊎◌, inl, inr, refl, sym, ap, subst, ◌∙◌, Bool, true, false, List, [], ◌++◌, Option, none,
  some, ok, ok-injective, arith, length, append-nil, map_err-eq-ok, Option-cases,
}
use drv_thru.Text.{Text, lines, ends_with}
use drv_thru.TextMap.{member}
use drv_thru.Cache.{narinfo_suffix, narinfo_nar_path}
use drv_thru.Cache.FilePath.{join}
use drv_thru.Cache.Narinfo.{IsNarPath, narinfo_nar_path_iff}
use drv_thru.Protocol.{cache_file_response}
use drv_thru.Protocol.PathChunks.{Incoming}
use drv_thru.Server.OutputCache.{File, regular, OutputCache}
use drv_thru.Server.OutputCache.Handler.{Serving, Reply, not_found, sends, allow, handle_cache_file}
use drv_thru.Server.OutputCache.Session.{Step, attempt, run}
use drv_thru.Server.OutputCache.Answers.{
  AnswersNarinfo, allow-here, IsNarPath-place, handle_cache_file-allowed, handle_cache_file-Answers,
}
use drv_thru.Server.OutputCache.Kept.{run-Keeps}
use drv_thru.ClientCache.Mirror.{
  MirrorWorld, bad_cache_path, CacheStream, Mirrored, mirror_narinfo, mirror_nar, nar_of,
}
use drv_thru.ClientCache.Mirror.Sends.{Sends, request_for, Sends-fetched}
use drv_thru.ClientCache.Mirror.Fetches.{with_file, mirror_narinfo-ok, ok-mirror_nar}

abbrev pub announces : Bool → ℕ → Option Incoming
announces found n = some (ok (cache_file_response (record { found = found; byte_count = n })))

-- What a stream brings when the handler sends this reply: `write_cache_file_response`, and the bytes of
-- the body behind it. A text is what the bytes read as.
abbrev pub Brings : (List ℕ → Option Text) → CacheStream → Reply → Type 0
Brings from_utf8 stream not_found = stream.answer ≡ announces false 0
Brings from_utf8 stream (sends path n none) = stream.answer ≡ announces true n
Brings from_utf8 stream (sends path n (some text)) =
    (stream.answer ≡ announces true n)
    × (n ≡ length stream.body.bytes)
    × (from_utf8 stream.body.bytes ≡ text)

-- The stream that a client opens for a path brings this reply.
pub record Streams (world : MirrorWorld) (path : Text) (reply : Reply) : Type 0 where
  pub stream : CacheStream
  pub opened : world.open_bi (request_for path) ≡ some stream
  pub asked : stream.sent ≡ true
  pub brings : Brings world.from_utf8 stream reply

-- A reply with a body is what the builder sends.
Streams-Sends :
    (world : MirrorWorld) (path : Text) (n : ℕ) (text : Option Text)
    → Streams world path (sends path n (some text))
    → (bytes : List ℕ) × Sends world path bytes
      × (n ≡ length bytes)
      × (world.from_utf8 bytes ≡ text)
Streams-Sends world path n text s =
    let (announced, whole, reads) = s.brings in
    (
      s.stream.body.bytes,
      record {
        stream = s.stream;
        rest = [];
        opened = s.opened;
        asked = s.asked;
        announced = announced ∙ ap (announces true) whole;
        brought = sym (append-nil s.stream.body.bytes);
      },
      whole,
      reads,
    )

Sends-unique :
    (world : MirrorWorld) (path : Text) (xs ys : List ℕ)
    → Sends world path xs
    → Sends world path ys
    → xs ≡ ys
Sends-unique world path xs ys s t =
    ok-injective (sym (Sends-fetched world path xs s) ∙ Sends-fetched world path ys t)

not_found-Sends :
    (world : MirrorWorld) (path : Text) (bytes : List ℕ)
    → Streams world path not_found
    → Sends world path bytes
    → ⊥
not_found-Sends world path bytes s t =
    let same : some s.stream ≡ some t.stream = sym s.opened ∙ t.opened in
    let stream : s.stream ≡ t.stream = ground arith in
    apart (sym s.brings ∙ ap (λ x. x.answer) stream ∙ t.announced)
  where
    apart : announces false 0 ≡ announces true (length bytes) → ⊥
    apart e = ground arith

names-IsNarPath :
    (text : Option Text) (nar_path : Text)
    → narinfo_nar_path text ≡ ok (some nar_path)
    → IsNarPath nar_path
unfolding narinfo_nar_path
names-IsNarPath none nar_path h = absurd (ground arith)
names-IsNarPath (some text) nar_path h = (((narinfo_nar_path_iff text nar_path).0.0) h).served

-- The handler reads the same NAR path from the narinfo as the mirror.
same_nar :
    (world : MirrorWorld) (s after : Serving) (dir path nar_path : Text) (reply : Reply)
    (m made : Mirrored)
    → (reply ≡ not_found) ⊎ AnswersNarinfo s after path true reply
    → Streams world path reply
    → mirror_narinfo world dir path true m ≡ ok (some nar_path, made)
    → IsNarPath nar_path × (after.allowed_nar_paths ≡ allow (some nar_path) s.allowed_nar_paths)
same_nar world s after dir path nar_path reply m made (inl none_) streams h =
    let (bytes, file, ((brought, at, can), small, names), written) =
      mirror_narinfo-ok world dir path true m made (some nar_path) h in
    absurd (not_found-Sends world path bytes (subst (Streams world path) none_ streams) brought)
same_nar world s after dir path nar_path reply m made (inr (file, named, names_file, grown, sent))
      streams h =
    let (bytes, at, ((brought, below, can), small, names), written) =
      mirror_narinfo-ok world dir path true m made (some nar_path) h in
    let (others, brought', n, reads) =
      Streams-Sends world path file.byte_count file.text
        (subst (Streams world path) sent streams) in
    let same = Sends-unique world path others bytes brought' brought in
    let text : world.from_utf8 bytes ≡ file.text = ap world.from_utf8 (sym same) ∙ reads in
    let read =
      map_err-eq-ok bad_cache_path (narinfo_nar_path (world.from_utf8 bytes)) (some nar_path)
        names in
    let is_named : named ≡ some nar_path =
      ok-injective (sym names_file ∙ ap narinfo_nar_path (sym text) ∙ read) in
    (
      names-IsNarPath (world.from_utf8 bytes) nar_path read,
      grown ∙ ap (λ o. allow o s.allowed_nar_paths) is_named,
    )

-- In a session of a builder, where the streams of a mirror bring what the handler replies: after the
-- mirror has read a narinfo, and any requests that come between, its request for the NAR file that the
-- narinfo names is answered with the regular file that the builder has there by then, if its copy is
-- whole, and the mirror, if it can write the file, stores its bytes.
pub nar-fetched :
    (cache : OutputCache) (world : MirrorWorld) (dir path nar_path : Text) (first : Step)
    (s after : Serving) (reply : Reply) (m made : Mirrored)
    → ends_with narinfo_suffix path ≡ true
    → first.request ≡ record { path = path; send_body = true }
    → attempt cache first s ≡ ok (after, reply)
    → Streams world path reply
    → mirror_narinfo world dir path true m ≡ ok (some nar_path, made)
    → (steps : List Step) (later : Step) (file : File) (k : Mirrored)
    → later.request ≡ record { path = nar_path; send_body = true }
    → later.found_disk (join cache.dir nar_path) ≡ regular file
    → file.copied ≡ true
    → Streams world nar_path (sends nar_path file.byte_count (some file.text))
    → world.can_write (join dir nar_path) ≡ true
    → (attempt cache later (run cache steps after)
        ≡ ok (
          record (run cache steps after) { disk = later.found_disk },
          sends nar_path file.byte_count (some file.text),
        ))
      × ((bytes : List ℕ) × (length bytes ≡ file.byte_count)
          × (world.from_utf8 bytes ≡ file.text)
          × (mirror_nar world dir nar_path k ≡ ok (with_file nar_path (join dir nar_path) bytes k)))
nar-fetched cache world dir path nar_path first s after reply m made is_narinfo requested answered
      streams mirrored steps later file k asks lies copied brings can =
    let at_disk = record s { disk = first.found_disk } in
    let answers =
      handle_cache_file-Answers first.ensure_info first.outside cache at_disk after path true reply
        is_narinfo
        (ap (handle_cache_file first.ensure_info first.outside cache at_disk) (sym requested)
          ∙ answered) in
    let (is_nar, grown) =
      same_nar world at_disk after dir path nar_path reply m made answers streams mirrored in
    let allowed =
      run-Keeps cache steps after nar_path
        (ap (member nar_path) grown ∙ allow-here nar_path s.allowed_nar_paths) in
    let now = record (run cache steps after) { disk = later.found_disk } in
    let (bytes, brought, n, reads) =
      Streams-Sends world nar_path file.byte_count file.text brings in
    (
      ap (handle_cache_file later.ensure_info later.outside cache now) asks
          ∙ handle_cache_file-allowed later.ensure_info later.outside cache now nar_path is_nar
              allowed
          ∙ rw (lies, copied) refl,
      (
        bytes,
        sym n,
        reads,
        ok-mirror_nar world dir nar_path k bytes (join dir nar_path)
            (brought, IsNarPath-place dir nar_path is_nar, can),
      ),
    )
