-- ===== src/ClientCache/Http.antt =====
-- crates/drv-thru/src/client_cache/mod.rs: the HTTP requests of Nix and the heads of the answers.
pub mod Reading
use drv_thru.Base.{
  ℕ, zero, suc, ◌*◌, Bool, true, false, not, ◌||◌, List, [], ◌∷◌, ◌++◌, Option, none, some, Result,
  ok, err, ◌>>=◌, ◌>>◌, bail_if, context, length, ltb, ◌==◌, if◌then◌else◌,
}
use drv_thru.Text.{Text, codes, text_eq, contains, starts_with, lines, split_whitespace, to_digits}

-- `out_of_rounds` is no error of the code: it stands for a loop that is still running.
pub data HttpError : Type 0 where
  read_failed closed headers_too_large not_utf8 : HttpError
  no_line no_method no_target no_version invalid_line : HttpError
  out_of_rounds : HttpError

pub data HttpMethod : Type 0 where
  get_method head_method other_method : HttpMethod

pub record HttpRequest : Type 0 where
  pub method : HttpMethod
  pub target : Text

-- The end of the headers, `\r\n\r\n`.
abbrev pub blank_line : List ℕ
blank_line = b'\r' ∷ b'\n' ∷ b'\r' ∷ b'\n' ∷ []

abbrev pub max_head : ℕ
max_head = 16 * 1024

-- One round of the loop over the reads: it ends, or goes on with a longer buffer.
pub data Round : Type 0 where
  stop : Result HttpError (List ℕ) → Round
  more : List ℕ → Round

-- A read fails (`none`), brings nothing at the end of the stream, or brings bytes.
unfoldable pub after_read : List ℕ → Option (List ℕ) → Round
unfolding contains
after_read buf none = stop (err read_failed)
after_read buf (some []) = stop (err closed)
after_read buf (some (c ∷ chunk)) =
    let longer = buf ++ c ∷ chunk in
    if contains blank_line longer
    then stop (ok longer)
    else if ltb max_head (length longer)
    then stop (err headers_too_large)
    else more longer

abbrev pub go_on : Round → (List ℕ → Result HttpError (List ℕ)) → Result HttpError (List ℕ)
go_on (stop result) next = result
go_on (more longer) next = next longer

-- The loop on a number of rounds, with the reads by their numbers.
unfoldable pub read_head : (ℕ → Option (List ℕ)) → ℕ → ℕ → List ℕ → Result HttpError (List ℕ)
unfolding after_read
read_head reads zero i buf = err out_of_rounds
read_head reads (suc rounds) i buf =
    go_on (after_read buf (reads i)) (λ longer. read_head reads rounds (suc i) longer)

-- A round that goes on has brought a byte, so that no more rounds are needed.
abbrev pub enough_rounds : ℕ
enough_rounds = suc max_head

abbrev pub first_line : List Text → Result HttpError Text
first_line [] = err no_line
first_line (line ∷ rest) = ok line

abbrev pub method_of : Text → HttpMethod
method_of word =
    if text_eq word (codes "GET")
    then get_method
    else if text_eq word (codes "HEAD")
    then head_method
    else other_method

-- The words of the request line.
unfoldable pub parse_words : List Text → Result HttpError HttpRequest
unfolding text_eq starts_with
parse_words [] = err no_method
parse_words (method ∷ []) = err no_target
parse_words (method ∷ target ∷ []) = err no_version
parse_words (method ∷ target ∷ version ∷ []) = do
  bail_if (not (starts_with (codes "HTTP/1.") version)) invalid_line
  ok (record { method = method_of method; target = target })
parse_words (method ∷ target ∷ version ∷ word ∷ words) = err invalid_line

-- `str::from_utf8` is a parameter.
unfoldable pub read_http_request :
    (List ℕ → Option Text) → (ℕ → Option (List ℕ)) → Result HttpError HttpRequest
unfolding read_head lines split_whitespace parse_words
read_http_request from_utf8 reads = do
  buf ← read_head reads enough_rounds 0 []
  request ← context (from_utf8 buf) not_utf8
  line ← first_line (lines request)
  parse_words (split_whitespace line)

abbrev pub reason_of : ℕ → Text
reason_of code =
    if code == 200
    then codes "OK"
    else if code == 400
    then codes "Bad Request"
    else if code == 404
    then codes "Not Found"
    else if code == 405
    then codes "Method Not Allowed"
    else if code == 502
    then codes "Bad Gateway"
    else codes "Error"

-- The text that `write_http_head` writes.
unfoldable pub http_head : ℕ → ℕ → Text
unfolding to_digits
http_head code content_length =
    codes "HTTP/1.1 "
    ++ to_digits code
    ++ codes " "
    ++ reason_of code
    ++ b'\r' ∷ b'\n' ∷ codes "Content-Length: "
    ++ to_digits content_length
    ++ b'\r' ∷ b'\n' ∷ codes "Content-Type: application/octet-stream"
    ++ b'\r' ∷ b'\n' ∷ codes "Connection: close"
    ++ blank_line
