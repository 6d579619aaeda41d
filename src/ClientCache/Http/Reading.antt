-- ===== src/ClientCache/Http/Reading.antt =====
-- crates/drv-thru/src/client_cache/mod.rs: the loop of `read_http_request`.
use drv_thru.Base.{
  ℕ, zero, suc, ◌+◌, ◌≡◌, ◌≢◌, ◌≤◌, ◌<◌, refl, true, Bool-cases, inl, inr, List, [], ◌∷◌, ◌++◌,
  Option, none, some, Result, ok, err, ltb, ltb-eq-false, subst, arith, length, length-append,
}
use drv_thru.Text.{contains}
use drv_thru.ClientCache.Http.{
  HttpError, out_of_rounds, blank_line, max_head, enough_rounds, Round, stop, more, after_read,
  go_on, read_head,
}

-- Every read fits into the chunk of the loop.
abbrev pub FitsChunk : (ℕ → Option (List ℕ)) → Type 0
FitsChunk reads = (i : ℕ) (chunk : List ℕ) → reads i ≡ some chunk → length chunk ≤ 1_024

-- What a round leaves: the loop ends with a short head, or with an error of the code, or the buffer
-- has grown and is within the limit.
abbrev IsHead : Result HttpError (List ℕ) → Type 0
IsHead (ok buf) = (contains blank_line buf ≡ true) × (length buf ≤ 17_408)
IsHead (err e) = e ≢ out_of_rounds

abbrev GoesOn : List ℕ → Round → Type 0
GoesOn buf (stop result) = IsHead result
GoesOn buf (more longer) = (length buf < length longer) × (length longer ≤ max_head)

length_longer :
    (buf chunk : List ℕ) (c : ℕ) → length (buf ++ c ∷ chunk) ≡ length buf + suc (length chunk)
length_longer buf chunk c = length-append buf (c ∷ chunk)

after_read-GoesOn :
    (buf : List ℕ) (read : Option (List ℕ))
    → ((chunk : List ℕ) → read ≡ some chunk → length chunk ≤ 1_024)
    → length buf ≤ max_head
    → GoesOn buf (after_read buf read)
unfolding after_read
after_read-GoesOn buf none fits h = ground arith
after_read-GoesOn buf (some []) fits h = ground arith
after_read-GoesOn buf (some (c ∷ chunk)) fits h =
    let small = fits (c ∷ chunk) refl in
    elim (Bool-cases (contains blank_line (buf ++ c ∷ chunk))) [
      | inl found ↦ rw found (found, omega (arith, length_longer buf chunk c))
      | inr open_head ↦ elim (Bool-cases (ltb max_head (length (buf ++ c ∷ chunk)))) [
        | inl large ↦ rw (open_head, large) (λ e. ground arith)
        | inr within ↦
            rw (open_head, within)
              (
                omega (arith, length_longer buf chunk c),
                ltb-eq-false max_head (length (buf ++ c ∷ chunk)) within,
              )
      ]
    ]

go_on-IsHead :
    (buf : List ℕ) (r : Round) (next : List ℕ → Result HttpError (List ℕ))
    → GoesOn buf r
    → ((longer : List ℕ)
        → length buf < length longer
        → length longer ≤ max_head
        → IsHead (next longer))
    → IsHead (go_on r next)
go_on-IsHead buf (stop result) next left h = left
go_on-IsHead buf (more longer) next (grown, within) h = h longer grown within

-- On rounds that outnumber the bytes that still fit, the loop ends by itself.
read_head-IsHead :
    (reads : ℕ → Option (List ℕ)) (rounds i : ℕ) (buf : List ℕ)
    → FitsChunk reads
    → length buf ≤ max_head
    → max_head < rounds + length buf
    → IsHead (read_head reads rounds i buf)
unfolding read_head
read_head-IsHead reads zero i buf fits h n = absurd (omega arith)
read_head-IsHead reads (suc rounds) i buf fits h n =
    go_on-IsHead buf (after_read buf (reads i)) _ (after_read-GoesOn buf (reads i) (fits i) h)
      (λ longer grown within.
        read_head-IsHead reads rounds (suc i) longer fits within (omega arith))

-- A loop that ends is not changed by more rounds.
abbrev Ends : Result HttpError (List ℕ) → Type 0
Ends r = r ≢ err out_of_rounds

go_on-same :
    (r : Round) (next next' : List ℕ → Result HttpError (List ℕ))
    → ((longer : List ℕ) → Ends (next longer) → next' longer ≡ next longer)
    → Ends (go_on r next)
    → go_on r next' ≡ go_on r next
go_on-same (stop result) next next' same h = refl
go_on-same (more longer) next next' same h = same longer h

read_head-more :
    (reads : ℕ → Option (List ℕ)) (rounds others i : ℕ) (buf : List ℕ)
    → rounds ≤ others
    → Ends (read_head reads rounds i buf)
    → read_head reads others i buf ≡ read_head reads rounds i buf
unfolding read_head
read_head-more reads zero others i buf n h = absurd (h refl)
read_head-more reads (suc rounds) zero i buf n h = absurd (omega arith)
read_head-more reads (suc rounds) (suc others) i buf n h =
    go_on-same (after_read buf (reads i)) _ _
      (λ longer. read_head-more reads rounds others (suc i) longer (omega arith)) h

IsHead-Ends : (r : Result HttpError (List ℕ)) → IsHead r → Ends r
IsHead-Ends (ok buf) h = ground arith
IsHead-Ends (err e) h = λ same. h (err_same same)
  where
    err_same : {a b : HttpError} → ◌≡◌ {A = Result HttpError (List ℕ)} (err a) (err b) → a ≡ b
    err_same same = cc

-- Whatever is read in chunks of at most 1,024 bytes, the loop over the reads ends within 16,385 of
-- them, more rounds give the same, and a head that it returns has the blank line and at most 17,408
-- bytes.
pub read_head-ends :
    (reads : ℕ → Option (List ℕ))
    → FitsChunk reads
    → (read_head reads enough_rounds 0 [] ≢ err out_of_rounds)
      × ((rounds : ℕ)
          → enough_rounds ≤ rounds
          → read_head reads rounds 0 [] ≡ read_head reads enough_rounds 0 [])
      × ((buf : List ℕ)
          → read_head reads enough_rounds 0 [] ≡ ok buf
          → (contains blank_line buf ≡ true) × (length buf ≤ 17_408))
read_head-ends reads fits =
    let head = read_head-IsHead reads enough_rounds 0 [] fits (omega arith) (omega arith) in
    let ends = IsHead-Ends _ head in
    (
      ends,
      λ rounds n. read_head-more reads enough_rounds rounds 0 [] n ends,
      λ buf e. subst IsHead e head,
    )
