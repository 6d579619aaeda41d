-- ===== src/Protocol/PathChunks/Bounds.antt =====
-- crates/drv-thru/src/protocol/path_chunks.rs: when a path list is read, and how much of it.
use drv_thru.Base.{
  ℕ, suc, ◌+◌, ◌-◌, ◌≤◌, ◌<◌, ◌≡◌, refl, sym, ap, subst, ◌∙◌, ◌↔◌, ◌⊎◌, inl, inr, Bool, true, false,
  Bool-cases, List, [], ◌∷◌, ◌++◌, append_assoc, some, arith, Result, ok, err, >>=-eq-ok, length,
  length-append, if◌then◌else◌,
}
use drv_thru.Text.{Text}
use drv_thru.Protocol.{Message, PathListChunk}
use drv_thru.Protocol.PathChunks.{
  PathListKind, ReadLimits, ReadState, ReadError, Incoming, usize_mod, chunk_of, byte_count,
  check_limits, read_rounds, read_with_timeout,
}

-- What n messages of one kind say, the last of them and no other marked as the last: their paths,
-- one after the other, and the stream that is left.
abbrev pub Reads : PathListKind → List Incoming → ℕ → List Text → List Incoming → Type 0
Reads kind [] n out rest = ⊥
Reads kind (err e ∷ recv) n out rest = ⊥
Reads kind (ok message ∷ recv) n out rest =
    (chunk : PathListChunk) × (chunk_of kind message ≡ ok chunk)
    × (((chunk.done ≡ true) × (n ≡ 1) × (out ≡ chunk.paths) × (rest ≡ recv))
        ⊎ ((chunk.done ≡ false)
            × ((k : ℕ) × (later : List Text) × (n ≡ suc k)
                × (out ≡ chunk.paths ++ later)
                × Reads kind recv k later rest)))

-- The limits, for n messages with these paths.
abbrev pub Within : ReadLimits → ℕ → List Text → Type 0
Within limits n out =
    (n ≤ limits.chunks) × (length out ≤ limits.paths) × (byte_count out ≤ limits.bytes)

pub byte_count-append : (xs ys : List Text) → byte_count (xs ++ ys) ≡ byte_count xs + byte_count ys
unfolding byte_count
byte_count-append [] ys = omega arith
byte_count-append (x ∷ xs) ys = omega (arith, byte_count-append xs ys)

module _ (limits : ReadLimits) (paths : List Text) (chunk : PathListChunk) (state : ReadState) where
  -- What a chunk that passes adds up to.
  abbrev Passes : ReadState → Type 0
  Passes next =
      (next.chunks ≡ state.chunks + 1)
      × (next.path_bytes ≡ state.path_bytes + byte_count chunk.paths)
      × (next.chunks ≤ limits.chunks)
      × (length paths + length chunk.paths ≤ limits.paths)
      × (next.path_bytes ≤ limits.bytes)

  check_limits-Passes :
      (next : ReadState)
      → limits.paths < usize_mod - 1
      → check_limits paths chunk state limits ≡ ok next
      → Passes next
  unfolding check_limits
  check_limits-Passes next h e = ground arith

  Passes-check_limits :
      (next : ReadState)
      → limits.bytes < usize_mod
      → Passes next
      → check_limits paths chunk state limits ≡ ok next
  unfolding check_limits
  Passes-check_limits next h p = ground arith

-- What a run of the rounds shows, from any paths and counters on.
record Run (kind : PathListKind) (limits : ReadLimits) (paths : List Text) (state : ReadState)
    (recv : List Incoming) (out : List Text) (rest : List Incoming) : Type 0 where
  n : ℕ
  later : List Text
  reads : Reads kind recv n later rest
  whole : out ≡ paths ++ later
  chunks_in : state.chunks + n ≤ limits.chunks
  paths_in : length out ≤ limits.paths
  bytes_in : byte_count out ≤ limits.bytes

-- The round that stops, and one that goes on.
stop_round :
    (done : Bool) (xs out : List Text) (recv rest : List Incoming)
    (more : Result ReadError (List Text × List Incoming))
    → done ≡ true
    → (if done then ok (xs, recv) else more) ≡ ok (out, rest)
    → (out ≡ xs) × (rest ≡ recv)
stop_round done xs out recv rest more e h = ground arith

go_on :
    (done : Bool) (xs : List Text) (recv : List Incoming)
    (more result : Result ReadError (List Text × List Incoming))
    → done ≡ false
    → (if done then ok (xs, recv) else more) ≡ result
    → more ≡ result
go_on done xs recv more result e h = ground arith

rounds-Run :
    (kind : PathListKind) (limits : ReadLimits) (paths : List Text) (state : ReadState)
    (recv : List Incoming) (out : List Text) (rest : List Incoming)
    → limits.paths < usize_mod - 1
    → byte_count paths ≡ state.path_bytes
    → read_rounds kind (some limits) paths state recv ≡ ok (out, rest)
    → Run kind limits paths state recv out rest
unfolding read_rounds
rounds-Run kind limits paths state [] out rest small count h = cc
rounds-Run kind limits paths state (err e ∷ recv) out rest small count h = cc
rounds-Run kind limits paths state (ok message ∷ recv) out rest small count h =
    let (chunk, is_chunk, h₁) = >>=-eq-ok (chunk_of kind message) _ h in
    let (next, checked, h₂) = >>=-eq-ok (check_limits paths chunk state limits) _ h₁ in
    let passes = check_limits-Passes limits paths chunk state next small checked in
    let sum = byte_count-append paths chunk.paths in
    let all_paths = length-append paths chunk.paths in
    elim (Bool-cases chunk.done) [
      | inl last ↦
          let (same, left) = stop_round chunk.done _ _ _ _ _ last h₂ in
          record {
            n = 1;
            later = chunk.paths;
            reads = (chunk, is_chunk, inl (last, refl, refl, left));
            whole = same;
            chunks_in = omega arith;
            paths_in = rw same (omega arith);
            bytes_in = rw same (omega arith);
          }
      | inr more ↦
          let run =
            rounds-Run kind limits (paths ++ chunk.paths) next recv out rest small (omega arith)
              (go_on chunk.done _ _ _ _ more h₂) in
          record {
            n = suc run.n;
            later = chunk.paths ++ run.later;
            reads = (chunk, is_chunk, inr (more, (run.n, run.later, refl, refl, run.reads)));
            whole = run.whole ∙ append_assoc paths chunk.paths run.later;
            chunks_in = omega arith;
            paths_in = run.paths_in;
            bytes_in = run.bytes_in;
          }
    ]

round-step :
    (kind : PathListKind) (limits : ReadLimits) (paths : List Text) (state next : ReadState)
    (message : Message) (chunk : PathListChunk) (recv : List Incoming)
    → chunk_of kind message ≡ ok chunk
    → check_limits paths chunk state limits ≡ ok next
    → read_rounds kind (some limits) paths state (ok message ∷ recv) ≡ (
        if chunk.done
        then ok (paths ++ chunk.paths, recv)
        else read_rounds kind (some limits) (paths ++ chunk.paths) next recv)
unfolding read_rounds
round-step kind limits paths state next message chunk recv e f = rw e (rw f refl)

Reads-rounds :
    (kind : PathListKind) (limits : ReadLimits) (paths : List Text) (state : ReadState)
    (recv : List Incoming) (n : ℕ) (later : List Text) (rest : List Incoming)
    → limits.bytes < usize_mod
    → byte_count paths ≡ state.path_bytes
    → Reads kind recv n later rest
    → state.chunks + n ≤ limits.chunks
    → length (paths ++ later) ≤ limits.paths
    → byte_count (paths ++ later) ≤ limits.bytes
    → read_rounds kind (some limits) paths state recv ≡ ok (paths ++ later, rest)
Reads-rounds kind limits paths state [] n later rest small count r a b c = absurd r
Reads-rounds kind limits paths state (err e ∷ recv) n later rest small count r a b c = absurd r
Reads-rounds kind limits paths state (ok message ∷ recv) n later rest small count
      (chunk, e, inl (last, one, same, left)) a b c =
    let next : ReadState = record {
      chunks = state.chunks + 1;
      path_bytes = state.path_bytes + byte_count chunk.paths;
    } in
    let b' : length (paths ++ chunk.paths) ≤ limits.paths = rw same at b in
    let c' : byte_count (paths ++ chunk.paths) ≤ limits.bytes = rw same at c in
    let passes : Passes limits paths chunk state next = (
      refl,
      refl,
      omega arith,
      omega (arith, length-append paths chunk.paths),
      omega (arith, byte_count-append paths chunk.paths),
    ) in
    round-step kind limits paths state next message chunk recv e
      (Passes-check_limits limits paths chunk state next small passes)
    ∙ rw (last, same, left) refl
Reads-rounds kind limits paths state (ok message ∷ recv) n later rest small count
      (chunk, e, inr (more, (k, tail, suc_k, same, r))) a b c =
    let next : ReadState = record {
      chunks = state.chunks + 1;
      path_bytes = state.path_bytes + byte_count chunk.paths;
    } in
    let whole : paths ++ later ≡ (paths ++ chunk.paths) ++ tail =
      ap (◌++◌ paths) same ∙ sym (append_assoc paths chunk.paths tail) in
    let b' : length ((paths ++ chunk.paths) ++ tail) ≤ limits.paths = rw whole at b in
    let c' : byte_count ((paths ++ chunk.paths) ++ tail) ≤ limits.bytes = rw whole at c in
    let passes : Passes limits paths chunk state next = (
      refl,
      refl,
      omega arith,
      omega (arith, length-append paths chunk.paths, length-append (paths ++ chunk.paths) tail),
      omega (
        arith,
        byte_count-append paths chunk.paths,
        byte_count-append (paths ++ chunk.paths) tail,
      ),
    ) in
    let later_rounds =
      Reads-rounds kind limits (paths ++ chunk.paths) next recv k tail rest small
        (omega (arith, byte_count-append paths chunk.paths)) r (omega arith) b' c' in
    round-step kind limits paths state next message chunk recv e
      (Passes-check_limits limits paths chunk state next small passes)
    ∙ rw more later_rounds
    ∙ ap (λ xs. ok (xs, rest)) (sym whole)

-- With limits on paths and bytes that a `usize` holds (the one on paths not its greatest value), a
-- read succeeds exactly if the stream begins with a list of the kind that is within the limits,
-- and gives its paths and the stream behind it.
pub read_with_timeout_iff :
    (kind : PathListKind) (limits : ReadLimits) (recv : List Incoming) (out : List Text)
    (rest : List Incoming)
    → limits.paths < usize_mod - 1
    → limits.bytes < usize_mod
    → (read_with_timeout kind limits recv ≡ ok (out, rest))
      ↔ ((n : ℕ) × Reads kind recv n out rest × Within limits n out)
unfolding read_with_timeout byte_count
read_with_timeout_iff kind limits recv out rest small_paths small_bytes = (there, back)
  where
    there :
        read_with_timeout kind limits recv ≡ ok (out, rest)
        → (n : ℕ) × Reads kind recv n out rest × Within limits n out
    there h =
        let run = rounds-Run kind limits [] _ recv out rest small_paths refl h in
        (
          run.n,
          subst (λ o. Reads kind recv run.n o rest) (sym run.whole) run.reads,
          (omega (arith, run.chunks_in), run.paths_in, run.bytes_in),
        )

    back :
        (n : ℕ) × Reads kind recv n out rest × Within limits n out
        → read_with_timeout kind limits recv ≡ ok (out, rest)
    back (n, r, (a, b, c)) =
        Reads-rounds kind limits [] _ recv n out rest small_bytes refl r (omega arith) b c
