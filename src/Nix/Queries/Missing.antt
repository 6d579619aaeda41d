-- ===== src/Nix/Queries/Missing.antt =====
-- crates/drv-thru/src/nix.rs: `missing_paths` against the set of valid paths.
use drv_thru.Base.{
  ◌≡◌, refl, sym, ap, subst, Bool, true, false, not, ◌&&◌, List, [], ◌∷◌, ◌++◌, some, ok, arith,
  All, All-append_left, All-append_right, Bool-cases, keep, append_assoc, append-nil, inl, inr,
}
use drv_thru.Text.{Text, codes, text_eq}
use drv_thru.Text.Prefix.{text_eq_self, text_eq_sound}
use drv_thru.TextMap.{member, member-append}
use drv_thru.Nix.StorePath.{StorePath, texts}
use drv_thru.Nix.StorePath.Laws.{IsStorePath}
use drv_thru.Nix.StorePath.Lists.{texts-try_map, texts-append}
use drv_thru.Nix.Queries.{
  Programs, bad_path, run_command, output_lines, missing_chunk, missing_loop, missing_paths,
  path_arg_chunk_size,
}
use drv_thru.Protocol.PathChunks.Chunks.{chunks, concat, concat-chunks}

-- `nix-store --check-validity --print-invalid` prints those of its arguments that are not valid.
abbrev pub Answers : Programs → (Text → Bool) → List StorePath → Type 0
Answers run valid chunk =
    (out : Text) × (run (codes "nix-store")
        (codes "--check-validity" ∷ codes "--print-invalid" ∷ texts chunk)
      ≡ some (record { success = true; stdout = some out; stderr = [] }))
    × (output_lines out ≡ keep (λ t. not (valid t)) (texts chunk))

-- The paths that are not valid, in their order.
abbrev pub invalid : (Text → Bool) → List StorePath → List StorePath
invalid valid paths = keep (λ p. not (valid p.text)) paths

member_head : (t : Text) (ts : List Text) → member t (t ∷ ts) ≡ true
unfolding member
member_head t ts = ground (arith, text_eq_self t)

-- The paths of a list are members of it.
member_self :
    (front paths : List StorePath) → All (λ p. member p.text (texts (front ++ paths)) ≡ true) paths
member_self front [] = tt
member_self front (p ∷ paths) =
    let found = member_head p.text (texts paths) in
    (
      rw (texts-append front (p ∷ paths), member-append p.text (texts front) (p.text ∷ texts paths))
          (ground (arith, found)),
      subst (λ ps. All (λ q. member q.text (texts ps) ≡ true) paths)
          (append_assoc front (p ∷ []) paths) (member_self (front ++ (p ∷ [])) paths),
    )

module _ (valid : Text → Bool) where
  texts-invalid :
      (paths : List StorePath)
      → texts (invalid valid paths) ≡ keep (λ t. not (valid t)) (texts paths)
  texts-invalid [] = refl
  texts-invalid (p ∷ paths) = ground (arith, texts-invalid paths)

  All-invalid :
      (paths : List StorePath)
      → All IsStorePath (texts paths)
      → All IsStorePath (texts (invalid valid paths))
  All-invalid [] h = tt
  All-invalid (p ∷ paths) (is_path, h) =
      kept (not (valid p.text)) p (invalid valid paths) is_path (All-invalid paths h)
    where
      kept :
          (test : Bool) (q : StorePath) (rest : List StorePath)
          → IsStorePath q.text
          → All IsStorePath (texts rest)
          → All IsStorePath (texts (elim test [ true ↦ q ∷ rest | false ↦ rest ]))
      kept true q rest v r = (v, r)
      kept false q rest v r = r

  invalid-append :
      (xs ys : List StorePath) → invalid valid (xs ++ ys) ≡ invalid valid xs ++ invalid valid ys
  invalid-append [] ys = refl
  invalid-append (x ∷ xs) ys = ground (arith, invalid-append xs ys)

  member-invalid :
      (t : Text) (paths : List StorePath)
      → member t (texts (invalid valid paths)) ≡ (member t (texts paths) && not (valid t))
  unfolding member
  member-invalid t [] = refl
  member-invalid t (p ∷ paths) = elim (Bool-cases (text_eq p.text t)) [
    | inl e ↦
        let same = ap valid (text_eq_sound p.text t e) in
        ground (arith, same, member-invalid t paths)
    | inr e ↦ ground (arith, member-invalid t paths)
  ]

  -- Among the paths themselves the set of invalid ones decides.
  keep-missing :
      (missing : List Text) (all paths : List StorePath)
      → ((t : Text) → member t missing ≡ (member t (texts all) && not (valid t)))
      → All (λ p. member p.text (texts all) ≡ true) paths
      → keep (λ p. member p.text missing) paths ≡ invalid valid paths
  keep-missing missing all [] m h = refl
  keep-missing missing all (p ∷ paths) m (here, h) =
      ground (arith, m p.text, keep-missing missing all paths m h)

  missing_chunk-invalid :
      (run : Programs) (chunk : List StorePath)
      → Answers run valid chunk
      → All IsStorePath (texts chunk)
      → missing_chunk run chunk ≡ ok (invalid valid chunk)
  unfolding missing_chunk run_command
  missing_chunk-invalid run chunk (out, answer, printed) h =
      rw (answer, printed, ← texts-invalid chunk)
        (texts-try_map bad_path (invalid valid chunk) (All-invalid chunk h))

  missing_loop-invalid :
      (run : Programs) (missing : List StorePath) (parts : List (List StorePath))
      → All (Answers run valid) parts
      → All IsStorePath (texts (concat parts))
      → missing_loop run (texts missing) parts
        ≡ ok (texts (missing ++ invalid valid (concat parts)))
  unfolding missing_loop
  missing_loop-invalid run missing [] a h = ap (λ m. ok (texts m)) (sym (append-nil missing))
  missing_loop-invalid run missing (chunk ∷ parts) (answer, a) h =
      let split : All IsStorePath (texts chunk ++ texts (concat parts)) =
        subst (All IsStorePath) (texts-append chunk (concat parts)) h in
      rw
        (
          missing_chunk-invalid run chunk answer
              (All-append_left IsStorePath (texts chunk) (texts (concat parts)) split),
          ← texts-append missing (invalid valid chunk),
          missing_loop-invalid run (missing ++ invalid valid chunk) parts a
              (All-append_right IsStorePath (texts chunk) (texts (concat parts)) split),
          invalid-append chunk (concat parts),
          append_assoc missing (invalid valid chunk) (invalid valid (concat parts)),
        )
        refl

-- If each call of `nix-store --check-validity --print-invalid` that is made succeeds and prints
-- exactly those of its arguments that are not valid, then `missing_paths` gives the paths that are
-- not valid, in their order and with their repetitions: the chunks make no difference.
pub missing_paths-invalid :
    (run : Programs) (valid : Text → Bool) (paths : List StorePath)
    → All IsStorePath (texts paths)
    → All (Answers run valid) (chunks path_arg_chunk_size paths)
    → missing_paths run paths ≡ ok (invalid valid paths)
unfolding missing_paths
missing_paths-invalid run valid [] h a = refl
missing_paths-invalid run valid (p ∷ paths) h a =
    let all = p ∷ paths in
    let whole = concat-chunks path_arg_chunk_size all (omega arith) in
    let looped =
      missing_loop-invalid valid run [] (chunks path_arg_chunk_size all) a
        (subst (λ ps. All IsStorePath (texts ps)) (sym whole) h) in
    rw (looped, whole)
      (ap ok (
        keep-missing valid (texts (invalid valid all)) all all (λ t. member-invalid valid t all)
          (member_self [] all)))
