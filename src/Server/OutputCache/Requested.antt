-- ===== src/Server/OutputCache/Requested.antt =====
-- crates/drv-thru/src/server/output_cache.rs: what a client may ask for of a closure.
use drv_thru.Base.{
  ◌≡◌, refl, sym, subst, Result-cases, ap, ◌∙◌, Bool, true, false, ◌||◌, List, [], ◌∷◌, ◌++◌, ok,
  err, arith, Bool-cases, inl, inr, All, All-append,
}
use drv_thru.Text.{Text, text_eq}
use drv_thru.Text.Prefix.{text_eq_iff, text_eq_sound}
use drv_thru.TextMap.{Distinct, member, member-append}
use drv_thru.Nix.StorePath.{texts, StorePath, PathError, new}
use drv_thru.Nix.StorePath.Laws.{new_iff}
use drv_thru.Nix.StorePath.Lists.{texts-append}
use drv_thru.Server.OutputCache.{bad_path, not_built, request_loop, requested_output_paths}

-- The state of the loop: what was seen is what was requested, once each, and was built.
record Loop (allowed seen : List Text) (requested : List StorePath) : Type 0 where
  same : (t : Text) → member t seen ≡ member t (texts requested)
  once : Distinct (texts requested)
  built : All (λ p. member p.text allowed ≡ true) requested

Distinct-append :
    (ts : List Text) (t : Text) → Distinct ts → member t ts ≡ false → Distinct (ts ++ (t ∷ []))
unfolding member
Distinct-append [] t d h = (refl, tt)
Distinct-append (s ∷ ts) t (f, d) h = (
  member-append s ts (t ∷ []) ∙ ground (arith, text_eq_iff s t, text_eq_iff t s),
  Distinct-append ts t d (ground arith),
)

Loop-next :
    (allowed seen : List Text) (requested : List StorePath) (p : StorePath)
    → member p.text allowed ≡ true
    → member p.text seen ≡ false
    → Loop allowed seen requested
    → Loop allowed (p.text ∷ seen) (requested ++ (p ∷ []))
unfolding member
Loop-next allowed seen requested p a s l = record {
  same = λ t.
      ap (λ b. text_eq p.text t || b) (l.same t)
      ∙ sym (
          ap (member t) (texts-append requested (p ∷ []))
          ∙ member-append t (texts requested) (p.text ∷ [])
          ∙ ground arith);
  once =
      subst Distinct (sym (texts-append requested (p ∷ [])))
        (Distinct-append (texts requested) p.text l.once (sym (l.same p.text) ∙ s));
  built = All-append (λ q. member q.text allowed ≡ true) requested (p ∷ []) l.built (a, tt);
}

-- One round, by what the path is.
round-bad :
    (allowed seen : List Text) (requested : List StorePath) (request : List Text) (text : Text)
    (e : PathError)
    → new text ≡ err e
    → request_loop allowed seen requested (text ∷ request) ≡ err (bad_path e)
unfolding request_loop
round-bad allowed seen requested request text e h = rw h refl

round-not_built :
    (allowed seen : List Text) (requested : List StorePath) (request : List Text) (text : Text)
    (p : StorePath)
    → new text ≡ ok p
    → member p.text allowed ≡ false
    → request_loop allowed seen requested (text ∷ request) ≡ err (not_built p.text)
unfolding request_loop
round-not_built allowed seen requested request text p h a = rw (h, a) refl

round-again :
    (allowed seen : List Text) (requested : List StorePath) (request : List Text) (text : Text)
    (p : StorePath)
    → new text ≡ ok p
    → member p.text allowed ≡ true
    → member p.text seen ≡ true
    → request_loop allowed seen requested (text ∷ request)
      ≡ request_loop allowed seen requested request
unfolding request_loop
round-again allowed seen requested request text p h a s = rw (h, a, s) refl

round-first :
    (allowed seen : List Text) (requested : List StorePath) (request : List Text) (text : Text)
    (p : StorePath)
    → new text ≡ ok p
    → member p.text allowed ≡ true
    → member p.text seen ≡ false
    → request_loop allowed seen requested (text ∷ request)
      ≡ request_loop allowed (p.text ∷ seen) (requested ++ (p ∷ [])) request
unfolding request_loop
round-first allowed seen requested request text p h a s = rw (h, a, s) refl

-- The paths that come out, and the texts that went in.
abbrev Granted : List Text → List Text → List Text → Text → List StorePath → Type 0
Granted allowed before request t out =
    (All (λ p. member p.text allowed ≡ true) out)
    × Distinct (texts out)
    × (member t (texts out) ≡ (member t before || member t request))

loop-end :
    (allowed seen : List Text) (requested out : List StorePath)
    → request_loop allowed seen requested [] ≡ ok out
    → requested ≡ out
unfolding request_loop
loop-end allowed seen requested out h = ground arith

or_false : (b : Bool) (t : Text) → b ≡ (b || member t [])
unfolding member
or_false b t = ground arith

seen_again :
    (t text same : Text) (before request : List Text)
    → same ≡ text
    → member same before ≡ true
    → (member t before || member t request) ≡ (member t before || member t (text ∷ request))
unfolding member
seen_again t text same before request e m = elim (Bool-cases (text_eq text t)) [
  | inl k ↦
      let here = subst (λ u. member u before ≡ true) (e ∙ text_eq_sound text t k) m in ground arith
  | inr k ↦ ground arith
]

first_time :
    (t text : Text) (p : StorePath) (requested : List StorePath) (request : List Text)
    → p.text ≡ text
    → (member t (texts (requested ++ (p ∷ []))) || member t request)
      ≡ (member t (texts requested) || member t (text ∷ request))
unfolding member
first_time t text p requested request e =
    let whole =
      ap (member t) (texts-append requested (p ∷ []))
      ∙ member-append t (texts requested) (p.text ∷ []) in
    let same = ap (λ u. text_eq u t) e in ground arith

start : (closure : List StorePath) → Loop (texts closure) [] []
start closure = record { same = λ t. refl; once = tt; built = tt }

loop-result :
    (allowed seen : List Text) (requested out : List StorePath) (request : List Text) (t : Text)
    → Loop allowed seen requested
    → request_loop allowed seen requested request ≡ ok out
    → Granted allowed (texts requested) request t out
loop-result allowed seen requested out [] t l h =
    let e = loop-end allowed seen requested out h in
    subst (Granted allowed (texts requested) [] t) e
      (l.built, l.once, or_false (member t (texts requested)) t)
loop-result allowed seen requested out (text ∷ request) t l h = elim (Result-cases (new text)) [
  | inr (e, n) ↦ absurd (ground (arith, round-bad allowed seen requested request text e n))
  | inl (p, n) ↦ elim (Bool-cases (member p.text allowed)) [
    | inr a ↦ absurd (ground (arith, round-not_built allowed seen requested request text p n a))
    | inl a ↦
        let is_text = ((new_iff text p).0 n).0 in
        elim (Bool-cases (member p.text seen)) [
          | inl s ↦
              let (b, d, m) =
                loop-result allowed seen requested out request t l
                  (sym (round-again allowed seen requested request text p n a s) ∙ h) in
              (
                b,
                d,
                m
                    ∙ seen_again t text p.text (texts requested) request is_text
                        (sym (l.same p.text) ∙ s),
              )
          | inr s ↦
              let (b, d, m) =
                loop-result allowed (p.text ∷ seen) (requested ++ (p ∷ [])) out request t
                  (Loop-next allowed seen requested p a s l)
                  (sym (round-first allowed seen requested request text p n a s) ∙ h) in
              (b, d, m ∙ first_time t text p requested request is_text)
        ]
  ]
]

-- The requested paths were all built, none comes twice, and they are the ones of the request.
pub requested_output_paths_lem :
    (request : List Text) (closure out : List StorePath) (t : Text)
    → requested_output_paths request closure ≡ ok out
    → (All (λ p. member p.text (texts closure) ≡ true) out)
      × Distinct (texts out)
      × (member t (texts out) ≡ member t request)
unfolding requested_output_paths
requested_output_paths_lem request closure out t h =
    loop-result (texts closure) [] [] out request t (start closure) h
