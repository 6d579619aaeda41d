-- ===== src/Nix/Queries/Closure.antt =====
-- crates/drv-thru/src/nix.rs: what `query_closure` makes of the lines that Nix prints.
use drv_thru.Base.{
  ◌≡◌, refl, sym, ap, subst, true, false, not, ◌&&◌, List, [], ◌∷◌, ok, arith, All, Bool-cases,
  >>=-eq-ok, ok-injective, inl, inr,
}
use drv_thru.Text.{Text, codes, text_eq}
use drv_thru.Text.Prefix.{text_eq_iff, text_eq_self}
use drv_thru.TextMap.{member, Distinct}
use drv_thru.Nix.StorePath.{StorePath, texts}
use drv_thru.Nix.StorePath.Laws.{IsStorePath}
use drv_thru.Nix.StorePath.Lists.{make-IsStorePath}
use drv_thru.Nix.Queries.{
  Programs, bad_path, store_path, closure_loop, query_closure, run_command, output_lines,
}

-- What the loop gives for its lines: the paths that were not seen, once each.
record Closure (seen lines : List Text) (closure : List StorePath) : Type 0 where
  once : Distinct (texts closure)
  members : (t : Text) → member t (texts closure) ≡ (member t lines && not (member t seen))
  valid : All IsStorePath (texts closure)

Closure-seen :
    (seen rest : List Text) (line : Text) (closure : List StorePath)
    → member line seen ≡ true
    → Closure seen rest closure
    → Closure seen (line ∷ rest) closure
unfolding member
Closure-seen seen rest line closure h c = record {
  once = c.once;
  members = λ t. elim (Bool-cases (text_eq line t)) [
    | inl e ↦
        let is_t = ap (λ s. member s seen) ((text_eq_iff line t).0 e) in
        ground (arith, c.members t, is_t)
    | inr e ↦ ground (arith, c.members t)
  ];
  valid = c.valid;
}

Closure-new :
    (seen rest : List Text) (p : StorePath) (closure : List StorePath)
    → member p.text seen ≡ false
    → IsStorePath p.text
    → Closure (p.text ∷ seen) rest closure
    → Closure seen (p.text ∷ rest) (p ∷ closure)
unfolding member
Closure-new seen rest p closure h v c = record {
  once = (ground (arith, c.members p.text, text_eq_self p.text), c.once);
  members = λ t. elim (Bool-cases (text_eq p.text t)) [
    | inl e ↦
        let is_t = ap (λ s. member s seen) ((text_eq_iff p.text t).0 e) in
        ground (arith, c.members t, is_t)
    | inr e ↦ ground (arith, c.members t)
  ];
  valid = (v, c.valid);
}

closure_loop-Closure :
    (lines seen : List Text) (closure : List StorePath)
    → closure_loop seen lines ≡ ok closure
    → Closure seen lines closure
unfolding closure_loop
closure_loop-Closure [] seen closure h =
    subst (Closure seen []) (ok-injective h) (record { once = tt; members = λ t. refl; valid = tt })
closure_loop-Closure (line ∷ rest) seen closure h =
    let (p, e, h1) = >>=-eq-ok (store_path line) _ h in
    let (same, v) = make-IsStorePath bad_path line p e in
    let v' : IsStorePath p.text = subst IsStorePath (sym same) v in
    subst (λ l. Closure seen (l ∷ rest) closure) same
      (elim (Bool-cases (member p.text seen)) [
        | inl m ↦
            Closure-seen seen rest p.text closure m
              (closure_loop-Closure rest seen closure (rw m at h1))
        | inr m ↦
            let (others, f, h2) = >>=-eq-ok (closure_loop (p.text ∷ seen) rest) _ (rw m at h1) in
            subst (Closure seen (p.text ∷ rest)) (ok-injective h2) (
              Closure-new seen rest p others m v'
                (closure_loop-Closure rest (p.text ∷ seen) others f))
      ])

-- Where the query of the references of some paths gives an output and a closure is read from it, the
-- closure holds store paths, none of them twice, and a text is one of them exactly if it is one of
-- the lines of the output, without blanks around them.
pub query_closure-Distinct :
    (run : Programs) (p : StorePath) (paths closure : List StorePath) (output t : Text)
    → run_command run (codes "nix-store") (codes "-qR" ∷ texts (p ∷ paths)) ≡ ok output
    → query_closure run (p ∷ paths) ≡ ok closure
    → Distinct (texts closure)
      × All IsStorePath (texts closure)
      × (member t (texts closure) ≡ member t (output_lines output))
unfolding query_closure member
query_closure-Distinct run p paths closure output t q h =
    let c = closure_loop-Closure (output_lines output) [] closure (rw q at h) in
    (c.once, c.valid, ground (arith, c.members t))
