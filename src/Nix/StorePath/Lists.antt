-- ===== src/Nix/StorePath/Lists.antt =====
-- crates/drv-thru/src/nix.rs: lists of texts that are all made store paths.
use drv_thru.Base.{
  ◌≡◌, refl, ap, subst, List, [], ◌∷◌, ◌++◌, Result, ok, map_err, try_map, All, >>=-eq-ok,
  ok-injective, arith,
}
use drv_thru.Text.{Text}
use drv_thru.Nix.StorePath.{StorePath, PathError, new, texts}
use drv_thru.Nix.StorePath.Laws.{IsStorePath, new_iff}

pub texts-append : (ps qs : List StorePath) → texts (ps ++ qs) ≡ texts ps ++ texts qs
texts-append [] qs = refl
texts-append (p ∷ ps) qs = ap (◌∷◌ p.text) (texts-append ps qs)

module _ {E : Type 0} (wrap : PathError → E) where
  abbrev make : Text → Result E StorePath
  make text = map_err wrap (new text)

  pub make-IsStorePath : (s : Text) (p : StorePath) → make s ≡ ok p → (p.text ≡ s) × IsStorePath s
  make-IsStorePath s p h = (new_iff s p).0 (ground arith)

  pub IsStorePath-make : (p : StorePath) → IsStorePath p.text → make p.text ≡ ok p
  IsStorePath-make p h = rw ((new_iff p.text p).1 (refl, h)) refl

  -- The paths have the texts of the list, each of which is a store path.
  pub try_map-texts :
      (ts : List Text) (ps : List StorePath)
      → try_map make ts ≡ ok ps
      → (texts ps ≡ ts) × All IsStorePath ts
  try_map-texts [] ps h = (subst (λ qs. texts qs ≡ []) (ok-injective h) refl, tt)
  try_map-texts (t ∷ ts) ps h =
      let (p, e, h1) = >>=-eq-ok (make t) _ h in
      let (qs, f, h2) = >>=-eq-ok (try_map make ts) _ h1 in
      let (same, is_path) = make-IsStorePath t p e in
      let (sames, are_paths) = try_map-texts ts qs f in
      (
        subst (λ rs. texts rs ≡ t ∷ ts) (ok-injective h2) (rw (same, sames) refl),
        (is_path, are_paths),
      )

  pub texts-try_map :
      (ps : List StorePath) → All IsStorePath (texts ps) → try_map make (texts ps) ≡ ok ps
  texts-try_map [] h = refl
  texts-try_map (p ∷ ps) (is_path, h) = rw (IsStorePath-make p is_path, texts-try_map ps h) refl
