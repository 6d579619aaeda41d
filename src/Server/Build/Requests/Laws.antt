-- ===== src/Server/Build/Requests/Laws.antt =====
-- crates/drv-thru/src/server/build.rs: which build requests are accepted, and which outputs chosen.
use drv_thru.Base.{
  ◌≡◌, ◌≢◌, ◌↔◌, ◌⊎◌, inl, inr, refl, sym, ap, subst, ◌∙◌, ◌||◌, Bool, true, false, not, List, [],
  ◌∷◌, ◌++◌, ok, arith, All, Bool-cases, any, bail_if, try_map, >>=-eq-ok, >>-eq-ok, bail_if-eq-ok,
  ok-injective,
}
use drv_thru.Text.{Text, text_eq}
use drv_thru.TextMap.{member}
use drv_thru.Nix.StorePath.{texts, StorePath}
use drv_thru.Nix.StorePath.Laws.{IsStorePath}
use drv_thru.Nix.StorePath.Lists.{make-IsStorePath, try_map-texts, texts-append}
use drv_thru.Protocol.{BuildRequest}
use drv_thru.Server.Session.{path_error, no_output_paths, not_realised}
use drv_thru.Server.Build.Requests.{
  CheckedBuildRequest, new_path, is_none, with_drv, check_build_request, select_from,
  selected_outputs,
}

-- A text is among others.
abbrev pub among : Text → List Text → Bool
among drv closure = any (λ path. text_eq path drv) closure

-- The closure with the derivation: as it is if the derivation is in it, and else with it at the end.
abbrev pub ClosureOf : Text → List Text → List Text → Type 0
ClosureOf drv closure whole =
    ((among drv closure ≡ true) × (whole ≡ closure))
    ⊎ ((among drv closure ≡ false) × (whole ≡ closure ++ (drv ∷ [])))

-- What the check makes of a request.
abbrev pub CheckOf : BuildRequest → List Text → CheckedBuildRequest → Type 0
CheckOf request closure b =
    (b.installable ≡ request.installable)
    × (b.output_mode ≡ request.output_mode)
    × (b.rebuild ≡ request.rebuild)
    × (b.drv_path.text ≡ request.drv_path)
    × IsStorePath request.drv_path
    × (texts b.output_paths ≡ request.output_paths)
    × All IsStorePath request.output_paths
    × (b.output_paths ≢ [])
    × All IsStorePath closure
    × ClosureOf request.drv_path closure (texts b.closure_paths)

among-texts :
    (drv : Text) (paths : List StorePath)
    → any (λ p. text_eq p.text drv) paths ≡ among drv (texts paths)
among-texts drv [] = refl
among-texts drv (p ∷ paths) = ap (◌||◌ (text_eq p.text drv)) (among-texts drv paths)

with_drv-ClosureOf :
    (p : StorePath) (paths : List StorePath)
    → ClosureOf p.text (texts paths) (texts (with_drv p paths))
with_drv-ClosureOf p paths = elim (Bool-cases (any (λ q. text_eq q.text p.text) paths)) [
  | inl e ↦ rw e (inl (sym (among-texts p.text paths) ∙ e, refl))
  | inr e ↦ rw e (inr (sym (among-texts p.text paths) ∙ e, texts-append paths (p ∷ [])))
]

is_none-ne : (paths : List StorePath) → is_none paths ≡ false → paths ≢ []
is_none-ne [] h e = ground arith
is_none-ne (p ∷ paths) h e = ground arith

-- An accepted request names a derivation and at least one output, and these and the closure are
-- store paths; the checked request has them as they were sent, with the derivation behind the
-- closure if it was not in it.
pub check_build_request-CheckOf :
    (request : BuildRequest) (closure : List Text) (b : CheckedBuildRequest)
    → check_build_request request closure ≡ ok b
    → CheckOf request closure b
unfolding check_build_request
check_build_request-CheckOf request closure b h =
    let (drv, e, h1) = >>=-eq-ok (new_path request.drv_path) _ h in
    let (outputs, f, h2) = >>=-eq-ok (try_map new_path request.output_paths) _ h1 in
    let (some_output, h3) = >>-eq-ok (bail_if (is_none outputs) no_output_paths) _ h2 in
    let (paths, g, h4) = >>=-eq-ok (try_map new_path closure) _ h3 in
    let (is_drv, drv_path) = make-IsStorePath path_error request.drv_path drv e in
    let (are_outputs, output_paths) = try_map-texts path_error request.output_paths outputs f in
    let (are_paths, closure_paths) = try_map-texts path_error closure paths g in
    subst (CheckOf request closure) (ok-injective h4) (
      refl,
      refl,
      refl,
      is_drv,
      drv_path,
      are_outputs,
      output_paths,
      is_none-ne outputs (bail_if-eq-ok _ _ some_output),
      closure_paths,
      subst (λ t. ClosureOf t closure (texts (with_drv drv paths))) is_drv
          (subst (λ ts. ClosureOf drv.text ts (texts (with_drv drv paths))) are_paths
            (with_drv-ClosureOf drv paths)),
    )

-- The texts are members of a list of texts.
abbrev pub AllRealised : List Text → List StorePath → Type 0
AllRealised realised requested = All (λ p. member p.text realised ≡ true) requested

select_from-AllRealised :
    (realised : List Text) (requested chosen : List StorePath)
    → select_from realised requested ≡ ok chosen
    → (chosen ≡ requested) × AllRealised realised requested
unfolding select_from
select_from-AllRealised realised [] chosen h = (sym (ok-injective h), tt)
select_from-AllRealised realised (p ∷ requested) chosen h =
    let (is_there, h1) =
      >>-eq-ok (bail_if (not (member p.text realised)) (not_realised p.text)) _ h in
    let (rest, e, h2) = >>=-eq-ok (select_from realised requested) _ h1 in
    let (same, all) = select_from-AllRealised realised requested rest e in
    let not_missing = bail_if-eq-ok (not (member p.text realised)) (not_realised p.text) is_there in
    (sym (ok-injective h2) ∙ ap (◌∷◌ p) same, (ground arith, all))

AllRealised-select_from :
    (realised : List Text) (requested : List StorePath)
    → AllRealised realised requested
    → select_from realised requested ≡ ok requested
unfolding select_from
AllRealised-select_from realised [] h = refl
AllRealised-select_from realised (p ∷ requested) (m, h) =
    rw (m, AllRealised-select_from realised requested h) refl

-- The outputs that are chosen are all the requested ones, in their order and with their
-- repetitions, and they are chosen exactly if each of them was realised.
pub selected_outputs_iff :
    (requested all_outputs chosen : List StorePath)
    → (selected_outputs requested all_outputs ≡ ok chosen)
      ↔ ((chosen ≡ requested) × AllRealised (texts all_outputs) requested)
unfolding selected_outputs
selected_outputs_iff requested all_outputs chosen = (
  select_from-AllRealised (texts all_outputs) requested chosen,
  λ (e, h). AllRealised-select_from (texts all_outputs) requested h ∙ ap ok (sym e),
)
