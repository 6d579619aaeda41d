-- ===== src/Cache/Names.antt =====
-- crates/drv-thru/src/cache.rs: the names that the tests of a NAR file and of a `.narinfo` accept.
use drv_thru.Base.{
  ℕ, ◌≡◌, ◌≢◌, refl, ap, ◌∙◌, ◌↔◌, ◌⊎◌, true, false, [], ◌∷◌, ◌++◌, Option, none, some, arith, inl,
  inr, Bool-cases, All, All-map, all-All, All-all, length,
}
use drv_thru.Text.{Text, codes, text_eq, has_char, split, last_part, contains, rsplit_once}
use drv_thru.Text.Prefix.{text_eq_iff, contains-eq-append, contains-append}
use drv_thru.Text.Splitting.{rsplit_once-eq-append, rsplit_once-append}
use drv_thru.Nix.StorePath.{base32_char}
use drv_thru.Nix.StorePath.Laws.{IsBase32, base32_char_iff, len-eq-length}
use drv_thru.Cache.{valid_cache_file_char, valid_narinfo_stem, valid_nar_file_name, is_nar}
use drv_thru.Cache.FilePath.{extension}

-- The name of a NAR file: `.nar` behind a stem, or `.nar.` somewhere.
abbrev pub IsNarName : Text → Type 0
IsNarName name =
    ((stem : Text) × (stem ≢ []) × (name ≡ stem ++ codes ".nar"))
    ⊎ ((a : Text) × (b : Text) × (name ≡ a ++ codes ".nar." ++ b))

extension-IsNarName :
    (name : Text)
    → is_nar (extension name) ≡ true
    → (stem : Text) × (stem ≢ []) × (name ≡ stem ++ codes ".nar")
unfolding extension
extension-IsNarName name h = parts (rsplit_once b'.' name) refl
  where
    parts :
        (o : Option (Text × Text))
        → rsplit_once b'.' name ≡ o
        → (stem : Text) × (stem ≢ []) × (name ≡ stem ++ codes ".nar")
    parts none e = ground arith
    parts (some ([], after)) e = ground arith
    parts (some (c ∷ before, after)) e =
        let nar : after ≡ codes "nar" = ground (arith, text_eq_iff after (codes "nar")) in
        (
          c ∷ before,
          ground arith,
          (rsplit_once-eq-append b'.' name (c ∷ before) after e).0
              ∙ ap (λ x. c ∷ (before ++ b'.' ∷ x)) nar,
        )

not_one_dot : (stem : Text) → text_eq (stem ++ codes ".nar") (codes ".") ≡ false
unfolding text_eq
not_one_dot [] = refl
not_one_dot (c ∷ []) = ground arith
not_one_dot (c ∷ d ∷ stem) = ground arith

not_two_dots : (c : ℕ) (stem : Text) → text_eq (c ∷ (stem ++ codes ".nar")) (codes "..") ≡ false
unfolding text_eq
not_two_dots c stem = ground (arith, not_one_dot stem)

IsNarName-extension : (c : ℕ) (stem : Text) → is_nar (extension (c ∷ (stem ++ codes ".nar"))) ≡ true
unfolding extension text_eq has_char
IsNarName-extension c stem =
    rw (not_two_dots c stem, rsplit_once-append b'.' (c ∷ stem) (codes "nar") refl)

-- The test of the file name decides `IsNarName`.
pub IsNarName-iff :
    (rest : Text) → (valid_nar_file_name rest ≡ true) ↔ IsNarName (last_part (split b'/' rest))
unfolding valid_nar_file_name
IsNarName-iff rest = (there, back)
  where
    there : valid_nar_file_name rest ≡ true → IsNarName (last_part (split b'/' rest))
    there h = elim (Bool-cases (is_nar (extension (last_part (split b'/' rest))))) [
      | inl e ↦ inl (extension-IsNarName _ e)
      | inr e ↦ inr (contains-eq-append (codes ".nar.") _ (rw e at h))
    ]

    back : IsNarName (last_part (split b'/' rest)) → valid_nar_file_name rest ≡ true
    back (inl ([], full, e)) = absurd (full refl)
    back (inl (c ∷ stem, full, e)) = rw e (rw (IsNarName-extension c stem) refl)
    back (inr (a, b, e)) =
        ground (arith, ap (contains (codes ".nar.")) e, contains-append (codes ".nar.") a b)

pub no_backslash : (s : Text) → All IsBase32 s → has_char b'\\' s ≡ false
unfolding has_char
no_backslash [] h = refl
no_backslash (c ∷ s) (p, h) = ground (arith, no_backslash s h)

pub plain_free :
    (e : ℕ) (s : Text)
    → valid_cache_file_char e ≡ false
    → All (λ c. valid_cache_file_char c ≡ true) s
    → has_char e s ≡ false
unfolding has_char
plain_free e [] f h = refl
plain_free e (c ∷ s) f (p, h) = ground (arith, plain_free e s f h)

pub stem_iff :
    (stem : Text) → (valid_narinfo_stem stem ≡ true) ↔ ((length stem ≡ 32) × All IsBase32 stem)
unfolding valid_narinfo_stem
stem_iff stem = (there, back)
  where
    there : valid_narinfo_stem stem ≡ true → (length stem ≡ 32) × All IsBase32 stem
    there h =
        let digits = all-All base32_char stem (ground arith) in
        (
          ground (arith, len-eq-length stem digits),
          All-map _ _ (λ d e. (base32_char_iff d).0 e) stem digits,
        )

    back : (length stem ≡ 32) × All IsBase32 stem → valid_narinfo_stem stem ≡ true
    back (n, base) =
        let digits = All-map _ _ (λ d e. (base32_char_iff d).1 e) stem base in
        ground (arith, len-eq-length stem digits, All-all base32_char stem digits)
