-- ===== src/Nix/StorePath/Laws.antt =====
-- crates/drv-thru/src/nix.rs: the texts that `StorePath::new` accepts, and `hash` on them.
use drv_thru.Base.{
  ℕ, ◌≤◌, ◌≡◌, ◌≢◌, refl, ap, ◌∙◌, ◌↔◌, true, false, [], ◌∷◌, ◌++◌, Option, none, some, arith, inl,
  inr, Option-cases, ◌⊎◌, All, all, all-All, All-all, All-map, length, ok,
}
use drv_thru.Text.{Text, len, len_utf8, strip_prefix, split_once, has_char}
use drv_thru.Text.Prefix.{strip_prefix-eq-append, strip_prefix-append}
use drv_thru.Text.Splitting.{split_once-eq-append, split_once-append}
use drv_thru.Nix.StorePath.{
  StorePath, store_prefix, base32_char, valid_store_name_char, validate_store_path, new, hash,
  check_parts, check_rest,
}

-- A digit of Nix's base 32: a decimal digit, or a small letter other than `e`, `o`, `t` and `u`.
abbrev pub IsBase32 : ℕ → Type 0
IsBase32 c =
    ((b'0' ≤ c) × (c ≤ b'9'))
    ⊎ ((b'a' ≤ c) × (c ≤ b'z') × (c ≢ b'e') × (c ≢ b'o') × (c ≢ b't') × (c ≢ b'u'))

pub base32_char_iff : (c : ℕ) → (base32_char c ≡ true) ↔ IsBase32 c
unfolding base32_char
base32_char_iff c = (λ h. ground arith, λ h. ground arith)

-- A store path: the store's directory, 32 digits, a dash and a name.
pub record IsStorePath (s : Text) : Type 0 where
  pub digits : Text
  pub name : Text
  pub shape : s ≡ store_prefix ++ digits ++ b'-' ∷ name
  pub hashed : length digits ≡ 32
  pub base32 : All IsBase32 digits
  pub named : name ≢ []
  pub plain : All (λ c. valid_store_name_char c ≡ true) name

-- Text of ASCII characters has as many bytes as characters.
pub len-eq-length : (s : Text) → All (λ c. base32_char c ≡ true) s → len s ≡ length s
unfolding len len_utf8
len-eq-length [] h = refl
len-eq-length (c ∷ s) (p, h) = ground (arith, len-eq-length s h, (base32_char_iff c).0 p)

pub no_dash : (s : Text) → All IsBase32 s → has_char b'-' s ≡ false
unfolding has_char
no_dash [] h = refl
no_dash (c ∷ s) (p, h) = ground (arith, no_dash s h)

-- What the two checks on the parts of the rest ask for.
abbrev Parts : Text → Text → Type 0
Parts digits name =
    (length digits ≡ 32)
    × All IsBase32 digits
    × (name ≢ [])
    × All (λ c. valid_store_name_char c ≡ true) name

check_parts-Parts :
    (path digits name : Text) → check_parts path (some (digits, name)) ≡ ok tt → Parts digits name
unfolding check_parts
check_parts-Parts path digits [] h = ground arith
check_parts-Parts path digits (c ∷ name) h = (
  ground (arith, len-eq-length digits (all-All base32_char digits base)),
  All-map _ _ (λ d e. (base32_char_iff d).0 e) digits (all-All base32_char digits base),
  ground arith,
  all-All valid_store_name_char (c ∷ name) (ground arith),
)
  where
    base : all base32_char digits ≡ true
    base = ground arith

Parts-check_parts :
    (path digits name : Text) → Parts digits name → check_parts path (some (digits, name)) ≡ ok tt
unfolding check_parts
Parts-check_parts path digits [] (_, _, full, _) = absurd (full refl)
Parts-check_parts path digits (c ∷ name) (n, base, _, plain) = ground (
  arith,
  All-all base32_char digits digits_ok,
  All-all valid_store_name_char (c ∷ name) plain,
  len-eq-length digits digits_ok,
)
  where
    digits_ok : All (λ d. base32_char d ≡ true) digits
    digits_ok = All-map _ _ (λ d e. (base32_char_iff d).1 e) digits base

rest-IsStorePath :
    (s rest : Text) (o : Option (Text × Text))
    → strip_prefix store_prefix s ≡ some rest
    → split_once b'-' rest ≡ o
    → check_parts s o ≡ ok tt
    → IsStorePath s
unfolding check_parts
rest-IsStorePath s rest none e f h = cc
rest-IsStorePath s rest (some (digits, name)) e f h =
    let (hashed, base32, named, plain) = check_parts-Parts s digits name h in
    let whole : rest ≡ digits ++ b'-' ∷ name = (split_once-eq-append b'-' rest digits name f).0 in
    record {
      digits = digits;
      name = name;
      shape = strip_prefix-eq-append store_prefix s rest e ∙ ap (◌++◌ store_prefix) whole;
      hashed = hashed;
      base32 = base32;
      named = named;
      plain = plain;
    }

validate-IsStorePath : (s : Text) → validate_store_path s ≡ ok tt → IsStorePath s
unfolding validate_store_path check_rest
validate-IsStorePath s h = elim (Option-cases (strip_prefix store_prefix s)) [
  | inl e ↦ absurd (not_prefixed e)
  | inr (rest, e) ↦ rest-IsStorePath s rest (split_once b'-' rest) e refl (rw e at h)
]
  where
    not_prefixed : strip_prefix store_prefix s ≡ none → ⊥
    not_prefixed e = ground arith

-- The parse of a store path that is given by its parts.
strip-shape :
    {s : Text} (v : IsStorePath s) → strip_prefix store_prefix s ≡ some (v.digits ++ b'-' ∷ v.name)
strip-shape v = rw v.shape (strip_prefix-append store_prefix _)

split-shape :
    {s : Text} (v : IsStorePath s)
    → split_once b'-' (v.digits ++ b'-' ∷ v.name) ≡ some (v.digits, v.name)
split-shape v = split_once-append b'-' v.digits v.name (no_dash v.digits v.base32)

IsStorePath-validate : (s : Text) → IsStorePath s → validate_store_path s ≡ ok tt
unfolding validate_store_path check_rest
IsStorePath-validate s v = rw (strip-shape v) (
    rw (split-shape v) (Parts-check_parts s v.digits v.name (v.hashed, v.base32, v.named, v.plain)))

-- `new` accepts exactly the store paths, and keeps the text.
pub new_iff : (s : Text) (p : StorePath) → (new s ≡ ok p) ↔ ((p.text ≡ s) × IsStorePath s)
unfolding new
new_iff s p = (there, back)
  where
    there : new s ≡ ok p → (p.text ≡ s) × IsStorePath s
    there h = (ground arith, validate-IsStorePath s (ground arith))

    back : (p.text ≡ s) × IsStorePath s → new s ≡ ok p
    back (e, v) = ground (arith, IsStorePath-validate s v)

-- On an accepted path no `expect` of `hash` fails, and the hash has 32 characters, all of base 32.
pub hash-new :
    (s : Text) (p : StorePath)
    → new s ≡ ok p
    → (h : Text) × (hash p ≡ some h) × (length h ≡ 32) × All IsBase32 h
unfolding hash
hash-new s p e =
    let (same, v) = (new_iff s p).0 e in
    (v.digits, rw (same, strip-shape v, split-shape v), v.hashed, v.base32)
