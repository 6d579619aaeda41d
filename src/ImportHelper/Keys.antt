-- ===== src/ImportHelper/Keys.antt =====
-- crates/drv-thru/src/import_helper.rs: which keys are accepted, and which a file lists.
use drv_thru.Base.{
  ℕ, ◌+◌, ◌≡◌, ◌≢◌, ◌↔◌, ◌⊎◌, inl, inr, refl, sym, subst, true, false, not, ◌||◌, List, [], ◌∷◌,
  ◌++◌, Option, none, some, ok, bail_if, arith, All, all, any, all-All, All-all, All-map,
  All-append, Bool-cases, >>-eq-ok, bail_if-eq-ok, ok-injective, map_err, ◌==◌,
}
use drv_thru.Text.{Text, is_empty, text_eq, trim, has_char, split_once, is_whitespace}
use drv_thru.Text.Trim.{NoBlank, trim-NoBlank}
use drv_thru.Text.Prefix.{text_eq_self, text_eq_iff}
use drv_thru.Text.Splitting.{split_once-eq-append, split_once-append}
use drv_thru.TextMap.{member, member-append}
use drv_thru.ImportHelper.{
  key_whitespace, key_name, key_body, bad_line, valid_key_name_char, valid_base64_byte,
  check_key_parts, validate_nix_public_key, insert_key, is_comment, load_lines,
}

-- A name of letters, digits, dots, underscores and dashes, a colon, and base64 characters.
abbrev pub IsPublicKey : Text → Type 0
IsPublicKey s =
    (name : Text) × (key : Text) × (s ≡ name ++ b':' ∷ key)
    × (name ≢ [])
    × All (λ c. valid_key_name_char c ≡ true) name
    × (key ≢ [])
    × All (λ c. valid_base64_byte c ≡ true) key

check_key_parts-IsPublicKey :
    (s : Text) (o : Option (Text × Text))
    → split_once b':' s ≡ o
    → check_key_parts o ≡ ok tt
    → IsPublicKey s
check_key_parts-IsPublicKey s none e h = cc
check_key_parts-IsPublicKey s (some ([], key)) e h = cc
check_key_parts-IsPublicKey s (some (c ∷ name, [])) e h = absurd (ground arith)
check_key_parts-IsPublicKey s (some (c ∷ name, d ∷ key)) e h =
    let (a, h1) = >>-eq-ok (bail_if (not (all valid_key_name_char (c ∷ name))) key_name) _ h in
    let (b, h2) = >>-eq-ok (bail_if (not (all valid_base64_byte (d ∷ key))) key_body) _ h1 in
    let names = bail_if-eq-ok (not (all valid_key_name_char (c ∷ name))) key_name a in
    let keys = bail_if-eq-ok (not (all valid_base64_byte (d ∷ key))) key_body b in
    (
      c ∷ name,
      d ∷ key,
      (split_once-eq-append b':' s (c ∷ name) (d ∷ key) e).0,
      (λ x. ground arith),
      all-All valid_key_name_char (c ∷ name) (ground arith),
      (λ x. ground arith),
      all-All valid_base64_byte (d ∷ key) (ground arith),
    )

name_plain :
    (c : ℕ) → valid_key_name_char c ≡ true → (is_whitespace c ≡ false) × ((b':' == c) ≡ false)
unfolding is_whitespace
name_plain c h = ground arith

key_plain : (c : ℕ) → valid_base64_byte c ≡ true → is_whitespace c ≡ false
unfolding is_whitespace
key_plain c h = ground arith

no_colon : (s : Text) → All (λ c. valid_key_name_char c ≡ true) s → has_char b':' s ≡ false
unfolding has_char
no_colon [] h = refl
no_colon (c ∷ s) (e, h) = rw ((name_plain c e).1, no_colon s h) refl

any_blank : (s : Text) → NoBlank s → any is_whitespace s ≡ false
any_blank [] h = refl
any_blank (c ∷ s) (e, h) = rw (e, any_blank s h) refl

parts_ok :
    (name key : Text)
    → name ≢ []
    → All (λ c. valid_key_name_char c ≡ true) name
    → key ≢ []
    → All (λ c. valid_base64_byte c ≡ true) key
    → check_key_parts (some (name, key)) ≡ ok tt
parts_ok [] key n a k b = absurd (n refl)
parts_ok (c ∷ name) [] n a k b = absurd (k refl)
parts_ok (c ∷ name) (d ∷ key) n a k b =
    rw (All-all valid_key_name_char (c ∷ name) a, All-all valid_base64_byte (d ∷ key) b) refl

colon_plain : is_whitespace b':' ≡ false
unfolding is_whitespace
colon_plain = refl

front_full : (s t : Text) (c : ℕ) → is_empty (s ++ c ∷ t) ≡ false
front_full [] t c = refl
front_full (d ∷ s) t c = refl

IsPublicKey-validate :
    (name key : Text)
    → name ≢ []
    → All (λ c. valid_key_name_char c ≡ true) name
    → key ≢ []
    → All (λ c. valid_base64_byte c ≡ true) key
    → validate_nix_public_key (name ++ b':' ∷ key) ≡ ok tt
unfolding validate_nix_public_key
IsPublicKey-validate name key n a k b =
    let s = name ++ b':' ∷ key in
    let whole : NoBlank s =
      All-append (λ c. is_whitespace c ≡ false) name (b':' ∷ key)
        (All-map _ _ (λ c h. (name_plain c h).0) name a)
        (colon_plain, All-map _ _ key_plain key b) in
    rw (trim-NoBlank s whole, text_eq_self s, front_full name key b':', any_blank s whole)
      (rw (split_once-append b':' name key (no_colon name a)) (parts_ok name key n a k b))

-- A key is accepted exactly if it is a name, a colon and a base64 body, neither empty.
pub validate_nix_public_key_iff : (s : Text) → (validate_nix_public_key s ≡ ok tt) ↔ IsPublicKey s
unfolding validate_nix_public_key
validate_nix_public_key_iff s = (
  λ h.
      let (a, h1) =
        >>-eq-ok (bail_if (not (text_eq (trim s) s) || is_empty s) key_whitespace) _ h in
      let (b, h2) = >>-eq-ok (bail_if (any is_whitespace s) key_whitespace) _ h1 in
      check_key_parts-IsPublicKey s _ refl h2,
  λ (name, key, e, n, a, k, b).
      subst (λ t. validate_nix_public_key t ≡ ok tt) (sym e)
        (IsPublicKey-validate name key n a k b),
)

-- The key is a line of the text that is no comment, without the blanks around it.
abbrev pub ListedIn : List Text → Text → Type 0
ListedIn [] key = ⊥
ListedIn (line ∷ rest) key =
    ((is_comment (trim line) ≡ false) × (trim line ≡ key)) ⊎ ListedIn rest key

-- No line but a comment or a key.
abbrev pub Clean : List Text → Type 0
Clean [] = Unit
Clean (line ∷ rest) = ((is_comment (trim line) ≡ true) ⊎ IsPublicKey (trim line)) × Clean rest

member-insert_key :
    (k key : Text) (keys : List Text)
    → (member key (insert_key k keys) ≡ true) ↔ ((member key keys ≡ true) ⊎ (k ≡ key))
unfolding insert_key member
member-insert_key k key keys = elim (Bool-cases (member k keys)) [
  | inl e ↦
      rw e (inl, λ h. elim h [ inl m ↦ m | inr same ↦ subst (λ t. member t keys ≡ true) same e ])
  | inr e ↦ rw e (ground (arith, member-append key keys (k ∷ []), text_eq_iff k key))
]

pub load_lines-ListedIn :
    (index : ℕ) (keys lines loaded : List Text) (key : Text)
    → load_lines index keys lines ≡ ok loaded
    → (member key loaded ≡ true) ↔ ((member key keys ≡ true) ⊎ ListedIn lines key)
unfolding load_lines
load_lines-ListedIn index keys [] loaded key h =
    rw (← ok-injective h) (inl, λ e. elim e [ inl m ↦ m | inr x ↦ absurd x ])
load_lines-ListedIn index keys (line ∷ rest) loaded key h =
    elim (Bool-cases (is_comment (trim line))) [
      | inl e ↦
          let ih = load_lines-ListedIn (index + 1) keys rest loaded key (rw e at h) in
          ground (arith, ih.0, ih.1)
      | inr e ↦
          let (a, h1) =
            >>-eq-ok (map_err (λ x. bad_line (index + 1)) (validate_nix_public_key (trim line))) _
              (rw e at h) in
          let ih =
            load_lines-ListedIn (index + 1) (insert_key (trim line) keys) rest loaded key h1 in
          ground (arith, ih.0, ih.1, member-insert_key (trim line) key keys)
    ]

pub load_lines-Clean :
    (index : ℕ) (keys lines loaded : List Text)
    → load_lines index keys lines ≡ ok loaded
    → Clean lines
unfolding load_lines
load_lines-Clean index keys [] loaded h = tt
load_lines-Clean index keys (line ∷ rest) loaded h = elim (Bool-cases (is_comment (trim line))) [
  | inl e ↦ (inl e, load_lines-Clean (index + 1) keys rest loaded (rw e at h))
  | inr e ↦
      let (a, h1) =
        >>-eq-ok (map_err (λ x. bad_line (index + 1)) (validate_nix_public_key (trim line))) _
          (rw e at h) in
      (
        inr ((validate_nix_public_key_iff (trim line)).0 (ground arith)),
        load_lines-Clean (index + 1) (insert_key (trim line) keys) rest loaded h1,
      )
]
