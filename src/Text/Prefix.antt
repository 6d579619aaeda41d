-- ===== src/Text/Prefix.antt =====
-- Prefixes, suffixes, equality and membership, against `++`.
use drv_thru.Base.{
  ℕ, ◌+◌, ◌≤◌, ◌≡◌, ◌≢◌, refl, sym, ap, ◌∙◌, ◌↔◌, Bool, true, false, List, [], ◌∷◌, ◌++◌, Option,
  none, some, arith, inl, inr, Bool-cases, Option-cases, ==_iff, ==_self, ◌&&◌, ◌||◌, ◌==◌, length,
}
use drv_thru.Text.Defs.{
  Text, len, text_eq, strip_prefix, starts_with, strip_suffix, ends_with, has_char, contains,
}

pub text_eq_sound : (s t : Text) → text_eq s t ≡ true → s ≡ t
unfolding text_eq
text_eq_sound [] [] h = refl
text_eq_sound [] (d ∷ t) h = cc
text_eq_sound (c ∷ s) [] h = cc
text_eq_sound (c ∷ s) (d ∷ t) h = ground (arith, text_eq_sound s t)

pub text_eq_self : (s : Text) → text_eq s s ≡ true
unfolding text_eq
text_eq_self [] = refl
text_eq_self (c ∷ s) = rw (==_self c) (text_eq_self s)

pub text_eq_iff : (s t : Text) → (text_eq s t ≡ true) ↔ (s ≡ t)
text_eq_iff s t = (text_eq_sound s t, λ e. rw (← e) (text_eq_self s))

-- `strip_prefix` succeeds exactly on the texts that begin with the prefix, with what follows it.
pub strip_prefix-eq-append : (p s r : Text) → strip_prefix p s ≡ some r → s ≡ p ++ r
unfolding strip_prefix
strip_prefix-eq-append [] s r h = cc
strip_prefix-eq-append (d ∷ p) [] r h = cc
strip_prefix-eq-append (d ∷ p) (c ∷ s) r h = ground (arith, strip_prefix-eq-append p s r)

pub strip_prefix-append : (p r : Text) → strip_prefix p (p ++ r) ≡ some r
unfolding strip_prefix
strip_prefix-append [] r = refl
strip_prefix-append (d ∷ p) r = rw (==_self d) (strip_prefix-append p r)

pub starts_with-append : (p r : Text) → starts_with p (p ++ r) ≡ true
unfolding starts_with
starts_with-append [] r = refl
starts_with-append (d ∷ p) r = rw (==_self d) (starts_with-append p r)

pub starts_with-strip_prefix :
    (p s : Text) → starts_with p s ≡ true → (r : Text) × (strip_prefix p s ≡ some r)
unfolding starts_with strip_prefix
starts_with-strip_prefix [] s h = (s, refl)
starts_with-strip_prefix (d ∷ p) [] h = cc
starts_with-strip_prefix (d ∷ p) (c ∷ s) h = elim (Bool-cases (d == c)) [
  | inl same ↦ rw same (starts_with-strip_prefix p s (ground arith))
  | inr other ↦ ground arith
]

-- `strip_suffix` likewise, at the end.
pub strip_suffix-eq-append : (p s r : Text) → strip_suffix p s ≡ some r → s ≡ r ++ p
unfolding strip_suffix
strip_suffix-eq-append p [] r h = ground (arith, text_eq_sound p [])
strip_suffix-eq-append p (c ∷ s) r h = elim (Bool-cases (text_eq p (c ∷ s))) [
  | inl same ↦ ground (arith, text_eq_sound p (c ∷ s))
  | inr other ↦ elim (Option-cases (strip_suffix p s)) [
    | inl e ↦ ground arith
    | inr (q, e) ↦ ground (arith, strip_suffix-eq-append p s q)
  ]
]

length-lt-append : (r p : Text) (c : ℕ) → p ≢ c ∷ (r ++ p)
length-lt-append r p c e = omega (arith, ap length e, length-append_texts r p)
  where
    length-append_texts : (xs ys : Text) → length (xs ++ ys) ≡ length xs + length ys
    length-append_texts = drv_thru.Base.length-append

pub strip_suffix-append : (p r : Text) → strip_suffix p (r ++ p) ≡ some r
unfolding strip_suffix
strip_suffix-append [] [] = refl
strip_suffix-append (d ∷ p) [] = rw (text_eq_self (d ∷ p))
strip_suffix-append p (c ∷ r) = elim (Bool-cases (text_eq p (c ∷ (r ++ p)))) [
  | inl same ↦ absurd (length-lt-append r p c (text_eq_sound p _ same))
  | inr other ↦ rw (other, strip_suffix-append p r)
]

pub ends_with-append : (p r : Text) → ends_with p (r ++ p) ≡ true
unfolding ends_with
ends_with-append [] [] = text_eq_self []
ends_with-append (d ∷ p) [] = rw (text_eq_self (d ∷ p))
ends_with-append p (c ∷ r) = ground (arith, ends_with-append p r)

pub ends_with-strip_suffix :
    (p s : Text) → ends_with p s ≡ true → (r : Text) × (strip_suffix p s ≡ some r)
unfolding ends_with strip_suffix
ends_with-strip_suffix p [] h = ([], rw h)
ends_with-strip_suffix p (c ∷ s) h = elim (Bool-cases (text_eq p (c ∷ s))) [
  | inl same ↦ ([], rw same)
  | inr other ↦ let (r, e) = ends_with-strip_suffix p s (rw other at h) in (c ∷ r, rw (other, e))
]

pub has_char-append : (c : ℕ) (s t : Text) → has_char c (s ++ t) ≡ (has_char c s || has_char c t)
unfolding has_char
has_char-append c [] t = refl
has_char-append c (d ∷ s) t = ground (arith, has_char-append c s t)

pub contains-append : (p a b : Text) → contains p (a ++ p ++ b) ≡ true
unfolding contains starts_with
contains-append [] [] [] = refl
contains-append [] [] (d ∷ b) = refl
contains-append (d ∷ p) [] b = rw (==_self d, starts_with-append p b)
contains-append p (c ∷ a) b = ground (arith, contains-append p a b)

pub len-append : (s t : Text) → len (s ++ t) ≡ len s + len t
unfolding len
len-append [] t = omega arith
len-append (c ∷ s) t = omega (arith, len-append s t)

-- A text that is contained stands between two others.
pub contains-eq-append :
    (p s : Text) → contains p s ≡ true → (a : Text) × (b : Text) × (s ≡ a ++ p ++ b)
unfolding contains
contains-eq-append p [] h =
    let (r, e) = starts_with-strip_prefix p [] h in ([], r, strip_prefix-eq-append p [] r e)
contains-eq-append p (c ∷ s) h = elim (Bool-cases (starts_with p (c ∷ s))) [
  | inl here ↦
      let (r, e) = starts_with-strip_prefix p (c ∷ s) here in
      ([], r, strip_prefix-eq-append p (c ∷ s) r e)
  | inr later ↦ let (a, b, e) = contains-eq-append p s (rw later at h) in (c ∷ a, b, ap (◌∷◌ c) e)
]
