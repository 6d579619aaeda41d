-- ===== src/Text/Splitting.antt =====
-- `split_once` and `split` against `++`.
use drv_thru.Base.{
  ℕ, ◌≡◌, ◌≢◌, refl, false, List, [], ◌∷◌, ◌++◌, none, some, arith, inl, inr, Bool-cases,
  Option-cases, ==_self, ◌==◌, All,
}
use drv_thru.Text.Defs.{Text, has_char, split_once, rsplit_once, split, grow, last_part}

-- The first part of a `split_once` is free of the separator.
pub split_once-eq-append :
    (c : ℕ) (s a b : Text)
    → split_once c s ≡ some (a, b)
    → (s ≡ a ++ c ∷ b) × (has_char c a ≡ false)
unfolding split_once has_char
split_once-eq-append c [] a b h = cc
split_once-eq-append c (d ∷ s) a b h = elim (Bool-cases (c == d)) [
  | inl same ↦ ground arith
  | inr other ↦ elim (Option-cases (split_once c s)) [
    | inl e ↦ ground arith
    | inr ((a', b'), e) ↦ ground (arith, split_once-eq-append c s a' b')
  ]
]

pub split_once-append :
    (c : ℕ) (a b : Text) → has_char c a ≡ false → split_once c (a ++ c ∷ b) ≡ some (a, b)
unfolding split_once has_char
split_once-append c [] b h = rw (==_self c)
split_once-append c (d ∷ a) b h = ground (arith, split_once-append c a b)

pub split_once-eq-none : (c : ℕ) (s : Text) → has_char c s ≡ false → split_once c s ≡ none
unfolding split_once has_char
split_once-eq-none c [] h = refl
split_once-eq-none c (d ∷ s) h = ground (arith, split_once-eq-none c s)

-- A split has a part.
pub split-ne-nil : (c : ℕ) (s : Text) → split c s ≢ []
unfolding split
split-ne-nil c [] = ground arith
split-ne-nil c (d ∷ s) = ground (arith, split-ne-nil c s)

grow-All :
    (c d : ℕ) (parts : List Text)
    → (c == d) ≡ false
    → All (λ part. has_char c part ≡ false) parts
    → All (λ part. has_char c part ≡ false) (grow d parts)
unfolding has_char
grow-All c d [] e h = (rw e refl, tt)
grow-All c d (part ∷ parts) e (h, hs) = (rw e h, hs)

-- No part of a split holds the separator.
pub split-All : (c : ℕ) (s : Text) → All (λ part. has_char c part ≡ false) (split c s)
unfolding split has_char
split-All c [] = (refl, tt)
split-All c (d ∷ s) = elim (Bool-cases (c == d)) [
  | inl same ↦ rw same (refl, split-All c s)
  | inr other ↦ rw other (grow-All c d (split c s) other (split-All c s))
]

-- A text without the separator is its only part.
pub split_of_free : (c : ℕ) (s : Text) → has_char c s ≡ false → split c s ≡ s ∷ []
unfolding split has_char
split_of_free c [] h = refl
split_of_free c (d ∷ s) h = ground (arith, split_of_free c s)

split_from-append : (c d : ℕ) (xs ys : List Text) → xs ≢ [] → grow d (xs ++ ys) ≡ grow d xs ++ ys
split_from-append c d [] ys h = absurd (h refl)
split_from-append c d (x ∷ xs) ys h = refl

-- A split at a separator that stands between two texts is the two splits.
pub split-append : (c : ℕ) (a b : Text) → split c (a ++ c ∷ b) ≡ split c a ++ split c b
unfolding split
split-append c [] b = rw (==_self c)
split-append c (d ∷ a) b =
    ground
      (arith, split-append c a b, split_from-append c d (split c a) (split c b) (split-ne-nil c a))

pub rsplit_once-eq-none : (c : ℕ) (s : Text) → rsplit_once c s ≡ none → has_char c s ≡ false
unfolding rsplit_once has_char
rsplit_once-eq-none c [] h = refl
rsplit_once-eq-none c (d ∷ s) h = ground (arith, rsplit_once-eq-none c s)

pub rsplit_once-eq-append :
    (c : ℕ) (s a b : Text)
    → rsplit_once c s ≡ some (a, b)
    → (s ≡ a ++ c ∷ b) × (has_char c b ≡ false)
unfolding rsplit_once has_char
rsplit_once-eq-append c [] a b h = cc
rsplit_once-eq-append c (d ∷ s) a b h = elim (Option-cases (rsplit_once c s)) [
  | inl e ↦ ground (arith, rsplit_once-eq-none c s)
  | inr ((a', b'), e) ↦ ground (arith, rsplit_once-eq-append c s a' b')
]

rsplit_once_of_free : (c : ℕ) (s : Text) → has_char c s ≡ false → rsplit_once c s ≡ none
unfolding rsplit_once has_char
rsplit_once_of_free c [] h = refl
rsplit_once_of_free c (d ∷ s) h = ground (arith, rsplit_once_of_free c s)

pub rsplit_once-append :
    (c : ℕ) (a b : Text) → has_char c b ≡ false → rsplit_once c (a ++ c ∷ b) ≡ some (a, b)
unfolding rsplit_once
rsplit_once-append c [] b h = rw (rsplit_once_of_free c b h) (rw (==_self c))
rsplit_once-append c (d ∷ a) b h = rw (rsplit_once-append c a b h)

-- The last part of a split.
pub last_part-append :
    (xs : List Text) (y : Text) (ys : List Text) → last_part (xs ++ y ∷ ys) ≡ last_part (y ∷ ys)
unfolding last_part
last_part-append [] y ys = refl
last_part-append (x ∷ []) y ys = refl
last_part-append (x ∷ x' ∷ xs) y ys = last_part-append (x' ∷ xs) y ys

grow-free :
    (c d : ℕ) (parts : List Text)
    → parts ≢ []
    → All (λ part. has_char c part ≡ false) (grow d parts)
    → ((c == d) ≡ false) × All (λ part. has_char c part ≡ false) parts
unfolding has_char
grow-free c d [] h k = absurd (h refl)
grow-free c d (part ∷ parts) h (k, ks) = (ground arith, (ground arith, ks))

-- A character other than the separator that no part holds is not in the text.
pub split-free :
    (c e : ℕ) (s : Text)
    → (e == c) ≡ false
    → All (λ part. has_char e part ≡ false) (split c s)
    → has_char e s ≡ false
unfolding split has_char
split-free c e [] h k = refl
split-free c e (d ∷ s) h k = elim (Bool-cases (c == d)) [
  | inl same ↦ ground (arith, split-free c e s h (rw same at k).1)
  | inr other ↦
      let (ne, ks) = grow-free e d (split c s) (split-ne-nil c s) (rw other at k) in
      rw ne (split-free c e s h ks)
]
