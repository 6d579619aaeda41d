-- ===== src/TextMap.antt =====
-- `BTreeMap<String, V>` as an association list, and `BTreeSet<String>` as a list without
-- repetitions.
use drv_thru.Base.{
  ◌≡◌, refl, Bool, false, ◌||◌, List, [], ◌∷◌, ◌++◌, Option, none, some, arith, if◌then◌else◌,
}
use drv_thru.Text.{Text, text_eq}
use drv_thru.Text.Prefix.{text_eq_iff, text_eq_self}

module _ {ℓ} {V : Type ℓ} where
  unfoldable pub lookup : Text → List (Text × V) → Option V
  unfolding text_eq
  lookup key [] = none
  lookup key ((other, value) ∷ rest) = if text_eq other key then some value else lookup key rest

  -- A key that is there gets the new value in its place.
  unfoldable pub insert : Text → V → List (Text × V) → List (Text × V)
  unfolding text_eq
  insert key value [] = (key, value) ∷ []
  insert key value ((other, old) ∷ rest) =
      if text_eq other key then (key, value) ∷ rest else (other, old) ∷ insert key value rest

  pub lookup-insert :
      (key asked : Text) (value : V) (entries : List (Text × V))
      → lookup asked (insert key value entries)
        ≡ (if text_eq key asked then some value else lookup asked entries)
  unfolding lookup insert
  lookup-insert key asked value [] = refl
  lookup-insert key asked value ((other, old) ∷ rest) = ground (
    arith,
    text_eq_iff key asked,
    text_eq_iff other key,
    text_eq_iff other asked,
    lookup-insert key asked value rest,
  )

  pub lookup-insert_self :
      (key : Text) (value : V) (entries : List (Text × V))
      → lookup key (insert key value entries) ≡ some value
  lookup-insert_self key value entries = rw (lookup-insert, text_eq_self key) refl

-- Membership in a set, and `BTreeSet::insert` with its result.
unfoldable pub member : Text → List Text → Bool
unfolding text_eq
member k [] = false
member k (j ∷ set) = text_eq j k || member k set

-- No member comes twice.
abbrev pub Distinct : List Text → Type 0
Distinct [] = Unit
Distinct (t ∷ ts) = (member t ts ≡ false) × Distinct ts

pub member-append :
    (k : Text) (xs ys : List Text) → member k (xs ++ ys) ≡ (member k xs || member k ys)
unfolding member
member-append k [] ys = refl
member-append k (x ∷ xs) ys = ground (arith, member-append k xs ys)
