-- ===== src/Base/Results.antt =====
-- `anyhow::Result` with the error sites of a component as its error type, and the chains of `?`.
use mathlib.Core.Path.{◌≡◌, refl}
use mathlib.Core.Bool.{Bool, true, false}
use mathlib.Core.Logic.{◌⊎◌, inl, inr}
use mathlib.Core.Option.{Option, none, some}
use mathlib.Core.List.{List, [], ◌∷◌}

pub data Result {ℓ κ} (E : Type κ) (A : Type ℓ) : Type (ℓ ⊔ κ) where
  ok : A → Result E A
  err : E → Result E A

-- The `?` operator: an error ends the chain.
infixl 5 ◌>>=◌ ◌>>◌
abbrev pub ◌>>=◌ {ℓ κ μ} :
    {E : Type μ} {A : Type ℓ} {B : Type κ} → Result E A → (A → Result E B) → Result E B
err site >>= next = err site
ok value >>= next = next value

-- `if test { bail!(e) }`.
abbrev pub bail_if {μ} : {E : Type μ} → Bool → E → Result E (Unit {0})
bail_if true site = err site
bail_if false site = ok tt

-- A step that gives nothing but its error.
abbrev pub ◌>>◌ {κ μ} : {E : Type μ} {B : Type κ} → Result E (Unit {0}) → Result E B → Result E B
err site >> next = err site
ok tt >> next = next

-- `Option::context`.
abbrev pub context {ℓ μ} : {E : Type μ} {A : Type ℓ} → Option A → E → Result E A
context none e = err e
context (some a) e = ok a

abbrev pub map_err {ℓ κ μ} :
    {E : Type μ} {F : Type κ} {A : Type ℓ} → (E → F) → Result E A → Result F A
map_err f (ok a) = ok a
map_err f (err e) = err (f e)

-- `collect::<Result<Vec<_>>>` over `map(f)`: stops at the first error.
abbrev pub try_map {ℓ κ μ} :
    {E : Type μ} {A : Type ℓ} {B : Type κ} → (A → Result E B) → List A → Result E (List B)
try_map f [] = ok []
try_map f (x ∷ xs) = f x >>= λ y. try_map f xs >>= λ ys. ok (y ∷ ys)

pub Result-cases {ℓ μ} :
    {E : Type μ} {A : Type ℓ} (r : Result E A) → ((a : A) × (r ≡ ok a)) ⊎ ((e : E) × (r ≡ err e))
Result-cases (ok a) = inl (a, refl)
Result-cases (err e) = inr (e, refl)

-- Inversion of a chain that succeeded.
pub >>=-eq-ok {ℓ κ μ} :
    {E : Type μ} {A : Type ℓ} {B : Type κ} (step : Result E A) (next : A → Result E B) {result : B}
    → (step >>= next) ≡ ok result
    → (value : A) × (step ≡ ok value) × (next value ≡ ok result)
>>=-eq-ok (err site) next chain = cc
>>=-eq-ok (ok value) next chain = (value, refl, chain)

-- Inversion of a test that did not end the chain.
pub >>-eq-ok {κ μ} :
    {E : Type μ} {B : Type κ} (m : Result E (Unit {0})) (next : Result E B) {result : B}
    → (m >> next) ≡ ok result
    → (m ≡ ok tt) × (next ≡ ok result)
>>-eq-ok (err site) next chain = cc
>>-eq-ok (ok tt) next chain = (refl, chain)

pub bail_if-eq-ok {μ} :
    {E : Type μ} (test : Bool) (site : E) → bail_if test site ≡ ok tt → test ≡ false
bail_if-eq-ok true site h = cc
bail_if-eq-ok false site h = refl

-- An option that was there, and a result that was right before its error was renamed.
pub context-eq-ok {ℓ μ} :
    {E : Type μ} {A : Type ℓ} (o : Option A) (e : E) (a : A) → context o e ≡ ok a → o ≡ some a
context-eq-ok none e a h = cc
context-eq-ok (some b) e a h = cc

pub map_err-eq-ok {ℓ κ μ} :
    {E : Type μ} {F : Type κ} {A : Type ℓ} (f : E → F) (r : Result E A) (a : A)
    → map_err f r ≡ ok a
    → r ≡ ok a
map_err-eq-ok f (err e) a h = cc
map_err-eq-ok f (ok b) a h = cc

pub ok-injective {ℓ μ} :
    {E : Type μ} {A : Type ℓ} {a b : A} → ◌≡◌ {A = Result E A} (ok a) (ok b) → a ≡ b
ok-injective h = cc
