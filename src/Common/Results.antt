-- ===== src/Common/Results.antt =====
-- A call that returns a value or throws: the source's `throw new Error(…)` is `err e`, where `e`
-- names the throwing statement and holds what its message shows.
use mathlib.Core.Path.{◌≡◌, refl, subst}
use mathlib.Core.Logic.{◌⊎◌, inl, inr}
use mathlib.Core.Bool.{Bool, true, false}
use mathlib.Core.List.{List, [], ◌∷◌}

pub data Result {ℓ κ} (E : Type ℓ) (A : Type κ) : Type (ℓ ⊔ κ) where
  ok : A → Result E A
  err : E → Result E A

module _ {ε} {E : Type ε} where
  infixl 5 ◌>>=◌ ◌>>◌
  -- `if (!passes) throw thrown`
  abbrev pub guard : Bool → E → Result E (Unit {0})
  guard false thrown = err thrown
  guard true thrown = ok tt

  -- Statements in sequence: a throw skips what comes after it.
  abbrev pub ◌>>=◌ {α β} : {A : Type α} {B : Type β} → Result E A → (A → Result E B) → Result E B
  err thrown >>= next = err thrown
  ok value >>= next = next value

  abbrev pub ◌>>◌ {β} : {B : Type β} → Result E (Unit {0}) → Result E B → Result E B
  first >> last = first >>= λ done. last

  -- What a sequence of statements came through when it returned.
  pub >>=-eq-ok {α β} :
      {A : Type α} {B : Type β} (first : Result E A) (next : A → Result E B) {value : B}
      → (first >>= next) ≡ ok value
      → (between : A) × (first ≡ ok between) × (next between ≡ ok value)
  >>=-eq-ok (err thrown) next h = cc
  >>=-eq-ok (ok between) next h = (between, refl, h)

pub Result-cases {ℓ κ} :
    {E : Type ℓ} {A : Type κ} (r : Result E A) → ((a : A) × (r ≡ ok a)) ⊎ ((e : E) × (r ≡ err e))
Result-cases (ok a) = inl (a, refl)
Result-cases (err e) = inr (e, refl)

-- `for (const x of xs) f(x);` where `f` may throw
abbrev pub for_each {ℓ κ} :
    {E : Type ℓ} {A : Type κ} → (A → Result E (Unit {0})) → List A → Result E (Unit {0})
for_each f [] = ok tt
for_each f (x ∷ xs) = f x >>= λ _. for_each f xs

pub ok-inj {ℓ κ} : {E : Type ℓ} {A : Type κ} {a b : A} → ◌≡◌ {A = Result E A} (ok a) (ok b) → a ≡ b
ok-inj h = cc

-- What holds of the value of a call, if it returns one.
pub data Yields {ℓ κ λ'} {E : Type ℓ} {A : Type κ} (P : A → Type λ')
    : Result E A → Type (ℓ ⊔ κ ⊔ λ') where
  of_ok : {a : A} → P a → Yields P (ok a)
  of_err : {e : E} → Yields P (err e)

pub >>=-Yields {ℓ κ λ' μ} :
    {E : Type ℓ} {A : Type κ} {B : Type λ'} {P : B → Type μ} (first : Result E A)
    {next : A → Result E B}
    → ((a : A) → first ≡ ok a → Yields P (next a))
    → Yields P (first >>= next)
>>=-Yields (ok a) k = k a refl
>>=-Yields (err e) k = of_err

pub Yields-ok {ℓ κ λ'} :
    {E : Type ℓ} {A : Type κ} {P : A → Type λ'} {r : Result E A} {a : A}
    → Yields P r
    → r ≡ ok a
    → P a
Yields-ok {P = P} (of_ok p) e = subst P (ok-inj e) p
Yields-ok of_err e = cc

pub then-Yields {ℓ κ λ' μ ν} :
    {E : Type ℓ} {A : Type κ} {B : Type λ'} {P : A → Type μ} {Q : B → Type ν} {first : Result E A}
    {next : A → Result E B}
    → Yields P first
    → ((a : A) → P a → Yields Q (next a))
    → Yields Q (first >>= next)
then-Yields (of_ok {a} p) k = k a p
then-Yields of_err k = of_err
