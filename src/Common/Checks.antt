-- ===== src/Common/Checks.antt =====
-- When a sequence of checks lets a value through.
use mathlib.Core.Path.{◌≡◌, refl}
use mathlib.Core.Logic.{◌↔◌}
use mathlib.Core.Bool.{Bool, true, false}
use mathlib.Core.List.{List, [], ◌∷◌}
use Prim.Native.Nat.{ℕ}
use native.Mathlib.Omega.{arith}
use fitz_destroyer.Common.Results.{Result, ok, err, ◌>>◌, guard, for_each}
use fitz_destroyer.Common.Sets.{contains, In}

module _ {ℓ} {E : Type ℓ} where
  pub >>-eq-ok_iff : (m k : Result E (Unit {0})) → ((m >> k) ≡ ok tt) ↔ ((m ≡ ok tt) × (k ≡ ok tt))
  >>-eq-ok_iff (ok tt) k = (λ h. (refl, h), λ h. h.1)
  >>-eq-ok_iff (err e) k = (λ h. cc, λ h. cc)

  pub guard-eq-ok_iff : (b : Bool) (e : E) → (guard b e ≡ ok tt) ↔ (b ≡ true)
  guard-eq-ok_iff true e = (λ h. refl, λ h. refl)
  guard-eq-ok_iff false e = (λ h. cc, λ h. cc)

module _ {ℓ} {E : Type ℓ} (f : ℕ → Result E (Unit {0})) where
  for_each_sound : (xs : List ℕ) → for_each f xs ≡ ok tt → (n : ℕ) → In n xs → f n ≡ ok tt
  unfolding contains
  for_each_sound [] h n k = cc
  for_each_sound (x ∷ xs) h n k =
      let (here, later) = (>>-eq-ok_iff (f x) (for_each f xs)).0 h in
      ground (arith, for_each_sound xs later n)

  for_each_complete : (xs : List ℕ) → ((n : ℕ) → In n xs → f n ≡ ok tt) → for_each f xs ≡ ok tt
  unfolding contains
  for_each_complete [] h = refl
  for_each_complete (x ∷ xs) h =
      (>>-eq-ok_iff (f x) (for_each f xs)).1
        (h x (ground arith), for_each_complete xs (λ n k. h n (ground arith)))

  -- A loop of checks passes if each check passes.
  pub for_each-eq-ok_iff :
      (xs : List ℕ) → (for_each f xs ≡ ok tt) ↔ ((n : ℕ) → In n xs → f n ≡ ok tt)
  for_each-eq-ok_iff xs = (for_each_sound xs, for_each_complete xs)

module _ {ℓ} {E : Type ℓ} (test : ℕ → Bool) (e : ℕ → E) where
  -- A loop of guards passes if each test holds.
  pub for_each-guard-eq-ok_iff :
      (xs : List ℕ)
      → (for_each (λ n. guard (test n) (e n)) xs ≡ ok tt) ↔ ((n : ℕ) → In n xs → test n ≡ true)
  for_each-guard-eq-ok_iff xs = (
    λ h n k.
        (guard-eq-ok_iff (test n) (e n)).0
          ((for_each-eq-ok_iff (λ m. guard (test m) (e m)) xs).0 h n k),
    λ h.
        (for_each-eq-ok_iff (λ m. guard (test m) (e m)) xs).1
          (λ n k. (guard-eq-ok_iff (test n) (e n)).1 (h n k)),
  )
