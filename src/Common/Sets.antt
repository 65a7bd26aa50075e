-- ===== src/Common/Sets.antt =====
-- Sets of numbers, as the lists of their members: `new Set(xs).has(n)` is `contains n xs`. Sorting,
-- and counting members through inclusions.
use Prim.Native.Nat.{ℕ, suc, ◌≤◌}
use mathlib.Core.Path.{◌≡◌, refl}
use mathlib.Core.Bool.{Bool, true, false, ◌||◌}
use mathlib.Core.List.{List, [], ◌∷◌, ◌++◌}
use native.Mathlib.Omega.{arith}
use fitz_destroyer.Common.Tests.{◌==◌, leb, if◌then◌else◌}
use fitz_destroyer.Common.Lists.{length}

unfoldable pub contains : ℕ → List ℕ → Bool
contains n [] = false
contains n (x ∷ xs) = x == n || contains n xs

abbrev pub In : ℕ → List ℕ → Type 0
In n xs = contains n xs ≡ true

-- Each member once.
abbrev pub IsUnique : List ℕ → Type 0
IsUnique [] = Unit
IsUnique (x ∷ xs) = (contains x xs ≡ false) × IsUnique xs

pub contains-append :
    (n : ℕ) (xs ys : List ℕ) → contains n (xs ++ ys) ≡ (contains n xs || contains n ys)
unfolding contains
contains-append n [] ys = refl
contains-append n (x ∷ xs) ys = ground (arith, contains-append n xs ys)

-- All but the first `n`.
remove : ℕ → List ℕ → List ℕ
remove n [] = []
remove n (x ∷ xs) = if x == n then xs else x ∷ remove n xs

length-remove : (n : ℕ) (xs : List ℕ) → In n xs → length xs ≡ suc (length (remove n xs))
unfolding contains remove
length-remove n [] h = cc
length-remove n (x ∷ xs) h = ground (arith, length-remove n xs)

In-remove : (n m : ℕ) (xs : List ℕ) → In m xs → (n ≡ m → ⊥) → In m (remove n xs)
unfolding contains remove
In-remove n m [] h ne = cc
In-remove n m (x ∷ xs) h ne = ground (arith, In-remove n m xs)

-- A list without repetitions is no longer than one that has all its members.
pub length-le_of_In :
    (xs ys : List ℕ) → IsUnique xs → ((n : ℕ) → In n xs → In n ys) → length xs ≤ length ys
length-le_of_In [] ys u h = omega arith
length-le_of_In (x ∷ xs) ys (new, u) h =
    let rest =
      length-le_of_In xs (remove x ys) u (λ n k. In-remove x n ys (h n (later n k)) (apart n k)) in
    omega (arith, rest, length-remove x ys (h x (unfold contains in ground arith)))
  where
    later : (n : ℕ) → In n xs → In n (x ∷ xs)
    later n k = unfold contains in ground arith

    apart : (n : ℕ) → In n xs → x ≡ n → ⊥
    apart n k e = ground arith

pub IsUnique-append :
    (xs ys : List ℕ)
    → IsUnique xs
    → IsUnique ys
    → ((n : ℕ) → In n xs → contains n ys ≡ false)
    → IsUnique (xs ++ ys)
IsUnique-append [] ys u v h = v
IsUnique-append (x ∷ xs) ys (new, u) v h = (
  ground (arith, contains-append x xs ys, h x (unfold contains in ground arith)),
  IsUnique-append xs ys u v (λ n k. h n (unfold contains in ground arith)),
)

-- `[...xs].sort((left, right) => left - right)`
unfoldable pub insert : ℕ → List ℕ → List ℕ
insert n [] = n ∷ []
insert n (x ∷ xs) = if leb n x then n ∷ x ∷ xs else x ∷ insert n xs

unfoldable pub sort : List ℕ → List ℕ
unfolding insert
sort [] = []
sort (x ∷ xs) = insert x (sort xs)

abbrev pub Above : ℕ → List ℕ → Type 0
Above n [] = Unit
Above n (x ∷ xs) = n ≤ x

abbrev pub IsSorted : List ℕ → Type 0
IsSorted [] = Unit
IsSorted (x ∷ xs) = Above x xs × IsSorted xs

insert-Above : (n m : ℕ) (xs : List ℕ) → m ≤ n → Above m xs → Above m (insert n xs)
unfolding insert
insert-Above n m [] h k = h
insert-Above n m (x ∷ xs) h k = ground arith

insert-IsSorted : (n : ℕ) (xs : List ℕ) → IsSorted xs → IsSorted (insert n xs)
unfolding insert
insert-IsSorted n [] h = (tt, tt)
insert-IsSorted n (x ∷ xs) (above, h) = ground (arith, insert-IsSorted n xs h, insert-Above n x xs)

pub sort-IsSorted : (xs : List ℕ) → IsSorted (sort xs)
unfolding sort
sort-IsSorted [] = tt
sort-IsSorted (x ∷ xs) = insert-IsSorted x (sort xs) (sort-IsSorted xs)

pub contains-insert : (n m : ℕ) (xs : List ℕ) → contains m (insert n xs) ≡ (n == m || contains m xs)
unfolding insert contains
contains-insert n m [] = refl
contains-insert n m (x ∷ xs) = ground (arith, contains-insert n m xs)

pub contains-sort : (n : ℕ) (xs : List ℕ) → contains n (sort xs) ≡ contains n xs
unfolding sort contains
contains-sort n [] = refl
contains-sort n (x ∷ xs) = ground (arith, contains-insert x n (sort xs), contains-sort n xs)
