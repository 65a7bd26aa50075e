-- ===== src/Common/Dedupe.antt =====
-- `[...new Set(xs)]`, and what sorting keeps of a list without repetitions.
use Prim.Native.Nat.{ℕ}
use mathlib.Core.Path.{◌≡◌, refl}
use mathlib.Core.Bool.{true, false, not, ◌&&◌}
use mathlib.Core.List.{List, [], ◌∷◌}
use native.Mathlib.Omega.{arith}
use fitz_destroyer.Common.Tests.{if◌then◌else◌}
use fitz_destroyer.Common.Sets.{contains, IsUnique, insert, contains-insert, sort, contains-sort}

pub dedupe_from : List ℕ → List ℕ → List ℕ
unfolding contains
dedupe_from seen [] = []
dedupe_from seen (x ∷ xs) =
    let rest = dedupe_from (x ∷ seen) xs in
    if contains x seen then dedupe_from seen xs else x ∷ rest

unfoldable pub dedupe : List ℕ → List ℕ
unfolding dedupe_from
dedupe xs = dedupe_from [] xs

contains-dedupe_from :
    (n : ℕ) (seen xs : List ℕ)
    → contains n (dedupe_from seen xs) ≡ (contains n xs && not (contains n seen))
unfolding dedupe_from contains
contains-dedupe_from n seen [] = refl
contains-dedupe_from n seen (x ∷ xs) =
    ground (arith, contains-dedupe_from n seen xs, contains-dedupe_from n (x ∷ seen) xs)

pub contains-dedupe : (n : ℕ) (xs : List ℕ) → contains n (dedupe xs) ≡ contains n xs
unfolding dedupe contains
contains-dedupe n xs = ground (arith, contains-dedupe_from n [] xs)

contains-here : (x : ℕ) (xs : List ℕ) → contains x (x ∷ xs) ≡ true
unfolding contains
contains-here x xs = ground arith

dedupe_from-IsUnique : (seen xs : List ℕ) → IsUnique (dedupe_from seen xs)
unfolding dedupe_from
dedupe_from-IsUnique seen [] = tt
dedupe_from-IsUnique seen (x ∷ xs) = ground (
  arith,
  dedupe_from-IsUnique seen xs,
  dedupe_from-IsUnique (x ∷ seen) xs,
  contains-dedupe_from x (x ∷ seen) xs,
  contains-here x seen,
)

pub dedupe-IsUnique : (xs : List ℕ) → IsUnique (dedupe xs)
unfolding dedupe
dedupe-IsUnique xs = dedupe_from-IsUnique [] xs

insert-IsUnique :
    (n : ℕ) (xs : List ℕ) → contains n xs ≡ false → IsUnique xs → IsUnique (insert n xs)
unfolding insert contains
insert-IsUnique n [] h u = (refl, tt)
insert-IsUnique n (x ∷ xs) h u = ground (arith, insert-IsUnique n xs, contains-insert n x xs)

pub sort-IsUnique : (xs : List ℕ) → IsUnique xs → IsUnique (sort xs)
unfolding sort
sort-IsUnique [] u = tt
sort-IsUnique (x ∷ xs) (new, u) =
    insert-IsUnique x (sort xs) (ground (arith, contains-sort x xs)) (sort-IsUnique xs u)
