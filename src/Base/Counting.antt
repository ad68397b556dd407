-- ===== src/Base/Counting.antt =====
-- How often a number stands in a list, and the list without one of it.
use mathlib.Core.Path.{◌≡◌, refl}
use mathlib.Core.Logic.{◌≢◌}
use mathlib.Core.List.{List, [], ◌∷◌, ◌++◌}
use Prim.Native.Nat.{ℕ, suc, ◌+◌, ◌≤◌, ◌<◌}
use native.Mathlib.Omega.{arith}
use otservpp.Base.Tests.{◌==◌, if◌then◌else◌}
use otservpp.Base.Lists.{length}

abbrev pub count : ℕ → List ℕ → ℕ
count x [] = 0
count x (y ∷ ys) = (if x == y then 1 else 0) + count x ys

-- The list without the first `x` of it.
abbrev pub remove : ℕ → List ℕ → List ℕ
remove x [] = []
remove x (y ∷ ys) = if x == y then ys else y ∷ remove x ys

pub count-append : (x : ℕ) (xs ys : List ℕ) → count x (xs ++ ys) ≡ count x xs + count x ys
count-append x [] ys = omega arith
count-append x (z ∷ xs) ys = omega (arith, count-append x xs ys)

pub count-remove-le : (x y : ℕ) (xs : List ℕ) → count x (remove y xs) ≤ count x xs
count-remove-le x y [] = omega arith
count-remove-le x y (z ∷ xs) = ground (arith, count-remove-le x y xs)

pub count-remove_ne : (x y : ℕ) (xs : List ℕ) → x ≢ y → count x (remove y xs) ≡ count x xs
count-remove_ne x y [] h = refl
count-remove_ne x y (z ∷ xs) h = ground (arith, count-remove_ne x y xs)

pub count-remove_self : (x : ℕ) (xs : List ℕ) → count x xs ≡ 1 → count x (remove x xs) ≡ 0
count-remove_self x [] h = refl
count-remove_self x (z ∷ xs) h = ground (arith, count-remove_self x xs)

pub length-remove : (y : ℕ) (xs : List ℕ) → 0 < count y xs → suc (length (remove y xs)) ≡ length xs
length-remove y [] h = absurd (omega arith)
length-remove y (z ∷ xs) h = ground (arith, length-remove y xs)

pub count-remove :
    (x y : ℕ) (xs : List ℕ)
    → 0 < count y xs
    → count x (remove y xs) + (if x == y then 1 else 0) ≡ count x xs
count-remove x y [] h = absurd (omega arith)
count-remove x y (z ∷ xs) h = ground (arith, count-remove x y xs)
