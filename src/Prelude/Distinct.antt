-- ===== src/Prelude/Distinct.antt =====
-- Lists of numbers in which nothing stands twice.
use Prim.Native.Nat.{ℕ}
use mathlib.Core.Path.{◌≡◌, refl}
use mathlib.Core.Logic.{◌≢◌}
use mathlib.Core.Bool.{true, false}
use mathlib.Core.List.{List, [], ◌∷◌, ◌++◌}
use native.Mathlib.Omega.{arith}
use obos_old.Prelude.Lists.{has, erase, has-append, has-erase}

-- Nothing stands in the list twice.
abbrev pub Once : List ℕ → Type 0
Once [] = Unit
Once (x ∷ xs) = (has x xs ≡ false) × Once xs

pub Once-append : (xs : List ℕ) (n : ℕ) → Once xs → has n xs ≡ false → Once (xs ++ n ∷ [])
Once-append [] n o m = (refl, tt)
Once-append (x ∷ xs) n o m =
    (ground (arith, has-append x xs (n ∷ [])), Once-append xs n o.1 (ground arith))

pub Once-erase : (n : ℕ) (xs : List ℕ) → Once xs → Once (erase n xs) × (has n (erase n xs) ≡ false)
Once-erase n [] o = (tt, refl)
Once-erase n (x ∷ xs) o = ground (arith, Once-erase n xs o.1, has-erase x n xs o.0)

pub has-erase_other : (a n : ℕ) (xs : List ℕ) → a ≢ n → has a (erase n xs) ≡ has a xs
has-erase_other a n [] d = refl
has-erase_other a n (x ∷ xs) d = ground (arith, has-erase_other a n xs d)

pub has-erase_sub : (a n : ℕ) (xs : List ℕ) → has a (erase n xs) ≡ true → has a xs ≡ true
has-erase_sub a n [] h = ground arith
has-erase_sub a n (x ∷ xs) h = ground (arith, has-erase_sub a n xs)
