-- ===== src/Base/Pigeonhole.antt =====
-- Of more values than a list holds, one is not in the list.
use Prim.Native.Nat.{◌≤◌, ◌<◌}
use mathlib.Core.Path.{◌≡◌, refl}
use mathlib.Core.Bool.{Bool, true, false, not, ◌&&◌}
use mathlib.Core.List.{List, [], ◌∷◌}
use native.Mathlib.Omega.{arith}
use homepad_api.Base.Tests.{Comparable, ◌==◌}
use homepad_api.Base.Lists.{length, length-filter-le, filter, contains}

module _ {ℓ} {A : Type ℓ} ⦃e : Comparable A⦄ where
  -- No value twice.
  abbrev pub distinct : List A → Bool
  distinct [] = true
  distinct (x ∷ xs) = not (contains xs x) && distinct xs

  -- Every value of the one list is in the other.
  abbrev pub within : List A → List A → Bool
  within [] ys = true
  within (x ∷ xs) ys = contains ys x && within xs ys

  abbrev without : A → List A → List A
  without x ys = filter (λ y. not (y == x)) ys

  length-without : (x : A) (ys : List A) → contains ys x ≡ true → length (without x ys) < length ys
  length-without x [] h = ground arith
  length-without x (y ∷ ys) h =
      ground (arith, length-without x ys, length-filter-le (λ z. not (z == x)) ys)

  contains-without :
      (x z : A) (ys : List A)
      → (x == z) ≡ false
      → contains ys x ≡ true
      → contains (without z ys) x ≡ true
  contains-without x z [] n h = h
  contains-without x z (y ∷ ys) n h =
      ground (arith, e.equals_iff y z, e.equals_iff x z, e.equals_iff y x, contains-without x z ys)

  within-without :
      (z : A) (xs ys : List A)
      → contains xs z ≡ false
      → within xs ys ≡ true
      → within xs (without z ys) ≡ true
  within-without z [] ys n h = refl
  within-without z (x ∷ xs) ys n h = ground (arith, contains-without x z ys, within-without z xs ys)

  pub length-within-le :
      (xs ys : List A) → distinct xs ≡ true → within xs ys ≡ true → length xs ≤ length ys
  length-within-le [] ys d h = omega arith
  length-within-le (x ∷ xs) ys d h =
      ground
        (arith, length-without x ys, within-without x xs ys, length-within-le xs (without x ys))
