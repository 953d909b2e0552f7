-- ===== src/Base/Sort.antt =====
-- `sort.Slice`, as an insertion sort: what the source relies on is an ordered permutation.
use Prim.Native.Nat.{ℕ, ◌≤◌}
use mathlib.Core.Path.{◌≡◌, refl, ap, ◌∙◌}
use mathlib.Core.Logic.{inl, inr}
use mathlib.Core.Bool.{Bool, true, false}
use mathlib.Core.List.{List, [], ◌∷◌, map, Perm}
use mathlib.Core.List.Perm
use native.Mathlib.Omega.{arith}
use homepad_api.Base.Tests.{if◌then◌else◌, Bool-cases}
use homepad_api.Base.Lists.{All, All-map}

module _ {ℓ} {A : Type ℓ} (less : A → A → Bool) where
  pub place : A → List A → List A
  place x [] = x ∷ []
  place x (y ∷ ys) = if less y x then y ∷ place x ys else x ∷ y ∷ ys

  unfoldable pub sort_slice : List A → List A
  unfolding place
  sort_slice [] = []
  sort_slice (x ∷ xs) = place x (sort_slice xs)

  place-perm : (x : A) (ys : List A) → Perm (place x ys) (x ∷ ys)
  unfolding place
  place-perm x [] = Perm.refl (x ∷ [])
  place-perm x (y ∷ ys) = elim (Bool-cases (less y x)) [
    | inl before ↦ rw before (Perm.trans (Perm.cons y (place-perm x ys)) (Perm.swap x y ys))
    | inr after ↦ rw after (Perm.refl (x ∷ y ∷ ys))
  ]

  pub sort_slice-perm : (xs : List A) → Perm (sort_slice xs) xs
  unfolding sort_slice
  sort_slice-perm [] = Perm.refl []
  sort_slice-perm (x ∷ xs) =
      Perm.trans (place-perm x (sort_slice xs)) (Perm.cons x (sort_slice-perm xs))

  -- A map that the order does not see goes past the sort.
  module _ (f : A → A) (same : (a b : A) → less (f a) (f b) ≡ less a b) where
    place-map : (x : A) (ys : List A) → place (f x) (map f ys) ≡ map f (place x ys)
    unfolding place
    place-map x [] = refl
    place-map x (y ∷ ys) = ground (arith, same y x, place-map x ys)

    pub sort_slice-map : (xs : List A) → sort_slice (map f xs) ≡ map f (sort_slice xs)
    unfolding sort_slice
    sort_slice-map [] = refl
    sort_slice-map (x ∷ xs) = ap (place (f x)) (sort_slice-map xs) ∙ place-map x (sort_slice xs)

  module _ {κ} (P : A → Type κ) where
    place-All : (x : A) (ys : List A) → P x → All P ys → All P (place x ys)
    unfolding place
    place-All x [] p h = (p, tt)
    place-All x (y ∷ ys) p h = elim (Bool-cases (less y x)) [
      | inl before ↦ rw before (h.0, place-All x ys p h.1)
      | inr after ↦ rw after (p, h)
    ]

    pub sort_slice-All : (xs : List A) → All P xs → All P (sort_slice xs)
    unfolding sort_slice
    sort_slice-All [] h = tt
    sort_slice-All (x ∷ xs) h = place-All x (sort_slice xs) h.0 (sort_slice-All xs h.1)

  -- The list falls by a key that the order puts first where it is greater.
  module _ (key : A → ℕ) where
    abbrev pub Falls : List A → Type 0
    Falls [] = Unit {0}
    Falls (x ∷ xs) = All (λ y. key y ≤ key x) xs × Falls xs

    module _ (first : (a b : A) → less a b ≡ true → key b ≤ key a)
        (last : (a b : A) → less a b ≡ false → key a ≤ key b) where
      place-Falls : (x : A) (ys : List A) → Falls ys → Falls (place x ys)
      unfolding place
      place-Falls x [] h = (tt, tt)
      place-Falls x (y ∷ ys) h = elim (Bool-cases (less y x)) [
        | inl before ↦
            rw before
              (place-All (λ z. key z ≤ key y) x ys (first y x before) h.0, place-Falls x ys h.1)
        | inr after ↦ rw after (
          (last y x after, All-map (λ z (le : key z ≤ key y). below (last y x after) le) ys h.0),
          h,
        )
      ]
        where
          below : {a b c : ℕ} → b ≤ c → a ≤ b → a ≤ c
          below p q = omega arith

      pub sort_slice-Falls : (xs : List A) → Falls (sort_slice xs)
      unfolding sort_slice
      sort_slice-Falls [] = tt
      sort_slice-Falls (x ∷ xs) = place-Falls x (sort_slice xs) (sort_slice-Falls xs)
