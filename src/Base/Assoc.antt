-- ===== src/Base/Assoc.antt =====
-- Go maps and keyed tables as association lists.
use mathlib.Core.Path.{◌≡◌, refl}
use mathlib.Core.Bool.{Bool}
use mathlib.Core.Option.{Option, none, some}
use mathlib.Core.List.{List, [], ◌∷◌, ◌++◌}
use native.Mathlib.Omega.{arith}
use homepad_api.Base.Tests.{Comparable, ◌==◌, if◌then◌else◌}
use homepad_api.Base.Lists.{filter}

module _ {ℓ κ} {K : Type ℓ} {V : Type κ} ⦃e : Comparable K⦄ where
  abbrev pub lookup : K → List (K × V) → Option V
  lookup k [] = none
  lookup k ((j, v) ∷ m) = if j == k then some v else lookup k m

  -- `m[k] = v`: in place where the key is there, else at the end.
  abbrev pub insert : K → V → List (K × V) → List (K × V)
  insert k v [] = (k, v) ∷ []
  insert k v ((j, w) ∷ m) = if j == k then (k, v) ∷ m else (j, w) ∷ insert k v m

  -- `delete(m, k)`.
  abbrev pub erase : K → List (K × V) → List (K × V)
  erase k [] = []
  erase k ((j, w) ∷ m) = if j == k then erase k m else (j, w) ∷ erase k m

  -- No key twice.
  abbrev pub IsMap : List (K × V) → Type κ
  IsMap [] = Unit
  IsMap ((k, v) ∷ m) = (lookup k m ≡ none) × IsMap m

  pub lookup-insert :
      (k j : K) (v : V) (m : List (K × V))
      → lookup j (insert k v m) ≡ (if k == j then some v else lookup j m)
  lookup-insert k j v [] = refl
  lookup-insert k j v ((i, w) ∷ m) =
      ground (arith, e.equals_iff k j, e.equals_iff i k, e.equals_iff i j, lookup-insert k j v m)

  pub lookup-erase :
      (k j : K) (m : List (K × V)) → lookup j (erase k m) ≡ (if k == j then none else lookup j m)
  lookup-erase k j [] = ground arith
  lookup-erase k j ((i, w) ∷ m) =
      ground (arith, e.equals_iff k j, e.equals_iff i k, e.equals_iff i j, lookup-erase k j m)

  pub erase_absent : (k : K) (m : List (K × V)) → lookup k m ≡ none → erase k m ≡ m
  erase_absent k [] h = refl
  erase_absent k ((i, w) ∷ m) h = ground (arith, erase_absent k m)

  pub insert_absent :
      (k : K) (v : V) (m : List (K × V)) → lookup k m ≡ none → insert k v m ≡ m ++ (k, v) ∷ []
  insert_absent k v [] h = refl
  insert_absent k v ((i, w) ∷ m) h = ground (arith, insert_absent k v m)

  pub insert-IsMap : (k : K) (v : V) (m : List (K × V)) → IsMap m → IsMap (insert k v m)
  insert-IsMap k v [] h = (refl, tt)
  insert-IsMap k v ((i, w) ∷ m) h =
      ground (arith, e.equals_iff i k, e.equals_iff k i, lookup-insert k i v m, insert-IsMap k v m)

  pub erase-IsMap : (k : K) (m : List (K × V)) → IsMap m → IsMap (erase k m)
  erase-IsMap k [] h = tt
  erase-IsMap k ((i, w) ∷ m) h = ground (arith, lookup-erase k i m, erase-IsMap k m)

  -- Filtering a map by a test on its values.
  abbrev pub filter_values : (V → Bool) → List (K × V) → List (K × V)
  filter_values p = filter (λ r. p r.1)

  lookup-filter_values-none :
      (p : V → Bool) (k : K) (m : List (K × V))
      → lookup k m ≡ none
      → lookup k (filter_values p m) ≡ none
  lookup-filter_values-none p k [] h = refl
  lookup-filter_values-none p k ((i, w) ∷ m) h = ground (arith, lookup-filter_values-none p k m)

  -- In a map, the entry found is the one that was there, if it passes the test.
  pub lookup-filter_values :
      (p : V → Bool) (k : K) (m : List (K × V))
      → IsMap m
      → lookup k (filter_values p m)
        ≡ elim (lookup k m) [ none ↦ none | some v ↦ if p v then some v else none ]
  lookup-filter_values p k [] h = refl
  lookup-filter_values p k ((i, w) ∷ m) h =
      ground (arith, e.equals_iff i k, lookup-filter_values p k m, lookup-filter_values-none p k m)

  pub filter_values-IsMap : (p : V → Bool) (m : List (K × V)) → IsMap m → IsMap (filter_values p m)
  filter_values-IsMap p [] h = tt
  filter_values-IsMap p ((i, w) ∷ m) h =
      ground (arith, filter_values-IsMap p m, lookup-filter_values-none p i m)
