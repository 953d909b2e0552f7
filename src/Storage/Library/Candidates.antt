-- ===== src/Storage/Library/Candidates.antt =====
-- The slugs that AddFromLibrary of internal/storage/library.go tries are all different.
use homepad_api.Base.{
  ℕ, zero, suc, ◌≤◌, ◌<◌, ◌≢◌, true, false, List, [], ◌∷◌, ◌++◌, nat_eq, text_eq, leb, Text,
  decimal, decimal_injective, distinct, contains, length, length-append, ◌≡◌, refl, arith, ap, sym,
  ◌∙◌, equals-ne, Bool-cases, inl, inr,
}
use homepad_api.Storage.Library.{candidate}

-- From the i-th on, as many as there are rounds left.
unfoldable pub candidates : Text → ℕ → ℕ → List Text
candidates base i zero = []
candidates base i (suc rounds) = candidate base i ∷ candidates base (suc i) rounds

pub length-candidates : (base : Text) (i rounds : ℕ) → length (candidates base i rounds) ≡ rounds
unfolding candidates
length-candidates base i zero = refl
length-candidates base i (suc rounds) = ap suc (length-candidates base (suc i) rounds)

append_cancel : (xs : Text) {ys zs : Text} → xs ++ ys ≡ xs ++ zs → ys ≡ zs
append_cancel [] h = h
append_cancel (x ∷ xs) h = append_cancel xs (ground (arith, h))

append_longer : (xs ys : Text) (y : ℕ) → xs ++ y ∷ ys ≢ xs
append_longer xs ys y h = ground (arith, length-append xs (y ∷ ys), ap length h)

numbered : (base : Text) (j : ℕ) → leb j 1 ≡ false → candidate base j ≡ base ++ b'-' ∷ decimal j
numbered base j h = rw h refl

candidate-ne : (base : Text) (i j : ℕ) → 1 ≤ i → i < j → candidate base j ≢ candidate base i
candidate-ne base i j one less same =
    let of_j = numbered base j (ground (arith, less)) in
    elim (Bool-cases (leb i 1)) [
      | inl first ↦ append_longer base (decimal j) b'-' (sym of_j ∙ same ∙ rw first refl)
      | inr later ↦
          let digits : b'-' ∷ decimal j ≡ b'-' ∷ decimal i =
            append_cancel base (sym of_j ∙ same ∙ numbered base i later) in
          absurd (ground (arith, less, decimal_injective j i (ap tail digits)))
    ]
  where
    tail : Text → Text
    tail [] = []
    tail (c ∷ cs) = cs

candidate-fresh :
    (base : Text) (i j rounds : ℕ)
    → 1 ≤ i
    → i < j
    → contains (candidates base j rounds) (candidate base i) ≡ false
unfolding candidates
candidate-fresh base i j zero one less = refl
candidate-fresh base i j (suc rounds) one less = ground (
  arith,
  equals-ne (candidate base j) (candidate base i) (candidate-ne base i j one less),
  candidate-fresh base i (suc j) rounds one,
)

pub candidates-distinct :
    (base : Text) (i rounds : ℕ) → 1 ≤ i → distinct (candidates base i rounds) ≡ true
unfolding candidates
candidates-distinct base i zero one = refl
candidates-distinct base i (suc rounds) one =
    ground
      (arith, candidate-fresh base i (suc i) rounds one, candidates-distinct base (suc i) rounds)
