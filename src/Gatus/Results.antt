-- ===== src/Gatus/Results.antt =====
-- The status and the history that `FetchAll` of internal/gatus/poller.go derives.
use homepad_api.Base.{
  ℕ, zero, suc, ◌-◌, ◌≤◌, ◌<◌, ◌≡◌, refl, ◌↔◌, ◌⊎◌, inl, inr, ap, true, false, List, [], ◌∷◌, ◌++◌,
  none, some, ltb, length, drop, get_last?, arith, Bool-cases, Option-cases, ltb→lt, length-drop,
}
use homepad_api.Base.Int.{pos_part}
use homepad_api.Gatus.{
  up, down, degraded, unknown, CheckResult, Endpoint, EndpointStatus, max_results, status_of,
  recent, endpoint_status,
}

-- A check reads DOWN if it failed, DEGRADED if it succeeded and took longer than a threshold that
-- is not 0, and UP in all other cases.
pub status_of_iff :
    (d : ℕ) (r : CheckResult)
    → ((status_of d r ≡ down) ↔ (r.success ≡ false))
      × ((status_of d r ≡ degraded) ↔ ((r.success ≡ true) × (0 < d) × (d < pos_part r.duration)))
      × ((status_of d r ≡ up) ↔ ((r.success ≡ true) × ((d ≡ 0) ⊎ (pos_part r.duration ≤ d))))
unfolding status_of
status_of_iff d r = (ground arith, ground arith, ground arith)

module _ {ℓ} {A : Type ℓ} where
  abbrev pub take : ℕ → List A → List A
  take zero xs = []
  take (suc n) [] = []
  take (suc n) (x ∷ xs) = x ∷ take n xs

  take-append-drop : (n : ℕ) (xs : List A) → xs ≡ take n xs ++ drop n xs
  take-append-drop zero xs = refl
  take-append-drop (suc n) [] = refl
  take-append-drop (suc n) (x ∷ xs) = ap (◌∷◌ x) (take-append-drop n xs)

  get_last?-drop : (n : ℕ) (xs : List A) → n < length xs → get_last? (drop n xs) ≡ get_last? xs
  get_last?-drop zero xs h = refl
  get_last?-drop (suc n) [] h = absurd (omega arith)
  get_last?-drop (suc zero) (x ∷ []) h = absurd (omega arith)
  get_last?-drop (suc (suc n)) (x ∷ []) h = absurd (omega arith)
  get_last?-drop (suc n) (x ∷ y ∷ xs) h = get_last?-drop n (y ∷ xs) (omega arith)

get_last?-none {ℓ} : {A : Type ℓ} (xs : List A) → get_last? xs ≡ none → xs ≡ []
get_last?-none [] h = refl
get_last?-none (x ∷ []) h = absurd (ground arith)
get_last?-none (x ∷ y ∷ xs) h = absurd (ground (arith, get_last?-none (y ∷ xs)))

length_of_last {ℓ} : {A : Type ℓ} (xs : List A) (x : A) → get_last? xs ≡ some x → 0 < length xs
length_of_last [] x h = absurd (ground arith)
length_of_last (y ∷ xs) x h = omega arith

-- A history as it is shown: an end of Gatus's, with its last check, and all of it if it is short.
pub record IsShown (all shown : List CheckResult) : Type 0 where
  pub older : List CheckResult
  pub suffix : all ≡ older ++ shown
  pub bounded : length shown ≤ max_results
  pub whole : length all ≤ max_results → shown ≡ all
  pub last : get_last? shown ≡ get_last? all

recent-IsShown : (rs : List CheckResult) → IsShown rs (recent rs)
unfolding recent
recent-IsShown rs = elim (Bool-cases (ltb max_results (length rs))) [
  | inl long ↦ rw long (record {
    older = take (length rs - max_results) rs;
    suffix = take-append-drop (length rs - max_results) rs;
    bounded = omega (arith, length-drop (length rs - max_results) rs, ltb→lt _ _ long);
    whole = λ short. absurd (omega (arith, ltb→lt _ _ long));
    last = get_last?-drop (length rs - max_results) rs (omega (arith, ltb→lt _ _ long));
  })
  | inr short ↦
      rw short (record {
        older = [];
        suffix = refl;
        bounded = ground arith;
        whole = λ _. refl;
        last = refl;
      })
]

-- The history shown is the end of Gatus's, all of it up to 20 results, with the check that the
-- status is of as its last entry; an endpoint without results is UNKNOWN.
pub endpoint_status_lem :
    (Fraction : Type 0) (d : ℕ) (e : Endpoint)
    → let s : EndpointStatus Fraction = endpoint_status d e in
      IsShown e.results s.results
      × (e.results ≡ [] → s.status ≡ unknown)
      × ((last : CheckResult) → get_last? e.results ≡ some last → s.status ≡ status_of d last)
unfolding endpoint_status
endpoint_status_lem Fraction d e = elim (Option-cases (get_last? e.results)) [
  | inl no_last ↦
      rw (no_last, endpoint_status)
        ((
          rw (get_last?-none e.results no_last) (record {
            older = [];
            suffix = refl;
            bounded = omega arith;
            whole = λ _. refl;
            last = refl;
          }),
          λ _. refl,
          λ last found. absurd (ground arith),
        ))
  | inr (r, found) ↦
      rw (found, endpoint_status)
        ((recent-IsShown e.results, λ empty. absurd (ground arith), λ last same. ground arith))
]
