-- ===== src/Gatus/Uptime.antt =====
-- `fillUptime` of internal/gatus/poller.go: its goroutines write in any order.
use homepad_api.Base.{
  true, false, ◌||◌, leb, ltb, contains, ◌+◌, ◌++◌, ℕ, zero, suc, ◌<◌, ◌≡◌, refl, ap, ◌∙◌, String,
  Bool, ◌&&◌, List, [], ◌∷◌, Option, none, some, ◌==◌, nat_eq, string_eq, any, lookup, length,
  arith, if◌then◌else◌, lookup-insert, eq_iff, map, Option-cases, inl, inr,
}
use homepad_api.Gatus.{
  EndpointStatus, Status, set_uptime, key_at, fill_uptime, uptime_jobs, uptime_windows,
}

abbrev pub has_job : ℕ → String → List (ℕ × String) → Bool
has_job i win jobs = any (λ j. j.0 == i && j.1 == win) jobs

has_job-append :
    (i : ℕ) (w : String) (xs ys : List (ℕ × String))
    → has_job i w (xs ++ ys) ≡ (has_job i w xs || has_job i w ys)
has_job-append i w [] ys = refl
has_job-append i w (x ∷ xs) ys = ground (arith, has_job-append i w xs ys)

has_job-map :
    (i k : ℕ) (w : String) (ws : List String)
    → has_job i w (map (λ win. (k, win)) ws) ≡ (k == i && contains ws w)
has_job-map i k w [] = ground arith
has_job-map i k w (x ∷ ws) = ground (arith, has_job-map i k w ws)

none_between : (i k : ℕ) → false ≡ (leb k i && ltb i (k + 0))
none_between i k = ground arith

range_split :
    (i k n : ℕ) (b : Bool)
    → ((k == i && b) || ((leb (suc k) i && ltb i (suc k + n)) && b))
      ≡ ((leb k i && ltb i (k + suc n)) && b)
range_split i k n b = ground arith

module _ {Fraction : Type 0} where
  abbrev pub uptime_at : ℕ → List (EndpointStatus Fraction) → List (String × Fraction)
  uptime_at i [] = []
  uptime_at zero (s ∷ ss) = s.uptime
  uptime_at (suc i) (s ∷ ss) = uptime_at i ss

  key_at-set_uptime :
      (i j : ℕ) (win : String) (v : Fraction) (ss : List (EndpointStatus Fraction))
      → key_at i (set_uptime j win v ss) ≡ key_at i ss
  unfolding set_uptime
  key_at-set_uptime i j win v [] = refl
  key_at-set_uptime zero zero win v (s ∷ ss) = refl
  key_at-set_uptime zero (suc j) win v (s ∷ ss) = refl
  key_at-set_uptime (suc i) zero win v (s ∷ ss) = refl
  key_at-set_uptime (suc i) (suc j) win v (s ∷ ss) = key_at-set_uptime i j win v ss

  length-set_uptime :
      (j : ℕ) (win : String) (v : Fraction) (ss : List (EndpointStatus Fraction))
      → length (set_uptime j win v ss) ≡ length ss
  unfolding set_uptime
  length-set_uptime j win v [] = refl
  length-set_uptime zero win v (s ∷ ss) = refl
  length-set_uptime (suc j) win v (s ∷ ss) = ap suc (length-set_uptime j win v ss)

  lookup-set_uptime :
      (i j : ℕ) (win w : String) (v : Fraction) (ss : List (EndpointStatus Fraction))
      → i < length ss
      → lookup w (uptime_at i (set_uptime j win v ss))
        ≡ (if j == i && win == w then some v else lookup w (uptime_at i ss))
  unfolding set_uptime
  lookup-set_uptime i j win w v [] h = absurd (omega arith)
  lookup-set_uptime zero zero win w v (s ∷ ss) h = ground (arith, lookup-insert win w v s.uptime)
  lookup-set_uptime zero (suc j) win w v (s ∷ ss) h = ground arith
  lookup-set_uptime (suc i) zero win w v (s ∷ ss) h = ground arith
  lookup-set_uptime (suc i) (suc j) win w v (s ∷ ss) h =
      ground (arith, lookup-set_uptime i j win w v ss (omega arith))

  -- After any schedule of the jobs, a window that was asked for an endpoint of the list holds
  -- what Gatus answered for the endpoint's key, if it answered, and else what it held before.
  pub lookup-fill_uptime :
      (fetch : String → String → Option Fraction) (jobs : List (ℕ × String)) (i : ℕ) (w : String)
      (ss : List (EndpointStatus Fraction))
      → i < length ss
      → lookup w (uptime_at i (fill_uptime fetch jobs ss))
        ≡ elim (if has_job i w jobs then fetch (key_at i ss) w else none) [
          | none ↦ lookup w (uptime_at i ss)
          | some v ↦ some v
        ]
  unfolding fill_uptime
  lookup-fill_uptime fetch [] i w ss h = refl
  lookup-fill_uptime fetch ((j, win) ∷ jobs) i w ss h =
      elim (Option-cases (fetch (key_at j ss) win)) [
        | inl silent ↦ ground (arith, silent, eq_iff win w, lookup-fill_uptime fetch jobs i w ss h)
        | inr (v, answer) ↦ ground (
          arith,
          answer,
          eq_iff win w,
          key_at-set_uptime i j win v ss,
          length-set_uptime j win v ss,
          lookup-set_uptime i j win w v ss h,
          lookup-fill_uptime fetch jobs i w (set_uptime j win v ss),
        )
      ]

  -- The jobs that are started: each window of each endpoint.
  has_job-uptime_jobs :
      (i k : ℕ) (w : String) (ss : List (EndpointStatus Fraction))
      → has_job i w (uptime_jobs k ss)
        ≡ ((leb k i && ltb i (k + length ss)) && contains uptime_windows w)
  unfolding uptime_jobs
  has_job-uptime_jobs i k w [] = ap (λ b. b && contains uptime_windows w) (none_between i k)
  has_job-uptime_jobs i k w (s ∷ ss) =
      has_job-append i w (map (λ win. (k, win)) uptime_windows) (uptime_jobs (suc k) ss)
      ∙ ap (λ b. b || has_job i w (uptime_jobs (suc k) ss)) (has_job-map i k w uptime_windows)
      ∙ ap (λ b. (k == i && contains uptime_windows w) || b) (has_job-uptime_jobs i (suc k) w ss)
      ∙ range_split i k (length ss) (contains uptime_windows w)

  -- In any order of the goroutines each window of each endpoint is asked for, and holds the answer
  -- for the endpoint's key, if there was one.
  fill_uptime_lem :
      (fetch : String → String → Option Fraction) (jobs : List (ℕ × String)) (i : ℕ) (w : String)
      (ss : List (EndpointStatus Fraction))
      → ((j : ℕ) (win : String) → has_job j win jobs ≡ has_job j win (uptime_jobs 0 ss))
      → i < length ss
      → contains uptime_windows w ≡ true
      → lookup w (uptime_at i (fill_uptime fetch jobs ss))
        ≡ elim (fetch (key_at i ss) w) [ none ↦ lookup w (uptime_at i ss) | some v ↦ some v ]
  fill_uptime_lem fetch jobs i w ss same h window =
      let asked : has_job i w jobs ≡ true =
        same i w ∙ ground (arith, has_job-uptime_jobs i 0 w ss, window) in
      lookup-fill_uptime fetch jobs i w ss h
      ∙ ap
          (λ b. elim (if b then fetch (key_at i ss) w else none) [
            | none ↦ lookup w (uptime_at i ss)
            | some v ↦ some v
          ])
          asked

  -- Neither keys nor statuses change.
  abbrev pub badge : EndpointStatus Fraction → String × Status
  badge s = (s.key, s.status)

  badge-set_uptime :
      (j : ℕ) (win : String) (v : Fraction) (ss : List (EndpointStatus Fraction))
      → map badge (set_uptime j win v ss) ≡ map badge ss
  unfolding set_uptime
  badge-set_uptime j win v [] = refl
  badge-set_uptime zero win v (s ∷ ss) = refl
  badge-set_uptime (suc j) win v (s ∷ ss) = ap (◌∷◌ (badge s)) (badge-set_uptime j win v ss)

  pub badge-fill_uptime :
      (fetch : String → String → Option Fraction) (jobs : List (ℕ × String))
      (ss : List (EndpointStatus Fraction))
      → map badge (fill_uptime fetch jobs ss) ≡ map badge ss
  unfolding fill_uptime
  badge-fill_uptime fetch [] ss = refl
  badge-fill_uptime fetch ((j, win) ∷ jobs) ss = elim (Option-cases (fetch (key_at j ss) win)) [
    | inl silent ↦ rw silent (badge-fill_uptime fetch jobs ss)
    | inr (v, answer) ↦
        rw answer
          (badge-fill_uptime fetch jobs (set_uptime j win v ss) ∙ badge-set_uptime j win v ss)
  ]
