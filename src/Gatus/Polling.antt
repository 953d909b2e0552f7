-- ===== src/Gatus/Polling.antt =====
-- What the poller of internal/gatus/poller.go publishes, on a good answer and on a failed one.
use homepad_api.Base.{
  ℕ, ◌≡◌, refl, ap, ◌∙◌, inl, inr, String, true, false, List, [], ◌∷◌, Option, none, some, ◌==◌,
  string_eq, if◌then◌else◌, lookup, insert, map, arith, Option-cases, lookup-insert, get_last?,
}
use homepad_api.Gatus.{
  Status, Endpoint, EndpointStatus, Answer, Poller, endpoint_status, fill_uptime, uptime_jobs,
  index_statuses, fetch, poll, poll_now,
}
use homepad_api.Gatus.Uptime.{badge, badge-fill_uptime}

-- The last endpoint of the payload with the key.
abbrev pub latest : String → List Endpoint → Option Endpoint
latest k [] = none
latest k (e ∷ es) = elim (latest k es) [
  | some f ↦ some f
  | none ↦ if e.key == k then some e else none
]

-- The status of the last entry with the key, or the old one.
abbrev last_badge : String → List (String × Status) → Option Status → Option Status
last_badge k [] old = old
last_badge k ((j, s) ∷ bs) old = last_badge k bs (if j == k then some s else old)

module _ {Fraction : Type 0} where
  abbrev pub status_in : String → List (String × EndpointStatus Fraction) → Option Status
  status_in k m = elim (lookup k m) [ none ↦ none | some s ↦ some s.status ]

  status_in-index :
      (k : String) (ss : List (EndpointStatus Fraction))
      (m : List (String × EndpointStatus Fraction))
      → status_in k (index_statuses ss m) ≡ last_badge k (map badge ss) (status_in k m)
  unfolding index_statuses
  status_in-index k [] m = refl
  status_in-index k (s ∷ ss) m =
      status_in-index k ss (insert s.key s m)
      ∙ ap (last_badge k (map badge ss)) (ground (arith, lookup-insert s.key k s m))

module _ (Fraction : Type 0) where
  endpoint_status-key :
      (d : ℕ) (e : Endpoint) → (endpoint_status {Fraction = Fraction} d e).key ≡ e.key
  unfolding endpoint_status
  endpoint_status-key d e = elim (Option-cases (get_last? e.results)) [
    | inl no_last ↦ rw (no_last, endpoint_status)
    | inr (r, found) ↦ rw (found, endpoint_status)
  ]

  last_badge-latest :
      (d : ℕ) (k : String) (es : List Endpoint) (old : Option Status)
      → last_badge k (map (badge {Fraction = Fraction}) (map (endpoint_status d) es)) old
        ≡ elim (latest k es) [
          | none ↦ old
          | some e ↦ some (endpoint_status {Fraction = Fraction} d e).status
        ]
  last_badge-latest d k [] old = refl
  last_badge-latest d k (e ∷ es) old =
      last_badge-latest d k es _ ∙ ground (arith, endpoint_status-key d e)

module _ {Fraction : Type 0} where
  -- After a poll that Gatus answered, the status under a key is that of the last endpoint of the
  -- payload with the key, at the threshold in force; the time is the poll's.
  pub poll_answered :
      (a : Answer Fraction) (p : Poller Fraction) (es : List Endpoint) (k : String)
      → a.payload ≡ some es
      → (status_in k (poll a p).snapshot.statuses ≡ elim (latest k es) [
        | none ↦ none
        | some e ↦ some (endpoint_status {Fraction = Fraction} p.degraded_after e).status
      ])
        × ((poll a p).snapshot.as_of ≡ a.now)
        × (poll_now a p ≡ (((poll a p).snapshot, true), poll a p))
  unfolding poll poll_now
  poll_answered a p es k answered =
      rw (answered, fetch)
        ((
          status_in-index k (fill_uptime a.uptime (a.schedule (uptime_jobs 0 fetched)) fetched) []
              ∙ ap (λ bs. last_badge k bs none)
                  (badge-fill_uptime a.uptime (a.schedule (uptime_jobs 0 fetched)) fetched)
              ∙ last_badge-latest Fraction p.degraded_after k es none,
          refl,
          refl,
        ))
    where
      fetched : List (EndpointStatus Fraction)
      fetched = map (endpoint_status p.degraded_after) es

  -- After one that failed, a scheduled poll has published an empty snapshot and a manual one has
  -- left the old one standing.
  pub poll_failed :
      (a : Answer Fraction) (p : Poller Fraction)
      → a.payload ≡ none
      → ((poll a p).snapshot ≡ record { as_of = a.now; statuses = [] })
        × (poll_now a p ≡ ((p.snapshot, false), p))
  unfolding poll poll_now
  poll_failed a p failed = ground arith
