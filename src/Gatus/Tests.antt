-- ===== src/Gatus/Tests.antt =====
-- Polls of a concrete payload.
use homepad_api.Base.{
  ℕ, ◌≡◌, refl, String, true, List, [], ◌∷◌, Option, none, some, string_eq, lookup, if◌then◌else◌,
  get_last?, arith,
}
use homepad_api.Base.Int.{pos}
use homepad_api.Gatus.{
  unknown, CheckResult, Endpoint, EndpointStatus, Answer, Poller, status_of, endpoint_status,
  fill_uptime, key_at, new_poller, poll, poll_now, default_degraded_after,
}
use homepad_api.Gatus.Results.{endpoint_status_lem, IsShown}
use homepad_api.Gatus.Uptime.{uptime_at, has_job, lookup-fill_uptime}
use homepad_api.Gatus.Polling.{latest, status_in, poll_answered}

abbrev quick : CheckResult
quick = record { success = true; timestamp = 10; duration = pos 41000000 }

abbrev slow : CheckResult
slow = record { success = true; timestamp = 20; duration = pos 2000000000 }

abbrev web : Endpoint
web = record { key = "web"; results = quick ∷ slow ∷ [] }

endpoint_status_lem_example :
    let s : EndpointStatus ℕ = endpoint_status default_degraded_after web in
    IsShown web.results s.results
    × (web.results ≡ [] → s.status ≡ unknown)
    × ((last : CheckResult)
        → get_last? web.results ≡ some last
        → s.status ≡ status_of default_degraded_after last)
endpoint_status_lem_example = endpoint_status_lem ℕ default_degraded_after web

abbrev uptimes : String → String → Option ℕ
uptimes key win = some 99

abbrev shown : List (EndpointStatus ℕ)
shown = endpoint_status default_degraded_after web ∷ []

lookup-fill_uptime_example :
    lookup "24h" (uptime_at 0 (fill_uptime uptimes ((0, "7d") ∷ (0, "24h") ∷ []) shown))
    ≡ elim (if has_job 0 "24h" ((0, "7d") ∷ (0, "24h") ∷ [])
        then uptimes (key_at 0 shown) "24h"
        else none) [ none ↦ lookup "24h" (uptime_at 0 shown) | some v ↦ some v ]
lookup-fill_uptime_example =
    lookup-fill_uptime uptimes ((0, "7d") ∷ (0, "24h") ∷ []) 0 "24h" shown (omega arith)

abbrev good : Answer ℕ
good = record { now = 30; payload = some (web ∷ []); uptime = uptimes; schedule = λ jobs. jobs }

abbrev bad : Answer ℕ
bad = record { now = 40; payload = none; uptime = uptimes; schedule = λ jobs. jobs }

abbrev start : Poller ℕ
start = new_poller default_degraded_after 5

poll_answered_example :
    (status_in "web" (poll good start).snapshot.statuses ≡ elim (latest "web" (web ∷ [])) [
      | none ↦ none
      | some e ↦ some (endpoint_status {Fraction = ℕ} start.degraded_after e).status
    ])
    × ((poll good start).snapshot.as_of ≡ good.now)
    × (poll_now good start ≡ (((poll good start).snapshot, true), poll good start))
poll_answered_example = poll_answered good start (web ∷ []) "web" refl
