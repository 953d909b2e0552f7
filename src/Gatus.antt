-- ===== src/Gatus.antt =====
-- internal/gatus/poller.go: statuses from Gatus's payload, and the poller that publishes them.
-- What Gatus answers is an argument: the decoded payload, or `none` where the request or the
-- decoding fails. `Fraction` is the type of the uptimes, of which the program only passes on what
-- Gatus computed.
pub mod Results
pub mod Uptime
pub mod Polling
mod Tests
use homepad_api.Base.{
  ◌++◌, ℕ, zero, suc, ◌-◌, ◌*◌, String, Bool, true, false, not, ◌&&◌, List, [], ◌∷◌, Option, none,
  some, ltb, leb, if◌then◌else◌, length, drop, get_last?, insert, map, string_eq, ◌==◌,
}
use homepad_api.Base.Int.{ℤ, pos_part}

pub data Status : Type 0 where
  up down degraded unknown not_monitored : Status

pub record CheckResult : Type 0 where
  pub success : Bool
  pub timestamp : ℕ
  pub duration : ℤ

-- One element of the payload.
pub record Endpoint : Type 0 where
  pub key : String
  pub results : List CheckResult

pub record EndpointStatus (Fraction : Type 0) : Type 0 where
  pub key : String
  pub status : Status
  pub last_result_at : Option ℕ
  pub results : List CheckResult
  pub uptime : List (String × Fraction)

pub record Snapshot (Fraction : Type 0) : Type 0 where
  pub as_of : ℕ
  pub statuses : List (String × EndpointStatus Fraction)

abbrev pub max_results : ℕ
max_results = 20

abbrev pub uptime_windows : List String
uptime_windows = "24h" ∷ "7d" ∷ "30d" ∷ []

abbrev pub millisecond : ℕ
millisecond = 1000000

abbrev pub default_degraded_after : ℕ
default_degraded_after = 1000 * millisecond

-- The `switch` of `FetchAll` on the latest result.
unfoldable pub status_of : ℕ → CheckResult → Status
status_of degraded_after last =
    if not last.success
    then down
    else if ltb 0 degraded_after
        && ltb 0 (pos_part last.duration)
        && ltb degraded_after (pos_part last.duration)
    then degraded
    else up

-- The most recent `max_results`, oldest first.
unfoldable pub recent : List CheckResult → List CheckResult
recent results =
    drop (if ltb max_results (length results) then length results - max_results else 0) results

module _ {Fraction : Type 0} where
  unfoldable pub endpoint_status : ℕ → Endpoint → EndpointStatus Fraction
  unfolding status_of recent
  endpoint_status degraded_after e = elim (get_last? e.results) [
    | none ↦ record {
      key = e.key;
      status = unknown;
      last_result_at = none;
      results = [];
      uptime = [];
    }
    | some last ↦ record {
      key = e.key;
      status = status_of degraded_after last;
      last_result_at = some last.timestamp;
      results = recent e.results;
      uptime = [];
    }
  ]

  unfoldable pub fetch_all : ℕ → Option (List Endpoint) → Option (List (EndpointStatus Fraction))
  unfolding endpoint_status
  fetch_all degraded_after none = none
  fetch_all degraded_after (some endpoints) = some (map (endpoint_status degraded_after) endpoints)

  -- The write of one goroutine of `fillUptime`, under the mutex.
  unfoldable pub set_uptime :
      ℕ → String → Fraction → List (EndpointStatus Fraction) → List (EndpointStatus Fraction)
  set_uptime i win v [] = []
  set_uptime zero win v (s ∷ ss) = record s { uptime = insert win v s.uptime } ∷ ss
  set_uptime (suc i) win v (s ∷ ss) = s ∷ set_uptime i win v ss

  abbrev pub key_at : ℕ → List (EndpointStatus Fraction) → String
  key_at i [] = ""
  key_at zero (s ∷ ss) = s.key
  key_at (suc i) (s ∷ ss) = key_at i ss

  -- The goroutines that `fillUptime` starts: one of each endpoint, from the index on, and window.
  unfoldable pub uptime_jobs : ℕ → List (EndpointStatus Fraction) → List (ℕ × String)
  uptime_jobs i [] = []
  uptime_jobs i (s ∷ ss) = map (λ win. (i, win)) uptime_windows ++ uptime_jobs (suc i) ss

  -- `fillUptime`, as the jobs `(i, win)` in the order in which their goroutines take the mutex;
  -- a window that Gatus does not answer is left out.
  unfoldable pub fill_uptime :
      (String → String → Option Fraction)
      → List (ℕ × String)
      → List (EndpointStatus Fraction)
      → List (EndpointStatus Fraction)
  unfolding set_uptime
  fill_uptime fetch [] ss = ss
  fill_uptime fetch ((i, win) ∷ jobs) ss =
      fill_uptime fetch jobs
        (elim (fetch (key_at i ss) win) [ none ↦ ss | some v ↦ set_uptime i win v ss ])

  -- `for _, st := range statuses { snap.Statuses[st.Key] = st }`
  unfoldable pub index_statuses :
      List (EndpointStatus Fraction)
      → List (String × EndpointStatus Fraction)
      → List (String × EndpointStatus Fraction)
  index_statuses [] m = m
  index_statuses (s ∷ ss) m = index_statuses ss (insert s.key s m)

-- What one poll meets: the time, Gatus's payload, its answers on uptime, and the scheduler's order
-- of the uptime goroutines.
pub record Answer (Fraction : Type 0) : Type 0 where
  pub now : ℕ
  pub payload : Option (List Endpoint)
  pub uptime : String → String → Option Fraction
  pub schedule : List (ℕ × String) → List (ℕ × String)

pub record Poller (Fraction : Type 0) : Type 0 where
  pub degraded_after : ℕ
  pub snapshot : Snapshot Fraction

module _ {Fraction : Type 0} where
  unfoldable pub new_poller : ℕ → ℕ → Poller Fraction
  new_poller degraded_after now = record {
    degraded_after = degraded_after;
    snapshot = record { as_of = now; statuses = [] };
  }

  unfoldable pub set_degraded_after : ℕ → Poller Fraction → Poller Fraction
  set_degraded_after d p = record p { degraded_after = d }

  -- The snapshot that a poll would publish, and whether Gatus answered.
  unfoldable pub fetch : ℕ → Answer Fraction → Snapshot Fraction × Bool
  unfolding fetch_all fill_uptime uptime_jobs index_statuses
  fetch degraded_after a = elim (fetch_all degraded_after a.payload) [
    | none ↦ (record { as_of = a.now; statuses = [] }, false)
    | some ss ↦ (
      record {
        as_of = a.now;
        statuses = index_statuses (fill_uptime a.uptime (a.schedule (uptime_jobs 0 ss)) ss) [];
      },
      true,
    )
  ]

  unfoldable pub publish : Snapshot Fraction → Poller Fraction → Poller Fraction
  publish snap p = record p { snapshot = snap }

  -- A scheduled poll publishes the snapshot of a failed fetch too.
  unfoldable pub poll : Answer Fraction → Poller Fraction → Poller Fraction
  unfolding fetch publish
  poll a p = publish (fetch p.degraded_after a).0 p

  -- A manual poll publishes only what Gatus answered. The flag is `err == nil`.
  unfoldable pub poll_now :
      Answer Fraction → Poller Fraction → (Snapshot Fraction × Bool) × Poller Fraction
  unfolding fetch publish
  poll_now a p =
      let (snap, answered) = fetch p.degraded_after a in
      if answered then ((snap, true), publish snap p) else ((p.snapshot, false), p)

  -- `Run`: a poll at the start and one at each tick.
  unfoldable pub run : List (Answer Fraction) → Poller Fraction → Poller Fraction
  unfolding poll
  run [] p = p
  run (a ∷ as_) p = run as_ (poll a p)
