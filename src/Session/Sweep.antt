-- ===== src/Session/Sweep.antt =====
-- internal/session/sweep.go: the loop that deletes expired sessions, as a client of the store
-- interface. What makes it wake is a list of events; `cancelled` says that the context was done
-- when an error came back, and the log is a value.
pub mod Stores
use homepad_api.Base.{
  ℕ, ◌≤◌, ◌<◌, ◌≡◌, refl, ◌∙◌, inl, inr, String, Bool, true, false, List, [], ◌∷◌, ◌++◌, Option,
  none, some, ltb, if◌then◌else◌, Result, ok, err, arith,
}
use homepad_api.Session.{Session, SessionErr, clock_now, is_live}
use homepad_api.Session.Contract.{Store}

pub record Wake : Type 0 where
  pub clock : ℕ
  pub cancelled : Bool

pub data Event : Type 0 where
  done : Event
  tick : Wake → Event

pub data Line : Type 0 where
  failed : SessionErr → Line
  deleted : ℕ → Line

-- What the sweeper needs of a store: a view of the sessions held under each key, and what
-- `DeleteExpired` does to it, both when it succeeds and when it fails.
pub record Sweepable {S : Type 0} (store : Store S) : Type 1 where
  pub IsValid : S → Type 0
  pub holds : S → String → Option Session
  pub keeps : (clock : ℕ) (st : S) → IsValid st → IsValid (store.delete_expired clock st).1
  pub sweeps :
      (clock : ℕ) (st : S) (n : ℕ) (h : String)
      → IsValid st
      → (store.delete_expired clock st).0 ≡ ok n
      → holds (store.delete_expired clock st).1 h ≡ elim (holds st h) [
        | none ↦ none
        | some s ↦ if is_live (clock_now clock) s then some s else none
      ]
  pub fails :
      (clock : ℕ) (st : S) (e : SessionErr) (h : String)
      → IsValid st
      → (store.delete_expired clock st).0 ≡ err e
      → holds (store.delete_expired clock st).1 h ≡ holds st h

module _ {S : Type 0} (store : Store S) where
  unfoldable pub sweep : Wake → S → List Line × S
  sweep w st =
      let (r, st') = store.delete_expired w.clock st in
      (
        elim r [
          | err e ↦ if w.cancelled then [] else failed e ∷ []
          | ok n ↦ if ltb 0 n then deleted n ∷ [] else []
        ],
        st',
      )

  unfoldable pub sweep_loop : List Event → S → List Line × S
  sweep_loop [] st = ([], st)
  sweep_loop (done ∷ es) st = ([], st)
  sweep_loop (tick w ∷ es) st =
      let (now, st') = sweep w st in let (later, st'') = sweep_loop es st' in (now ++ later, st'')

  unfoldable pub run_sweeper : Wake → List Event → S → List Line × S
  unfolding sweep_loop sweep
  run_sweeper start es st =
      let (now, st') = sweep start st in
      let (later, st'') = sweep_loop es st' in (now ++ later, st'')

  -- The session is live whenever the sweeper wakes.
  abbrev pub OutlivesAll : Session → List Event → Type 0
  OutlivesAll s [] = Unit {0}
  OutlivesAll s (done ∷ es) = Unit {0}
  OutlivesAll s (tick w ∷ es) = (clock_now w.clock < s.expires_at) × OutlivesAll s es

  module _ (laws : Sweepable store) where
    open laws use {IsValid, holds, keeps, sweeps, fails}

    sweep-holds :
        (w : Wake) (st : S) (h : String) (s : Session)
        → IsValid st
        → holds st h ≡ some s
        → clock_now w.clock < s.expires_at
        → holds (sweep w st).1 h ≡ some s
    unfolding sweep
    sweep-holds w st h s v held live = go (store.delete_expired w.clock st).0 refl
      where
        go :
            (r : Result SessionErr ℕ)
            → (store.delete_expired w.clock st).0 ≡ r
            → holds (store.delete_expired w.clock st).1 h ≡ some s
        go (ok n) e = ground (arith, sweeps w.clock st n h v e)
        go (err x) e = fails w.clock st x h v e ∙ held

    sweep_loop-holds :
        (es : List Event) (st : S) (h : String) (s : Session)
        → IsValid st
        → holds st h ≡ some s
        → OutlivesAll s es
        → holds (sweep_loop es st).1 h ≡ some s
    unfolding sweep_loop
    sweep_loop-holds [] st h s v held live = held
    sweep_loop-holds (done ∷ es) st h s v held live = held
    sweep_loop-holds (tick w ∷ es) st h s v held live =
        sweep_loop-holds es (sweep w st).1 h s (unfold sweep in keeps w.clock st v)
          (sweep-holds w st h s v held live.0) live.1

    -- In any store with the sweeper's laws, from a valid state, the sweeper never removes a
    -- session that is live whenever it wakes, whatever fails.
    pub run_sweeper-holds :
        (start : Wake) (es : List Event) (st : S) (h : String) (s : Session)
        → IsValid st
        → holds st h ≡ some s
        → clock_now start.clock < s.expires_at
        → OutlivesAll s es
        → holds (run_sweeper start es st).1 h ≡ some s
    unfolding run_sweeper
    run_sweeper-holds start es st h s v held first live =
        sweep_loop-holds es (sweep start st).1 h s (keeps start.clock st v)
          (sweep-holds start st h s v held first) live

    sweep-none :
        (w : Wake) (st : S) (h : String)
        → IsValid st
        → holds st h ≡ none
        → holds (sweep w st).1 h ≡ none
    unfolding sweep
    sweep-none w st h v gone = go (store.delete_expired w.clock st).0 refl
      where
        go :
            (r : Result SessionErr ℕ)
            → (store.delete_expired w.clock st).0 ≡ r
            → holds (store.delete_expired w.clock st).1 h ≡ none
        go (ok n) e = ground (arith, sweeps w.clock st n h v e)
        go (err x) e = fails w.clock st x h v e ∙ gone

    sweep_loop-none :
        (es : List Event) (st : S) (h : String)
        → IsValid st
        → holds st h ≡ none
        → holds (sweep_loop es st).1 h ≡ none
    unfolding sweep_loop
    sweep_loop-none [] st h v gone = gone
    sweep_loop-none (done ∷ es) st h v gone = gone
    sweep_loop-none (tick w ∷ es) st h v gone =
        sweep_loop-none es (sweep w st).1 h (unfold sweep in keeps w.clock st v)
          (sweep-none w st h v gone)

    -- In any store with the sweeper's laws, from a valid state, the first sweep, if it succeeds,
    -- removes each session that has expired by then, and it stays removed.
    pub run_sweeper-none :
        (start : Wake) (es : List Event) (st : S) (n : ℕ) (h : String) (s : Session)
        → IsValid st
        → (store.delete_expired start.clock st).0 ≡ ok n
        → holds st h ≡ some s
        → s.expires_at ≤ clock_now start.clock
        → holds (run_sweeper start es st).1 h ≡ none
    unfolding run_sweeper
    run_sweeper-none start es st n h s v swept held expired =
        sweep_loop-none es (sweep start st).1 h (keeps start.clock st v)
          (ground (arith, sweeps start.clock st n h v swept))
