-- ===== src/Session/Contract.antt =====
-- The interface `Store` of internal/session/session.go, and the calls that a client makes of it.
use homepad_api.Base.{ℕ, String, Bool, List, [], ◌∷◌, Result}
use homepad_api.Session.{Session, Draw, SessionErr}

-- A store over states `S`. Every call is given the clock's reading.
pub record Store (S : Type 0) : Type 0 where
  pub create : Draw → ℕ → String → ℕ → List ℕ → S → Result SessionErr (String × Session) × S
  pub find : ℕ → String → S → Result SessionErr Session × S
  pub touch : ℕ → String → ℕ → S → Result SessionErr Bool × S
  pub destroy : String → S → Result SessionErr (Unit {0}) × S
  pub list_for_user : ℕ → String → S → Result SessionErr (List Session) × S
  pub revoke_by_handle : String → String → S → Result SessionErr (Unit {0}) × S
  pub delete_expired : ℕ → S → Result SessionErr ℕ × S

pub data Call : Type 0 where
  creates : Draw → ℕ → String → ℕ → List ℕ → Call
  finds : ℕ → String → Call
  touches : ℕ → String → ℕ → Call
  destroys : String → Call
  lists : ℕ → String → Call
  revokes : String → String → Call
  sweeps : ℕ → Call

pub data Reply : Type 0 where
  created : Result SessionErr (String × Session) → Reply
  found : Result SessionErr Session → Reply
  touched : Result SessionErr Bool → Reply
  done : Result SessionErr (Unit {0}) → Reply
  listed : Result SessionErr (List Session) → Reply
  swept : Result SessionErr ℕ → Reply

module _ {S : Type 0} (store : Store S) where
  unfoldable pub step : Call → S → Reply × S
  step (creates draw clock user_id lifetime user_agent) st =
      let (r, st') = store.create draw clock user_id lifetime user_agent st in (created r, st')
  step (finds clock token) st = let (r, st') = store.find clock token st in (found r, st')
  step (touches clock token lifetime) st =
      let (r, st') = store.touch clock token lifetime st in (touched r, st')
  step (destroys token) st = let (r, st') = store.destroy token st in (done r, st')
  step (lists clock user_id) st =
      let (r, st') = store.list_for_user clock user_id st in (listed r, st')
  step (revokes user_id handle) st =
      let (r, st') = store.revoke_by_handle user_id handle st in (done r, st')
  step (sweeps clock) st = let (r, st') = store.delete_expired clock st in (swept r, st')

  unfoldable pub run : List Call → S → List Reply × S
  unfolding step
  run [] st = ([], st)
  run (c ∷ cs) st = let (r, st') = step c st in let (rs, st'') = run cs st' in (r ∷ rs, st'')
