-- ===== src/Session/Pg/Refinement.antt =====
-- internal/session/pgstore.go behaves as memory.go does: the contract of `Store`, kept by both.
use mathlib.Core.List.{map-map}
use homepad_api.Base.{
  ℕ, ◌≡◌, refl, sym, ap, ◌∙◌, inl, inr, String, Bool, true, false, List, [], ◌∷◌, some, none,
  nat_eq, string_eq, lookup, filter_values, map, ok, arith, Option-cases, sort_slice,
  sort_slice-map,
}
use homepad_api.Session.{Session, Draw, clock_now}
use homepad_api.Session.Contract.{
  Call, creates, finds, touches, destroys, lists, revokes, sweeps, listed, step, run,
}
use homepad_api.Session.Memory
use homepad_api.Session.Memory.{
  Sessions, memory_store, fresh_session, seen_at, live_of, less_recent,
}
use homepad_api.Session.Memory.Invariant.{has_handle, Inv, IsFresh, step-Inv}
use homepad_api.Session.Pg
use homepad_api.Session.Pg.{PgStore, pg_store, exec}
use homepad_api.Session.Pg.Laws.{
  select_row-lookup, update_row-touch, erase-filter, expired-filter, revoke-filter,
  insert_row-insert,
}

-- The table with the given rows, while the database answers.
abbrev pub table : (String → Bool) → Sessions → PgStore
table known m = record { rows = m; faults = []; known = known }

module _ (sha256 : String → String) (known : String → Bool) where
  -- A `Create` names a user that exists, and draws a token and a handle that are new.
  abbrev pub IsNew : Call → Sessions → Type 0
  IsNew (creates draw clock user_id lifetime user_agent) m =
      (known user_id ≡ true)
      × ((h : String) → draw.handle ≡ some h → has_handle h m ≡ false)
      × ((t : String) → draw.token ≡ some t → lookup (sha256 t) m ≡ none)
  IsNew _ m = Unit {0}

  abbrev pub Refines : Call → Sessions → Type 0
  Refines c m =
      step (pg_store sha256) c (table known m)
      ≡ (let (r, m') = step (memory_store sha256) c m in (r, table known m'))

  create-Refines :
      (draw : Draw) (clock : ℕ) (user_id : String) (lifetime : ℕ) (user_agent : List ℕ)
      (m : Sessions)
      → IsNew (creates draw clock user_id lifetime user_agent) m
      → Refines (creates draw clock user_id lifetime user_agent) m
  unfolding step Memory.create Pg.create
  create-Refines draw clock user_id lifetime user_agent m new = elim (Option-cases draw.token) [
    | inl no_token ↦ ground (arith, no_token)
    | inr (token, drawn) ↦ elim (Option-cases draw.handle) [
      | inl no_handle ↦ ground (arith, no_handle)
      | inr (handle, drawn') ↦ ground (
        arith,
        drawn,
        drawn',
        insert_row-insert known (sha256 token)
            (fresh_session handle user_id (clock_now clock) lifetime user_agent) m new.0
            (new.2 token drawn) (new.1 handle drawn'),
      )
    ]
  ]

  find-Refines : (clock : ℕ) (token : String) (m : Sessions) → Inv m → Refines (finds clock token) m
  unfolding step Memory.find Pg.find
  find-Refines clock token m v =
      ground (arith, select_row-lookup (sha256 token) (clock_now clock) m v.keyed)

  touch-Refines :
      (clock : ℕ) (token : String) (lifetime : ℕ) (m : Sessions)
      → Inv m
      → Refines (touches clock token lifetime) m
  unfolding step Memory.touch Pg.touch
  touch-Refines clock token lifetime m v =
      ground (arith, update_row-touch (sha256 token) (clock_now clock) lifetime m v.keyed)

  list-Refines : (clock : ℕ) (user_id : String) (m : Sessions) → Refines (lists clock user_id) m
  unfolding step Memory.list_for_user Pg.list_for_user less_recent
  list-Refines clock user_id m =
      ap (λ xs. (listed (ok xs), table known m))
        (ap (map (seen_at now)) refl
          ∙ sym (sort_slice-map less_recent (seen_at now) seen_alike live)
          ∙ ap (sort_slice less_recent) (map-map (seen_at now) (λ r. r.1) rows))
    where
      now : ℕ
      now = clock_now clock

      rows : Sessions
      rows = filter_values (live_of user_id now) m

      live : List Session
      live = map (λ r. r.1) rows

      seen_alike : (a b : Session) → less_recent (seen_at now a) (seen_at now b) ≡ less_recent a b
      seen_alike a b = refl

  -- While the database answers, each call of the table gives the reply of the map and leaves the
  -- rows that the map then has.
  pub step-Refines : (c : Call) (m : Sessions) → IsNew c m → Inv m → Refines c m
  unfolding step Pg.destroy Memory.destroy Pg.revoke_by_handle Pg.delete_expired
      Memory.delete_expired
  step-Refines (creates draw clock user_id lifetime user_agent) m new v =
      create-Refines draw clock user_id lifetime user_agent m new
  step-Refines (finds clock token) m new v = find-Refines clock token m v
  step-Refines (touches clock token lifetime) m new v = touch-Refines clock token lifetime m v
  step-Refines (destroys token) m new v = ground (arith, erase-filter (sha256 token) m)
  step-Refines (lists clock user_id) m new v = list-Refines clock user_id m
  step-Refines (revokes user_id handle) m new v =
      ground (arith, revoke-filter user_id handle m v.distinct)
  step-Refines (sweeps clock) m new v = ground (arith, expired-filter (clock_now clock) m)

  -- Every call of the run is made of a store in which it is new.
  abbrev pub AllNew : List Call → Sessions → Type 0
  AllNew [] m = Unit {0}
  AllNew (c ∷ cs) m = IsNew c m × AllNew cs (step (memory_store sha256) c m).1

  IsFresh-of_new : (c : Call) (m : Sessions) → IsNew c m → IsFresh c m
  IsFresh-of_new (creates draw clock user_id lifetime user_agent) m new = new.1
  IsFresh-of_new (finds clock token) m new = tt
  IsFresh-of_new (touches clock token lifetime) m new = tt
  IsFresh-of_new (destroys token) m new = tt
  IsFresh-of_new (lists clock user_id) m new = tt
  IsFresh-of_new (revokes user_id handle) m new = tt
  IsFresh-of_new (sweeps clock) m new = tt

  -- So a client cannot tell the two stores apart: while the database answers, any sequence of
  -- calls gets the same replies from both and leaves the same sessions, if each `Create` names a
  -- user that exists and draws a new token and handle, and the sessions that they start with have
  -- distinct keys and handles and times in order.
  pub run-refines :
      (cs : List Call) (m : Sessions)
      → AllNew cs m
      → Inv m
      → run (pg_store sha256) cs (table known m)
        ≡ (let (rs, m') = run (memory_store sha256) cs m in (rs, table known m'))
  unfolding run
  run-refines [] m new v = refl
  run-refines (c ∷ cs) m new v =
      let m' = (step (memory_store sha256) c m).1 in
      rw (step-Refines c m new.0 v)
        (rw (run-refines cs m' new.1 (step-Inv sha256 c m (IsFresh-of_new c m new.0) v)))
