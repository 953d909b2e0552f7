-- ===== src/Session/Pg.antt =====
-- internal/session/pgstore.go: sessions in the table of migrations/0017_sessions.up.sql.
-- Each call makes one statement, which fails where the next of `faults` is `true` (the database
-- cannot be reached). `known` says which users exist, for the foreign key.
pub mod Laws
pub mod Refinement
use homepad_api.Base.{
  ℕ, suc, ◌+◌, ◌-◌, String, Bool, true, false, not, ◌&&◌, ◌||◌, List, [], ◌∷◌, ◌++◌, Option, none,
  some, ◌==◌, nat_eq, string_eq, leb, ltb, if◌then◌else◌, length, filter, map, lookup, any,
  sort_slice, Result, ok, err, ◌>>=◌, find?, is_ok,
}
use homepad_api.Session.{
  Session, Draw, SessionErr, not_found, bad_lifetime, unavailable, new_token, new_handle, clock_now,
  check_lifetime, touch_due_at, is_live, touch_interval,
}
use homepad_api.Session.Contract.{Store}
use homepad_api.Session.Memory.{Sessions, fresh_session, seen_at, live_of, less_recent}

pub record PgStore : Type 0 where
  pub rows : Sessions
  pub faults : List Bool
  pub known : String → Bool

-- One statement: its error, or its result and the table after it.
unfoldable pub exec :
    {A : Type 0}
    → (Sessions → Result SessionErr A × Sessions)
    → PgStore
    → Result SessionErr A × PgStore
exec q p = elim p.faults [
  | true ∷ fs ↦ (err unavailable, record p { faults = fs })
  | false ∷ fs ↦ let (r, rows') = q p.rows in (r, record p { rows = rows'; faults = fs })
  | [] ↦ let (r, rows') = q p.rows in (r, record p { rows = rows' })
]

-- `INSERT INTO sessions`, with the primary key, the unique handle and the foreign key.
unfoldable pub insert_row :
    (String → Bool) → String → Session → Sessions → Result SessionErr (Unit {0}) × Sessions
insert_row known h s rows =
    if any (λ r. r.0 == h || r.1.handle == s.handle) rows || not (known s.user_id)
    then (err unavailable, rows)
    else (ok tt, rows ++ (h, s) ∷ [])

-- `WHERE token_hash = $1 AND expires_at > $2`
unfoldable pub select_row : String → ℕ → Sessions → Result SessionErr Session × Sessions
select_row h now rows = elim (find? (λ r. r.0 == h && ltb now r.1.expires_at) rows) [
  | none ↦ (err not_found, rows)
  | some r ↦ (ok r.1, rows)
]

-- `last_seen_at <= now - TouchInterval`; an instant before the epoch is below every row's.
abbrev pub seen_before : ℕ → Session → Bool
seen_before now s = leb touch_interval now && leb s.last_seen_at (now - touch_interval)

abbrev pub may_touch : String → ℕ → String × Session → Bool
may_touch h now r = r.0 == h && ltb now r.1.expires_at && seen_before now r.1

unfoldable pub update_row : String → ℕ → ℕ → Sessions → Result SessionErr Bool × Sessions
update_row h now lifetime rows = (
  ok (length (filter (may_touch h now) rows) == 1),
  map
      (λ r.
        if may_touch h now r
        then (r.0, record r.1 { last_seen_at = now; expires_at = now + lifetime })
        else r)
      rows,
)

module _ (sha256 : String → String) where
  unfoldable pub add :
      Draw → ℕ → String → String → ℕ → List ℕ → PgStore → Result SessionErr Session × PgStore
  unfolding new_handle exec insert_row fresh_session
  add draw clock token user_id lifetime user_agent p = elim (new_handle draw) [
    | err e ↦ (err e, p)
    | ok handle ↦
        let s = fresh_session handle user_id (clock_now clock) lifetime user_agent in
        let (r, p') = exec (insert_row p.known (sha256 token) s) p in (r >>= (λ _. ok s), p')
  ]

  unfoldable pub create :
      Draw → ℕ → String → ℕ → List ℕ → PgStore → Result SessionErr (String × Session) × PgStore
  unfolding check_lifetime new_token add
  create draw clock user_id lifetime user_agent p =
      if not (check_lifetime lifetime) then (err bad_lifetime, p) else elim (new_token draw) [
        | err e ↦ (err e, p)
        | ok token ↦
            let (r, p') = add draw clock token user_id lifetime user_agent p in
            (r >>= (λ s. ok (token, s)), p')
      ]

  unfoldable pub bind :
      Draw → ℕ → String → String → ℕ → PgStore → Result SessionErr (Unit {0}) × PgStore
  unfolding check_lifetime add
  bind draw clock token user_id lifetime p =
      if not (check_lifetime lifetime)
      then (err bad_lifetime, p)
      else let (r, p') = add draw clock token user_id lifetime [] p in (r >>= (λ _. ok tt), p')

  unfoldable pub find : ℕ → String → PgStore → Result SessionErr Session × PgStore
  unfolding exec select_row
  find clock token p =
      if token == ""
      then (err not_found, p)
      else let (r, p') = exec (select_row (sha256 token) (clock_now clock)) p in
        (r >>= (λ s. ok (seen_at (clock_now clock) s)), p')

  unfoldable pub touch : ℕ → String → ℕ → PgStore → Result SessionErr Bool × PgStore
  unfolding check_lifetime exec update_row
  touch clock token lifetime p =
      if not (check_lifetime lifetime)
      then (err bad_lifetime, p)
      else exec (update_row (sha256 token) (clock_now clock) lifetime) p

  unfoldable pub destroy : String → PgStore → Result SessionErr (Unit {0}) × PgStore
  unfolding exec
  destroy token = exec (λ rows. (ok tt, filter (λ r. not (r.0 == sha256 token)) rows))

-- `ORDER BY last_seen_at DESC, created_at DESC, handle` is the order of `less_recent`.
unfoldable pub list_for_user : ℕ → String → PgStore → Result SessionErr (List Session) × PgStore
unfolding exec
list_for_user clock user_id = exec (λ rows. (
  ok (
      map (seen_at (clock_now clock)) (
        sort_slice less_recent
          (map (λ r. r.1) (filter (λ r. live_of user_id (clock_now clock) r.1) rows)))),
  rows,
))

unfoldable pub revoke_by_handle : String → String → PgStore → Result SessionErr (Unit {0}) × PgStore
unfolding exec
revoke_by_handle user_id handle = exec (λ rows.
    let named = λ (r : String × Session). r.1.user_id == user_id && r.1.handle == handle in
    (
      if length (filter named rows) == 0 then err not_found else ok tt,
      filter (λ r. not (named r)) rows,
    ))

unfoldable pub delete_expired : ℕ → PgStore → Result SessionErr ℕ × PgStore
unfolding exec
delete_expired clock = exec (λ rows. (
  ok (length (filter (λ r. leb r.1.expires_at (clock_now clock)) rows)),
  filter (λ r. not (leb r.1.expires_at (clock_now clock))) rows,
))

-- `var _ Store = (*PgStore)(nil)`
abbrev pub pg_store : (String → String) → Store PgStore
pg_store sha256 = record {
  create = create sha256;
  find = find sha256;
  touch = touch sha256;
  destroy = destroy sha256;
  list_for_user = list_for_user;
  revoke_by_handle = revoke_by_handle;
  delete_expired = delete_expired;
}
