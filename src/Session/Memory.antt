-- ===== src/Session/Memory.antt =====
-- internal/session/memory.go: sessions in a map keyed by the token's hash.
pub mod Laws
pub mod Invariant
pub mod Listing
use homepad_api.Base.{
  ℕ, suc, ◌+◌, String, Bool, true, false, not, ◌&&◌, ◌||◌, List, [], ◌∷◌, Option, none, some, ◌==◌,
  nat_eq, string_eq, leb, ltb, if◌then◌else◌, length, filter, map, lookup, insert, erase,
  filter_values, sort_slice, Result, ok, err, ◌>>=◌,
}
use text.Mathlib.Text.{is_lt}
use Prim.Native.String.{compare}
use homepad_api.Session.{
  Session, Draw, SessionErr, not_found, bad_lifetime, new_token, new_handle, clock_now,
  check_lifetime, touch_due_at, is_live,
}
use homepad_api.Session.UserAgent.{sanitize_user_agent}
use homepad_api.Session.Contract.{Store}

abbrev pub Sessions : Type 0
Sessions = List (String × Session)

-- A session as it starts at `now`.
unfoldable pub fresh_session : String → String → ℕ → ℕ → List ℕ → Session
fresh_session handle user_id now lifetime user_agent = record {
  handle = handle;
  user_id = user_id;
  created_at = now;
  last_seen_at = now;
  expires_at = now + lifetime;
  user_agent = sanitize_user_agent user_agent;
  touch_due = false;
}

-- The session as a reader at `now` sees it.
abbrev pub seen_at : ℕ → Session → Session
seen_at now s = record s { touch_due = touch_due_at s.last_seen_at now }

-- `lessRecent`
unfoldable pub less_recent : Session → Session → Bool
less_recent a b =
    if not (a.last_seen_at == b.last_seen_at)
    then ltb b.last_seen_at a.last_seen_at
    else if not (a.created_at == b.created_at)
    then ltb b.created_at a.created_at
    else is_lt (compare a.handle b.handle)

module _ (sha256 : String → String) where
  unfoldable pub add :
      Draw → ℕ → String → String → ℕ → List ℕ → Sessions → Result SessionErr Session × Sessions
  unfolding new_handle fresh_session clock_now
  add draw clock token user_id lifetime user_agent m = elim (new_handle draw) [
    | err e ↦ (err e, m)
    | ok handle ↦
        let s = fresh_session handle user_id (clock_now clock) lifetime user_agent in
        (ok s, insert (sha256 token) s m)
  ]

  unfoldable pub create :
      Draw → ℕ → String → ℕ → List ℕ → Sessions → Result SessionErr (String × Session) × Sessions
  unfolding check_lifetime new_token add
  create draw clock user_id lifetime user_agent m =
      if not (check_lifetime lifetime) then (err bad_lifetime, m) else elim (new_token draw) [
        | err e ↦ (err e, m)
        | ok token ↦
            let (r, m') = add draw clock token user_id lifetime user_agent m in
            (r >>= (λ s. ok (token, s)), m')
      ]

  unfoldable pub bind :
      Draw → ℕ → String → String → ℕ → Sessions → Result SessionErr (Unit {0}) × Sessions
  unfolding check_lifetime add
  bind draw clock token user_id lifetime m =
      if not (check_lifetime lifetime)
      then (err bad_lifetime, m)
      else let (r, m') = add draw clock token user_id lifetime [] m in (r >>= (λ _. ok tt), m')

  unfoldable pub find : ℕ → String → Sessions → Result SessionErr Session
  unfolding clock_now touch_due_at
  find clock token m = if token == "" then err not_found else elim (lookup (sha256 token) m) [
    | none ↦ err not_found
    | some s ↦
        if not (is_live (clock_now clock) s)
        then err not_found
        else ok (seen_at (clock_now clock) s)
  ]

  unfoldable pub touch : ℕ → String → ℕ → Sessions → Result SessionErr Bool × Sessions
  unfolding check_lifetime clock_now touch_due_at
  touch clock token lifetime m =
      if not (check_lifetime lifetime)
      then (err bad_lifetime, m)
      else elim (lookup (sha256 token) m) [
        | none ↦ (ok false, m)
        | some s ↦
            if not (is_live (clock_now clock) s)
              || not (touch_due_at s.last_seen_at (clock_now clock))
            then (ok false, m)
            else (
              ok true,
              insert (sha256 token)
                  (record s {
                    last_seen_at = clock_now clock;
                    expires_at = clock_now clock + lifetime;
                  })
                  m,
            )
      ]

  unfoldable pub destroy : String → Sessions → Result SessionErr (Unit {0}) × Sessions
  destroy token m = (ok tt, erase (sha256 token) m)

-- The live sessions of a user, in the map's order.
abbrev pub live_of : String → ℕ → Session → Bool
live_of user_id now s = s.user_id == user_id && is_live now s

unfoldable pub list_for_user : ℕ → String → Sessions → Result SessionErr (List Session)
unfolding clock_now less_recent touch_due_at
list_for_user clock user_id m = ok (
    sort_slice less_recent (
      map (λ r. seen_at (clock_now clock) r.1)
        (filter_values (live_of user_id (clock_now clock)) m)))

-- The loop of `RevokeByHandle`: the first match goes.
unfoldable pub revoke_by_handle :
    String → String → Sessions → Result SessionErr (Unit {0}) × Sessions
revoke_by_handle user_id handle [] = (err not_found, [])
revoke_by_handle user_id handle ((h, s) ∷ m) =
    let (r, m') = revoke_by_handle user_id handle m in
    if s.handle == handle && s.user_id == user_id then (ok tt, m) else (r, (h, s) ∷ m')

unfoldable pub delete_expired : ℕ → Sessions → Result SessionErr ℕ × Sessions
unfolding clock_now
delete_expired clock m = (
  ok (length (filter_values (λ s. not (is_live (clock_now clock) s)) m)),
  filter_values (is_live (clock_now clock)) m,
)

-- `var _ Store = (*MemoryStore)(nil)`
abbrev pub memory_store : (String → String) → Store Sessions
memory_store sha256 = record {
  create = create sha256;
  find = λ clock token m. (find sha256 clock token m, m);
  touch = touch sha256;
  destroy = destroy sha256;
  list_for_user = λ clock user_id m. (list_for_user clock user_id m, m);
  revoke_by_handle = revoke_by_handle;
  delete_expired = delete_expired;
}
