-- ===== src/Session/Memory/Laws.antt =====
-- What internal/session/memory.go keeps to: lookups after each call, the slide throttle, expiry.
use homepad_api.Base.{
  ℕ, ◌+◌, ◌≤◌, ◌<◌, ◌≡◌, ◌≢◌, ◌⊎◌, inl, inr, String, true, false, List, [], ◌∷◌, none, some, ◌==◌,
  nat_eq, string_eq, ltb, if◌then◌else◌, length, lookup, ok, err, arith, Option-cases,
  lookup-insert, lookup-erase, lookup-filter_values, any, IsMap, equals_refl, eq_iff,
  length-filter-not,
}
use homepad_api.Session.{Session, Draw, not_found, clock_now, touch_interval, is_live}
use homepad_api.Session.Memory.{
  Sessions, seen_at, create, find, touch, destroy, revoke_by_handle, delete_expired,
}

module _ (sha256 : String → String) where
  -- Where `create` succeeds, the token that it returned, if it is not empty, finds the new
  -- session until its lifetime is over, with its `TouchDue` of then.
  pub find-create :
      (draw : Draw) (clock later lifetime : ℕ) (user_id token : String) (s : Session)
      (user_agent : List ℕ) (m : Sessions)
      → (create sha256 draw clock user_id lifetime user_agent m).0 ≡ ok (token, s)
      → token ≢ ""
      → find sha256 later token (create sha256 draw clock user_id lifetime user_agent m).1 ≡ (
          if ltb (clock_now later) (clock_now clock + lifetime)
          then ok (seen_at (clock_now later) s)
          else err not_found)
  unfolding create find
  find-create draw clock later lifetime user_id token s user_agent m made real = ground (
    arith,
    eq_iff token "",
    lookup-insert (sha256 token) (sha256 token) s m,
    equals_refl (sha256 token),
  )

  -- A destroyed token finds nothing, and any other token finds what it found before.
  pub find-destroy :
      (clock : ℕ) (token other : String) (m : Sessions)
      → find sha256 clock other (destroy sha256 token m).1
        ≡ (if sha256 token == sha256 other then err not_found else find sha256 clock other m)
  unfolding destroy find
  find-destroy clock token other m = ground (arith, lookup-erase (sha256 token) (sha256 other) m)

  -- A slide that writes to a session that the store has sets both times of it, as a lookup by
  -- its token finds, and a lookup by any other token that is not empty finds what it found
  -- before.
  pub find-touch :
      (clock later lifetime : ℕ) (token other : String) (m : Sessions) (s : Session)
      → lookup (sha256 token) m ≡ some s
      → (touch sha256 clock token lifetime m).0 ≡ ok true
      → other ≢ ""
      → find sha256 later other (touch sha256 clock token lifetime m).1 ≡ (
          if sha256 token == sha256 other
          then (if ltb (clock_now later) (clock_now clock + lifetime)
              then ok (
                  seen_at (clock_now later) (record s {
                    last_seen_at = clock_now clock;
                    expires_at = clock_now clock + lifetime;
                  }))
              else err not_found)
          else find sha256 later other m)
  unfolding touch find
  find-touch clock later lifetime token other m s held slid real = ground (
    arith,
    eq_iff other "",
    lookup-insert (sha256 token) (sha256 other)
        (record s { last_seen_at = clock_now clock; expires_at = clock_now clock + lifetime }) m,
  )

  -- After a slide that wrote, a second one of the same token less than `TouchInterval` later,
  -- with a positive lifetime, answers that it did not write, and writes nothing.
  pub touch-touch :
      (clock later lifetime lifetime' : ℕ) (token : String) (m : Sessions)
      → (touch sha256 clock token lifetime m).0 ≡ ok true
      → clock_now later < clock_now clock + touch_interval
      → 0 < lifetime'
      → touch sha256 later token lifetime' (touch sha256 clock token lifetime m).1
        ≡ (ok false, (touch sha256 clock token lifetime m).1)
  unfolding touch
  touch-touch clock later lifetime lifetime' token m slid soon positive =
      elim (Option-cases (lookup (sha256 token) m)) [
        | inl gone ↦ ground (arith, gone)
        | inr (s, held) ↦ ground (
          arith,
          held,
          equals_refl (sha256 token),
          lookup-insert (sha256 token) (sha256 token)
              (record s { last_seen_at = clock_now clock; expires_at = clock_now clock + lifetime })
              m,
        )
      ]

  -- In a store with distinct keys, sweeping does not change what a lookup finds that is made no
  -- earlier than the sweep.
  find-delete_expired :
      (clock later : ℕ) (token : String) (m : Sessions)
      → IsMap m
      → clock_now clock ≤ clock_now later
      → find sha256 later token (delete_expired clock m).1 ≡ find sha256 later token m
  unfolding delete_expired find
  find-delete_expired clock later token m keyed after =
      ground (arith, lookup-filter_values (is_live (clock_now clock)) (sha256 token) m keyed)

-- The sweep reports as many sessions as the map loses.
pub delete_expired_count :
    (clock : ℕ) (m : Sessions) (n : ℕ)
    → (delete_expired clock m).0 ≡ ok n
    → n + length (delete_expired clock m).1 ≡ length m
unfolding delete_expired
delete_expired_count clock m n e =
    ground (arith, length-filter-not (λ (r : String × Session). is_live (clock_now clock) r.1) m)

-- No handle twice.
abbrev pub HasDistinctHandles : Sessions → Type 0
HasDistinctHandles [] = Unit {0}
HasDistinctHandles ((h, s) ∷ m) =
    (any (λ r. r.1.handle == s.handle) m ≡ false) × HasDistinctHandles m

handle-ne_of_any :
    (k handle : String) (s : Session) (m : Sessions)
    → lookup k m ≡ some s
    → any (λ r. r.1.handle == handle) m ≡ false
    → s.handle ≢ handle
handle-ne_of_any k handle s [] held absent = cc
handle-ne_of_any k handle s ((h, s') ∷ m) held absent =
    ground (arith, eq_iff s.handle handle, handle-ne_of_any k handle s m)

pub lookup-revoke_by_handle_ne :
    (k user_id handle : String) (s : Session) (m : Sessions)
    → lookup k m ≡ some s
    → (s.user_id ≢ user_id) ⊎ (s.handle ≢ handle)
    → lookup k (revoke_by_handle user_id handle m).1 ≡ some s
unfolding revoke_by_handle
lookup-revoke_by_handle_ne k user_id handle s [] held other = cc
lookup-revoke_by_handle_ne k user_id handle s ((h, s') ∷ m) held other = ground (
  arith,
  eq_iff s.handle handle,
  eq_iff s.user_id user_id,
  lookup-revoke_by_handle_ne k user_id handle s m,
)

pub lookup-revoke_by_handle :
    (k : String) (s : Session) (m : Sessions)
    → IsMap m
    → HasDistinctHandles m
    → lookup k m ≡ some s
    → (lookup k (revoke_by_handle s.user_id s.handle m).1 ≡ none)
      × ((revoke_by_handle s.user_id s.handle m).0 ≡ ok tt)
unfolding revoke_by_handle
lookup-revoke_by_handle k s [] keyed distinct held = cc
lookup-revoke_by_handle k s ((h, s') ∷ m) keyed distinct held = ground (
  arith,
  eq_iff h k,
  eq_iff s'.handle s.handle,
  equals_refl s.handle,
  equals_refl s.user_id,
  handle-ne_of_any k s'.handle s m,
  lookup-revoke_by_handle k s m keyed.1 distinct.1,
)

-- In a store with distinct keys and handles, revoking the handle of a session that the store
-- has, for its user, succeeds; its token is found no more, and every other session that the
-- store has, of another account or with another handle, is found as before.
pub find-revoke_by_handle :
    (sha256 : String → String) (clock : ℕ) (token other : String) (s t : Session) (m : Sessions)
    → IsMap m
    → HasDistinctHandles m
    → lookup (sha256 token) m ≡ some s
    → lookup (sha256 other) m ≡ some t
    → (t.user_id ≢ s.user_id) ⊎ (t.handle ≢ s.handle)
    → let m' = (revoke_by_handle s.user_id s.handle m).1 in
      ((revoke_by_handle s.user_id s.handle m).0 ≡ ok tt)
      × (find sha256 clock token m' ≡ err not_found)
      × (find sha256 clock other m' ≡ find sha256 clock other m)
unfolding find
find-revoke_by_handle sha256 clock token other s t m keyed distinct held kept differs = ground (
  arith,
  lookup-revoke_by_handle (sha256 token) s m keyed distinct held,
  lookup-revoke_by_handle_ne (sha256 other) s.user_id s.handle t m kept differs,
)
