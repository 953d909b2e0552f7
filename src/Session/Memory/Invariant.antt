-- ===== src/Session/Memory/Invariant.antt =====
-- What every call of internal/session/memory.go keeps of the map.
use homepad_api.Base.{
  ℕ, ◌+◌, ◌≤◌, ◌<◌, ◌≡◌, refl, sym, inl, inr, String, Bool, true, false, List, [], ◌∷◌, some, none,
  ◌==◌, nat_eq, string_eq, lookup, insert, ltb, leb, ltb→lt, ◌&&◌, ◌⊎◌, erase, filter_values, All,
  arith, eq_iff, Bool-cases, any, IsMap, insert-IsMap, erase-IsMap, filter_values-IsMap,
  Option-cases,
}
use homepad_api.Session.{Session, Draw, new_token, new_handle, clock_now, is_live, touch_interval}
use homepad_api.Session.Contract.{
  Call, creates, finds, touches, destroys, lists, revokes, sweeps, step,
}
use homepad_api.Session.Memory.{
  Sessions, memory_store, add, create, fresh_session, touch, destroy, revoke_by_handle,
  delete_expired,
}
use homepad_api.Session.Memory.Laws.{HasDistinctHandles}

abbrev pub has_handle : String → Sessions → Bool
has_handle handle m = any (λ r. r.1.handle == handle) m

-- A session's times are in order, and it outlives its last use.
abbrev pub IsTimed : String × Session → Type 0
IsTimed r = (r.1.created_at ≤ r.1.last_seen_at) × (r.1.last_seen_at < r.1.expires_at)

pub record Inv (m : Sessions) : Type 0 where
  pub keyed : IsMap m
  pub distinct : HasDistinctHandles m
  pub timed : All IsTimed m

has_handle-insert :
    (k handle : String) (s : Session) (m : Sessions)
    → has_handle handle m ≡ false
    → (s.handle == handle) ≡ false
    → has_handle handle (insert k s m) ≡ false
has_handle-insert k handle s [] h e = ground arith
has_handle-insert k handle s ((j, t) ∷ m) h e = ground (arith, has_handle-insert k handle s m)

has_handle-insert_same :
    (k handle : String) (s t : Session) (m : Sessions)
    → lookup k m ≡ some t
    → s.handle ≡ t.handle
    → has_handle handle m ≡ false
    → has_handle handle (insert k s m) ≡ false
has_handle-insert_same k handle s t [] held same h = ground arith
has_handle-insert_same k handle s t ((j, u) ∷ m) held same h =
    ground (arith, has_handle-insert_same k handle s t m)

insert-HasDistinctHandles :
    (k : String) (s : Session) (m : Sessions)
    → has_handle s.handle m ≡ false
    → HasDistinctHandles m
    → HasDistinctHandles (insert k s m)
insert-HasDistinctHandles k s [] h d = (refl, tt)
insert-HasDistinctHandles k s ((j, t) ∷ m) h d = ground (
  arith,
  eq_iff s.handle t.handle,
  eq_iff t.handle s.handle,
  has_handle-insert k t.handle s m,
  insert-HasDistinctHandles k s m,
)

insert-HasDistinctHandles_same :
    (k : String) (s t : Session) (m : Sessions)
    → lookup k m ≡ some t
    → s.handle ≡ t.handle
    → HasDistinctHandles m
    → HasDistinctHandles (insert k s m)
insert-HasDistinctHandles_same k s t [] held same d = (refl, tt)
insert-HasDistinctHandles_same k s t ((j, u) ∷ m) held same d =
    ground (arith, has_handle-insert_same k u.handle s t m, insert-HasDistinctHandles_same k s t m)

module _ {κ} (P : String × Session → Type κ) where
  insert-All : (k : String) (s : Session) (m : Sessions) → P (k, s) → All P m → All P (insert k s m)
  insert-All k s [] p h = (p, tt)
  insert-All k s ((j, t) ∷ m) p h = elim (Bool-cases (j == k)) [
    | inl same ↦ rw same (p, h.1)
    | inr other ↦ rw other (h.0, insert-All k s m p h.1)
  ]

  lookup-All :
      (k : String) (s : Session) (m : Sessions)
      → lookup k m ≡ some s
      → All P m
      → (j : String) × P (j, s)
  lookup-All k s [] held h = absurd (ground arith)
  lookup-All k s ((j, t) ∷ m) held h = elim (Bool-cases (j == k)) [
    | inl same ↦ (j, rw (sym (value same)) h.0)
    | inr other ↦ lookup-All k s m (ground arith) h.1
  ]
    where
      value : (j == k) ≡ true → t ≡ s
      value same = ground arith

module _ (p : String × Session → Bool) where
  any-erase : (k : String) (m : Sessions) → any p m ≡ false → any p (erase k m) ≡ false
  any-erase k [] h = refl
  any-erase k ((j, s) ∷ m) h = ground (arith, any-erase k m)

  any-filter_values :
      (q : Session → Bool) (m : Sessions) → any p m ≡ false → any p (filter_values q m) ≡ false
  any-filter_values q [] h = refl
  any-filter_values q ((j, s) ∷ m) h = ground (arith, any-filter_values q m)

  any-revoke :
      (user_id handle : String) (m : Sessions)
      → any p m ≡ false
      → any p (revoke_by_handle user_id handle m).1 ≡ false
  unfolding revoke_by_handle
  any-revoke user_id handle [] h = refl
  any-revoke user_id handle ((j, s) ∷ m) h = ground (arith, any-revoke user_id handle m)

lookup-revoke_none :
    (k user_id handle : String) (m : Sessions)
    → lookup k m ≡ none
    → lookup k (revoke_by_handle user_id handle m).1 ≡ none
unfolding revoke_by_handle
lookup-revoke_none k user_id handle [] h = refl
lookup-revoke_none k user_id handle ((j, s) ∷ m) h =
    ground (arith, lookup-revoke_none k user_id handle m)

erase-Inv : (k : String) (m : Sessions) → Inv m → Inv (erase k m)
erase-Inv k [] v = record { keyed = tt; distinct = tt; timed = tt }
erase-Inv k ((j, s) ∷ m) v =
    let rest =
      erase-Inv k m (record { keyed = v.keyed.1; distinct = v.distinct.1; timed = v.timed.1 }) in
    record {
      keyed = erase-IsMap k ((j, s) ∷ m) v.keyed;
      distinct = ground (arith, any-erase (λ r. r.1.handle == s.handle) k m, rest.distinct);
      timed = ground (arith, rest.timed);
    }

filter_values-Inv : (q : Session → Bool) (m : Sessions) → Inv m → Inv (filter_values q m)
filter_values-Inv q [] v = record { keyed = tt; distinct = tt; timed = tt }
filter_values-Inv q ((j, s) ∷ m) v =
    let rest =
      filter_values-Inv q m
        (record { keyed = v.keyed.1; distinct = v.distinct.1; timed = v.timed.1 }) in
    record {
      keyed = filter_values-IsMap q ((j, s) ∷ m) v.keyed;
      distinct = ground (arith, any-filter_values (λ r. r.1.handle == s.handle) q m, rest.distinct);
      timed = ground (arith, rest.timed);
    }

revoke-Inv :
    (user_id handle : String) (m : Sessions) → Inv m → Inv (revoke_by_handle user_id handle m).1
unfolding revoke_by_handle
revoke-Inv user_id handle [] v = record { keyed = tt; distinct = tt; timed = tt }
revoke-Inv user_id handle ((j, s) ∷ m) v =
    let rest =
      revoke-Inv user_id handle m
        (record { keyed = v.keyed.1; distinct = v.distinct.1; timed = v.timed.1 }) in
    record {
      keyed = ground (arith, lookup-revoke_none j user_id handle m, rest.keyed);
      distinct =
          ground (arith, any-revoke (λ r. r.1.handle == s.handle) user_id handle m, rest.distinct);
      timed = ground (arith, rest.timed);
    }

insert_fresh-Inv :
    (k : String) (s : Session) (m : Sessions)
    → has_handle s.handle m ≡ false
    → IsTimed (k, s)
    → Inv m
    → Inv (insert k s m)
insert_fresh-Inv k s m fresh timed v = record {
  keyed = insert-IsMap k s m v.keyed;
  distinct = insert-HasDistinctHandles k s m fresh v.distinct;
  timed = insert-All IsTimed k s m timed v.timed;
}

-- The handle that a `Create` draws is new.
abbrev pub IsFresh : Call → Sessions → Type 0
IsFresh (creates draw clock user_id lifetime user_agent) m =
    (h : String) → draw.handle ≡ some h → has_handle h m ≡ false
IsFresh _ m = Unit {0}

module _ (sha256 : String → String) where
  create-Inv :
      (draw : Draw) (clock : ℕ) (user_id : String) (lifetime : ℕ) (user_agent : List ℕ)
      (m : Sessions)
      → IsFresh (creates draw clock user_id lifetime user_agent) m
      → Inv m
      → Inv (create sha256 draw clock user_id lifetime user_agent m).1
  unfolding create fresh_session
  create-Inv draw clock user_id lifetime user_agent m fresh v = elim (Bool-cases (ltb 0 lifetime)) [
    | inr bad ↦ rw (bad, create) v
    | inl good ↦ elim (Option-cases draw.token) [
      | inl no_token ↦ rw (good, no_token, create, new_token) v
      | inr (token, drawn) ↦ elim (Option-cases draw.handle) [
        | inl no_handle ↦ rw (good, drawn, no_handle, create, new_token, new_handle, add) v
        | inr (handle, drawn') ↦
            rw (good, drawn, drawn', create, new_token, new_handle, add)
              (insert_fresh-Inv (sha256 token)
                (fresh_session handle user_id (clock_now clock) lifetime user_agent) m
                (fresh handle drawn') (omega (arith, ltb→lt 0 lifetime good)) v)
      ]
    ]
  ]

  -- A slide either writes nothing or replaces a session whose last use is old enough.
  touch_cases :
      (clock : ℕ) (token : String) (lifetime : ℕ) (m : Sessions)
      → ((touch sha256 clock token lifetime m).1 ≡ m)
        ⊎ ((s : Session) × (lookup (sha256 token) m ≡ some s)
            × (s.last_seen_at + touch_interval ≤ clock_now clock)
            × (0 < lifetime)
            × ((touch sha256 clock token lifetime m).1
                ≡ insert
                    (sha256 token)
                    (record s {
                      last_seen_at = clock_now clock;
                      expires_at = clock_now clock + lifetime;
                    })
                    m))
  unfolding touch
  touch_cases clock token lifetime m = elim (Option-cases (lookup (sha256 token) m)) [
    | inl gone ↦ inl (ground (arith, gone))
    | inr (s, held) ↦
        elim (Bool-cases (
          ltb 0 lifetime
          && is_live (clock_now clock) s
          && leb (s.last_seen_at + touch_interval) (clock_now clock))) [
            | inl moves ↦
                inr (
                  s,
                  held,
                  ground (arith, moves),
                  ground (arith, moves),
                  ground (arith, held, moves),
                )
            | inr stays ↦ inl (ground (arith, held, stays))
          ]
  ]

  touch-Inv :
      (clock : ℕ) (token : String) (lifetime : ℕ) (m : Sessions)
      → Inv m
      → Inv (touch sha256 clock token lifetime m).1
  touch-Inv clock token lifetime m v = elim (touch_cases clock token lifetime m) [
    | inl same ↦ rw same v
    | inr (s, held, due, positive, moved) ↦
        let slid : Session = record s {
          last_seen_at = clock_now clock;
          expires_at = clock_now clock + lifetime;
        } in
        let (_, timed) = lookup-All IsTimed (sha256 token) s m held v.timed in
        rw moved (record {
          keyed = insert-IsMap (sha256 token) slid m v.keyed;
          distinct = insert-HasDistinctHandles_same (sha256 token) slid s m held refl v.distinct;
          timed = insert-All IsTimed (sha256 token) slid m (omega arith) v.timed;
        })
  ]

  -- Every call keeps the keys and the handles distinct and each session's times in order, if a
  -- `Create` draws a new handle.
  pub step-Inv :
      (c : Call) (m : Sessions) → IsFresh c m → Inv m → Inv (step (memory_store sha256) c m).1
  unfolding step destroy delete_expired
  step-Inv (creates draw clock user_id lifetime user_agent) m fresh v =
      create-Inv draw clock user_id lifetime user_agent m fresh v
  step-Inv (finds clock token) m fresh v = v
  step-Inv (touches clock token lifetime) m fresh v = touch-Inv clock token lifetime m v
  step-Inv (destroys token) m fresh v = erase-Inv (sha256 token) m v
  step-Inv (lists clock user_id) m fresh v = v
  step-Inv (revokes user_id handle) m fresh v = revoke-Inv user_id handle m v
  step-Inv (sweeps clock) m fresh v = filter_values-Inv (is_live (clock_now clock)) m v
