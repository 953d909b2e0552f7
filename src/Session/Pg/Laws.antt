-- ===== src/Session/Pg/Laws.antt =====
-- Row by row: the statements of internal/session/pgstore.go against the map of memory.go.
use homepad_api.Base.{
  ℕ, ◌+◌, ◌≡◌, refl, inl, inr, String, Bool, true, false, not, ◌&&◌, ◌||◌, [], ◌∷◌, some, none,
  ◌==◌, nat_eq, string_eq, lookup, insert, erase, leb, ltb, if◌then◌else◌, filter, filter_values,
  map, find?, any, length, ok, err, arith, eq_iff, Bool-cases, Option-cases, equals_refl, IsMap,
  insert_absent,
}
use homepad_api.Session.{Session, not_found, is_live, touch_due_at}
use homepad_api.Session.Memory.{Sessions, revoke_by_handle}
use homepad_api.Session.Memory.Laws.{HasDistinctHandles}
use homepad_api.Session.Memory.Invariant.{has_handle}
use homepad_api.Session.Pg.{select_row, may_touch, update_row, insert_row}

find?_absent :
    (h : String) (now : ℕ) (m : Sessions)
    → lookup h m ≡ none
    → find? (λ r. r.0 == h && ltb now r.1.expires_at) m ≡ none
find?_absent h now [] e = refl
find?_absent h now ((j, s) ∷ m) e = ground (arith, find?_absent h now m)

pub select_row-lookup :
    (h : String) (now : ℕ) (m : Sessions)
    → IsMap m
    → select_row h now m ≡ (
      elim (lookup h m) [
        | none ↦ err not_found
        | some s ↦ if is_live now s then ok s else err not_found
      ],
      m,
    )
unfolding select_row
select_row-lookup h now [] keyed = refl
select_row-lookup h now ((j, s) ∷ m) keyed =
    ground (arith, eq_iff j h, find?_absent h now m, select_row-lookup h now m keyed.1)

abbrev slide_row : String → ℕ → ℕ → String × Session → String × Session
slide_row h now lifetime r =
    if may_touch h now r
    then (r.0, record r.1 { last_seen_at = now; expires_at = now + lifetime })
    else r

update_absent :
    (h : String) (now lifetime : ℕ) (m : Sessions)
    → lookup h m ≡ none
    → (map (slide_row h now lifetime) m ≡ m) × (length (filter (may_touch h now) m) ≡ 0)
update_absent h now lifetime [] e = (refl, refl)
update_absent h now lifetime ((j, s) ∷ m) e = ground (arith, update_absent h now lifetime m)

update_refused :
    (h : String) (now lifetime : ℕ) (s : Session) (m : Sessions)
    → IsMap m
    → lookup h m ≡ some s
    → may_touch h now (h, s) ≡ false
    → (map (slide_row h now lifetime) m ≡ m) × (length (filter (may_touch h now) m) ≡ 0)
update_refused h now lifetime s [] keyed held e = ground arith
update_refused h now lifetime s ((j, t) ∷ m) keyed held e =
    ground
      (arith, eq_iff j h, update_refused h now lifetime s m keyed.1, update_absent h now lifetime m)

update_slid :
    (h : String) (now lifetime : ℕ) (s : Session) (m : Sessions)
    → IsMap m
    → lookup h m ≡ some s
    → may_touch h now (h, s) ≡ true
    → (map (slide_row h now lifetime) m
        ≡ insert h (record s { last_seen_at = now; expires_at = now + lifetime }) m)
      × (length (filter (may_touch h now) m) ≡ 1)
update_slid h now lifetime s [] keyed held e = ground arith
update_slid h now lifetime s ((j, t) ∷ m) keyed held e =
    ground
      (arith, eq_iff j h, update_slid h now lifetime s m keyed.1, update_absent h now lifetime m)

pub erase-filter : (h : String) (m : Sessions) → filter (λ r. not (r.0 == h)) m ≡ erase h m
erase-filter h [] = refl
erase-filter h ((j, s) ∷ m) = ground (arith, erase-filter h m)

pub expired-filter :
    (now : ℕ) (m : Sessions)
    → (filter (λ r. not (leb r.1.expires_at now)) m ≡ filter_values (is_live now) m)
      × (filter (λ r. leb r.1.expires_at now) m ≡ filter_values (λ s. not (is_live now s)) m)
expired-filter now [] = (refl, refl)
expired-filter now ((j, s) ∷ m) = ground (arith, expired-filter now m)

abbrev named : String → String → String × Session → Bool
named user_id handle r = r.1.user_id == user_id && r.1.handle == handle

named_absent :
    (user_id handle : String) (m : Sessions)
    → has_handle handle m ≡ false
    → (filter (λ r. not (named user_id handle r)) m ≡ m)
      × (length (filter (named user_id handle) m) ≡ 0)
named_absent user_id handle [] e = (refl, refl)
named_absent user_id handle ((j, s) ∷ m) e = ground (arith, named_absent user_id handle m)

-- With distinct handles, deleting every named row deletes the first one.
pub revoke-filter :
    (user_id handle : String) (m : Sessions)
    → HasDistinctHandles m
    → ((if length (filter (named user_id handle) m) == 0 then err not_found else ok tt)
        ≡ (revoke_by_handle user_id handle m).0)
      × (filter (λ r. not (named user_id handle r)) m ≡ (revoke_by_handle user_id handle m).1)
unfolding revoke_by_handle
revoke-filter user_id handle [] d = (refl, refl)
revoke-filter user_id handle ((j, s) ∷ m) d = ground (
  arith,
  eq_iff s.handle handle,
  revoke-filter user_id handle m d.1,
  named_absent user_id handle m,
)

any-split :
    (h handle : String) (m : Sessions)
    → lookup h m ≡ none
    → has_handle handle m ≡ false
    → any (λ r. r.0 == h || r.1.handle == handle) m ≡ false
any-split h handle [] e d = refl
any-split h handle ((j, s) ∷ m) e d = ground (arith, any-split h handle m)

-- A new row goes where the map puts a new key.
pub insert_row-insert :
    (known : String → Bool) (h : String) (s : Session) (m : Sessions)
    → known s.user_id ≡ true
    → lookup h m ≡ none
    → has_handle s.handle m ≡ false
    → insert_row known h s m ≡ (ok tt, insert h s m)
unfolding insert_row
insert_row-insert known h s m user e d = ground (arith, any-split h s.handle m, insert_absent h s m)

-- One conditional update is a check and a write.
pub update_row-touch :
    (h : String) (now lifetime : ℕ) (m : Sessions)
    → IsMap m
    → update_row h now lifetime m ≡ elim (lookup h m) [
      | none ↦ (ok false, m)
      | some s ↦
          if not (is_live now s) || not (touch_due_at s.last_seen_at now)
          then (ok false, m)
          else (ok true, insert h (record s { last_seen_at = now; expires_at = now + lifetime }) m)
    ]
unfolding update_row touch_due_at
update_row-touch h now lifetime m keyed = elim (Option-cases (lookup h m)) [
  | inl gone ↦ ground (arith, update_absent h now lifetime m)
  | inr (s, held) ↦ elim (Bool-cases (may_touch h now (h, s))) [
    | inl moves ↦ ground (arith, equals_refl h, update_slid h now lifetime s m keyed held moves)
    | inr stays ↦ ground (arith, equals_refl h, update_refused h now lifetime s m keyed held stays)
  ]
]
