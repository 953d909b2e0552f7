-- ===== src/Api/Catalog/KidStatus.antt =====
-- Which monitored keys a kid's session reads, through handleStatus of internal/api/services.go.
use homepad_api.Base.{
  ℕ, String, Bool, true, false, not, ◌&&◌, ◌||◌, List, [], ◌∷◌, Option, some, ok, err, All, All-map,
  All-of_map, All-filter, filter, filter-All, Bool-cases, Option-cases, Result-cases, inl, inr,
  ◌==◌, string_eq, ◌≡◌, sym, ◌∙◌, arith, map, contains, any, eq_iff, sort_slice-All,
}
use mathlib.Core.Path.{subst}
use homepad_api.Gatus.{Status}
use homepad_api.Storage.{World, Db, statement, ServiceRow}
use homepad_api.Storage.Users.{User, coalesce}
use homepad_api.Storage.Kids.{is_adult_role, allowed_to, allows}
use homepad_api.Storage.Catalog.{Service, scan_service, catalog_of, list_services}
use homepad_api.Api.{Response, statuses, Request, Server, serve, internal_error}
use homepad_api.Api.Guards.{visible_services}
use homepad_api.Api.Sessions.{current_user, require_user}
use homepad_api.Api.Sessions.Authentication.{current_user-SameRows}
use homepad_api.Api.Catalog.{Snap, owner_or_none, allowed_keys, keys_of, shows_key, handle_status}
use homepad_api.Api.Catalog.KidFilter.{visible_services-kid, owner_or_none-db}

-- A service of the list has the key and is among the ids.
abbrev pub is_key_of : List String → String → ServiceRow → Bool
is_key_of ids key r = coalesce r.gatus_key "" == key && contains ids r.id

abbrev pub has_key : List String → List ServiceRow → String → Bool
has_key ids rows key = any (is_key_of ids key) rows

-- What is shown of a service that a row gives, if the id is among those allowed.
abbrev KeyFound : List String → List ServiceRow → Service → Type 0
KeyFound ids rows s = (not (contains ids s.id) || has_key ids rows s.gatus_key) ≡ true

rows-KeyFound :
    (ids : List String) (db : Db) (rows : List ServiceRow)
    → All (λ r. KeyFound ids rows (scan_service db r)) rows
unfolding scan_service
rows-KeyFound ids db [] = tt
rows-KeyFound ids db (r ∷ rs) = (
  ground (arith, eq_iff (coalesce r.gatus_key "") (coalesce r.gatus_key "")),
  All-map (λ s h. ground (arith, h)) rs (rows-KeyFound ids db rs),
)

catalog_of-KeyFound :
    (server : Server) (owner viewer : String) (ids : List String) (db : Db)
    → All (KeyFound ids db.services) (catalog_of server.ext owner viewer db)
unfolding catalog_of
catalog_of-KeyFound server owner viewer ids db =
    All-of_map (KeyFound ids db.services) (scan_service db) _ (
      sort_slice-All _ (λ r. KeyFound ids db.services (scan_service db r)) _
        (All-filter (λ r. KeyFound ids db.services (scan_service db r)) (λ s. s.user_id == owner)
          db.services (rows-KeyFound ids db db.services)))

list_services-catalog_of :
    (server : Server) (owner viewer : String) (w : World) (svcs : List Service)
    → (list_services server.ext owner viewer w).0 ≡ ok svcs
    → svcs ≡ catalog_of server.ext owner viewer w.db
unfolding list_services statement
list_services-catalog_of server owner viewer w svcs found = ground (arith, found)

abbrev IsShownKey : List String → List ServiceRow → String → Type 0
IsShownKey ids rows key = has_key ids rows key ≡ true

keys_of-IsShownKey :
    (ids : List String) (rows : List ServiceRow) (svcs : List Service)
    → All (KeyFound ids rows) svcs
    → All (IsShownKey ids rows) (keys_of (some ids) svcs)
unfolding allows
keys_of-IsShownKey ids rows [] h = tt
keys_of-IsShownKey ids rows (s ∷ ss) h =
    elim (Bool-cases (not (s.gatus_key == "") && contains ids s.id)) [
      | inr out ↦ rw out (keys_of-IsShownKey ids rows ss h.1)
      | inl kept ↦ rw kept (ground (arith, kept, h.0), keys_of-IsShownKey ids rows ss h.1)
    ]

-- The keys that a kid's session may read are of services that it may see.
allowed_keys-kid :
    (server : Server) (u : User) (w : World) (keys : Option (List String))
    → is_adult_role u.role ≡ false
    → (allowed_keys server u w).0 ≡ ok keys
    → (ks : List String) × (keys ≡ some ks)
      × All (IsShownKey (allowed_to u.id w.db) w.db.services) ks
unfolding allowed_keys
allowed_keys-kid server u w keys kid found =
    let w1 = (visible_services u w).1 in
    elim (Result-cases (visible_services u w).0) [
      | inr (r, stopped) ↦ absurd (ground (arith, stopped, found))
      | inl (vis, is_vis) ↦
          let v = visible_services-kid u w vis kid is_vis in
          let ids = allowed_to u.id w.db in
          let w2 = (owner_or_none w1).1 in
          let same : w2.db ≡ w.db = owner_or_none-db w1 ∙ v.1 in
          elim (Result-cases (owner_or_none w1).0) [
            | inr (r, stopped) ↦ absurd (ground (arith, is_vis, v.0, stopped, found))
            | inl (o, is_o) ↦ elim (Option-cases o) [
              | inl nobody ↦ ([], ground (arith, is_vis, v.0, is_o, nobody, found), tt)
              | inr (owner, is_owner) ↦
                  elim (Result-cases (list_services server.ext owner u.id w2).0) [
                    | inr (e, broken) ↦
                        absurd (ground (arith, is_vis, v.0, is_o, is_owner, broken, found))
                    | inl (svcs, are_svcs) ↦ (
                      keys_of (some ids) svcs,
                      ground (arith, is_vis, v.0, is_o, is_owner, are_svcs, found),
                      keys_of-IsShownKey ids w.db.services svcs (
                          rw (list_services-catalog_of server owner u.id w2 svcs are_svcs) (
                            subst
                              (λ db.
                                All (KeyFound ids w.db.services)
                                  (catalog_of server.ext owner u.id db))
                              (sym same) (catalog_of-KeyFound server owner u.id ids w.db))),
                    )
                  ]
            ]
          ]
    ]

All-contains :
    (ids : List String) (rows : List ServiceRow) (ks : List String) (k : String)
    → All (IsShownKey ids rows) ks
    → contains ks k ≡ true
    → IsShownKey ids rows k
All-contains ids rows [] k h has = absurd (ground (arith, has))
All-contains ids rows (j ∷ js) k h has = elim (Bool-cases (contains js k)) [
  | inl later ↦ All-contains ids rows js k h.1 later
  | inr absent ↦
      let same : j ≡ k = ground (arith, has, absent, eq_iff j k, eq_iff k j) in
      subst (IsShownKey ids rows) same h.0
]

allowed_keys-fails :
    (server : Server) (u : User) (w : World) (r : Response)
    → (allowed_keys server u w).0 ≡ err r
    → r ≡ internal_error
unfolding allowed_keys visible_services owner_or_none
allowed_keys-fails server u w r stopped = ground (arith, stopped)

-- The entries of the answer, for the keys that are shown.
abbrev entries : Snap → List String → List (String × Status)
entries snap ks = map (λ e. (e.0, e.1.status)) (filter (λ e. shows_key (some ks) e.0) snap.statuses)

abbrev pub OfService : List String → List ServiceRow → String × Status → Type 0
OfService ids rows e = has_key ids rows e.0 ≡ true

entries-OfService :
    (ids : List String) (rows : List ServiceRow) (snap : Snap) (ks : List String)
    → All (IsShownKey ids rows) ks
    → All (OfService ids rows) (entries snap ks)
entries-OfService ids rows snap ks h =
    All-of_map (OfService ids rows) (λ e. (e.0, e.1.status))
      (filter (λ e. shows_key (some ks) e.0) snap.statuses)
      (All-map (λ e has. All-contains ids rows ks e.0 h has) _
        (filter-All (λ e. shows_key (some ks) e.0) snap.statuses))

-- For a session whose role is not an adult's, each key that `GET /api/status` answers with is of a
-- service that is on the account's allow-list.
pub handle_status-OfService :
    (server : Server) (snap : Snap) (req : Request) (w : World) (u : User) (as_of : ℕ)
    (es : List (String × Status))
    → (current_user server req w).0 ≡ ok (some u)
    → is_adult_role u.role ≡ false
    → (serve (handle_status server snap req) w).0.body ≡ statuses as_of es
    → All (OfService (allowed_to u.id w.db) w.db.services) es
unfolding handle_status require_user
handle_status-OfService server snap req w u as_of es found kid shown =
    let w1 = (current_user server req w).1 in
    let same = current_user-SameRows server req w in
    elim (Result-cases (allowed_keys server u w1).0) [
      | inr (r, stopped) ↦
          absurd (ground (arith, found, stopped, allowed_keys-fails server u w1 r stopped, shown))
      | inl (keys, are_keys) ↦
          let (ks, is_some, are_shown) = allowed_keys-kid server u w1 keys kid are_keys in
          let lists : es ≡ entries snap ks = ground (arith, found, are_keys, is_some, shown) in
          rw lists (
            entries-OfService (allowed_to u.id w.db) w.db.services snap ks
              (subst (λ db. All (IsShownKey (allowed_to u.id db) db.services) ks) same are_shown))
    ]
