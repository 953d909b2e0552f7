-- ===== src/Storage/Kids/AllowList.antt =====
-- What VisibleServiceIDs and SetKidServices of internal/storage/kids.go grant.
use homepad_api.Base.{
  String, true, false, Bool-cases, not, ◌&&◌, ◌||◌, List, [], ◌∷◌, ◌++◌, none, some, ◌==◌, nat_eq,
  string_eq, any, filter, map, ok, err, is_ok, contains, ◌≡◌, refl, ap, ◌∙◌, arith, ◌⊎◌, inl, inr,
  eq_iff,
}
use mathlib.Core.List.{append-nil}
use homepad_api.Storage.{StoreErr, ServiceRow, Db, World, statement, transaction}
use homepad_api.Storage.Laws.{fails, transaction-rolls_back}
use homepad_api.Storage.Users.{User}
use homepad_api.Storage.Kids.{
  replace_kid_services, is_adult_role, visible_service_ids, set_kid_services, allowed_to, unique,
  cleared, granted,
}

-- An adult may see everything, and no statement is run; any other role gets its allow-list or an
-- error, never everything.
pub visible_service_ids_lem :
    (u : User) (w : World)
    → ((is_adult_role u.role ≡ true) → visible_service_ids u w ≡ (ok none, w))
      × ((is_adult_role u.role ≡ false)
          → ((visible_service_ids u w).0 ≡ err StoreErr.failed)
            ⊎ ((visible_service_ids u w).0 ≡ ok (some (allowed_to u.id w.db))))
unfolding visible_service_ids statement
visible_service_ids_lem u w = (
  λ h. ground arith,
  λ h. elim (Bool-cases (fails w.faults)) [
    | inl f ↦ inl (ground arith)
    | inr f ↦ inr (ground arith)
  ],
)

pub set_kid_services-rolls_back :
    (kid_id : String) (ids : List String) (w : World)
    → is_ok (set_kid_services kid_id ids w).0 ≡ false
    → (set_kid_services kid_id ids w).1.db ≡ w.db
unfolding set_kid_services
set_kid_services-rolls_back kid_id ids w h =
    transaction-rolls_back (replace_kid_services kid_id (unique [] ids)) w h

pub set_kid_services-replaces :
    (kid_id : String) (ids : List String) (w : World)
    → is_ok (set_kid_services kid_id ids w).0 ≡ true
    → (set_kid_services kid_id ids w).1.db ≡ granted kid_id (unique [] ids) (cleared kid_id w.db)
unfolding set_kid_services replace_kid_services transaction statement
set_kid_services-replaces kid_id ids w h = ground arith

contains-unique :
    (seen xs : List String) (id : String)
    → (contains (unique seen xs) id || contains seen id) ≡ (contains xs id || contains seen id)
unfolding unique
contains-unique seen [] id = refl
contains-unique seen (x ∷ xs) id =
    ground (arith, contains-unique seen xs id, contains-unique (x ∷ seen) xs id, eq_iff x id)

abbrev services_of : String → List (String × String) → List String
services_of user_id rows = map (λ r. r.1) (filter (λ r. r.0 == user_id) rows)

-- The rows that a grant adds for the kid, and for another user.
contains-grants :
    (kid_id id : String) (uniq : List String) (ss : List ServiceRow)
    → contains
        (services_of kid_id (map (λ s. (kid_id, s.id)) (filter (λ s. contains uniq s.id) ss)))
        id
      ≡ (contains uniq id && any (λ s. s.id == id) ss)
contains-grants kid_id id uniq [] = ground arith
contains-grants kid_id id uniq (s ∷ ss) =
    ground (arith, contains-grants kid_id id uniq ss, eq_iff s.id id, eq_iff kid_id kid_id)

no_grants :
    (kid_id other : String) (ss : List ServiceRow)
    → (kid_id == other) ≡ false
    → services_of other (map (λ s. (kid_id, s.id)) ss) ≡ []
no_grants kid_id other [] h = refl
no_grants kid_id other (x ∷ xs) h = ground (arith, no_grants kid_id other xs h)

services_of-append :
    (user_id : String) (xs ys : List (String × String))
    → services_of user_id (xs ++ ys) ≡ services_of user_id xs ++ services_of user_id ys
services_of-append user_id [] ys = refl
services_of-append user_id (x ∷ xs) ys = ground (arith, services_of-append user_id xs ys)

services_of-cleared :
    (kid_id : String) (rows : List (String × String))
    → services_of kid_id (filter (λ r. not (r.0 == kid_id)) rows) ≡ []
services_of-cleared kid_id [] = refl
services_of-cleared kid_id (x ∷ xs) = ground (arith, services_of-cleared kid_id xs)

services_of-kept :
    (kid_id other : String) (rows : List (String × String))
    → (kid_id == other) ≡ false
    → services_of other (filter (λ r. not (r.0 == kid_id)) rows) ≡ services_of other rows
services_of-kept kid_id other [] h = refl
services_of-kept kid_id other (x ∷ xs) h = ground (
  arith,
  services_of-kept kid_id other xs h,
  eq_iff x.0 other,
  eq_iff x.0 kid_id,
  eq_iff kid_id other,
)

allowed_to-replaced :
    (kid_id id : String) (ids : List String) (db : Db)
    → contains (allowed_to kid_id (granted kid_id (unique [] ids) (cleared kid_id db))) id
      ≡ (contains ids id && any (λ s. s.id == id) db.services)
allowed_to-replaced kid_id id ids db =
    let rows = filter (λ r. not (r.0 == kid_id)) db.allowed in
    let kept = filter (λ s. contains (unique [] ids) s.id) db.services in
    ground (
      arith,
      services_of-append kid_id rows (map (λ s. (kid_id, s.id)) kept),
      services_of-cleared kid_id db.allowed,
      contains-grants kid_id id (unique [] ids) db.services,
      contains-unique [] ids id,
    )

allowed_to-others :
    (kid_id other : String) (ids : List String) (db : Db)
    → (kid_id == other) ≡ false
    → allowed_to other (granted kid_id (unique [] ids) (cleared kid_id db)) ≡ allowed_to other db
allowed_to-others kid_id other ids db h =
    let rows = filter (λ r. not (r.0 == kid_id)) db.allowed in
    let kept = filter (λ s. contains (unique [] ids) s.id) db.services in
    ground (
      arith,
      services_of-append other rows (map (λ s. (kid_id, s.id)) kept),
      services_of-kept kid_id other db.allowed h,
      no_grants kid_id other kept h,
      append-nil (services_of other db.allowed),
    )

-- Replacing a kid's allow-list is all or nothing: where it answers an error the database is as it
-- was; where it succeeds the kid may see a service exactly if its id was given and names a service,
-- and the list of every other account is as it was.
pub set_kid_services_lem :
    (kid_id : String) (ids : List String) (w : World)
    → (is_ok (set_kid_services kid_id ids w).0 ≡ false
        → (set_kid_services kid_id ids w).1.db ≡ w.db)
      × (is_ok (set_kid_services kid_id ids w).0 ≡ true
          → ((id : String)
              → contains (allowed_to kid_id (set_kid_services kid_id ids w).1.db) id
                ≡ (contains ids id && any (λ s. s.id == id) w.db.services))
            × ((other : String)
                → (kid_id == other) ≡ false
                → allowed_to other (set_kid_services kid_id ids w).1.db ≡ allowed_to other w.db))
set_kid_services_lem kid_id ids w = (
  set_kid_services-rolls_back kid_id ids w,
  λ h. (
    λ id.
        ap (λ db. contains (allowed_to kid_id db) id) (set_kid_services-replaces kid_id ids w h)
        ∙ allowed_to-replaced kid_id id ids w.db,
    λ other differs.
        ap (allowed_to other) (set_kid_services-replaces kid_id ids w h)
        ∙ allowed_to-others kid_id other ids w.db differs,
  ),
)
