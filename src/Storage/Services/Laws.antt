-- ===== src/Storage/Services/Laws.antt =====
-- What CreateService, UpdateService and DeleteService of internal/storage/storage.go do to the
-- tables.
use homepad_api.Base.{
  String, true, false, not, ◌&&◌, List, [], ◌∷◌, none, some, ◌==◌, string_eq, any, find?, filter,
  Option, is_ok, Result-cases, ◌≡◌, ◌∙◌, sym, ap, refl, arith, inl, inr, Bool-cases, Option-cases,
}
use mathlib.Core.Option
use mathlib.Core.Path.{subst}
use homepad_api.Storage.{ServiceRow, Db, World, statement}
use homepad_api.Storage.Laws.{Cleared, filter-Cleared}
use homepad_api.Storage.Services.{
  ServiceUpdate, patched, owned_row, update_where, category_check, category_owned_by,
  update_service_row, update_service, delete_service, without_service,
}

pub category_check-db :
    (user_id : String) (c : Option (Option String)) (w : World)
    → (category_check user_id c w).1.db ≡ w.db
unfolding category_owned_by statement
category_check-db user_id none w = refl
category_check-db user_id (some none) w = refl
category_check-db user_id (some (some id)) w = ground arith

abbrev others : String → String → List ServiceRow → List ServiceRow
others id user_id rows = filter (λ s. not (owned_row id user_id s)) rows

others-update :
    (id user_id : String) (u : ServiceUpdate) (rows : List ServiceRow)
    → others id user_id (update_where (owned_row id user_id) (patched u) rows)
      ≡ others id user_id rows
others-update id user_id u [] = refl
others-update id user_id u (r ∷ rs) = ground (arith, others-update id user_id u rs)

find?-update :
    (id user_id : String) (u : ServiceUpdate) (rows : List ServiceRow)
    → find? (owned_row id user_id) (update_where (owned_row id user_id) (patched u) rows)
      ≡ Option.map (patched u) (find? (owned_row id user_id) rows)
find?-update id user_id u [] = refl
find?-update id user_id u (r ∷ rs) = elim (Bool-cases (owned_row id user_id r)) [
  | inl own ↦ rw (own, own) refl
  | inr not_own ↦ rw (not_own, not_own) (find?-update id user_id u rs)
]

-- The category that an update names is the caller's.
abbrev pub OwnsCategory : String → Option (Option String) → Db → Type 0
OwnsCategory user_id c db = elim c [
  | none ↦ Unit {0}
  | some o ↦ elim o [
    | none ↦ Unit {0}
    | some id ↦ any (λ c. c.id == id && c.user_id == user_id) db.categories ≡ true
  ]
]

pub category_check-OwnsCategory :
    (user_id : String) (c : Option (Option String)) (w : World)
    → is_ok (category_check user_id c w).0 ≡ true
    → OwnsCategory user_id c w.db
unfolding category_owned_by statement
category_check-OwnsCategory user_id none w h = tt
category_check-OwnsCategory user_id (some none) w h = tt
category_check-OwnsCategory user_id (some (some id)) w h = ground arith

abbrev pub Patched : String → String → ServiceUpdate → Db → Db → Type 0
Patched id user_id u before after =
    (s : ServiceRow) × (find? (owned_row id user_id) before.services ≡ some s)
    × (find? (owned_row id user_id) after.services ≡ some (patched u s))
    × (others id user_id after.services ≡ others id user_id before.services)
    × (record after { services = before.services } ≡ before)

update_service_row_lem :
    (id user_id : String) (u : ServiceUpdate) (w : World)
    → (is_ok (update_service_row id user_id u w).0 ≡ false
        → (update_service_row id user_id u w).1.db ≡ w.db)
      × (is_ok (update_service_row id user_id u w).0 ≡ true
          → Patched id user_id u w.db (update_service_row id user_id u w).1.db)
unfolding update_service_row statement
update_service_row_lem id user_id u w =
    elim (Option-cases (find? (owned_row id user_id) w.db.services)) [
      | inl absent ↦ (ground arith, λ h. absurd (ground arith))
      | inr (s, found) ↦ (
        ground arith,
        λ h. (
          s,
          found,
          ground (arith, find?-update id user_id u w.db.services, found),
          ground (arith, others-update id user_id u w.db.services),
          ground arith,
        ),
      )
    ]

-- An update that fails leaves the database. One that succeeds patches the fields it names in the
-- caller's own row of that id, leaves every other row of every table, and names a category of the
-- caller's where it names one.
pub update_service-Patched :
    (id user_id : String) (u : ServiceUpdate) (w : World)
    → (is_ok (update_service id user_id u w).0 ≡ false
        → (update_service id user_id u w).1.db ≡ w.db)
      × (is_ok (update_service id user_id u w).0 ≡ true
          → Patched id user_id u w.db (update_service id user_id u w).1.db
            × OwnsCategory user_id u.category w.db)
unfolding update_service
update_service-Patched id user_id u w =
    let w1 = (category_check user_id u.category w).1 in
    let same : w1.db ≡ w.db = category_check-db user_id u.category w in
    let row = update_service_row_lem id user_id u w1 in
    elim (Result-cases (category_check user_id u.category w).0) [
      | inr (e, is_e) ↦ (ground (arith, same), λ h. absurd (ground (arith, is_e)))
      | inl (t, is_t) ↦ (
        λ h. ground (arith, is_t, row.0) ∙ same,
        λ h.
            let runs : update_service id user_id u w ≡ update_service_row id user_id u w1 =
              ground (arith, is_t) in
            let after = update_service_row id user_id u w1 in
            (
              subst (λ r. Patched id user_id u w.db r.1.db) (sym runs)
                  (subst (λ db. Patched id user_id u db after.1.db) same
                    (row.1 (ap (λ r. is_ok r.0) (sym runs) ∙ h))),
              category_check-OwnsCategory user_id u.category w (ap is_ok is_t),
            ),
      )
    ]

-- The service is gone, with the rows that name it, and all other rows are left.
abbrev pub Removed : String → String → Db → Db → Type 0
Removed id user_id before after =
    (any (owned_row id user_id) before.services ≡ true)
    × Cleared (owned_row id user_id) before.services after.services
    × Cleared (λ f. f.1 == id) before.favorites after.favorites
    × Cleared (λ l. l.service_id == id) before.layout after.layout
    × Cleared (λ i. i.service_id == id) before.icons after.icons
    × Cleared (λ a. a.1 == id) before.allowed after.allowed
    × (record after {
      services = before.services;
      favorites = before.favorites;
      layout = before.layout;
      icons = before.icons;
      allowed = before.allowed;
    }
        ≡ before)

-- A deletion that fails leaves the database. One that succeeds was of a service of the caller's:
-- afterwards the caller has none of that id, no favorite, place in a layout, icon or allow-list
-- names it, and every other row of every table is left, other services included.
pub delete_service-Removed :
    (id user_id : String) (w : World)
    → (is_ok (delete_service id user_id w).0 ≡ false → (delete_service id user_id w).1.db ≡ w.db)
      × (is_ok (delete_service id user_id w).0 ≡ true
          → Removed id user_id w.db (delete_service id user_id w).1.db)
unfolding delete_service statement
delete_service-Removed id user_id w = (
  λ h. ground arith,
  λ h.
      let gone : (delete_service id user_id w).1.db ≡ without_service id user_id w.db =
        ground arith in
      subst (Removed id user_id w.db) (sym gone) (
        ground arith,
        filter-Cleared (owned_row id user_id) w.db.services,
        filter-Cleared (λ f. f.1 == id) w.db.favorites,
        filter-Cleared (λ l. l.service_id == id) w.db.layout,
        filter-Cleared (λ i. i.service_id == id) w.db.icons,
        filter-Cleared (λ a. a.1 == id) w.db.allowed,
        refl,
      ),
)
