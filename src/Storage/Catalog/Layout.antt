-- ===== src/Storage/Catalog/Layout.antt =====
-- What SetLayout of internal/storage/storage.go does with a user's order.
use homepad_api.Base.{
  ℕ, suc, String, true, false, not, List, [], ◌∷◌, ◌++◌, ok, is_ok, Result-cases, inl, inr, filter,
  All, All-map, ◌==◌, string_eq, ◌≡◌, sym, ap, ◌∙◌, arith, any,
}
use mathlib.Core.List.{append_assoc, append-nil}
use homepad_api.Storage.{
  StoreErr, Act, no_rows, LayoutRow, ServiceRow, World, statement, transaction, ◌>>◌,
}
use homepad_api.Storage.Laws.{transaction-rolls_back}
use homepad_api.Storage.Catalog.{place_service, place_services, set_layout, clear_layout}

-- The rows of an order, from a position on.
abbrev pub placed : String → ℕ → List String → List LayoutRow
placed user_id i [] = []
placed user_id i (id ∷ ids) =
    record { user_id = user_id; service_id = id; sort_index = i } ∷ placed user_id (suc i) ids

abbrev pub ExistsIn : List ServiceRow → String → Type 0
ExistsIn ss id = any (λ s. s.id == id) ss ≡ true

place_service-places :
    (user_id id : String) (i : ℕ) (w : World)
    → (place_service user_id id i w).0 ≡ ok tt
    → ((place_service user_id id i w).1.db.layout ≡ w.db.layout ++ placed user_id i (id ∷ []))
      × ((place_service user_id id i w).1.db.services ≡ w.db.services)
      × ExistsIn w.db.services id
unfolding place_service statement
place_service-places user_id id i w done = ground (arith, done)

place_services-places :
    (user_id : String) (i : ℕ) (ids : List String) (w : World)
    → (place_services user_id i ids w).0 ≡ ok tt
    → ((place_services user_id i ids w).1.db.layout ≡ w.db.layout ++ placed user_id i ids)
      × All (ExistsIn w.db.services) ids
unfolding place_services
place_services-places user_id i [] w done = (sym (append-nil w.db.layout), tt)
place_services-places user_id i (id ∷ ids) w done =
    let w1 = (place_service user_id id i w).1 in
    elim (Result-cases (place_service user_id id i w).0) [
      | inr (e, stopped) ↦ absurd (ground (arith, stopped, done))
      | inl (u, one) ↦
          let first = place_service-places user_id id i w one in
          let rest = place_services-places user_id (suc i) ids w1 (ground (arith, one, done)) in
          (
            ground (
              arith,
              one,
              first.0,
              rest.0,
              append_assoc w.db.layout (placed user_id i (id ∷ [])) (placed user_id (suc i) ids),
            ),
            (first.2, All-map (λ j h. ap (any (λ s. s.id == j)) (sym first.1) ∙ h) ids rest.1),
          )
    ]

abbrev pub cleared_rows : String → List LayoutRow → List LayoutRow
cleared_rows user_id rows = filter (λ l. not (l.user_id == user_id)) rows

clear_layout-clears :
    (user_id : String) (w : World)
    → is_ok (clear_layout user_id w).0 ≡ true
    → ((clear_layout user_id w).1.db.layout ≡ cleared_rows user_id w.db.layout)
      × ((clear_layout user_id w).1.db.services ≡ w.db.services)
unfolding statement
clear_layout-clears user_id w done = ground (arith, done)

replace-places :
    (user_id : String) (ids : List String) (w : World)
    → is_ok ((clear_layout user_id >> place_services user_id 0 ids) w).0 ≡ true
    → ((clear_layout user_id >> place_services user_id 0 ids) w).1.db.layout
        ≡ cleared_rows user_id w.db.layout ++ placed user_id 0 ids
      × All (ExistsIn w.db.services) ids
replace-places user_id ids w done =
    let w1 = (clear_layout user_id w).1 in
    elim (Result-cases (clear_layout user_id w).0) [
      | inr (e, stopped) ↦ absurd (ground (arith, stopped, done))
      | inl (u, is_u) ↦ elim (Result-cases (place_services user_id 0 ids w1).0) [
        | inr (e, stopped) ↦ absurd (ground (arith, is_u, stopped, done))
        | inl (v, is_v) ↦
            let clears = clear_layout-clears user_id w (ap is_ok is_u) in
            let places = place_services-places user_id 0 ids w1 is_v in
            (
              ground (arith, is_u, clears.0, places.0),
              All-map (λ j h. ap (any (λ s. s.id == j)) (sym clears.1) ∙ h) ids places.1,
            )
      ]
    ]

-- What a transaction that succeeds leaves: what its body left.
transaction-runs :
    (m : Act StoreErr (Unit {0})) (w : World)
    → is_ok (transaction m w).0 ≡ true
    → (is_ok (m (no_rows w).1).0 ≡ true)
      × ((transaction m w).1.db ≡ (m (no_rows w).1).1.db)
      × ((no_rows w).1.db ≡ w.db)
unfolding transaction statement
transaction-runs m w done =
    let w1 = (no_rows w).1 in
    elim (Result-cases (m w1).0) [
      | inr (e, stopped) ↦ absurd (ground (arith, stopped, done))
      | inl (a, is_a) ↦ ground (arith, is_a, done)
    ]

-- Setting a layout is all or nothing: an answer with an error leaves the database; a success makes
-- the user's rows those of the order, numbered from 0, leaves the rows of every other user, and
-- each id of the order names a service.
pub set_layout_lem :
    (user_id : String) (ids : List String) (w : World)
    → (is_ok (set_layout user_id ids w).0 ≡ false → (set_layout user_id ids w).1.db ≡ w.db)
      × (is_ok (set_layout user_id ids w).0 ≡ true
          → ((set_layout user_id ids w).1.db.layout
              ≡ cleared_rows user_id w.db.layout ++ placed user_id 0 ids)
            × All (ExistsIn w.db.services) ids)
unfolding set_layout
set_layout_lem user_id ids w =
    let body = clear_layout user_id >> place_services user_id 0 ids in
    (
      transaction-rolls_back body w,
      λ done.
          let runs = transaction-runs body w done in
          let places = replace-places user_id ids (no_rows w).1 runs.0 in
          (
            ground (arith, runs.1, places.0, runs.2),
            All-map (λ j h. ap (λ db. any (λ s. s.id == j) db.services) (sym runs.2) ∙ h) ids
                places.1,
          ),
    )
