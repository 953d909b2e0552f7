-- ===== src/Api/Catalog/KidFilter.antt =====
-- What a kid's session reads of the catalog, through the handlers of internal/api/services.go.
use homepad_api.Base.{
  String, true, false, List, [], ◌∷◌, some, ok, err, All, filter-All, Option-cases, Result-cases,
  ◌⊎◌, inl, inr, string_eq, ◌≡◌, sym, ap, ◌∙◌, arith, map, contains,
}
use homepad_api.Storage.{World, statement}
use homepad_api.Storage.Users.{User, shared_catalog_owner_id}
use homepad_api.Storage.Kids.{is_adult_role, allowed_to, ServiceSet, allows, visible_service_ids}
use homepad_api.Storage.Catalog.{favorite_ids, all_icons, Service, list_services}
use homepad_api.Api.{Response, services, ServiceView, Request, Server, serve, internal_error}
use homepad_api.Api.Guards.{visible_services}
use homepad_api.Api.Sessions.{current_user, require_user}
use homepad_api.Api.Sessions.Authentication.{current_user-SameRows}
use homepad_api.Api.Catalog.{
  Snap, visible_catalog, keep_allowed, service_view, handle_list_services, owner_or_none,
}

-- For a role that is not an adult's the set is the account's allow-list, if it is read at all.
pub visible_services-kid :
    (u : User) (w : World) (vis : ServiceSet)
    → is_adult_role u.role ≡ false
    → (visible_services u w).0 ≡ ok vis
    → (vis ≡ some (allowed_to u.id w.db)) × ((visible_services u w).1.db ≡ w.db)
unfolding visible_services visible_service_ids statement
visible_services-kid u w vis kid found = ground arith

abbrev pub Allowed : List String → Service → Type 0
Allowed ids s = contains ids s.id ≡ true

keep_allowed-Allowed :
    (ids : List String) (svcs : List Service) → All (Allowed ids) (keep_allowed (some ids) svcs)
unfolding allows
keep_allowed-Allowed ids svcs = filter-All (λ s. contains ids s.id) svcs

visible_catalog-Allowed :
    (server : Server) (owner : String) (u : User) (w : World) (svcs : List Service)
    → is_adult_role u.role ≡ false
    → (visible_catalog server owner u w).0 ≡ ok svcs
    → All (Allowed (allowed_to u.id w.db)) svcs
unfolding visible_catalog
visible_catalog-Allowed server owner u w svcs kid found =
    elim (Result-cases (visible_services u w).0) [
      | inr (r, stopped) ↦ absurd (ground (arith, stopped, found))
      | inl (vis, is_vis) ↦
          let w1 = (visible_services u w).1 in
          let is_list = (visible_services-kid u w vis kid is_vis).0 in
          elim (Result-cases (list_services server.ext owner u.id w1).0) [
            | inr (e, broken) ↦ absurd (ground (arith, is_vis, broken, found))
            | inl (all, is_all) ↦
                let same : svcs ≡ keep_allowed (some (allowed_to u.id w.db)) all =
                  ground (arith, is_vis, is_list, is_all, found) in
                rw same (keep_allowed-Allowed (allowed_to u.id w.db) all)
          ]
    ]

pub owner_or_none-db : (w : World) → (owner_or_none w).1.db ≡ w.db
unfolding owner_or_none shared_catalog_owner_id statement
owner_or_none-db w = ground arith

visible_catalog-fails :
    (server : Server) (owner : String) (u : User) (w : World) (r : Response)
    → (visible_catalog server owner u w).0 ≡ err r
    → r ≡ internal_error
unfolding visible_catalog visible_services
visible_catalog-fails server owner u w r stopped = ground (arith, stopped)

-- The tiles of the services that were found, or an answer without tiles.
abbrev Shown : Server → Snap → User → World → List ServiceView → Type 0
Shown server snap u w vs =
    (vs ≡ [])
    ⊎ ((owner : String) × (svcs : List Service) × (favs : List String) × (icons : List
          (String × String))
        × ((visible_catalog server owner u w).0 ≡ ok svcs)
        × (vs ≡ map (service_view snap favs icons) svcs))

owner_stops :
    (server : Server) (snap : Snap) (req : Request) (w : World) (u : User) (vs : List ServiceView)
    (r : Response)
    → (current_user server req w).0 ≡ ok (some u)
    → (owner_or_none (current_user server req w).1).0 ≡ err r
    → (serve (handle_list_services server snap req) w).0.body ≡ services vs
    → ⊥
unfolding handle_list_services require_user owner_or_none
owner_stops server snap req w u vs r found stopped shown = ground (arith, found, stopped, shown)

list_services-Shown :
    (server : Server) (snap : Snap) (req : Request) (w : World) (u : User) (vs : List ServiceView)
    → (current_user server req w).0 ≡ ok (some u)
    → (serve (handle_list_services server snap req) w).0.body ≡ services vs
    → Shown server snap u (owner_or_none (current_user server req w).1).1 vs
unfolding handle_list_services require_user
list_services-Shown server snap req w u vs found shown =
    let w1 = (current_user server req w).1 in
    let w2 = (owner_or_none w1).1 in
    elim (Result-cases (owner_or_none w1).0) [
      | inr (r, stopped) ↦ absurd (owner_stops server snap req w u vs r found stopped shown)
      | inl (o, is_o) ↦ elim (Option-cases o) [
        | inl nobody ↦ inl (ground (arith, found, is_o, nobody, shown))
        | inr (owner, is_owner) ↦ elim (Result-cases (visible_catalog server owner u w2).0) [
          | inr (r, stopped) ↦ absurd (
              ground (
                arith,
                found,
                is_o,
                is_owner,
                stopped,
                visible_catalog-fails server owner u w2 r stopped,
                shown,
              ))
          | inl (svcs, are_svcs) ↦
              let w3 = (visible_catalog server owner u w2).1 in
              elim (Result-cases (favorite_ids u.id w3).0) [
                | inr (e, broken) ↦
                    absurd (ground (arith, found, is_o, is_owner, are_svcs, broken, shown))
                | inl (favs, are_favs) ↦
                    let w4 = (favorite_ids u.id w3).1 in
                    elim (Result-cases (all_icons w4).0) [
                      | inr (e, broken) ↦
                          absurd (
                            ground
                              (arith, found, is_o, is_owner, are_svcs, are_favs, broken, shown))
                      | inl (icons, are_icons) ↦ inr (
                        owner,
                        svcs,
                        favs,
                        icons,
                        are_svcs,
                        ground (arith, found, is_o, is_owner, are_svcs, are_favs, are_icons, shown),
                      )
                    ]
              ]
        ]
      ]
    ]

views-Allowed :
    (snap : Snap) (favs : List String) (icons : List (String × String)) (ids : List String)
    (svcs : List Service)
    → All (Allowed ids) svcs
    → All (λ v. Allowed ids v.service) (map (service_view snap favs icons) svcs)
unfolding service_view
views-Allowed snap favs icons ids [] h = tt
views-Allowed snap favs icons ids (s ∷ ss) h = (h.0, views-Allowed snap favs icons ids ss h.1)

-- For a session whose role is not an adult's, each tile that `GET /api/services` answers with is of
-- a service on the account's allow-list.
pub handle_list_services-Allowed :
    (server : Server) (snap : Snap) (req : Request) (w : World) (u : User) (vs : List ServiceView)
    → (current_user server req w).0 ≡ ok (some u)
    → is_adult_role u.role ≡ false
    → (serve (handle_list_services server snap req) w).0.body ≡ services vs
    → All (λ v. Allowed (allowed_to u.id w.db) v.service) vs
handle_list_services-Allowed server snap req w u vs found kid shown =
    let w1 = (current_user server req w).1 in
    let w2 = (owner_or_none w1).1 in
    let same : allowed_to u.id w2.db ≡ allowed_to u.id w.db =
      ap (allowed_to u.id) (owner_or_none-db w1)
      ∙ ap (allowed_to u.id) (current_user-SameRows server req w) in
    elim (list_services-Shown server snap req w u vs found shown) [
      | inl nothing ↦ rw nothing tt
      | inr (owner, svcs, favs, icons, are_svcs, are_vs) ↦
          rw (are_vs, sym same)
            (views-Allowed snap favs icons (allowed_to u.id w2.db) svcs
              (visible_catalog-Allowed server owner u w2 svcs kid are_svcs))
    ]
