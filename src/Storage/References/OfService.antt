-- ===== src/Storage/References/OfService.antt =====
-- What the deletion of a service leaves of the foreign keys.
use homepad_api.Base.{String, false, ◌==◌, string_eq, ◌≡◌, arith, eq_iff}
use homepad_api.Storage.{Db}
use homepad_api.Storage.Kids.{}
use homepad_api.Storage.Services.{owned_row, without_service}
use homepad_api.Storage.References.{
  CategoryThere, UserThere, ServiceThere, IsWhole, All-kept, any-kept, any-apart,
}

module _ (id user_id : String) (db : Db) where
  other_service_stays :
      (k : String)
      → (k == id) ≡ false
      → ServiceThere db k
      → ServiceThere (without_service id user_id db) k
  other_service_stays k other there =
      any-kept (λ s. s.id == k) (owned_row id user_id) db.services
        (any-apart (λ s. s.id == k) (owned_row id user_id) db.services
          (λ s. ground (arith, other, eq_iff s.id k, eq_iff s.id id, eq_iff k id)))
        there

  pub without_service-IsWhole : IsWhole db → IsWhole (without_service id user_id db)
  without_service-IsWhole (owners, places, makers, favs, spots, folds, lists, pics, logins) =
      let after = without_service id user_id db in
      (
        All-kept (λ r. UserThere db r.user_id) (λ r. UserThere db r.user_id) (owned_row id user_id)
            db.services (λ r kept h. h) owners,
        All-kept (λ r. CategoryThere db r.category_id) (λ r. CategoryThere after r.category_id)
            (owned_row id user_id) db.services (λ r kept h. h) places,
        makers,
        All-kept (λ r. UserThere db r.0 × ServiceThere db r.1)
            (λ r. UserThere db r.0 × ServiceThere after r.1) (λ r. r.1 == id) db.favorites
            (λ r kept h. (h.0, other_service_stays r.1 kept h.1)) favs,
        All-kept (λ r. UserThere db r.user_id × ServiceThere db r.service_id)
            (λ r. UserThere db r.user_id × ServiceThere after r.service_id)
            (λ r. r.service_id == id) db.layout
            (λ r kept h. (h.0, other_service_stays r.service_id kept h.1)) spots,
        folds,
        All-kept (λ r. UserThere db r.0 × ServiceThere db r.1)
            (λ r. UserThere db r.0 × ServiceThere after r.1) (λ r. r.1 == id) db.allowed
            (λ r kept h. (h.0, other_service_stays r.1 kept h.1)) lists,
        All-kept (λ r. ServiceThere db r.service_id) (λ r. ServiceThere after r.service_id)
            (λ r. r.service_id == id) db.icons (λ r kept h. other_service_stays r.service_id kept h)
            pics,
        logins,
      )
