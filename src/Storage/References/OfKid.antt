-- ===== src/Storage/References/OfKid.antt =====
-- What the deletion of a kid leaves of the foreign keys.
use homepad_api.Base.{
  String, true, false, not, ◌||◌, ◌==◌, string_eq, filter, All-of_map, Option-cases, Bool-cases,
  inl, inr, ◌≡◌, refl, arith, eq_iff,
}
use mathlib.Core.Path.{subst}
use homepad_api.Storage.{Db, ServiceRow}
use homepad_api.Storage.Kids.{is_kid_row, owns_service, owns_category, null_category, without_user}
use homepad_api.Storage.References.{
  has_category, CategoryThere, UserThere, ServiceThere, IsWhole, All-kept, any-kept, any-apart,
  any-map_ids,
}

module _ (id : String) (db : Db) where
  user_stays : (k : String) → (k == id) ≡ false → UserThere db k → UserThere (without_user id db) k
  user_stays k other there =
      any-kept (λ u. u.id == k) (is_kid_row id) db.users
        (any-apart (λ u. u.id == k) (is_kid_row id) db.users
          (λ u. ground (arith, other, eq_iff u.id k, eq_iff u.id id, eq_iff k id)))
        there

  service_stays :
      (k : String)
      → owns_service id db k ≡ false
      → ServiceThere db k
      → ServiceThere (without_user id db) k
  service_stays k other there =
      let kept = any-kept (λ s. s.id == k) (λ s. s.user_id == id) db.services other there in
      rw
        (any-map_ids (null_category (owns_category id db)) k
          (filter (λ s. not (s.user_id == id)) db.services) (λ r. refl))
        kept

  category_stays :
      (k : String)
      → owns_category id db k ≡ false
      → has_category k db ≡ true
      → has_category k (without_user id db) ≡ true
  category_stays k other there =
      any-kept (λ c. c.id == k) (λ c. c.user_id == id) db.categories other there

  null_category-CategoryThere :
      (s : ServiceRow)
      → CategoryThere db s.category_id
      → CategoryThere (without_user id db) (null_category (owns_category id db) s).category_id
  null_category-CategoryThere s there = elim (Option-cases s.category_id) [
    | inl none_set ↦ rw none_set tt
    | inr (c, is_c) ↦
        let was : has_category c db ≡ true = subst (CategoryThere db) is_c there in
        rw is_c (elim (Bool-cases (owns_category id db c)) [
          | inl gone ↦ rw gone tt
          | inr kept ↦ rw kept (category_stays c kept was)
        ])
  ]

  pub without_user-IsWhole : IsWhole db → IsWhole (without_user id db)
  without_user-IsWhole (owners, places, makers, favs, spots, folds, lists, pics, logins) =
      let after = without_user id db in
      let stays : (u s : String)
          → (u == id || owns_service id db s) ≡ false
          → UserThere db u × ServiceThere db s
          → UserThere after u × ServiceThere after s =
        λ u s kept h.
          (user_stays u (ground (arith, kept)) h.0, service_stays s (ground (arith, kept)) h.1) in
      (
        All-of_map (λ r. UserThere after r.user_id) (null_category (owns_category id db)) _
            (All-kept (λ r. UserThere db r.user_id) (λ r. UserThere after r.user_id)
              (λ r. r.user_id == id) db.services (λ r kept h. user_stays r.user_id kept h) owners),
        All-of_map (λ r. CategoryThere after r.category_id) (null_category (owns_category id db)) _
            (All-kept (λ r. CategoryThere db r.category_id)
              (λ r. CategoryThere after (null_category (owns_category id db) r).category_id)
              (λ r. r.user_id == id) db.services (λ r kept h. null_category-CategoryThere r h)
              places),
        All-kept (λ r. UserThere db r.user_id) (λ r. UserThere after r.user_id)
            (λ r. r.user_id == id) db.categories (λ r kept h. user_stays r.user_id kept h) makers,
        All-kept (λ r. UserThere db r.0 × ServiceThere db r.1)
            (λ r. UserThere after r.0 × ServiceThere after r.1)
            (λ r. r.0 == id || owns_service id db r.1) db.favorites
            (λ r kept h. stays r.0 r.1 kept h) favs,
        All-kept (λ r. UserThere db r.user_id × ServiceThere db r.service_id)
            (λ r. UserThere after r.user_id × ServiceThere after r.service_id)
            (λ r. r.user_id == id || owns_service id db r.service_id) db.layout
            (λ r kept h. stays r.user_id r.service_id kept h) spots,
        All-kept (λ r. UserThere db r.0 × (has_category r.1 db ≡ true))
            (λ r. UserThere after r.0 × (has_category r.1 after ≡ true))
            (λ r. r.0 == id || owns_category id db r.1) db.collapsed
            (λ r kept h. (
              user_stays r.0 (ground (arith, kept)) h.0,
              category_stays r.1 (ground (arith, kept)) h.1,
            ))
            folds,
        All-kept (λ r. UserThere db r.0 × ServiceThere db r.1)
            (λ r. UserThere after r.0 × ServiceThere after r.1)
            (λ r. r.0 == id || owns_service id db r.1) db.allowed (λ r kept h. stays r.0 r.1 kept h)
            lists,
        All-kept (λ r. ServiceThere db r.service_id) (λ r. ServiceThere after r.service_id)
            (λ r. owns_service id db r.service_id) db.icons
            (λ r kept h. service_stays r.service_id kept h) pics,
        All-kept (λ r. UserThere db r.1.user_id) (λ r. UserThere after r.1.user_id)
            (λ r. r.1.user_id == id) db.sessions (λ r kept h. user_stays r.1.user_id kept h) logins,
      )
