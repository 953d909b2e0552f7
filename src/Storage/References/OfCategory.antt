-- ===== src/Storage/References/OfCategory.antt =====
-- What the deletion of a category leaves of the foreign keys.
use homepad_api.Base.{
  String, true, false, not, none, some, ◌==◌, string_eq, any, filter, map, All-of_map, All-map,
  Option-cases, ap, ◌⊎◌, Bool-cases, inl, inr, ◌≡◌, sym, arith, eq_iff,
}
use mathlib.Core.Path.{subst}
use homepad_api.Storage.{Db, ServiceRow}
use homepad_api.Storage.Kids.{}
use homepad_api.Storage.Categories.{is_row, uncategorized, without_category}
use homepad_api.Storage.References.{
  has_category, CategoryThere, UserThere, ServiceThere, IsWhole, All-kept, any-kept, any-apart,
  any-map_ids,
}

module _ (id user_id : String) (db : Db) where
  -- A service loses its category, or keeps one that is not the one that goes.
  uncategorized-cases :
      (s : ServiceRow)
      → (uncategorized id s ≡ record s { category_id = none })
        ⊎ ((uncategorized id s ≡ s) × ((c : String) → s.category_id ≡ some c → (c == id) ≡ false))
  uncategorized-cases s = elim (Option-cases s.category_id) [
    | inl none_set ↦ inr (ground (arith, none_set), λ c is_c. ground (arith, none_set, is_c))
    | inr (d, is_d) ↦ elim (Bool-cases (d == id)) [
      | inl same ↦ inl (ground (arith, is_d, same))
      | inr other ↦ inr (ground (arith, is_d, other), λ c is_c. ground (arith, is_d, is_c, other))
    ]
  ]

  uncategorized-same :
      (s : ServiceRow)
      → ((uncategorized id s).id ≡ s.id) × ((uncategorized id s).user_id ≡ s.user_id)
  uncategorized-same s = elim (uncategorized-cases s) [
    | inl out ↦ (ap (λ t. t.id) out, ap (λ t. t.user_id) out)
    | inr (kept, apart) ↦ (ap (λ t. t.id) kept, ap (λ t. t.user_id) kept)
  ]

  abbrev removed_category : Db
  removed_category = record db {
    categories = filter (λ c. not (is_row id user_id c)) db.categories;
    services = map (uncategorized id) db.services;
    collapsed = filter (λ c. not (c.1 == id)) db.collapsed;
  }

  other_category_stays :
      (k : String)
      → (k == id) ≡ false
      → has_category k db ≡ true
      → has_category k removed_category ≡ true
  other_category_stays k other there =
      any-kept (λ c. c.id == k) (is_row id user_id) db.categories
        (any-apart (λ c. c.id == k) (is_row id user_id) db.categories
          (λ c. ground (arith, other, eq_iff c.id k, eq_iff c.id id, eq_iff k id)))
        there

  service_stays_there : (k : String) → ServiceThere db k → ServiceThere removed_category k
  service_stays_there k there =
      rw (any-map_ids (uncategorized id) k db.services (λ s. (uncategorized-same s).0)) there

  uncategorized-CategoryThere :
      (s : ServiceRow)
      → CategoryThere db s.category_id
      → CategoryThere removed_category (uncategorized id s).category_id
  uncategorized-CategoryThere s there = elim (uncategorized-cases s) [
    | inl out ↦ subst (λ t. CategoryThere removed_category t.category_id) (sym out) tt
    | inr (kept, apart) ↦
        subst (λ t. CategoryThere removed_category t.category_id) (sym kept)
          (elim (Option-cases s.category_id) [
            | inl none_set ↦ subst (CategoryThere removed_category) (sym none_set) tt
            | inr (c, is_c) ↦
                subst (CategoryThere removed_category) (sym is_c)
                  (other_category_stays c (apart c is_c) (subst (CategoryThere db) is_c there))
          ])
  ]

  removed_category-IsWhole : IsWhole db → IsWhole removed_category
  removed_category-IsWhole (owners, places, makers, favs, spots, folds, lists, pics, logins) =
      let after = removed_category in
      let there = service_stays_there in
      (
        All-of_map (λ r. UserThere db r.user_id) (uncategorized id) db.services
            (All-map (λ r h. subst (UserThere db) (sym (uncategorized-same r).1) h) db.services
              owners),
        All-of_map (λ r. CategoryThere after r.category_id) (uncategorized id) db.services
            (All-map (λ r h. uncategorized-CategoryThere r h) db.services places),
        All-kept (λ r. UserThere db r.user_id) (λ r. UserThere db r.user_id) (is_row id user_id)
            db.categories (λ r kept h. h) makers,
        All-map (λ r h. (h.0, there r.1 h.1)) db.favorites favs,
        All-map (λ r h. (h.0, there r.service_id h.1)) db.layout spots,
        All-kept (λ r. UserThere db r.0 × (has_category r.1 db ≡ true))
            (λ r. UserThere db r.0 × (has_category r.1 after ≡ true)) (λ r. r.1 == id) db.collapsed
            (λ r kept h. (h.0, other_category_stays r.1 kept h.1)) folds,
        All-map (λ r h. (h.0, there r.1 h.1)) db.allowed lists,
        All-map (λ r h. there r.service_id h) db.icons pics,
        logins,
      )

  pub without_category-IsWhole : IsWhole db → IsWhole (without_category id user_id db)
  without_category-IsWhole h = elim (Bool-cases (any (is_row id user_id) db.categories)) [
    | inl found ↦ rw found (removed_category-IsWhole h)
    | inr absent ↦ rw absent h
  ]
