-- ===== src/Api/Categories.antt =====
-- internal/api/categories.go and collapse.go: the sections of the catalog, and those that a user has
-- collapsed.
use homepad_api.Base.{
  ℕ, String, Bool, true, false, not, ◌||◌, List, [], ◌∷◌, Option, none, some, Text, ◌==◌, nat_eq,
  text_eq, string_eq, map, filter, trim_space, contains,
}
use homepad_api.Gatus.{}
use homepad_api.Storage.{
  StoreErr, not_found, name_taken, Act, CategoryRow, pure, throw, ◌>>=◌, ◌>>◌,
}
use homepad_api.Storage.Users.{User}
use homepad_api.Storage.Catalog.{Service}
use homepad_api.Storage.Categories.{
  list_categories, create_category, rename_category, set_category_width, set_category_order,
  delete_category, collapsed_category_ids, set_collapsed_categories,
}
use homepad_api.Api.{
  Response, Handler, Request, Server, CategoryView, or_fail, error, write_json, internal_error,
  no_content, categories, category, collapsed,
}
use homepad_api.Api.Auth.{refuse_if}
use homepad_api.Api.Sessions.{require_user, require_admin}
use homepad_api.Api.Guards.{visible_services}
use homepad_api.Api.Catalog.{shows_key, owner_or_none, visible_catalog, decoded}

unfoldable pub valid_grid_span : ℕ → Bool
valid_grid_span w = w == 3 || w == 4 || w == 6 || w == 12

unfoldable pub new_category_view : CategoryRow → CategoryView
new_category_view c = record {
  id = c.id;
  name = c.name;
  sort_index = c.sort_index;
  grid_width = c.grid_width;
}

-- The categories of a list of services.
abbrev pub categories_of : List Service → List String
categories_of [] = []
categories_of (s ∷ ss) = elim s.category_id [
  | none ↦ categories_of ss
  | some c ↦ c ∷ categories_of ss
]

unfoldable pub visible_category_ids : Server → String → User → Act Response (Option (List String))
unfolding visible_services visible_catalog
visible_category_ids server owner u = visible_services u >>= λ vis. elim vis [
  | none ↦ pure none
  | some ids ↦ visible_catalog server owner u >>= λ svcs. pure (some (categories_of svcs))
]

unfoldable pub handle_list_categories : Server → Request → Handler
unfolding require_user owner_or_none list_categories visible_category_ids new_category_view
handle_list_categories server req = require_user server req >>= λ u. owner_or_none >>= λ found.
    elim found [
      | none ↦ pure (write_json 200 (categories []))
      | some owner ↦ or_fail (list_categories owner) (λ e. internal_error) >>= λ cats.
          visible_category_ids server owner u >>= λ ids. pure (
            write_json 200
              (categories (map new_category_view (filter (λ c. shows_key ids c.id) cats))))
    ]

abbrev category_failure : StoreErr → Response
category_failure e = elim e [
  | not_found ↦ error "no such category" 404
  | name_taken ↦ error "a category with that name already exists" 409
  | _ ↦ internal_error
]

unfoldable pub handle_create_category : Server → Request → Option Text → Handler
unfolding require_admin trim_space create_category new_category_view
handle_create_category server req body = require_admin server req >>= λ u. decoded body >>= λ raw.
    let name = trim_space raw in
    refuse_if (name == []) (error "name is required" 400)
    >> or_fail (create_category server.ext u.id name) category_failure
    >>= λ c. pure (write_json 201 (category (new_category_view c)))

-- The two fields of `PATCH /api/categories/{id}`, and the first write; `none` is no write yet.
abbrev rename_field : String → String → Option Text → Act Response (Option CategoryRow)
rename_field id user_id none = pure none
rename_field id user_id (some raw) =
    let name = trim_space raw in
    refuse_if (name == []) (error "name is required" 400)
    >> or_fail (rename_category id user_id name) category_failure
    >>= λ c. pure (some c)

-- The width's write, where there is one, else the row that the first write gave.
abbrev width_field : String → String → Option ℕ → Option CategoryRow → Handler
width_field id user_id (some w) c =
    or_fail (set_category_width id user_id w) category_failure >>= λ d.
    pure (write_json 200 (category (new_category_view d)))
width_field id user_id none (some c) = pure (write_json 200 (category (new_category_view c)))
width_field id user_id none none = throw (error "name or gridWidth is required" 400)

abbrev is_bad_span : Option ℕ → Bool
is_bad_span none = false
is_bad_span (some w) = not (valid_grid_span w)

abbrev both_absent : Option Text → Option ℕ → Bool
both_absent none none = true
both_absent none (some w) = false
both_absent (some n) w = false

unfoldable pub handle_update_category : Server → Request → Option (Option Text × Option ℕ) → Handler
unfolding require_admin trim_space valid_grid_span rename_category set_category_width
    new_category_view
handle_update_category server req body = require_admin server req >>= λ u. decoded body >>= λ b.
    refuse_if (both_absent b.0 b.1) (error "name or gridWidth is required" 400)
    >> refuse_if (is_bad_span b.1) (error "gridWidth must be one of 3, 4, 6, 12" 400)
    >> rename_field req.id u.id b.0
    >>= λ c. width_field req.id u.id b.1 c

abbrev no_such_category_in_order : StoreErr → Response
no_such_category_in_order e = elim e [
  | not_found ↦ error "no such category in order" 404
  | _ ↦ internal_error
]

unfoldable pub handle_set_category_order : Server → Request → Option (List String) → Handler
unfolding require_admin set_category_order
handle_set_category_order server req body = require_admin server req >>= λ u.
    decoded body >>= λ order.
    or_fail (set_category_order u.id order) no_such_category_in_order >> pure no_content

unfoldable pub handle_delete_category : Server → Request → Handler
unfolding require_admin delete_category
handle_delete_category server req = require_admin server req >>= λ u.
    or_fail (delete_category req.id u.id) (λ e. internal_error) >> pure no_content

unfoldable pub handle_get_collapsed_categories : Server → Request → Handler
unfolding require_user collapsed_category_ids visible_services owner_or_none visible_category_ids
handle_get_collapsed_categories server req = require_user server req >>= λ u.
    or_fail (collapsed_category_ids u.id) (λ e. internal_error) >>= λ ids.
    visible_services u >>= λ vis. elim vis [
      | none ↦ pure (write_json 200 (collapsed ids))
      | some allowed ↦ owner_or_none >>= λ found. elim found [
        | none ↦ pure (write_json 200 (collapsed []))
        | some owner ↦ visible_category_ids server owner u >>= λ cats. pure (
            write_json 200 (
              collapsed (filter (λ id. elim cats [ none ↦ false | some cs ↦ contains cs id ]) ids)))
      ]
    ]

unfoldable pub handle_set_collapsed_categories : Server → Request → Option (List String) → Handler
unfolding require_user set_collapsed_categories
handle_set_collapsed_categories server req body = require_user server req >>= λ u.
    decoded body >>= λ ids.
    or_fail (set_collapsed_categories u.id ids) (λ e. internal_error) >> pure no_content
