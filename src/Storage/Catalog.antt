-- ===== src/Storage/Catalog.antt =====
-- internal/storage/storage.go: the catalog as a user reads it, favorites and the layout.
pub mod Layout
use homepad_api.Base.{
  ℕ, suc, ◌+◌, String, Bool, true, false, not, ◌&&◌, ◌||◌, List, [], ◌∷◌, ◌++◌, Option, none, some,
  ◌==◌, nat_eq, string_eq, text_eq, ltb, if◌then◌else◌, any, find?, filter, length, map, Result, ok,
  err, Text, contains, sort_slice,
}
use homepad_api.Storage.{
  StoreErr, not_found, failed, ServiceRow, CategoryRow, LayoutRow, Db, Act, Ext, statement, query,
  no_rows, transaction, ◌>>=◌, ◌>>◌, pure,
}
use homepad_api.Storage.Users.{coalesce}

pub record Service : Type 0 where
  pub id : String
  pub slug : Text
  pub name : Text
  pub description : Text
  pub url : Text
  pub icon : Text
  pub gatus_key : String
  pub category_id : Option String
  pub category_name : Option Text
  pub source_library_id : Option String
  pub click_action : String

-- `LEFT JOIN categories c ON c.id = s.category_id`
abbrev pub category_name_of : Db → Option String → Option Text
category_name_of db none = none
category_name_of db (some id) = elim (find? (λ c. c.id == id) db.categories) [
  | none ↦ none
  | some c ↦ some c.name
]

unfoldable pub scan_service : Db → ServiceRow → Service
scan_service db r = record {
  id = r.id;
  slug = r.slug;
  name = r.name;
  description = r.description;
  url = r.url;
  icon = r.icon;
  gatus_key = coalesce r.gatus_key "";
  category_id = r.category_id;
  category_name = category_name_of db r.category_id;
  source_library_id = r.source_library_id;
  click_action = r.click_action;
}

-- `ul.sort_index`: where the viewer has placed the service.
abbrev pub place_of : Db → String → ServiceRow → Option ℕ
place_of db viewer_id s =
    elim (find? (λ l. l.service_id == s.id && l.user_id == viewer_id) db.layout) [
      | none ↦ none
      | some l ↦ some l.sort_index
    ]

-- `ORDER BY ul.sort_index NULLS LAST, s.name`
abbrev pub placed_before : (Text → Text → Bool) → Option ℕ × Text → Option ℕ × Text → Bool
placed_before name_before (some i, a) (some j, b) = ltb i j || (i == j && name_before a b)
placed_before name_before (some i, a) (none, b) = true
placed_before name_before (none, a) (some j, b) = false
placed_before name_before (none, a) (none, b) = name_before a b

-- The rows that `ListServices` selects, in its order.
unfoldable pub catalog_of : Ext → String → String → Db → List Service
unfolding scan_service sort_slice
catalog_of ext owner_id viewer_id db = map (scan_service db) (
    sort_slice
      (λ a b.
        placed_before ext.name_before (place_of db viewer_id a, a.name)
          (place_of db viewer_id b, b.name))
      (filter (λ s. s.user_id == owner_id) db.services))

unfoldable pub list_services : Ext → String → String → Act StoreErr (List Service)
unfolding statement catalog_of
list_services ext owner_id viewer_id = query (λ db. ok (catalog_of ext owner_id viewer_id db))

-- `AllIconFlags` of one service: which variants exist.
unfoldable pub has_icon : List (String × String) → String → String → Bool
has_icon icons service_id variant = any (λ i. i.0 == service_id && i.1 == variant) icons

unfoldable pub all_icons : Act StoreErr (List (String × String))
unfolding statement
all_icons = query (λ db. ok (map (λ i. (i.service_id, i.variant)) db.icons))

abbrev pub has_service : String → Db → Bool
has_service id db = any (λ s. s.id == id) db.services

-- `ON CONFLICT DO NOTHING`, and the foreign key.
unfoldable pub add_favorite : String → String → Act StoreErr (Unit {0})
unfolding statement
add_favorite user_id service_id = statement (λ db.
    if any (λ f. f.0 == user_id && f.1 == service_id) db.favorites
    then (ok tt, db)
    else if has_service service_id db
    then (ok tt, record db { favorites = db.favorites ++ (user_id, service_id) ∷ [] })
    else (err not_found, db))

unfoldable pub remove_favorite : String → String → Act StoreErr (Unit {0})
unfolding statement
remove_favorite user_id service_id = statement (λ db. (
  ok tt,
  record db { favorites = filter (λ f. not (f.0 == user_id && f.1 == service_id)) db.favorites },
))

unfoldable pub favorite_ids : String → Act StoreErr (List String)
unfolding statement
favorite_ids user_id = query (λ db. ok (map (λ f. f.1) (filter (λ f. f.0 == user_id) db.favorites)))

-- One `INSERT INTO user_layout`, guarded by `EXISTS`; a second row of the service breaks the
-- primary key.
unfoldable pub place_service : String → String → ℕ → Act StoreErr (Unit {0})
unfolding statement
place_service user_id id i = statement (λ db.
    if not (has_service id db)
    then (err not_found, db)
    else if any (λ l. l.user_id == user_id && l.service_id == id) db.layout
    then (err failed, db)
    else (
      ok tt,
      record db {
        layout = db.layout ++ (record { user_id = user_id; service_id = id; sort_index = i }) ∷ [];
      },
    ))

unfoldable pub place_services : String → ℕ → List String → Act StoreErr (Unit {0})
unfolding place_service
place_services user_id i [] = pure tt
place_services user_id i (id ∷ ids) =
    place_service user_id id i >> place_services user_id (suc i) ids

abbrev pub clear_layout : String → Act StoreErr (Unit {0})
clear_layout user_id =
    statement
      (λ db. (ok tt, record db { layout = filter (λ l. not (l.user_id == user_id)) db.layout }))

unfoldable pub set_layout : String → List String → Act StoreErr (Unit {0})
unfolding transaction statement place_services
set_layout user_id ordered_ids =
    transaction (clear_layout user_id >> place_services user_id 0 ordered_ids)
