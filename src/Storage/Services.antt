-- ===== src/Storage/Services.antt =====
-- internal/storage/storage.go: the writes of services. The unique index on `(user_id, slug)` and the
-- primary key both answer 23505; an insert that they refuse uses up no random id here.

pub mod Laws
use homepad_api.Base.{
  ℕ, suc, String, Bool, true, false, not, ◌&&◌, ◌||◌, List, [], ◌∷◌, ◌++◌, Option, none, some, ◌==◌,
  string_eq, text_eq, if◌then◌else◌, any, find?, filter, map, ok, err, Text,
}
use homepad_api.Storage.{
  StoreErr, not_found, slug_taken, category_not_found, ServiceRow, Db, Act, Ext, statement, query,
  ◌>>=◌, pure,
}
use homepad_api.Storage.Users.{coalesce}
use homepad_api.Storage.Catalog.{Service, scan_service}

abbrev pub same_slug : ServiceRow → ServiceRow → Bool
same_slug a b = a.user_id == b.user_id && a.slug == b.slug

-- What makes an insert fail with 23505.
abbrev pub collides : ServiceRow → ServiceRow → Bool
collides a b = a.id == b.id || same_slug a b

unfoldable pub insert_service : Ext → (String → ServiceRow) → Act StoreErr Service
unfolding statement scan_service
insert_service ext row = statement (λ db.
    let r = row (ext.uuid db.next_id) in
    if any (collides r) db.services then (err slug_taken, db) else (
      ok (scan_service db r),
      record db { services = db.services ++ r ∷ []; next_id = suc db.next_id },
    ))

-- The fields that `handleCreateService` fills in.
pub record NewService : Type 0 where
  pub slug : Text
  pub name : Text
  pub description : Text
  pub url : Text
  pub icon : Text
  pub gatus_key : String
  pub click_action : String

-- An empty key is stored as NULL.
abbrev pub key_or_null : String → Option String
key_or_null k = if k == "" then none else some k

abbrev pub new_row : String → NewService → String → ServiceRow
new_row user_id s id = record {
  id = id;
  user_id = user_id;
  slug = s.slug;
  name = s.name;
  description = s.description;
  url = s.url;
  icon = s.icon;
  gatus_key = key_or_null s.gatus_key;
  category_id = none;
  source_library_id = none;
  click_action = if s.click_action == "" then "new_tab" else s.click_action;
}

unfoldable pub create_service : Ext → String → NewService → Act StoreErr Service
unfolding insert_service
create_service ext user_id s = insert_service ext (new_row user_id s)

-- `none` leaves a field; `category` is set to its value, which may be NULL.
pub record ServiceUpdate : Type 0 where
  pub slug : Option Text
  pub name : Option Text
  pub description : Option Text
  pub url : Option Text
  pub icon : Option Text
  pub gatus_key : Option String
  pub category : Option (Option String)
  pub click_action : Option String

abbrev pub patched : ServiceUpdate → ServiceRow → ServiceRow
patched u s = record s {
  slug = coalesce u.slug s.slug;
  name = coalesce u.name s.name;
  description = coalesce u.description s.description;
  url = coalesce u.url s.url;
  icon = coalesce u.icon s.icon;
  gatus_key = elim u.gatus_key [ none ↦ s.gatus_key | some k ↦ key_or_null k ];
  category_id = coalesce u.category s.category_id;
  click_action = coalesce u.click_action s.click_action;
}

unfoldable pub category_owned_by : String → String → Act StoreErr (Unit {0})
unfolding statement
category_owned_by id user_id = query (λ db.
    if any (λ c. c.id == id && c.user_id == user_id) db.categories
    then ok tt
    else err category_not_found)

abbrev pub owned_row : String → String → ServiceRow → Bool
owned_row id user_id s = s.id == id && s.user_id == user_id

unfoldable pub service_owned_by : String → String → Act StoreErr (Unit {0})
unfolding statement
service_owned_by service_id user_id =
    query (λ db. if any (owned_row service_id user_id) db.services then ok tt else err not_found)

unfoldable pub service_url : String → String → Act StoreErr Text
unfolding statement
service_url service_id user_id = query (λ db.
    elim (find? (owned_row service_id user_id) db.services) [
      | none ↦ err not_found
      | some s ↦ ok s.url
    ])

-- The category of an update, where it names one, must be the caller's.
abbrev pub category_check : String → Option (Option String) → Act StoreErr (Unit {0})
category_check user_id none = pure tt
category_check user_id (some none) = pure tt
category_check user_id (some (some id)) = category_owned_by id user_id

abbrev pub update_where :
    (ServiceRow → Bool) → (ServiceRow → ServiceRow) → List ServiceRow → List ServiceRow
update_where p f rows = map (λ s. if p s then f s else s) rows

-- The `UPDATE … RETURNING`; the index refuses the slug of another row of the user.
unfoldable pub update_service_row : String → String → ServiceUpdate → Act StoreErr Service
unfolding statement scan_service
update_service_row id user_id u = statement (λ db. elim (find? (owned_row id user_id) db.services) [
  | none ↦ (err not_found, db)
  | some s ↦
      if any (λ o. not (o.id == id) && same_slug (patched u s) o) db.services
      then (err slug_taken, db)
      else (
        ok (scan_service db (patched u s)),
        record db { services = update_where (owned_row id user_id) (patched u) db.services },
      )
])

unfoldable pub update_service : String → String → ServiceUpdate → Act StoreErr Service
unfolding category_owned_by update_service_row
update_service id user_id u =
    category_check user_id u.category >>= λ t. update_service_row id user_id u

-- What goes with a service: `ON DELETE CASCADE` of the favorites, the layout, the icons and the
-- kids' allow-lists.
abbrev pub without_service : String → String → Db → Db
without_service id user_id db = record db {
  services = filter (λ s. not (owned_row id user_id s)) db.services;
  favorites = filter (λ f. not (f.1 == id)) db.favorites;
  layout = filter (λ l. not (l.service_id == id)) db.layout;
  icons = filter (λ i. not (i.service_id == id)) db.icons;
  allowed = filter (λ a. not (a.1 == id)) db.allowed;
}

unfoldable pub delete_service : String → String → Act StoreErr (Unit {0})
unfolding statement
delete_service id user_id = statement (λ db.
    if any (owned_row id user_id) db.services
    then (ok tt, without_service id user_id db)
    else (err not_found, db))
