-- ===== src/Storage/Library.antt =====
-- internal/storage/library.go: the App Library, and the copies that its offers are added by.
pub mod Slug
pub mod Candidates
pub mod Copies
pub mod Ends
pub mod Offers
pub mod Seed
mod Tests
use homepad_api.Base.{
  ℕ, zero, suc, ◌+◌, String, Bool, true, false, not, ◌&&◌, List, [], ◌∷◌, ◌++◌, Option, none, some,
  ◌==◌, nat_eq, string_eq, text_eq, ltb, leb, if◌then◌else◌, any, find?, filter, map, Result, ok,
  err, Text, codes, decimal, sort_slice,
}
use homepad_api.Storage.{
  StoreErr, not_found, slug_taken, LibraryApp, ServiceRow, Db, Act, Ext, statement, query,
  transaction, ◌>>=◌, ◌>>◌, pure, throw,
}
use homepad_api.Storage.Users.{coalesce}
use homepad_api.Storage.Catalog.{Service}
use homepad_api.Storage.Services.{insert_service, category_check}
use homepad_api.Storage.Library.Slug.{slugify}

-- `LibraryOffer`: the offer, and whether the caller holds a copy of it.
pub record LibraryOffer : Type 0 where
  pub app : LibraryApp
  pub added : Bool

abbrev pub is_copy_of : String → ServiceRow → Bool
is_copy_of id s = elim s.source_library_id [ none ↦ false | some l ↦ l == id ]

unfoldable pub list_library : String → Act StoreErr (List LibraryOffer)
unfolding statement sort_slice
list_library user_id = query (λ db. ok (
    map
      (λ a. record {
        app = a;
        added = any (λ s. s.user_id == user_id && is_copy_of a.id s) db.services;
      })
      (sort_slice (λ a b. ltb a.sort_index b.sort_index) db.library)))

-- The fields of an offer that its creator fills in.
pub record NewApp : Type 0 where
  pub name : Text
  pub url : Text
  pub icon : Text
  pub description : Text
  pub suggested_category : Text

-- `COALESCE((SELECT max(sort_index) + 1 FROM library_apps), 0)`
unfoldable pub next_place : List LibraryApp → ℕ
next_place [] = 0
next_place (a ∷ apps) =
    let rest = next_place apps in if leb rest a.sort_index then suc a.sort_index else rest

unfoldable pub create_library_app : Ext → NewApp → Act StoreErr LibraryApp
unfolding statement next_place
create_library_app ext a = statement (λ db.
    let row : LibraryApp = record {
      id = ext.uuid db.next_id;
      name = a.name;
      url = a.url;
      icon = a.icon;
      description = a.description;
      suggested_category = a.suggested_category;
      sort_index = next_place db.library;
    } in
    (ok row, record db { library = db.library ++ row ∷ []; next_id = suc db.next_id }))

-- `none` leaves a field.
pub record LibraryAppUpdate : Type 0 where
  pub name : Option Text
  pub url : Option Text
  pub icon : Option Text
  pub description : Option Text
  pub suggested_category : Option Text

abbrev pub patched_app : LibraryAppUpdate → LibraryApp → LibraryApp
patched_app u a = record a {
  name = coalesce u.name a.name;
  url = coalesce u.url a.url;
  icon = coalesce u.icon a.icon;
  description = coalesce u.description a.description;
  suggested_category = coalesce u.suggested_category a.suggested_category;
}

abbrev pub is_app : String → LibraryApp → Bool
is_app id a = a.id == id

abbrev pub update_apps : String → (LibraryApp → LibraryApp) → Db → Db
update_apps id f db = record db { library = map (λ a. if is_app id a then f a else a) db.library }

unfoldable pub update_library_app : String → LibraryAppUpdate → Act StoreErr LibraryApp
unfolding statement
update_library_app id u = statement (λ db. elim (find? (is_app id) db.library) [
  | none ↦ (err not_found, db)
  | some a ↦ (ok (patched_app u a), update_apps id (patched_app u) db)
])

unfoldable pub set_place : String → ℕ → Act StoreErr (Unit {0})
unfolding statement
set_place id i = statement (λ db.
    if any (is_app id) db.library
    then (ok tt, update_apps id (λ a. record a { sort_index = i }) db)
    else (err not_found, db))

unfoldable pub set_places : ℕ → List String → Act StoreErr (Unit {0})
unfolding set_place
set_places i [] = pure tt
set_places i (id ∷ ids) = set_place id i >> set_places (suc i) ids

unfoldable pub set_library_order : List String → Act StoreErr (Unit {0})
unfolding transaction set_places
set_library_order ordered_ids = transaction (set_places 0 ordered_ids)

unfoldable pub read_offer : String → Act StoreErr LibraryApp
unfolding statement
read_offer id =
    query (λ db. elim (find? (is_app id) db.library) [ none ↦ err not_found | some a ↦ ok a ])

-- The row that copies an offer.
abbrev pub copy_row : LibraryApp → String → Option String → Text → String → ServiceRow
copy_row a user_id category_id slug id = record {
  id = id;
  user_id = user_id;
  slug = slug;
  name = a.name;
  description = a.description;
  url = a.url;
  icon = a.icon;
  gatus_key = none;
  category_id = category_id;
  source_library_id = some a.id;
  click_action = "new_tab";
}

-- The slugs that are tried: `base`, `base-2`, `base-3` and so on.
abbrev pub candidate : Text → ℕ → Text
candidate base i = if leb i 1 then base else base ++ b'-' ∷ decimal i

-- One round of the loop. The columns that are read back leave out `click_action`.
unfoldable pub insert_copy : Ext → LibraryApp → String → Option String → Text → Act StoreErr Service
unfolding insert_service
insert_copy ext a user_id category_id slug =
    insert_service ext (copy_row a user_id category_id slug) >>= λ s.
    pure (record s { click_action = "" })

-- The answer 23505.
abbrev pub is_collision : StoreErr → Bool
is_collision e = elim e [ slug_taken ↦ true | _ ↦ false ]

-- `for i := …; i <= 1000; i++`, by the rounds that are left.
unfoldable pub try_slugs : (Text → Act StoreErr Service) → Text → ℕ → ℕ → Act StoreErr Service
try_slugs insert base i zero w = throw slug_taken w
try_slugs insert base i (suc rounds) w =
    let r = insert (candidate base i) w in
    elim r.0 [
      | ok s ↦ r
      | err e ↦ elim (is_collision e) [
        | true ↦ try_slugs insert base (suc i) rounds r.1
        | false ↦ r
      ]
    ]

abbrev pub max_tries : ℕ
max_tries = 1000

abbrev pub base_of : LibraryApp → Text
unfolding slugify
base_of a = if slugify a.name == [] then codes "app" else slugify a.name

unfoldable pub add_from_library : Ext → String → String → Option String → Act StoreErr Service
unfolding read_offer insert_copy try_slugs slugify decimal
add_from_library ext user_id library_id category_id = read_offer library_id >>= λ a.
    category_check user_id (some category_id) >>= λ t.
    try_slugs (insert_copy ext a user_id category_id) (base_of a) 1 max_tries

-- `ON DELETE SET NULL` of the copies' `source_library_id`.
abbrev pub without_source : String → ServiceRow → ServiceRow
without_source id s = if is_copy_of id s then record s { source_library_id = none } else s

abbrev pub without_app : String → Db → Db
without_app id db = record db {
  library = filter (λ a. not (is_app id a)) db.library;
  services = map (without_source id) db.services;
}

unfoldable pub delete_library_app : String → Act StoreErr (Unit {0})
unfolding statement
delete_library_app id = statement (λ db. (ok tt, without_app id db))
