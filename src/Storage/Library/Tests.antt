-- ===== src/Storage/Library/Tests.antt =====
-- Writes of the sample household's services and offers.
use homepad_api.Base.{
  ◌≡◌, refl, String, true, false, List, [], ◌∷◌, none, some, string_eq, text_eq, is_ok, codes,
  arith, ok,
}
use homepad_api.Samples.{ext, start, plex}
use homepad_api.Storage.Services.{ServiceUpdate, update_service, delete_service}
use homepad_api.Storage.Services.Laws.{
  Patched, OwnsCategory, update_service-Patched, Removed, delete_service-Removed,
}
use homepad_api.Storage.Library.{
  NewApp, LibraryAppUpdate, create_library_app, update_library_app, set_library_order,
  add_from_library, delete_library_app,
}
use homepad_api.Storage.Library.Slug.{slugify, IsSlug, slugify-IsSlug}
use homepad_api.Storage.Library.Copies.{Copied, add_from_library-Copied}
use homepad_api.Storage.Library.Ends.{add_from_library-ends}
use homepad_api.Storage.{World}
use homepad_api.Storage.Library.Seed.{SeedEntry, parse_seed, seed_library_if_empty}
use homepad_api.Storage.Library.Seed.Once.{Seeded, seed_library_if_empty-Seeded}
use homepad_api.Storage.Library.Offers.{apart_from_library, library_writes-apart}

abbrev renaming : ServiceUpdate
renaming = record {
  slug = none;
  name = some (codes "Schach");
  description = none;
  url = none;
  icon = none;
  gatus_key = some "";
  category = some none;
  click_action = none;
}

renamed : is_ok (update_service "chess" "ada" renaming start).0 ≡ true
unfolding update_service
renamed = refl

update_service-Patched_example :
    (is_ok (update_service "chess" "ada" renaming start).0 ≡ false
      → (update_service "chess" "ada" renaming start).1.db ≡ start.db)
    × (is_ok (update_service "chess" "ada" renaming start).0 ≡ true
        → Patched "chess" "ada" renaming start.db (update_service "chess" "ada" renaming start).1.db
          × OwnsCategory "ada" renaming.category start.db)
update_service-Patched_example = update_service-Patched "chess" "ada" renaming start

deleted : is_ok (delete_service "chess" "ada" start).0 ≡ true
unfolding delete_service
deleted = refl

delete_service-Removed_example :
    (is_ok (delete_service "chess" "ada" start).0 ≡ false
      → (delete_service "chess" "ada" start).1.db ≡ start.db)
    × (is_ok (delete_service "chess" "ada" start).0 ≡ true
        → Removed "chess" "ada" start.db (delete_service "chess" "ada" start).1.db)
delete_service-Removed_example = delete_service-Removed "chess" "ada" start

slug_of_plex : slugify (codes "Plex Media  Server!") ≡ codes "plex-media-server"
unfolding slugify
slug_of_plex = refl

slugify-IsSlug_example :
    IsSlug (slugify (codes "Plex Media  Server!"))
    × (IsSlug (codes "Plex Media  Server!")
        → slugify (codes "Plex Media  Server!") ≡ codes "Plex Media  Server!")
slugify-IsSlug_example = slugify-IsSlug (codes "Plex Media  Server!")

added : is_ok (add_from_library ext "ada" "plex" none start).0 ≡ true
unfolding add_from_library
added = refl

add_from_library-Copied_example :
    (is_ok (add_from_library ext "ada" "plex" none start).0 ≡ false
      → (add_from_library ext "ada" "plex" none start).1.db ≡ start.db)
    × (is_ok (add_from_library ext "ada" "plex" none start).0 ≡ true
        → Copied ext "ada" "plex" none start.db (add_from_library ext "ada" "plex" none start).1.db)
add_from_library-Copied_example = add_from_library-Copied ext "ada" "plex" none start

add_from_library-ends_example : is_ok (add_from_library ext "ada" "plex" none start).0 ≡ true
add_from_library-ends_example =
    add_from_library-ends ext "ada" "plex" none start plex refl (λ n. refl) refl tt (omega arith)

library_writes-apart_example :
    ((a : NewApp)
      → apart_from_library (create_library_app ext a start).1.db ≡ apart_from_library start.db)
    × ((id : String) (u : LibraryAppUpdate)
        → apart_from_library (update_library_app id u start).1.db ≡ apart_from_library start.db)
    × ((ids : List String)
        → (apart_from_library (set_library_order ids start).1.db ≡ apart_from_library start.db)
          × (is_ok (set_library_order ids start).0 ≡ false
              → (set_library_order ids start).1.db ≡ start.db))
    × ((id : String)
        → apart_from_library (delete_library_app id start).1.db ≡ apart_from_library start.db)
library_writes-apart_example = library_writes-apart ext start

abbrev file : List SeedEntry
file =
    (record { name = codes "Wiki"; url = codes "w"; icon = []; description = codes "docs" })
    ∷ (record { name = codes "Mail"; url = codes "m"; icon = []; description = [] })
    ∷ []

abbrev fresh : World
fresh = record start { db = record start.db { library = [] } }

seeded : (seed_library_if_empty ext (some file) fresh).0 ≡ ok 2
unfolding seed_library_if_empty
seeded = refl

seed_library_if_empty-Seeded_example :
    (is_ok (seed_library_if_empty ext (some file) fresh).0 ≡ false
      → (seed_library_if_empty ext (some file) fresh).1.db ≡ fresh.db)
    × (is_ok (seed_library_if_empty ext (some file) fresh).0 ≡ true
        → (entries : List SeedEntry) × (parse_seed (some file) ≡ ok entries)
          × Seeded entries fresh.db (seed_library_if_empty ext (some file) fresh).1.db)
seed_library_if_empty-Seeded_example = seed_library_if_empty-Seeded ext (some file) fresh
