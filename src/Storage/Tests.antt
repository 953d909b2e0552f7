-- ===== src/Storage/Tests.antt =====
-- Writes of kid accounts and of a layout, in a small database.
use homepad_api.Base.{
  ◌≡◌, refl, String, true, false, ◌&&◌, List, [], ◌∷◌, ◌++◌, Option, ◌==◌, string_eq, text_eq,
  is_ok, Text, contains, any, All,
}
use homepad_api.Samples.{ext, start}
use homepad_api.Storage.Kids.{allowed_to, create_kid, update_kid, delete_kid, set_kid_services}
use homepad_api.Storage.Kids.AllowList.{set_kid_services_lem}
use homepad_api.Storage.Kids.Laws.{adults, kid_writes-adults, KidRemoved, delete_kid-KidRemoved}
use homepad_api.Storage.Catalog.{set_layout}
use homepad_api.Storage.Catalog.Layout.{placed, cleared_rows, ExistsIn, set_layout_lem}

set_kid_services_lem_example :
    (is_ok (set_kid_services "kim" ("chess" ∷ []) start).0 ≡ false
      → (set_kid_services "kim" ("chess" ∷ []) start).1.db ≡ start.db)
    × (is_ok (set_kid_services "kim" ("chess" ∷ []) start).0 ≡ true
        → ((id : String)
            → contains (allowed_to "kim" (set_kid_services "kim" ("chess" ∷ []) start).1.db) id
              ≡ (contains ("chess" ∷ []) id && any (λ s. s.id == id) start.db.services))
          × ((other : String)
              → ("kim" == other) ≡ false
              → allowed_to other (set_kid_services "kim" ("chess" ∷ []) start).1.db
                ≡ allowed_to other start.db))
set_kid_services_lem_example = set_kid_services_lem "kim" ("chess" ∷ []) start

kid_writes-adults_example :
    ((name : Text) (color : String)
      → adults (create_kid ext name color start).1.db ≡ adults start.db)
    × ((name : Option Text) (color : Option String)
        → adults (update_kid ext "kim" name color start).1.db ≡ adults start.db)
    × (adults (delete_kid "kim" start).1.db ≡ adults start.db)
    × ((ids : List String) → adults (set_kid_services "kim" ids start).1.db ≡ adults start.db)
kid_writes-adults_example = kid_writes-adults ext start "kim"

deleted : is_ok (delete_kid "kim" start).0 ≡ true
unfolding delete_kid
deleted = refl

delete_kid-KidRemoved_example :
    (is_ok (delete_kid "kim" start).0 ≡ false → (delete_kid "kim" start).1.db ≡ start.db)
    × (is_ok (delete_kid "kim" start).0 ≡ true
        → KidRemoved "kim" start.db (delete_kid "kim" start).1.db)
delete_kid-KidRemoved_example = delete_kid-KidRemoved "kim" start

-- The set is written, and the run of an unknown service is undone.
set_chess : is_ok (set_kid_services "kim" ("chess" ∷ "chess" ∷ []) start).0 ≡ true
unfolding set_kid_services
set_chess = refl

set_unknown : is_ok (set_kid_services "kim" ("chess" ∷ "nope" ∷ []) start).0 ≡ false
unfolding set_kid_services
set_unknown = refl

set_layout_lem_example :
    (is_ok (set_layout "kim" ("chess" ∷ []) start).0 ≡ false
      → (set_layout "kim" ("chess" ∷ []) start).1.db ≡ start.db)
    × (is_ok (set_layout "kim" ("chess" ∷ []) start).0 ≡ true
        → ((set_layout "kim" ("chess" ∷ []) start).1.db.layout
            ≡ cleared_rows "kim" start.db.layout ++ placed "kim" 0 ("chess" ∷ []))
          × All (ExistsIn start.db.services) ("chess" ∷ []))
set_layout_lem_example = set_layout_lem "kim" ("chess" ∷ []) start
