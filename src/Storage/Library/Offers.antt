-- ===== src/Storage/Library/Offers.antt =====
-- The writes of offers in internal/storage/library.go leave the copies.
use homepad_api.Base.{
  ℕ, suc, String, false, List, [], ◌∷◌, none, string_eq, find?, map, is_ok, ok, ◌≡◌, ap, refl,
  arith, inl, inr, Option-cases,
}
use homepad_api.Storage.{ServiceRow, Db, World, Ext, statement}
use homepad_api.Storage.Laws.{transaction-rolls_back, transaction-keeps, statement-keeps}
use homepad_api.Storage.Library.{
  NewApp, LibraryAppUpdate, is_app, create_library_app, update_library_app, set_place, set_places,
  set_library_order, delete_library_app, without_app, without_source,
}

abbrev unmark : ServiceRow → ServiceRow
unmark s = record s { source_library_id = none }

-- The database without its offers, the marks of the offers on their copies and the count of ids.
abbrev pub apart_from_library : Db → Db
apart_from_library db = record db { services = map unmark db.services; library = []; next_id = 0 }

unmarked_map :
    (id : String) (rows : List ServiceRow)
    → map unmark (map (without_source id) rows) ≡ map unmark rows
unmarked_map id [] = refl
unmarked_map id (r ∷ rs) = ground (arith, unmarked_map id rs)

set_places-apart :
    (i : ℕ) (ids : List String) (w : World)
    → apart_from_library (set_places i ids w).1.db ≡ apart_from_library w.db
unfolding set_places set_place statement
set_places-apart i [] w = refl
set_places-apart i (id ∷ ids) w = ground (arith, set_places-apart (suc i) ids (set_place id i w).1)

delete_library_app-apart :
    (id : String) (w : World)
    → apart_from_library (delete_library_app id w).1.db ≡ apart_from_library w.db
unfolding delete_library_app
delete_library_app-apart id w =
    statement-keeps apart_from_library (λ db. (ok tt, without_app id db)) w
      (ap (λ rows. record (apart_from_library w.db) { services = rows })
        (unmarked_map id w.db.services))

update_library_app-apart :
    (id : String) (u : LibraryAppUpdate) (w : World)
    → apart_from_library (update_library_app id u w).1.db ≡ apart_from_library w.db
unfolding update_library_app statement
update_library_app-apart id u w = elim (Option-cases (find? (is_app id) w.db.library)) [
  | inl absent ↦ ground (arith, absent)
  | inr (a, found) ↦ ground (arith, found)
]

-- Creating, editing, reordering and deleting offers changes no other table, and of the copies that
-- users hold at most the mark of the offer that they came from. An order that names an unknown offer
-- leaves the library as well.
pub library_writes-apart :
    (ext : Ext) (w : World)
    → ((a : NewApp)
        → apart_from_library (create_library_app ext a w).1.db ≡ apart_from_library w.db)
      × ((id : String) (u : LibraryAppUpdate)
          → apart_from_library (update_library_app id u w).1.db ≡ apart_from_library w.db)
      × ((ids : List String)
          → (apart_from_library (set_library_order ids w).1.db ≡ apart_from_library w.db)
            × (is_ok (set_library_order ids w).0 ≡ false → (set_library_order ids w).1.db ≡ w.db))
      × ((id : String)
          → apart_from_library (delete_library_app id w).1.db ≡ apart_from_library w.db)
unfolding create_library_app set_library_order statement
library_writes-apart ext w = (
  λ a. ground arith,
  λ id u. update_library_app-apart id u w,
  λ ids. (
    transaction-keeps apart_from_library (set_places 0 ids) (set_places-apart 0 ids) w,
    transaction-rolls_back (set_places 0 ids) w,
  ),
  λ id. delete_library_app-apart id w,
)
