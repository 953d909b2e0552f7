-- ===== src/Storage/Kids/Laws.antt =====
-- What the methods of internal/storage/kids.go leave as it is, and what a deleted kid takes along.
use homepad_api.Base.{
  String, Bool, true, false, Bool-cases, if◌then◌else◌, not, List, [], ◌∷◌, ◌++◌, Option, ◌==◌,
  nat_eq, string_eq, any, sym, ◌||◌, filter, map, is_ok, Text, ◌≡◌, refl, ap, arith, inl, inr,
}
use mathlib.Core.Path.{subst}
use homepad_api.Storage.{UserRow, ServiceRow, Db, World, Ext, statement}
use homepad_api.Storage.Laws.{statement-keeps, Cleared, filter-Cleared}
use homepad_api.Storage.Kids.{
  insert_kid, update_kid_row, delete_kid_row, create_kid, update_kid, delete_kid, set_kid_services,
  is_kid_row, renamed, kid_row, without_user, owns_service, owns_category, null_category,
}
use homepad_api.Storage.Kids.AllowList.{set_kid_services-rolls_back, set_kid_services-replaces}

-- The rows of the adults.
abbrev pub is_adult_row : UserRow → Bool
is_adult_row r = not (r.role == "kid")

abbrev pub adults : Db → List UserRow
adults db = filter is_adult_row db.users

adults-snoc :
    (rs : List UserRow) (r : UserRow)
    → is_adult_row r ≡ false
    → filter is_adult_row (rs ++ r ∷ []) ≡ filter is_adult_row rs
adults-snoc [] r h = ground (arith, h)
adults-snoc (x ∷ xs) r h = ground (arith, adults-snoc xs r h)

adults-update :
    (id : String) (f : UserRow → UserRow) (rs : List UserRow)
    → ((r : UserRow) → (f r).role ≡ r.role)
    → filter is_adult_row (map (λ q. if is_kid_row id q then f q else q) rs)
      ≡ filter is_adult_row rs
adults-update id f [] h = refl
adults-update id f (x ∷ xs) h = ground (arith, adults-update id f xs h, h x)

adults-delete :
    (id : String) (rs : List UserRow)
    → filter is_adult_row (filter (λ r. not (is_kid_row id r)) rs) ≡ filter is_adult_row rs
adults-delete id [] = refl
adults-delete id (x ∷ xs) = ground (arith, adults-delete id xs)

create_kid-adults :
    (ext : Ext) (name : Text) (color : String) (w : World)
    → adults (create_kid ext name color w).1.db ≡ adults w.db
unfolding create_kid insert_kid
create_kid-adults ext name color w =
    statement-keeps adults (insert_kid ext w.clock name color) w
      (ground (arith, adults-snoc w.db.users (kid_row ext w.db w.clock name color) refl))

update_kid-adults :
    (ext : Ext) (id : String) (name : Option Text) (color : Option String) (w : World)
    → adults (update_kid ext id name color w).1.db ≡ adults w.db
unfolding update_kid update_kid_row
update_kid-adults ext id name color w =
    statement-keeps adults (update_kid_row ext id name color) w
      (ground (arith, adults-update id (renamed ext name color) w.db.users (λ r. refl)))

delete_kid-adults : (id : String) (w : World) → adults (delete_kid id w).1.db ≡ adults w.db
unfolding delete_kid delete_kid_row
delete_kid-adults id w =
    statement-keeps adults (delete_kid_row id) w (ground (arith, adults-delete id w.db.users))

set_kid_services-adults :
    (kid_id : String) (ids : List String) (w : World)
    → adults (set_kid_services kid_id ids w).1.db ≡ adults w.db
set_kid_services-adults kid_id ids w = elim (Bool-cases (is_ok (set_kid_services kid_id ids w).0)) [
  | inl done ↦ ap adults (set_kid_services-replaces kid_id ids w done)
  | inr undone ↦ ap adults (set_kid_services-rolls_back kid_id ids w undone)
]

-- No method that writes kid accounts adds, changes, removes or reorders the row of an account that
-- is not a kid.
pub kid_writes-adults :
    (ext : Ext) (w : World) (id : String)
    → ((name : Text) (color : String) → adults (create_kid ext name color w).1.db ≡ adults w.db)
      × ((name : Option Text) (color : Option String)
          → adults (update_kid ext id name color w).1.db ≡ adults w.db)
      × (adults (delete_kid id w).1.db ≡ adults w.db)
      × ((ids : List String) → adults (set_kid_services id ids w).1.db ≡ adults w.db)
kid_writes-adults ext w id = (
  λ name color. create_kid-adults ext name color w,
  λ name color. update_kid-adults ext id name color w,
  delete_kid-adults id w,
  λ ids. set_kid_services-adults id ids w,
)

-- The rows that go with the account: those that name it, or a service or a category of its own.
abbrev of_user : String → Db → String → String → Bool
of_user id db user_id service_id = user_id == id || owns_service id db service_id

-- The kid is gone, with the rows that go with it, and all other rows are left, but for the place of
-- a service in a category that is gone.
abbrev pub KidRemoved : String → Db → Db → Type 0
KidRemoved id before after =
    (any (is_kid_row id) before.users ≡ true)
    × Cleared (is_kid_row id) before.users after.users
    × Cleared (λ r. r.1.user_id == id) before.sessions after.sessions
    × Cleared (λ r. of_user id before r.0 r.1) before.favorites after.favorites
    × Cleared (λ r. of_user id before r.user_id r.service_id) before.layout after.layout
    × Cleared (λ r. r.0 == id || owns_category id before r.1) before.collapsed after.collapsed
    × Cleared (λ r. of_user id before r.0 r.1) before.allowed after.allowed
    × Cleared (λ r. owns_service id before r.service_id) before.icons after.icons
    × Cleared (λ r. r.user_id == id) before.categories after.categories
    × (any (λ r. r.user_id == id) after.services ≡ false)
    × (after.services
        ≡ map (null_category (owns_category id before))
            (filter (λ r. not (r.user_id == id)) before.services))
    × (after.library ≡ before.library)
    × (after.settings ≡ before.settings)

any-null_category :
    (id : String) (gone : String → Bool) (rows : List ServiceRow)
    → any
        (λ r. r.user_id == id)
        (map (null_category gone) (filter (λ r. not (r.user_id == id)) rows))
      ≡ false
any-null_category id gone [] = refl
any-null_category id gone (r ∷ rs) = ground (arith, any-null_category id gone rs)

without_user-KidRemoved :
    (id : String) (db : Db)
    → any (is_kid_row id) db.users ≡ true
    → KidRemoved id db (without_user id db)
without_user-KidRemoved id db is_kid = (
  is_kid,
  filter-Cleared (is_kid_row id) db.users,
  filter-Cleared (λ r. r.1.user_id == id) db.sessions,
  filter-Cleared (λ r. of_user id db r.0 r.1) db.favorites,
  filter-Cleared (λ r. of_user id db r.user_id r.service_id) db.layout,
  filter-Cleared (λ r. r.0 == id || owns_category id db r.1) db.collapsed,
  filter-Cleared (λ r. of_user id db r.0 r.1) db.allowed,
  filter-Cleared (λ r. owns_service id db r.service_id) db.icons,
  filter-Cleared (λ r. r.user_id == id) db.categories,
  any-null_category id (owns_category id db) db.services,
  refl,
  refl,
  refl,
)

delete_kid-deletes :
    (id : String) (w : World)
    → is_ok (delete_kid id w).0 ≡ true
    → (any (is_kid_row id) w.db.users ≡ true) × ((delete_kid id w).1.db ≡ without_user id w.db)
unfolding delete_kid delete_kid_row statement
delete_kid-deletes id w done = (ground arith, ground arith)

-- Deleting a kid that fails leaves the database. Where it succeeds the id is a kid's. Afterwards no
-- kid has it, no session, favorite, placement, collapsed category, allowed service, icon, service or
-- category is the kid's or names one of its services or categories, and every other row of these
-- tables, of the accounts, the offers and the settings is left, but that a service in a category of
-- the kid's is in none.
pub delete_kid-KidRemoved :
    (id : String) (w : World)
    → (is_ok (delete_kid id w).0 ≡ false → (delete_kid id w).1.db ≡ w.db)
      × (is_ok (delete_kid id w).0 ≡ true → KidRemoved id w.db (delete_kid id w).1.db)
unfolding delete_kid delete_kid_row statement
delete_kid-KidRemoved id w = (
  λ h. ground arith,
  λ done.
      let gone = delete_kid-deletes id w done in
      subst (KidRemoved id w.db) (sym gone.1) (without_user-KidRemoved id w.db gone.0),
)
