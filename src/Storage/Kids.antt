-- ===== src/Storage/Kids.antt =====
-- internal/storage/kids.go: kid accounts and their allow-lists. The CHECK constraints of
-- migrations/0018_kid_accounts.up.sql on a name and a colour, which the callers check before, are
-- not repeated here.
pub mod AllowList
pub mod Laws
use homepad_api.Base.{
  ℕ, suc, ◌+◌, String, Bool, true, false, not, ◌&&◌, ◌||◌, List, [], ◌∷◌, ◌++◌, Option, none, some,
  ◌==◌, nat_eq, string_eq, text_eq, ltb, if◌then◌else◌, any, find?, filter, length, map, Result, ok,
  err, Text, contains, sort_slice,
}
use Prim.Native.String.{compare}
use text.Mathlib.Text.{is_lt}
use homepad_api.Storage.{
  StoreErr, not_found, kid_name_taken, unknown_service, UserRow, ServiceRow, LayoutRow, Db, World,
  Act, Ext, statement, query, no_rows, transaction, ◌>>=◌, ◌>>◌, pure, throw,
}
use homepad_api.Storage.Users.{User, scan_user, first_admin, earlier, default_uptime_display}

unfoldable pub is_adult_role : String → Bool
is_adult_role role = role == "admin" || role == "user"

-- A nil `*ServiceSet` is `none`: every service.
abbrev pub ServiceSet : Type 0
ServiceSet = Option (List String)

unfoldable pub allows : ServiceSet → String → Bool
allows none id = true
allows (some ids) id = contains ids id

-- `WHERE user_id = $1` of `kid_allowed_services`
abbrev pub allowed_to : String → Db → List String
allowed_to user_id db = map (λ r. r.1) (filter (λ r. r.0 == user_id) db.allowed)

unfoldable pub visible_service_ids : User → Act StoreErr ServiceSet
unfolding is_adult_role statement
visible_service_ids u = elim (is_adult_role u.role) [
  | true ↦ pure none
  | false ↦ query (λ db. ok (some (allowed_to u.id db)))
]

abbrev pub is_kid_row : String → UserRow → Bool
is_kid_row id r = r.id == id && r.role == "kid"

module _ (ext : Ext) where
  -- The unique index `users_kid_name_key`, on `lower(display_name)` of the kids' rows.
  abbrev pub has_kid_name : Text → UserRow → Bool
  has_kid_name name r =
      r.role == "kid" && elim r.display_name [ none ↦ false | some n ↦ ext.fold n == ext.fold name ]

  abbrev pub kid_row : Db → ℕ → Text → String → UserRow
  kid_row db now name color = record {
    id = ext.uuid db.next_id;
    email = none;
    password_hash = none;
    role = "kid";
    theme_pref = "system";
    density_pref = "large";
    show_health_bar = false;
    show_uptime_display = default_uptime_display db;
    display_name = some name;
    avatar_color = some color;
    created_at = now;
  }

  unfoldable pub insert_kid : ℕ → Text → String → Db → Result StoreErr User × Db
  unfolding scan_user
  insert_kid now name color db =
      if any (has_kid_name name) db.users
      then (err kid_name_taken, db)
      else let r = kid_row db now name color in
        (ok (scan_user r), record db { users = db.users ++ r ∷ []; next_id = suc db.next_id })

  unfoldable pub create_kid : Text → String → Act StoreErr User
  unfolding statement insert_kid
  create_kid name color w = statement (insert_kid w.clock name color) w

  abbrev pub renamed : Option Text → Option String → UserRow → UserRow
  renamed name color r = record r {
    display_name = elim name [ none ↦ r.display_name | some n ↦ some n ];
    avatar_color = elim color [ none ↦ r.avatar_color | some c ↦ some c ];
  }

  -- Another kid has the name that the row `id` would take.
  abbrev pub name_collides : String → Option Text → Db → Bool
  name_collides id name db = elim name [
    | none ↦ false
    | some n ↦ any (λ r. has_kid_name n r && not (r.id == id)) db.users
  ]

  unfoldable pub update_kid_row :
      String → Option Text → Option String → Db → Result StoreErr User × Db
  unfolding scan_user
  update_kid_row id name color db = elim (find? (is_kid_row id) db.users) [
    | none ↦ (err not_found, db)
    | some r ↦ if name_collides id name db then (err kid_name_taken, db) else (
      ok (scan_user (renamed name color r)),
      record db { users = map (λ q. if is_kid_row id q then renamed name color q else q) db.users },
    )
  ]

  unfoldable pub update_kid : String → Option Text → Option String → Act StoreErr User
  unfolding statement update_kid_row
  update_kid id name color = statement (update_kid_row id name color)

unfoldable pub kid_by_id : String → Act StoreErr User
unfolding statement scan_user
kid_by_id id = query (λ db. elim (find? (is_kid_row id) db.users) [
  | none ↦ err not_found
  | some r ↦ ok (scan_user r)
])

-- The services and the categories of an account, by their ids.
abbrev pub owns_service : String → Db → String → Bool
owns_service user_id db id = any (λ s. s.id == id && s.user_id == user_id) db.services

abbrev pub owns_category : String → Db → String → Bool
owns_category user_id db id = any (λ c. c.id == id && c.user_id == user_id) db.categories

-- `ON DELETE SET NULL` of a category.
abbrev pub null_category : (String → Bool) → ServiceRow → ServiceRow
null_category gone s = record s {
  category_id = elim s.category_id [ none ↦ none | some c ↦ if gone c then none else some c ];
}

-- `DELETE FROM users` of one row, and what `ON DELETE CASCADE` and `SET NULL` make of the rows that
-- name it, or a service or a category of its own.
abbrev pub without_user : String → Db → Db
without_user id db = record db {
  users = filter (λ r. not (is_kid_row id r)) db.users;
  services =
      map (null_category (owns_category id db)) (filter (λ r. not (r.user_id == id)) db.services);
  categories = filter (λ r. not (r.user_id == id)) db.categories;
  favorites = filter (λ r. not (r.0 == id || owns_service id db r.1)) db.favorites;
  layout = filter (λ r. not (r.user_id == id || owns_service id db r.service_id)) db.layout;
  collapsed = filter (λ r. not (r.0 == id || owns_category id db r.1)) db.collapsed;
  allowed = filter (λ r. not (r.0 == id || owns_service id db r.1)) db.allowed;
  icons = filter (λ r. not (owns_service id db r.service_id)) db.icons;
  sessions = filter (λ r. not (r.1.user_id == id)) db.sessions;
}

unfoldable pub delete_kid_row : String → Db → Result StoreErr (Unit {0}) × Db
delete_kid_row id db =
    if any (is_kid_row id) db.users then (ok tt, without_user id db) else (err not_found, db)

unfoldable pub delete_kid : String → Act StoreErr (Unit {0})
unfolding statement delete_kid_row
delete_kid id = statement (delete_kid_row id)

-- `user_id = sharedOwnerSQL`: of the shared catalog; no row is where there is no admin.
unfoldable pub is_shared : Db → ServiceRow → Bool
unfolding first_admin
is_shared db s = elim (first_admin db.users) [ none ↦ false | some a ↦ s.user_id == a.id ]

-- The rows of `kid_allowed_services k JOIN services sv` of one kid, in the shared catalog.
abbrev pub shared_allowed : String → Db → List ServiceRow
shared_allowed kid_id db =
    filter (λ s. is_shared db s && contains (allowed_to kid_id db) s.id) db.services

pub record Account : Type 0 where
  pub user : User
  pub app_count : ℕ

abbrev pub role_rank : String → ℕ
role_rank role = if role == "admin" then 0 else if role == "user" then 1 else 2

abbrev pub account_before : UserRow → UserRow → Bool
account_before a b =
    ltb (role_rank a.role) (role_rank b.role)
    || (role_rank a.role == role_rank b.role && earlier a b)

unfoldable pub list_accounts : Act StoreErr (List Account)
unfolding statement scan_user is_shared sort_slice
list_accounts = query (λ db. ok (
    map (λ r. record { user = scan_user r; app_count = length (shared_allowed r.id db) })
      (sort_slice account_before db.users)))

unfoldable pub kid_service_ids : Ext → String → Act StoreErr (List String)
unfolding statement is_shared sort_slice
kid_service_ids ext kid_id = query (λ db. ok (
    map (λ s. s.id)
      (sort_slice
        (λ a b. ext.name_before a.name b.name || (a.name == b.name && is_lt (compare a.id b.id)))
        (shared_allowed kid_id db))))

-- `uniq`: the ids without their repetitions, given those seen.
unfoldable pub unique : List String → List String → List String
unique seen [] = []
unique seen (x ∷ xs) = if contains seen x then unique seen xs else x ∷ unique (x ∷ seen) xs

-- The kid's old rows, replaced by one row for each service that is named.
abbrev pub cleared : String → Db → Db
cleared kid_id db = record db { allowed = filter (λ r. not (r.0 == kid_id)) db.allowed }

abbrev pub granted : String → List String → Db → Db
granted kid_id uniq db = record db {
  allowed = db.allowed ++ map (λ s. (kid_id, s.id)) (filter (λ s. contains uniq s.id) db.services);
}

-- What the transaction does between its start and its commit.
unfoldable pub replace_kid_services : String → List String → Act StoreErr (Unit {0})
unfolding statement is_shared
replace_kid_services kid_id uniq =
    query (λ db. if any (is_kid_row kid_id) db.users then ok tt else err not_found)
    >> query (λ db. ok (length (filter (λ s. contains uniq s.id && is_shared db s) db.services)))
    >>= λ known. elim (known == length uniq) [
      | false ↦ throw unknown_service
      | true ↦
          statement (λ db. (ok tt, cleared kid_id db))
          >> statement (λ db. (ok tt, granted kid_id uniq db))
    ]

unfoldable pub set_kid_services : String → List String → Act StoreErr (Unit {0})
unfolding transaction unique replace_kid_services
set_kid_services kid_id service_ids =
    transaction (replace_kid_services kid_id (unique [] service_ids))
