-- ===== src/Storage/Users.antt =====
-- The accounts of internal/storage/storage.go.
use homepad_api.Base.{
  ℕ, suc, String, Bool, true, false, not, ◌&&◌, ◌||◌, List, [], ◌∷◌, ◌++◌, Option, none, some, ◌==◌,
  nat_eq, string_eq, text_eq, ltb, if◌then◌else◌, any, find?, filter, length, map, ok, err, Text,
}
use Prim.Native.String.{compare}
use text.Mathlib.Text.{is_lt}
use homepad_api.Storage.{StoreErr, not_found, email_taken, UserRow, Db, Act, Ext, statement, query}

pub record User : Type 0 where
  pub id : String
  pub email : Text
  pub password_hash : String
  pub role : String
  pub theme_pref : String
  pub density_pref : String
  pub show_health_bar : Bool
  pub show_uptime_display : Bool
  pub display_name : Text
  pub avatar_color : String

abbrev pub coalesce {ℓ} : {A : Type ℓ} → Option A → A → A
coalesce none d = d
coalesce (some a) d = a

-- `userColumns` and `scanUser`
unfoldable pub scan_user : UserRow → User
scan_user r = record {
  id = r.id;
  email = coalesce r.email [];
  password_hash = coalesce r.password_hash "";
  role = r.role;
  theme_pref = r.theme_pref;
  density_pref = r.density_pref;
  show_health_bar = r.show_health_bar;
  show_uptime_display = r.show_uptime_display;
  display_name = coalesce r.display_name [];
  avatar_color = coalesce r.avatar_color "";
}

-- `(created_at, id)` before
unfoldable pub earlier : UserRow → UserRow → Bool
earlier a b =
    ltb a.created_at b.created_at || (a.created_at == b.created_at && is_lt (compare a.id b.id))

abbrev is_admin_row : UserRow → Bool
is_admin_row r = r.role == "admin"

-- `WHERE role = 'admin' ORDER BY created_at, id LIMIT 1`
unfoldable pub first_admin : List UserRow → Option UserRow
unfolding earlier
first_admin [] = none
first_admin (r ∷ rs) = elim (first_admin rs) [
  | none ↦ if is_admin_row r then some r else none
  | some a ↦ if is_admin_row r && not (earlier a r) then some r else some a
]

unfoldable pub shared_catalog_owner_id : Act StoreErr String
unfolding statement first_admin
shared_catalog_owner_id =
    query (λ db. elim (first_admin db.users) [ none ↦ err not_found | some r ↦ ok r.id ])

unfoldable pub count_users : Act StoreErr ℕ
unfolding statement
count_users = query (λ db. ok (length (filter (λ r. not (r.role == "kid")) db.users)))

-- The default of `show_uptime_display` for a new account.
abbrev pub default_uptime_display : Db → Bool
default_uptime_display db = elim db.settings [ none ↦ true | some s ↦ s.show_uptime_display ]

module _ (ext : Ext) where
  abbrev pub has_email : Text → UserRow → Bool
  has_email email r = elim r.email [ none ↦ false | some e ↦ ext.fold e == ext.fold email ]

  abbrev pub adult_row : Db → ℕ → Text → String → String → UserRow
  adult_row db now email password_hash role = record {
    id = ext.uuid db.next_id;
    email = some email;
    password_hash = some password_hash;
    role = role;
    theme_pref = "system";
    density_pref = "compact";
    show_health_bar = true;
    show_uptime_display = default_uptime_display db;
    display_name = none;
    avatar_color = none;
    created_at = now;
  }

  unfoldable pub create_user : Text → String → String → Act StoreErr User
  unfolding statement scan_user
  create_user email password_hash role w =
      statement
        (λ db.
          if any (has_email email) db.users
          then (err email_taken, db)
          else let r = adult_row db w.clock email password_hash role in
            (ok (scan_user r), record db { users = db.users ++ r ∷ []; next_id = suc db.next_id }))
        w

  -- `WHERE email = $1 AND role <> 'kid'`
  unfoldable pub user_by_email : Text → Act StoreErr User
  unfolding statement scan_user
  user_by_email email = query (λ db.
      elim (find? (λ r. has_email email r && not (r.role == "kid")) db.users) [
        | none ↦ err not_found
        | some r ↦ ok (scan_user r)
      ])

abbrev pub find_user : String → Db → Option UserRow
find_user id db = find? (λ r. r.id == id) db.users

unfoldable pub user_by_id : String → Act StoreErr User
unfolding statement scan_user
user_by_id id =
    query (λ db. elim (find_user id db) [ none ↦ err not_found | some r ↦ ok (scan_user r) ])

-- `UPDATE users SET … WHERE p`
abbrev pub update_users : (UserRow → Bool) → (UserRow → UserRow) → List UserRow → List UserRow
update_users p f rs = map (λ r. if p r then f r else r) rs

-- The four setters: one row by id, `ErrNotFound` where there is none.
unfoldable pub set_user : (UserRow → UserRow) → String → Act StoreErr (Unit {0})
unfolding statement
set_user f id = statement (λ db.
    if any (λ r. r.id == id) db.users
    then (ok tt, record db { users = update_users (λ r. r.id == id) f db.users })
    else (err not_found, db))

unfoldable pub set_theme_pref : String → String → Act StoreErr (Unit {0})
unfolding set_user
set_theme_pref id pref = set_user (λ r. record r { theme_pref = pref }) id

unfoldable pub set_density_pref : String → String → Act StoreErr (Unit {0})
unfolding set_user
set_density_pref id pref = set_user (λ r. record r { density_pref = pref }) id

unfoldable pub set_show_health_bar : String → Bool → Act StoreErr (Unit {0})
unfolding set_user
set_show_health_bar id show = set_user (λ r. record r { show_health_bar = show }) id

unfoldable pub set_show_uptime_display : String → Bool → Act StoreErr (Unit {0})
unfolding set_user
set_show_uptime_display id show = set_user (λ r. record r { show_uptime_display = show }) id
