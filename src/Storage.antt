-- ===== src/Storage.antt =====
-- internal/storage: the rows of migrations/*.sql, and the store's methods as actions on them.
-- A statement is translated from its SQL; it fails where the next of `faults` is `true` (the
-- database cannot be reached). An id that is not a UUID names no row: the source maps Postgres's
-- error 22P02 to what it answers for an id without a row, so the two are one here. An id is its
-- canonical text.
pub mod Users
pub mod Kids
pub mod Catalog
pub mod Categories
pub mod Services
pub mod Icons
pub mod Library
pub mod Settings
pub mod Laws
pub mod References
mod Tests
use homepad_api.Base.{
  ℕ, String, Bool, true, false, List, [], ◌∷◌, Option, none, some, Result, ok, err, Text,
}
use homepad_api.Session.{Draw}
use homepad_api.Session.Memory.{Sessions}

pub data StoreErr : Type 0 where
  not_found email_taken slug_taken name_taken category_not_found kid_name_taken : StoreErr
  unknown_service failed : StoreErr

-- A row of `users`; a kid's has neither e-mail nor password.
pub record UserRow : Type 0 where
  pub id : String
  pub email : Option Text
  pub password_hash : Option String
  pub role : String
  pub theme_pref : String
  pub density_pref : String
  pub show_health_bar : Bool
  pub show_uptime_display : Bool
  pub display_name : Option Text
  pub avatar_color : Option String
  pub created_at : ℕ

pub record ServiceRow : Type 0 where
  pub id : String
  pub user_id : String
  pub slug : Text
  pub name : Text
  pub description : Text
  pub url : Text
  pub icon : Text
  pub gatus_key : Option String
  pub category_id : Option String
  pub source_library_id : Option String
  pub click_action : String

pub record CategoryRow : Type 0 where
  pub id : String
  pub user_id : String
  pub name : Text
  pub sort_index : ℕ
  pub grid_width : ℕ

pub record LayoutRow : Type 0 where
  pub user_id : String
  pub service_id : String
  pub sort_index : ℕ

-- A row of `library_apps`, an offer of the App Library.
pub record LibraryApp : Type 0 where
  pub id : String
  pub name : Text
  pub url : Text
  pub icon : Text
  pub description : Text
  pub suggested_category : Text
  pub sort_index : ℕ

-- A row of `service_icons`.
pub record IconRow : Type 0 where
  pub service_id : String
  pub variant : String
  pub bytes : List ℕ
  pub width : ℕ
  pub height : ℕ
  pub etag : Text

pub record SystemSettings : Type 0 where
  pub show_uptime_display : Bool
  pub status_degraded_ms : Option ℕ

pub record Db : Type 0 where
  pub users : List UserRow
  pub services : List ServiceRow
  pub categories : List CategoryRow
  pub favorites : List (String × String)
  pub layout : List LayoutRow
  pub collapsed : List (String × String)
  pub allowed : List (String × String)
  pub icons : List IconRow
  pub library : List LibraryApp
  pub settings : Option SystemSettings
  pub sessions : Sessions
  pub next_id : ℕ

pub record Cookie : Type 0 where
  pub value : String
  pub max_age : Option ℕ
  pub secure : Bool

-- What an action works on: the database, the faults to come, the clock, the random draws to come,
-- and the `Set-Cookie` headers of the response that is being written, the last one first.
pub record World : Type 0 where
  pub db : Db
  pub faults : List Bool
  pub clock : ℕ
  pub draws : List Draw
  pub cookies : List Cookie

-- A method that returns an error or a value.
abbrev pub Act : Type 0 → Type 0 → Type 0
Act E A = World → Result E A × World

module _ {E : Type 0} where
  abbrev pub pure : {A : Type 0} → A → Act E A
  pure a w = (ok a, w)

  abbrev pub throw : {A : Type 0} → E → Act E A
  throw e w = (err e, w)

  infixl 5 ◌>>=◌ ◌>>◌
  abbrev pub ◌>>=◌ : {A B : Type 0} → Act E A → (A → Act E B) → Act E B
  ◌>>=◌ m f w = elim (m w).0 [ ok a ↦ f a (m w).1 | err e ↦ (err e, (m w).1) ]

  abbrev pub ◌>>◌ : {B : Type 0} → Act E (Unit {0}) → Act E B → Act E B
  m >> k = m >>= λ _. k

-- One statement: it fails and changes nothing, or it reads and writes the database.
unfoldable pub statement : {A : Type 0} → (Db → Result StoreErr A × Db) → Act StoreErr A
statement q w = elim w.faults [
  | true ∷ fs ↦ (err failed, record w { faults = fs })
  | false ∷ fs ↦ ((q w.db).0, record w { db = (q w.db).1; faults = fs })
  | [] ↦ ((q w.db).0, record w { db = (q w.db).1 })
]

-- A statement that only reads.
abbrev pub query : {A : Type 0} → (Db → Result StoreErr A) → Act StoreErr A
query q = statement (λ db. (q db, db))

-- A statement that touches no row: `Begin`, `Commit`, `Ping`, and a lock.
abbrev pub no_rows : Act StoreErr (Unit {0})
no_rows = query (λ db. ok tt)

-- `Begin … Commit` with the deferred `Rollback`: an error undoes what was written.
unfoldable pub transaction : {A : Type 0} → Act StoreErr A → Act StoreErr A
unfolding statement
transaction m w =
    let r = (no_rows >> m >>= λ a. no_rows >> pure a) w in
    elim r.0 [ ok a ↦ (ok a, r.1) | err e ↦ (err e, record r.1 { db = w.db }) ]

-- What the model takes from outside the sources: the case folding of Postgres (`citext` and
-- `lower`), its order of names, its random ids, bcrypt, sha256, `mail.ParseAddress` and the width
-- and the height that `png.DecodeConfig` reads.
pub record Ext : Type 0 where
  pub fold : Text → Text
  pub name_before : Text → Text → Bool
  pub uuid : ℕ → String
  pub bcrypt_hash : Text → Option String
  pub bcrypt_ok : String → Text → Bool
  pub sha256 : String → String
  pub parses_address : Text → Bool
  pub hex_sha256 : List ℕ → Text
  pub png_size : List ℕ → Option (ℕ × ℕ)
