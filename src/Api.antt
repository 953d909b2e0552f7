-- ===== src/Api.antt =====
-- internal/api: what every handler uses. A handler is an action that answers early by `throw` and
-- at its end by its value, both a response. The request's body comes in decoded, as `none` where
-- decoding it fails; `Text` is a list of code points, and a password the list of its bytes.
pub mod Sessions
pub mod Guards
pub mod Auth
pub mod Accounts
pub mod Catalog
pub mod Services
pub mod Library
pub mod Icons
pub mod Oidc
pub mod Categories
pub mod Settings
pub mod EnvConfig
mod Tests
use homepad_api.Base.{
  ℕ, String, Bool, true, false, List, [], ◌∷◌, Option, none, some, Result, ok, err, Text, any, map,
  trim_space, to_lower, codes, ◌==◌, text_eq, string_eq, ◌||◌, if◌then◌else◌,
}
use homepad_api.Gatus.{Status}
use homepad_api.Storage.Catalog.{Service}
use homepad_api.Session.{SessionErr, Session, Draw}
use homepad_api.Session.Pg.{PgStore}
use homepad_api.Storage.{StoreErr, Act, World, Ext, Cookie, LibraryApp}
use homepad_api.Storage.Users.{User}

-- `userView`: it holds no password hash.
pub record UserView : Type 0 where
  pub id : String
  pub email : Text
  pub role : String
  pub theme_pref : String
  pub density_pref : String
  pub show_health_bar : Bool
  pub show_uptime_display : Bool
  pub display_name : Text
  pub avatar_color : String

unfoldable pub new_user_view : User → UserView
new_user_view u = record {
  id = u.id;
  email = u.email;
  role = u.role;
  theme_pref = u.theme_pref;
  density_pref = u.density_pref;
  show_health_bar = u.show_health_bar;
  show_uptime_display = u.show_uptime_display;
  display_name = u.display_name;
  avatar_color = u.avatar_color;
}

pub record AccountView : Type 0 where
  pub id : String
  pub name : Text
  pub role : String
  pub last_seen_at : Option ℕ
  pub email : Text
  pub avatar_color : String
  pub app_count : Option ℕ
  pub device_count : Option ℕ

pub record DeviceView : Type 0 where
  pub id : String
  pub user_agent : List ℕ
  pub created_at : ℕ
  pub last_seen_at : ℕ

-- `serviceView`; the uptimes are the numbers' text in JSON, and a list that is nil is the empty one.
pub record ServiceView : Type 0 where
  pub service : Service
  pub status : Status
  pub favorite : Bool
  pub icon_light : Bool
  pub icon_dark : Bool
  pub uptime_checks : List (Bool × ℕ)
  pub uptime_windows : List (String × String)
  pub response_time_ms : Option ℕ

-- `libraryOfferView`
pub record OfferView : Type 0 where
  pub app : LibraryApp
  pub added : Bool

pub record CategoryView : Type 0 where
  pub id : String
  pub name : Text
  pub sort_index : ℕ
  pub grid_width : ℕ

pub record EnvConfigEntry : Type 0 where
  pub key : String
  pub value : Text

pub data Body : Type 0 where
  no_body : Body
  message : String → Body
  user : UserView → Body
  account : AccountView → Body
  accounts : List AccountView → Body
  service_ids : List String → Body
  devices : List DeviceView → Body
  services : List ServiceView → Body
  service : ServiceView → Body
  library : List OfferView → Body
  offer : OfferView → Body
  icon_png : Text → List ℕ → Body
  icon_unchanged : Text → Body
  icon_url : String → Body
  redirect_to : Text → Body
  oidc_config : Bool → Body
  env_config : List EnvConfigEntry → Body
  categories : List CategoryView → Body
  category : CategoryView → Body
  statuses : ℕ → List (String × Status) → Body
  collapsed : List String → Body
  config : Bool → ℕ → Body
  refreshed : ℕ → Body
  unreachable : ℕ → Body

pub record Response : Type 0 where
  pub status : ℕ
  pub body : Body

abbrev pub Handler : Type 0
Handler = Act Response Response

-- `http.Error` and `writeJSON`
abbrev pub error : String → ℕ → Response
error text status = record { status = status; body = message text }

abbrev pub write_json : ℕ → Body → Response
write_json status body = record { status = status; body = body }

abbrev pub internal_error : Response
internal_error = error "internal error" 500

abbrev pub no_content : Response
no_content = write_json 204 no_body

pub record Request : Type 0 where
  pub cookie : Option String
  pub id : String
  pub sid : String
  pub user_agent : List ℕ

pub data RegistrationMode : Type 0 where
  registration_closed registration_open : RegistrationMode

unfoldable pub parse_registration_mode : Text → RegistrationMode × Bool
unfolding trim_space to_lower
parse_registration_mode raw =
    let mode = map to_lower (trim_space raw) in
    if mode == codes "open"
    then (registration_open, true)
    else (registration_closed, mode == codes "invite_only" || mode == codes "invite-only")

pub record Server : Type 0 where
  pub ext : Ext
  pub cookie_secure : Bool
  pub registration : RegistrationMode

-- The value that an action yields, or its error, with neither ending the handler.
abbrev pub attempt : {E F A : Type 0} → Act E A → Act F (Result E A)
attempt m w = (ok (m w).0, (m w).1)

-- `if err != nil { …; return }`
abbrev pub or_fail : {E A : Type 0} → Act E A → (E → Response) → Act Response A
or_fail m answer w = elim (m w).0 [ ok a ↦ (ok a, (m w).1) | err e ↦ (err (answer e), (m w).1) ]

-- What the client gets, and the world after.
abbrev pub response_of : Result Response Response → Response
response_of (ok r) = r
response_of (err r) = r

abbrev pub serve : Handler → World → Response × World
serve h w = (response_of (h w).0, (h w).1)

-- The session store of a world: a session's user must be a row of `users`.
abbrev pub pg_of : World → PgStore
pg_of w = record {
  rows = w.db.sessions;
  faults = w.faults;
  known = λ id. any (λ r. r.id == id) w.db.users;
}

-- One call of the session store, on the table of the database.
abbrev pub session_call :
    {A : Type 0} → (PgStore → Result SessionErr A × PgStore) → Act SessionErr A
session_call call w =
    let p = pg_of w in
    let after = (call p).1 in
    ((call p).0, record w { db = record w.db { sessions = after.rows }; faults = after.faults })

abbrev pub set_cookie : Cookie → Act Response (Unit {0})
set_cookie c w = (ok tt, record w { cookies = c ∷ w.cookies })
