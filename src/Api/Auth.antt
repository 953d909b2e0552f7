-- ===== src/Api/Auth.antt =====
-- internal/api/auth.go: registration, sign-in, sign-out and the account's own settings.
pub mod Bodies
pub mod Registration
pub mod Login
pub mod Profile
pub mod KidProfile
use homepad_api.Base.{
  ℕ, String, Bool, true, false, not, ◌&&◌, ◌||◌, List, [], ◌∷◌, Option, none, some, Result, ok, err,
  Text, ◌==◌, nat_eq, text_eq, string_eq, ltb, length, trim_space, any, if◌then◌else◌,
}
use homepad_api.Session.Pg
use homepad_api.Storage.{StoreErr, email_taken, Act, World, pure, throw, ◌>>=◌, ◌>>◌, statement}
use homepad_api.Storage.Users.{
  User, count_users, create_user, user_by_email, set_theme_pref, set_density_pref,
  set_show_health_bar, set_show_uptime_display,
}
use homepad_api.Storage.Kids.{is_adult_role}
use homepad_api.Api.{
  Response, Handler, Request, Server, registration_open, registration_closed, RegistrationMode,
  attempt, or_fail, error, write_json, internal_error, set_cookie, no_body, user, new_user_view,
}
use homepad_api.Api.Sessions.{require_user, start_session, destroy_session, cleared_cookie}

pub record Credentials : Type 0 where
  pub email : Text
  pub password : Text

abbrev min_password_len : ℕ
min_password_len = 8

-- `if cond { http.Error(…); return }`
abbrev pub refuse_if : Bool → Response → Act Response (Unit {0})
refuse_if c r = if c then throw r else pure tt

unfoldable pub decode_credentials : Server → Option Credentials → Act Response Credentials
unfolding trim_space
decode_credentials server none = throw (error "invalid JSON body" 400)
decode_credentials server (some c) =
    let email = trim_space c.email in
    refuse_if (email == [] || c.password == []) (error "email and password are required" 400)
    >> refuse_if (not (server.ext.parses_address email)) (error "invalid email address" 400)
    >> refuse_if (ltb (length c.password) min_password_len)
        (error "password must be at least 8 characters" 400)
    >> pure (record { email = email; password = c.password })

abbrev is_open : RegistrationMode → Bool
is_open registration_open = true
is_open registration_closed = false

-- The role of the account that registers: the first is the admin, the others need an open
-- registration.
unfoldable pub role_for : RegistrationMode → ℕ → Result Response String
role_for mode count =
    if count == 0
    then ok "admin"
    else if is_open mode
    then ok "user"
    else err (error "registration is invite-only" 403)

abbrev create_failure : StoreErr → Response
create_failure e = elim e [
  | email_taken ↦ error "email already registered" 409
  | _ ↦ internal_error
]

-- What follows the decoding of the body.
unfoldable pub register : Server → Credentials → Handler
unfolding role_for count_users create_user new_user_view
register server c = or_fail count_users (λ e. internal_error) >>= λ count.
    elim (role_for server.registration count) [
      | err r ↦ throw r
      | ok role ↦ elim (server.ext.bcrypt_hash c.password) [
        | none ↦ throw internal_error
        | some hash ↦ or_fail (create_user server.ext c.email hash role) create_failure >>= λ u.
            pure (write_json 201 (user (new_user_view u)))
      ]
    ]

unfoldable pub handle_register : Server → Option Credentials → Handler
unfolding decode_credentials register
handle_register server body = decode_credentials server body >>= register server

-- The account that an e-mail and a password sign in.
unfoldable pub accepts : Server → Credentials → User → Bool
unfolding is_adult_role
accepts server c u =
    is_adult_role u.role
    && not (u.password_hash == "")
    && server.ext.bcrypt_ok u.password_hash c.password

unfoldable pub login : Server → Request → Credentials → Handler
unfolding user_by_email accepts start_session new_user_view
login server req c =
    or_fail (user_by_email server.ext c.email) (λ e. error "invalid email or password" 401) >>= λ u.
    refuse_if (not (accepts server c u)) (error "invalid email or password" 401)
    >> start_session server req u
    >> pure (write_json 200 (user (new_user_view u)))

unfoldable pub handle_login : Server → Request → Option Credentials → Handler
unfolding decode_credentials login
handle_login server req body = decode_credentials server body >>= login server req

unfoldable pub handle_logout : Server → Request → Handler
unfolding Pg.destroy
handle_logout server req =
    elim req.cookie [
      | none ↦ pure 204
      | some token ↦ attempt (destroy_session server token) >>= λ r. elim r [
        | ok u ↦ pure 204
        | err e ↦ pure 500
      ]
    ]
    >>= λ status.
        set_cookie (cleared_cookie server.cookie_secure) >> pure (write_json status no_body)

unfoldable pub handle_me : Server → Request → Handler
unfolding require_user new_user_view
handle_me server req =
    require_user server req >>= λ u. pure (write_json 200 (user (new_user_view u)))

unfoldable pub valid_density_pref : String → Bool
valid_density_pref v = v == "large" || v == "compact" || v == "list"

unfoldable pub valid_theme_pref : String → Bool
valid_theme_pref v = v == "system" || v == "light" || v == "dark"

-- The body of `PATCH /api/me`: its four fields, and the keys that stand in it.
pub record PatchMe : Type 0 where
  pub keys : List String
  pub theme_pref : Option String
  pub density_pref : Option String
  pub show_health_bar : Option Bool
  pub show_uptime_display : Option Bool

abbrev is_some {ℓ} : {A : Type ℓ} → Option A → Bool
is_some none = false
is_some (some a) = true

-- A field that is present and fails its test.
abbrev is_bad : (String → Bool) → Option String → Bool
is_bad valid none = false
is_bad valid (some v) = not (valid v)

-- `if body.F != nil { store.SetF(…); u.F = … }`
abbrev pub write_field {ℓ} :
    {A : Type ℓ}
    → Option A
    → (A → Act StoreErr (Unit {0}))
    → (A → User → User)
    → User
    → Act Response User
write_field none set update u = pure u
write_field (some a) set update u = or_fail (set a) (λ e. internal_error) >> pure (update a u)

-- What is checked before anything is written.
unfoldable pub check_patch : User → PatchMe → Act Response (Unit {0})
unfolding is_adult_role valid_theme_pref valid_density_pref
check_patch u b =
    refuse_if (not (is_adult_role u.role) && any (λ k. not (k == "themePref")) b.keys)
      (error "kid accounts can only change themePref" 403)
    >> refuse_if
        (not (
          is_some b.theme_pref
          || is_some b.density_pref
          || is_some b.show_health_bar
          || is_some b.show_uptime_display))
        (error "body must include themePref, densityPref, showHealthBar or showUptimeDisplay" 400)
    >> refuse_if (is_bad valid_theme_pref b.theme_pref)
        (error "themePref must be one of system, light, dark" 400)
    >> refuse_if (is_bad valid_density_pref b.density_pref)
        (error "densityPref must be one of large, compact, list" 400)

unfoldable pub write_theme : PatchMe → String → User → Act Response User
unfolding set_theme_pref
write_theme b id = write_field b.theme_pref (set_theme_pref id) (λ v u. record u { theme_pref = v })

unfoldable pub write_density : PatchMe → String → User → Act Response User
unfolding set_density_pref
write_density b id =
    write_field b.density_pref (set_density_pref id) (λ v u. record u { density_pref = v })

unfoldable pub write_health_bar : PatchMe → String → User → Act Response User
unfolding set_show_health_bar
write_health_bar b id =
    write_field b.show_health_bar (set_show_health_bar id) (λ v u. record u { show_health_bar = v })

unfoldable pub write_uptime : PatchMe → String → User → Act Response User
unfolding set_show_uptime_display
write_uptime b id =
    write_field b.show_uptime_display (set_show_uptime_display id)
      (λ v u. record u { show_uptime_display = v })

unfoldable pub write_patch : PatchMe → User → Act Response User
unfolding write_theme write_density write_health_bar write_uptime
write_patch b u =
    write_theme b u.id u
    >>= write_density b u.id
    >>= write_health_bar b u.id
    >>= write_uptime b u.id

unfoldable pub handle_patch_me : Server → Request → Option PatchMe → Handler
unfolding require_user check_patch write_patch new_user_view
handle_patch_me server req body = require_user server req >>= λ u. elim body [
  | none ↦ throw (error "invalid JSON body" 400)
  | some b ↦
      check_patch u b >> write_patch b u >>= λ u'. pure (write_json 200 (user (new_user_view u')))
]
