-- ===== src/Api/Tests.antt =====
-- Requests of the sample household's admin and kid.
use homepad_api.Base.{
  to_lower, Bool, map, ◌≡◌, refl, sym, ◌∙◌, String, true, false, [], ◌∷◌, Option, none, some, ◌==◌,
  string_eq, text_eq, ok, err, is_ok, codes, All,
}
use mathlib.Core.Path.{subst}
use homepad_api.Samples.{ext, kim, chess, start}
use homepad_api.Session.{clock_now, touch_due_at}
use homepad_api.Storage.{UserRow}
use homepad_api.Storage.Users.{User, scan_user}
use homepad_api.Storage.Catalog.{scan_service}
use homepad_api.Storage.Kids.{is_adult_role, allowed_to}
use homepad_api.Api.{
  Request, Server, registration_open, registration_closed, serve, error, write_json, user,
  new_user_view, services, statuses, ServiceView,
}
use homepad_api.Api.Sessions.{current_user}
use homepad_api.Api.Sessions.Authentication.{session_user, SameRows, current_user_lem}
use homepad_api.Api.Guards.{Route, admin_only, routes}
use homepad_api.Api.Guards.WriteLock.{is_adult_write, RefusesKids, routes-RefusesKids}
use homepad_api.Api.Accounts.{handle_sign_in_here}
use homepad_api.Api.Accounts.AdminOnly.{Bodies, admin_handlers, Refuses, admin_handlers-Refuses}
use homepad_api.Api.Accounts.SignInHere.{Swapped, handle_sign_in_here-Swapped}
use homepad_api.Api.Auth.{
  Credentials, PatchMe, decode_credentials, handle_register, handle_login, handle_patch_me,
  check_patch,
}
use homepad_api.Api.Auth.Registration.{
  has_adult, Registered, handle_register-closed, handle_register-Registered,
}
use homepad_api.Api.Auth.Login.{row_of, handle_login-adult, handle_login-fails}
use homepad_api.Api.Auth.KidProfile.{rest_of, HasKeys, ThemeApart, handle_patch_me-kid}
use homepad_api.Api.Catalog.{Snap, service_view, handle_list_services, handle_status}
use homepad_api.Api.Catalog.KidStatus.{OfService, handle_status-OfService}
use homepad_api.Api.Catalog.KidFilter.{Allowed, handle_list_services-Allowed}
use homepad_api.Api.Settings.{SettingsPatch, Running, handle_patch_system_settings}
use homepad_api.Api.Settings.Threshold.{bounded, handle_patch_system_settings-bounded}
use homepad_api.Gatus.{new_poller, EndpointStatus, up, down}
use homepad_api.Base.Int.{pos}

abbrev server : Server
server = record { ext = ext; cookie_secure = true; registration = registration_closed }

abbrev of_kim : Request
of_kim = record { cookie = some "tk"; id = "kim"; sid = "h2"; user_agent = [] }

abbrev of_ada : Request
of_ada = record { cookie = some "ta"; id = "kim"; sid = "h2"; user_agent = [] }

kim_found : (current_user server of_kim start).0 ≡ ok (some (scan_user kim))
unfolding current_user clock_now touch_due_at
kim_found = refl

current_user_lem_example :
    (start.faults ≡ []
      → (current_user server of_kim start).0 ≡ ok (session_user server of_kim start))
    × ((u : User)
        → (current_user server of_kim start).0 ≡ ok (some u)
        → session_user server of_kim start ≡ some u)
    × SameRows (current_user server of_kim start).1.db start.db
current_user_lem_example = current_user_lem server of_kim start

abbrev delete_route : Route
delete_route = record { method = "DELETE"; path = "/api/admin/kids/{id}"; class = admin_only }

routes-RefusesKids_example :
    All (λ r. is_adult_write r ≡ true → RefusesKids server r) (routes false)
routes-RefusesKids_example = routes-RefusesKids server false

abbrev bodies : Bodies
bodies = record {
  kid = none;
  has_password = false;
  ids = some (some []);
  name = none;
  category = none;
  order = none;
  snap = record { as_of = 5; statuses = [] };
  service = none;
  update = none;
  app = none;
  app_update = none;
  into = some none;
  variant = "light";
  png = none;
  web = record {
    parse = λ t. none;
    is_abs = λ u. true;
    host = λ u. u;
    resolve = λ u t. none;
    favicon_of = λ u. u;
    get = λ u. none;
    link_tags = λ page. [];
  };
  getenv = λ k. [];
}

kim_stands : session_user server of_kim start ≡ some (scan_user kim)
unfolding session_user clock_now
kim_stands = refl

abbrev NotAdmin : Option User → Type 0
NotAdmin none = Unit {0}
NotAdmin (some u) = (u.role == "admin") ≡ false

kim_no_admin : (u : User) → session_user server of_kim start ≡ some u → (u.role == "admin") ≡ false
unfolding scan_user
kim_no_admin u h = subst NotAdmin (sym kim_stands ∙ h) refl

admin_handlers-Refuses_example :
    All (Refuses server of_kim start) (admin_handlers server of_kim bodies)
admin_handlers-Refuses_example = admin_handlers-Refuses server of_kim start kim_no_admin bodies

swapped : is_ok (handle_sign_in_here server of_ada start).0 ≡ true
unfolding handle_sign_in_here clock_now touch_due_at
swapped = refl

handle_sign_in_here-Swapped_example :
    (token : String) × (admin : User) × (kid : User) × (of_ada.cookie ≡ some token)
    × (session_user server of_ada start ≡ some admin)
    × ((admin.role == "admin") ≡ true)
    × (kid.id ≡ of_ada.id)
    × (kid.role ≡ "kid")
    × Swapped server kid token
        (current_user server of_ada start).1
        (handle_sign_in_here server of_ada start).1
handle_sign_in_here-Swapped_example = handle_sign_in_here-Swapped server of_ada start swapped

abbrev typed : Credentials
typed = record { email = codes " ada@example.org"; password = codes "correct horse" }

abbrev trimmed : Credentials
trimmed = record { email = codes "ada@example.org"; password = codes "correct horse" }

typed_decoded : (decode_credentials server (some typed) start).0 ≡ ok trimmed
unfolding decode_credentials
typed_decoded = refl

handle_register-closed_example :
    (is_ok (handle_register server (some typed) start).0 ≡ false)
    × ((handle_register server (some typed) start).1.db ≡ start.db)
handle_register-closed_example = handle_register-closed server (some typed) start refl refl

abbrev open_server : Server
open_server = record server { registration = registration_open }

abbrev newcomer : Credentials
newcomer = record { email = codes "new@example.org"; password = codes "correct horse" }

registered : is_ok (handle_register open_server (some newcomer) start).0 ≡ true
unfolding handle_register
registered = refl

handle_register-Registered_example :
    (c : Credentials) × ((decode_credentials open_server (some newcomer) start).0 ≡ ok c)
    × (has_adult start.db ≡ true → open_server.registration ≡ registration_open)
    × Registered open_server c start (handle_register open_server (some newcomer) start).1
handle_register-Registered_example =
    handle_register-Registered open_server (some newcomer) start registered

logged_in : is_ok (handle_login server of_ada (some typed) start).0 ≡ true
unfolding handle_login clock_now
logged_in = refl

handle_login-adult_example :
    (c : Credentials) × (r : UserRow) × ((decode_credentials server (some typed) start).0 ≡ ok c)
    × (row_of server c start ≡ some r)
    × (is_adult_role r.role ≡ true)
    × (server.ext.bcrypt_ok (scan_user r).password_hash c.password ≡ true)
    × ((handle_login server of_ada (some typed) start).0
        ≡ ok (write_json 200 (user (new_user_view (scan_user r)))))
handle_login-adult_example = handle_login-adult server of_ada (some typed) start logged_in

not_logged_in : is_ok (handle_login server of_ada (some newcomer) start).0 ≡ false
unfolding handle_login
not_logged_in = refl

handle_login-fails_example :
    ((handle_login server of_ada (some newcomer) start).1.db ≡ start.db)
    × ((handle_login server of_ada (some newcomer) start).1.cookies ≡ start.cookies)
handle_login-fails_example = handle_login-fails server of_ada (some newcomer) start not_logged_in

-- A kid's patch of its theme and its density.
abbrev mixed : PatchMe
mixed = record {
  keys = "themePref" ∷ "densityPref" ∷ [];
  theme_pref = some "dark";
  density_pref = some "list";
  show_health_bar = none;
  show_uptime_display = none;
}

abbrev dark : PatchMe
dark = record {
  keys = "themePref" ∷ [];
  theme_pref = some "dark";
  density_pref = none;
  show_health_bar = none;
  show_uptime_display = none;
}

mixed_refused :
    (check_patch (scan_user kim) mixed (current_user server of_kim start).1).0
    ≡ err (error "kid accounts can only change themePref" 403)
unfolding check_patch scan_user
mixed_refused = refl

dark_passes : (check_patch (scan_user kim) dark (current_user server of_kim start).1).0 ≡ ok tt
unfolding check_patch scan_user
dark_passes = refl

-- Equality of names up to the case of their letters.
abbrev same_letters : String → String → Bool
same_letters a b = map to_lower (codes a) == map to_lower (codes b)

-- A kid's patch of its theme and its density, by a key that only the folding finds.
abbrev shouted : PatchMe
shouted = record {
  keys = "themePref" ∷ "DENSITYPREF" ∷ [];
  theme_pref = some "dark";
  density_pref = some "list";
  show_health_bar = none;
  show_uptime_display = none;
}

shouted_refused :
    (check_patch (scan_user kim) shouted (current_user server of_kim start).1).0
    ≡ err (error "kid accounts can only change themePref" 403)
unfolding check_patch scan_user
shouted_refused = refl

shouted-HasKeys : HasKeys same_letters shouted
unfolding to_lower
shouted-HasKeys = (refl, tt, tt)

same_letters-ThemeApart : ThemeApart same_letters
unfolding to_lower
same_letters-ThemeApart = (refl, refl, refl)

handle_patch_me-kid_example :
    rest_of (handle_patch_me server of_kim (some shouted) start).1.db ≡ rest_of start.db
unfolding is_adult_role scan_user
handle_patch_me-kid_example =
    handle_patch_me-kid same_letters server of_kim shouted start (scan_user kim) kim_found refl
      same_letters-ThemeApart shouted-HasKeys

abbrev snap : Snap
snap = record { as_of = 5; statuses = [] }

abbrev tile : ServiceView
tile = service_view snap ("chess" ∷ []) [] (scan_service start.db chess)

listed : (serve (handle_list_services server snap of_kim) start).0.body ≡ services (tile ∷ [])
unfolding handle_list_services clock_now touch_due_at
listed = refl

handle_list_services-Allowed_example :
    All {A = ServiceView}
      (λ v. Allowed (allowed_to (scan_user kim).id start.db) v.service)
      (tile ∷ [])
unfolding is_adult_role scan_user
handle_list_services-Allowed_example =
    handle_list_services-Allowed server snap of_kim start (scan_user kim) (tile ∷ []) kim_found refl
      listed

abbrev running : Running
running = new_poller 1000000000 5

abbrev patch : SettingsPatch
patch = record { show_uptime_display = none; status_degraded_ms = some (pos 600000) }

handle_patch_system_settings-bounded_example :
    bounded (handle_patch_system_settings server running of_ada (some patch) start).1.db.settings
    ≡ true
handle_patch_system_settings-bounded_example =
    handle_patch_system_settings-bounded server running of_ada (some patch) start refl

abbrev games : EndpointStatus String
games = record {
  key = "games_chess";
  status = up;
  last_result_at = none;
  results = [];
  uptime = [];
}

abbrev printer : EndpointStatus String
printer = record {
  key = "office_printer";
  status = down;
  last_result_at = none;
  results = [];
  uptime = [];
}

abbrev both : Snap
both = record { as_of = 5; statuses = ("games_chess", games) ∷ ("office_printer", printer) ∷ [] }

status_shown :
    (serve (handle_status server both of_kim) start).0.body ≡ statuses 5 (("games_chess", up) ∷ [])
unfolding handle_status clock_now touch_due_at
status_shown = refl

handle_status-OfService_example :
    All
      (OfService (allowed_to (scan_user kim).id start.db) start.db.services)
      (("games_chess", up) ∷ [])
unfolding is_adult_role scan_user
handle_status-OfService_example =
    handle_status-OfService server both of_kim start (scan_user kim) 5 (("games_chess", up) ∷ [])
      kim_found refl status_shown
