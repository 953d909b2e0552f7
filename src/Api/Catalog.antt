-- ===== src/Api/Catalog.antt =====
-- internal/api/services.go and favorites.go: the catalog as a session reads it, and what a user sets
-- for itself. The snapshot of the poller is an argument.
pub mod KidFilter
pub mod KidStatus
use homepad_api.Base.{
  ℕ, ◌/◌, String, Bool, true, false, not, ◌&&◌, ◌||◌, List, [], ◌∷◌, ◌++◌, Option, none, some,
  Result, ok, err, Text, ◌==◌, nat_eq, text_eq, string_eq, ltb, length, lookup, get_last?, map,
  filter, trim_space, any, contains, if◌then◌else◌,
}
use homepad_api.Base.Int.{pos_part}
use homepad_api.Gatus.{
  Status, unknown, not_monitored, Snapshot, EndpointStatus, CheckResult, millisecond,
}
use homepad_api.Storage.{
  StoreErr, not_found, name_taken, Act, World, CategoryRow, pure, throw, ◌>>=◌, ◌>>◌, statement,
}
use homepad_api.Storage.Users.{User, shared_catalog_owner_id}
use homepad_api.Storage.Kids.{ServiceSet, allows}
use homepad_api.Storage.Catalog.{
  Service, list_services, favorite_ids, all_icons, has_icon, add_favorite, remove_favorite,
  set_layout,
}
use homepad_api.Storage.Categories.{
  list_categories, create_category, rename_category, set_category_width, set_category_order,
  delete_category, collapsed_category_ids, set_collapsed_categories,
}
use homepad_api.Api.{
  Response, Handler, Request, Server, ServiceView, CategoryView, attempt, or_fail, error,
  write_json, internal_error, no_content, services, categories, category, statuses, collapsed,
}
use homepad_api.Api.Auth.{refuse_if}
use homepad_api.Api.Sessions.{require_user, require_admin}
use homepad_api.Api.Guards.{visible_services, service_visible}

abbrev pub Snap : Type 0
Snap = Snapshot String

unfoldable pub status_for : Snap → String → Status
status_for snap gatus_key =
    if gatus_key == ""
    then not_monitored
    else elim (lookup gatus_key snap.statuses) [ none ↦ unknown | some st ↦ st.status ]

-- The entry of a service that is monitored.
abbrev entry_for : Snap → String → Option (EndpointStatus String)
entry_for snap gatus_key = if gatus_key == "" then none else lookup gatus_key snap.statuses

unfoldable pub uptime_checks_for : Snap → String → List (Bool × ℕ)
uptime_checks_for snap gatus_key = elim (entry_for snap gatus_key) [
  | none ↦ []
  | some st ↦ map (λ r. (r.success, r.timestamp)) st.results
]

unfoldable pub response_time_ms_for : Snap → String → Option ℕ
response_time_ms_for snap gatus_key = elim (entry_for snap gatus_key) [
  | none ↦ none
  | some st ↦ elim (get_last? st.results) [
    | none ↦ none
    | some last ↦
        if ltb 0 (pos_part last.duration) then some (pos_part last.duration / millisecond) else none
  ]
]

unfoldable pub uptime_windows_for : Snap → String → List (String × String)
uptime_windows_for snap gatus_key = elim (entry_for snap gatus_key) [
  | none ↦ []
  | some st ↦ st.uptime
]

-- The services of a list that a session may see.
abbrev pub keep_allowed : ServiceSet → List Service → List Service
keep_allowed vis svcs = elim vis [
  | none ↦ svcs
  | some ids ↦ filter (λ s. allows (some ids) s.id) svcs
]

unfoldable pub visible_catalog : Server → String → User → Act Response (List Service)
unfolding visible_services list_services allows
visible_catalog server owner u = visible_services u >>= λ vis.
    or_fail (list_services server.ext owner u.id) (λ e. internal_error) >>= λ svcs.
    pure (keep_allowed vis svcs)

unfoldable pub service_view : Snap → List String → List (String × String) → Service → ServiceView
unfolding status_for uptime_checks_for uptime_windows_for response_time_ms_for has_icon
service_view snap favs icons s = record {
  service = s;
  status = status_for snap s.gatus_key;
  favorite = contains favs s.id;
  icon_light = has_icon icons s.id "light";
  icon_dark = has_icon icons s.id "dark";
  uptime_checks = uptime_checks_for snap s.gatus_key;
  uptime_windows = uptime_windows_for snap s.gatus_key;
  response_time_ms = response_time_ms_for snap s.gatus_key;
}

-- The owner of the shared catalog: `none` where there is no admin, which is no failure.
unfoldable pub owner_or_none : Act Response (Option String)
unfolding shared_catalog_owner_id
owner_or_none = attempt shared_catalog_owner_id >>= λ r. elim r [
  | ok owner ↦ pure (some owner)
  | err e ↦ elim e [ not_found ↦ pure none | _ ↦ throw internal_error ]
]

unfoldable pub handle_list_services : Server → Snap → Request → Handler
unfolding require_user owner_or_none visible_catalog favorite_ids all_icons service_view
handle_list_services server snap req = require_user server req >>= λ u. owner_or_none >>= λ found.
    elim found [
      | none ↦ pure (write_json 200 (services []))
      | some owner ↦ visible_catalog server owner u >>= λ svcs.
          or_fail (favorite_ids u.id) (λ e. internal_error) >>= λ favs.
          or_fail all_icons (λ e. internal_error) >>= λ icons.
          pure (write_json 200 (services (map (service_view snap favs icons) svcs)))
    ]

-- The Gatus keys of the services that are allowed.
abbrev keys_of : ServiceSet → List Service → List String
keys_of vis svcs =
    map (λ s. s.gatus_key) (filter (λ s. not (s.gatus_key == "") && allows vis s.id) svcs)

-- `allowedKeys`: `none` is every key.
unfoldable pub allowed_keys : Server → User → Act Response (Option (List String))
unfolding visible_services owner_or_none list_services allows
allowed_keys server u = visible_services u >>= λ vis. elim vis [
  | none ↦ pure none
  | some ids ↦ owner_or_none >>= λ found. elim found [
    | none ↦ pure (some [])
    | some owner ↦ or_fail (list_services server.ext owner u.id) (λ e. internal_error) >>= λ svcs.
        pure (some (keys_of (some ids) svcs))
  ]
]

abbrev pub shows_key : Option (List String) → String → Bool
shows_key none key = true
shows_key (some keys) key = contains keys key

unfoldable pub handle_status : Server → Snap → Request → Handler
unfolding require_user allowed_keys
handle_status server snap req = require_user server req >>= λ u. allowed_keys server u >>= λ keys.
    pure (
      write_json 200 (
        statuses snap.as_of
          (map (λ e. (e.0, e.1.status)) (filter (λ e. shows_key keys e.0) snap.statuses))))

abbrev pub no_such_service : StoreErr → Response
no_such_service e = elim e [ not_found ↦ error "no such service" 404 | _ ↦ internal_error ]

unfoldable pub handle_add_favorite : Server → Request → Handler
unfolding require_user service_visible add_favorite
handle_add_favorite server req = require_user server req >>= λ u.
    service_visible u req.id "no such service"
    >> or_fail (add_favorite u.id req.id) no_such_service
    >> pure no_content

unfoldable pub handle_remove_favorite : Server → Request → Handler
unfolding require_user service_visible remove_favorite
handle_remove_favorite server req = require_user server req >>= λ u.
    service_visible u req.id "no such service"
    >> or_fail (remove_favorite u.id req.id) (λ e. internal_error)
    >> pure no_content

abbrev no_such_service_in_order : StoreErr → Response
no_such_service_in_order e = elim e [
  | not_found ↦ error "no such service in order" 404
  | _ ↦ internal_error
]

-- The body that a decoding gives, or its 400.
abbrev pub decoded : {A : Type 0} → Option A → Act Response A
decoded none = throw (error "invalid JSON body" 400)
decoded (some a) = pure a

unfoldable pub handle_update_layout : Server → Request → Option (List String) → Handler
unfolding require_user set_layout
handle_update_layout server req body = require_user server req >>= λ u. decoded body >>= λ order.
    or_fail (set_layout u.id order) no_such_service_in_order >> pure no_content
