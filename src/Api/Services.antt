-- ===== src/Api/Services.antt =====
-- internal/api/services.go: the writes of the catalog. The body of an update comes in as the update
-- that it asks for: `optionalString` tells an absent `categoryId` from one that is null.
use homepad_api.Base.{
  String, Bool, false, not, ◌||◌, [], Option, none, some, ◌==◌, text_eq, string_eq, trim_space,
  trim_string,
}
use homepad_api.Storage.{StoreErr, not_found, slug_taken, category_not_found, pure, ◌>>=◌, ◌>>◌}
use homepad_api.Storage.Catalog.{Service}
use homepad_api.Storage.Services.{
  NewService, ServiceUpdate, create_service, update_service, delete_service,
}
use homepad_api.Api.{
  Response, Handler, Request, Server, ServiceView, or_fail, error, write_json, internal_error,
  no_content, service,
}
use homepad_api.Api.Auth.{refuse_if}
use homepad_api.Api.Sessions.{require_admin}
use homepad_api.Api.Catalog.{Snap, status_for, decoded, no_such_service}

unfoldable pub valid_click_action : String → Bool
valid_click_action v = v == "" || v == "new_tab" || v == "same_tab" || v == "iframe"

-- The view of a service without what only the listing fills in.
abbrev pub bare_view : Snap → Service → Service → ServiceView
unfolding status_for
bare_view snap s shown = record {
  service = shown;
  status = status_for snap s.gatus_key;
  favorite = false;
  icon_light = false;
  icon_dark = false;
  uptime_checks = [];
  uptime_windows = [];
  response_time_ms = none;
}

abbrev bad_click_action : Response
bad_click_action = error "clickAction must be one of new_tab, same_tab, iframe" 400

abbrev slug_conflict : StoreErr → Response
slug_conflict e = elim e [
  | slug_taken ↦ error "a service with that slug already exists" 409
  | _ ↦ internal_error
]

abbrev pub trimmed : NewService → NewService
unfolding trim_space trim_string
trimmed s = record s {
  slug = trim_space s.slug;
  name = trim_space s.name;
  url = trim_space s.url;
  gatus_key = trim_string s.gatus_key;
}

-- The answer to a creation leaves out the key.
abbrev pub created_view : Snap → Service → ServiceView
created_view snap s = bare_view snap s (record s {
  gatus_key = "";
  category_id = none;
  category_name = none;
  source_library_id = none;
})

unfoldable pub handle_create_service : Server → Snap → Request → Option NewService → Handler
unfolding require_admin valid_click_action create_service status_for trim_space trim_string
handle_create_service server snap req body = require_admin server req >>= λ u.
    decoded body >>= λ raw.
    let s = trimmed raw in
    refuse_if (s.slug == [] || s.name == [] || s.url == [])
      (error "slug, name and url are required" 400)
    >> refuse_if (not (valid_click_action s.click_action)) bad_click_action
    >> or_fail (create_service server.ext u.id s) slug_conflict
    >>= λ sv. pure (write_json 201 (service (created_view snap sv)))

-- A click action that is present and empty is no change.
abbrev is_bad_click : Option String → Bool
unfolding valid_click_action
is_bad_click none = false
is_bad_click (some v) = v == "" || not (valid_click_action v)

abbrev update_failure : StoreErr → Response
update_failure e = elim e [
  | category_not_found ↦ error "no such category" 400
  | not_found ↦ error "no such service" 404
  | slug_taken ↦ error "a service with that slug already exists" 409
  | _ ↦ internal_error
]

unfoldable pub handle_update_service : Server → Snap → Request → Option ServiceUpdate → Handler
unfolding require_admin valid_click_action update_service status_for
handle_update_service server snap req body = require_admin server req >>= λ u. decoded body >>= λ b.
    refuse_if (is_bad_click b.click_action) bad_click_action
    >> or_fail (update_service req.id u.id b) update_failure
    >>= λ sv. pure (write_json 200 (service (bare_view snap sv sv)))

unfoldable pub handle_delete_service : Server → Request → Handler
unfolding require_admin delete_service
handle_delete_service server req = require_admin server req >>= λ u.
    or_fail (delete_service req.id u.id) no_such_service >> pure no_content
