-- ===== src/Api/Library.antt =====
-- internal/api/library.go: the App Library's handlers.
use homepad_api.Base.{String, Bool, false, ◌||◌, List, [], Option, ◌==◌, text_eq, map, trim_space}
use homepad_api.Storage.{StoreErr, not_found, category_not_found, LibraryApp, pure, ◌>>=◌, ◌>>◌}
use homepad_api.Storage.Library.{
  NewApp, LibraryAppUpdate, list_library, create_library_app, update_library_app, set_library_order,
  add_from_library, delete_library_app,
}
use homepad_api.Api.{
  Response, Handler, Request, Server, OfferView, or_fail, error, write_json, internal_error,
  no_content, service, library, offer,
}
use homepad_api.Api.Auth.{refuse_if}
use homepad_api.Api.Sessions.{require_user, require_admin}
use homepad_api.Api.Catalog.{Snap, status_for, decoded}
use homepad_api.Api.Services.{bare_view}

unfoldable pub offer_view : LibraryApp → Bool → OfferView
offer_view a added = record { app = a; added = added }

unfoldable pub handle_list_library : Server → Request → Handler
unfolding require_user list_library offer_view
handle_list_library server req = require_user server req >>= λ u.
    or_fail (list_library u.id) (λ e. internal_error) >>= λ offers.
    pure (write_json 200 (library (map (λ o. offer_view o.app o.added) offers)))

abbrev trimmed : NewApp → NewApp
unfolding trim_space
trimmed a = record a { name = trim_space a.name; url = trim_space a.url }

unfoldable pub handle_create_library_app : Server → Request → Option NewApp → Handler
unfolding require_admin trim_space create_library_app offer_view
handle_create_library_app server req body = require_admin server req >>= λ u.
    decoded body >>= λ raw.
    let a = trimmed raw in
    refuse_if (a.name == [] || a.url == []) (error "name and url are required" 400)
    >> or_fail (create_library_app server.ext a) (λ e. internal_error)
    >>= λ la. pure (write_json 201 (offer (offer_view la false)))

abbrev no_such_offer : StoreErr → Response
no_such_offer e = elim e [ not_found ↦ error "no such library offer" 404 | _ ↦ internal_error ]

unfoldable pub handle_update_library_app : Server → Request → Option LibraryAppUpdate → Handler
unfolding require_admin update_library_app offer_view
handle_update_library_app server req body = require_admin server req >>= λ u. decoded body >>= λ b.
    or_fail (update_library_app req.id b) no_such_offer >>= λ la.
    pure (write_json 200 (offer (offer_view la false)))

unfoldable pub handle_set_library_order : Server → Request → Option (List String) → Handler
unfolding require_admin set_library_order
handle_set_library_order server req body = require_admin server req >>= λ u.
    decoded body >>= λ order. or_fail (set_library_order order) no_such_offer >> pure no_content

abbrev add_failure : StoreErr → Response
add_failure e = elim e [
  | category_not_found ↦ error "no such category" 400
  | not_found ↦ error "no such library offer" 404
  | _ ↦ internal_error
]

-- The body is the category; a request without one has no category.
unfoldable pub handle_add_from_library : Server → Snap → Request → Option (Option String) → Handler
unfolding require_admin add_from_library status_for
handle_add_from_library server snap req body = require_admin server req >>= λ u.
    decoded body >>= λ category_id.
    or_fail (add_from_library server.ext u.id req.id category_id) add_failure >>= λ sv.
    pure (
      write_json 201
        (service (bare_view snap sv (record sv { gatus_key = ""; click_action = "" }))))

unfoldable pub handle_delete_library_app : Server → Request → Handler
unfolding require_admin delete_library_app
handle_delete_library_app server req = require_admin server req >>= λ u.
    or_fail (delete_library_app req.id) (λ e. internal_error) >> pure no_content
