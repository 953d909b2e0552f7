-- ===== src/Api/Accounts/AdminOnly.antt =====
-- Who may use the admin's handlers of internal/api: those of the accounts, the categories, the
-- services, the App Library, the icons and the environment.
use homepad_api.Base.{
  ℕ, String, Bool, false, List, [], ◌∷◌, Option, some, err, All, ◌==◌, string_eq, ◌≡◌, arith, Text,
}
use homepad_api.Storage.{World, pure}
use homepad_api.Storage.Users.{User}
use homepad_api.Api.{Handler, Request, Server}
use homepad_api.Api.Sessions.{current_user, require_admin}
use homepad_api.Api.Sessions.Authentication.{
  require_admin-stops, answer_of, refusal, session_user, SameRows, current_user-SameRows,
}
use homepad_api.Api.Accounts.{
  KidFields, handle_list_accounts, handle_create_kid, handle_update_kid, handle_delete_kid,
  handle_get_kid_services, handle_set_kid_services, handle_list_kid_sessions,
  handle_revoke_kid_session, handle_sign_in_here,
}
use homepad_api.Api.Categories.{
  handle_create_category, handle_update_category, handle_set_category_order, handle_delete_category,
}
use homepad_api.Storage.Services.{NewService, ServiceUpdate}
use homepad_api.Storage.Library.{NewApp, LibraryAppUpdate}
use homepad_api.Api.Catalog.{Snap}
use homepad_api.Api.Services.{handle_create_service, handle_update_service, handle_delete_service}
use homepad_api.Api.Library.{
  handle_create_library_app, handle_update_library_app, handle_set_library_order,
  handle_add_from_library, handle_delete_library_app,
}
use homepad_api.Api.Icons.{handle_put_icon, handle_delete_icon, handle_fetch_icon}
use homepad_api.Api.Icons.Favicon.{Web}
use homepad_api.Api.EnvConfig.{handle_admin_env_config}

-- The bodies that the handlers decode, and what else they take.
pub record Bodies : Type 0 where
  pub kid : Option KidFields
  pub has_password : Bool
  pub ids : Option (Option (List String))
  pub name : Option Text
  pub category : Option (Option Text × Option ℕ)
  pub order : Option (List String)
  pub snap : Snap
  pub service : Option NewService
  pub update : Option ServiceUpdate
  pub app : Option NewApp
  pub app_update : Option LibraryAppUpdate
  pub into : Option (Option String)
  pub variant : String
  pub png : Option (List ℕ)
  pub web : Web Text
  pub getenv : String → Text

abbrev pub admin_handlers : Server → Request → Bodies → List Handler
admin_handlers server req b =
    handle_list_accounts server req
    ∷ handle_create_kid server req b.kid
    ∷ handle_update_kid server req b.kid b.has_password
    ∷ handle_delete_kid server req
    ∷ handle_get_kid_services server req
    ∷ handle_set_kid_services server req b.ids
    ∷ handle_list_kid_sessions server req
    ∷ handle_revoke_kid_session server req
    ∷ handle_sign_in_here server req
    ∷ handle_create_category server req b.name
    ∷ handle_update_category server req b.category
    ∷ handle_set_category_order server req b.order
    ∷ handle_delete_category server req
    ∷ handle_create_service server b.snap req b.service
    ∷ handle_update_service server b.snap req b.update
    ∷ handle_delete_service server req
    ∷ handle_create_library_app server req b.app
    ∷ handle_update_library_app server req b.app_update
    ∷ handle_set_library_order server req b.order
    ∷ handle_add_from_library server b.snap req b.into
    ∷ handle_delete_library_app server req
    ∷ handle_put_icon server req b.variant b.png
    ∷ handle_delete_icon server req b.variant
    ∷ handle_fetch_icon server b.web req
    ∷ handle_admin_env_config server b.getenv req
    ∷ []

-- The answer is 401 or 403, and no row but a session's changes.
abbrev pub Refuses : Server → Request → World → Handler → Type 0
Refuses server req w h =
    ((h w).0 ≡ err (refusal (answer_of (current_user server req w).0))) × SameRows (h w).1.db w.db

-- Nobody's session is an admin's.
abbrev pub NoAdmin : Server → Request → World → Type 0
NoAdmin server req w = (u : User) → session_user server req w ≡ some u → (u.role == "admin") ≡ false

module _ (server : Server) (req : Request) (w : World) (no_admin : NoAdmin server req w) where
  refused :
      require_admin server req w
      ≡ (err (refusal (answer_of (current_user server req w).0)), (current_user server req w).1)
  refused = ground (arith, require_admin-stops server req (λ u. pure u) w no_admin)

  -- Without an admin's session each of the admin's handlers of the accounts, the categories, the
  -- services, the App Library, the icons and the environment answers 401 or 403, and no row but a
  -- session's changes.
  pub admin_handlers-Refuses :
      (b : Bodies) → All (Refuses server req w) (admin_handlers server req b)
  unfolding handle_list_accounts handle_create_kid handle_update_kid handle_delete_kid
      handle_get_kid_services handle_set_kid_services handle_list_kid_sessions
      handle_revoke_kid_session handle_sign_in_here handle_create_category handle_update_category
      handle_set_category_order handle_delete_category handle_create_service handle_update_service
      handle_delete_service handle_create_library_app handle_update_library_app
      handle_set_library_order handle_add_from_library handle_delete_library_app handle_put_icon
      handle_delete_icon handle_fetch_icon handle_admin_env_config
  admin_handlers-Refuses b = ground (arith, refused, current_user-SameRows server req w)
