-- ===== src/Api/Guards.antt =====
-- internal/api/kids.go, and the route classes of server.go.
pub mod WriteLock
use homepad_api.Base.{
  String, Bool, true, false, not, List, [], ◌∷◌, ◌++◌, Option, none, some, Result, ok, err,
  if◌then◌else◌, ◌==◌, string_eq, ◌&&◌, ◌||◌,
}
use homepad_api.Storage.{Act, World, pure, throw, ◌>>=◌, ◌>>◌, statement}
use homepad_api.Storage.Users.{User}
use homepad_api.Storage.Kids.{is_adult_role, ServiceSet, allows, visible_service_ids}
use homepad_api.Api.{Response, Handler, Request, Server, or_fail, error, internal_error}
use homepad_api.Api.Sessions.{current_user}

pub data RouteClass : Type 0 where
  public catalog_free kid_filtered kid_forbidden admin_only : RouteClass

unfoldable pub require_not_kid : Server → Request → Handler → Handler
unfolding current_user is_adult_role
require_not_kid server req next = current_user server req >>= λ found. elim found [
  | none ↦ next
  | some u ↦
      if is_adult_role u.role then next else throw (error "not available to kid accounts" 403)
]

abbrev pub is_locked : RouteClass → Bool
is_locked kid_forbidden = true
is_locked admin_only = true
is_locked public = false
is_locked catalog_free = false
is_locked kid_filtered = false

-- A pattern is its method and its path.
pub record Route : Type 0 where
  pub method : String
  pub path : String
  pub class : RouteClass

abbrev route : String → String → RouteClass → Route
route method path class = record { method = method; path = path; class = class }

abbrev is_live_pattern : Route → Bool
is_live_pattern r = r.method == "GET" && r.path == "/live"

abbrev oidc_routes : List Route
oidc_routes =
    route "GET" "/api/auth/oidc/login" public ∷ route "GET" "/api/auth/oidc/callback" public ∷ []

-- `server.routes`, in its order; the two of the sign-in with OIDC only where that is on.
unfoldable pub routes : Bool → List Route
routes oidc_enabled =
    route "POST" "/api/register" public
      ∷ route "POST" "/api/login" public
      ∷ route "POST" "/api/logout" catalog_free
      ∷ route "GET" "/api/me" catalog_free
      ∷ route "PATCH" "/api/me" catalog_free
      ∷ route "GET" "/api/me/collapsed-categories" kid_filtered
      ∷ route "PUT" "/api/me/collapsed-categories" kid_forbidden
      ∷ route "GET" "/api/services" kid_filtered
      ∷ route "POST" "/api/services" admin_only
      ∷ route "PATCH" "/api/services/{id}" admin_only
      ∷ route "DELETE" "/api/services/{id}" admin_only
      ∷ route "GET" "/api/categories" kid_filtered
      ∷ route "POST" "/api/categories" admin_only
      ∷ route "PUT" "/api/categories/order" admin_only
      ∷ route "PATCH" "/api/categories/{id}" admin_only
      ∷ route "DELETE" "/api/categories/{id}" admin_only
      ∷ route "GET" "/api/services/{id}/icon/{variant}" kid_filtered
      ∷ route "PUT" "/api/services/{id}/icon/{variant}" admin_only
      ∷ route "DELETE" "/api/services/{id}/icon/{variant}" admin_only
      ∷ route "POST" "/api/services/{id}/fetch-icon" admin_only
      ∷ route "POST" "/api/favorites/{id}" kid_filtered
      ∷ route "DELETE" "/api/favorites/{id}" kid_filtered
      ∷ route "GET" "/api/library" kid_forbidden
      ∷ route "POST" "/api/library" admin_only
      ∷ route "PUT" "/api/library/order" admin_only
      ∷ route "PATCH" "/api/library/{id}" admin_only
      ∷ route "DELETE" "/api/library/{id}" admin_only
      ∷ route "POST" "/api/library/{id}/add" admin_only
      ∷ route "PUT" "/api/layout" kid_forbidden
      ∷ route "GET" "/api/status" kid_filtered
      ∷ route "POST" "/api/status/refresh" kid_forbidden
      ∷ route "GET" "/health" public
      ∷ route "GET" "/api/system/config" public
      ∷ route "PATCH" "/api/admin/settings" admin_only
      ∷ route "GET" "/api/admin/env-config" admin_only
      ∷ route "GET" "/api/admin/accounts" admin_only
      ∷ route "POST" "/api/admin/kids" admin_only
      ∷ route "PATCH" "/api/admin/kids/{id}" admin_only
      ∷ route "DELETE" "/api/admin/kids/{id}" admin_only
      ∷ route "GET" "/api/admin/kids/{id}/services" admin_only
      ∷ route "PUT" "/api/admin/kids/{id}/services" admin_only
      ∷ route "GET" "/api/admin/kids/{id}/sessions" admin_only
      ∷ route "DELETE" "/api/admin/kids/{id}/sessions/{sid}" admin_only
      ∷ route "POST" "/api/admin/kids/{id}/sign-in-here" admin_only
      ∷ route "GET" "/api/auth/config" public
      ∷ (if oidc_enabled then oidc_routes else [])
    ++ route "GET" "/live" public ∷ []

-- `router.handle`: what answers a request to a route; `stub` is the mode without a store, where
-- each route but the liveness probe is not implemented.
unfoldable pub handle : Server → Bool → Route → (Request → Handler) → Request → Handler
unfolding require_not_kid
handle server stub r h req =
    if stub && not (is_live_pattern r)
    then throw (error "not implemented" 501)
    else if is_locked r.class
    then require_not_kid server req (h req)
    else h req

unfoldable pub visible_services : User → Act Response ServiceSet
unfolding visible_service_ids
visible_services u = or_fail (visible_service_ids u) (λ e. internal_error)

unfoldable pub service_visible : User → String → String → Act Response (Unit {0})
unfolding visible_services allows
service_visible u service_id not_found_msg = visible_services u >>= λ vis.
    if allows vis service_id then pure tt else throw (error not_found_msg 404)
