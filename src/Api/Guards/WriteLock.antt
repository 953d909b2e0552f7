-- ===== src/Api/Guards/WriteLock.antt =====
-- The write lock: what a kid's session meets on the routes of internal/api/server.go.
use homepad_api.Base.{
  String, Bool, true, false, not, ◌&&◌, ◌||◌, List, [], ◌∷◌, none, some, ok, err, All, ◌==◌,
  string_eq, ◌≡◌, ap, arith, All-map,
}
use homepad_api.Storage.{World}
use homepad_api.Storage.Users.{User}
use homepad_api.Storage.Kids.{is_adult_role}
use homepad_api.Api.{Response, Handler, Request, Server, error}
use homepad_api.Api.Sessions.{current_user}
use homepad_api.Api.Sessions.Authentication.{SameRows, current_user-SameRows}
use homepad_api.Api.Guards.{Route, is_locked, require_not_kid, handle, routes}

abbrev pub forbidden : Response
forbidden = error "not available to kid accounts" 403

-- On a locked route a session of a role that is not an adult's is answered 403, whatever the
-- handler is: it does not run. An adult's session, and a request without one, reach the handler.
pub handle-locked :
    (server : Server) (r : Route) (h : Request → Handler) (req : Request) (w : World)
    → is_locked r.class ≡ true
    → ((u : User)
        → (current_user server req w).0 ≡ ok (some u)
        → is_adult_role u.role ≡ false
        → handle server false r h req w ≡ (err forbidden, (current_user server req w).1))
      × ((u : User)
          → (current_user server req w).0 ≡ ok (some u)
          → is_adult_role u.role ≡ true
          → handle server false r h req w ≡ h req (current_user server req w).1)
      × ((current_user server req w).0 ≡ ok none
          → handle server false r h req w ≡ h req (current_user server req w).1)
unfolding handle require_not_kid
handle-locked server r h req w locked = (
  λ u found kid. ground (arith, locked, found, kid),
  λ u found adult. ground (arith, locked, found, adult),
  λ nobody. ground (arith, locked, nobody),
)

-- The patterns of the writes that a kid's session may call.
abbrev open_writes : List (String × String)
open_writes =
    ("POST", "/api/register")
    ∷ ("POST", "/api/login")
    ∷ ("POST", "/api/logout")
    ∷ ("PATCH", "/api/me")
    ∷ ("POST", "/api/favorites/{id}")
    ∷ ("DELETE", "/api/favorites/{id}")
    ∷ []

abbrev is_open_write : Route → List (String × String) → Bool
is_open_write r [] = false
is_open_write r (p ∷ ps) = (r.method == p.0 && r.path == p.1) || is_open_write r ps

-- A route that writes, and is none of those.
abbrev pub is_adult_write : Route → Bool
is_adult_write r = not (r.method == "GET") && not (is_open_write r open_writes)

abbrev Locked : Route → Type 0
Locked r = is_adult_write r ≡ true → is_locked r.class ≡ true

routes-Locked : (oidc_enabled : Bool) → All Locked (routes oidc_enabled)
unfolding routes
routes-Locked true = ground arith
routes-Locked false = ground arith

-- The handler of the route does not run for a kid's session: the answer is 403, and only the
-- session itself may have slid.
abbrev pub RefusesKids : Server → Route → Type 0
RefusesKids server r =
    (h : Request → Handler) (req : Request) (w : World) (u : User)
    → (current_user server req w).0 ≡ ok (some u)
    → is_adult_role u.role ≡ false
    → ((handle server false r h req w).0 ≡ err forbidden)
      × SameRows (handle server false r h req w).1.db w.db

locked-RefusesKids : (server : Server) (r : Route) → is_locked r.class ≡ true → RefusesKids server r
locked-RefusesKids server r locked h req w u found kid =
    let stopped = (handle-locked server r h req w locked).0 u found kid in
    (ap (λ p. p.0) stopped, rw stopped (current_user-SameRows server req w))

-- Every route that is registered refuses a session that is not an adult's, whatever its handler
-- is, if its method is not GET and it is neither the registration, the sign-in, the sign-out, the
-- account's own settings nor a favorite: the answer is 403, and no row but a session's changes.
pub routes-RefusesKids :
    (server : Server) (oidc_enabled : Bool)
    → All (λ r. is_adult_write r ≡ true → RefusesKids server r) (routes oidc_enabled)
routes-RefusesKids server oidc_enabled =
    All-map (λ r locked write. locked-RefusesKids server r (locked write)) (routes oidc_enabled)
      (routes-Locked oidc_enabled)
