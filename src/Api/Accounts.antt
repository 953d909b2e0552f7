-- ===== src/Api/Accounts.antt =====
-- internal/api/admin_accounts.go: the admin's accounts API.
pub mod AdminOnly
pub mod SignInHere
use homepad_api.Base.{
  ℕ, String, Bool, true, false, not, ◌&&◌, ◌||◌, List, [], ◌∷◌, Option, none, some, Result, ok, err,
  Text, ◌==◌, nat_eq, text_eq, string_eq, ltb, leb, length, map, trim_space, any, contains,
  if◌then◌else◌,
}
use homepad_api.Session.{Session, SessionErr, lifetime_of}
use homepad_api.Session.Pg
use homepad_api.Storage.{
  StoreErr, not_found, kid_name_taken, unknown_service, Act, World, pure, throw, ◌>>=◌, ◌>>◌,
  statement,
}
use homepad_api.Storage.Users.{User}
use homepad_api.Storage.Kids.{
  is_adult_role, create_kid, kid_by_id, update_kid, delete_kid, Account, list_accounts,
  kid_service_ids, set_kid_services,
}
use homepad_api.Api.{
  Response, Handler, Request, Server, AccountView, DeviceView, attempt, or_fail, error, write_json,
  internal_error, no_content, set_cookie, session_call, account, accounts, service_ids, devices,
}
use homepad_api.Api.Auth.{refuse_if}
use homepad_api.Api.Sessions.{
  require_admin, create_session, destroy_session, new_session_cookie, cleared_cookie,
}

abbrev max_kid_name_len : ℕ
max_kid_name_len = 40

abbrev default_avatar_color : String
default_avatar_color = "blue"

abbrev avatar_colors : List String
avatar_colors = "blue" ∷ "teal" ∷ "green" ∷ "yellow" ∷ "orange" ∷ "red" ∷ "pink" ∷ "purple" ∷ []

-- `ListForUser`
abbrev sessions_of : String → Act SessionErr (List Session)
sessions_of user_id w = session_call (Pg.list_for_user w.clock user_id) w

abbrev last_seen : List Session → Option ℕ
last_seen [] = none
last_seen (s ∷ ss) = some s.last_seen_at

abbrev view_of : User → ℕ → List Session → AccountView
view_of u app_count sessions =
    let adult = is_adult_role u.role in
    record {
      id = u.id;
      name = if adult && u.display_name == [] then u.email else u.display_name;
      role = u.role;
      last_seen_at = last_seen sessions;
      email = if adult then u.email else [];
      avatar_color = u.avatar_color;
      app_count = if adult then none else some app_count;
      device_count = if adult then none else some (length sessions);
    }

unfoldable pub new_account_view : User → ℕ → Act SessionErr AccountView
unfolding is_adult_role Pg.list_for_user
new_account_view u app_count = sessions_of u.id >>= λ sessions. pure (view_of u app_count sessions)

-- `unicode.IsControl`
abbrev is_control : ℕ → Bool
is_control c = ltb c 32 || (leb 0x7F c && ltb c 0xA0)

unfoldable pub clean_kid_name : Text → Option Text
unfolding trim_space
clean_kid_name raw =
    let name = trim_space raw in
    if name == [] || ltb max_kid_name_len (length name) || any is_control name
    then none
    else some name

abbrev kid_name_rule : String
kid_name_rule = "name must be 1-40 characters with no control characters"

-- What the handlers of one kid answer to an error of the store.
abbrev kid_failure : StoreErr → Response
kid_failure e = elim e [
  | not_found ↦ error "no such kid account" 404
  | kid_name_taken ↦ error "a kid with that name already exists" 409
  | unknown_service ↦ error "serviceIds names a service that is not in the catalog" 400
  | _ ↦ internal_error
]

unfoldable pub kid_for : Request → Act Response User
unfolding kid_by_id
kid_for req = or_fail (kid_by_id req.id) kid_failure

unfoldable pub account_views : List Account → Act SessionErr (List AccountView)
unfolding new_account_view
account_views [] = pure []
account_views (a ∷ as_) =
    new_account_view a.user a.app_count >>= λ v. account_views as_ >>= λ vs. pure (v ∷ vs)

unfoldable pub handle_list_accounts : Server → Request → Handler
unfolding require_admin list_accounts account_views
handle_list_accounts server req = require_admin server req >>= λ admin.
    or_fail list_accounts (λ e. internal_error) >>= λ accts.
    or_fail (account_views accts) (λ e. internal_error) >>= λ out.
    pure (write_json 200 (accounts out))

unfoldable pub write_account : Server → ℕ → User → Handler
unfolding kid_service_ids new_account_view
write_account server status kid =
    or_fail (kid_service_ids server.ext kid.id) (λ e. internal_error) >>= λ ids.
    or_fail (new_account_view kid (length ids)) (λ e. internal_error) >>= λ v.
    pure (write_json status (account v))

pub record KidFields : Type 0 where
  pub name : Option Text
  pub avatar_color : Option String

-- A name that is there must be one that `clean_kid_name` takes.
abbrev cleaned : Option Text → Act Response (Option Text)
cleaned none = pure none
cleaned (some raw) = elim (clean_kid_name raw) [
  | none ↦ throw (error kid_name_rule 400)
  | some name ↦ pure (some name)
]

abbrev check_color : Option String → Act Response (Unit {0})
check_color none = pure tt
check_color (some c) =
    refuse_if (not (contains avatar_colors c)) (error "avatarColor must be an accent id" 400)

unfoldable pub handle_create_kid : Server → Request → Option KidFields → Handler
unfolding require_admin clean_kid_name create_kid write_account
handle_create_kid server req body = require_admin server req >>= λ admin. elim body [
  | none ↦ throw (error "invalid JSON body" 400)
  | some b ↦ cleaned b.name >>= λ name. elim name [
    | none ↦ throw (error kid_name_rule 400)
    | some n ↦
        check_color b.avatar_color
        >> or_fail
            (create_kid server.ext n
              (elim b.avatar_color [ none ↦ default_avatar_color | some c ↦ c ]))
            kid_failure
        >>= λ kid. write_account server 201 kid
  ]
]

-- `has_password`: the body has the key that is refused.
unfoldable pub handle_update_kid : Server → Request → Option KidFields → Bool → Handler
unfolding require_admin clean_kid_name update_kid write_account
handle_update_kid server req body has_password = require_admin server req >>= λ admin. elim body [
  | none ↦ throw (error "invalid JSON body" 400)
  | some b ↦
      refuse_if has_password (error "kid accounts do not have passwords; use sign-in-here" 400)
      >> refuse_if
          (elim b.name [
            | some n ↦ false
            | none ↦ elim b.avatar_color [ none ↦ true | some c ↦ false ]
          ])
          (error "body must include name or avatarColor" 400)
      >> cleaned b.name
      >>= λ name.
          check_color b.avatar_color
          >> or_fail (update_kid server.ext req.id name b.avatar_color) kid_failure
          >>= λ kid. write_account server 200 kid
]

unfoldable pub handle_delete_kid : Server → Request → Handler
unfolding require_admin delete_kid
handle_delete_kid server req =
    require_admin server req >>= λ admin. or_fail (delete_kid req.id) kid_failure >> pure no_content

unfoldable pub handle_get_kid_services : Server → Request → Handler
unfolding require_admin kid_for kid_service_ids
handle_get_kid_services server req = require_admin server req >>= λ admin. kid_for req >>= λ kid.
    or_fail (kid_service_ids server.ext kid.id) (λ e. internal_error) >>= λ ids.
    pure (write_json 200 (service_ids ids))

-- The body is the list `serviceIds`, `some none` where it is missing or null.
unfoldable pub handle_set_kid_services : Server → Request → Option (Option (List String)) → Handler
unfolding require_admin set_kid_services
handle_set_kid_services server req body = require_admin server req >>= λ admin. elim body [
  | none ↦ throw (error "invalid JSON body" 400)
  | some none ↦ throw (error "serviceIds is required (an array; [] for none)" 400)
  | some (some ids) ↦ or_fail (set_kid_services req.id ids) kid_failure >> pure no_content
]

unfoldable pub handle_list_kid_sessions : Server → Request → Handler
unfolding require_admin kid_for Pg.list_for_user
handle_list_kid_sessions server req = require_admin server req >>= λ admin. kid_for req >>= λ kid.
    or_fail (sessions_of kid.id) (λ e. internal_error) >>= λ sessions. pure (
      write_json 200 (
        devices (
          map
            (λ s. record {
              id = s.handle;
              user_agent = s.user_agent;
              created_at = s.created_at;
              last_seen_at = s.last_seen_at;
            })
            sessions)))

abbrev revoke_failure : SessionErr → Response
revoke_failure e = elim e [
  | SessionErr.not_found ↦ error "no such session" 404
  | _ ↦ internal_error
]

unfoldable pub handle_revoke_kid_session : Server → Request → Handler
unfolding require_admin kid_for Pg.revoke_by_handle
handle_revoke_kid_session server req = require_admin server req >>= λ admin. kid_for req >>= λ kid.
    or_fail (session_call (Pg.revoke_by_handle kid.id req.sid)) revoke_failure >> pure no_content

-- The swap of the admin's session for the kid's. The admin's ends first; a failure stops the swap,
-- and one after it clears the cookie.
unfoldable pub swap_session : Server → Request → User → String → Handler
unfolding Pg.destroy create_session lifetime_of new_session_cookie
swap_session server req kid token =
    or_fail (destroy_session server token) (λ e. internal_error)
    >> (let lifetime = lifetime_of kid.role in
        attempt (create_session server kid.id lifetime req.user_agent) >>= λ made. elim made [
          | err e ↦ set_cookie (cleared_cookie server.cookie_secure) >> throw internal_error
          | ok m ↦
              set_cookie (new_session_cookie m.0 lifetime server.cookie_secure) >> pure no_content
        ])

unfoldable pub handle_sign_in_here : Server → Request → Handler
unfolding require_admin kid_for swap_session
handle_sign_in_here server req = require_admin server req >>= λ admin. kid_for req >>= λ kid.
    elim req.cookie [
      | none ↦ throw (error "unauthorized" 401)
      | some token ↦ swap_session server req kid token
    ]
