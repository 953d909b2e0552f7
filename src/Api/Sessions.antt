-- ===== src/Api/Sessions.antt =====
-- internal/api/cookie.go, and currentUser of auth.go and requireAdmin of library.go: the session
-- cookie of a request and the account that it stands for.
pub mod Authentication
use homepad_api.Base.{
  ℕ, ◌/◌, String, Bool, true, false, not, ◌&&◌, ◌||◌, List, [], ◌∷◌, Option, none, some, Result, ok,
  err, Text, ◌==◌, text_eq, string_eq, codes, trim_space, if◌then◌else◌, any,
}
use homepad_api.Session.{Session, SessionErr, Draw, lifetime_of, second}
use homepad_api.Session.Pg
use homepad_api.Storage.{StoreErr, Act, World, Cookie, pure, throw, ◌>>=◌, ◌>>◌}
use homepad_api.Storage.Users.{User, user_by_id}
use homepad_api.Api.{
  Response, Handler, Request, Server, attempt, or_fail, session_call, set_cookie, error,
  internal_error,
}

-- The spellings that `strconv.ParseBool` takes for false; each other text is true or an error.
abbrev false_words : List Text
false_words = codes "0" ∷ codes "f" ∷ codes "F" ∷ codes "FALSE" ∷ codes "false" ∷ codes "False" ∷ []

unfoldable pub parse_cookie_secure : Text → Bool
unfolding trim_space
parse_cookie_secure raw = not (any (λ word. word == trim_space raw) false_words)

unfoldable pub new_session_cookie : String → ℕ → Bool → Cookie
new_session_cookie token lifetime secure = record {
  value = token;
  max_age = some (lifetime / second);
  secure = secure;
}

-- The cookie with `MaxAge: -1`, which the browser drops.
abbrev pub cleared_cookie : Bool → Cookie
cleared_cookie secure = record { value = ""; max_age = none; secure = secure }

-- `sessions.Create`, with the next random draw; a generator with none left fails.
unfoldable pub create_session : Server → String → ℕ → List ℕ → Act SessionErr (String × Session)
unfolding Pg.create
create_session server user_id lifetime user_agent w = elim w.draws [
  | [] ↦
      session_call
        (Pg.create server.ext.sha256 (record { token = none; handle = none }) w.clock user_id
          lifetime user_agent)
        w
  | d ∷ ds ↦
      session_call (Pg.create server.ext.sha256 d w.clock user_id lifetime user_agent)
        (record w { draws = ds })
]

abbrev pub find_session : Server → String → Act SessionErr Session
find_session server token w = session_call (Pg.find server.ext.sha256 w.clock token) w

abbrev pub touch_session : Server → String → ℕ → Act SessionErr Bool
touch_session server token lifetime w =
    session_call (Pg.touch server.ext.sha256 w.clock token lifetime) w

abbrev pub destroy_session : Server → String → Act SessionErr (Unit {0})
destroy_session server token = session_call (Pg.destroy server.ext.sha256 token)

-- The slide: a failure is logged and the request goes on.
unfoldable pub slide : Server → String → Session → User → Act Response (Unit {0})
unfolding lifetime_of new_session_cookie Pg.touch
slide server token sess u =
    if not sess.touch_due
    then pure tt
    else let lifetime = lifetime_of u.role in
      attempt (touch_session server token lifetime) >>= λ r. elim r [
        | err e ↦ pure tt
        | ok slid ↦
            if slid
            then set_cookie (new_session_cookie token lifetime server.cookie_secure)
            else pure tt
      ]

unfoldable pub current_user : Server → Request → Act Response (Option User)
unfolding Pg.find user_by_id slide
current_user server req = elim req.cookie [
  | none ↦ pure none
  | some token ↦ attempt (find_session server token) >>= λ found. elim found [
    | err e ↦ pure none
    | ok sess ↦ attempt (user_by_id sess.user_id) >>= λ r. elim r [
      | err e ↦ pure none
      | ok u ↦ slide server token sess u >> pure (some u)
    ]
  ]
]

-- `currentUser`, and its 401
unfoldable pub require_user : Server → Request → Act Response User
unfolding current_user
require_user server req = current_user server req >>= λ found. elim found [
  | none ↦ throw (error "unauthorized" 401)
  | some u ↦ pure u
]

unfoldable pub require_admin : Server → Request → Act Response User
unfolding require_user
require_admin server req = require_user server req >>= λ u.
    if u.role == "admin" then pure u else throw (error "admin role required" 403)

-- The session that the browser carried before: a failure to end it is logged only.
unfoldable pub destroy_replaced : Server → Request → String → Act Response (Unit {0})
unfolding Pg.destroy
destroy_replaced server req token = elim req.cookie [
  | none ↦ pure tt
  | some old ↦
      if not (old == "") && not (old == token)
      then (attempt (destroy_session server old) >>= λ r. pure tt)
      else pure tt
]

unfoldable pub start_session : Server → Request → User → Act Response (Unit {0})
unfolding create_session lifetime_of new_session_cookie destroy_replaced
start_session server req u =
    let lifetime = lifetime_of u.role in
    or_fail (create_session server u.id lifetime req.user_agent) (λ e. internal_error) >>= λ made.
    destroy_replaced server req made.0
    >> set_cookie (new_session_cookie made.0 lifetime server.cookie_secure)
