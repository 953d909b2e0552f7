-- ===== src/Api/Sessions/Authentication.antt =====
-- Whom a request stands for, described without the calls of currentUser in internal/api/auth.go.
use homepad_api.Base.{
  String, false, ◌&&◌, [], Option, none, some, Result, ok, err, ◌==◌, nat_eq, string_eq,
  if◌then◌else◌, ltb, find?, ◌≡◌, ap, ◌∙◌, arith, inl, inr, Option-cases,
}
use homepad_api.Session.{clock_now, Session}
use homepad_api.Session.Pg
use homepad_api.Storage.{Act, World, Db, ◌>>=◌, statement}
use homepad_api.Storage.Users.{User, find_user, scan_user, user_by_id}
use homepad_api.Api.{Response, Request, Server, error}
use homepad_api.Api.Sessions.{current_user, require_user, require_admin, slide}

-- The row of the session whose token the request carries, if it is live.
abbrev pub live_row : Server → Request → World → Option (String × Session)
live_row server req w = elim req.cookie [
  | none ↦ none
  | some token ↦
      if token == ""
      then none
      else find? (λ r. r.0 == server.ext.sha256 token && ltb (clock_now w.clock) r.1.expires_at)
          w.db.sessions
]

-- The account of that session.
unfoldable pub session_user : Server → Request → World → Option User
unfolding scan_user
session_user server req w = elim (live_row server req w) [
  | none ↦ none
  | some r ↦ elim (find_user r.1.user_id w.db) [ none ↦ none | some q ↦ some (scan_user q) ]
]

-- All of the database but the sessions is as it was.
abbrev pub SameRows : Db → Db → Type 0
SameRows db db' = db ≡ record db' { sessions = db.sessions }

slide-SameRows :
    (server : Server) (token : String) (sess : Session) (u : User) (w : World)
    → SameRows (slide server token sess u w).1.db w.db
unfolding slide Pg.touch Pg.exec
slide-SameRows server token sess u w = ground arith

pub current_user-SameRows :
    (server : Server) (req : Request) (w : World) → SameRows (current_user server req w).1.db w.db
unfolding current_user slide Pg.find Pg.touch Pg.exec Pg.select_row user_by_id statement
current_user-SameRows server req w = ground arith

pub current_user_sound :
    (server : Server) (req : Request) (w : World) (u : User)
    → (current_user server req w).0 ≡ ok (some u)
    → session_user server req w ≡ some u
unfolding current_user session_user Pg.find Pg.exec Pg.select_row user_by_id statement
current_user_sound server req w u h = ground arith

current_user_complete :
    (server : Server) (req : Request) (w : World)
    → w.faults ≡ []
    → (current_user server req w).0 ≡ ok (session_user server req w)
unfolding current_user session_user Pg.find Pg.exec Pg.select_row user_by_id statement slide
    Pg.touch
current_user_complete server req w h = ground arith

abbrev pub answer_of : Result Response (Option User) → Option User
answer_of (ok found) = found
answer_of (err r) = none

-- `current_user` does not end the handler.
pub current_user-answers :
    (server : Server) (req : Request) (w : World)
    → (current_user server req w).0 ≡ ok (answer_of (current_user server req w).0)
unfolding current_user Pg.find Pg.exec Pg.select_row user_by_id statement slide Pg.touch
current_user-answers server req w = ground arith

-- The two refusals.
abbrev pub unauthorized : Response
unauthorized = error "unauthorized" 401

abbrev pub admin_required : Response
admin_required = error "admin role required" 403

abbrev pub refusal : Option User → Response
refusal none = unauthorized
refusal (some u) = admin_required

-- The handler behind `require_admin` does not run.
pub require_admin-stops :
    {A : Type 0} (server : Server) (req : Request) (k : User → Act Response A) (w : World)
    → ((u : User) → session_user server req w ≡ some u → (u.role == "admin") ≡ false)
    → (require_admin server req >>= k) w
      ≡ (err (refusal (answer_of (current_user server req w).0)), (current_user server req w).1)
unfolding require_admin require_user
require_admin-stops server req k w h =
    elim (Option-cases (answer_of (current_user server req w).0)) [
      | inl none_found ↦ ground (arith, current_user-answers server req w)
      | inr (u, found) ↦
          let is_user = current_user-answers server req w ∙ ap ok found in
          ground (arith, is_user, h u (current_user_sound server req w u is_user))
    ]

-- The account of a request, described without the calls: where no statement fails it is what the
-- request gets; where some do, the request gets it or nobody. Of the database, only the sessions
-- may change.
pub current_user_lem :
    (server : Server) (req : Request) (w : World)
    → (w.faults ≡ [] → (current_user server req w).0 ≡ ok (session_user server req w))
      × ((u : User)
          → (current_user server req w).0 ≡ ok (some u)
          → session_user server req w ≡ some u)
      × SameRows (current_user server req w).1.db w.db
current_user_lem server req w = (
  current_user_complete server req w,
  current_user_sound server req w,
  current_user-SameRows server req w,
)
