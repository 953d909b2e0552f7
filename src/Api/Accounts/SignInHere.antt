-- ===== src/Api/Accounts/SignInHere.antt =====
-- The hand-over of a device from an admin to a kid, of internal/api/admin_accounts.go.
use homepad_api.Base.{
  ℕ, String, true, not, List, [], ◌∷◌, ◌++◌, some, ok, is_ok, Result-cases, Option-cases,
  find?-holds, filter, ◌==◌, string_eq, ◌≡◌, sym, ap, ◌∙◌, arith, eq_iff, inl, inr, find?,
}
use homepad_api.Session.{Session, lifetime_of}
use homepad_api.Session.Pg
use homepad_api.Storage.{World, statement}
use homepad_api.Storage.Users.{User, scan_user}
use homepad_api.Storage.Kids.{kid_by_id, is_kid_row}
use homepad_api.Api.{Request, Server}
use homepad_api.Api.Sessions.{
  current_user, require_user, require_admin, create_session, destroy_session, new_session_cookie,
}
use homepad_api.Api.Sessions.Authentication.{
  session_user, current_user_sound, current_user-answers, answer_of,
}
use homepad_api.Api.Accounts.{kid_for, swap_session, handle_sign_in_here}

destroy_session-removes :
    (server : Server) (token : String) (w : World)
    → is_ok (destroy_session server token w).0 ≡ true
    → (destroy_session server token w).1.db.sessions
      ≡ filter (λ r. not (r.0 == server.ext.sha256 token)) w.db.sessions
unfolding Pg.destroy Pg.exec
destroy_session-removes server token w done = ground arith

create_session-adds :
    (server : Server) (user_id : String) (lifetime : ℕ) (ua : List ℕ) (w : World)
    (made : String × Session)
    → (create_session server user_id lifetime ua w).0 ≡ ok made
    → ((create_session server user_id lifetime ua w).1.db.sessions
        ≡ w.db.sessions ++ (server.ext.sha256 made.0, made.1) ∷ [])
      × (made.1.user_id ≡ user_id)
unfolding create_session Pg.create Pg.add Pg.exec Pg.insert_row
create_session-adds server user_id lifetime ua w made done = ground arith

-- The session of the token is gone, one session of the account is new, and the browser has its
-- token in a cookie with the lifetime of the account's role.
abbrev pub Swapped : Server → User → String → World → World → Type 0
Swapped server u token w w' =
    (made : String × Session) × (w'.db.sessions
      ≡ filter (λ r. not (r.0 == server.ext.sha256 token)) w.db.sessions
        ++ (server.ext.sha256 made.0, made.1) ∷ [])
    × (made.1.user_id ≡ u.id)
    × (w'.cookies ≡ new_session_cookie made.0 (lifetime_of u.role) server.cookie_secure ∷ w.cookies)

create_session-cookies :
    (server : Server) (user_id : String) (lifetime : ℕ) (ua : List ℕ) (w : World)
    → (create_session server user_id lifetime ua w).1.cookies ≡ w.cookies
unfolding create_session
create_session-cookies server user_id lifetime ua w = ground arith

swap_session-Swapped :
    (server : Server) (req : Request) (u : User) (token : String) (w : World)
    → is_ok (swap_session server req u token w).0 ≡ true
    → Swapped server u token w (swap_session server req u token w).1
unfolding swap_session
swap_session-Swapped server req u token w done =
    let w1 = (destroy_session server token w).1 in
    let lifetime = lifetime_of u.role in
    elim (Result-cases (create_session server u.id lifetime req.user_agent w1).0) [
      | inl (made, is_made) ↦
          let added = create_session-adds server u.id lifetime req.user_agent w1 made is_made in
          let kept = create_session-cookies server u.id lifetime req.user_agent w1 in
          (
            made,
            ground (arith, destroy_session-removes server token w, added.0, is_made),
            added.1,
            ground (arith, is_made, kept),
          )
      | inr (e, is_err) ↦ absurd (ground (arith, is_err, done))
    ]

kid_for_lem :
    (req : Request) (w : World) (u : User)
    → (kid_for req w).0 ≡ ok u
    → (u.id ≡ req.id)
      × (u.role ≡ "kid")
      × ((kid_for req w).1.db ≡ w.db)
      × ((kid_for req w).1.cookies ≡ w.cookies)
unfolding kid_for kid_by_id statement scan_user
kid_for_lem req w u found = elim (Option-cases (find? (is_kid_row req.id) w.db.users)) [
  | inl missing ↦ absurd (ground (arith, missing, found))
  | inr (r, is_row) ↦
      let holds = find?-holds (is_kid_row req.id) w.db.users r is_row in
      ground (arith, found, is_row, holds, eq_iff r.id req.id, eq_iff r.role "kid")
]

require_admin_lem :
    (server : Server) (req : Request) (w : World) (u : User)
    → (require_admin server req w).0 ≡ ok u
    → (session_user server req w ≡ some u)
      × ((u.role == "admin") ≡ true)
      × ((require_admin server req w).1 ≡ (current_user server req w).1)
unfolding require_admin require_user
require_admin_lem server req w u found =
    elim (Option-cases (answer_of (current_user server req w).0)) [
      | inl nobody ↦ absurd (ground (arith, nobody, current_user-answers server req w, found))
      | inr (v, is_v) ↦
          let answers = current_user-answers server req w ∙ ap ok is_v in
          ground (arith, answers, found, current_user_sound server req w v answers)
    ]

-- A hand-over that succeeds was asked for by an admin's live session, and names a kid; the session
-- of the request's token is gone, the device has one new session of that kid, and its cookie.
pub handle_sign_in_here-Swapped :
    (server : Server) (req : Request) (w : World)
    → is_ok (handle_sign_in_here server req w).0 ≡ true
    → (token : String) × (admin : User) × (kid : User) × (req.cookie ≡ some token)
      × (session_user server req w ≡ some admin)
      × ((admin.role == "admin") ≡ true)
      × (kid.id ≡ req.id)
      × (kid.role ≡ "kid")
      × Swapped server kid token (current_user server req w).1 (handle_sign_in_here server req w).1
unfolding handle_sign_in_here
handle_sign_in_here-Swapped server req w done =
    let w1 = (require_admin server req w).1 in
    elim (Result-cases (require_admin server req w).0) [
      | inr (r, stopped) ↦ absurd (ground (arith, stopped, done))
      | inl (admin, is_admin) ↦ elim (Result-cases (kid_for req w1).0) [
        | inr (r, no_kid) ↦ absurd (ground (arith, is_admin, no_kid, done))
        | inl (kid, is_kid) ↦ elim (Option-cases req.cookie) [
          | inl no_cookie ↦ absurd (ground (arith, is_admin, is_kid, no_cookie, done))
          | inr (token, is_token) ↦
              let w2 = (kid_for req w1).1 in
              let a = require_admin_lem server req w admin is_admin in
              let k = kid_for_lem req w1 kid is_kid in
              let runs : handle_sign_in_here server req w ≡ swap_session server req kid token w2 =
                ground (arith, is_admin, is_kid, is_token) in
              let swapped =
                swap_session-Swapped server req kid token w2
                  (ap (λ p. is_ok p.0) (sym runs) ∙ done) in
              let rows = swapped.1 in
              let cookies = swapped.3 in
              (
                token,
                admin,
                kid,
                is_token,
                a.0,
                a.1,
                k.0,
                k.1,
                (
                  swapped.0,
                  ground (arith, runs, rows, k.2, a.2),
                  swapped.2,
                  ground (arith, runs, cookies, k.3, a.2),
                ),
              )
        ]
      ]
    ]
