-- ===== src/Api/Auth/Login.antt =====
-- Whom handleLogin of internal/api/auth.go signs in.
use homepad_api.Base.{
  ℕ, String, true, false, not, ◌&&◌, List, Option, none, some, ok, is_ok, Bool-cases, Option-cases,
  Result-cases, inl, inr, ◌==◌, nat_eq, string_eq, text_eq, ◌≡◌, sym, ap, ◌∙◌, arith, find?,
}
use homepad_api.Session.{lifetime_of}
use homepad_api.Session.Pg
use homepad_api.Storage.{World, UserRow, statement}
use homepad_api.Storage.Users.{User, user_by_email, has_email, scan_user}
use homepad_api.Storage.Kids.{is_adult_role}
use homepad_api.Api.{Request, Server, write_json, user, new_user_view}
use homepad_api.Api.Sessions.{start_session, create_session, destroy_replaced}
use homepad_api.Api.Auth.Bodies.{decode_credentials-world}
use homepad_api.Api.Auth.{Credentials, decode_credentials, accepts, login, handle_login}

-- The row that an e-mail signs in.
abbrev pub row_of : Server → Credentials → World → Option UserRow
row_of server c w = find? (λ r. has_email server.ext c.email r && not (r.role == "kid")) w.db.users

login-adult :
    (server : Server) (req : Request) (c : Credentials) (w : World) (r : UserRow)
    → row_of server c w ≡ some r
    → is_ok (login server req c w).0 ≡ true
    → (is_adult_role r.role ≡ true)
      × (server.ext.bcrypt_ok (scan_user r).password_hash c.password ≡ true)
      × ((login server req c w).0 ≡ ok (write_json 200 (user (new_user_view (scan_user r)))))
unfolding login user_by_email accepts statement scan_user
login-adult server req c w r is_r done = ground (arith, is_r, done)

login-nobody :
    (server : Server) (req : Request) (c : Credentials) (w : World)
    → row_of server c w ≡ none
    → is_ok (login server req c w).0 ≡ false
unfolding login user_by_email statement
login-nobody server req c w nobody = ground (arith, nobody)

-- A sign-in that succeeds is of an account with the e-mail of the decoded body and one of the two
-- adult roles, whose hash the password fits; the answer is 200 with that account.
pub handle_login-adult :
    (server : Server) (req : Request) (body : Option Credentials) (w : World)
    → is_ok (handle_login server req body w).0 ≡ true
    → (c : Credentials) × (r : UserRow) × ((decode_credentials server body w).0 ≡ ok c)
      × (row_of server c w ≡ some r)
      × (is_adult_role r.role ≡ true)
      × (server.ext.bcrypt_ok (scan_user r).password_hash c.password ≡ true)
      × ((handle_login server req body w).0
          ≡ ok (write_json 200 (user (new_user_view (scan_user r)))))
unfolding handle_login
handle_login-adult server req body w done =
    elim (Result-cases (decode_credentials server body w).0) [
      | inr (r, stopped) ↦ absurd (ground (arith, stopped, done))
      | inl (c, is_c) ↦
          let runs : handle_login server req body w ≡ login server req c w =
            ground (arith, is_c, decode_credentials-world server body w) in
          let works = ap (λ p. is_ok p.0) (sym runs) ∙ done in
          elim (Option-cases (row_of server c w)) [
            | inl nobody ↦ absurd (ground (arith, login-nobody server req c w nobody, works))
            | inr (r, is_r) ↦
                let l = login-adult server req c w r is_r works in
                (c, r, is_c, is_r, l.0, l.1, ap (λ p. p.0) runs ∙ l.2)
          ]
    ]

create_session-fails :
    (server : Server) (user_id : String) (lifetime : ℕ) (ua : List ℕ) (w : World)
    → is_ok (create_session server user_id lifetime ua w).0 ≡ false
    → ((create_session server user_id lifetime ua w).1.db ≡ w.db)
      × ((create_session server user_id lifetime ua w).1.cookies ≡ w.cookies)
unfolding create_session Pg.create Pg.add Pg.exec Pg.insert_row
create_session-fails server user_id lifetime ua w undone = ground (arith, undone)

pub start_session-fails :
    (server : Server) (req : Request) (u : User) (w : World)
    → is_ok (start_session server req u w).0 ≡ false
    → ((start_session server req u w).1.db ≡ w.db)
      × ((start_session server req u w).1.cookies ≡ w.cookies)
unfolding start_session destroy_replaced
start_session-fails server req u w undone =
    elim (Result-cases (create_session server u.id (lifetime_of u.role) req.user_agent w).0) [
      | inl (made, is_made) ↦ absurd (ground (arith, is_made, undone))
      | inr (e, is_e) ↦ ground (
        arith,
        is_e,
        create_session-fails server u.id (lifetime_of u.role) req.user_agent w (ap is_ok is_e),
      )
    ]

login-fails :
    (server : Server) (req : Request) (c : Credentials) (w : World)
    → is_ok (login server req c w).0 ≡ false
    → ((login server req c w).1.db ≡ w.db) × ((login server req c w).1.cookies ≡ w.cookies)
unfolding login user_by_email statement
login-fails server req c w undone =
    let w1 = (user_by_email server.ext c.email w).1 in
    elim (Result-cases (user_by_email server.ext c.email w).0) [
      | inr (e, is_e) ↦ ground (arith, is_e)
      | inl (u, is_u) ↦ elim (Bool-cases (accepts server c u)) [
        | inr refused ↦ ground (arith, is_u, refused)
        | inl accepted ↦ elim (Bool-cases (is_ok (start_session server req u w1).0)) [
          | inl started ↦ absurd (ground (arith, is_u, accepted, started, undone))
          | inr stopped ↦
              ground (arith, is_u, accepted, stopped, start_session-fails server req u w1 stopped)
        ]
      ]
    ]

-- A sign-in that fails leaves the database and sets no cookie.
pub handle_login-fails :
    (server : Server) (req : Request) (body : Option Credentials) (w : World)
    → is_ok (handle_login server req body w).0 ≡ false
    → ((handle_login server req body w).1.db ≡ w.db)
      × ((handle_login server req body w).1.cookies ≡ w.cookies)
unfolding handle_login
handle_login-fails server req body w undone =
    elim (Result-cases (decode_credentials server body w).0) [
      | inr (r, stopped) ↦ ground (arith, stopped, decode_credentials-world server body w)
      | inl (c, is_c) ↦
          let runs : handle_login server req body w ≡ login server req c w =
            ground (arith, is_c, decode_credentials-world server body w) in
          rw runs (login-fails server req c w (ap (λ p. is_ok p.0) (sym runs) ∙ undone))
    ]
