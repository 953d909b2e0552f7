-- ===== src/Api/Auth/Registration.antt =====
-- Who may register, by handleRegister of internal/api/auth.go.
use homepad_api.Base.{
  String, Bool, true, false, not, List, [], ◌∷◌, ◌++◌, Option, some, ok, is_ok, any, filter, length,
  Option-cases, Result-cases, inl, inr, ◌==◌, nat_eq, string_eq, text_eq, ◌≡◌, refl, sym, ap, ◌∙◌,
  arith, if◌then◌else◌,
}
use homepad_api.Storage.{World, Db, UserRow, statement}
use homepad_api.Storage.Users.{count_users, create_user, has_email, adult_row}
use homepad_api.Api.{Server, registration_open, registration_closed}
use homepad_api.Api.Auth.Bodies.{decode_credentials-world}
use homepad_api.Api.Auth.{Credentials, decode_credentials, role_for, register, handle_register}

abbrev pub is_adult_row : UserRow → Bool
is_adult_row r = not (r.role == "kid")

-- There is an account of an adult.
abbrev pub has_adult : Db → Bool
has_adult db = any is_adult_row db.users

count-any : (rs : List UserRow) → (length (filter is_adult_row rs) == 0) ≡ not (any is_adult_row rs)
count-any [] = refl
count-any (r ∷ rs) = ground (arith, count-any rs)

register-closed :
    (server : Server) (c : Credentials) (w : World)
    → server.registration ≡ registration_closed
    → has_adult w.db ≡ true
    → (is_ok (register server c w).0 ≡ false) × ((register server c w).1.db ≡ w.db)
unfolding register role_for count_users statement
register-closed server c w closed one = ground (arith, closed, one, count-any w.db.users)

-- Where an adult has an account and the registration is closed, a registration is refused, and
-- nothing is written.
pub handle_register-closed :
    (server : Server) (body : Option Credentials) (w : World)
    → server.registration ≡ registration_closed
    → has_adult w.db ≡ true
    → (is_ok (handle_register server body w).0 ≡ false)
      × ((handle_register server body w).1.db ≡ w.db)
unfolding handle_register
handle_register-closed server body w closed one =
    elim (Result-cases (decode_credentials server body w).0) [
      | inl (c, is_c) ↦ ground (
        arith,
        is_c,
        decode_credentials-world server body w,
        register-closed server c w closed one,
      )
      | inr (r, stopped) ↦ ground (arith, stopped, decode_credentials-world server body w)
    ]

-- The row that a registration adds.
abbrev pub Registered : Server → Credentials → World → World → Type 0
Registered server c w w' =
    (hash : String) × (server.ext.bcrypt_hash c.password ≡ some hash)
    × (any (has_email server.ext c.email) w.db.users ≡ false)
    × (w'.db.users
        ≡ w.db.users
          ++ adult_row server.ext w.db w.clock c.email hash
              (if has_adult w.db then "user" else "admin")
            ∷ [])

register-Registered :
    (server : Server) (c : Credentials) (w : World)
    → is_ok (register server c w).0 ≡ true
    → (has_adult w.db ≡ true → server.registration ≡ registration_open)
      × Registered server c w (register server c w).1
unfolding register role_for count_users create_user statement
register-Registered server c w done = elim (Option-cases (server.ext.bcrypt_hash c.password)) [
  | inl nothing ↦ absurd (ground (arith, nothing, done))
  | inr (hash, is_hash) ↦ (
    λ one. ground (arith, one, is_hash, done, count-any w.db.users),
    (
      hash,
      is_hash,
      ground (arith, is_hash, done, count-any w.db.users),
      ground (arith, is_hash, done, count-any w.db.users),
    ),
  )
]

-- A registration that succeeds adds one row at the end of the accounts, with the e-mail of the
-- decoded body, which no account had, and the hash of its password; the role is the admin's if no
-- adult had an account, and a user's if one had, in which case the registration is open.
pub handle_register-Registered :
    (server : Server) (body : Option Credentials) (w : World)
    → is_ok (handle_register server body w).0 ≡ true
    → (c : Credentials) × ((decode_credentials server body w).0 ≡ ok c)
      × (has_adult w.db ≡ true → server.registration ≡ registration_open)
      × Registered server c w (handle_register server body w).1
unfolding handle_register
handle_register-Registered server body w done =
    elim (Result-cases (decode_credentials server body w).0) [
      | inr (r, stopped) ↦ absurd (ground (arith, stopped, done))
      | inl (c, is_c) ↦
          let runs : handle_register server body w ≡ register server c w =
            ground (arith, is_c, decode_credentials-world server body w) in
          let made = register-Registered server c w (ap (λ p. is_ok p.0) (sym runs) ∙ done) in
          (c, is_c, made.0, rw runs made.1)
    ]
