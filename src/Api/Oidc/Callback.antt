-- ===== src/Api/Oidc/Callback.antt =====
-- Whom handleOIDCCallback of internal/api/oidc.go signs in.
use homepad_api.Base.{
  err, ℕ, String, true, false, ◌||◌, [], some, ok, Result-cases, Option-cases, Bool-cases, inl, inr,
  is_ok, Text, ◌==◌, text_eq, nat_eq, string_eq, contains, ◌≡◌, ◌∙◌, ap, refl, arith, if◌then◌else◌,
}
use homepad_api.Oidc.{
  Config, Provider, Net, Tokens, Http, OidcErr, token_form, exchanged, Claims, discover, exchange,
  body_of, return, fail_with,
}
use homepad_api.Oidc.Pending.{take}
use homepad_api.Oidc.Verify.{Jose, split_dots, verify_id_token}
use homepad_api.Oidc.Verify.Laws.{
  Passed, verify_id_token-Passed, KeepsCfg, then_do-KeepsCfg, body_of-KeepsCfg, discover-KeepsCfg,
}
use homepad_api.Storage.{World, Ext, statement}
use homepad_api.Storage.Users.{User, user_by_email, create_user, scan_user}
use homepad_api.Storage.Kids.{is_adult_role}
use homepad_api.Api.{error, Request, Server}
use homepad_api.Api.Oidc.{
  Oidc, oidc_no_password, is_missing, complete_claims, identify, resolve_oidc_user, role_of,
  sign_in, finish_login, handle_oidc_callback,
}

-- The claims of a token that passed, completed, with an e-mail.
abbrev pub Identified : Net → Jose → ℕ → Text → Text → Text → Provider → Claims → Type 0
Identified net jose now code verifier nonce p c =
    (tokens : Tokens) × (claims : Claims) × let q = (exchange net code verifier p).1 in
      let v = verify_id_token jose net now tokens.id_token nonce q in
      ((exchange net code verifier p).0 ≡ ok tokens)
      × (v.0 ≡ ok claims)
      × Passed jose v.1 now nonce (split_dots tokens.id_token) claims
      × (v.1.cfg ≡ p.cfg)
      × (c ≡ (complete_claims net tokens.access_token claims v.1).0)
      × ((c.email == []) ≡ false)

exchanged-KeepsCfg : (answer : Http Tokens) → KeepsCfg (exchanged answer)
exchanged-KeepsCfg answer =
    then_do-KeepsCfg (body_of answer)
      (λ tr. if tr.id_token == [] then fail_with OidcErr.no_id_token else return tr)
      (body_of-KeepsCfg answer) λ tr p. ground arith

exchange-KeepsCfg : (net : Net) (code verifier : Text) → KeepsCfg (exchange net code verifier)
unfolding exchange
exchange-KeepsCfg net code verifier =
    then_do-KeepsCfg (discover net)
      (λ m p. exchanged (net.tokens_at m.token_endpoint (token_form p.cfg code verifier)) p)
      (discover-KeepsCfg net)
      λ m p. exchanged-KeepsCfg (net.tokens_at m.token_endpoint (token_form p.cfg code verifier)) p

identify-Identified :
    (net : Net) (jose : Jose) (now : ℕ) (code verifier nonce : Text) (p : Provider) (c : Claims)
    → (identify net jose now code verifier nonce p).0 ≡ ok c
    → Identified net jose now code verifier nonce p c
unfolding identify
identify-Identified net jose now code verifier nonce p c h =
    let q = (exchange net code verifier p).1 in
    elim (Result-cases (exchange net code verifier p).0) [
      | inr (e, stopped) ↦ absurd (ground (arith, stopped, h))
      | inl (tokens, is_t) ↦
          let v = verify_id_token jose net now tokens.id_token nonce q in
          elim (Result-cases v.0) [
            | inr (e, stopped) ↦ absurd (ground (arith, is_t, stopped, h))
            | inl (claims, is_c) ↦
                let f = complete_claims net tokens.access_token claims v.1 in
                elim (Bool-cases (f.0.email == [])) [
                  | inl empty ↦ absurd (ground (arith, is_t, is_c, empty, h))
                  | inr filled ↦
                      let same : c ≡ f.0 = ground (arith, is_t, is_c, filled, h) in
                      let passed =
                        verify_id_token-Passed jose net now tokens.id_token nonce q claims is_c in
                      (
                        tokens,
                        claims,
                        (
                          is_t,
                          is_c,
                          passed.1,
                          passed.0 ∙ exchange-KeepsCfg net code verifier p,
                          same,
                          ap (λ x. x.email == []) same ∙ filled,
                        ),
                      )
                ]
          ]
    ]

create_user-role :
    (ext : Ext) (email : Text) (hash role : String) (w : World) (u : User)
    → (create_user ext email hash role w).0 ≡ ok u
    → u.role ≡ role
unfolding create_user scan_user statement
create_user-role ext email hash role w u h = ground (arith, h)

role_of-adult : (cfg : Config) (c : Claims) → is_adult_role (role_of cfg c) ≡ true
unfolding is_adult_role
role_of-adult cfg c = elim (Bool-cases (cfg.admin_group == [])) [
  | inl unset ↦ rw unset refl
  | inr set ↦ elim (Bool-cases (contains c.groups cfg.admin_group)) [
    | inl member ↦ rw (set, member) refl
    | inr stranger ↦ rw (set, stranger) refl
  ]
]

resolve_oidc_user-adult :
    (server : Server) (cfg : Config) (c : Claims) (w : World) (u : User)
    → (resolve_oidc_user server cfg c w).0 ≡ ok u
    → is_adult_role u.role ≡ true
unfolding resolve_oidc_user
resolve_oidc_user-adult server cfg c w u h =
    let w1 = (user_by_email server.ext c.email w).1 in
    let role = role_of cfg c in
    elim (Result-cases (user_by_email server.ext c.email w).0) [
      | inl (r, is_r) ↦ elim (Bool-cases (is_adult_role r.role)) [
        | inl adult ↦ ground (arith, is_r, adult, h)
        | inr child ↦ absurd (ground (arith, is_r, child, h))
      ]
      | inr (e, is_e) ↦ elim (Bool-cases (is_missing e)) [
        | inr broken ↦ absurd (ground (arith, is_e, broken, h))
        | inl missing ↦
            let made : (create_user server.ext c.email oidc_no_password role w1).0 ≡ ok u =
              ground (arith, is_e, missing, h) in
            ap is_adult_role (create_user-role server.ext c.email oidc_no_password role w1 u made)
            ∙ role_of-adult cfg c
      ]
    ]

-- A sign-in of the claims that succeeds is of an adult.
sign_in-adult :
    (server : Server) (cfg : Config) (req : Request) (c : Claims) (w : World)
    → is_ok (sign_in server cfg req c w).0 ≡ true
    → (u : User) × ((resolve_oidc_user server cfg c w).0 ≡ ok u) × (is_adult_role u.role ≡ true)
unfolding sign_in
sign_in-adult server cfg req c w done = elim (Result-cases (resolve_oidc_user server cfg c w).0) [
  | inr (e, stopped) ↦ absurd (ground (arith, stopped, done))
  | inl (u, is_u) ↦ (u, is_u, resolve_oidc_user-adult server cfg c w u is_u)
]

-- The login that the state stands for, the claims, and the account.
abbrev pub SignedIn : Server → Net → Jose → Text → Text → Oidc → World → Type 0
SignedIn server net jose state code o w =
    (verifier : Text) × (nonce : Text) × (c : Claims) × (u : User) × ((take w.clock state
        o.pending).0
      ≡ some (verifier, nonce))
    × Identified net jose w.clock code verifier nonce o.provider c
    × ((resolve_oidc_user server o.config c w).0 ≡ ok u)
    × (is_adult_role u.role ≡ true)

-- A callback that signs in was given the state of a login that was under way. The ID token that the
-- code was exchanged for passed the check against that login's nonce, the completed claims have an
-- e-mail, and the account that they resolve to is an adult's. Where the state and the code are both
-- there the login is taken from those under way, whatever the answer; where one is missing the
-- answer is a 400, and neither the logins under way nor anything else is changed.
pub handle_oidc_callback-SignedIn :
    (server : Server) (net : Net) (jose : Jose) (req : Request) (state code : Text) (o : Oidc)
    (w : World)
    → (is_ok (handle_oidc_callback server net jose req state code o w).0 ≡ true
        → SignedIn server net jose state code o w)
      × ((state == [] || code == []) ≡ false
          → (handle_oidc_callback server net jose req state code o w).2.pending
            ≡ (take w.clock state o.pending).1)
      × ((state == [] || code == []) ≡ true
          → handle_oidc_callback server net jose req state code o w
            ≡ (err (error "missing state or code" 400), w, o))
unfolding handle_oidc_callback finish_login
handle_oidc_callback-SignedIn server net jose req state code o w =
    let t = take w.clock state o.pending in
    elim (Option-cases t.0) [
      | inl unknown ↦ (
        λ done. absurd (ground (arith, unknown, done)),
        λ given. ground (arith, unknown, given),
        λ missing. ground (arith, missing),
      )
      | inr ((verifier, nonce), is_login) ↦
          let id = identify net jose w.clock code verifier nonce o.provider in
          elim (Result-cases id.0) [
            | inr (r, stopped) ↦ (
              λ done. absurd (ground (arith, is_login, stopped, done)),
              λ given. ground (arith, is_login, stopped, given),
              λ missing. ground (arith, missing),
            )
            | inl (c, is_c) ↦ (
              λ done.
                  let signed =
                    sign_in-adult server o.config req c w (ground (arith, is_login, is_c, done)) in
                  (
                    verifier,
                    nonce,
                    c,
                    signed.0,
                    is_login,
                    identify-Identified net jose w.clock code verifier nonce o.provider c is_c,
                    signed.1,
                    signed.2,
                  ),
              λ given. ground (arith, is_login, is_c, given),
              λ missing. ground (arith, missing),
            )
          ]
    ]
