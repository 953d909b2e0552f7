-- ===== src/Api/Oidc.antt =====
-- internal/api/oidc.go: the sign-in with an identity provider. The query's `state` and `code` and the
-- random tokens are arguments, and the provider and the logins under way are taken and given back.
pub mod Callback
mod Tests
use homepad_api.Base.{
  ℕ, String, Bool, true, false, ◌||◌, List, [], ◌∷◌, Option, none, some, Result, ok, err, Text,
  codes, ◌==◌, nat_eq, text_eq, length, contains, if◌then◌else◌,
}
use homepad_api.Oidc.{Config, Provider, Net, Claims, auth_code_url, exchange, userinfo}
use homepad_api.Oidc.Pending.{Pending, put, take}
use homepad_api.Oidc.Verify.{Jose, verify_id_token}
use homepad_api.Storage.{
  StoreErr, not_found, failed, Act, World, pure, throw, ◌>>=◌, ◌>>◌, statement,
}
use homepad_api.Storage.Users.{User, user_by_email, create_user}
use homepad_api.Storage.Kids.{is_adult_role}
use homepad_api.Api.{
  Response, Handler, Request, Server, or_fail, error, write_json, internal_error, redirect_to,
  oidc_config,
}
use homepad_api.Api.Sessions.{start_session}

-- The part of `server` that the sign-in uses.
pub record Oidc : Type 0 where
  pub config : Config
  pub provider : Provider
  pub pending : Pending

-- A hash that no password fits.
abbrev pub oidc_no_password : String
oidc_no_password = "oidc:no-local-password"

unfoldable pub handle_oidc_config : Oidc → Handler
handle_oidc_config o = pure (write_json 200 (oidc_config o.config.enabled))

-- The tokens are the state, the nonce and the verifier.
unfoldable pub handle_oidc_login :
    Net → Jose → Text × Text × Text → Oidc → World → Result Response Response × World × Oidc
unfolding auth_code_url put
handle_oidc_login net jose (state, nonce, verifier) o w =
    let r = auth_code_url net state nonce (jose.challenge verifier) o.provider in
    elim r.0 [
      | err e ↦ (err (error "oidc provider unavailable" 502), w, record o { provider = r.1 })
      | ok url ↦ (
        ok (write_json 302 (redirect_to url)),
        w,
        record o { provider = r.1; pending = put w.clock state verifier nonce o.pending },
      )
    ]

-- What the token leaves out is taken from the userinfo.
abbrev pub filled : Claims → Claims → Claims
filled c ui = record {
  email = if c.email == [] then ui.email else c.email;
  groups = if length c.groups == 0 then ui.groups else c.groups;
}

unfoldable pub complete_claims : Net → Text → Claims → Provider → Claims × Provider
unfolding userinfo
complete_claims net access_token c p =
    if c.email == [] || length c.groups == 0
    then elim (userinfo net access_token p).0 [
      | ok ui ↦ (filled c ui, (userinfo net access_token p).1)
      | err e ↦ (c, (userinfo net access_token p).1)
    ]
    else (c, p)

-- From the code to the claims, or the refusal.
unfoldable pub identify :
    Net → Jose → ℕ → Text → Text → Text → Provider → Result Response Claims × Provider
unfolding exchange verify_id_token complete_claims
identify net jose now code verifier nonce p =
    let t = exchange net code verifier p in
    elim t.0 [
      | err e ↦ (err (error "oidc token exchange failed" 502), t.1)
      | ok tokens ↦
          let v = verify_id_token jose net now tokens.id_token nonce t.1 in
          elim v.0 [
            | err e ↦ (err (error "invalid id token" 401), v.1)
            | ok c ↦
                let f = complete_claims net tokens.access_token c v.1 in
                if f.0.email == []
                then (err (error "oidc identity has no email" 401), f.1)
                else (ok f.0, f.1)
          ]
    ]

-- The role of an account that the sign-in creates.
abbrev pub role_of : Config → Claims → String
role_of cfg c =
    if cfg.admin_group == []
    then "user"
    else if contains c.groups cfg.admin_group
    then "admin"
    else "user"

-- `errors.Is(err, storage.ErrNotFound)`
abbrev pub is_missing : StoreErr → Bool
is_missing e = elim e [ not_found ↦ true | _ ↦ false ]

unfoldable pub resolve_oidc_user : Server → Config → Claims → Act StoreErr User
unfolding user_by_email is_adult_role create_user
resolve_oidc_user server cfg c w =
    let r = user_by_email server.ext c.email w in
    elim r.0 [
      | ok u ↦ if is_adult_role u.role then r else (err failed, r.1)
      | err e ↦
          if is_missing e
          then create_user server.ext c.email oidc_no_password (role_of cfg c) r.1
          else r
    ]

-- `Secure` stays off, whatever COOKIE_SECURE says.
abbrev pub plain : Server → Server
plain server = record server { cookie_secure = false }

unfoldable pub sign_in : Server → Config → Request → Claims → Handler
unfolding resolve_oidc_user start_session
sign_in server cfg req c = or_fail (resolve_oidc_user server cfg c) (λ e. internal_error) >>= λ u.
    start_session (plain server) req u >> pure (write_json 302 (redirect_to (codes "/")))

-- With the taken login: the provider is asked, and the account signed in.
unfoldable pub finish_login :
    Server
    → Net
    → Jose
    → Request
    → Text
    → Text × Text
    → Pending
    → Oidc
    → World
    → Result Response Response × World × Oidc
unfolding identify sign_in
finish_login server net jose req code login rest o w =
    let id = identify net jose w.clock code login.0 login.1 o.provider in
    let o1 = record o { provider = id.1; pending = rest } in
    elim id.0 [
      | err r ↦ (err r, w, o1)
      | ok c ↦ let r = sign_in server o.config req c w in (r.0, r.1, o1)
    ]

unfoldable pub handle_oidc_callback :
    Server
    → Net
    → Jose
    → Request
    → Text
    → Text
    → Oidc
    → World
    → Result Response Response × World × Oidc
unfolding take finish_login
handle_oidc_callback server net jose req state code o w =
    if state == [] || code == []
    then (err (error "missing state or code" 400), w, o)
    else let t = take w.clock state o.pending in
      elim t.0 [
        | none ↦ (err (error "invalid or expired login state" 400), w, record o { pending = t.1 })
        | some login ↦ finish_login server net jose req code login t.1 o w
      ]
