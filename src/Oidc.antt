-- ===== src/Oidc.antt =====
-- internal/oidc/oidc.go: the client of the identity provider. A call takes the provider and gives it
-- back with what it has learnt. The HTTP client with the decoding of JSON, `net/url`, base64, RSA
-- with sha256 and the random tokens are the arguments `net` and `jose`. Errors are told apart by
-- where they arise.
pub mod Pending
pub mod Verify
pub mod Sample
mod Tests
use homepad_api.Base.{
  ℕ, ◌+◌, String, Bool, true, false, ◌||◌, List, [], ◌∷◌, ◌++◌, Option, none, some, Result, ok, err,
  Text, codes, ◌==◌, nat_eq, text_eq, map, to_lower, trim_space, trim_right, length, if◌then◌else◌,
}
use homepad_api.Base.Int.{ℤ}

pub data OidcErr : Type 0 where
  unreachable bad_status bad_json no_endpoints bad_endpoint no_id_token : OidcErr
  malformed bad_header bad_alg bad_key no_key bad_encoding bad_signature : OidcErr
  bad_payload wrong_issuer wrong_audience expired wrong_nonce : OidcErr

pub record Config : Type 0 where
  pub enabled : Bool
  pub discovery_url : Text
  pub issuer : Text
  pub client_id : Text
  pub client_secret : Text
  pub redirect_url : Text
  pub admin_group : Text
  pub scopes : List Text

abbrev pub default_scopes : List Text
default_scopes = codes "openid" ∷ codes "profile" ∷ codes "email" ∷ codes "groups" ∷ []

unfoldable pub truthy : Text → Bool
unfolding trim_space to_lower
truthy v =
    let w = map to_lower (trim_space v) in
    w == codes "1" || w == codes "true" || w == codes "yes" || w == codes "on"

-- The environment is a function of the variable's name, empty where it is not set.
unfoldable pub config_from_env : (String → Text) → Config
unfolding truthy trim_right
config_from_env getenv = record {
  enabled = truthy (getenv "OIDC_ENABLED");
  discovery_url = getenv "OIDC_DISCOVERY_URL";
  issuer = trim_right (λ c. c == b'/') (getenv "OIDC_ISSUER");
  client_id = getenv "OIDC_CLIENT_ID";
  client_secret = getenv "OIDC_CLIENT_SECRET";
  redirect_url = getenv "OIDC_REDIRECT_URL";
  admin_group = getenv "OIDC_ADMIN_GROUP";
  scopes = default_scopes;
}

-- `Config.discoveryURL`
unfoldable pub discovery_address : Config → Text
discovery_address c =
    if c.discovery_url == []
    then c.issuer ++ codes "/.well-known/openid-configuration"
    else c.discovery_url

pub record Metadata : Type 0 where
  pub auth_endpoint : Text
  pub token_endpoint : Text
  pub userinfo_url : Text
  pub jwks_uri : Text

pub record Tokens : Type 0 where
  pub id_token : Text
  pub access_token : Text

pub record Claims : Type 0 where
  pub email : Text
  pub groups : List Text

-- A public key: the modulus and the exponent.
pub record RsaKey : Type 0 where
  pub n : ℕ
  pub e : ℕ

-- An entry of the key set, its numbers in base64.
pub record Jwk : Type 0 where
  pub kid : Text
  pub kty : Text
  pub n : Text
  pub e : Text

-- `none` where no answer comes, else the status and the decoded body, if it decodes.
abbrev pub Http : Type 0 → Type 0
Http A = Option (ℕ × Option A)

pub record Net : Type 0 where
  pub metadata_at : Text → Http Metadata
  pub tokens_at : Text → List (Text × Text) → Http Tokens
  pub userinfo_at : Text → Text → Http Claims
  pub jwks_at : Text → Http (List Jwk)
  pub with_query : Text → List (Text × Text) → Option Text

pub record Provider : Type 0 where
  pub cfg : Config
  pub meta : Option Metadata
  pub keys : List (Text × RsaKey)

unfoldable pub new_provider : Config → Provider
new_provider cfg = record {
  cfg = if length cfg.scopes == 0 then record cfg { scopes = default_scopes } else cfg;
  meta = none;
  keys = [];
}

-- A call of the provider.
abbrev pub Call : Type 0 → Type 0
Call A = Provider → Result OidcErr A × Provider

abbrev pub return : {A : Type 0} → A → Call A
return a p = (ok a, p)

abbrev pub fail_with : {A : Type 0} → OidcErr → Call A
fail_with e p = (err e, p)

infixl 5 ◌then_do◌
abbrev pub ◌then_do◌ : {A B : Type 0} → Call A → (A → Call B) → Call B
◌then_do◌ m f p = elim (m p).0 [ ok a ↦ f a (m p).1 | err e ↦ (err e, (m p).1) ]

-- The decoded body of an answer with the status 200.
abbrev pub body_of : {A : Type 0} → Http A → Call A
body_of none = fail_with unreachable
body_of (some (status, body)) =
    if status == 200
    then elim body [ none ↦ fail_with bad_json | some a ↦ return a ]
    else fail_with bad_status

-- The metadata is fetched once and kept.
unfoldable pub discover : Net → Call Metadata
unfolding discovery_address
discover net p = elim p.meta [
  | some m ↦ (ok m, p)
  | none ↦
      (body_of (net.metadata_at (discovery_address p.cfg)) then_do λ m q.
      if m.auth_endpoint == [] || m.token_endpoint == [] || m.jwks_uri == []
      then (err no_endpoints, q)
      else (ok m, record q { meta = some m }))
        p
]

-- `strings.Join(scopes, " ")`
abbrev joined : List Text → Text
joined [] = []
joined (s ∷ []) = s
joined (s ∷ t ∷ ts) = s ++ codes " " ++ joined (t ∷ ts)

unfoldable pub auth_code_url : Net → Text → Text → Text → Call Text
unfolding discover
auth_code_url net state nonce challenge = discover net then_do λ m p.
    elim (net.with_query m.auth_endpoint (
      (codes "response_type", codes "code")
      ∷ (codes "client_id", p.cfg.client_id)
      ∷ (codes "redirect_uri", p.cfg.redirect_url)
      ∷ (codes "scope", joined p.cfg.scopes)
      ∷ (codes "state", state)
      ∷ (codes "nonce", nonce)
      ∷ (codes "code_challenge", challenge)
      ∷ (codes "code_challenge_method", codes "S256")
      ∷ [])) [ none ↦ (err bad_endpoint, p) | some url ↦ (ok url, p) ]

abbrev pub token_form : Config → Text → Text → List (Text × Text)
token_form cfg code verifier =
    (codes "grant_type", codes "authorization_code")
    ∷ (codes "code", code)
    ∷ (codes "redirect_uri", cfg.redirect_url)
    ∷ (codes "client_id", cfg.client_id)
    ∷ (codes "client_secret", cfg.client_secret)
    ∷ (codes "code_verifier", verifier)
    ∷ []

-- What the token endpoint answered.
abbrev pub exchanged : Http Tokens → Call Tokens
exchanged answer =
    body_of answer then_do λ tr. if tr.id_token == [] then fail_with no_id_token else return tr

unfoldable pub exchange : Net → Text → Text → Call Tokens
unfolding discover
exchange net code verifier = discover net then_do λ m p.
    exchanged (net.tokens_at m.token_endpoint (token_form p.cfg code verifier)) p

unfoldable pub userinfo : Net → Text → Call Claims
unfolding discover
userinfo net access_token = discover net then_do λ m.
    if m.userinfo_url == []
    then return (record { email = []; groups = [] })
    else body_of (net.userinfo_at m.userinfo_url access_token)
