-- ===== src/Oidc/Sample.antt =====
-- A small identity provider: its tokens are their parts, and every signature fits.
use homepad_api.Base.{true, [], ◌∷◌, none, some, codes, text_eq}
use homepad_api.Base.Int.{pos}
use homepad_api.Oidc.{Config, Provider, Net, Jwk}
use homepad_api.Oidc.Verify.{Jose, single}

abbrev pub config : Config
config = record {
  enabled = true;
  discovery_url = codes "http://id/config";
  issuer = codes "http://id";
  client_id = codes "homepad";
  client_secret = codes "secret";
  redirect_url = codes "http://homepad/callback";
  admin_group = codes "admins";
  scopes = [];
}

abbrev key : Jwk
key = record { kid = codes "k"; kty = codes "RSA"; n = codes "n"; e = codes "e" }

abbrev pub net : Net
net = record {
  metadata_at = λ url. some (
    200,
    some (record {
      auth_endpoint = codes "a";
      token_endpoint = codes "t";
      userinfo_url = [];
      jwks_uri = codes "j";
    }),
  );
  tokens_at =
      λ url form. some (200, some (record { id_token = codes "h.p.s"; access_token = codes "x" }));
  userinfo_at = λ url token. none;
  jwks_at = λ url. some (200, some (key ∷ []));
  with_query = λ url query. some url;
}

abbrev pub jose : Jose
jose = record {
  decode = λ t. some t;
  header_of = λ bytes. some (record { alg = codes "RS256"; kid = codes "k" });
  claims_of = λ bytes. some (record {
    iss = codes "http://id";
    aud = single (codes "homepad");
    exp = pos 60;
    nonce = codes "n1";
    email = codes "ada@example.org";
    groups = codes "admins" ∷ [];
  });
  verifies = λ k input sig. true;
  challenge = λ v. v;
}

abbrev pub provider : Provider
provider = record { cfg = config; meta = none; keys = [] }
