-- ===== src/Oidc/Verify.antt =====
-- internal/oidc/verify.go: the check of an ID token.
pub mod Laws
use homepad_api.Base.{
  ℕ, zero, suc, ◌+◌, ◌*◌, Bool, true, false, not, ◌&&◌, ◌||◌, List, [], ◌∷◌, ◌++◌, Option, none,
  some, Result, ok, err, Text, codes, ◌==◌, nat_eq, text_eq, ltb, lookup, insert, contains,
  if◌then◌else◌,
}
use homepad_api.Base.Int.{ℤ, pos, negsuc}
use homepad_api.Session.{second}
use homepad_api.Oidc.{
  Provider, Net, Call, return, fail_with, ◌then_do◌, body_of, discover, Claims, RsaKey, Jwk,
  malformed, bad_header, bad_alg, bad_key, no_key, bad_encoding, bad_signature, bad_payload,
  wrong_issuer, wrong_audience, expired, wrong_nonce,
}

pub record Header : Type 0 where
  pub alg : Text
  pub kid : Text

-- `aud` is a string or an array of strings; anything else is neither.
pub data Audience : Type 0 where
  absent other : Audience
  single : Text → Audience
  many : List Text → Audience

pub record IdTokenClaims : Type 0 where
  pub iss : Text
  pub aud : Audience
  pub exp : ℤ
  pub nonce : Text
  pub email : Text
  pub groups : List Text

-- Base64, JSON, RSA PKCS #1 v1.5 over the sha256 of its input, and the base64 of a sha256.
pub record Jose : Type 0 where
  pub decode : Text → Option (List ℕ)
  pub header_of : List ℕ → Option Header
  pub claims_of : List ℕ → Option IdTokenClaims
  pub verifies : RsaKey → Text → List ℕ → Bool
  pub challenge : Text → Text

-- `strings.Split(raw, ".")`
unfoldable pub split_dots : Text → List Text
split_dots [] = [] ∷ []
split_dots (c ∷ cs) = elim (split_dots cs) [
  | [] ↦ []
  | part ∷ parts ↦ if c == b'.' then [] ∷ part ∷ parts else (c ∷ part) ∷ parts
]

-- `new(big.Int).SetBytes`: the first byte is the highest.
abbrev number_from : ℕ → List ℕ → ℕ
number_from acc [] = acc
number_from acc (b ∷ bs) = number_from (acc * 256 + b) bs

abbrev max_int64 : ℕ
max_int64 = 9223372036854775807

unfoldable pub rsa_public_key : Jose → Text → Text → Option RsaKey
rsa_public_key jose n64 e64 = elim (jose.decode n64) [
  | none ↦ none
  | some ns ↦ elim (jose.decode e64) [
    | none ↦ none
    | some es ↦
        let e = number_from 0 es in
        if ltb max_int64 e || e == 0 then none else some (record { n = number_from 0 ns; e = e })
  ]
]

-- The RSA keys of a set by their ids, the last of an id; `none` where one of them is broken.
unfoldable pub keys_of : Jose → List (Text × RsaKey) → List Jwk → Option (List (Text × RsaKey))
unfolding rsa_public_key
keys_of jose keys [] = some keys
keys_of jose keys (jk ∷ jks) = elim (jk.kty == codes "RSA") [
  | false ↦ keys_of jose keys jks
  | true ↦ elim (rsa_public_key jose jk.n jk.e) [
    | none ↦ none
    | some key ↦ keys_of jose (insert jk.kid key keys) jks
  ]
]

-- A fetched set replaces the keys.
abbrev pub set_keys : Option (List (Text × RsaKey)) → Call (Unit {0})
set_keys none p = fail_with bad_key p
set_keys (some keys) p = (ok tt, record p { keys = keys })

unfoldable pub refresh_keys : Jose → Net → Call (Unit {0})
unfolding discover keys_of
refresh_keys jose net = discover net then_do λ m.
    body_of (net.jwks_at m.jwks_uri) then_do λ set. set_keys (keys_of jose [] set)

unfoldable pub signing_key : Jose → Net → Text → Call RsaKey
unfolding refresh_keys
signing_key jose net kid p = elim (lookup kid p.keys) [
  | some k ↦ (ok k, p)
  | none ↦
      (refresh_keys jose net then_do λ t q. elim (lookup kid q.keys) [
        | none ↦ (err no_key, q)
        | some k ↦ (ok k, q)
      ])
        p
]

unfoldable pub audience_contains : Audience → Text → Bool
audience_contains aud want = elim aud [
  | absent ↦ false
  | other ↦ false
  | single a ↦ a == want
  | many as_ ↦ contains as_ want
]

-- `time.Now().After(time.Unix(exp, 0))`, the clock in nanoseconds.
abbrev pub is_past : ℕ → ℤ → Bool
is_past now (pos n) = ltb (n * second) now
is_past now (negsuc n) = true

abbrev pub is_zero : ℤ → Bool
is_zero (pos n) = n == 0
is_zero (negsuc n) = false

-- The checks of the payload.
unfoldable pub check_claims : ℕ → Text → IdTokenClaims → Call Claims
unfolding audience_contains
check_claims now expected_nonce c p =
    if not (p.cfg.issuer == []) && not (c.iss == p.cfg.issuer)
    then (err wrong_issuer, p)
    else if not (audience_contains c.aud p.cfg.client_id)
    then (err wrong_audience, p)
    else if not (is_zero c.exp) && is_past now c.exp
    then (err expired, p)
    else if not (expected_nonce == []) && not (c.nonce == expected_nonce)
    then (err wrong_nonce, p)
    else (ok (record { email = c.email; groups = c.groups }), p)

-- The signature, and after it the payload.
unfoldable pub check_signed : Jose → ℕ → Text → Text → Text → Text → RsaKey → Call Claims
unfolding check_claims
check_signed jose now expected_nonce part0 part1 part2 key = elim (jose.decode part2) [
  | none ↦ fail_with bad_encoding
  | some sig ↦
      if not (jose.verifies key (part0 ++ codes "." ++ part1) sig)
      then fail_with bad_signature
      else elim (jose.decode part1) [
        | none ↦ fail_with bad_payload
        | some payload_json ↦ elim (jose.claims_of payload_json) [
          | none ↦ fail_with bad_payload
          | some c ↦ check_claims now expected_nonce c
        ]
      ]
]

-- The header, and after it the key.
unfoldable pub check_parts : Jose → Net → ℕ → Text → Text → Text → Text → Call Claims
unfolding signing_key check_signed
check_parts jose net now expected_nonce part0 part1 part2 = elim (jose.decode part0) [
  | none ↦ fail_with bad_header
  | some header_json ↦ elim (jose.header_of header_json) [
    | none ↦ fail_with bad_header
    | some header ↦
        if not (header.alg == codes "RS256")
        then fail_with bad_alg
        else (signing_key jose net header.kid
            then_do check_signed jose now expected_nonce part0 part1 part2)
  ]
]

-- A token has three parts.
abbrev pub check_split : Jose → Net → ℕ → Text → List Text → Call Claims
check_split jose net now expected_nonce [] = fail_with malformed
check_split jose net now expected_nonce (a ∷ []) = fail_with malformed
check_split jose net now expected_nonce (a ∷ b ∷ []) = fail_with malformed
check_split jose net now expected_nonce (a ∷ b ∷ c ∷ []) =
    check_parts jose net now expected_nonce a b c
check_split jose net now expected_nonce (a ∷ b ∷ c ∷ d ∷ rest) = fail_with malformed

unfoldable pub verify_id_token : Jose → Net → ℕ → Text → Text → Call Claims
unfolding split_dots check_parts
verify_id_token jose net now raw expected_nonce =
    check_split jose net now expected_nonce (split_dots raw)
