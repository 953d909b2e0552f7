-- ===== src/Oidc/Verify/Laws.antt =====
-- What VerifyIDToken of internal/oidc/verify.go lets through.
use homepad_api.Base.{
  ℕ, true, not, ◌||◌, List, [], ◌∷◌, ◌++◌, Option, none, some, ok, Text, codes, ◌==◌, nat_eq,
  text_eq, lookup, ◌≡◌, ◌∙◌, sym, ap, refl, arith, inl, inr, Bool-cases, Option-cases, Result-cases,
}
use mathlib.Core.Path.{subst}
use homepad_api.Oidc.{
  Config, Provider, Net, Call, Claims, RsaKey, Http, discovery_address, body_of, discover,
  ◌then_do◌,
}
use homepad_api.Oidc.Verify.{
  Header, IdTokenClaims, Jose, keys_of, set_keys, split_dots, signing_key, refresh_keys,
  audience_contains, is_zero, is_past, check_claims, check_signed, check_split, check_parts,
  verify_id_token,
}

-- The claims of a payload that the checks let through: the provider's issuer, where one is set, the
-- client among the audience, no expiry or one that is not past, and the nonce, where one is expected.
abbrev pub Checked : Config → ℕ → Text → IdTokenClaims → Type 0
Checked cfg now expected_nonce c =
    ((cfg.issuer == [] || c.iss == cfg.issuer) ≡ true)
    × (audience_contains c.aud cfg.client_id ≡ true)
    × ((is_zero c.exp || not (is_past now c.exp)) ≡ true)
    × ((expected_nonce == [] || c.nonce == expected_nonce) ≡ true)

check_claims-Checked :
    (now : ℕ) (expected_nonce : Text) (c : IdTokenClaims) (p : Provider) (claims : Claims)
    → (check_claims now expected_nonce c p).0 ≡ ok claims
    → Checked p.cfg now expected_nonce c × (claims ≡ record { email = c.email; groups = c.groups })
unfolding check_claims
check_claims-Checked now expected_nonce c p claims h = ground (arith, h)

-- A call leaves the configuration.
abbrev pub KeepsCfg : {A : Type 0} → Call A → Type 0
KeepsCfg m = (p : Provider) → (m p).1.cfg ≡ p.cfg

pub then_do-KeepsCfg :
    {A B : Type 0} (m : Call A) (k : A → Call B)
    → KeepsCfg m
    → ((a : A) → KeepsCfg (k a))
    → KeepsCfg (m then_do k)
then_do-KeepsCfg m k first next p = elim (Result-cases (m p).0) [
  | inl (a, is_a) ↦ ground (arith, is_a, first p, next a (m p).1)
  | inr (e, is_e) ↦ ground (arith, is_e, first p)
]

pub body_of-KeepsCfg : {A : Type 0} (answer : Http A) → KeepsCfg (body_of answer)
body_of-KeepsCfg none p = refl
body_of-KeepsCfg (some (status, body)) p = ground arith

pub discover-KeepsCfg : (net : Net) → KeepsCfg (discover net)
unfolding discover discovery_address
discover-KeepsCfg net p = elim (Option-cases p.meta) [
  | inr (m, known) ↦ ground (arith, known)
  | inl unknown ↦
      let answer = net.metadata_at (discovery_address p.cfg) in
      let same = body_of-KeepsCfg answer p in
      elim (Result-cases (body_of answer p).0) [
        | inl (m, is_m) ↦ ground (arith, unknown, is_m, same)
        | inr (e, is_e) ↦ ground (arith, unknown, is_e, same)
      ]
]

set_keys-KeepsCfg : (o : Option (List (Text × RsaKey))) → KeepsCfg (set_keys o)
set_keys-KeepsCfg none p = refl
set_keys-KeepsCfg (some keys) p = refl

refresh_keys-KeepsCfg : (jose : Jose) (net : Net) → KeepsCfg (refresh_keys jose net)
unfolding refresh_keys
refresh_keys-KeepsCfg jose net =
    then_do-KeepsCfg (discover net)
      (λ m. body_of (net.jwks_at m.jwks_uri) then_do λ set. set_keys (keys_of jose [] set))
      (discover-KeepsCfg net)
      λ m.
        then_do-KeepsCfg (body_of (net.jwks_at m.jwks_uri)) (λ set. set_keys (keys_of jose [] set))
          (body_of-KeepsCfg (net.jwks_at m.jwks_uri)) λ set. set_keys-KeepsCfg (keys_of jose [] set)

-- The key is one of the set that the provider then has, under that id.
signing_key_lem :
    (jose : Jose) (net : Net) (kid : Text) (p : Provider)
    → ((signing_key jose net kid p).1.cfg ≡ p.cfg)
      × ((key : RsaKey)
          → (signing_key jose net kid p).0 ≡ ok key
          → lookup kid (signing_key jose net kid p).1.keys ≡ some key)
unfolding signing_key
signing_key_lem jose net kid p =
    let q = (refresh_keys jose net p).1 in
    let same = refresh_keys-KeepsCfg jose net p in
    elim (Option-cases (lookup kid p.keys)) [
      | inr (key, known) ↦ (ground (arith, known), λ k h. ground (arith, known, h))
      | inl unknown ↦ elim (Result-cases (refresh_keys jose net p).0) [
        | inr (e, stopped) ↦ (
          ground (arith, unknown, stopped, same),
          λ k h. absurd (ground (arith, unknown, stopped, h)),
        )
        | inl (t, done) ↦ elim (Option-cases (lookup kid q.keys)) [
          | inl missing ↦ (
            ground (arith, unknown, done, missing, same),
            λ k h. absurd (ground (arith, unknown, done, missing, h)),
          )
          | inr (key, found) ↦ (
            ground (arith, unknown, done, found, same),
            λ k h. ground (arith, unknown, done, found, h),
          )
        ]
      ]
    ]

check_claims-provider :
    (now : ℕ) (expected_nonce : Text) (c : IdTokenClaims) (p : Provider)
    → (check_claims now expected_nonce c p).1 ≡ p
unfolding check_claims
check_claims-provider now expected_nonce c p = ground arith

-- The signature fits the key, and the payload passes the checks.
abbrev pub Signed : Jose → Config → ℕ → Text → Text → Text → Text → RsaKey → Claims → Type 0
Signed jose cfg now expected_nonce part0 part1 part2 key claims =
    (sig : List ℕ) × (payload_json : List ℕ) × (c : IdTokenClaims) × (jose.decode part2 ≡ some sig)
    × (jose.verifies key (part0 ++ codes "." ++ part1) sig ≡ true)
    × (jose.decode part1 ≡ some payload_json)
    × (jose.claims_of payload_json ≡ some c)
    × Checked cfg now expected_nonce c
    × (claims ≡ record { email = c.email; groups = c.groups })

check_signed-provider :
    (jose : Jose) (now : ℕ) (expected_nonce part0 part1 part2 : Text) (key : RsaKey) (p : Provider)
    → (check_signed jose now expected_nonce part0 part1 part2 key p).1 ≡ p
unfolding check_signed
check_signed-provider jose now expected_nonce part0 part1 part2 key p =
    elim (Option-cases (jose.decode part2)) [
      | inl missing ↦ ground (arith, missing)
      | inr (sig, is_sig) ↦ elim (Option-cases (jose.decode part1)) [
        | inl missing ↦ ground (arith, is_sig, missing)
        | inr (pj, is_pj) ↦ elim (Option-cases (jose.claims_of pj)) [
          | inl missing ↦ ground (arith, is_sig, is_pj, missing)
          | inr (c, is_c) ↦
              ground (arith, is_sig, is_pj, is_c, check_claims-provider now expected_nonce c p)
        ]
      ]
    ]

check_signed-Signed :
    (jose : Jose) (now : ℕ) (expected_nonce part0 part1 part2 : Text) (key : RsaKey) (p : Provider)
    (claims : Claims)
    → (check_signed jose now expected_nonce part0 part1 part2 key p).0 ≡ ok claims
    → Signed jose p.cfg now expected_nonce part0 part1 part2 key claims
unfolding check_signed
check_signed-Signed jose now expected_nonce part0 part1 part2 key p claims h =
    elim (Option-cases (jose.decode part2)) [
      | inl missing ↦ absurd (ground (arith, missing, h))
      | inr (sig, is_sig) ↦
          elim (Bool-cases (jose.verifies key (part0 ++ codes "." ++ part1) sig)) [
            | inr forged ↦ absurd (ground (arith, is_sig, forged, h))
            | inl signed ↦ elim (Option-cases (jose.decode part1)) [
              | inl missing ↦ absurd (ground (arith, is_sig, signed, missing, h))
              | inr (pj, is_pj) ↦ elim (Option-cases (jose.claims_of pj)) [
                | inl missing ↦ absurd (ground (arith, is_sig, signed, is_pj, missing, h))
                | inr (c, is_c) ↦
                    let passed : (check_claims now expected_nonce c p).0 ≡ ok claims =
                      ground (arith, is_sig, signed, is_pj, is_c, h) in
                    let checked = check_claims-Checked now expected_nonce c p claims passed in
                    (sig, pj, c, is_sig, signed, is_pj, is_c, checked.0, checked.1)
              ]
            ]
          ]
    ]

-- The header names RS256 and the id of a key that the provider has.
abbrev pub Keyed : Jose → Provider → Text → RsaKey → Type 0
Keyed jose p part0 key =
    (header_json : List ℕ) × (header : Header) × (jose.decode part0 ≡ some header_json)
    × (jose.header_of header_json ≡ some header)
    × ((header.alg == codes "RS256") ≡ true)
    × (lookup header.kid p.keys ≡ some key)

-- A header, a payload and a signature that the check lets through.
abbrev pub Verified : Jose → Provider → ℕ → Text → Text → Text → Text → Claims → Type 0
Verified jose p now expected_nonce part0 part1 part2 claims =
    (key : RsaKey) × Keyed jose p part0 key
    × Signed jose p.cfg now expected_nonce part0 part1 part2 key claims

check_parts-Verified :
    (jose : Jose) (net : Net) (now : ℕ) (expected_nonce part0 part1 part2 : Text) (p : Provider)
    (claims : Claims)
    → (check_parts jose net now expected_nonce part0 part1 part2 p).0 ≡ ok claims
    → ((check_parts jose net now expected_nonce part0 part1 part2 p).1.cfg ≡ p.cfg)
      × Verified jose
          (check_parts jose net now expected_nonce part0 part1 part2 p).1
          now
          expected_nonce
          part0
          part1
          part2
          claims
unfolding check_parts
check_parts-Verified jose net now expected_nonce part0 part1 part2 p claims h =
    let all = check_parts jose net now expected_nonce part0 part1 part2 p in
    elim (Option-cases (jose.decode part0)) [
      | inl no_header ↦ absurd (ground (arith, no_header, h))
      | inr (hj, is_hj) ↦ elim (Option-cases (jose.header_of hj)) [
        | inl no_header ↦ absurd (ground (arith, is_hj, no_header, h))
        | inr (header, is_header) ↦ elim (Bool-cases (header.alg == codes "RS256")) [
          | inr other_alg ↦ absurd (ground (arith, is_hj, is_header, other_alg, h))
          | inl alg ↦
              let q = (signing_key jose net header.kid p).1 in
              let of_key = signing_key_lem jose net header.kid p in
              elim (Result-cases (signing_key jose net header.kid p).0) [
                | inr (e, stopped) ↦ absurd (ground (arith, is_hj, is_header, alg, stopped, h))
                | inl (key, is_key) ↦
                    let runs : all ≡ check_signed jose now expected_nonce part0 part1 part2 key q =
                      ground (arith, is_hj, is_header, alg, is_key) in
                    let here : all.1 ≡ q =
                      ap (λ r. r.1) runs
                      ∙ check_signed-provider jose now expected_nonce part0 part1 part2 key q in
                    (
                      ap (λ r. r.cfg) here ∙ of_key.0,
                      subst (λ r. Verified jose r now expected_nonce part0 part1 part2 claims)
                          (sym here)
                          (
                            key,
                            (hj, header, is_hj, is_header, alg, of_key.1 key is_key),
                            check_signed-Signed jose now expected_nonce part0 part1 part2 key q
                                claims (ap (λ r. r.0) (sym runs) ∙ h),
                          ),
                    )
              ]
        ]
      ]
    ]

-- A token in three parts that the check lets through.
abbrev pub Passed : Jose → Provider → ℕ → Text → List Text → Claims → Type 0
Passed jose p now expected_nonce parts claims =
    (part0 : Text) × (part1 : Text) × (part2 : Text) × (parts ≡ part0 ∷ part1 ∷ part2 ∷ [])
    × Verified jose p now expected_nonce part0 part1 part2 claims

check_split-Passed :
    (jose : Jose) (net : Net) (now : ℕ) (expected_nonce : Text) (parts : List Text) (p : Provider)
    (claims : Claims)
    → (check_split jose net now expected_nonce parts p).0 ≡ ok claims
    → ((check_split jose net now expected_nonce parts p).1.cfg ≡ p.cfg)
      × Passed jose
          (check_split jose net now expected_nonce parts p).1
          now
          expected_nonce
          parts
          claims
check_split-Passed jose net now expected_nonce [] p claims h = absurd (ground (arith, h))
check_split-Passed jose net now expected_nonce (a ∷ []) p claims h = absurd (ground (arith, h))
check_split-Passed jose net now expected_nonce (a ∷ b ∷ []) p claims h = absurd (ground (arith, h))
check_split-Passed jose net now expected_nonce (a ∷ b ∷ c ∷ []) p claims h =
    let v = check_parts-Verified jose net now expected_nonce a b c p claims h in
    (v.0, (a, b, c, refl, v.1))
check_split-Passed jose net now expected_nonce (a ∷ b ∷ c ∷ d ∷ rest) p claims h =
    absurd (ground (arith, h))

-- A token that passes has three parts. Its header names RS256 and the id of a key that the provider
-- has, the signature over the header and the payload verifies with that key, and the payload holds
-- the configured issuer, where one is set, the client among the audience, no expiry or one that is
-- not past, and the expected nonce, where one is; the claims answered are the payload's.
pub verify_id_token-Passed :
    (jose : Jose) (net : Net) (now : ℕ) (raw expected_nonce : Text) (p : Provider) (claims : Claims)
    → (verify_id_token jose net now raw expected_nonce p).0 ≡ ok claims
    → ((verify_id_token jose net now raw expected_nonce p).1.cfg ≡ p.cfg)
      × Passed jose
          (verify_id_token jose net now raw expected_nonce p).1
          now
          expected_nonce
          (split_dots raw)
          claims
unfolding verify_id_token
verify_id_token-Passed jose net now raw expected_nonce p claims h =
    check_split-Passed jose net now expected_nonce (split_dots raw) p claims h
