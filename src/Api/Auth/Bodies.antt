-- ===== src/Api/Auth/Bodies.antt =====
-- What decodeCredentials of internal/api/auth.go lets through.
use homepad_api.Base.{
  true, false, [], Option, none, some, ok, ◌==◌, nat_eq, text_eq, ◌≡◌, refl, arith, length,
  trim_space, ltb,
}
use homepad_api.Storage.{World}
use homepad_api.Api.{Server}
use homepad_api.Api.Auth.{Credentials, decode_credentials}

pub decode_credentials-world :
    (server : Server) (body : Option Credentials) (w : World)
    → (decode_credentials server body w).1 ≡ w
unfolding decode_credentials
decode_credentials-world server none w = refl
decode_credentials-world server (some c) w = ground arith

-- The credentials that are let through are those of the body, with the e-mail trimmed; the e-mail
-- is not empty and parses as an address, and the password has at least 8 bytes.
pub decode_credentials_lem :
    (server : Server) (b c : Credentials) (w : World)
    → (decode_credentials server (some b) w).0 ≡ ok c
    → (c.email ≡ trim_space b.email)
      × (c.password ≡ b.password)
      × ((c.email == []) ≡ false)
      × (server.ext.parses_address c.email ≡ true)
      × (ltb (length c.password) 8 ≡ false)
unfolding decode_credentials
decode_credentials_lem server b c w h = ground (arith, h)
