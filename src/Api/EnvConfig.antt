-- ===== src/Api/EnvConfig.antt =====
-- internal/api/env_config.go: the environment as the admin sees it, from a list of variables without
-- a secret among them. The environment is a function of the name, empty where it is not set.
use homepad_api.Base.{String, List, [], ◌∷◌, Text, map, string_eq}
use homepad_api.Storage.{pure, ◌>>=◌}
use homepad_api.Api.{Handler, Request, Server, write_json, env_config}
use homepad_api.Api.Sessions.{require_admin}

abbrev pub allowlisted_env_vars : List String
allowlisted_env_vars =
    "GATUS_BASE_URL" ∷ "GATUS_DEGRADED_MS" ∷ "COOKIE_SECURE" ∷ "HOMEPAD_REGISTRATION" ∷ "PORT"
    ∷ "OIDC_ENABLED" ∷ "OIDC_ISSUER" ∷ "OIDC_DISCOVERY_URL" ∷ "OIDC_REDIRECT_URL" ∷ "OIDC_CLIENT_ID"
    ∷ "OIDC_ADMIN_GROUP" ∷ []

unfoldable pub handle_admin_env_config : Server → (String → Text) → Request → Handler
unfolding require_admin
handle_admin_env_config server getenv req = require_admin server req >>= λ u. pure (
    write_json 200
      (env_config (map (λ k. record { key = k; value = getenv k }) allowlisted_env_vars)))
