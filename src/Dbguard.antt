-- ===== src/Dbguard.antt =====
-- internal/dbguard/guard.go: which databases the integration tests may truncate. `url.Parse` comes in
-- as its result, the host and the path.
use homepad_api.Base.{
  Bool, ◌||◌, List, [], ◌∷◌, Option, none, some, Text, codes, ◌==◌, nat_eq, text_eq, any,
  if◌then◌else◌,
}
use homepad_api.Api.Icons.Favicon.{has_part}

pub data Verdict : Type 0 where
  allowed unparsed production not_a_test : Verdict

abbrev pub production_hosts : List Text
production_hosts = codes "homepad-pg-rw.homepad.svc" ∷ codes "homepad-pg-rw.homepad" ∷ []

-- `strings.TrimPrefix(path, "/")`
abbrev pub database_name : Text → Text
database_name [] = []
database_name (c ∷ cs) = if c == b'/' then cs else c ∷ cs

-- `strings.HasSuffix(s, suffix)`
abbrev pub has_suffix : Text → Text → Bool
has_suffix suffix [] = suffix == []
has_suffix suffix (c ∷ cs) = suffix == c ∷ cs || has_suffix suffix cs

unfoldable pub check_test_database : Option (Text × Text) → Verdict
check_test_database none = unparsed
check_test_database (some (host, path)) =
    if any (λ prod. has_part prod host) production_hosts
    then production
    else let name = database_name path in
      if name == codes "homepad_test" || has_suffix (codes "_test") name
      then allowed
      else not_a_test
