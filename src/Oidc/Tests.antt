-- ===== src/Oidc/Tests.antt =====
-- Logins with a small identity provider.
use homepad_api.Base.{◌≡◌, refl, List, [], ◌∷◌, none, some, ok, codes, arith, text_eq}
use homepad_api.Oidc.{Claims}
use homepad_api.Oidc.Verify.{split_dots, verify_id_token}
use homepad_api.Oidc.Sample.{net, jose, provider}
use homepad_api.Oidc.Verify.Laws.{Passed, verify_id_token-Passed}
use homepad_api.Oidc.Pending.{Pending, put, take, puts, takes, Event, after_all}
use homepad_api.Oidc.Pending.Laws.{take-put, take_once}

abbrev of_ada : Claims
of_ada = record { email = codes "ada@example.org"; groups = codes "admins" ∷ [] }

passes : (verify_id_token jose net 1000 (codes "h.p.s") (codes "n1") provider).0 ≡ ok of_ada
unfolding verify_id_token
passes = refl

verify_id_token-Passed_example :
    ((verify_id_token jose net 1000 (codes "h.p.s") (codes "n1") provider).1.cfg ≡ provider.cfg)
    × Passed jose
        (verify_id_token jose net 1000 (codes "h.p.s") (codes "n1") provider).1
        1000
        (codes "n1")
        (split_dots (codes "h.p.s"))
        of_ada
verify_id_token-Passed_example =
    verify_id_token-Passed jose net 1000 (codes "h.p.s") (codes "n1") provider of_ada passes

abbrev empty : Pending
empty = record { entries = []; ttl = 600 }

abbrev between : List Event
between = puts 1 (codes "t") (codes "w") (codes "m") ∷ takes 2 (codes "t") ∷ []

take-put_example :
    (take 500 (codes "s") (after_all between (put 0 (codes "s") (codes "v") (codes "n") empty))).0
    ≡ some (codes "v", codes "n")
take-put_example =
    take-put 0 500 (codes "s") (codes "v") (codes "n") between empty refl (omega arith)

take_once_example :
    (take 3 (codes "s") (
      after_all between (take 1 (codes "s") (put 0 (codes "s") (codes "v") (codes "n") empty)).1)).0
    ≡ none
take_once_example =
    take_once 1 3 (codes "s") between (put 0 (codes "s") (codes "v") (codes "n") empty) refl
