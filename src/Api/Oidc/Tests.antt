-- ===== src/Api/Oidc/Tests.antt =====
-- Ada's sign-in with the small identity provider.
use homepad_api.Base.{◌≡◌, refl, true, false, ◌||◌, [], ◌∷◌, none, is_ok, err, codes, ◌==◌, text_eq}
use homepad_api.Samples.{ext, start}
use homepad_api.Session.{clock_now}
use homepad_api.Oidc.Pending.{take}
use homepad_api.Oidc.Sample.{config, net, jose, provider}
use homepad_api.Api.{error, Request, Server, registration_closed}
use homepad_api.Api.Oidc.{Oidc, handle_oidc_callback}
use homepad_api.Api.Oidc.Callback.{SignedIn, handle_oidc_callback-SignedIn}

abbrev server : Server
server = record { ext = ext; cookie_secure = true; registration = registration_closed }

abbrev browser : Request
browser = record { cookie = none; id = ""; sid = ""; user_agent = [] }

abbrev under_way : Oidc
under_way = record {
  config = config;
  provider = provider;
  pending = record {
    entries =
        (codes "s", record { verifier = codes "v"; nonce = codes "n1"; expires = 600000000000 })
        ∷ [];
    ttl = 600000000000;
  };
}

signed_in :
    is_ok (handle_oidc_callback server net jose browser (codes "s") (codes "c") under_way start).0
    ≡ true
unfolding handle_oidc_callback clock_now
signed_in = refl

handle_oidc_callback-SignedIn_example :
    (is_ok (handle_oidc_callback server net jose browser (codes "s") (codes "c") under_way start).0
        ≡ true
      → SignedIn server net jose (codes "s") (codes "c") under_way start)
    × ((codes "s" == [] || codes "c" == []) ≡ false
        → (handle_oidc_callback server net jose browser
            (codes "s")
            (codes "c")
            under_way
            start).2.pending
          ≡ (take start.clock (codes "s") under_way.pending).1)
    × ((codes "s" == [] || codes "c" == []) ≡ true
        → handle_oidc_callback server net jose browser (codes "s") (codes "c") under_way start
          ≡ (err (error "missing state or code" 400), start, under_way))
handle_oidc_callback-SignedIn_example =
    handle_oidc_callback-SignedIn server net jose browser (codes "s") (codes "c") under_way start
