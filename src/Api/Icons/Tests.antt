-- ===== src/Api/Icons/Tests.antt =====
-- The icon of the sample household's service.
use homepad_api.Base.{◌≡◌, refl, ℕ, String, true, List, [], Option, some, ok, is_ok, ◌∷◌, Text}
use homepad_api.Storage.{World, IconRow}
use homepad_api.Storage.Users.{scan_user}
use homepad_api.Samples.{ext, start, kim}
use homepad_api.Session.{clock_now, touch_due_at}
use homepad_api.Api.{Request, Server, registration_closed}
use homepad_api.Storage.Icons.{get_icon}
use homepad_api.Api.Guards.{service_visible}
use homepad_api.Api.Sessions.{current_user}
use homepad_api.Api.Icons.KidFilter.{shown, Reads, handle_get_icon-Reads}
use homepad_api.Api.Icons.{
  png_magic, valid_variant, handle_get_icon, handle_put_icon, handle_fetch_icon, handle_delete_icon,
}
use homepad_api.Api.Icons.Favicon.{Web}
use homepad_api.Api.Icons.Accepted.{IsGood, icon_handlers-IsGood}

abbrev server : Server
server = record { ext = ext; cookie_secure = true; registration = registration_closed }

abbrev of_ada : Request
of_ada = record { cookie = some "ta"; id = "chess"; sid = ""; user_agent = [] }

stored : is_ok (handle_put_icon server of_ada "dark" (some png_magic) start).0 ≡ true
unfolding handle_put_icon clock_now touch_due_at
stored = refl

icon_handlers-IsGood_example :
    ((variant : String) (raw : Option (List ℕ))
      → IsGood server.ext (handle_put_icon server of_ada variant raw start).1.db)
    × ((web : Web Text) → IsGood server.ext (handle_fetch_icon server web of_ada start).1.db)
    × ((variant : String) → IsGood server.ext (handle_delete_icon server of_ada variant start).1.db)
icon_handlers-IsGood_example = icon_handlers-IsGood server of_ada start refl

abbrev chess_icon : IconRow
chess_icon = record {
  service_id = "chess";
  variant = "dark";
  bytes = png_magic;
  width = 16;
  height = 16;
  etag = [];
}

abbrev decorated : World
decorated = record start { db = record start.db { icons = chess_icon ∷ [] } }

abbrev of_kim : Request
of_kim = record { cookie = some "tk"; id = "chess"; sid = ""; user_agent = [] }

kim_found : (current_user server of_kim decorated).0 ≡ ok (some (scan_user kim))
unfolding current_user clock_now touch_due_at
kim_found = refl

shown_to_kim : (handle_get_icon server of_kim "dark" [] decorated).0 ≡ ok (shown [] chess_icon)
unfolding handle_get_icon valid_variant service_visible get_icon clock_now touch_due_at
shown_to_kim = refl

handle_get_icon-Reads_example :
    Reads (scan_user kim) decorated.db "chess" "dark" [] (shown [] chess_icon)
handle_get_icon-Reads_example =
    handle_get_icon-Reads server of_kim "dark" [] decorated (scan_user kim) (shown [] chess_icon)
      kim_found shown_to_kim
