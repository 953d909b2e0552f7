-- ===== src/Samples.antt =====
-- A small household for the tests: an admin, a kid, a service, and a session of each.
use homepad_api.Base.{String, true, false, [], ◌∷◌, none, some, codes}
use homepad_api.Session.{Session}
use homepad_api.Storage.{UserRow, ServiceRow, LibraryApp, World, Ext}

abbrev pub ext : Ext
ext = record {
  fold = λ t. t;
  name_before = λ a b. false;
  uuid = λ n. "new";
  bcrypt_hash = λ p. some "hash";
  bcrypt_ok = λ h p. true;
  sha256 = λ t. t;
  parses_address = λ t. true;
  hex_sha256 = λ b. b;
  png_size = λ b. some (32, 32);
}

abbrev pub ada : UserRow
ada = record {
  id = "ada";
  email = some (codes "ada@example.org");
  password_hash = some "hash";
  role = "admin";
  theme_pref = "system";
  density_pref = "compact";
  show_health_bar = true;
  show_uptime_display = true;
  display_name = none;
  avatar_color = none;
  created_at = 1;
}

abbrev pub kim : UserRow
kim = record {
  id = "kim";
  email = none;
  password_hash = none;
  role = "kid";
  theme_pref = "system";
  density_pref = "large";
  show_health_bar = false;
  show_uptime_display = true;
  display_name = some (codes "Kim");
  avatar_color = some "blue";
  created_at = 2;
}

abbrev pub chess : ServiceRow
chess = record {
  id = "chess";
  user_id = "ada";
  slug = codes "chess";
  name = codes "Chess";
  description = [];
  url = codes "http://chess";
  icon = [];
  gatus_key = some "games_chess";
  category_id = none;
  source_library_id = none;
  click_action = "new_tab";
}

abbrev pub plex : LibraryApp
plex = record {
  id = "plex";
  name = codes "Plex Media Server";
  url = codes "http://plex";
  icon = [];
  description = [];
  suggested_category = [];
  sort_index = 0;
}

abbrev pub ada_session : String × Session
ada_session = (
  "ta",
  record {
    handle = "h1";
    user_id = "ada";
    created_at = 1000;
    last_seen_at = 1000;
    expires_at = 90000000000;
    user_agent = [];
    touch_due = false;
  },
)

abbrev pub kim_session : String × Session
kim_session = (
  "tk",
  record {
    handle = "h2";
    user_id = "kim";
    created_at = 1000;
    last_seen_at = 1000;
    expires_at = 90000000000;
    user_agent = [];
    touch_due = false;
  },
)

abbrev pub start : World
start = record {
  db = record {
    users = ada ∷ kim ∷ [];
    services = chess ∷ [];
    categories = [];
    favorites = ("kim", "chess") ∷ [];
    layout = [];
    collapsed = [];
    allowed = ("kim", "chess") ∷ [];
    icons = [];
    library = plex ∷ [];
    settings = none;
    sessions = ada_session ∷ kim_session ∷ [];
    next_id = 7;
  };
  faults = [];
  clock = 1000;
  draws = record { token = some "t9"; handle = some "h9" } ∷ [];
  cookies = [];
}
