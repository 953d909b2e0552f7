-- ===== src/Api/Settings/Threshold.antt =====
-- The threshold of a slow answer, through handlePatchSystemSettings of internal/api/system.go.
use homepad_api.Base.{Bool, true, false, Option, none, some, ◌≡◌, arith, ltb, if◌then◌else◌}
use homepad_api.Storage.{SystemSettings, World, statement}
use homepad_api.Storage.Settings.{system_settings, upsert_system_settings}
use homepad_api.Api.{Request, Server}
use homepad_api.Api.Sessions.{require_admin, require_user}
use homepad_api.Api.Sessions.Authentication.{current_user-SameRows}
use homepad_api.Api.Settings.{
  SettingsPatch, Running, handle_patch_system_settings, max_status_degraded_ms,
}

-- A threshold that is stored is at most ten minutes.
abbrev pub bounded : Option SystemSettings → Bool
bounded none = true
bounded (some s) = elim s.status_degraded_ms [
  | none ↦ true
  | some ms ↦ if ltb max_status_degraded_ms ms then false else true
]

-- If the stored threshold is within its bounds, ten minutes at most, then no patch of the
-- settings, whoever sends it and whatever it holds, takes it out of them.
pub handle_patch_system_settings-bounded :
    (server : Server) (poller : Running) (req : Request) (body : Option SettingsPatch) (w : World)
    → bounded w.db.settings ≡ true
    → bounded (handle_patch_system_settings server poller req body w).1.db.settings ≡ true
unfolding handle_patch_system_settings require_admin require_user system_settings
    upsert_system_settings statement
handle_patch_system_settings-bounded server poller req body w before =
    ground (arith, before, current_user-SameRows server req w)
