-- ===== src/Api/Settings.antt =====
-- internal/api/system.go, and handleStatusRefresh of services.go: the handlers that use the poller,
-- which they take and give back.
pub mod Threshold
use homepad_api.Base.{
  ℕ, ◌*◌, ◌/◌, String, Bool, true, false, not, ◌&&◌, ◌||◌, List, [], ◌∷◌, Option, none, some,
  Result, ok, err, ltb, if◌then◌else◌,
}
use homepad_api.Base.Int.{ℤ, pos, negsuc}
use homepad_api.Gatus.{Poller, Answer, Snapshot, set_degraded_after, poll_now, millisecond}
use homepad_api.Storage.{StoreErr, SystemSettings, Act, World, pure, throw, ◌>>=◌, ◌>>◌, statement}
use homepad_api.Storage.Settings.{system_settings, upsert_system_settings}
use homepad_api.Api.{
  Response, Handler, Request, Server, or_fail, error, write_json, internal_error, config, refreshed,
  unreachable,
}
use homepad_api.Api.Auth.{refuse_if}
use homepad_api.Api.Catalog.{decoded}
use homepad_api.Api.Sessions.{require_user, require_admin}

abbrev pub max_status_degraded_ms : ℕ
max_status_degraded_ms = 600000

abbrev pub Running : Type 0
Running = Poller String

-- The body of `systemConfigView`.
unfoldable pub to_system_config_view : Running → SystemSettings → Response
to_system_config_view poller cfg = write_json 200 (
    config cfg.show_uptime_display
      (elim cfg.status_degraded_ms [ none ↦ poller.degraded_after / millisecond | some ms ↦ ms ]))

unfoldable pub handle_system_config : Running → Handler
unfolding system_settings to_system_config_view
handle_system_config poller =
    or_fail system_settings (λ e. internal_error) >>= λ cfg. pure (to_system_config_view poller cfg)

pub record SettingsPatch : Type 0 where
  pub show_uptime_display : Option Bool
  pub status_degraded_ms : Option ℤ

-- `*ms < 0 || *ms > maxStatusDegradedMs`
abbrev pub out_of_bounds : Option ℤ → Bool
out_of_bounds none = false
out_of_bounds (some (pos n)) = ltb max_status_degraded_ms n
out_of_bounds (some (negsuc n)) = true

-- The patch over the current values.
abbrev pub merged : SettingsPatch → SystemSettings → SystemSettings
merged b cur = record {
  show_uptime_display = elim b.show_uptime_display [ none ↦ cur.show_uptime_display | some v ↦ v ];
  status_degraded_ms = elim b.status_degraded_ms [
    | none ↦ cur.status_degraded_ms
    | some ms ↦ elim ms [ pos n ↦ some n | negsuc n ↦ cur.status_degraded_ms ]
  ];
}

-- The poller runs with the saved threshold at once.
abbrev pub applied : SystemSettings → Running → Running
applied saved poller = elim saved.status_degraded_ms [
  | none ↦ poller
  | some ms ↦ set_degraded_after (ms * millisecond) poller
]

unfoldable pub handle_patch_system_settings :
    Server → Running → Request → Option SettingsPatch → Act Response (Response × Running)
unfolding require_admin system_settings upsert_system_settings set_degraded_after
    to_system_config_view
handle_patch_system_settings server poller req body = require_admin server req >>= λ admin.
    decoded body >>= λ b.
    refuse_if (out_of_bounds b.status_degraded_ms)
      (error "statusDegradedMs must be between 0 and 600000" 400)
    >> or_fail system_settings (λ e. internal_error)
    >>= λ cur. or_fail (upsert_system_settings (merged b cur)) (λ e. internal_error) >>= λ saved.
        pure (to_system_config_view (applied saved poller) saved, applied saved poller)

-- `PollNow`: the answer tells whether Gatus was reached, and carries the `as_of` that stands.
unfoldable pub handle_status_refresh :
    Server → Answer String → Running → Request → Act Response (Response × Running)
unfolding require_user poll_now
handle_status_refresh server answer poller req = require_user server req >>= λ u.
    let r = poll_now answer poller in
    pure (
      if r.0.1
      then (write_json 200 (refreshed r.0.0.as_of), r.1)
      else (write_json 503 (unreachable r.0.0.as_of), r.1))
