-- ===== src/Storage/Settings.antt =====
-- internal/storage/system_settings.go: the row of the system's settings.
use homepad_api.Base.{true, none, some, ok}
use homepad_api.Storage.{StoreErr, SystemSettings, Act, statement, query}

abbrev pub default_system_settings : SystemSettings
default_system_settings = record { show_uptime_display = true; status_degraded_ms = none }

unfoldable pub system_settings : Act StoreErr SystemSettings
unfolding statement
system_settings =
    query (λ db. ok (elim db.settings [ none ↦ default_system_settings | some s ↦ s ]))

unfoldable pub upsert_system_settings : SystemSettings → Act StoreErr SystemSettings
unfolding statement
upsert_system_settings s = statement (λ db. (ok s, record db { settings = some s }))
