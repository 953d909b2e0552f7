-- ===== src/Api/Icons/KidFilter.antt =====
-- What a session reads of the icons, through handleGetIcon of internal/api/icons.go.
use homepad_api.Base.{
  String, Bool, true, some, ok, Option-cases, Result-cases, inl, inr, ◌||◌, ◌==◌, text_eq,
  string_eq, find?, ◌≡◌, sym, ap, ◌∙◌, arith, contains, Text, if◌then◌else◌,
}
use mathlib.Core.Path.{subst}
use homepad_api.Storage.{World, Db, IconRow, statement}
use homepad_api.Storage.Users.{User, shared_catalog_owner_id}
use homepad_api.Storage.Kids.{is_adult_role, allowed_to, allows, visible_service_ids}
use homepad_api.Storage.Services.{service_owned_by}
use homepad_api.Storage.Icons.{Icon, is_icon, get_icon}
use homepad_api.Api.{Response, Request, Server, icon_png, icon_unchanged, write_json}
use homepad_api.Api.Guards.{visible_services, service_visible}
use homepad_api.Api.Sessions.{current_user, require_user}
use homepad_api.Api.Sessions.Authentication.{current_user-SameRows}
use homepad_api.Api.Icons.{no_icon, quoted, show_icon, catalog_owner, handle_get_icon}

service_visible-db :
    (u : User) (id msg : String) (w : World) → (service_visible u id msg w).1.db ≡ w.db
unfolding service_visible visible_services visible_service_ids statement
service_visible-db u id msg w = ground arith

catalog_owner-db : (msg : String) (w : World) → (catalog_owner msg w).1.db ≡ w.db
unfolding catalog_owner shared_catalog_owner_id statement
catalog_owner-db msg w = ground arith

get_icon-db : (id owner variant : String) (w : World) → (get_icon id owner variant w).1.db ≡ w.db
unfolding get_icon service_owned_by statement
get_icon-db id owner variant w = ground arith

-- Who may read an icon of the service.
abbrev pub may_read : User → Db → String → Bool
may_read u db id = is_adult_role u.role || contains (allowed_to u.id db) id

service_visible-passed :
    (u : User) (id msg : String) (w : World)
    → (service_visible u id msg w).0 ≡ ok tt
    → may_read u w.db id ≡ true
unfolding service_visible visible_services visible_service_ids statement allows
service_visible-passed u id msg w passed = ground (arith, passed)

get_icon-found :
    (id owner variant : String) (w : World) (ic : Icon)
    → (get_icon id owner variant w).0 ≡ ok ic
    → (row : IconRow) × (find? (is_icon id variant) w.db.icons ≡ some row)
      × (ic.bytes ≡ row.bytes)
      × (ic.etag ≡ row.etag)
unfolding get_icon service_owned_by statement
get_icon-found id owner variant w ic found =
    elim (Option-cases (find? (is_icon id variant) w.db.icons)) [
      | inl absent ↦ absurd (ground (arith, absent, found))
      | inr (row, is_row) ↦
          (row, is_row, ground (arith, is_row, found), ground (arith, is_row, found))
    ]

-- The answer that shows a stored icon: its bytes, or that they are those the client has.
abbrev pub shown : Text → IconRow → Response
shown if_none_match row =
    if if_none_match == quoted row.etag
    then write_json 304 (icon_unchanged (quoted row.etag))
    else write_json 200 (icon_png (quoted row.etag) row.bytes)

abbrev pub Reads : User → Db → String → String → Text → Response → Type 0
Reads u db id variant if_none_match resp =
    (may_read u db id ≡ true)
    × ((row : IconRow) × (find? (is_icon id variant) db.icons ≡ some row)
        × (resp ≡ shown if_none_match row))

show_icon-shown :
    (req : Request) (variant : String) (if_none_match : Text) (w : World) (resp : Response)
    → (show_icon req variant if_none_match w).0 ≡ ok resp
    → (row : IconRow) × (find? (is_icon req.id variant) w.db.icons ≡ some row)
      × (resp ≡ shown if_none_match row)
unfolding show_icon
show_icon-shown req variant if_none_match w resp answered =
    let w1 = (catalog_owner no_icon w).1 in
    elim (Result-cases (catalog_owner no_icon w).0) [
      | inr (r, nobody) ↦ absurd (ground (arith, nobody, answered))
      | inl (owner, is_owner) ↦ elim (Result-cases (get_icon req.id owner variant w1).0) [
        | inr (e, missing) ↦ absurd (ground (arith, is_owner, missing, answered))
        | inl (ic, is_ic) ↦
            let (row, is_row, bytes, etag) = get_icon-found req.id owner variant w1 ic is_ic in
            (
              row,
              ap (λ db. find? (is_icon req.id variant) db.icons) (sym (catalog_owner-db no_icon w))
                  ∙ is_row,
              ground (arith, is_owner, is_ic, bytes, etag, answered),
            )
      ]
    ]

guards_passed :
    (server : Server) (req : Request) (variant : String) (if_none_match : Text) (w : World)
    (u : User) (resp : Response)
    → (current_user server req w).0 ≡ ok (some u)
    → (handle_get_icon server req variant if_none_match w).0 ≡ ok resp
    → ((service_visible u req.id no_icon (current_user server req w).1).0 ≡ ok tt)
      × ((show_icon req variant if_none_match
            (service_visible u req.id no_icon (current_user server req w).1).1).0
          ≡ ok resp)
unfolding handle_get_icon require_user
guards_passed server req variant if_none_match w u resp found answered =
    ground (arith, found, answered)

answers :
    (server : Server) (req : Request) (variant : String) (if_none_match : Text) (w : World)
    (u : User) (resp : Response)
    → (current_user server req w).0 ≡ ok (some u)
    → (handle_get_icon server req variant if_none_match w).0 ≡ ok resp
    → Reads u (current_user server req w).1.db req.id variant if_none_match resp
answers server req variant if_none_match w u resp found answered =
    let w1 = (current_user server req w).1 in
    let w2 = (service_visible u req.id no_icon w1).1 in
    let passed = guards_passed server req variant if_none_match w u resp found answered in
    let (row, is_row, is_resp) = show_icon-shown req variant if_none_match w2 resp passed.1 in
    (
      service_visible-passed u req.id no_icon w1 passed.0,
      (
        row,
        ap (λ db. find? (is_icon req.id variant) db.icons)
              (sym (service_visible-db u req.id no_icon w1))
            ∙ is_row,
        is_resp,
      ),
    )

-- An answer to `GET /api/services/{id}/icon/{variant}` that is no refusal shows the bytes or the
-- ETag of the stored icon of the service in that variant, and a session whose role is not an
-- adult's gets it only for a service on its allow-list.
pub handle_get_icon-Reads :
    (server : Server) (req : Request) (variant : String) (if_none_match : Text) (w : World)
    (u : User) (resp : Response)
    → (current_user server req w).0 ≡ ok (some u)
    → (handle_get_icon server req variant if_none_match w).0 ≡ ok resp
    → Reads u w.db req.id variant if_none_match resp
handle_get_icon-Reads server req variant if_none_match w u resp found answered =
    subst (λ db. Reads u db req.id variant if_none_match resp) (current_user-SameRows server req w)
      (answers server req variant if_none_match w u resp found answered)
