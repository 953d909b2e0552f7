-- ===== src/Api/Icons/Accepted.antt =====
-- What internal/api/icons.go stores: images within the caps only.
use homepad_api.Base.{
  ℕ, ◌+◌, String, Bool, true, false, not, ◌&&◌, List, [], ◌∷◌, Option, ◌==◌, nat_eq, string_eq,
  text_eq, text_equals_iff, ltb, length, take, if◌then◌else◌, ◌≡◌, sym, refl, arith, inl, inr,
  Bool-cases, Option-cases, Result-cases, any, map, any-add, any-filter,
}
use mathlib.Core.Path.{subst}
use homepad_api.Storage.{IconRow, Db, World, Ext, Act, statement}
use homepad_api.Storage.Icons.{put_icon, delete_icon, is_icon}
use homepad_api.Storage.Services.{service_owned_by, service_url}
use homepad_api.Api.{Response, Request, Server, no_content, write_json, icon_url}
use homepad_api.Api.Sessions.{require_admin, require_user}
use homepad_api.Api.Sessions.Authentication.{current_user-SameRows}
use homepad_api.Api.Icons.{
  is_png, bad_size, icon_max_bytes, check_upload, check_fetched, icon_row, valid_variant,
  store_icon, handle_put_icon, handle_delete_icon, handle_fetch_icon,
}
use homepad_api.Api.Icons.Checks.{Checks, Fits, check_upload-Fits, check_fetched-Fits}
use homepad_api.Api.Icons.Favicon.{Web, fetch_favicon}

module _ (ext : Ext) where
  -- A stored image is a PNG of at most 256 KiB, from 16 to 512 pixels wide and high, under its own
  -- hash and one of the two variants.
  abbrev pub good : IconRow → Bool
  good i =
      not (ltb icon_max_bytes (length i.bytes))
      && is_png i.bytes
      && not (bad_size (i.width, i.height))
      && i.etag == ext.hex_sha256 i.bytes
      && valid_variant i.variant

  abbrev bad : IconRow → Bool
  bad i = not (good i)

  -- No image that is stored is another.
  abbrev pub IsGood : Db → Type 0
  IsGood db = any bad db.icons ≡ false

  any-replaced :
      (row : IconRow) (icons : List IconRow)
      → good row ≡ true
      → any bad icons ≡ false
      → any bad (map (λ i. if is_icon row.service_id row.variant i then row else i) icons) ≡ false
  any-replaced row [] p h = refl
  any-replaced row (i ∷ is) p h = elim (Bool-cases (is_icon row.service_id row.variant i)) [
    | inl same ↦ rw same (ground (arith, any-replaced row is p))
    | inr other ↦ rw other (ground (arith, any-replaced row is p))
  ]

  put_icon-IsGood :
      (row : IconRow) (user_id : String) (w : World)
      → good row ≡ true
      → IsGood w.db
      → IsGood (put_icon row user_id w).1.db
  unfolding put_icon service_owned_by statement
  put_icon-IsGood row user_id w g h =
      ground (arith, any-replaced row w.db.icons g h, any-add bad w.db.icons row)

  delete_icon-IsGood :
      (id user_id variant : String) (w : World)
      → IsGood w.db
      → IsGood (delete_icon id user_id variant w).1.db
  unfolding delete_icon service_owned_by statement
  delete_icon-IsGood id user_id variant w h =
      ground (arith, any-filter bad (λ i. not (is_icon id variant i)) w.db.icons h)

  abbrev fits : List ℕ → ℕ × ℕ → Bool
  fits body size = not (ltb icon_max_bytes (length body)) && is_png body && not (bad_size size)

  Fits-good :
      (id variant : String) (body : List ℕ) (size : ℕ × ℕ)
      → Fits body size
      → valid_variant variant ≡ true
      → good (icon_row ext id variant body size) ≡ true
  Fits-good id variant body size h v =
      ground (arith, h.0, h.1, h.2, v, text_equals_iff (ext.hex_sha256 body) (ext.hex_sha256 body))

-- The guards keep the icons.
require_admin-icons :
    (server : Server) (req : Request) (w : World)
    → (require_admin server req w).1.db.icons ≡ w.db.icons
unfolding require_admin require_user
require_admin-icons server req w = ground (arith, current_user-SameRows server req w)

-- A row whose checks let it through goes in.
store_icon-IsGood :
    (ext : Ext) (id variant user_id : String) (body : List ℕ) (m : Act Response (ℕ × ℕ))
    (answer : Response) (w : World)
    → Checks (Fits body) m
    → valid_variant variant ≡ true
    → IsGood ext w.db
    → IsGood ext (store_icon ext id variant user_id m body answer w).1.db
unfolding store_icon
store_icon-IsGood ext id variant user_id body m answer w checks v h =
    let w1 = (m w).1 in
    let before : IsGood ext w1.db = subst (IsGood ext) (sym (checks w).0) h in
    elim (Result-cases (m w).0) [
      | inr (r, stopped) ↦ ground (arith, stopped, before)
      | inl (size, is_size) ↦
          let row = icon_row ext id variant body size in
          let after =
            put_icon-IsGood ext row user_id w1
              (Fits-good ext id variant body size ((checks w).1 size is_size) v) before in
          ground (arith, is_size, after)
    ]

put-IsGood :
    (server : Server) (req : Request) (variant : String) (raw : Option (List ℕ)) (w : World)
    → IsGood server.ext w.db
    → IsGood server.ext (handle_put_icon server req variant raw w).1.db
unfolding handle_put_icon
put-IsGood server req variant raw w h =
    let ext = server.ext in
    let w1 = (require_admin server req w).1 in
    let icons = require_admin-icons server req w in
    elim (Result-cases (require_admin server req w).0) [
      | inr (r, stopped) ↦ ground (arith, stopped, icons, h)
      | inl (u, is_u) ↦ elim (Bool-cases (valid_variant variant)) [
        | inr unknown ↦ ground (arith, is_u, unknown, icons, h)
        | inl v ↦ elim (Option-cases raw) [
          | inl unread ↦ ground (arith, is_u, v, unread, icons, h)
          | inr (bytes, is_read) ↦
              let body = take (icon_max_bytes + 1) bytes in
              let before : IsGood ext w1.db = ground (arith, icons, h) in
              ground (
                arith,
                is_u,
                v,
                is_read,
                store_icon-IsGood ext req.id variant u.id body (check_upload ext body) no_content w1
                    (check_upload-Fits ext body) v before,
              )
        ]
      ]
    ]

delete-IsGood :
    (server : Server) (req : Request) (variant : String) (w : World)
    → IsGood server.ext w.db
    → IsGood server.ext (handle_delete_icon server req variant w).1.db
unfolding handle_delete_icon
delete-IsGood server req variant w h =
    let ext = server.ext in
    let w1 = (require_admin server req w).1 in
    let icons = require_admin-icons server req w in
    let before : IsGood ext w1.db = ground (arith, icons, h) in
    elim (Result-cases (require_admin server req w).0) [
      | inr (r, stopped) ↦ ground (arith, stopped, before)
      | inl (u, is_u) ↦
          ground (arith, is_u, before, delete_icon-IsGood ext req.id u.id variant w1 before)
    ]

service_url-db : (id user_id : String) (w : World) → (service_url id user_id w).1.db ≡ w.db
unfolding service_url statement
service_url-db id user_id w = ground arith

light : valid_variant "light" ≡ true
unfolding valid_variant
light = refl

fetch-IsGood :
    {U : Type 0} (server : Server) (web : Web U) (req : Request) (w : World)
    → IsGood server.ext w.db
    → IsGood server.ext (handle_fetch_icon server web req w).1.db
unfolding handle_fetch_icon
fetch-IsGood server web req w h =
    let ext = server.ext in
    let w1 = (require_admin server req w).1 in
    let icons = require_admin-icons server req w in
    let before : IsGood ext w1.db = ground (arith, icons, h) in
    elim (Result-cases (require_admin server req w).0) [
      | inr (r, stopped) ↦ ground (arith, stopped, before)
      | inl (u, is_u) ↦
          let w2 = (service_url req.id u.id w1).1 in
          let before2 : IsGood ext w2.db =
            subst (IsGood ext) (sym (service_url-db req.id u.id w1)) before in
          elim (Result-cases (service_url req.id u.id w1).0) [
            | inr (e, stopped) ↦ ground (arith, is_u, stopped, before2)
            | inl (raw_url, is_url) ↦
                elim (Result-cases (fetch_favicon web (icon_max_bytes + 1) raw_url)) [
                  | inr (e, stopped) ↦ ground (arith, is_u, is_url, stopped, before2)
                  | inl (body, fetched) ↦ ground (
                    arith,
                    is_u,
                    is_url,
                    fetched,
                    store_icon-IsGood ext req.id "light" u.id body (check_fetched ext body)
                        (write_json 200 (icon_url req.id)) w2 (check_fetched-Fits ext body) light
                        before2,
                  )
                ]
          ]
    ]

-- If every stored icon is a PNG of at most 256 KiB, 16 to 512 pixels wide and high, under its hash
-- and a known variant, then this stays so through every upload, fetch and deletion of an icon,
-- whatever is sent and whatever the fetched page and image are.
pub icon_handlers-IsGood :
    {U : Type 0} (server : Server) (req : Request) (w : World)
    → IsGood server.ext w.db
    → ((variant : String) (raw : Option (List ℕ))
        → IsGood server.ext (handle_put_icon server req variant raw w).1.db)
      × ((web : Web U) → IsGood server.ext (handle_fetch_icon server web req w).1.db)
      × ((variant : String) → IsGood server.ext (handle_delete_icon server req variant w).1.db)
icon_handlers-IsGood server req w h = (
  λ variant raw. put-IsGood server req variant raw w h,
  λ web. fetch-IsGood server web req w h,
  λ variant. delete-IsGood server req variant w h,
)
