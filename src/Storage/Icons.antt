-- ===== src/Storage/Icons.antt =====
-- internal/storage/storage.go: the icons of services.
use homepad_api.Base.{
  ℕ, String, Bool, not, ◌&&◌, List, [], ◌∷◌, ◌++◌, none, some, ◌==◌, string_eq, Text, any, find?,
  filter, map, ok, err, if◌then◌else◌,
}
use homepad_api.Storage.{StoreErr, not_found, IconRow, Act, statement, query, ◌>>=◌, ◌>>◌}
use homepad_api.Storage.Catalog.{has_service}
use homepad_api.Storage.Services.{service_owned_by}

-- `Icon`: the bytes and the ETag.
pub record Icon : Type 0 where
  pub bytes : List ℕ
  pub etag : Text

abbrev pub is_icon : String → String → IconRow → Bool
is_icon service_id variant i = i.service_id == service_id && i.variant == variant

unfoldable pub get_icon : String → String → String → Act StoreErr Icon
unfolding statement service_owned_by
get_icon service_id user_id variant = service_owned_by service_id user_id >>= λ t. query (λ db.
    elim (find? (is_icon service_id variant) db.icons) [
      | none ↦ err not_found
      | some i ↦ ok (record { bytes = i.bytes; etag = i.etag })
    ])

abbrev pub upsert_icon : IconRow → List IconRow → List IconRow
upsert_icon row icons =
    if any (is_icon row.service_id row.variant) icons
    then map (λ i. if is_icon row.service_id row.variant i then row else i) icons
    else icons ++ row ∷ []

unfoldable pub put_icon : IconRow → String → Act StoreErr (Unit {0})
unfolding statement service_owned_by
put_icon row user_id =
    service_owned_by row.service_id user_id
    >> statement (λ db.
      if has_service row.service_id db
      then (ok tt, record db { icons = upsert_icon row db.icons })
      else (err not_found, db))

unfoldable pub delete_icon : String → String → String → Act StoreErr (Unit {0})
unfolding statement service_owned_by
delete_icon service_id user_id variant =
    service_owned_by service_id user_id
    >> statement (λ db.
      (ok tt, record db { icons = filter (λ i. not (is_icon service_id variant i)) db.icons }))
