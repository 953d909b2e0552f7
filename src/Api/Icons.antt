-- ===== src/Api/Icons.antt =====
-- internal/api/icons.go: the icons' handlers. A body is the list of its bytes, `none` where reading
-- it fails; the path's variant and the header `If-None-Match` are arguments.
pub mod Favicon
pub mod Checks
pub mod Accepted
mod KidFilter
mod Tests
use homepad_api.Base.{
  ℕ, ◌+◌, ◌*◌, String, Bool, true, false, not, ◌&&◌, ◌||◌, List, [], ◌∷◌, ◌++◌, Option, none, some,
  Result, ok, err, Text, ◌==◌, nat_eq, string_eq, text_eq, ltb, length, take, if◌then◌else◌,
}
use homepad_api.Storage.{StoreErr, not_found, IconRow, Act, Ext, pure, throw, ◌>>=◌, ◌>>◌}
use homepad_api.Storage.Users.{shared_catalog_owner_id}
use homepad_api.Storage.Services.{service_url}
use homepad_api.Storage.Icons.{get_icon, put_icon, delete_icon}
use homepad_api.Api.{
  Response, Handler, Request, Server, or_fail, error, write_json, internal_error, no_content,
  icon_png, icon_unchanged, icon_url,
}
use homepad_api.Api.Auth.{refuse_if}
use homepad_api.Api.Sessions.{require_user, require_admin}
use homepad_api.Api.Guards.{service_visible}
use homepad_api.Api.Catalog.{no_such_service}
use homepad_api.Api.Icons.Favicon.{Web, FaviconErr, invalid_service_url, no_favicon, fetch_favicon}

abbrev pub icon_max_bytes : ℕ
icon_max_bytes = 256 * 1024

abbrev pub icon_max_dim : ℕ
icon_max_dim = 512

abbrev pub icon_min_dim : ℕ
icon_min_dim = 16

-- The eight bytes that a PNG starts with.
abbrev pub png_magic : List ℕ
png_magic = 0x89 ∷ 0x50 ∷ 0x4E ∷ 0x47 ∷ 0x0D ∷ 0x0A ∷ 0x1A ∷ 0x0A ∷ []

unfoldable pub valid_variant : String → Bool
valid_variant v = v == "light" || v == "dark"

abbrev bad_variant : Response
bad_variant = error "variant must be light or dark" 400

abbrev pub no_icon : String
no_icon = "no icon for that variant"

unfoldable pub catalog_owner : String → Act Response String
unfolding shared_catalog_owner_id
catalog_owner not_found_msg =
    or_fail shared_catalog_owner_id
      (λ e. elim e [ not_found ↦ error not_found_msg 404 | _ ↦ internal_error ])

abbrev icon_failure : StoreErr → Response
icon_failure e = elim e [ not_found ↦ error no_icon 404 | _ ↦ internal_error ]

-- The ETag's header: in quotes.
abbrev pub quoted : Text → Text
quoted etag = b'"' ∷ etag ++ b'"' ∷ []

-- The stored icon, after the checks of the session and the path.
unfoldable pub show_icon : Request → String → Text → Handler
unfolding catalog_owner
show_icon req variant if_none_match = catalog_owner no_icon >>= λ owner.
    or_fail (get_icon req.id owner variant) icon_failure >>= λ ic.
    let etag = quoted ic.etag in
    pure (
      if if_none_match == etag
      then write_json 304 (icon_unchanged etag)
      else write_json 200 (icon_png etag ic.bytes))

unfoldable pub handle_get_icon : Server → Request → String → Text → Handler
unfolding require_user show_icon
handle_get_icon server req variant if_none_match = require_user server req >>= λ u.
    refuse_if (not (valid_variant variant)) bad_variant
    >> service_visible u req.id no_icon
    >> show_icon req variant if_none_match

unfoldable pub is_png : List ℕ → Bool
is_png body =
    not (ltb (length body) (length png_magic)) && take (length png_magic) body == png_magic

unfoldable pub bad_size : ℕ × ℕ → Bool
bad_size size =
    ltb icon_max_dim size.0
    || ltb icon_max_dim size.1
    || ltb size.0 icon_min_dim
    || ltb size.1 icon_min_dim

-- The image's size, where it can be read and is within the caps.
abbrev pub sized : Option (ℕ × ℕ) → Response → Response → Act Response (ℕ × ℕ)
sized none corrupt unfit = throw corrupt
sized (some size) corrupt unfit = refuse_if (bad_size size) unfit >> pure size

-- The checks of an image, in their order, with the refusal of each, and the size of the image.
unfoldable pub check_image :
    Response → Response → Response → Response → Ext → List ℕ → Act Response (ℕ × ℕ)
unfolding is_png bad_size
check_image too_long not_png corrupt unfit ext body =
    refuse_if (ltb icon_max_bytes (length body)) too_long
    >> (refuse_if (not (is_png body)) not_png >> sized (ext.png_size body) corrupt unfit)

unfoldable pub check_upload : Ext → List ℕ → Act Response (ℕ × ℕ)
unfolding check_image
check_upload =
    check_image (error "icon exceeds 256 KB" 413) (error "body is not a PNG" 415)
      (error "corrupt PNG" 422) (error "icon must be between 16x16 and 512x512" 422)

abbrev pub icon_row : Ext → String → String → List ℕ → ℕ × ℕ → IconRow
icon_row ext id variant body size = record {
  service_id = id;
  variant = variant;
  bytes = body;
  width = size.0;
  height = size.1;
  etag = ext.hex_sha256 body;
}

-- One byte past the cap is read, which tells a body at the limit from a longer one.
abbrev pub read_body : Option (List ℕ) → Act Response (List ℕ)
read_body none = throw (error "could not read body" 400)
read_body (some raw) = pure (take (icon_max_bytes + 1) raw)

-- What follows the checks: the row is written and the answer given.
unfoldable pub store_icon :
    Ext → String → String → String → Act Response (ℕ × ℕ) → List ℕ → Response → Handler
unfolding put_icon
store_icon ext id variant user_id checks body answer = checks >>= λ size.
    or_fail (put_icon (icon_row ext id variant body size) user_id) no_such_service >> pure answer

unfoldable pub handle_put_icon : Server → Request → String → Option (List ℕ) → Handler
unfolding require_admin valid_variant check_upload store_icon
handle_put_icon server req variant raw = require_admin server req >>= λ u.
    refuse_if (not (valid_variant variant)) bad_variant >> read_body raw >>= λ body.
    store_icon server.ext req.id variant u.id (check_upload server.ext body) body no_content

unfoldable pub handle_delete_icon : Server → Request → String → Handler
unfolding require_admin valid_variant delete_icon
handle_delete_icon server req variant = require_admin server req >>= λ u.
    refuse_if (not (valid_variant variant)) bad_variant
    >> or_fail (delete_icon req.id u.id variant) no_such_service
    >> pure no_content

abbrev fetch_failure : FaviconErr → Response
fetch_failure e = elim e [
  | invalid_service_url ↦ error "Could not fetch favicon: invalid service url" 422
  | no_favicon ↦ error "Could not fetch favicon: no favicon found" 422
]

abbrev pub unsupported : Response
unsupported = error "Could not fetch favicon: unsupported image" 422

-- The same checks on a fetched image, where each failure is a 422.
unfoldable pub check_fetched : Ext → List ℕ → Act Response (ℕ × ℕ)
unfolding check_image
check_fetched =
    check_image (error "Could not fetch favicon: image exceeds 256 KB" 422)
      (error "Could not fetch favicon: not a PNG image" 422) unsupported unsupported

unfoldable pub handle_fetch_icon : {U : Type 0} → Server → Web U → Request → Handler
unfolding require_admin service_url fetch_favicon check_fetched store_icon
handle_fetch_icon server web req = require_admin server req >>= λ u.
    or_fail (service_url req.id u.id) no_such_service >>= λ raw_url.
    elim (fetch_favicon web (icon_max_bytes + 1) raw_url) [
      | err e ↦ throw (fetch_failure e)
      | ok body ↦
          store_icon server.ext req.id "light" u.id (check_fetched server.ext body) body
            (write_json 200 (icon_url req.id))
    ]
