-- ===== src/Api/Icons/Favicon.antt =====
-- fetchFavicon of internal/api/icons.go. The HTTP client, `net/url` and the three regular
-- expressions are the argument `web`.
use homepad_api.Base.{
  ℕ, ◌*◌, Bool, true, false, not, ◌&&◌, ◌||◌, List, [], ◌∷◌, Option, none, some, Result, ok, err,
  Text, codes, ◌==◌, nat_eq, text_eq, take, map, to_lower, trim_space, if◌then◌else◌,
}

-- The answer to a GET.
pub record Fetched : Type 0 where
  pub status : ℕ
  pub content_type : Text
  pub body : List ℕ

-- What the patterns find in a `<link>` tag.
pub record LinkTag : Type 0 where
  pub rel : Option Text
  pub href : Option Text

pub record Web (U : Type 0) : Type 0 where
  pub parse : Text → Option U
  pub is_abs : U → Bool
  pub host : U → Text
  pub resolve : U → Text → Option U
  pub favicon_of : U → U
  pub get : U → Option Fetched
  pub link_tags : List ℕ → List LinkTag

pub data FaviconErr : Type 0 where
  invalid_service_url no_favicon : FaviconErr

abbrev starts_with : Text → Text → Bool
starts_with [] s = true
starts_with (c ∷ cs) [] = false
starts_with (c ∷ cs) (d ∷ ds) = c == d && starts_with cs ds

-- `strings.Contains(s, part)`
abbrev pub has_part : Text → Text → Bool
has_part part [] = starts_with part []
has_part part (c ∷ cs) = starts_with part (c ∷ cs) || has_part part cs

abbrev lowered : Text → Text
unfolding to_lower
lowered s = map to_lower s

abbrev names_icon : LinkTag → Bool
unfolding to_lower
names_icon tag = elim tag.rel [ none ↦ false | some rel ↦ has_part (codes "icon") (lowered rel) ]

-- The address of the first tag that names an icon and has one.
unfoldable pub first_href : List LinkTag → Text
unfolding to_lower
first_href [] = []
first_href (tag ∷ tags) =
    let rest = first_href tags in
    if not (names_icon tag) then rest else elim tag.href [ none ↦ rest | some href ↦ href ]

abbrev max_page : ℕ
max_page = 512 * 1024

module _ {U : Type 0} (web : Web U) where
  unfoldable pub discover_icon_href : U → Text
  unfolding first_href
  discover_icon_href page = elim (web.get page) [
    | none ↦ []
    | some resp ↦
        if not (resp.status == 200)
        then []
        else first_href (web.link_tags (take max_page resp.body))
  ]

  -- At most `limit` bytes are read.
  unfoldable pub download_image : ℕ → U → Option (List ℕ)
  unfolding to_lower
  download_image limit url = elim (web.get url) [
    | none ↦ none
    | some resp ↦
        if not (resp.status == 200)
        then none
        else if not (resp.content_type == [])
            && not (has_part (codes "image") (lowered resp.content_type))
        then none
        else some (take limit resp.body)
  ]

  abbrev linked_image : ℕ → U → Text → Option (List ℕ)
  unfolding download_image
  linked_image limit base href =
      if href == []
      then none
      else elim (web.resolve base href) [ none ↦ none | some url ↦ download_image limit url ]

  unfoldable pub fetch_favicon : ℕ → Text → Result FaviconErr (List ℕ)
  unfolding trim_space discover_icon_href download_image
  fetch_favicon limit raw_url = elim (web.parse (trim_space raw_url)) [
    | none ↦ err invalid_service_url
    | some base ↦
        if not (web.is_abs base) || web.host base == []
        then err invalid_service_url
        else elim (linked_image limit base (discover_icon_href base)) [
          | some image ↦ ok image
          | none ↦ elim (download_image limit (web.favicon_of base)) [
            | some image ↦ ok image
            | none ↦ err no_favicon
          ]
        ]
  ]
