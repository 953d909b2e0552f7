-- ===== src/Storage/Library/Slug.antt =====
-- slugify of internal/storage/library.go.
use homepad_api.Base.{
  ℕ, Bool, true, false, not, ◌&&◌, ◌||◌, [], ◌∷◌, ◌==◌, nat_eq, text_eq, leb, Text, to_lower,
  trim_left, trim_right, ◌≡◌, refl, arith, ◌∙◌, ap,
}

abbrev pub dash : ℕ
dash = b'-'

abbrev pub is_slug_char : ℕ → Bool
is_slug_char c = (leb b'a' c && leb c b'z') || (leb b'0' c && leb c b'9')

-- The loop: what it writes, given whether something is written yet and whether a dash was last.
walk : Bool → Bool → Text → Text
unfolding to_lower
walk started dashed [] = []
walk started dashed (c ∷ cs) = elim (is_slug_char (to_lower c)) [
  | true ↦ to_lower c ∷ walk true false cs
  | false ↦ elim (started && not dashed) [
    | true ↦ dash ∷ walk started true cs
    | false ↦ walk started dashed cs
  ]
]

abbrev is_dash : ℕ → Bool
is_dash c = c == dash

unfoldable pub slugify : Text → Text
unfolding walk trim_left trim_right
slugify name = trim_right is_dash (trim_left is_dash (walk false false name))

-- Words of letters and digits with a single dash between two; `after` tells that a word's character
-- came before.
abbrev pub spells : Bool → Text → Bool
spells after [] = after
spells after (c ∷ cs) =
    (is_slug_char c && spells true cs) || (is_dash c && after && spells false cs)

abbrev pub IsSlug : Text → Type 0
IsSlug t = (t == [] || spells false t) ≡ true

-- The same, or with a dash at the end.
abbrev loose : Bool → Text → Bool
loose after [] = true
loose after (c ∷ cs) = (is_slug_char c && loose true cs) || (is_dash c && after && loose false cs)

loose-walk :
    (started dashed : Bool) (cs : Text)
    → loose (started && not dashed) (walk started dashed cs) ≡ true
unfolding walk
loose-walk started dashed [] = refl
loose-walk started dashed (c ∷ cs) =
    ground
      (arith, loose-walk true false cs, loose-walk started true cs, loose-walk started dashed cs)

trim_left-loose : (t : Text) → loose false t ≡ true → trim_left is_dash t ≡ t
unfolding trim_left
trim_left-loose [] h = refl
trim_left-loose (c ∷ cs) h = ground arith

trim_right-loose :
    (after : Bool) (t : Text)
    → loose after t ≡ true
    → (trim_right is_dash t == [] || spells after (trim_right is_dash t)) ≡ true
unfolding trim_right
trim_right-loose after [] h = refl
trim_right-loose after (c ∷ cs) h =
    ground (arith, trim_right-loose true cs, trim_right-loose false cs)

kept : (c : ℕ) → (is_slug_char c || is_dash c) ≡ true → to_lower c ≡ c
unfolding to_lower
kept c h = ground arith

walk-spells :
    (after started : Bool) (t : Text)
    → spells after t ≡ true
    → (not after || started) ≡ true
    → walk started (started && not after) t ≡ t
unfolding walk
walk-spells after started [] h k = refl
walk-spells after started (c ∷ cs) h k =
    ground (arith, kept c, walk-spells true true cs, walk-spells false true cs)

trim_right-spells : (after : Bool) (t : Text) → spells after t ≡ true → trim_right is_dash t ≡ t
unfolding trim_right
trim_right-spells after [] h = refl
trim_right-spells after (c ∷ cs) h =
    ground (arith, trim_right-spells true cs, trim_right-spells false cs)

trim_left-spells : (t : Text) → spells false t ≡ true → trim_left is_dash t ≡ t
unfolding trim_left
trim_left-spells [] h = refl
trim_left-spells (c ∷ cs) h = ground arith

slugify-spells : (t : Text) → spells false t ≡ true → slugify t ≡ t
unfolding slugify
slugify-spells t h =
    ap (λ u. trim_right is_dash (trim_left is_dash u)) (walk-spells false false t h refl)
    ∙ ap (trim_right is_dash) (trim_left-spells t h)
    ∙ trim_right-spells false t h

slugify-fixes : (t : Text) → IsSlug t → slugify t ≡ t
unfolding slugify walk trim_left trim_right
slugify-fixes [] h = refl
slugify-fixes (c ∷ cs) h = slugify-spells (c ∷ cs) h

-- Each slug is empty or made of lower-case letters and digits with single dashes between them, and
-- slugify leaves such a text as it is.
pub slugify-IsSlug : (name : Text) → IsSlug (slugify name) × (IsSlug name → slugify name ≡ name)
unfolding slugify
slugify-IsSlug name = (
  ground (
    arith,
    loose-walk false false name,
    trim_left-loose (walk false false name),
    trim_right-loose false (walk false false name),
  ),
  slugify-fixes name,
)
