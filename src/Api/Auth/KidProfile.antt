-- ===== src/Api/Auth/KidProfile.antt =====
-- What a kid may change of its own account, by handlePatchMe of internal/api/auth.go.
use homepad_api.Base.{
  String, true, false, not, List, [], ◌∷◌, Option, none, some, ok, Option-cases, map, Result-cases,
  inl, inr, ◌==◌, string_eq, ◌≡◌, refl, sym, Bool, arith, any, eq_iff,
}
use mathlib.Core.Path.{subst}
use homepad_api.Storage.{World, Db, UserRow, statement}
use homepad_api.Storage.Users.{User, set_user, set_theme_pref, update_users}
use homepad_api.Storage.Kids.{is_adult_role}
use homepad_api.Api.{Request, Server}
use homepad_api.Api.Sessions.{current_user, require_user}
use homepad_api.Api.Sessions.Authentication.{current_user-SameRows}
use homepad_api.Api.Auth.{
  PatchMe, check_patch, write_patch, write_theme, write_density, write_health_bar, write_uptime,
  handle_patch_me,
}
use homepad_api.Api.Auth.Profile.{check_patch-world}

-- `encoding/json` decodes a field from a key that equals its name or folds to it, whatever the case
-- of its letters; the folding is an argument. A field that was decoded has such a key.
abbrev pub HasKey :
    (String → String → Bool) → {A : Type 0} → List String → String → Option A → Type 0
HasKey folds keys key none = Unit {0}
HasKey folds keys key (some a) = any (λ k. folds k key) keys ≡ true

abbrev pub HasKeys : (String → String → Bool) → PatchMe → Type 0
HasKeys folds b =
    HasKey folds b.keys "densityPref" b.density_pref
    × HasKey folds b.keys "showHealthBar" b.show_health_bar
    × HasKey folds b.keys "showUptimeDisplay" b.show_uptime_display

-- The folding tells the theme's name from the others.
abbrev pub ThemeApart : (String → String → Bool) → Type 0
ThemeApart folds =
    (folds "themePref" "densityPref" ≡ false)
    × (folds "themePref" "showHealthBar" ≡ false)
    × (folds "themePref" "showUptimeDisplay" ≡ false)

-- An account apart from its theme.
abbrev pub without_theme : UserRow → UserRow
without_theme r = record r { theme_pref = "" }

abbrev pub rest_of : Db → List UserRow
rest_of db = map without_theme db.users

only_theme :
    {A : Type 0} (folds : String → String → Bool) (keys : List String) (key : String) (o : Option A)
    → any (λ k. not (k == "themePref")) keys ≡ false
    → folds "themePref" key ≡ false
    → HasKey folds keys key o
    → o ≡ none
only_theme folds keys key none h other has = refl
only_theme folds [] key (some a) h other has = absurd (ground (arith, has))
only_theme folds (k ∷ ks) key (some a) h other has =
    let is_theme : k ≡ "themePref" = ground (arith, h, eq_iff k "themePref") in
    let apart : folds k key ≡ false = subst (λ t. folds t key ≡ false) (sym is_theme) other in
    only_theme folds ks key (some a) (ground (arith, h)) other (ground (arith, has, apart))

rest-update :
    (id v : String) (rs : List UserRow)
    → map without_theme (update_users (λ r. r.id == id) (λ r. record r { theme_pref = v }) rs)
      ≡ map without_theme rs
rest-update id v [] = refl
rest-update id v (r ∷ rs) = ground (arith, rest-update id v rs)

write_theme-rest :
    (b : PatchMe) (id : String) (u : User) (w : World)
    → rest_of (write_theme b id u w).1.db ≡ rest_of w.db
unfolding write_theme set_theme_pref set_user statement
write_theme-rest b id u w = elim (Option-cases b.theme_pref) [
  | inl absent ↦ ground (arith, absent)
  | inr (v, is_v) ↦ ground (arith, is_v, rest-update id v w.db.users)
]

check_patch-kid :
    (u : User) (b : PatchMe) (w : World)
    → is_adult_role u.role ≡ false
    → (check_patch u b w).0 ≡ ok tt
    → any (λ k. not (k == "themePref")) b.keys ≡ false
unfolding check_patch
check_patch-kid u b w kid good = ground (arith, kid, good)

write_patch-kid :
    (b : PatchMe) (u : User) (w : World)
    → b.density_pref ≡ none
    → b.show_health_bar ≡ none
    → b.show_uptime_display ≡ none
    → rest_of (write_patch b u w).1.db ≡ rest_of w.db
unfolding write_patch write_density write_health_bar write_uptime
write_patch-kid b u w d h s = elim (Result-cases (write_theme b u.id u w).0) [
  | inl (v, is_v) ↦ ground (arith, is_v, d, h, s, write_theme-rest b u.id u w)
  | inr (r, is_r) ↦ ground (arith, is_r, write_theme-rest b u.id u w)
]

-- A patch of the own settings by an account whose role is not an adult's changes no row of the
-- accounts in anything but its theme, where each field that was decoded has a key in the body that
-- folds to its name, and the theme's name folds to no other field's.
pub handle_patch_me-kid :
    (folds : String → String → Bool) (server : Server) (req : Request) (b : PatchMe) (w : World)
    (u : User)
    → (current_user server req w).0 ≡ ok (some u)
    → is_adult_role u.role ≡ false
    → ThemeApart folds
    → HasKeys folds b
    → rest_of (handle_patch_me server req (some b) w).1.db ≡ rest_of w.db
unfolding handle_patch_me require_user
handle_patch_me-kid folds server req b w u found kid apart has =
    let w1 = (current_user server req w).1 in
    let same = current_user-SameRows server req w in
    elim (Result-cases (check_patch u b w1).0) [
      | inr (r, bad) ↦ ground (arith, found, bad, same, check_patch-world u b w1)
      | inl (one, good) ↦
          let keys = check_patch-kid u b w1 kid (ground (arith, good)) in
          let wrote =
            write_patch-kid b u w1
              (only_theme folds b.keys "densityPref" b.density_pref keys apart.0 has.0)
              (only_theme folds b.keys "showHealthBar" b.show_health_bar keys apart.1 has.1)
              (only_theme folds b.keys "showUptimeDisplay" b.show_uptime_display keys apart.2
                has.2) in
          elim (Result-cases (write_patch b u w1).0) [
            | inl (v, done) ↦
                ground (arith, found, good, done, same, check_patch-world u b w1, wrote)
            | inr (r, undone) ↦
                ground (arith, found, good, undone, same, check_patch-world u b w1, wrote)
          ]
    ]
