-- ===== src/Storage/References.antt =====
-- The foreign keys of migrations/*.sql: every id that a row names is of a row that is there.
pub mod OfKid
pub mod OfService
pub mod OfCategory
pub mod Deletions
use homepad_api.Base.{
  String, Bool, true, false, not, ◌||◌, ◌&&◌, List, [], ◌∷◌, Option, none, some, ◌==◌, string_eq,
  any, filter, map, All, All-of_map, Option-cases, is_ok, Bool-cases, inl, inr, ◌≡◌, refl, sym,
  arith, eq_iff,
}
use mathlib.Core.Path.{subst}
use homepad_api.Storage.{Db, World, ServiceRow, UserRow, CategoryRow, statement}
use homepad_api.Storage.Kids.{
  is_kid_row, owns_service, owns_category, null_category, without_user, delete_kid, delete_kid_row,
}
use homepad_api.Storage.Catalog.{has_service}
use homepad_api.Storage.Services.{owned_row, without_service, delete_service}

abbrev pub has_user : String → Db → Bool
has_user id db = any (λ u. u.id == id) db.users

abbrev pub has_category : String → Db → Bool
has_category id db = any (λ c. c.id == id) db.categories

abbrev pub CategoryThere : Db → Option String → Type 0
CategoryThere db none = Unit {0}
CategoryThere db (some c) = has_category c db ≡ true

abbrev pub UserThere : Db → String → Type 0
UserThere db id = has_user id db ≡ true

abbrev pub ServiceThere : Db → String → Type 0
ServiceThere db id = has_service id db ≡ true

-- The references of one database to the rows of another.
abbrev pub RefersTo : Db → Db → Type 0
RefersTo target db =
    All (λ r. UserThere target r.user_id) db.services
    × All (λ r. CategoryThere target r.category_id) db.services
    × All (λ r. UserThere target r.user_id) db.categories
    × All (λ r. UserThere target r.0 × ServiceThere target r.1) db.favorites
    × All (λ r. UserThere target r.user_id × ServiceThere target r.service_id) db.layout
    × All (λ r. UserThere target r.0 × (has_category r.1 target ≡ true)) db.collapsed
    × All (λ r. UserThere target r.0 × ServiceThere target r.1) db.allowed
    × All (λ r. ServiceThere target r.service_id) db.icons
    × All (λ r. UserThere target r.1.user_id) db.sessions

abbrev pub IsWhole : Db → Type 0
IsWhole db = RefersTo db db

-- What stays of a table keeps what it names, where the kept rows do.
pub All-kept {ℓ} :
    {A : Type ℓ} (P Q : A → Type 0) (gone : A → Bool) (rows : List A)
    → ((r : A) → gone r ≡ false → P r → Q r)
    → All P rows
    → All Q (filter (λ r. not (gone r)) rows)
All-kept P Q gone [] keep h = tt
All-kept P Q gone (r ∷ rs) keep h = elim (Bool-cases (gone r)) [
  | inl out ↦ rw out (All-kept P Q gone rs keep h.1)
  | inr kept ↦ rw kept (keep r kept h.0, All-kept P Q gone rs keep h.1)
]

-- A row that a test holds for is still there where none that it holds for goes.
pub any-kept {ℓ} :
    {A : Type ℓ} (p gone : A → Bool) (rows : List A)
    → any (λ r. p r && gone r) rows ≡ false
    → any p rows ≡ true
    → any p (filter (λ r. not (gone r)) rows) ≡ true
any-kept p gone [] apart there = there
any-kept p gone (r ∷ rs) apart there = ground (arith, any-kept p gone rs)

pub any-apart {ℓ} :
    {A : Type ℓ} (p gone : A → Bool) (rows : List A)
    → ((r : A) → (p r && gone r) ≡ false)
    → any (λ r. p r && gone r) rows ≡ false
any-apart p gone [] apart = refl
any-apart p gone (r ∷ rs) apart = ground (arith, apart r, any-apart p gone rs apart)

pub any-map_ids :
    (f : ServiceRow → ServiceRow) (id : String) (rows : List ServiceRow)
    → ((r : ServiceRow) → (f r).id ≡ r.id)
    → any (λ s. s.id == id) (map f rows) ≡ any (λ s. s.id == id) rows
any-map_ids f id [] same = refl
any-map_ids f id (r ∷ rs) same = ground (arith, same r, any-map_ids f id rs same)
