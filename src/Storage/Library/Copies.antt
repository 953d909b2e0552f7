-- ===== src/Storage/Library/Copies.antt =====
-- AddFromLibrary of internal/storage/library.go: what it adds, and that it finds a slug.
use homepad_api.Base.{
  ℕ, zero, suc, ◌+◌, ◌≤◌, ◌<◌, String, true, false, [], ◌∷◌, ◌++◌, Option, some, string_eq, text_eq,
  any, find?, is_ok, Result-cases, ok, Text, Result, ◌≡◌, ◌∙◌, sym, ap, refl, arith, inl, inr,
  Bool-cases,
}
use mathlib.Core.Path.{subst}
use homepad_api.Storage.{StoreErr, LibraryApp, ServiceRow, Db, World, Ext, statement}
use homepad_api.Storage.Catalog.{Service}
use homepad_api.Storage.Services.{collides, insert_service, category_check}
use homepad_api.Storage.Services.Laws.{category_check-db, OwnsCategory, category_check-OwnsCategory}
use homepad_api.Storage.Library.{
  is_app, copy_row, candidate, insert_copy, try_slugs, max_tries, base_of, read_offer,
  add_from_library, is_collision,
}

module _ (ext : Ext) (a : LibraryApp) (user_id : String) (category_id : Option String) where
  -- The row that an insert at this point adds.
  abbrev pub new_copy : Text → Db → ServiceRow
  new_copy slug db = copy_row a user_id category_id slug (ext.uuid db.next_id)

  -- One row is added, whose id and slug were free.
  abbrev pub Inserted : Text → Db → Db → Type 0
  Inserted slug before after =
      (any (collides (new_copy slug before)) before.services ≡ false)
      × (after ≡ record before {
        services = before.services ++ new_copy slug before ∷ [];
        next_id = suc before.next_id;
      })

  insert_copy_lem :
      (slug : Text) (w : World)
      → (is_ok (insert_copy ext a user_id category_id slug w).0 ≡ false
          → (insert_copy ext a user_id category_id slug w).1.db ≡ w.db)
        × (is_ok (insert_copy ext a user_id category_id slug w).0 ≡ true
            → Inserted slug w.db (insert_copy ext a user_id category_id slug w).1.db)
  unfolding insert_copy insert_service statement
  insert_copy_lem slug w = (λ h. ground arith, λ h. (ground arith, ground arith))

  -- Some candidate of the rounds that are left is inserted, or nothing is.
  abbrev Tried : Text → ℕ → ℕ → Db → Db → Type 0
  Tried base i rounds before after =
      (k : ℕ) × (i ≤ k) × (k < i + rounds) × Inserted (candidate base k) before after

  abbrev Outcome : Text → ℕ → ℕ → Db → Result StoreErr Service × World → Type 0
  Outcome base i rounds before r =
      (is_ok r.0 ≡ false → r.1.db ≡ before) × (is_ok r.0 ≡ true → Tried base i rounds before r.1.db)

  onwards :
      (i : ℕ) (base : Text) (rounds : ℕ) {before : Db} (r : Result StoreErr Service × World)
      → Outcome base (suc i) rounds before r
      → Outcome base i (suc rounds) before r
  onwards i base rounds r later =
      (later.0, λ h. let (k, low, high, at_k) = later.1 h in (k, omega arith, omega arith, at_k))

  try_slugs-Outcome :
      (base : Text) (i rounds : ℕ) (w : World)
      → Outcome base i rounds w.db
          (try_slugs (insert_copy ext a user_id category_id) base i rounds w)
  unfolding try_slugs
  try_slugs-Outcome base i zero w = (λ h. refl, λ h. absurd (ground (arith, h)))
  try_slugs-Outcome base i (suc rounds) w =
      let insert = insert_copy ext a user_id category_id in
      let r = insert (candidate base i) w in
      let this = insert_copy_lem (candidate base i) w in
      let left : is_ok r.0 ≡ false → r.1.db ≡ w.db = this.0 in
      let of_r : is_ok r.0 ≡ true → Tried base i (suc rounds) w.db r.1.db =
        λ h. (i, omega arith, omega arith, this.1 h) in
      let all = try_slugs insert base i (suc rounds) w in
      elim (Result-cases r.0) [
        | inl (s, is_s) ↦
            let runs : all ≡ r = ground (arith, is_s) in
            subst (Outcome base i (suc rounds) w.db) (sym runs) (left, of_r)
        | inr (e, is_e) ↦ elim (Bool-cases (is_collision e)) [
          | inr other ↦
              let runs : all ≡ r = ground (arith, is_e, other) in
              subst (Outcome base i (suc rounds) w.db) (sym runs) (left, of_r)
          | inl taken ↦
              let rest = try_slugs insert base (suc i) rounds r.1 in
              let runs : all ≡ rest = ground (arith, is_e, taken) in
              subst (Outcome base i (suc rounds) w.db) (sym runs) (
                onwards i base rounds rest (
                  subst (λ db. Outcome base (suc i) rounds db rest) (left (ap is_ok is_e))
                    (try_slugs-Outcome base (suc i) rounds r.1)))
        ]
      ]

offer_of :
    (id : String) (w : World)
    → ((read_offer id w).1.db ≡ w.db)
      × ((a : LibraryApp) → (read_offer id w).0 ≡ ok a → find? (is_app id) w.db.library ≡ some a)
unfolding read_offer statement
offer_of id w = (ground arith, λ a h. ground (arith, h))

-- The copy of an offer that stands in the library, in a category of the caller's where one is named,
-- under one of the thousand candidates.
abbrev pub Copied : Ext → String → String → Option String → Db → Db → Type 0
Copied ext user_id id category_id before after =
    (a : LibraryApp) × (find? (is_app id) before.library ≡ some a)
    × OwnsCategory user_id (some category_id) before
    × (k : ℕ) × (1 ≤ k)
    × (k < 1001)
    × Inserted ext a user_id category_id (candidate (base_of a) k) before after

-- Adding an offer that fails leaves the database. One that succeeds adds one service of the caller's
-- and changes nothing else: the offer's name, address, icon and description, its id as the source,
-- no Gatus key, a category of the caller's or none, and the first to the thousandth candidate of a
-- slug, which no service of the caller's had.
pub add_from_library-Copied :
    (ext : Ext) (user_id id : String) (category_id : Option String) (w : World)
    → (is_ok (add_from_library ext user_id id category_id w).0 ≡ false
        → (add_from_library ext user_id id category_id w).1.db ≡ w.db)
      × (is_ok (add_from_library ext user_id id category_id w).0 ≡ true
          → Copied ext user_id id category_id w.db
              (add_from_library ext user_id id category_id w).1.db)
unfolding add_from_library
add_from_library-Copied ext user_id id category_id w =
    let w1 = (read_offer id w).1 in
    let w2 = (category_check user_id (some category_id) w1).1 in
    let all = add_from_library ext user_id id category_id w in
    let same : w2.db ≡ w.db = category_check-db user_id (some category_id) w1 ∙ (offer_of id w).0 in
    elim (Result-cases (read_offer id w).0) [
      | inr (e, is_e) ↦
          (λ h. ground (arith, is_e, (offer_of id w).0), λ h. absurd (ground (arith, is_e)))
      | inl (a, is_a) ↦ elim (Result-cases (category_check user_id (some category_id) w1).0) [
        | inr (e, is_e) ↦
            (λ h. ground (arith, is_a, is_e, same), λ h. absurd (ground (arith, is_a, is_e)))
        | inl (t, is_t) ↦
            let r = try_slugs (insert_copy ext a user_id category_id) (base_of a) 1 max_tries w2 in
            let runs : all ≡ r = ground (arith, is_a, is_t) in
            let tried = try_slugs-Outcome ext a user_id category_id (base_of a) 1 max_tries w2 in
            (
              λ h. ap (λ x. x.1.db) runs ∙ tried.0 (ap (λ x. is_ok x.0) (sym runs) ∙ h) ∙ same,
              λ h.
                  let (k, low, high, at_k) =
                    subst (λ db. Tried ext a user_id category_id (base_of a) 1 max_tries db r.1.db)
                      same (tried.1 (ap (λ x. is_ok x.0) (sym runs) ∙ h)) in
                  let owned : OwnsCategory user_id (some category_id) w.db =
                    subst (OwnsCategory user_id (some category_id)) (offer_of id w).0
                      (category_check-OwnsCategory user_id (some category_id) w1 (ap is_ok is_t)) in
                  subst (λ x. Copied ext user_id id category_id w.db x.1.db) (sym runs)
                    (a, (offer_of id w).1 a is_a, owned, k, low, high, at_k),
            )
      ]
    ]
