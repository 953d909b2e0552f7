-- ===== src/Storage/Library/Ends.antt =====
-- AddFromLibrary of internal/storage/library.go finds a slug.
use homepad_api.Base.{
  ℕ, zero, suc, ◌<◌, String, true, false, List, [], ◌∷◌, Option, none, some, ◌==◌, string_eq,
  text_eq, any, find?, filter, map, is_ok, ok, err, Text, ◌≡◌, ◌∙◌, ap, refl, arith, inl, inr,
  Bool-cases, contains, within, length, length-within-le, eq_iff, text_equals_iff,
}
use homepad_api.Storage.{StoreErr, LibraryApp, ServiceRow, Db, World, Ext, Act, ◌>>=◌, statement}
use homepad_api.Storage.Laws.{bind_ok}
use homepad_api.Storage.Catalog.{Service}
use homepad_api.Storage.Services.{collides, insert_service, category_check, category_owned_by}
use homepad_api.Storage.Services.Laws.{OwnsCategory}
use homepad_api.Storage.Library.{
  is_app, copy_row, candidate, insert_copy, try_slugs, max_tries, base_of, read_offer,
  add_from_library,
}
use homepad_api.Storage.Library.Candidates.{candidates, length-candidates, candidates-distinct}

-- The slugs of a user's services.
abbrev pub slugs_of : String → List ServiceRow → List Text
slugs_of user_id rows = map (λ s. s.slug) (filter (λ s. s.user_id == user_id) rows)

-- No row has an id that the generator is still to draw.
abbrev pub IsFresh : Ext → Db → Type 0
IsFresh ext db = (n : ℕ) → any (λ s. s.id == ext.uuid n) db.services ≡ false

module _ (ext : Ext) (a : LibraryApp) (user_id : String) (category_id : Option String) where
  collides_slug :
      (slug : Text) (id : String) (rows : List ServiceRow)
      → any (λ s. s.id == id) rows ≡ false
      → any (collides (copy_row a user_id category_id slug id)) rows
        ≡ contains (slugs_of user_id rows) slug
  collides_slug slug id [] h = refl
  collides_slug slug id (r ∷ rs) h = ground (
    arith,
    collides_slug slug id rs,
    eq_iff user_id r.user_id,
    eq_iff r.user_id user_id,
    eq_iff r.id id,
    eq_iff id r.id,
    text_equals_iff slug r.slug,
    text_equals_iff r.slug slug,
  )

  insert_copy-answers :
      (slug : Text) (w : World)
      → w.faults ≡ []
      → IsFresh ext w.db
      → (contains (slugs_of user_id w.db.services) slug ≡ false
          → is_ok (insert_copy ext a user_id category_id slug w).0 ≡ true)
        × (contains (slugs_of user_id w.db.services) slug ≡ true
            → insert_copy ext a user_id category_id slug w ≡ (err StoreErr.slug_taken, w))
  unfolding insert_copy insert_service statement
  insert_copy-answers slug w none_fails fresh =
      let row = collides_slug slug (ext.uuid w.db.next_id) w.db.services (fresh w.db.next_id) in
      (λ h. ground (arith, none_fails, row, h), λ h. ground (arith, none_fails, row, h))

  try_slugs_ends :
      (base : Text) (i rounds : ℕ) (w : World)
      → w.faults ≡ []
      → IsFresh ext w.db
      → within (candidates base i rounds) (slugs_of user_id w.db.services) ≡ false
      → is_ok (try_slugs (insert_copy ext a user_id category_id) base i rounds w).0 ≡ true
  unfolding try_slugs candidates
  try_slugs_ends base i zero w none_fails fresh h = absurd (ground (arith, h))
  try_slugs_ends base i (suc rounds) w none_fails fresh h =
      let taken = contains (slugs_of user_id w.db.services) (candidate base i) in
      let answers = insert_copy-answers (candidate base i) w none_fails fresh in
      elim (Bool-cases taken) [
        | inl yes_taken ↦ ground (
          arith,
          answers.1 yes_taken,
          yes_taken,
          try_slugs_ends base (suc i) rounds w none_fails fresh,
        )
        | inr not_taken ↦ ground (arith, answers.0 not_taken)
      ]

  -- Some candidate is free.
  try_slugs-ok :
      (base : Text) (w : World)
      → w.faults ≡ []
      → IsFresh ext w.db
      → length (slugs_of user_id w.db.services) < max_tries
      → is_ok (try_slugs (insert_copy ext a user_id category_id) base 1 max_tries w).0 ≡ true
  try_slugs-ok base w none_fails fresh few =
      let taken = slugs_of user_id w.db.services in
      try_slugs_ends base 1 max_tries w none_fails fresh
        (elim (Bool-cases (within (candidates base 1 max_tries) taken)) [
          | inr free ↦ free
          | inl full ↦ absurd (
              ground (
                arith,
                few,
                length-candidates base 1 max_tries,
                length-within-le (candidates base 1 max_tries) taken
                    (candidates-distinct base 1 max_tries (omega arith)) full,
              ))
        ])

read_offer-answers :
    (id : String) (a : LibraryApp) (w : World)
    → w.faults ≡ []
    → find? (is_app id) w.db.library ≡ some a
    → read_offer id w ≡ (ok a, w)
unfolding read_offer statement
read_offer-answers id a w none_fails found = ground (arith, none_fails, found)

category_check-answers :
    (user_id : String) (c : Option (Option String)) (w : World)
    → w.faults ≡ []
    → OwnsCategory user_id c w.db
    → category_check user_id c w ≡ (ok tt, w)
unfolding category_owned_by statement
category_check-answers user_id none w none_fails owned = refl
category_check-answers user_id (some none) w none_fails owned = refl
category_check-answers user_id (some (some id)) w none_fails owned =
    ground (arith, none_fails, owned)

-- While the database answers and the random ids are new, adding an offer that stands in the library,
-- in a category of the caller's where one is named, ends with a copy if the caller has fewer than a
-- thousand services: the loop meets a free slug in its thousand rounds.
pub add_from_library-ends :
    (ext : Ext) (user_id id : String) (category_id : Option String) (w : World) (a : LibraryApp)
    → w.faults ≡ []
    → IsFresh ext w.db
    → find? (is_app id) w.db.library ≡ some a
    → OwnsCategory user_id (some category_id) w.db
    → length (slugs_of user_id w.db.services) < max_tries
    → is_ok (add_from_library ext user_id id category_id w).0 ≡ true
unfolding add_from_library
add_from_library-ends ext user_id id category_id w a none_fails fresh found owned few =
    let adds : LibraryApp → Act StoreErr Service =
      λ a. try_slugs (insert_copy ext a user_id category_id) (base_of a) 1 max_tries in
    let r = try_slugs (insert_copy ext a user_id category_id) (base_of a) 1 max_tries w in
    let runs : add_from_library ext user_id id category_id w ≡ r =
      bind_ok (read_offer id) (λ a. category_check user_id (some category_id) >>= λ t. adds a) w w a
        (read_offer-answers id a w none_fails found)
      ∙ bind_ok (category_check user_id (some category_id)) (λ t. adds a) w w tt
          (category_check-answers user_id (some category_id) w none_fails owned) in
    ap (λ x. is_ok x.0) runs
    ∙ try_slugs-ok ext a user_id category_id (base_of a) w none_fails fresh few
