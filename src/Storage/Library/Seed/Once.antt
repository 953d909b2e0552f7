-- ===== src/Storage/Library/Seed/Once.antt =====
-- What SeedLibraryIfEmpty of internal/storage/seed.go leaves.
use homepad_api.Base.{
  ℕ, suc, true, false, List, [], ◌∷◌, ◌++◌, Option, ok, is_ok, ltb, length, map, Text, ◌≡◌, ◌∙◌,
  sym, ap, refl, arith, inl, inr, Bool-cases, Result-cases,
}
use mathlib.Core.Path.{subst}
use mathlib.Core.List.{append-nil, append_assoc, map-append}
use homepad_api.Storage.{LibraryApp, Db, World, Ext, Act, StoreErr, statement, no_rows, pure, ◌>>◌}
use homepad_api.Storage.Laws.{bind-keeps}
use homepad_api.Storage.Library.Seed.{
  SeedEntry, suggested_category, seed_row, rolled_back, insert_entry, insert_entries, count_library,
  seed_entries, parse_seed, seed_library_if_empty,
}

-- What the file says of an offer.
abbrev pub told : LibraryApp → SeedEntry × Text × ℕ
told a = (
  record { name = a.name; url = a.url; icon = a.icon; description = a.description },
  a.suggested_category,
  a.sort_index,
)

abbrev pub numbered : ℕ → List SeedEntry → List (SeedEntry × Text × ℕ)
numbered i [] = []
numbered i (e ∷ es) = (e, suggested_category e.description, i) ∷ numbered (suc i) es

-- The database without its offers and the count of ids.
abbrev pub apart_from_offers : Db → Db
apart_from_offers db = record db { library = []; next_id = 0 }

insert_entry-apart :
    (ext : Ext) (i : ℕ) (e : SeedEntry) (w : World)
    → apart_from_offers (insert_entry ext i e w).1.db ≡ apart_from_offers w.db
unfolding insert_entry statement
insert_entry-apart ext i e w = ground arith

insert_entries-apart :
    (ext : Ext) (i : ℕ) (es : List SeedEntry) (w : World)
    → apart_from_offers (insert_entries ext i es w).1.db ≡ apart_from_offers w.db
unfolding insert_entries
insert_entries-apart ext i [] w = refl
insert_entries-apart ext i (e ∷ es) w =
    bind-keeps apart_from_offers (insert_entry ext i e) (λ t. insert_entries ext (suc i) es)
      (insert_entry-apart ext i e) (λ t. insert_entries-apart ext (suc i) es) w

insert_entry-told :
    (ext : Ext) (i : ℕ) (e : SeedEntry) (w : World)
    → is_ok (insert_entry ext i e w).0 ≡ true
    → map told (insert_entry ext i e w).1.db.library
      ≡ map told w.db.library ++ (e, suggested_category e.description, i) ∷ []
unfolding insert_entry statement
insert_entry-told ext i e w h =
    ground (arith, h, map-append told w.db.library (seed_row ext w.db.next_id i e ∷ []))

insert_entries-told :
    (ext : Ext) (i : ℕ) (es : List SeedEntry) (w : World)
    → is_ok (insert_entries ext i es w).0 ≡ true
    → map told (insert_entries ext i es w).1.db.library ≡ map told w.db.library ++ numbered i es
unfolding insert_entries
insert_entries-told ext i [] w h = sym (append-nil (map told w.db.library))
insert_entries-told ext i (e ∷ es) w h =
    let w1 = (insert_entry ext i e w).1 in
    let row : SeedEntry × Text × ℕ = (e, suggested_category e.description, i) in
    elim (Result-cases (insert_entry ext i e w).0) [
      | inr (x, stopped) ↦ absurd (ground (arith, stopped, h))
      | inl (t, done) ↦
          let runs : insert_entries ext i (e ∷ es) w ≡ insert_entries ext (suc i) es w1 =
            ground (arith, done) in
          let rest = insert_entries-told ext (suc i) es w1 (ap (λ r. is_ok r.0) (sym runs) ∙ h) in
          ap (λ r. map told r.1.db.library) runs
          ∙ rest
          ∙ ap (λ l. l ++ numbered (suc i) es) (insert_entry-told ext i e w (ap is_ok done))
          ∙ append_assoc (map told w.db.library) (row ∷ []) (numbered (suc i) es)
    ]

rolled_back-undone :
    {A : Type 0} (m : Act StoreErr A) (w : World)
    → is_ok (rolled_back m w).0 ≡ false
    → (rolled_back m w).1.db ≡ w.db
unfolding rolled_back
rolled_back-undone m w h = ground (arith, h)

rolled_back-done :
    {A : Type 0} (m : Act StoreErr A) (w : World)
    → is_ok (rolled_back m w).0 ≡ true
    → rolled_back m w ≡ m w
unfolding rolled_back
rolled_back-done m w h = ground (arith, h)

-- What a seeding that succeeds leaves: a library with offers as it is, an empty one with the
-- entries as its offers, in their order.
abbrev pub Seeded : List SeedEntry → Db → Db → Type 0
Seeded entries before after =
    (ltb 0 (length before.library) ≡ true → after ≡ before)
    × (before.library ≡ [] → map told after.library ≡ numbered 0 entries)
    × (apart_from_offers after ≡ apart_from_offers before)

count_library_lem :
    (w : World)
    → ((count_library w).1.db ≡ w.db)
      × ((n : ℕ) → (count_library w).0 ≡ ok n → n ≡ length w.db.library)
unfolding count_library statement
count_library_lem w = (ground arith, λ n h. ground (arith, h))

no_rows-db : (w : World) → (no_rows w).1.db ≡ w.db
unfolding statement
no_rows-db w = ground arith

fill : Ext → List SeedEntry → Act StoreErr ℕ
fill ext entries = insert_entries ext 0 entries >> no_rows >> pure (length entries)

fill_lem :
    (ext : Ext) (entries : List SeedEntry) (w : World)
    → is_ok (fill ext entries w).0 ≡ true
    → (map told (fill ext entries w).1.db.library ≡ map told w.db.library ++ numbered 0 entries)
      × (apart_from_offers (fill ext entries w).1.db ≡ apart_from_offers w.db)
unfolding fill
fill_lem ext entries w h =
    let w1 = (insert_entries ext 0 entries w).1 in
    let all = fill ext entries w in
    elim (Result-cases (insert_entries ext 0 entries w).0) [
      | inr (x, stopped) ↦ absurd (ground (arith, stopped, h))
      | inl (t, done) ↦
          let here : all.1.db ≡ w1.db = ground (arith, done, h, no_rows-db w1) in
          (
            ap (λ db. map told db.library) here
                ∙ insert_entries-told ext 0 entries w (ap is_ok done),
            ap apart_from_offers here ∙ insert_entries-apart ext 0 entries w,
          )
    ]

seed_entries-Seeded :
    (ext : Ext) (entries : List SeedEntry) (w : World)
    → is_ok (seed_entries ext entries w).0 ≡ true
    → Seeded entries w.db (seed_entries ext entries w).1.db
unfolding seed_entries fill
seed_entries-Seeded ext entries w h =
    let w1 = (no_rows w).1 in
    let w2 = (count_library w1).1 in
    let same : w2.db ≡ w.db = (count_library_lem w1).0 ∙ no_rows-db w in
    let all = seed_entries ext entries w in
    elim (Result-cases (no_rows w).0) [
      | inr (x, stopped) ↦ absurd (ground (arith, stopped, h))
      | inl (t, locked) ↦ elim (Result-cases (count_library w1).0) [
        | inr (x, stopped) ↦ absurd (ground (arith, locked, stopped, h))
        | inl (n, counted) ↦
            let is_n : n ≡ length w.db.library =
              (count_library_lem w1).1 n counted ∙ ap (λ db. length db.library) (no_rows-db w) in
            elim (Bool-cases (ltb 0 n)) [
              | inl full ↦
                  let kept : all.1.db ≡ w.db = ground (arith, locked, counted, full, same) in
                  (
                    λ some_there. kept,
                    λ empty. absurd (ground (arith, full, is_n, empty)),
                    ap apart_from_offers kept,
                  )
              | inr none_there ↦
                  let runs : all ≡ fill ext entries w2 =
                    ground (arith, locked, counted, none_there) in
                  let f = fill_lem ext entries w2 (ap (λ r. is_ok r.0) (sym runs) ∙ h) in
                  (
                    λ some_there. absurd (ground (arith, none_there, is_n, some_there)),
                    λ empty.
                        ap (λ r. map told r.1.db.library) runs
                        ∙ f.0
                        ∙ ap (λ l. map told l ++ numbered 0 entries)
                            (ap (λ db. db.library) same ∙ empty),
                    ap (λ r. apart_from_offers r.1.db) runs ∙ f.1 ∙ ap apart_from_offers same,
                  )
            ]
      ]
    ]

began :
    {A : Type 0} (m : Act StoreErr A) (w : World)
    → is_ok ((no_rows >> m) w).0 ≡ true
    → (no_rows >> m) w ≡ m (no_rows w).1
began m w h = elim (Result-cases (no_rows w).0) [
  | inr (e, stopped) ↦ absurd (ground (arith, stopped, h))
  | inl (t, done) ↦ ground (arith, done)
]

-- Seeding changes nothing but the offers and the count of ids, and nothing at all where it fails or
-- where the library has an offer. One that succeeds on an empty library leaves exactly the file's
-- entries as offers, sorted by name and numbered from 0.
pub seed_library_if_empty-Seeded :
    (ext : Ext) (file : Option (List SeedEntry)) (w : World)
    → (is_ok (seed_library_if_empty ext file w).0 ≡ false
        → (seed_library_if_empty ext file w).1.db ≡ w.db)
      × (is_ok (seed_library_if_empty ext file w).0 ≡ true
          → (entries : List SeedEntry) × (parse_seed file ≡ ok entries)
            × Seeded entries w.db (seed_library_if_empty ext file w).1.db)
unfolding seed_library_if_empty
seed_library_if_empty-Seeded ext file w = elim (Result-cases (parse_seed file)) [
  | inr (e, broken) ↦ (λ h. ground (arith, broken), λ h. absurd (ground (arith, broken, h)))
  | inl (entries, are_entries) ↦
      let m = no_rows >> seed_entries ext entries in
      let w1 = (no_rows w).1 in
      let all = seed_library_if_empty ext file w in
      let runs : all ≡ rolled_back m w = ground (arith, are_entries) in
      (
        λ h. ap (λ r. r.1.db) runs ∙ rolled_back-undone m w (ap (λ r. is_ok r.0) (sym runs) ∙ h),
        λ h.
            let in_m : all ≡ m w =
              runs ∙ rolled_back-done m w (ap (λ r. is_ok r.0) (sym runs) ∙ h) in
            let begun : m w ≡ seed_entries ext entries w1 =
              began (seed_entries ext entries) w (ap (λ r. is_ok r.0) (sym in_m) ∙ h) in
            let worked = ap (λ r. is_ok r.0) (sym (in_m ∙ begun)) ∙ h in
            (
              entries,
              are_entries,
              subst (λ r. Seeded entries w.db r.1.db) (sym (in_m ∙ begun))
                  (subst (λ db. Seeded entries db (seed_entries ext entries w1).1.db) (no_rows-db w)
                    (seed_entries-Seeded ext entries w1 worked)),
            ),
      )
]
