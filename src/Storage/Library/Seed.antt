-- ===== src/Storage/Library/Seed.antt =====
-- internal/storage/seed.go: the offers of a fresh App Library. The embedded file comes in decoded,
-- `none` where that fails; its descriptions start with an ASCII character, if they have any.
pub mod Once
use homepad_api.Base.{
  ℕ, suc, ◌-◌, Bool, true, false, ◌&&◌, ◌||◌, List, [], ◌∷◌, ◌++◌, Option, none, some, Result, ok,
  err, Text, ltb, leb, ◌==◌, nat_eq, length, sort_slice, if◌then◌else◌,
}
use homepad_api.Storage.{
  StoreErr, failed, LibraryApp, Db, World, Act, Ext, statement, query, no_rows, pure, throw, ◌>>=◌,
  ◌>>◌,
}

pub record SeedEntry : Type 0 where
  pub name : Text
  pub url : Text
  pub icon : Text
  pub description : Text

-- The group with a capital first letter.
unfoldable pub suggested_category : Text → Text
suggested_category [] = []
suggested_category (c ∷ cs) = (if leb b'a' c && leb c b'z' then c - 32 else c) ∷ cs

-- `<` on strings.
abbrev pub text_before : Text → Text → Bool
text_before [] [] = false
text_before [] (b ∷ bs) = true
text_before (a ∷ as_) [] = false
text_before (a ∷ as_) (b ∷ bs) = ltb a b || (a == b && text_before as_ bs)

unfoldable pub parse_seed : Option (List SeedEntry) → Result StoreErr (List SeedEntry)
unfolding sort_slice
parse_seed none = err failed
parse_seed (some entries) = ok (sort_slice (λ a b. text_before a.name b.name) entries)

-- `Begin` with the deferred `Rollback`, which undoes what was written before an error.
unfoldable pub rolled_back : {A : Type 0} → Act StoreErr A → Act StoreErr A
rolled_back m w = elim (m w).0 [ ok a ↦ m w | err e ↦ (err e, record (m w).1 { db = w.db }) ]

-- The row of the i-th entry.
abbrev pub seed_row : Ext → ℕ → ℕ → SeedEntry → LibraryApp
seed_row ext next_id i e = record {
  id = ext.uuid next_id;
  name = e.name;
  url = e.url;
  icon = e.icon;
  description = e.description;
  suggested_category = suggested_category e.description;
  sort_index = i;
}

unfoldable pub insert_entry : Ext → ℕ → SeedEntry → Act StoreErr (Unit {0})
unfolding statement suggested_category
insert_entry ext i e = statement (λ db. (
  ok tt,
  record db { library = db.library ++ seed_row ext db.next_id i e ∷ []; next_id = suc db.next_id },
))

unfoldable pub insert_entries : Ext → ℕ → List SeedEntry → Act StoreErr (Unit {0})
unfolding insert_entry
insert_entries ext i [] = pure tt
insert_entries ext i (e ∷ es) = insert_entry ext i e >> insert_entries ext (suc i) es

unfoldable pub count_library : Act StoreErr ℕ
unfolding statement
count_library = query (λ db. ok (length db.library))

-- The lock, the count, the inserts and the commit; a library with offers is left as it is.
unfoldable pub seed_entries : Ext → List SeedEntry → Act StoreErr ℕ
unfolding statement count_library insert_entries
seed_entries ext entries = no_rows >> count_library >>= λ n.
    if ltb 0 n then pure 0 else (insert_entries ext 0 entries >> no_rows >> pure (length entries))

unfoldable pub seed_library_if_empty : Ext → Option (List SeedEntry) → Act StoreErr ℕ
unfolding parse_seed statement rolled_back seed_entries
seed_library_if_empty ext file w = elim (parse_seed file) [
  | err e ↦ (err e, w)
  | ok entries ↦ rolled_back (no_rows >> seed_entries ext entries) w
]
