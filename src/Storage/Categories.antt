-- ===== src/Storage/Categories.antt =====
-- internal/storage/categories.go and collapse.go: categories, and those a user has collapsed.
use homepad_api.Base.{
  ℕ, suc, String, Bool, not, ◌&&◌, List, [], ◌∷◌, ◌++◌, none, some, ◌==◌, nat_eq, string_eq,
  text_eq, ltb, leb, if◌then◌else◌, any, find?, filter, map, ok, err, Text, contains, sort_slice,
}
use Prim.Native.String.{compare}
use text.Mathlib.Text.{is_lt}
use homepad_api.Storage.{
  StoreErr, not_found, name_taken, CategoryRow, ServiceRow, Db, Act, Ext, statement, query,
  transaction, ◌>>◌, pure,
}

abbrev pub owned_by : String → CategoryRow → Bool
owned_by user_id c = c.user_id == user_id

unfoldable pub list_categories : String → Act StoreErr (List CategoryRow)
unfolding statement sort_slice
list_categories user_id = query (λ db.
    ok
      (sort_slice (λ a b. ltb a.sort_index b.sort_index) (filter (owned_by user_id) db.categories)))

-- `COALESCE(max(sort_index) + 1, 0)`
unfoldable pub next_index : List CategoryRow → ℕ
next_index [] = 0
next_index (c ∷ cs) =
    let rest = next_index cs in if leb rest c.sort_index then suc c.sort_index else rest

-- The default of `grid_width`, from migrations/0013.
abbrev default_grid_width : ℕ
default_grid_width = 6

-- The unique index on `(user_id, name)`.
abbrev pub has_name : String → Text → CategoryRow → Bool
has_name user_id name c = owned_by user_id c && c.name == name

unfoldable pub create_category : Ext → String → Text → Act StoreErr CategoryRow
unfolding statement next_index
create_category ext user_id name = statement (λ db.
    if any (has_name user_id name) db.categories
    then (err name_taken, db)
    else let c : CategoryRow = record {
      id = ext.uuid db.next_id;
      user_id = user_id;
      name = name;
      sort_index = next_index (filter (owned_by user_id) db.categories);
      grid_width = default_grid_width;
    } in
      (ok c, record db { categories = db.categories ++ c ∷ []; next_id = suc db.next_id }))

abbrev pub is_row : String → String → CategoryRow → Bool
is_row id user_id c = c.id == id && owned_by user_id c

abbrev pub update_rows : (CategoryRow → Bool) → (CategoryRow → CategoryRow) → Db → Db
update_rows p f db = record db { categories = map (λ c. if p c then f c else c) db.categories }

unfoldable pub rename_category : String → String → Text → Act StoreErr CategoryRow
unfolding statement
rename_category id user_id name = statement (λ db. elim (find? (is_row id user_id) db.categories) [
  | none ↦ (err not_found, db)
  | some c ↦
      if any (λ d. has_name user_id name d && not (d.id == id)) db.categories
      then (err name_taken, db)
      else (
        ok (record c { name = name }),
        update_rows (is_row id user_id) (λ d. record d { name = name }) db,
      )
])

unfoldable pub set_index : String → String → ℕ → Act StoreErr (Unit {0})
unfolding statement
set_index user_id id i = statement (λ db.
    if any (is_row id user_id) db.categories
    then (ok tt, update_rows (is_row id user_id) (λ d. record d { sort_index = i }) db)
    else (err not_found, db))

unfoldable pub set_indices : String → ℕ → List String → Act StoreErr (Unit {0})
unfolding set_index
set_indices user_id i [] = pure tt
set_indices user_id i (id ∷ ids) = set_index user_id id i >> set_indices user_id (suc i) ids

unfoldable pub set_category_order : String → List String → Act StoreErr (Unit {0})
unfolding transaction statement set_indices
set_category_order user_id ordered_ids = transaction (set_indices user_id 0 ordered_ids)

abbrev pub uncategorized : String → ServiceRow → ServiceRow
uncategorized id s = elim s.category_id [
  | none ↦ s
  | some c ↦ if c == id then record s { category_id = none } else s
]

-- `ON DELETE SET NULL` of the services, and `ON DELETE CASCADE` of the collapsed ones.
abbrev pub without_category : String → String → Db → Db
without_category id user_id db =
    if any (is_row id user_id) db.categories
    then record db {
      categories = filter (λ c. not (is_row id user_id c)) db.categories;
      services = map (uncategorized id) db.services;
      collapsed = filter (λ c. not (c.1 == id)) db.collapsed;
    }
    else db

unfoldable pub delete_category : String → String → Act StoreErr (Unit {0})
unfolding statement
delete_category id user_id = statement (λ db. (ok tt, without_category id user_id db))

unfoldable pub set_category_width : String → String → ℕ → Act StoreErr CategoryRow
unfolding statement
set_category_width id user_id width = statement (λ db.
    elim (find? (is_row id user_id) db.categories) [
      | none ↦ (err not_found, db)
      | some c ↦ (
        ok (record c { grid_width = width }),
        update_rows (is_row id user_id) (λ d. record d { grid_width = width }) db,
      )
    ])

unfoldable pub collapsed_category_ids : String → Act StoreErr (List String)
unfolding statement sort_slice
collapsed_category_ids user_id = query (λ db. ok (
    sort_slice (λ a b. is_lt (compare a b))
      (map (λ r. r.1) (filter (λ r. r.0 == user_id) db.collapsed))))

unfoldable pub set_collapsed_categories : String → List String → Act StoreErr (Unit {0})
unfolding transaction statement
set_collapsed_categories user_id category_ids = transaction (
    statement
      (λ db. (ok tt, record db { collapsed = filter (λ r. not (r.0 == user_id)) db.collapsed }))
    >> statement (λ db. (
      ok tt,
      record db {
        collapsed =
            db.collapsed
            ++ map (λ c. (user_id, c.id)) (filter (λ c. contains category_ids c.id) db.categories);
      },
    )))
