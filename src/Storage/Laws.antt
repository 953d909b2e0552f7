-- ===== src/Storage/Laws.antt =====
-- What a statement and a transaction do to the database.
use homepad_api.Base.{
  Bool, false, not, any, filter, Bool-cases, List, [], ◌∷◌, Result, ok, err, ap, refl, ◌≡◌, arith,
  ◌⊎◌, inl, inr, is_ok, Result-cases,
}
use homepad_api.Storage.{
  StoreErr, Db, World, Act, statement, query, transaction, no_rows, ◌>>=◌, ◌>>◌, pure,
}

-- The next statement fails.
abbrev pub fails : List Bool → Bool
fails [] = false
fails (b ∷ bs) = b

-- A statement fails and leaves the database, or it does what its query says.
pub statement-cases :
    {A : Type 0} (q : Db → Result StoreErr A × Db) (w : World)
    → (((statement q w).0 ≡ err StoreErr.failed) × ((statement q w).1.db ≡ w.db))
      ⊎ (((statement q w).0 ≡ (q w.db).0) × ((statement q w).1.db ≡ (q w.db).1))
unfolding statement
statement-cases q w = elim (Bool-cases (fails w.faults)) [
  | inl h ↦ inl (ground arith)
  | inr h ↦ inr (ground arith)
]

pub statement-cookies :
    {A : Type 0} (q : Db → Result StoreErr A × Db) (w : World)
    → (statement q w).1.cookies ≡ w.cookies
unfolding statement
statement-cookies q w = ground arith

pub query-db : {A : Type 0} (q : Db → Result StoreErr A) (w : World) → (query q w).1.db ≡ w.db
unfolding statement
query-db q w = ground arith

-- A transaction that answers an error leaves the database.
pub transaction-rolls_back :
    {A : Type 0} (m : Act StoreErr A) (w : World)
    → is_ok (transaction m w).0 ≡ false
    → (transaction m w).1.db ≡ w.db
unfolding transaction
transaction-rolls_back m w h = ground arith

-- What a query keeps, its statement keeps.
pub statement-keeps :
    {A X : Type 0} (f : Db → X) (q : Db → Result StoreErr A × Db) (w : World)
    → f (q w.db).1 ≡ f w.db
    → f (statement q w).1.db ≡ f w.db
unfolding statement
statement-keeps f q w h = ground (arith, h)

-- A chain whose first action answers a value goes on with it.
pub bind_ok :
    {E A B : Type 0} (m : Act E A) (f : A → Act E B) (w v : World) (a : A)
    → m w ≡ (ok a, v)
    → (m >>= f) w ≡ f a v
bind_ok m f w v a h = ap (λ r. elim r.0 [ ok b ↦ f b r.1 | err e ↦ (err e, r.1) ]) h

-- What every action of a chain keeps, the chain keeps.
pub bind-keeps :
    {E A B X : Type 0} (f : Db → X) (m : Act E A) (k : A → Act E B)
    → ((w : World) → f (m w).1.db ≡ f w.db)
    → ((a : A) (w : World) → f (k a w).1.db ≡ f w.db)
    → (w : World) → f ((m >>= k) w).1.db ≡ f w.db
bind-keeps f m k first next w = elim (Result-cases (m w).0) [
  | inl (a, is_a) ↦ ground (arith, is_a, first w, next a (m w).1)
  | inr (e, is_e) ↦ ground (arith, is_e, first w)
]

no_rows-db : (w : World) → (no_rows w).1.db ≡ w.db
unfolding statement
no_rows-db w = ground arith

-- What an action keeps, its transaction keeps.
pub transaction-keeps :
    {A X : Type 0} (f : Db → X) (m : Act StoreErr A)
    → ((w : World) → f (m w).1.db ≡ f w.db)
    → (w : World) → f (transaction m w).1.db ≡ f w.db
unfolding transaction
transaction-keeps f m keeps w =
    let r = (no_rows >> m >>= λ a. no_rows >> pure a) w in
    let idle : (v : World) → f (no_rows v).1.db ≡ f v.db = λ v. ap f (no_rows-db v) in
    let kept : f r.1.db ≡ f w.db =
      bind-keeps f (no_rows >> m) (λ a. no_rows >> pure a)
        (bind-keeps f no_rows (λ t. m) idle (λ t. keeps))
        (λ a. bind-keeps f no_rows (λ t. pure a) idle (λ t v. refl)) w in
    elim (Result-cases r.0) [
      | inl (a, is_a) ↦ ground (arith, is_a, kept)
      | inr (e, is_e) ↦ ground (arith, is_e)
    ]

-- Of a table's rows those that a test holds for are gone, and the others are left.
abbrev pub Cleared {ℓ} : {A : Type ℓ} → (A → Bool) → List A → List A → Type ℓ
Cleared gone before after =
    (any gone after ≡ false)
    × (filter (λ r. not (gone r)) after ≡ filter (λ r. not (gone r)) before)

pub filter-Cleared {ℓ} :
    {A : Type ℓ} (gone : A → Bool) (rows : List A)
    → Cleared gone rows (filter (λ r. not (gone r)) rows)
filter-Cleared gone [] = (refl, refl)
filter-Cleared gone (r ∷ rs) =
    let (none_left, others) = filter-Cleared gone rs in
    elim (Bool-cases (gone r)) [
      | inl out ↦ rw out (none_left, others)
      | inr kept ↦ rw (kept, kept) (none_left, ap (λ t. r ∷ t) others)
    ]
