-- ===== src/Oidc/Pending/Laws.antt =====
-- Put and Take of internal/oidc/oidc.go: a login is given back once.
use homepad_api.Base.{
  ℕ, ◌+◌, ◌≤◌, false, List, [], ◌∷◌, Option, none, some, Text, text_eq, lookup, any, ◌≡◌, refl,
  arith, lookup-insert, lookup-erase, equals_refl, Option-cases, inl, inr,
}
use homepad_api.Oidc.Pending.{
  PendingEntry, Pending, put, take, Event, puts, takes, after, after_all, is_about, starts,
}

abbrev entry_of : Text → Pending → Option PendingEntry
entry_of state p = lookup state p.entries

-- What is about other logins leaves the entry.
after-entry_of :
    (state : Text) (e : Event) (p : Pending)
    → is_about state e ≡ false
    → entry_of state (after e p) ≡ entry_of state p
unfolding after put take
after-entry_of state (puts now other verifier nonce) p h = ground (
  arith,
  h,
  lookup-insert other state (record { verifier = verifier; nonce = nonce; expires = now + p.ttl })
      p.entries,
)
after-entry_of state (takes now other) p h = elim (Option-cases (lookup other p.entries)) [
  | inl missing ↦ ground (arith, missing)
  | inr (e, found) ↦ ground (arith, h, found, lookup-erase other state p.entries)
]

after_all-entry_of :
    (state : Text) (es : List Event) (p : Pending)
    → any (is_about state) es ≡ false
    → entry_of state (after_all es p) ≡ entry_of state p
unfolding after_all
after_all-entry_of state [] p h = refl
after_all-entry_of state (e ∷ es) p h =
    ground (arith, h, after-entry_of state e p, after_all-entry_of state es (after e p))

-- A login that is not there does not come back by itself.
after-missing :
    (state : Text) (e : Event) (p : Pending)
    → starts state e ≡ false
    → entry_of state p ≡ none
    → entry_of state (after e p) ≡ none
unfolding after put take
after-missing state (puts now other verifier nonce) p h missing = ground (
  arith,
  h,
  missing,
  lookup-insert other state (record { verifier = verifier; nonce = nonce; expires = now + p.ttl })
      p.entries,
)
after-missing state (takes now other) p h missing = elim (Option-cases (lookup other p.entries)) [
  | inl absent ↦ ground (arith, absent, missing)
  | inr (e, found) ↦ ground (arith, missing, found, lookup-erase other state p.entries)
]

after_all-missing :
    (state : Text) (es : List Event) (p : Pending)
    → any (starts state) es ≡ false
    → entry_of state p ≡ none
    → entry_of state (after_all es p) ≡ none
unfolding after_all
after_all-missing state [] p h missing = missing
after_all-missing state (e ∷ es) p h missing =
    ground (arith, h, missing, after-missing state e p, after_all-missing state es (after e p))

taken_away : (now : ℕ) (state : Text) (p : Pending) → entry_of state (take now state p).1 ≡ none
unfolding take
taken_away now state p = elim (Option-cases (lookup state p.entries)) [
  | inl missing ↦ ground (arith, missing)
  | inr (e, found) ↦ ground (arith, found, lookup-erase state state p.entries, equals_refl state)
]

-- A login that was put is given back with its verifier and its nonce, however many other logins are
-- put and taken in between, to a take within its time to live.
pub take-put :
    (now later : ℕ) (state verifier nonce : Text) (es : List Event) (p : Pending)
    → any (is_about state) es ≡ false
    → later ≤ now + p.ttl
    → (take later state (after_all es (put now state verifier nonce p))).0 ≡ some (verifier, nonce)
unfolding take put
take-put now later state verifier nonce es p apart soon =
    let entry : PendingEntry = record {
      verifier = verifier;
      nonce = nonce;
      expires = now + p.ttl;
    } in
    let q = put now state verifier nonce p in
    let found : entry_of state q ≡ some entry =
      ground (arith, lookup-insert state state entry p.entries, equals_refl state) in
    ground (arith, soon, found, after_all-entry_of state es q apart)

-- Once a login is taken, whether in time or too late, every later take of it fails until a login
-- with that state is put again, whatever else is put and taken in between.
pub take_once :
    (now later : ℕ) (state : Text) (es : List Event) (p : Pending)
    → any (starts state) es ≡ false
    → (take later state (after_all es (take now state p).1)).0 ≡ none
unfolding take
take_once now later state es p apart =
    ground (arith, after_all-missing state es (take now state p).1 apart (taken_away now state p))
