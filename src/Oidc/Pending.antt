-- ===== src/Oidc/Pending.antt =====
-- The logins under way, of internal/oidc/oidc.go.
pub mod Laws
use homepad_api.Base.{
  ℕ, ◌+◌, ◌≤◌, Bool, true, false, List, [], ◌∷◌, Option, none, some, Text, ◌==◌, text_eq, ltb,
  lookup, insert, erase, if◌then◌else◌, ◌≡◌, arith, lookup-insert, lookup-erase,
}

pub record PendingEntry : Type 0 where
  pub verifier : Text
  pub nonce : Text
  pub expires : ℕ

pub record Pending : Type 0 where
  pub entries : List (Text × PendingEntry)
  pub ttl : ℕ

unfoldable pub new_pending : ℕ → Pending
new_pending ttl = record { entries = []; ttl = ttl }

unfoldable pub put : ℕ → Text → Text → Text → Pending → Pending
put now state verifier nonce p = record p {
  entries =
      insert state (record { verifier = verifier; nonce = nonce; expires = now + p.ttl }) p.entries;
}

-- The verifier and the nonce, once; the entry goes in any case.
unfoldable pub take : ℕ → Text → Pending → Option (Text × Text) × Pending
take now state p = elim (lookup state p.entries) [
  | none ↦ (none, p)
  | some e ↦ (
    if ltb e.expires now then none else some (e.verifier, e.nonce),
    record p { entries = erase state p.entries },
  )
]

-- What happens to the logins under way, each at its instant.
pub data Event : Type 0 where
  puts : ℕ → Text → Text → Text → Event
  takes : ℕ → Text → Event

unfoldable pub after : Event → Pending → Pending
unfolding put take
after (puts now state verifier nonce) p = put now state verifier nonce p
after (takes now state) p = (take now state p).1

unfoldable pub after_all : List Event → Pending → Pending
unfolding after
after_all [] p = p
after_all (e ∷ es) p = after_all es (after e p)

-- Neither starts nor ends the login.
abbrev pub is_about : Text → Event → Bool
is_about state (puts now other verifier nonce) = other == state
is_about state (takes now other) = other == state

abbrev pub starts : Text → Event → Bool
starts state (puts now other verifier nonce) = other == state
starts state (takes now other) = false
