-- ===== src/Session/Memory/Listing.antt =====
-- `ListForUser` of internal/session/memory.go: what it holds, and in which order.
use mathlib.Core.List.{Mem, mem-cons_self, mem-cons_of_mem}
use mathlib.Core.List.Perm
use homepad_api.Base.{
  ℕ, ◌≤◌, ◌<◌, ◌≡◌, refl, inl, inr, String, Bool, true, false, List, [], ◌∷◌, some, ◌==◌, nat_eq,
  string_eq, lookup, filter_values, map, All, Falls, ok, arith, eq_iff, Bool-cases, sort_slice,
  sort_slice-perm, sort_slice-All, sort_slice-Falls,
}
use homepad_api.Session.{Session, clock_now}
use homepad_api.Session.Memory.{Sessions, seen_at, less_recent, live_of, list_for_user}

less_recent-first : (a b : Session) → less_recent a b ≡ true → b.last_seen_at ≤ a.last_seen_at
unfolding less_recent
less_recent-first a b h = ground arith

less_recent-last : (a b : Session) → less_recent a b ≡ false → a.last_seen_at ≤ b.last_seen_at
unfolding less_recent
less_recent-last a b h = ground arith

mem_of_lookup :
    (p : Session → Bool) (f : Session → Session) (k : String) (s : Session) (m : Sessions)
    → lookup k m ≡ some s
    → p s ≡ true
    → Mem (f s) (map (λ r. f r.1) (filter_values p m))
mem_of_lookup p f k s [] held passes = absurd (ground arith)
mem_of_lookup p f k s ((h, t) ∷ m) held passes =
    let rest = λ (other : (h == k) ≡ false). mem_of_lookup p f k s m (ground arith) passes in
    elim (Bool-cases (h == k)) [
      | inl same ↦ let value : t ≡ s = ground arith in rw (value, passes) mem-cons_self
      | inr other ↦ elim (Bool-cases (p t)) [
        | inl kept ↦ rw kept (mem-cons_of_mem (f t) (rest other))
        | inr gone ↦ rw gone (rest other)
      ]
    ]

live-All :
    (user_id : String) (now : ℕ) (m : Sessions)
    → All
        (λ s. (s.user_id ≡ user_id) × (now < s.expires_at))
        (map (λ r. seen_at now r.1) (filter_values (live_of user_id now) m))
live-All user_id now [] = tt
live-All user_id now ((h, s) ∷ m) = elim (Bool-cases (live_of user_id now s)) [
  | inl kept ↦
      rw kept ((ground (arith, eq_iff s.user_id user_id), ground arith), live-All user_id now m)
  | inr gone ↦ rw gone (live-All user_id now m)
]

-- The list is returned without an error; it holds only live sessions of the user and every one
-- that the store has, and it falls by the time of the last use.
pub list_for_user_lem :
    (clock : ℕ) (user_id : String) (m : Sessions)
    → (xs : List Session) × (list_for_user clock user_id m ≡ ok xs)
      × All (λ s. (s.user_id ≡ user_id) × (clock_now clock < s.expires_at)) xs
      × Falls less_recent (λ s. s.last_seen_at) xs
      × ((k : String) (s : Session)
          → lookup k m ≡ some s
          → s.user_id ≡ user_id
          → clock_now clock < s.expires_at
          → Mem (seen_at (clock_now clock) s) xs)
unfolding list_for_user
list_for_user_lem clock user_id m = (
  sort_slice less_recent live,
  refl,
  sort_slice-All less_recent (λ s. (s.user_id ≡ user_id) × (now < s.expires_at)) live
      (live-All user_id now m),
  sort_slice-Falls less_recent (λ s. s.last_seen_at) less_recent-first less_recent-last live,
  λ k s held own alive. Perm.subset (Perm.symm (sort_slice-perm less_recent live)) _ (
      mem_of_lookup (live_of user_id now) (seen_at now) k s m held
        (ground (arith, eq_iff s.user_id user_id))),
)
  where
    now : ℕ
    now = clock_now clock

    live : List Session
    live = map (λ r. seen_at now r.1) (filter_values (live_of user_id now) m)
