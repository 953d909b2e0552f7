-- ===== src/Session/Tests.antt =====
-- Runs of the session stores, the sweeper and the User-Agent filter on concrete sessions.
use homepad_api.Base.{
  ℕ, ◌+◌, ◌≤◌, ◌<◌, ◌≡◌, ◌≢◌, refl, inl, String, true, false, List, [], ◌∷◌, none, some, ◌==◌,
  nat_eq, string_eq, if◌then◌else◌, lookup, ltb, length, any, All, Falls, ok, err, arith, eq_iff,
}
use mathlib.Core.List.{Mem}
use mathlib.Core.Path.{subst}
use homepad_api.Session.{Session, Draw, not_found, adult_lifetime, clock_now}
use homepad_api.Session.Contract.{
  Call, creates, finds, touches, destroys, lists, revokes, sweeps, step, run,
}
use homepad_api.Session.Memory.{
  Sessions, memory_store, create, find, touch, destroy, list_for_user, revoke_by_handle,
  delete_expired, seen_at, less_recent, fresh_session,
}
use homepad_api.Session.Memory.Laws.{find-create, find-revoke_by_handle}
use homepad_api.Session.Memory.Invariant.{has_handle, Inv, step-Inv}
use homepad_api.Session.Memory.Listing.{list_for_user_lem}
use homepad_api.Session.Pg.{pg_store}
use homepad_api.Session.Pg.Refinement.{table, AllNew, run-refines}
use homepad_api.Session.Sweep.{Wake, done, tick, run_sweeper, run_sweeper-holds}
use homepad_api.Session.Sweep.Stores.{memory-Sweepable}
use homepad_api.Session.UserAgent.{sanitize_user_agent, max_user_agent_len}
use homepad_api.Session.UserAgent.Laws.{sanitize_user_agent_lem, IsUtf8}

abbrev sha256 : String → String
sha256 token = token

distinct : (a b : String) → (a == b) ≡ false → a ≢ b
distinct a b h e = ground (arith, h, e, eq_iff a b)

abbrev kitchen : Session
kitchen = record {
  handle = "h1";
  user_id = "ada";
  created_at = 1000;
  last_seen_at = 1000;
  expires_at = 90000000000;
  user_agent = [];
  touch_due = false;
}

abbrev phone : Session
phone = record {
  handle = "h2";
  user_id = "bob";
  created_at = 2000;
  last_seen_at = 2000;
  expires_at = 5000;
  user_agent = [];
  touch_due = false;
}

abbrev two : Sessions
two = ("t1", kitchen) ∷ ("t2", phone) ∷ []

two-Inv : Inv two
two-Inv = record { keyed = ground arith; distinct = ground arith; timed = ground arith }

abbrev draw : Draw
draw = record { token = some "t3"; handle = some "h3" }

abbrev calls : List Call
calls =
    creates draw 3000 "ada" adult_lifetime []
    ∷ finds 4000 "t3"
    ∷ touches 61000000000 "t1" adult_lifetime
    ∷ lists 4000 "ada"
    ∷ revokes "bob" "h2"
    ∷ destroys "t1"
    ∷ sweeps 6000
    ∷ []

calls-AllNew : AllNew sha256 (λ id. true) calls two
unfolding step create destroy touch find revoke_by_handle delete_expired
calls-AllNew = (
  (
    refl,
    λ h e.
        let same : "h3" ≡ h = ground (arith, e) in subst (λ x. has_handle x two ≡ false) same refl,
    λ t e.
        let same : "t3" ≡ t = ground (arith, e) in
        subst (λ x. lookup (sha256 x) two ≡ none) same refl,
  ),
  (tt, (tt, (tt, (tt, (tt, (tt, tt)))))),
)

run-refines_example :
    run (pg_store sha256) calls (table (λ id. true) two)
    ≡ (let (rs, m') = run (memory_store sha256) calls two in (rs, table (λ id. true) m'))
run-refines_example = run-refines sha256 (λ id. true) calls two calls-AllNew two-Inv

step-Inv_example : Inv (step (memory_store sha256) (destroys "t1") two).1
step-Inv_example = step-Inv sha256 (destroys "t1") two tt two-Inv

created_three :
    (create sha256 draw 3000 "ada" adult_lifetime [] two).0
    ≡ ok ("t3", fresh_session "h3" "ada" 3000 adult_lifetime [])
unfolding create fresh_session
created_three = refl

find-create_example :
    find sha256 4000 "t3" (create sha256 draw 3000 "ada" adult_lifetime [] two).1 ≡ (
      if ltb (clock_now 4000) (clock_now 3000 + adult_lifetime)
      then ok (seen_at (clock_now 4000) (fresh_session "h3" "ada" 3000 adult_lifetime []))
      else err not_found)
find-create_example =
    find-create sha256 draw 3000 4000 adult_lifetime "ada" "t3"
      (fresh_session "h3" "ada" 3000 adult_lifetime []) [] two created_three (distinct "t3" "" refl)

touched_kitchen : (touch sha256 61000000000 "t1" adult_lifetime two).0 ≡ ok true
unfolding touch
touched_kitchen = refl

find-revoke_by_handle_example :
    let m' = (revoke_by_handle "bob" "h2" two).1 in
    ((revoke_by_handle "bob" "h2" two).0 ≡ ok tt)
    × (find sha256 4000 "t2" m' ≡ err not_found)
    × (find sha256 4000 "t1" m' ≡ find sha256 4000 "t1" two)
find-revoke_by_handle_example =
    find-revoke_by_handle sha256 4000 "t2" "t1" phone kitchen two two-Inv.keyed two-Inv.distinct
      refl refl (inl (distinct "ada" "bob" refl))

list_for_user_lem_example :
    (xs : List Session) × (list_for_user 4000 "ada" two ≡ ok xs)
    × All (λ s. (s.user_id ≡ "ada") × (clock_now 4000 < s.expires_at)) xs
    × Falls less_recent (λ s. s.last_seen_at) xs
    × ((k : String) (s : Session)
        → lookup k two ≡ some s
        → s.user_id ≡ "ada"
        → clock_now 4000 < s.expires_at
        → Mem (seen_at (clock_now 4000) s) xs)
list_for_user_lem_example = list_for_user_lem 4000 "ada" two

abbrev at : ℕ → Wake
at clock = record { clock = clock; cancelled = false }

run_sweeper-holds_example :
    lookup "t1" (run_sweeper (memory_store sha256) (at 6000) (tick (at 8000) ∷ done ∷ []) two).1
    ≡ some kitchen
unfolding memory-Sweepable
run_sweeper-holds_example =
    run_sweeper-holds (memory_store sha256) (memory-Sweepable sha256) (at 6000)
      (tick (at 8000) ∷ done ∷ []) two "t1" kitchen two-Inv.keyed refl
      (unfold clock_now in omega arith) ((unfold clock_now in omega arith), tt)

-- A NUL, an encoding that is cut off, and a letter.
abbrev bad_agent : List ℕ
bad_agent = 0 ∷ 0xE2 ∷ 0x82 ∷ 65 ∷ []

sanitize_user_agent_lem_example :
    (length (sanitize_user_agent bad_agent) ≤ max_user_agent_len)
    × (any (λ b. b == 0) (sanitize_user_agent bad_agent) ≡ false)
    × IsUtf8 (sanitize_user_agent bad_agent)
sanitize_user_agent_lem_example = sanitize_user_agent_lem bad_agent
