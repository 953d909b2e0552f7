-- ===== src/Session.antt =====
-- internal/session/session.go: lifetimes, the session record and the contract of a store.
-- An instant is a number of nanoseconds since the epoch and a duration a number of nanoseconds;
-- the durations that the source passes are positive constants. The random token and handle of a
-- sign-in come in as a `Draw`, sha256 as an argument.
pub mod UserAgent
pub mod Memory
pub mod Pg
pub mod Contract
pub mod Sweep
mod Tests
use homepad_api.Base.{
  ℕ, String, Bool, ◌==◌, nat_eq, string_eq, ◌+◌, ◌-◌, ◌*◌, ◌%◌, leb, ltb, if◌then◌else◌, Option,
  none, some, Result, ok, err, List,
}

pub data SessionErr : Type 0 where
  not_found bad_lifetime no_entropy unavailable : SessionErr

abbrev pub second : ℕ
second = 1000000000

abbrev pub adult_lifetime : ℕ
adult_lifetime = 30 * 24 * 3600 * second

abbrev pub kid_lifetime : ℕ
kid_lifetime = 180 * 24 * 3600 * second

abbrev pub touch_interval : ℕ
touch_interval = 60 * second

abbrev pub sweep_interval : ℕ
sweep_interval = 3600 * second

unfoldable pub lifetime_of : String → ℕ
lifetime_of role = if role == "kid" then kid_lifetime else adult_lifetime

pub record Session : Type 0 where
  pub handle : String
  pub user_id : String
  pub created_at : ℕ
  pub last_seen_at : ℕ
  pub expires_at : ℕ
  pub user_agent : List ℕ
  pub touch_due : Bool

-- What `crypto/rand` yields for one sign-in: the base64 of 32 bytes and the hex of 16, or `none`
-- where the read fails.
pub record Draw : Type 0 where
  pub token : Option String
  pub handle : Option String

unfoldable pub new_token : Draw → Result SessionErr String
new_token d = elim d.token [ none ↦ err no_entropy | some t ↦ ok t ]

unfoldable pub new_handle : Draw → Result SessionErr String
new_handle d = elim d.handle [ none ↦ err no_entropy | some h ↦ ok h ]

-- `clock().Truncate(time.Microsecond)`
unfoldable pub clock_now : ℕ → ℕ
clock_now clock = clock - clock % 1000

unfoldable pub check_lifetime : ℕ → Bool
check_lifetime lifetime = ltb 0 lifetime

unfoldable pub touch_due_at : ℕ → ℕ → Bool
touch_due_at last_seen now = leb (last_seen + touch_interval) now

-- `now.Before(s.ExpiresAt)`
abbrev pub is_live : ℕ → Session → Bool
is_live now s = ltb now s.expires_at
