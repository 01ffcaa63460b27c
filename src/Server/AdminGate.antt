-- ===== src/Server/AdminGate.antt =====
-- server/middleware/admin.go: the gate before the admin pages. Times are nanoseconds; each reading of
-- the clock is an argument. net.SplitHostPort, strings.TrimSpace and the comparison of the password
-- with its hash are arguments too.
pub mod Attempts
pub mod Overlap
use mobile_db.Prelude.{
  ℕ, suc, ◌+◌, ◌*◌, ltb, leb, if◌then◌else◌, ◌==◌, nat_eq, pair_eq, ℤ_eq, Str, str_eq_inst, length,
  Bool, false, ◌&&◌, ◌||◌, not, Option, none, some, List, [], ◌∷◌,
}
use mobile_db.Prelude.Dict.{Dict, get, put, remove}

pub record RateBucket : Type 0 where
  pub count : ℕ
  pub reset_at : ℕ

abbrev pub Buckets : Type 0
Buckets = Dict Str RateBucket

abbrev pub max_admin_attempts : ℕ
max_admin_attempts = 5

-- `15 * time.Minute`
abbrev pub rate_limit_window : ℕ
rate_limit_window = 15 * 60 * 1000000000

unfoldable pub ip_allowed : (Str → Str) → Str → List Str → Bool
ip_allowed trim_space ip [] = false
ip_allowed trim_space ip (a ∷ allowed) = trim_space a == ip || ip_allowed trim_space ip allowed

unfoldable pub rate_limited : ℕ → Str → Buckets → Bool × Buckets
rate_limited now ip buckets = elim (get buckets ip) [
  | none ↦ (false, buckets)
  | some b ↦
      if ltb b.reset_at now
      then (false, remove buckets ip)
      else (leb max_admin_attempts b.count, buckets)
]

-- The bucket after an attempt: `now` is the reading of the test, `later` that of the new bucket.
unfoldable pub next_bucket : ℕ → ℕ → Option RateBucket → RateBucket
next_bucket now later none = record { count = 1; reset_at = later + rate_limit_window }
next_bucket now later (some b) =
    if ltb b.reset_at now
    then record { count = 1; reset_at = later + rate_limit_window }
    else record b { count = suc b.count }

unfoldable pub record_attempt : ℕ → ℕ → Str → Buckets → Buckets
unfolding next_bucket
record_attempt now later ip buckets = put buckets ip (next_bucket now later (get buckets ip))

pub data Verdict : Type 0 where
  admitted forbidden too_many unauthorized : Verdict

-- A request: where it comes from, its password (`none`: no basic auth), and the clock's readings in
-- `rateLimited` and `recordAttempt`.
pub record Attempt : Type 0 where
  pub remote_addr : Str
  pub password : Option Str
  pub at_limit : ℕ
  pub at_test : ℕ
  pub at_reset : ℕ

module _ (split_host : Str → Option Str) (trim_space : Str → Str) (matches : Str → Str → Bool)
    (password_hash : Str) (allowed_ips : List Str) where
  unfoldable pub ip_of : Str → Str
  ip_of remote_addr = elim (split_host remote_addr) [ none ↦ remote_addr | some ip ↦ ip ]

  unfoldable pub has_password : Option Str → Bool
  has_password none = false
  has_password (some password) = matches password_hash password

  unfoldable pub require_admin_auth : Attempt → Buckets → Verdict × Buckets
  unfolding ip_of has_password
  require_admin_auth r buckets =
      let ip = ip_of r.remote_addr in
      let limit = rate_limited r.at_limit ip buckets in
      if ltb 0 (length allowed_ips) && not (ip_allowed trim_space ip allowed_ips)
      then (forbidden, buckets)
      else if limit.0
      then (too_many, limit.1)
      else if not (has_password r.password)
      then (unauthorized, record_attempt r.at_test r.at_reset ip limit.1)
      else (admitted, limit.1)
