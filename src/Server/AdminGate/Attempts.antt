-- ===== src/Server/AdminGate/Attempts.antt =====
-- server/middleware/admin.go: the refused passwords of an address, and an address that has no attempts left.
use mobile_db.Prelude.{
  ℕ, suc, ◌≤◌, if◌then◌else◌, ◌==◌, nat_eq, pair_eq, ℤ_eq, Str, str_eq_inst, ◌≡◌, ◌⊎◌, Bool, true,
  false, ◌&&◌, Option, none, some, List, [], ◌∷◌, arith,
}
use mobile_db.Prelude.Dict.{get, get-put}
use mobile_db.Server.AdminGate.{
  RateBucket, Buckets, max_admin_attempts, rate_limited, next_bucket, record_attempt, Verdict,
  admitted, forbidden, too_many, unauthorized, Attempt, ip_of, require_admin_auth,
}

abbrev pub is_unauthorized : Verdict → Bool
is_unauthorized unauthorized = true
is_unauthorized admitted = false
is_unauthorized forbidden = false
is_unauthorized too_many = false

-- The attempts that a bucket has counted.
abbrev pub used : Option RateBucket → ℕ
used none = 0
used (some b) = b.count

-- All readings of the clock lie between `start` and `end`.
abbrev pub Between : ℕ → ℕ → Attempt → Type 0
Between start end r =
    (start ≤ r.at_limit)
    × (r.at_limit ≤ end)
    × (start ≤ r.at_test)
    × (r.at_test ≤ end)
    × (start ≤ r.at_reset)
    × (r.at_reset ≤ end)

pub get_attempt :
    (now later : ℕ) (ip : Str) (buckets : Buckets) (j : Str)
    → get (record_attempt now later ip buckets) j
      ≡ (if ip == j then some (next_bucket now later (get buckets ip)) else get buckets j)
unfolding record_attempt
get_attempt now later ip buckets j = get-put buckets ip (next_bucket now later (get buckets ip)) j

module _ (split_host : Str → Option Str) (trim_space : Str → Str) (matches : Str → Str → Bool)
    (password_hash : Str) (allowed_ips : List Str) where
  abbrev gate : Attempt → Buckets → Verdict × Buckets
  gate = require_admin_auth split_host trim_space matches password_hash allowed_ips

  -- The request comes from `x` and its password is refused.
  abbrev pub refused : Str → Attempt → Buckets → Bool
  refused x r buckets =
      ip_of split_host trim_space matches password_hash allowed_ips r.remote_addr == x
      && is_unauthorized (gate r buckets).0

  -- How many passwords from `x` are refused over a sequence of requests.
  unfoldable pub refusals : Str → List Attempt → Buckets → ℕ
  refusals x [] buckets = 0
  refusals x (r ∷ rs) buckets =
      let later = refusals x rs (gate r buckets).1 in
      if refused x r buckets then suc later else later

  abbrev host : Attempt → Str
  host r = ip_of split_host trim_space matches password_hash allowed_ips r.remote_addr

  -- Once an address has used up its attempts, every request from it in the bucket's time is turned
  -- away without a look at the password, right or wrong, and changes nothing.
  locked_out :
      (r : Attempt) (buckets : Buckets) (bucket : RateBucket)
      → get buckets (host r) ≡ some bucket
      → max_admin_attempts ≤ bucket.count
      → r.at_limit ≤ bucket.reset_at
      → ((gate r buckets).0 ≡ too_many ⊎ ((gate r buckets).0 ≡ forbidden))
        × ((gate r buckets).1 ≡ buckets)
  unfolding require_admin_auth rate_limited
  locked_out r buckets bucket h h' h'' = ground (arith, h)
