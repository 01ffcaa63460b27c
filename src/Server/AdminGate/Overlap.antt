-- ===== src/Server/AdminGate/Overlap.antt =====
-- server/middleware/admin.go under requests that overlap. The mutex covers the test of the limit and
-- the recording of an attempt each on its own: a request passes the limit in one turn and has its
-- password looked at in a later one, with turns of other requests in between.
pub mod Bound
pub mod Serial
pub mod Flood
use mobile_db.Prelude.{
  ℕ, zero, suc, ltb, if◌then◌else◌, ◌==◌, nat_eq, pair_eq, ℤ_eq, Str, str_eq_inst, length, Bool,
  false, ◌&&◌, not, Option, none, some, List, [], ◌∷◌,
}
use mobile_db.Server.AdminGate.{
  Buckets, rate_limited, record_attempt, Attempt, ip_of, has_password, ip_allowed,
}

-- The buckets, and the requests that have passed the limit and whose password was not looked at yet.
pub record Gate : Type 0 where
  pub buckets : Buckets
  pub waiting : List Attempt

abbrev pub no_gate : Gate
no_gate = record { buckets = []; waiting = [] }

-- A new request reaches the test of the limit, or the waiting request at a place has its password
-- looked at.
pub data Turn : Type 0 where
  arrives : Attempt → Turn
  looks : ℕ → Turn

unfoldable pub nth : ℕ → List Attempt → Option Attempt
nth i [] = none
nth zero (r ∷ rs) = some r
nth (suc i) (r ∷ rs) = nth i rs

unfoldable pub without : ℕ → List Attempt → List Attempt
without i [] = []
without zero (r ∷ rs) = rs
without (suc i) (r ∷ rs) = r ∷ without i rs

module _ (split_host : Str → Option Str) (trim_space : Str → Str) (matches : Str → Str → Bool)
    (password_hash : Str) (allowed_ips : List Str) where
  abbrev pub host : Attempt → Str
  host r = ip_of split_host trim_space matches password_hash allowed_ips r.remote_addr

  abbrev pub is_wrong : Attempt → Bool
  is_wrong r = not (has_password split_host trim_space matches password_hash allowed_ips r.password)

  -- `RequireAdminAuth` up to the test of the limit
  unfoldable pub pass_limit : Attempt → Gate → Gate
  pass_limit r g =
      let ip = host r in
      let limit = rate_limited r.at_limit ip g.buckets in
      if ltb 0 (length allowed_ips) && not (ip_allowed trim_space ip allowed_ips)
      then g
      else if limit.0
      then record g { buckets = limit.1 }
      else record { buckets = limit.1; waiting = r ∷ g.waiting }

  -- `RequireAdminAuth` from the look at the password on
  unfoldable pub look : Attempt → Buckets → Buckets
  look r buckets =
      if is_wrong r then record_attempt r.at_test r.at_reset (host r) buckets else buckets

  unfoldable pub turn : Turn → Gate → Gate
  unfolding pass_limit look
  turn (arrives r) g = pass_limit r g
  turn (looks i) g = elim (nth i g.waiting) [
    | none ↦ g
    | some r ↦ record { buckets = look r g.buckets; waiting = without i g.waiting }
  ]

  -- The turn looks at a password from `x` and refuses it.
  unfoldable pub refuses : Str → Turn → Gate → Bool
  refuses x (arrives r) g = false
  refuses x (looks i) g = elim (nth i g.waiting) [
    | none ↦ false
    | some r ↦ host r == x && is_wrong r
  ]

  -- How many passwords from `x` are refused over a sequence of turns.
  unfoldable pub refused_over : Str → List Turn → Gate → ℕ
  refused_over x [] g = 0
  refused_over x (t ∷ ts) g =
      let later = refused_over x ts (turn t g) in if refuses x t g then suc later else later

  unfoldable pub waiting_from : Str → List Attempt → ℕ
  waiting_from x [] = 0
  waiting_from x (r ∷ rs) = let rest = waiting_from x rs in if host r == x then suc rest else rest

  -- The largest number of requests from `x` that wait at once.
  unfoldable pub peak : Str → List Turn → Gate → ℕ
  unfolding turn waiting_from
  peak x [] g = waiting_from x g.waiting
  peak x (t ∷ ts) g =
      let now = waiting_from x g.waiting in
      let later = peak x ts (turn t g) in if ltb now later then later else now
