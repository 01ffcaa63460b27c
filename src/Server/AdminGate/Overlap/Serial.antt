-- ===== src/Server/AdminGate/Overlap/Serial.antt =====
-- server/middleware/admin.go: the gate is its two turns, one right after the other.
use mobile_db.Prelude.{
  ℕ, ◌+◌, ◌≤◌, All, Str, str_eq_inst, ◌≡◌, refl, Bool, Option, List, [], ◌∷◌, arith,
}
use mobile_db.Server.AdminGate.{
  max_admin_attempts, rate_limit_window, Buckets, Attempt, Verdict, require_admin_auth,
}
use mobile_db.Server.AdminGate.Attempts.{Between, refused, refusals}
use mobile_db.Server.AdminGate.Overlap.{
  Gate, Turn, arrives, looks, nth, without, pass_limit, look, turn, refuses, refused_over,
  waiting_from, peak,
}
use mobile_db.Server.AdminGate.Overlap.Bound.{Timely, refused_over-peak}

-- Each request has its password looked at before the next one arrives.
abbrev pub serial : List Attempt → List Turn
serial [] = []
serial (r ∷ rs) = arrives r ∷ looks 0 ∷ serial rs

module _ (split_host : Str → Option Str) (trim_space : Str → Str) (matches : Str → Str → Bool)
    (password_hash : Str) (allowed_ips : List Str) where
  abbrev go : Turn → Gate → Gate
  go = turn split_host trim_space matches password_hash allowed_ips

  abbrev gate : Attempt → Buckets → Verdict × Buckets
  gate = require_admin_auth split_host trim_space matches password_hash allowed_ips

  -- A request between two others is the whole of `RequireAdminAuth`.
  pub turns-gate :
      (r : Attempt) (b : Buckets)
      → go (looks 0) (go (arrives r) (record { buckets = b; waiting = [] }))
        ≡ record { buckets = (gate r b).1; waiting = [] }
  unfolding turn pass_limit look nth without require_admin_auth
  turns-gate r b = ground arith

  refuses-gate :
      (x : Str) (r : Attempt) (b : Buckets)
      → refuses split_host trim_space matches password_hash allowed_ips x
          (looks 0)
          (go (arrives r) (record { buckets = b; waiting = [] }))
        ≡ refused split_host trim_space matches password_hash allowed_ips x r b
  unfolding turn pass_limit refuses nth require_admin_auth
  refuses-gate x r b = ground arith

  pub refused_over-serial :
      (x : Str) (rs : List Attempt) (b : Buckets)
      → refused_over split_host trim_space matches password_hash allowed_ips x
          (serial rs)
          (record { buckets = b; waiting = [] })
        ≡ refusals split_host trim_space matches password_hash allowed_ips x rs b
  unfolding refused_over refusals refuses
  refused_over-serial x [] b = refl
  refused_over-serial x (r ∷ rs) b =
      rw (turns-gate r b, refuses-gate x r b, refused_over-serial x rs (gate r b).1) refl

  arrives-one :
      (x : Str) (r : Attempt) (b : Buckets)
      → waiting_from split_host trim_space matches password_hash allowed_ips x
          (go (arrives r) (record { buckets = b; waiting = [] })).waiting
        ≤ 1
  unfolding turn pass_limit waiting_from
  arrives-one x r b = ground arith

  serial-peak :
      (x : Str) (rs : List Attempt) (b : Buckets)
      → peak split_host trim_space matches password_hash allowed_ips x
          (serial rs)
          (record { buckets = b; waiting = [] })
        ≤ 1
  unfolding peak waiting_from
  serial-peak x [] b = omega arith
  serial-peak x (r ∷ rs) b =
      let one = arrives-one x r b in
      let rest = serial-peak x rs (gate r b).1 in rw (turns-gate r b) (ground (arith, one, rest))

  serial-Timely :
      (start end : ℕ) (rs : List Attempt)
      → All (Between start end) rs
      → All (Timely start end) (serial rs)
  serial-Timely start end [] h = tt
  serial-Timely start end (r ∷ rs) h = (h.0, (tt, serial-Timely start end rs h.1))

  -- From no buckets, over any sequence of requests that do not overlap and whose readings of the
  -- clock lie within one window of fifteen minutes, at most five passwords from one address are
  -- looked at and refused.
  pub refusals_bounded :
      (x : Str) (start : ℕ) (rs : List Attempt)
      → All (Between start (start + rate_limit_window)) rs
      → refusals split_host trim_space matches password_hash allowed_ips x rs []
        ≤ max_admin_attempts
  refusals_bounded x start rs h =
      let bound =
        refused_over-peak split_host trim_space matches password_hash allowed_ips x start
          (serial rs) (serial-Timely start (start + rate_limit_window) rs h) in
      let same = refused_over-serial x rs [] in let few = serial-peak x rs [] in omega arith
