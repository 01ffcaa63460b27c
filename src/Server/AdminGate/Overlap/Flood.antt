-- ===== src/Server/AdminGate/Overlap/Flood.antt =====
-- server/middleware/admin.go: requests that all arrive before the first password is looked at.
use mobile_db.Prelude.{
  ℕ, zero, suc, ◌+◌, ltb, ◌==◌, Str, str_eq_inst, length, All, ◌≡◌, refl, Bool, true, false, ◌&&◌,
  not, Option, List, [], ◌∷◌, ◌++◌, map, arith,
}
use mobile_db.Prelude.Dict.{get}
use mobile_db.Server.AdminGate.{Buckets, rate_limited, record_attempt, Attempt, ip_allowed}
use mobile_db.Server.AdminGate.Overlap.{
  Gate, no_gate, Turn, arrives, looks, nth, without, host, is_wrong, pass_limit, look, turn,
  refuses, refused_over,
}

-- The first of the waiting requests has its password looked at, so many times.
abbrev pub look_first : ℕ → List Turn
look_first zero = []
look_first (suc n) = looks 0 ∷ look_first n

module _ (split_host : Str → Option Str) (trim_space : Str → Str) (matches : Str → Str → Bool)
    (password_hash : Str) (allowed_ips : List Str) where
  -- A request from `x`, which may try a password, with a wrong one.
  abbrev pub Guesses : Str → Attempt → Type 0
  Guesses x r =
      ((host split_host trim_space matches password_hash allowed_ips r == x) ≡ true)
      × ((ltb 0 (length allowed_ips)
            && not (
                ip_allowed trim_space
                  (host split_host trim_space matches password_hash allowed_ips r) allowed_ips))
          ≡ false)
      × (is_wrong split_host trim_space matches password_hash allowed_ips r ≡ true)

  abbrev count : Str → List Turn → Gate → ℕ
  count = refused_over split_host trim_space matches password_hash allowed_ips

  look_first-count :
      (x : Str) (rs : List Attempt) (b : Buckets)
      → All (Guesses x) rs
      → count x (look_first (length rs)) (record { buckets = b; waiting = rs }) ≡ length rs
  unfolding refused_over refuses turn nth without look
  look_first-count x [] b h = refl
  look_first-count x (r ∷ rs) b h =
      let ip = host split_host trim_space matches password_hash allowed_ips r in
      let b' = record_attempt r.at_test r.at_reset ip b in
      rw (h.0.0, h.0.2, look_first-count x rs b' h.1) refl

  flood-count :
      (x : Str) (rs waiting : List Attempt) (n : ℕ)
      → All (Guesses x) rs
      → All (Guesses x) waiting
      → n ≡ length rs + length waiting
      → count x (map arrives rs ++ look_first n) (record { buckets = []; waiting = waiting }) ≡ n
  unfolding refused_over refuses turn pass_limit rate_limited get
  flood-count x [] waiting n h w e =
      let e' : n ≡ length waiting = omega arith in rw e' (look_first-count x waiting [] w)
  flood-count x (r ∷ rs) waiting n h w e =
      let rest = flood-count x rs (r ∷ waiting) n h.1 (h.0, w) (omega arith) in rw h.0.1 rest

  -- Let any number of requests from one address, each with a wrong password, reach the limit before
  -- the first of the passwords is looked at, from no buckets. Every one of the passwords is looked at
  -- and refused.
  pub refused_over-flood :
      (x : Str) (rs : List Attempt)
      → All (Guesses x) rs
      → count x (map arrives rs ++ look_first (length rs)) no_gate ≡ length rs
  refused_over-flood x rs h = flood-count x rs [] (length rs) h tt (omega arith)
