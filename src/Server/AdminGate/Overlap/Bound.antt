-- ===== src/Server/AdminGate/Overlap/Bound.antt =====
-- server/middleware/admin.go: how many passwords an address can try with requests that overlap.
use mobile_db.Prelude.{
  ℕ, zero, suc, ◌+◌, ◌≤◌, ltb, leb, if◌then◌else◌, Bool-cases, Option-cases, ◌==◌, nat_eq, pair_eq,
  ℤ_eq, Str, str_eq_iff, str_eq_inst, All, ◌≡◌, refl, ◌⊎◌, inl, inr, Bool, true, false, Option,
  none, some, List, [], ◌∷◌, arith,
}
use mobile_db.Prelude.Dict.{get, get-put}
use mobile_db.Server.AdminGate.{
  RateBucket, Buckets, max_admin_attempts, rate_limit_window, rate_limited, next_bucket,
  record_attempt, Attempt,
}
use mobile_db.Server.AdminGate.Attempts.{used, Between, get_attempt}
use mobile_db.Server.AdminGate.Overlap.{
  Gate, no_gate, Turn, arrives, looks, nth, without, host, is_wrong, pass_limit, look, turn,
  refuses, refused_over, waiting_from, peak,
}

-- The bucket lasts at least until `end`.
abbrev Lasting : ℕ → Option RateBucket → Type 0
Lasting end none = Unit
Lasting end (some b) = end ≤ b.reset_at

-- A request that arrives reads the clock between `start` and `end` only.
abbrev pub Timely : ℕ → ℕ → Turn → Type 0
Timely start end (arrives r) = Between start end r
Timely start end (looks i) = Unit

limited-Lasting :
    (now end : ℕ) (ip : Str) (buckets : Buckets)
    → now ≤ end
    → Lasting end (get buckets ip)
    → rate_limited now ip buckets ≡ (leb max_admin_attempts (used (get buckets ip)), buckets)
unfolding rate_limited
limited-Lasting now end ip buckets h k = elim (Option-cases (get buckets ip)) [
  | inl e ↦ rw (e, rate_limited) refl
  | inr (b, e) ↦
      let k' = rw e at k in
      let t : ltb b.reset_at now ≡ false = ground arith in rw (e, rate_limited, t) refl
]

next-Lasting :
    (now later start : ℕ) (o : Option RateBucket)
    → now ≤ start + rate_limit_window
    → start ≤ later
    → Lasting (start + rate_limit_window) o
    → (start + rate_limit_window ≤ (next_bucket now later o).reset_at)
      × ((next_bucket now later o).count ≡ suc (used o))
unfolding next_bucket
next-Lasting now later start none h h' k = (omega arith, omega arith)
next-Lasting now later start (some b) h h' k =
    let t : ltb b.reset_at now ≡ false = ground arith in rw t (k, refl)

Lasting-choice :
    (b : Bool) (end : ℕ) (p q : Option RateBucket)
    → Lasting end p
    → Lasting end q
    → Lasting end (if b then p else q)
Lasting-choice true end p q h k = h
Lasting-choice false end p q h k = k

nth-All :
    (P : Attempt → Type 0) (i : ℕ) (rs : List Attempt) (r : Attempt)
    → All P rs
    → nth i rs ≡ some r
    → P r
unfolding nth
nth-All P i [] r h e = absurd cc
nth-All P zero (q ∷ rs) r h e = let e' : q ≡ r = cc in rw (← e') h.0
nth-All P (suc i) (q ∷ rs) r h e = nth-All P i rs r h.1 e

without-All : (P : Attempt → Type 0) (i : ℕ) (rs : List Attempt) → All P rs → All P (without i rs)
unfolding without
without-All P i [] h = tt
without-All P zero (q ∷ rs) h = h.1
without-All P (suc i) (q ∷ rs) h = (h.0, without-All P i rs h.1)

module _ (split_host : Str → Option Str) (trim_space : Str → Str) (matches : Str → Str → Bool)
    (password_hash : Str) (allowed_ips : List Str) where
  abbrev host_of : Attempt → Str
  host_of = host split_host trim_space matches password_hash allowed_ips

  abbrev wrong : Attempt → Bool
  wrong = is_wrong split_host trim_space matches password_hash allowed_ips

  abbrev held_by : Str → List Attempt → ℕ
  held_by = waiting_from split_host trim_space matches password_hash allowed_ips

  abbrev go : Turn → Gate → Gate
  go = turn split_host trim_space matches password_hash allowed_ips

  held_by-without :
      (x : Str) (i : ℕ) (rs : List Attempt) (r : Attempt)
      → nth i rs ≡ some r
      → held_by x rs
        ≡ (if host_of r == x then suc (held_by x (without i rs)) else held_by x (without i rs))
  unfolding waiting_from nth without
  held_by-without x i [] r e = absurd cc
  held_by-without x zero (q ∷ rs) r e = let e' : q ≡ r = cc in rw e' refl
  held_by-without x (suc i) (q ∷ rs) r e = ground (arith, held_by-without x i rs r e)

  pass_limit-cases :
      (end : ℕ) (r : Attempt) (g : Gate)
      → r.at_limit ≤ end
      → Lasting end (get g.buckets (host_of r))
      → let passed = pass_limit split_host trim_space matches password_hash allowed_ips r g in
        (passed ≡ g)
        ⊎ ((leb max_admin_attempts (used (get g.buckets (host_of r))) ≡ false)
            × (passed ≡ record { buckets = g.buckets; waiting = r ∷ g.waiting }))
  unfolding pass_limit
  pass_limit-cases end r g h k =
      let limit = limited-Lasting r.at_limit end (host_of r) g.buckets h k in ground (arith, limit)

  -- What holds between turns while at most `k` requests from `x` wait at once.
  record Fits (x : Str) (start k : ℕ) (g : Gate) : Type 0 where
    lasting : (ip : Str) → Lasting (start + rate_limit_window) (get g.buckets ip)
    timely : All (Between start (start + rate_limit_window)) g.waiting
    room : suc (used (get g.buckets x) + held_by x g.waiting) ≤ max_admin_attempts + k

  -- A turn keeps it, and an attempt of `x` is counted exactly when it is refused.
  abbrev Moves : Str → ℕ → ℕ → Turn → Gate → Gate → Type 0
  Moves x start k t g g' =
      Fits x start k g'
      × (used (get g'.buckets x) ≡ (
          if refuses split_host trim_space matches password_hash allowed_ips x t g
          then suc (used (get g.buckets x))
          else used (get g.buckets x)))

  arrives-Moves :
      (x : Str) (start k : ℕ) (r : Attempt) (g : Gate)
      → Between start (start + rate_limit_window) r
      → Fits x start k g
      → held_by x (go (arrives r) g).waiting ≤ k
      → Moves x start k (arrives r) g (go (arrives r) g)
  unfolding turn refuses waiting_from
  arrives-Moves x start k r g b fits few =
      elim (pass_limit-cases (start + rate_limit_window) r g b.1 (fits.lasting (host_of r))) [
        | inl e ↦ rw e (fits, refl)
        | inr (free, e) ↦
            let few' = rw e at few in
            let old = fits.room in
            rw e (
              record {
                lasting = fits.lasting;
                timely = (b, fits.timely);
                room = ground (arith, few', old, free, str_eq_iff (host_of r) x);
              },
              refl,
            )
      ]

  used_recorded :
      (x : Str) (r : Attempt) (g : Gate)
      → (next_bucket r.at_test r.at_reset (get g.buckets (host_of r))).count
        ≡ suc (used (get g.buckets (host_of r)))
      → used (get (record_attempt r.at_test r.at_reset (host_of r) g.buckets) x)
        ≡ (if host_of r == x then suc (used (get g.buckets x)) else used (get g.buckets x))
  used_recorded x r g counted = rw get_attempt (ground (arith, counted, str_eq_iff (host_of r) x))

  looks-Moves :
      (x : Str) (start k i : ℕ) (g : Gate)
      → Fits x start k g
      → Moves x start k (looks i) g (go (looks i) g)
  unfolding turn refuses look record_attempt
  looks-Moves x start k i g fits = elim (Option-cases (nth i g.waiting)) [
    | inl e ↦ rw (e, turn, refuses) (fits, refl)
    | inr (r, e) ↦
        let b = nth-All (Between start (start + rate_limit_window)) i g.waiting r fits.timely e in
        let end = start + rate_limit_window in
        let (lasts, counted) =
          next-Lasting r.at_test r.at_reset start (get g.buckets (host_of r)) b.3 b.4
            (fits.lasting (host_of r)) in
        let gone = held_by-without x i g.waiting r e in
        let kept = without-All (Between start end) i g.waiting fits.timely in
        let old = fits.room in
        let more = used_recorded x r g counted in
        elim (Bool-cases (wrong r)) [
          | inr w ↦
              rw (e, w, turn, refuses, look)
                (
                  record {
                    lasting = fits.lasting;
                    timely = kept;
                    room = ground (arith, gone, old);
                  },
                  ground arith,
                )
          | inl w ↦
              rw (e, w, turn, refuses, look)
                (
                  record {
                    lasting = λ j.
                        rw (get-put g.buckets (host_of r) _ j)
                          (Lasting-choice (host_of r == j) end _ _ lasts (fits.lasting j));
                    timely = kept;
                    room = ground (arith, gone, old, more);
                  },
                  ground (arith, more),
                )
        ]
  ]

  turn-Moves :
      (x : Str) (start k : ℕ) (t : Turn) (g : Gate)
      → Timely start (start + rate_limit_window) t
      → Fits x start k g
      → held_by x (go t g).waiting ≤ k
      → Moves x start k t g (go t g)
  turn-Moves x start k (arrives r) g b fits few = arrives-Moves x start k r g b fits few
  turn-Moves x start k (looks i) g b fits few = looks-Moves x start k i g fits

  peak-waiting :
      (x : Str) (ts : List Turn) (g : Gate)
      → held_by x g.waiting ≤ peak split_host trim_space matches password_hash allowed_ips x ts g
  unfolding peak
  peak-waiting x [] g = omega arith
  peak-waiting x (t ∷ ts) g = ground arith

  refused_from :
      (x : Str) (start k : ℕ) (ts : List Turn) (g : Gate)
      → All (Timely start (start + rate_limit_window)) ts
      → Fits x start k g
      → peak split_host trim_space matches password_hash allowed_ips x ts g ≤ k
      → suc (
          refused_over split_host trim_space matches password_hash allowed_ips x ts g
          + used (get g.buckets x))
        ≤ max_admin_attempts + k
  unfolding refused_over peak
  refused_from x start k [] g b fits few = let old = fits.room in omega arith
  refused_from x start k (t ∷ ts) g b fits few =
      let now = peak-waiting x ts (go t g) in
      let (fits', counted) = turn-Moves x start k t g b.0 fits (ground arith) in
      let rest = refused_from x start k ts (go t g) b.1 fits' (ground arith) in
      ground (arith, counted)

  -- From no requests and no buckets, over any order of turns in which requests reach the limit and
  -- have their passwords looked at, and whose readings of the clock lie within one window of fifteen
  -- minutes: the passwords from one address that are looked at and refused are fewer than five more
  -- than the largest number of its requests that wait at once.
  pub refused_over-peak :
      (x : Str) (start : ℕ) (ts : List Turn)
      → All (Timely start (start + rate_limit_window)) ts
      → suc (refused_over split_host trim_space matches password_hash allowed_ips x ts no_gate)
        ≤ max_admin_attempts
          + peak split_host trim_space matches password_hash allowed_ips x ts no_gate
  unfolding get waiting_from
  refused_over-peak x start ts b =
      let most = peak split_host trim_space matches password_hash allowed_ips x ts no_gate in
      let fits : Fits x start most no_gate = record {
        lasting = λ ip. tt;
        timely = tt;
        room = ground arith;
      } in
      let bound = refused_from x start most ts no_gate b fits (omega arith) in ground arith
