-- ===== src/Crdt/Hlc/Order.antt =====
-- `Before` is a strict total order on timestamps.
use mobile_db.Prelude.{
  ◌<◌, Bool-cases, nat_eq, pair_eq, ◌<ℤ◌, ℤ_eq, str_eq_inst, str_lt_irrefl, str_lt_trans,
  eq_of_not-str_lt, ◌≡◌, ◌⊎◌, inl, inr, true, false, arith,
}
use mobile_db.Core.{Hlc}
use mobile_db.Crdt.Hlc.{before}

pub before_of_wall : (a b : Hlc) → a.wall_time <ℤ b.wall_time → before a b ≡ true
unfolding before
before_of_wall a b h = ground arith

pub before_of_logical :
    (a b : Hlc) → a.wall_time ≡ b.wall_time → a.logical < b.logical → before a b ≡ true
unfolding before
before_of_logical a b e h = ground arith

pub before_irrefl : (a : Hlc) → before a a ≡ false
unfolding before
before_irrefl a = ground (arith, str_lt_irrefl a.device_id)

-- What lies before a timestamp lies before every later one.
pub before_trans : (a b c : Hlc) → before a b ≡ true → before b c ≡ true → before a c ≡ true
unfolding before
before_trans a b c h k = ground (arith, str_lt_trans a.device_id b.device_id c.device_id)

pub eq_of_not-before : (a b : Hlc) → before a b ≡ false → before b a ≡ false → a ≡ b
unfolding before
eq_of_not-before a b h k = ground (arith, eq_of_not-str_lt a.device_id b.device_id)

pub before_asymm : (a b : Hlc) → before a b ≡ true → before b a ≡ false
before_asymm a b h = elim (Bool-cases (before b a)) [
  | inl k ↦ ground (arith, before_trans a b a h k, before_irrefl a)
  | inr k ↦ k
]

-- Of two timestamps exactly one of three holds: the first is before the second, they are equal,
-- or the second is before the first.
pub before_trichotomy :
    (a b : Hlc)
    → ((before a b ≡ true) × (before b a ≡ false))
      ⊎ ((a ≡ b) × (before a b ≡ false) × (before b a ≡ false))
      ⊎ ((before b a ≡ true) × (before a b ≡ false))
before_trichotomy a b =
    ground (arith, before_asymm a b, before_asymm b a, eq_of_not-before a b, before_irrefl a)
