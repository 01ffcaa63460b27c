-- ===== src/Crdt/Hlc/Advance.antt =====
-- What one `Tick` or `Receive` does to the clock of core/crdt/hlc.go.
use mobile_db.Prelude.{
  ℕ, ◌+◌, ◌^◌, ◌≤◌, ◌<◌, nat_eq, pair_eq, ℤ, pos, ◌≤ℤ◌, ◌<ℤ◌, ℤ_eq, max_int64, inc_int64,
  inc_int64_parts, str_eq_inst, ◌≡◌, ◌⊎◌, inl, inr, true, arith,
}
use mobile_db.Core.{Hlc}
use mobile_db.Crdt.Hlc.{
  Clock, max_uint32, inc_uint32, tick, receive, before, max3, max2u, advance_logical_wall,
}
use mobile_db.Crdt.Hlc.Order.{before_of_wall, before_of_logical}

-- A tick is strictly after the clock's last timestamp, unless both counters stand at their maximum.
pub tick-before :
    (c : Clock) (now : ℤ)
    → c.last.logical ≤ max_uint32
    → (c.last.wall_time <ℤ max_int64) ⊎ (c.last.logical < max_uint32)
    → before c.last (tick c now).1 ≡ true
unfolding tick inc_uint32
tick-before c now small room = ground (
  arith,
  before_of_wall c.last (tick c now).1,
  before_of_logical c.last (tick c now).1,
  inc_int64_parts c.last.wall_time,
)

-- A tick moves the wall time past neither the reading nor its own last value by more than one,
-- and the logical counter stays a uint32.
pub tick_bounds :
    (c : Clock) (now : ℤ) (b : ℕ)
    → c.last.logical ≤ max_uint32
    → now ≤ℤ pos b
    → c.last.wall_time ≤ℤ pos b
    → b + 1 < 2 ^ 63
    → ((tick c now).1.wall_time ≤ℤ pos (b + 1)) × ((tick c now).1.logical ≤ max_uint32)
unfolding tick inc_uint32
tick_bounds c now b small h h' room = ground (arith, inc_int64_parts c.last.wall_time)

max3_bounds :
    (a b c : ℤ)
    → (a ≤ℤ max3 a b c)
      × (b ≤ℤ max3 a b c)
      × (c ≤ℤ max3 a b c)
      × ((max3 a b c ≡ a) ⊎ (max3 a b c ≡ b) ⊎ (max3 a b c ≡ c))
unfolding max3
max3_bounds a b c = ground arith

max2u_bounds : (a b : ℕ) → (a ≤ max2u a b) × (b ≤ max2u a b) × ((max2u a b ≡ a) ⊎ (max2u a b ≡ b))
unfolding max2u
max2u_bounds a b = ground arith

-- The pair of counters after the call is later than the pair before it.
abbrev LaterPair : ℤ → ℕ → ℤ → ℕ → Type 0
LaterPair w l w' l' = (w <ℤ w') ⊎ ((w ≡ w') × (l < l'))

advance_later :
    (w : ℤ) (l : ℕ)
    → l ≤ max_uint32
    → w <ℤ max_int64
    → LaterPair w l (advance_logical_wall w l).0 (advance_logical_wall w l).1
      × ((advance_logical_wall w l).1 ≤ max_uint32)
      × ((advance_logical_wall w l).0 ≤ℤ inc_int64 w)
unfolding advance_logical_wall inc_uint32
advance_later w l small h = ground (arith, inc_int64_parts w)

abbrev Later : Hlc → Hlc → Type 0
Later a b = LaterPair a.wall_time a.logical b.wall_time b.logical

before_of_Later : (a b : Hlc) → Later a b → before a b ≡ true
before_of_Later a b (inl h) = before_of_wall a b h
before_of_Later a b (inr (e, h)) = before_of_logical a b e h

receive-Later :
    (c : Clock) (now : ℤ) (remote : Hlc)
    → c.last.logical ≤ max_uint32
    → remote.logical ≤ max_uint32
    → now <ℤ max_int64
    → c.last.wall_time <ℤ max_int64
    → remote.wall_time <ℤ max_int64
    → Later c.last (receive c now remote).1 × Later remote (receive c now remote).1
unfolding receive
receive-Later c now remote small small' h h' h'' =
    let m = max3 now c.last.wall_time remote.wall_time in
    ground (
      arith,
      max3_bounds now c.last.wall_time remote.wall_time,
      max2u_bounds c.last.logical remote.logical,
      advance_later m (max2u c.last.logical remote.logical),
      advance_later m c.last.logical,
      advance_later m remote.logical,
    )

-- The timestamp that a receive returns is strictly after the clock's last timestamp and after the
-- remote one, as long as neither wall time is the largest int64.
pub receive-before :
    (c : Clock) (now : ℤ) (remote : Hlc)
    → c.last.logical ≤ max_uint32
    → remote.logical ≤ max_uint32
    → now <ℤ max_int64
    → c.last.wall_time <ℤ max_int64
    → remote.wall_time <ℤ max_int64
    → (before c.last (receive c now remote).1 ≡ true)
      × (before remote (receive c now remote).1 ≡ true)
receive-before c now remote small small' h h' h'' =
    let r = receive-Later c now remote small small' h h' h'' in
    (
      before_of_Later c.last (receive c now remote).1 r.0,
      before_of_Later remote (receive c now remote).1 r.1,
    )

pub receive_bounds :
    (c : Clock) (now : ℤ) (remote : Hlc) (b : ℕ)
    → c.last.logical ≤ max_uint32
    → remote.logical ≤ max_uint32
    → now ≤ℤ pos b
    → c.last.wall_time ≤ℤ pos b
    → remote.wall_time ≤ℤ pos b
    → b + 1 < 2 ^ 63
    → ((receive c now remote).1.wall_time ≤ℤ pos (b + 1))
      × ((receive c now remote).1.logical ≤ max_uint32)
unfolding receive
receive_bounds c now remote b small small' h h' h'' room =
    let m = max3 now c.last.wall_time remote.wall_time in
    ground (
      arith,
      max3_bounds now c.last.wall_time remote.wall_time,
      max2u_bounds c.last.logical remote.logical,
      advance_later m (max2u c.last.logical remote.logical),
      advance_later m c.last.logical,
      advance_later m remote.logical,
      inc_int64_parts m,
    )

-- The timestamp returned is the one that the clock keeps.
pub receive_last :
    (c : Clock) (now : ℤ) (remote : Hlc) → (receive c now remote).0.last ≡ (receive c now remote).1
unfolding receive
receive_last c now remote = ground arith
