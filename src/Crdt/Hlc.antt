-- ===== src/Crdt/Hlc.antt =====
-- core/crdt/hlc.go: the hybrid logical clock. A read of the wall clock (`time.Now().UnixNano()`) is
-- the argument `now`; the mutex makes each call one step, so a clock is passed from call to call.
pub mod Order
pub mod Advance
pub mod Runs
use mobile_db.Prelude.{
  ℕ, ◌+◌, ◌-◌, ◌%◌, ◌^◌, ltb, if◌then◌else◌, ◌==◌, nat_eq, pair_eq, ℤ, ltb_ℤ, leb_ℤ, ℤ_eq,
  inc_int64, Str, str_lt, str_eq_inst, Bool, ◌&&◌, not,
}
use mobile_db.Core.{Hlc, zero_hlc}

abbrev pub max_uint32 : ℕ
max_uint32 = 2 ^ 32 - 1

-- `x++` on a uint32
unfoldable pub inc_uint32 : ℕ → ℕ
inc_uint32 n = (n + 1) % 2 ^ 32

pub record Clock : Type 0 where
  pub last : Hlc
  pub device_id : Str

unfoldable pub new_clock : Str → Clock
new_clock device_id = record { last = zero_hlc; device_id = device_id }

-- The wall time to use, and the logical counter after the call.
unfoldable pub advance_logical_wall : ℤ → ℕ → ℤ × ℕ
advance_logical_wall wall_time logical =
    if logical == max_uint32 then (inc_int64 wall_time, 0) else (wall_time, inc_uint32 logical)

-- The clock with `last` set to these two numbers and the clock's own device, and that timestamp.
unfoldable pub stamp : Clock → ℤ × ℕ → Clock × Hlc
stamp c p =
    let h : Hlc = record { wall_time = p.0; logical = p.1; device_id = c.device_id } in
    (record c { last = h }, h)

unfoldable pub tick : Clock → ℤ → Clock × Hlc
unfolding stamp
tick c now =
    if leb_ℤ now c.last.wall_time
    then (if c.last.logical == max_uint32
        then stamp c (inc_int64 c.last.wall_time, 0)
        else stamp c (c.last.wall_time, inc_uint32 c.last.logical))
    else stamp c (now, 0)

unfoldable pub max3 : ℤ → ℤ → ℤ → ℤ
max3 a b c = if leb_ℤ b a && leb_ℤ c a then a else if leb_ℤ c b then b else c

unfoldable pub max2u : ℕ → ℕ → ℕ
max2u a b = if ltb b a then a else b

unfoldable pub receive : Clock → ℤ → Hlc → Clock × Hlc
unfolding stamp
receive c now remote =
    let max_wall = max3 now c.last.wall_time remote.wall_time in
    if max_wall == c.last.wall_time && max_wall == remote.wall_time
    then stamp c (advance_logical_wall max_wall (max2u c.last.logical remote.logical))
    else if max_wall == c.last.wall_time
    then stamp c (advance_logical_wall max_wall c.last.logical)
    else if max_wall == remote.wall_time
    then stamp c (advance_logical_wall max_wall remote.logical)
    else stamp c (max_wall, 0)

unfoldable pub before : Hlc → Hlc → Bool
before a b =
    if not (a.wall_time == b.wall_time)
    then ltb_ℤ a.wall_time b.wall_time
    else if not (a.logical == b.logical)
    then ltb a.logical b.logical
    else str_lt a.device_id b.device_id
