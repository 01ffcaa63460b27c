-- ===== src/Crdt/Hlc/Runs.antt =====
-- Runs of one clock of core/crdt/hlc.go: any sequence of `Tick` and `Receive` calls.
use mobile_db.Prelude.{
  ℕ, ◌+◌, ◌^◌, ◌≤◌, ◌<◌, nat_eq, pair_eq, ℤ, pos, ◌≤ℤ◌, ℤ_eq, max_int64, min_int64, inc_int64,
  str_eq_inst, length, All, ◌≡◌, inl, true, List, [], ◌∷◌, arith,
}
use mobile_db.Core.{Hlc}
use mobile_db.Crdt.Hlc.{Clock, max_uint32, tick, receive, before}
use mobile_db.Crdt.Hlc.Order.{before_trans}
use mobile_db.Crdt.Hlc.Advance.{tick-before, receive-before, tick_bounds, receive_bounds}

-- A call, with the wall clock's reading at that moment.
pub data Call : Type 0 where
  tick_at : ℤ → Call
  receive_at : ℤ → Hlc → Call

pub step : Clock → Call → Clock × Hlc
step c (tick_at now) = tick c now
step c (receive_at now remote) = receive c now remote

-- The timestamps that the calls return, in order.
unfoldable pub run : Clock → List Call → List Hlc
unfolding step
run c [] = []
run c (call ∷ calls) = let (c', h) = step c call in h ∷ run c' calls

-- The readings and the remote timestamps of a call lie at most at wall time `m`.
abbrev pub Within : ℕ → Call → Type 0
Within m (tick_at now) = now ≤ℤ pos m
Within m (receive_at now remote) =
    (now ≤ℤ pos m) × (remote.wall_time ≤ℤ pos m) × (remote.logical ≤ max_uint32)

pub record IsSound (b : ℕ) (c : Clock) : Type 0 where
  pub small : c.last.logical ≤ max_uint32
  pub reached : c.last.wall_time ≤ℤ pos b

-- Each element is before all that follow it.
abbrev pub Increasing : List Hlc → Type 0
Increasing [] = Unit
Increasing (h ∷ hs) = All (λ k. before h k ≡ true) hs × Increasing hs

step_last : (c : Clock) (call : Call) → (step c call).0.last ≡ (step c call).1
unfolding step tick receive
step_last c (tick_at now) = ground arith
step_last c (receive_at now remote) = ground arith

step-IsSound :
    (c : Clock) (call : Call) (m b : ℕ)
    → m ≤ b
    → b + 1 < 2 ^ 63
    → IsSound b c
    → Within m call
    → (before c.last (step c call).1 ≡ true) × IsSound (b + 1) (step c call).0
unfolding step
step-IsSound c (tick_at now) m b h h' s w =
    let e = step_last c (tick_at now) in
    let r = tick_bounds c now b s.small (omega arith) s.reached h' in
    (tick-before c now s.small (inl (omega arith)), record { small = rw e r.1; reached = rw e r.0 })
step-IsSound c (receive_at now remote) m b h h' s w =
    let e = step_last c (receive_at now remote) in
    let small = w.2 in
    let r = receive_bounds c now remote b s.small small (omega arith) s.reached (omega arith) h' in
    let after =
      receive-before c now remote s.small small (omega arith) (omega arith) (omega arith) in
    (after.0, record { small = rw e r.1; reached = rw e r.0 })

All-before :
    (h k : Hlc) (hs : List Hlc)
    → before h k ≡ true
    → All (λ x. before k x ≡ true) hs
    → All (λ x. before h x ≡ true) hs
All-before h k [] e a = tt
All-before h k (x ∷ hs) e a = (before_trans h k x e a.0, All-before h k hs e a.1)

-- Over any run whose readings and remote timestamps lie at most at `m`, on a clock that has
-- reached at most `b`, with room for one step of the wall time a call, the timestamps returned
-- are all after the clock's last one, and each is before all that are returned later.
pub run-Increasing :
    (c : Clock) (calls : List Call) (m b : ℕ)
    → m ≤ b
    → b + length calls < 2 ^ 63
    → IsSound b c
    → All (Within m) calls
    → Increasing (c.last ∷ run c calls)
unfolding run
run-Increasing c [] m b h h' s w = (tt, tt)
run-Increasing c (call ∷ calls) m b h h' s w =
    let (first, s') = step-IsSound c call m b h (omega arith) s w.0 in
    let rest = run-Increasing (step c call).0 calls m (b + 1) (omega arith) (omega arith) s' w.1 in
    let rest' : Increasing ((step c call).1 ∷ run (step c call).0 calls) = rw step_last at rest in
    ((first, All-before c.last (step c call).1 (run (step c call).0 calls) first rest'.0), rest')

-- At the largest wall time and logical counter a tick whose reading is no later wraps the wall
-- time to the smallest int64, and returns a timestamp before the last one.
tick_wraps :
    (c : Clock) (now : ℤ)
    → c.last.wall_time ≡ max_int64
    → c.last.logical ≡ max_uint32
    → now ≤ℤ max_int64
    → ((tick c now).1.wall_time ≡ min_int64) × (before (tick c now).1 c.last ≡ true)
unfolding tick inc_int64 before
tick_wraps c now w l h = rw (w, l) (ground arith)
