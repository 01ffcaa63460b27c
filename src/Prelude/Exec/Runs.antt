-- ===== src/Prelude/Exec/Runs.antt =====
-- Calls that meet no driver error: `Runs m c a t` says that `m` returns `a` and leaves the tables
-- at `t`, with one rule for each way to build an action.
use Prim.Native.Nat.{ℕ, suc}
use mathlib.Core.Path.{◌≡◌, refl}
use mathlib.Core.Bool.{false}
use mathlib.Core.Option.{Option, some}
use mathlib.Core.Logic.{inl, inr}
use mobile_db.Prelude.Tests.{Bool-cases}
use mobile_db.Prelude.Exec.{ok, Conn, Act, pure, stmt, transaction, ◌>>=◌}

-- No call of the connection fails.
abbrev pub Quiet : {T : Type 0} → Conn T → Type 0
Quiet c = (n : ℕ) → c.fails n ≡ false

-- The connection with these tables, after `k` calls.
abbrev pub moved : {T : Type 0} → Conn T → T → ℕ → Conn T
moved c t k = record c { tables = t; calls = k }

ok-inj : {A : Type 0} {a b : A} → ok a ≡ ok b → a ≡ b
ok-inj h = cc

module _ {T A : Type 0} where
  pub record Runs (m : Act T A) (c : Conn T) (a : A) (t : T) : Type 0 where
    pub calls : ℕ
    pub result : m c ≡ (ok a, moved c t calls)

  pub Runs-pure : (c : Conn T) (a : A) → Runs (pure a) c a c.tables
  Runs-pure c a = record { calls = c.calls; result = refl }

  pub Runs-stmt :
      (c : Conn T) (f : T → Option (A × T)) (a : A) (t : T)
      → Quiet c
      → f c.tables ≡ some (a, t)
      → Runs (stmt f) c a t
  unfolding stmt
  Runs-stmt c f a t q e = record { calls = suc c.calls; result = rw (q c.calls, e) }

  -- A query that returns has read the tables, and leaves them.
  pub stmt_read :
      (f : T → A) (c : Conn T) (a : A)
      → (stmt (λ t. some (f t, t)) c).0 ≡ ok a
      → (f c.tables ≡ a) × ((stmt (λ t. some (f t, t)) c).1.tables ≡ c.tables)
  unfolding stmt
  stmt_read f c a h = elim (Bool-cases (c.fails c.calls)) [
    | inl e ↦ absurd (let h' = (rw (e, stmt) at h) in cc)
    | inr e ↦ (ok-inj (rw (e, stmt) at h), rw (e, stmt) refl)
  ]

  pub Runs-transaction :
      (c : Conn T) (m : Act T A) (a : A) (t : T)
      → Quiet c
      → ((k : ℕ) → Runs m (moved c c.tables k) a t)
      → Runs (transaction m) c a t
  unfolding transaction
  Runs-transaction c m a t q r =
      let s = r (suc c.calls) in
      record { calls = suc s.calls; result = rw (q c.calls, s.result, q s.calls) }

module _ {T A B : Type 0} where
  pub Runs-bind :
      (c : Conn T) (m : Act T A) (f : A → Act T B) (a : A) (t : T) (b : B) (u : T)
      → Runs m c a t
      → ((k : ℕ) → Runs (f a) (moved c t k) b u)
      → Runs (m >>= f) c b u
  Runs-bind c m f a t b u r s =
      let s' = s r.calls in record { calls = s'.calls; result = rw (r.result, s'.result) }
