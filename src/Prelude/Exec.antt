-- ===== src/Prelude/Exec.antt =====
-- Fallible calls on a database connection. Each statement is one call; the environment decides by
-- `fails` which calls end in a driver error, and a statement that fails leaves the tables alone.
pub mod Runs
use mobile_db.Prelude.Tests.{if◌then◌else◌}
use Prim.Native.Nat.{ℕ, suc}
use mathlib.Core.Path.{◌≡◌, refl}
use mathlib.Core.Bool.{Bool}
use native.Mathlib.Omega.{arith}
use mathlib.Core.Option.{Option, none, some}

-- The errors that the program tells apart; their texts are not modelled.
pub data Failure : Type 0 where
  sql_failed marshal_failed unmarshal_failed : Failure
  device_not_found device_revoked invalid_secret : Failure
  hash_failed random_failed keys_unavailable token_refused : Failure

pub data Result (A : Type 0) : Type 0 where
  ok : A → Result A
  err : Failure → Result A

-- Tables of type `T`, the number of calls made, and which calls fail.
pub record Conn (T : Type 0) : Type 0 where
  pub tables : T
  pub calls : ℕ
  pub fails : ℕ → Bool

abbrev pub Act : Type 0 → Type 0 → Type 0
Act T A = Conn T → Result A × Conn T

module _ {T A : Type 0} where
  abbrev pub pure : A → Act T A
  pure a c = (ok a, c)

  abbrev pub raise : Failure → Act T A
  raise e c = (err e, c)

  -- `none` is an error of the statement itself, such as a missing table.
  abbrev pub settle : Option (A × T) → Conn T → Result A × Conn T
  settle none c = (err sql_failed, c)
  settle (some (a, t)) c = (ok a, record c { tables = t })

  unfoldable pub stmt : (T → Option (A × T)) → Act T A
  stmt f c =
      let c' : Conn T = record c { calls = suc c.calls } in
      if c.fails c.calls then (err sql_failed, c') else settle (f c.tables) c'

module _ {T A B : Type 0} where
  abbrev pub continue : Result A → (A → Act T B) → Act T B
  continue (ok a) f c = f a c
  continue (err e) f c = (err e, c)

  infixl 5 ◌>>=◌ ◌>>◌
  abbrev pub ◌>>=◌ : Act T A → (A → Act T B) → Act T B
  ◌>>=◌ m f c = continue (m c).0 f (m c).1

  abbrev pub ◌>>◌ : Act T A → Act T B → Act T B
  m >> n = m >>= λ _. n

module _ {T A : Type 0} where
  -- The end of a transaction over a body that began at `t`: an error rolls back, also one of the
  -- commit.
  abbrev pub finish : T → Result A → Act T A
  finish t (err e) c = (err e, record c { tables = t })
  finish t (ok a) c =
      let c' : Conn T = record c { calls = suc c.calls } in
      if c.fails c.calls then (err sql_failed, record c' { tables = t }) else (ok a, c')

  -- `BeginTx`, the body, `Commit`; `defer tx.Rollback()`. That a rollback restores the tables is
  -- documented of SQLite.
  unfoldable pub transaction : Act T A → Act T A
  transaction body c =
      let c' : Conn T = record c { calls = suc c.calls } in
      if c.fails c.calls then (err sql_failed, c') else finish c.tables (body c').0 (body c').1

  tables-finish :
      (t : T) (r : Result A) (c : Conn T) (e : Failure)
      → (finish t r c).0 ≡ err e
      → (finish t r c).1.tables ≡ t
  tables-finish t (err e') c e h = refl
  tables-finish t (ok a) c e h = ground arith

  -- A transaction that returns an error has changed no table.
  pub tables-transaction :
      (body : Act T A) (c : Conn T) (e : Failure)
      → (transaction body c).0 ≡ err e
      → (transaction body c).1.tables ≡ c.tables
  unfolding transaction
  tables-transaction body c e h =
      let c' : Conn T = record c { calls = suc c.calls } in
      ground (arith, tables-finish c.tables (body c').0 (body c').1 e)

  finish-ok :
      (t : T) (r : Result A) (c : Conn T) (a : A)
      → (finish t r c).0 ≡ ok a
      → (r ≡ ok a) × ((finish t r c).1.tables ≡ c.tables)
  finish-ok t (err e) c a h = absurd cc
  finish-ok t (ok b) c a h = ground (arith, h)

  -- One that returns a result has left what its body left.
  pub transaction-ok :
      (body : Act T A) (c : Conn T) (a : A)
      → (transaction body c).0 ≡ ok a
      → let c' : Conn T = record c { calls = suc c.calls } in
        ((body c').0 ≡ ok a) × ((transaction body c).1.tables ≡ (body c').1.tables)
  unfolding transaction
  transaction-ok body c a h =
      let c' : Conn T = record c { calls = suc c.calls } in
      ground (arith, finish-ok c.tables (body c').0 (body c').1 a, h)
