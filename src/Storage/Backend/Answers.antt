-- ===== src/Storage/Backend/Answers.antt =====
-- The calls of the backend on a connection without driver errors: each returns, and what it leaves in
-- the table of its dataset.
use mobile_db.Prelude.{
  ℕ, nat_eq, pair_eq, ℤ_eq, Str, str_eq_inst, length, select, ◌≡◌, refl, List, [],
}
use mobile_db.Prelude.Dict.{Dict, MapOrder}
use mobile_db.Prelude.Exec.{ok, Conn, stmt}
use mobile_db.Prelude.Exec.Runs.{Quiet, moved, Runs, Runs-pure, Runs-stmt, Runs-bind}
use mobile_db.Core.{zero_hlc, CrdtOp}
use mobile_db.Storage.OpLog.{
  Logs, Json, Row, is_active, selected, scan_rows, query_ops, count_ops, ensure_dataset, read_table,
}
use mobile_db.Storage.OpLog.Ensure.{key_of, rows_at, ensured, ensure_dataset-Runs}
use mobile_db.Storage.Backend.{get_snapshot, op_count, merge_ops_local, flatten_docs, max_hlc}
use mobile_db.Storage.Backend.Merging.{read_table-some, get-ensured_self, rows_at_of_get}

pub rows_at-ensured :
    (a u d : Str) (l : Logs) → rows_at (ensured a u d l) (key_of a u d) ≡ rows_at l (key_of a u d)
rows_at-ensured a u d l =
    rows_at_of_get (ensured a u d l) (key_of a u d) (rows_at l (key_of a u d))
      (get-ensured_self a u d l)

-- A query of the dataset's table, after its tables have been made.
module _ {A : Type 0} (a u d : Str) (f : List Row → A) (c : Conn Logs) (quiet : Quiet c) where
  pub read-Runs :
      (k : ℕ)
      → Runs
          (stmt (read_table (key_of a u d) f))
          (moved c (ensured a u d c.tables) k)
          (f (rows_at c.tables (key_of a u d)))
          (ensured a u d c.tables)
  read-Runs k =
      let l = ensured a u d c.tables in
      Runs-stmt (moved c l k) _ _ l quiet
        (read_table-some (key_of a u d) f _ l (get-ensured_self a u d c.tables))

pub op_count-Runs :
    (a u d : Str) (c : Conn Logs)
    → Quiet c
    → Runs
        (op_count a u d)
        c
        (length (select is_active (rows_at c.tables (key_of a u d))))
        (ensured a u d c.tables)
unfolding op_count count_ops
op_count-Runs a u d c q =
    Runs-bind c (ensure_dataset a u d) _ tt (ensured a u d c.tables) _ _
      (ensure_dataset-Runs a u d c q) (read-Runs a u d (λ rows. length (select is_active rows)) c q)

pub get_snapshot-Runs :
    {V : Type 0} (json : Json V) (a u d : Str) (o : MapOrder) (c : Conn Logs)
    (ops : List (CrdtOp V))
    → Quiet c
    → scan_rows json (selected zero_hlc (rows_at c.tables (key_of a u d))) ≡ ok ops
    → Runs
        (get_snapshot json a u d o)
        c
        (
          flatten_docs o [] (o.visit (Str × Dict Str V) (merge_ops_local o ops)),
          max_hlc zero_hlc ops,
        )
        (ensured a u d c.tables)
unfolding get_snapshot query_ops
get_snapshot-Runs json a u d o c ops q e =
    let l = ensured a u d c.tables in
    Runs-bind c (ensure_dataset a u d) _ tt l _ l (ensure_dataset-Runs a u d c q) (λ k.
      Runs-bind (moved c l k) (query_ops json a u d zero_hlc) _ ops l _ l
        (Runs-bind (moved c l k) (stmt (read_table (key_of a u d) (selected zero_hlc)))
          (λ rows c'. (scan_rows json rows, c')) _ l ops l
          (read-Runs a u d (selected zero_hlc) c q k)
          (λ k'. record { calls = k'; result = rw e refl }))
        (λ k'. Runs-pure (moved c l k') _))
