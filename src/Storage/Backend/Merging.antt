-- ===== src/Storage/Backend/Merging.antt =====
-- What a successful `MergeOps` of storage/crsqlite/backend.go does to the table of its dataset.
use mobile_db.Prelude.{
  nat_eq, pair_eq, ℤ_eq, Str, str_eq_self, str_eq_inst, All, ◌≡◌, refl, sym, ◌∙◌, some, List, arith,
}
use mathlib.Core.Path.{subst}
use mobile_db.Prelude.Dict.{get}
use mobile_db.Prelude.Exec.{ok, Conn, stmt}
use mobile_db.Prelude.Exec.Runs.{Quiet, moved, Runs, Runs-stmt, Runs-bind, Runs-transaction}
use mobile_db.Core.{CrdtOp}
use mobile_db.Storage.OpLog.{
  Logs, Json, Row, insert_row, read_table, exec_all, insert_ops, ensure_dataset,
}
use mobile_db.Storage.OpLog.Inserts.{
  Marshals, write_all, tables_after, exec_all-Runs, get-tables_after, write_all_present,
}
use mobile_db.Storage.OpLog.Stored.{Inserted, write_all-Inserted}
use mobile_db.Storage.OpLog.Ensure.{key_of, rows_at, ensured, ensure_dataset-Runs, get-ensured}
use mobile_db.Storage.Backend.{merge_ops}

pub read_table-some :
    {A : Type 0} (key : Str) (f : List Row → A) (rows : List Row) (l : Logs)
    → get l.op_logs key ≡ some rows
    → read_table key f l ≡ some (f rows, l)
unfolding read_table
read_table-some key f rows l h = rw (h, read_table)

pub get-ensured_self :
    (a u d : Str) (l : Logs)
    → get (ensured a u d l).op_logs (key_of a u d) ≡ some (rows_at l (key_of a u d))
get-ensured_self a u d l =
    ground (arith, get-ensured a u d (key_of a u d) l, str_eq_self (key_of a u d))

pub rows_at_of_get :
    (l : Logs) (key : Str) (rows : List Row) → get l.op_logs key ≡ some rows → rows_at l key ≡ rows
unfolding rows_at
rows_at_of_get l key rows h = rw (h, rows_at)

module _ {V : Type 0} (json : Json V) (a u d : Str) where
  -- The tables after a merge that meets no error.
  pub merged : List (CrdtOp V) → Logs → Logs
  merged ops l =
      tables_after json insert_row (key_of a u d) ops (rows_at l (key_of a u d)) (ensured a u d l)

  pub merge_ops-Runs :
      (ops : List (CrdtOp V)) (c : Conn Logs)
      → Quiet c
      → All (Marshals json) ops
      → Runs (merge_ops json a u d ops) c tt (merged ops c.tables)
  unfolding merge_ops insert_ops merged
  merge_ops-Runs ops c q m =
      let key = key_of a u d in
      let l = ensured a u d c.tables in
      let rows = rows_at c.tables key in
      let have = get-ensured_self a u d c.tables in
      let t = tables_after json insert_row key ops rows l in
      Runs-bind c (ensure_dataset a u d) (λ _. insert_ops json a u d ops) tt l tt t
        (ensure_dataset-Runs a u d c q)
        (λ k. Runs-transaction (moved c l k) _ tt t q (λ k'.
          Runs-bind (moved c l k') (stmt (read_table key (λ rows. tt)))
            (λ _. exec_all json key insert_row ops) tt l tt t
            (Runs-stmt (moved c l k') _ tt l q (read_table-some key (λ rows. tt) rows l have))
            (λ k''. exec_all-Runs json insert_row key ops rows (moved c l k'') q have m)))

  pub rows_at-merged :
      (ops : List (CrdtOp V)) (l : Logs)
      → rows_at (merged ops l) (key_of a u d)
        ≡ write_all json insert_row ops (rows_at l (key_of a u d))
  unfolding merged
  rows_at-merged ops l =
      let key = key_of a u d in
      rows_at_of_get _ key _ (
        ground (
          arith,
          get-tables_after json insert_row key key ops (rows_at l key) (ensured a u d l)
              (get-ensured_self a u d l),
          str_eq_self key,
        ))

  -- On a connection without driver errors, for operations whose values can be marshalled, a merge
  -- succeeds: the rows that the dataset's table had are there afterwards, every other row holds one of
  -- the operations as an active row, with its identifiers, the text of its value, its timestamp and
  -- its device, and the op_id of every operation has a row. A second merge of the same operations
  -- succeeds and leaves the table as the first one left it.
  pub merge_ops-twice :
      (ops : List (CrdtOp V)) (c : Conn Logs)
      → Quiet c
      → All (Marshals json) ops
      → ((merge_ops json a u d ops c).0 ≡ ok tt)
        × Inserted json ops
            (rows_at c.tables (key_of a u d))
            (rows_at (merge_ops json a u d ops c).1.tables (key_of a u d))
        × ((merge_ops json a u d ops (merge_ops json a u d ops c).1).0 ≡ ok tt)
        × (rows_at (merge_ops json a u d ops (merge_ops json a u d ops c).1).1.tables (key_of a u d)
            ≡ rows_at (merge_ops json a u d ops c).1.tables (key_of a u d))
  merge_ops-twice ops c q m =
      let first = merge_ops-Runs ops c q m in
      let second = merge_ops-Runs ops (moved c (merged ops c.tables) first.calls) q m in
      let rows = rows_at c.tables (key_of a u d) in
      let inserted = write_all-Inserted json ops rows m in
      rw first.result (
        refl,
        subst (Inserted json ops rows) (sym (rows_at-merged ops c.tables)) inserted,
        rw second.result,
        rw second.result (
            rows_at-merged ops (merged ops c.tables)
            ∙ rw rows_at-merged (write_all_present json ops _ inserted.2)),
      )
