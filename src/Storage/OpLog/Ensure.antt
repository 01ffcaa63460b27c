-- ===== src/Storage/OpLog/Ensure.antt =====
-- `EnsureDataset` makes the tables of a dataset, and leaves the rows that are there.
use mobile_db.Prelude.{
  suc, if◌then◌else◌, Bool-cases, ◌==◌, nat_eq, pair_eq, ℤ_eq, Str, codes, str_eq_iff, str_eq_inst,
  ◌≡◌, inl, inr, none, some, List, [], ◌++◌, arith,
}
use mobile_db.Prelude.Dict.{get, get-put}
use mobile_db.Prelude.Exec.{Conn, stmt}
use mobile_db.Prelude.Exec.Runs.{Quiet, Runs}
use mobile_db.Storage.TableName.{dataset_table, table_key}
use mobile_db.Storage.OpLog.{
  Logs, Row, create_snapshots, create_table, is_crr, mark_crr, ensure_dataset,
}

-- The key of a dataset's table, and its rows; a missing table counts as empty.
abbrev pub key_of : Str → Str → Str → Str
key_of a u d = table_key (dataset_table a u d)

unfoldable pub rows_at : Logs → Str → List Row
rows_at l key = elim (get l.op_logs key) [ none ↦ [] | some rows ↦ rows ]

unfoldable pub ensured : Str → Str → Str → Logs → Logs
ensured a u d l =
    let shadow = dataset_table a u d ++ codes "__crsql_clock" in
    let l' = create_table (key_of a u d) (create_snapshots l) in
    if is_crr shadow l' then l' else mark_crr shadow l'

pub ensure_dataset-Runs :
    (a u d : Str) (c : Conn Logs)
    → Quiet c
    → Runs (ensure_dataset a u d) c tt (ensured a u d c.tables)
unfolding ensure_dataset ensured stmt
ensure_dataset-Runs a u d c q =
    let l = create_table (key_of a u d) (create_snapshots c.tables) in
    let n = c.calls in
    elim (Bool-cases (is_crr (dataset_table a u d ++ codes "__crsql_clock") l)) [
      | inl e ↦ record {
        calls = suc (suc (suc n));
        result = rw (q n, q (suc n), q (suc (suc n)), e);
      }
      | inr e ↦ record {
        calls = suc (suc (suc (suc n)));
        result = rw (q n, q (suc n), q (suc (suc n)), e, q (suc (suc (suc n))));
      }
    ]

pub get-ensured :
    (a u d j : Str) (l : Logs)
    → get (ensured a u d l).op_logs j
      ≡ (if key_of a u d == j then some (rows_at l j) else get l.op_logs j)
unfolding ensured rows_at create_table create_snapshots mark_crr
get-ensured a u d j l =
    ground (arith, get-put l.op_logs (key_of a u d) [] j, str_eq_iff (key_of a u d) j)
